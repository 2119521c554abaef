-- ===== src/Gemm/Schedule.antt =====
-- Which element of which matrix of a batch an item of the reference kernel computes.
use native.Mathlib.Nat.{mod-lt, div-add-mod', mod-add-div', div-lt_iff_lt-mul, mul-le-mul_right}
use mathlib.Core.Path.{ap₂}
use sycl_blas.Base.{
  ℕ, ◌+◌, ◌-◌, ◌*◌, ◌/◌, ◌%◌, ◌<◌, ◌≤◌, ◌≡◌, ◌≢◌, List, [], some, ap, ◌∙◌, arith, leb,
  if◌then◌else◌,
}
use sycl_blas.Base.Int.{pos, ◌+ℤ◌}
use sycl_blas.Base.Scalar.{Scalar, IsExact}
use sycl_blas.Views.{Store}
use sycl_blas.Kernel.{Write}
use sycl_blas.Kernel.Values.{get_elem?}
use sycl_blas.Gemm.{
  Gemm, m_, n_, run_item, gemm_eval, get_workgroup_cluster, get_num_workgroup_cluster, get_groups,
}
use sycl_blas.Gemm.Batches.{step_pos}
use sycl_blas.Gemm.Product.{c_entry, gemm_value}
use sycl_blas.Base.Division.{split_div, split_mod}
use sycl_blas.Gemm.Rounds.{gt→leb, run_item_lem}

-- An item lies in the range of the grid.
item_lt :
    (cluster repeats w r l size : ℕ)
    → l < size
    → r < cluster
    → w < repeats
    → l + (r + w * cluster) * size < cluster * repeats * size
item_lt cluster repeats w r l size hl hr hw =
    let clusters : (w + 1) * cluster ≤ repeats * cluster = mul-le-mul_right cluster (omega arith) in
    let group_below : r + w * cluster + 1 ≤ cluster * repeats = omega arith in
    let items_below : (r + w * cluster + 1) * size ≤ cluster * repeats * size =
      mul-le-mul_right size group_below in
    omega (arith, hl, items_below)

module _ {ℓ} {A : Type ℓ} (s : Scalar A) (g : Gemm A) where
  -- What an item does, by its work group's place in a cluster and its own in the group.
  gemm_eval_at :
      (groups w r l : ℕ) (st : Store A)
      → l < g.wg_size
      → r < get_workgroup_cluster g
      → w < g.batch_size
      → r * g.wg_size + l < m_ g * n_ g
      → gemm_eval s g groups (l + (r + w * get_workgroup_cluster g) * g.wg_size) st
        ≡ run_item s g w (groups / get_workgroup_cluster g) (r * g.wg_size + l) st
  unfolding gemm_eval
  gemm_eval_at groups w r l st hl hr hw h =
      let group = split_div (r + w * get_workgroup_cluster g) l g.wg_size hl in
      ap₂ (λ x y. body (x / get_workgroup_cluster g) (x % get_workgroup_cluster g) y) group
        (split_mod (r + w * get_workgroup_cluster g) l g.wg_size hl)
      ∙ ap₂ (λ x y. body x y l) (split_div w r (get_workgroup_cluster g) hr)
          (split_mod w r (get_workgroup_cluster g) hr)
      ∙ rw (gt→leb g.batch_size w hw, gt→leb (m_ g * n_ g) (r * g.wg_size + l) h)
    where
      body : ℕ → ℕ → ℕ → List (Write A)
      body x y z =
          if leb g.batch_size x
          then []
          else if leb (m_ g * n_ g) (y * g.wg_size + z)
          then []
          else run_item s g x (groups / get_workgroup_cluster g) (y * g.wg_size + z) st

  -- The clusters of work groups have an item for each entry of a matrix.
  cluster_lem :
      (item : ℕ) → 0 < g.wg_size → item < m_ g * n_ g → item / g.wg_size < get_workgroup_cluster g
  unfolding get_workgroup_cluster
  cluster_lem item hw h =
      let all : m_ g * n_ g - 1 < ((m_ g * n_ g - 1) / g.wg_size + 1) * g.wg_size =
        (div-lt_iff_lt-mul hw).0 (omega arith) in
      (div-lt_iff_lt-mul hw).1 (omega arith)

  entry_lt : (row col : ℕ) → row < m_ g → col < n_ g → row + col * m_ g < m_ g * n_ g
  entry_lt row col hr hc =
      let h : (col + 1) * m_ g ≤ n_ g * m_ g = mul-le-mul_right (m_ g) (omega arith) in omega arith

  -- Every element of every matrix of the batch is computed: some item, in some round, writes it, and
  -- writes the entry of the product of the memory before, with exact arithmetic, for a work group that
  -- is not empty, where A and B are in other buffers than C and the leading dimension of C is at least
  -- the number of its rows.
  pub gemm_eval_lem :
      (exact : IsExact s) (compute_units batch row col : ℕ) (st : Store A)
      → g.a_.data_.name ≢ g.c_.data_.name
      → g.b_.data_.name ≢ g.c_.data_.name
      → m_ g ≤ g.c_.leading
      → 0 < g.wg_size
      → batch < g.batch_size
      → row < m_ g
      → col < n_ g
      → (i : ℕ) × (t : ℕ) × (i < get_groups g compute_units * g.wg_size)
        × (get_elem? (gemm_eval s g (get_groups g compute_units) i st) t
            ≡ some (record {
              name = g.c_.data_.name;
              address = g.c_.disp +ℤ pos (c_entry g batch row col);
              value = gemm_value exact g st batch row col;
            }))
  unfolding get_groups get_num_workgroup_cluster
  gemm_eval_lem exact compute_units batch row col st other_a other_b wide items hb hr hc = (
    i,
    batch / repeats,
    inside,
    ap (λ x. get_elem? x (batch / repeats))
          (gemm_eval_at (get_groups g compute_units) w r l st l_lt r_lt w_lt
              (omega (arith, item_eq, entry))
            ∙ ap₂ (λ x y. run_item s g w x y st) repeats_eq item_eq)
        ∙ run_item_lem s g exact repeats batch row col st other_a other_b
            (step_pos g item repeats wide entry repeats_pos) repeats_pos hb hr,
  )
    where
      repeats : ℕ
      repeats = get_num_workgroup_cluster g compute_units

      item : ℕ
      item = row + col * m_ g

      entry : item < m_ g * n_ g
      entry = entry_lt row col hr hc

      w : ℕ
      w = batch % repeats

      r : ℕ
      r = item / g.wg_size

      l : ℕ
      l = item % g.wg_size

      i : ℕ
      i = l + (r + w * get_workgroup_cluster g) * g.wg_size

      item_eq : r * g.wg_size + l ≡ item
      item_eq = div-add-mod' item g.wg_size

      l_lt : l < g.wg_size
      l_lt = mod-lt item items

      r_lt : r < get_workgroup_cluster g
      r_lt = cluster_lem item items entry

      repeats_pos : 0 < repeats
      repeats_pos = omega arith

      w_lt : w < g.batch_size
      w_lt = let e = mod-add-div' batch repeats in omega arith

      repeats_eq : get_groups g compute_units / get_workgroup_cluster g ≡ repeats
      repeats_eq =
          ap (λ x. x / get_workgroup_cluster g) {x = get_groups g compute_units}
            {y = 0 + repeats * get_workgroup_cluster g} (omega arith)
          ∙ split_div repeats 0 (get_workgroup_cluster g) (omega (arith, r_lt))

      inside : i < get_groups g compute_units * g.wg_size
      inside =
          item_lt (get_workgroup_cluster g) repeats w r l g.wg_size l_lt r_lt
            (mod-lt batch repeats_pos)
