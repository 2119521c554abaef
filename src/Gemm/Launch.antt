-- ===== src/Gemm/Launch.antt =====
-- The launch of the reference kernel over its whole grid.
use mathlib.Core.Path.{subst, ap₂}
use native.Mathlib.Nat.{mod-lt, mod-add-div', div-lt_iff_lt-mul}
use sycl_blas.Base.{ℕ, ◌+◌, ◌*◌, ◌/◌, ◌%◌, ◌<◌, ◌≤◌, ◌≡◌, ◌≢◌, some, refl, sym, ap, ◌∙◌, arith}
use sycl_blas.Base.Int.{ℤ, pos, ◌+ℤ◌, pos_offset_injective}
use sycl_blas.Base.Scalar.{Scalar, IsExact}
use sycl_blas.Views.{Store}
use sycl_blas.Kernel.{Write, launch, IsIndependent}
use sycl_blas.Kernel.Order.{launch_at, launch_other}
use sycl_blas.Gemm.{
  Gemm, m_, n_, gemm_eval, get_workgroup_cluster, get_num_workgroup_cluster, get_groups,
}
use sycl_blas.Gemm.Product.{c_entry, gemm_value}
use sycl_blas.Base.Division.{split_div}
use sycl_blas.Kernel.Values.{get_elem?, some_injective, All-get_elem?, apply_all_value}
use sycl_blas.Gemm.Schedule.{gemm_eval_lem}
use sycl_blas.Gemm.Writes.{first_batch, item_place, positive_left, gemm_eval_round, gemm_eval_only}
use sycl_blas.Gemm.Owners.{owner, owner_lem, first_batch_lt, c_entry_injective, gemm_eval_congr}

-- Where the entries of C are.
abbrev pub IsEntry {ℓ} : {A : Type ℓ} → Gemm A → ℕ → ℕ → ℕ → Type 0
IsEntry g batch row col = (batch < g.batch_size) × (row < m_ g) × (col < n_ g)

module _ {ℓ} {A : Type ℓ} {s : Scalar A} (exact : IsExact s) (g : Gemm A) (compute_units : ℕ)
    (items : 0 < g.wg_size) (wide : m_ g ≤ g.c_.leading)
    (other_a : g.a_.data_.name ≢ g.c_.data_.name)
    (other_b : g.b_.data_.name ≢ g.c_.data_.name) where
  abbrev repeats : ℕ
  repeats = get_groups g compute_units / get_workgroup_cluster g

  abbrev total : ℕ
  total = get_groups g compute_units * g.wg_size

  abbrev place : ℕ → ℕ → ℕ → ℤ
  place batch row col = g.c_.disp +ℤ pos (c_entry g batch row col)

  -- The entries of C that an item owns.
  abbrev Owned : ℕ → ℤ → Type 0
  Owned i a =
      (batch : ℕ) × (row : ℕ) × (col : ℕ) × IsEntry g batch row col
      × (owner g repeats batch (row + col * m_ g) ≡ i)
      × (place batch row col ≡ a)

  repeats_eq : repeats ≡ get_num_workgroup_cluster g compute_units
  unfolding get_groups get_workgroup_cluster
  repeats_eq =
      ap (λ x. x / get_workgroup_cluster g) {x = get_groups g compute_units}
        {y = 0 + get_num_workgroup_cluster g compute_units * get_workgroup_cluster g} (omega arith)
      ∙ split_div (get_num_workgroup_cluster g compute_units) 0 (get_workgroup_cluster g)
          (omega arith)

  some_repeats : 0 < repeats
  unfolding get_num_workgroup_cluster
  some_repeats = omega (arith, repeats_eq)

  -- An item owns what it takes in a round.
  round-Owned :
      (i t : ℕ)
      → i < total
      → first_batch g i + t * repeats < g.batch_size
      → item_place g i < m_ g * n_ g
      → Owned i
          (place (first_batch g i + t * repeats) (item_place g i % m_ g) (item_place g i / m_ g))
  unfolding get_groups get_workgroup_cluster
  round-Owned i t h hb hp =
      let rows = positive_left (m_ g) (n_ g) (item_place g i) hp in
      (
        first_batch g i + t * repeats,
        item_place g i % m_ g,
        item_place g i / m_ g,
        (hb, mod-lt (item_place g i) rows, (div-lt_iff_lt-mul rows).1 (omega (arith, hp))),
        ap (owner g repeats (first_batch g i + t * repeats)) (mod-add-div' (item_place g i) (m_ g))
            ∙ owner_lem g repeats i t items (first_batch_lt g repeats i items (omega arith) inside),
        refl,
      )
    where
      inside : i < get_workgroup_cluster g * repeats * g.wg_size
      inside = subst (λ n. i < get_workgroup_cluster g * n * g.wg_size) (sym repeats_eq) h

  write-Owned :
      (i : ℕ) (st : Store A) (t : ℕ) (x : Write A)
      → i < total
      → get_elem? (gemm_eval s g (get_groups g compute_units) i st) t ≡ some x
      → (x.name ≡ g.c_.data_.name) × Owned i x.address
  write-Owned i st t x h e =
      let round =
        gemm_eval_round s g exact (get_groups g compute_units) i st t x other_a other_b wide
          some_repeats e in
      let same = some_injective round.2 in
      (
        sym (ap (λ w. w.name) same),
        subst (Owned i) (ap (λ w. w.address) same) (round-Owned i t h round.0 round.1),
      )

  independent :
      IsIndependent total
        (gemm_eval s g (get_groups g compute_units))
        (λ i b a. b ≡ g.c_.data_.name → Owned i a)
        (λ i b a. (b ≡ g.c_.data_.name) × Owned i a)
  independent = record {
    frame = λ i st st' h same.
        gemm_eval_congr s g st st' (λ x. same g.a_.data_.name x (λ e. absurd (other_a e)))
          (λ x. same g.b_.data_.name x (λ e. absurd (other_b e))) (get_groups g compute_units) i
          other_a other_b wide some_repeats
          (λ t hb hp. same g.c_.data_.name _ (λ _. round-Owned i t h hb hp));
    within = λ i st h.
        All-get_elem? (λ w. (w.name ≡ g.c_.data_.name) × Owned i w.address)
          (gemm_eval s g (get_groups g compute_units) i st) (λ t x. write-Owned i st t x h);
    owned = λ i b a h w _. w.1;
    apart = λ i j b a hi hj ne w t.
        let p = w.1 in
        let q = t w.0 in
        let same =
          c_entry_injective g p.0 p.1 p.2 q.0 q.1 q.2 wide (p.3.1, p.3.2) (q.3.1, q.3.2)
            (pos_offset_injective g.c_.disp _ _ (p.5 ∙ sym q.5)) in
        ne (sym p.4 ∙ ap₂ (owner g repeats) same.0 (ap₂ (λ x y. x + y * m_ g) same.1 same.2) ∙ q.4);
  }

  -- Writes to one entry of C carry one value.
  one_value :
      (i : ℕ) (st : Store A) (batch row col : ℕ)
      → IsEntry g batch row col
      → (t : ℕ) (x : Write A)
      → get_elem? (gemm_eval s g (get_groups g compute_units) i st) t ≡ some x
      → x.name ≡ g.c_.data_.name
      → x.address ≡ place batch row col
      → x.value ≡ gemm_value exact g st batch row col
  one_value i st batch row col (hb, hr, hc) t x e n p =
      let w =
        gemm_eval_only s g exact (get_groups g compute_units) i st t x other_a other_b wide
          some_repeats e in
      let same = some_injective w.6 in
      let at =
        c_entry_injective g w.0 w.1 w.2 batch row col wide (w.4, w.5) (hr, hc)
          (pos_offset_injective g.c_.disp _ _ (ap (λ y. y.address) same ∙ p)) in
      sym (ap (λ y. y.value) same) ∙ ap₂ (λ f c. f c) (ap₂ (gemm_value exact g st) at.0 at.1) at.2

  -- The kernel over its whole grid: afterwards the entries of C, of all matrices of the batch, have the
  -- entries of the product of the memory before, with exact arithmetic, and no other element of any
  -- buffer has changed, where A and B are in other buffers than C, the leading dimension of C is at
  -- least the number of its rows, and a work group is not empty.
  pub gemm_launch_lem :
      (st : Store A)
      → ((batch row col : ℕ)
          → IsEntry g batch row col
          → launch total
              (gemm_eval s g (get_groups g compute_units))
              st
              g.c_.data_.name
              (place batch row col)
            ≡ gemm_value exact g st batch row col)
        × ((b : ℕ) (a : ℤ)
            → ((batch row col : ℕ)
                → IsEntry g batch row col
                → ¬ ((b ≡ g.c_.data_.name) × (a ≡ place batch row col)))
            → launch total (gemm_eval s g (get_groups g compute_units)) st b a ≡ st b a)
  gemm_launch_lem st = (
    λ batch row col h.
        let i =
          gemm_eval_lem s g exact compute_units batch row col st other_a other_b wide items h.0 h.1
            h.2 in
        launch_at independent st i.0 g.c_.data_.name (place batch row col) i.2
          (λ _. (write-Owned i.0 st i.1 _ i.2 i.3).1)
        ∙ apply_all_value _ st _ _ _ (one_value i.0 st batch row col h) i.1 _ i.3 refl refl,
    λ b a miss.
        launch_other independent st b a (λ j hj w. miss w.1.0 w.1.1 w.1.2 w.1.3 (w.0, sym w.1.5)),
  )
