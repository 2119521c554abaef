-- ===== src/Gemm/Owners.antt =====
-- Which item of the grid owns an entry of C, and what an item reads.
use native.Mathlib.Nat.{mod-lt, mod-add-div', div-lt_iff_lt-mul}
use mathlib.Core.Path.{ap₂, subst}
use sycl_blas.Base.{
  ℕ, zero, suc, ◌+◌, ◌-◌, ◌*◌, ◌/◌, ◌%◌, ◌<◌, ◌≤◌, ◌≡◌, ◌≢◌, refl, sym, ap, ◌∙◌, arith, ltb, leb,
  Bool-cases, inl, inr, ltb→lt, ◌∷◌,
}
use sycl_blas.Base.Int.{ℤ, pos, ◌+ℤ◌}
use sycl_blas.Base.Scalar.{Scalar}
use sycl_blas.Views.{Store}
use sycl_blas.Views.Matrix.{flat_injective}
use sycl_blas.Gemm.{Gemm, m_, n_, c_size, at, run_item, gemm_eval, get_workgroup_cluster}
use sycl_blas.Gemm.Batches.{rounds, result_congr, batch_loop-rounds, step_pos}
use sycl_blas.Gemm.Product.{c_entry}
use sycl_blas.Base.Division.{split_div, split_mod}
use sycl_blas.Gemm.Rounds.{spread}
use sycl_blas.Gemm.Writes.{first_batch, item_place, leb→lt}

module _ {ℓ} {A : Type ℓ} (g : Gemm A) where
  -- The item that computes the entry at a place of the cluster, for a matrix of the batch, where the
  -- grid has clusters for `repeats` matrices.
  abbrev pub owner : ℕ → ℕ → ℕ → ℕ
  owner repeats batch place =
      place % g.wg_size
      + (place / g.wg_size + batch % repeats * get_workgroup_cluster g) * g.wg_size

  -- An item is the owner of the place that it takes, in each round.
  pub owner_lem :
      (repeats i t : ℕ)
      → 0 < g.wg_size
      → first_batch g i < repeats
      → owner repeats (first_batch g i + t * repeats) (item_place g i) ≡ i
  owner_lem repeats i t items h =
      ap (λ w. item_place g i % g.wg_size + (item_place g i / g.wg_size + w * cluster) * g.wg_size)
        (split_mod t (first_batch g i) repeats h)
      ∙ ap₂ (λ x y. x + (y + first_batch g i * cluster) * g.wg_size)
          (ap (λ x. x % g.wg_size) {x = item_place g i} {y = l + r * g.wg_size} (omega arith)
            ∙ split_mod r l g.wg_size inside)
          (ap (λ x. x / g.wg_size) {x = item_place g i} {y = l + r * g.wg_size} (omega arith)
            ∙ split_div r l g.wg_size inside)
      ∙ ap (λ x. l + x * g.wg_size) (mod-add-div' (i / g.wg_size) cluster)
      ∙ mod-add-div' i g.wg_size
    where
      cluster : ℕ
      cluster = get_workgroup_cluster g

      l : ℕ
      l = i % g.wg_size

      r : ℕ
      r = i / g.wg_size % get_workgroup_cluster g

      inside : l < g.wg_size
      inside = mod-lt i items

  -- The items of the grid have their first matrix among the first `repeats`.
  pub first_batch_lt :
      (repeats i : ℕ)
      → 0 < g.wg_size
      → 0 < get_workgroup_cluster g
      → i < get_workgroup_cluster g * repeats * g.wg_size
      → first_batch g i < repeats
  first_batch_lt repeats i items clusters h = (div-lt_iff_lt-mul clusters).1 (
      let below : i / g.wg_size < get_workgroup_cluster g * repeats =
        (div-lt_iff_lt-mul items).1 h in
      omega (arith, below))

  -- Distinct entries of C of a batch are distinct elements, if the leading dimension is wide enough.
  pub c_entry_injective :
      (batch row col batch' row' col' : ℕ)
      → m_ g ≤ g.c_.leading
      → (row < m_ g) × (col < n_ g)
      → (row' < m_ g) × (col' < n_ g)
      → c_entry g batch row col ≡ c_entry g batch' row' col'
      → (batch ≡ batch') × (row ≡ row') × (col ≡ col')
  unfolding c_size
  c_entry_injective batch row col batch' row' col' wide (hr, hc) (hr', hc') e =
      let lines =
        flat_injective g.c_.leading row (col + n_ g * batch) row' (col' + n_ g * batch')
          (omega arith) (omega arith) (omega (arith, e)) in
      let parts = flat_injective (n_ g) col batch col' batch' hc hc' lines.1 in
      (parts.1, lines.0, parts.0)

module _ {ℓ} {A : Type ℓ} (s : Scalar A) (g : Gemm A) (st st' : Store A)
    (same_a : (x : ℤ) → st g.a_.data_.name x ≡ st' g.a_.data_.name x)
    (same_b : (x : ℤ) → st g.b_.data_.name x ≡ st' g.b_.data_.name x) where
  agree_at : {x y : ℕ} → x ≡ y → at g st g.c_ x ≡ at g st' g.c_ x → at g st g.c_ y ≡ at g st' g.c_ y
  agree_at e h = subst (λ z. at g st g.c_ z ≡ at g st' g.c_ z) e h

  rounds_congr :
      (fuel w d left a b c : ℕ)
      → w < left
      → ((t : ℕ)
          → w + t * d < left
          → at g st g.c_ (c + t * (c_size g * d)) ≡ at g st' g.c_ (c + t * (c_size g * d)))
      → rounds s g fuel w d left a b c st ≡ rounds s g fuel w d left a b c st'
  unfolding rounds
  rounds_congr zero w d left a b c h same = refl
  rounds_congr (suc fuel) w d left a b c h same =
      ap₂
        (λ v rest.
          record { name = g.c_.data_.name; address = g.c_.disp +ℤ pos c; value = v } ∷ rest)
        (result_congr s g st st' same_a same_b a b c
          (agree_at {x = c + 0 * (c_size g * d)} (omega arith) (same 0 (omega arith))))
        (elim (Bool-cases (ltb w (left - d))) [
          | inl more ↦ rw more (
              rounds_congr fuel w d (left - d) _ _ (c + c_size g * d) (ltb→lt w (left - d) more)
                (λ t h'.
                  agree_at {x = c + suc t * (c_size g * d)} (omega arith)
                    (same (suc t) (let l = ltb→lt w (left - d) more in omega arith))))
          | inr done ↦ rw done
        ])

  -- An item does the same in two memories with the same A and B that agree where it writes.
  pub gemm_eval_congr :
      (groups i : ℕ)
      → g.a_.data_.name ≢ g.c_.data_.name
      → g.b_.data_.name ≢ g.c_.data_.name
      → m_ g ≤ g.c_.leading
      → 0 < groups / get_workgroup_cluster g
      → ((t : ℕ)
          → first_batch g i + t * (groups / get_workgroup_cluster g) < g.batch_size
          → item_place g i < m_ g * n_ g
          → at g st g.c_ (
              c_entry g
                (first_batch g i + t * (groups / get_workgroup_cluster g))
                (item_place g i % m_ g)
                (item_place g i / m_ g))
            ≡ at g st' g.c_ (
                c_entry g
                  (first_batch g i + t * (groups / get_workgroup_cluster g))
                  (item_place g i % m_ g)
                  (item_place g i / m_ g)))
      → gemm_eval s g groups i st ≡ gemm_eval s g groups i st'
  unfolding gemm_eval run_item
  gemm_eval_congr groups i other_a other_b wide stride same =
      elim (Bool-cases (leb g.batch_size (first_batch g i))) [
        | inl idle ↦ rw idle
        | inr busy ↦ elim (Bool-cases (leb (m_ g * n_ g) (item_place g i))) [
          | inl beyond ↦ rw (busy, beyond)
          | inr inside ↦
              let far =
                step_pos g (item_place g i) (groups / get_workgroup_cluster g) wide
                  (leb→lt (m_ g * n_ g) (item_place g i) inside) stride in
              rw (busy, inside)
                (batch_loop-rounds s g other_a other_b g.batch_size _ _ g.batch_size _ _ _ st far
                  ∙ rounds_congr g.batch_size _ _ g.batch_size _ _ _
                      (leb→lt g.batch_size (first_batch g i) busy)
                      (λ t h.
                        agree_at
                          (sym (
                            spread (first_batch g i) t (groups / get_workgroup_cluster g) (c_size g)
                              _ _ refl))
                          (same t h (leb→lt (m_ g * n_ g) (item_place g i) inside)))
                  ∙ sym (
                      batch_loop-rounds s g other_a other_b g.batch_size _ _ g.batch_size _ _ _ st'
                        far))
        ]
      ]
