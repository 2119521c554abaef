-- ===== src/GemvCol/Blocks.antt =====
-- The blocks of columns of an item of `GemvCol`, one after the other.
use mathlib.Core.Path.{ap₂}
use sycl_blas.Base.{
  ℕ, zero, suc, ◌+◌, ◌-◌, ◌<◌, ◌≤◌, ◌≡◌, ◌≢◌, ◌⊎◌, inl, inr, List, [], ◌∷◌, ◌++◌, refl, sym, ap,
  ◌∙◌, arith, Bool-cases, ltb, ◌&&◌, ◌==◌, ==_iff, if◌then◌else◌, if_yes, if_no, ltb→lt, ltb→le,
  min,
}
use sycl_blas.Base.Int.{ℤ}
use sycl_blas.Base.Scalar.{Scalar, IsExact, sum_monoid}
use sycl_blas.Base.Sums.{sum, sum-add}
use sycl_blas.Base.Matrices.{total, total_congr}
use sycl_blas.Views.{Store, vector_eval, matrix_address}
use sycl_blas.Kernel.{Write, apply_all}
use sycl_blas.GemvCol.{GemvCol, is_factor, copy_all, block_val, blocks_loop}
use sycl_blas.GemvCol.Sums.{row_term, block_val_lem}
use sycl_blas.GemvCol.Rows.{IsRow, IsOutside, rows_of, rows_lem}

apply_all-++ {ℓ} :
    {A : Type ℓ} (ws vs : List (Write A)) (st : Store A)
    → apply_all (ws ++ vs) st ≡ apply_all vs (apply_all ws st)
unfolding apply_all
apply_all-++ [] vs st = refl
apply_all-++ (w ∷ ws) vs st = apply_all-++ ws vs _

module _ {ℓ} {A : Type ℓ} {s : Scalar A} (exact : IsExact s) (g : GemvCol)
    (other_a : g.matrix_.data_.name ≢ g.lhs_.data_.name)
    (other_x : g.vector_.data_.name ≢ g.lhs_.data_.name) where
  pub row_term_frame :
      (st st' : Store A) (r c : ℕ)
      → ((b : ℕ) (a : ℤ) → b ≢ g.lhs_.data_.name → st b a ≡ st' b a)
      → row_term exact g st r c ≡ row_term exact g st' r c
  unfolding vector_eval
  row_term_frame st st' r c same =
      ap₂ s.add
        (ap₂ (λ x y. if is_factor s g r c then s.mul x y else s.zero)
          (same g.matrix_.data_.name (matrix_address g.matrix_ r c) other_a)
          (same g.vector_.data_.name _ other_x))
        (ap (λ x. if g.diag && g.unit && r == c then x else s.zero)
          (same g.vector_.data_.name _ other_x))

  module _ (local_sz id_wfc frs_row lst_row : ℕ) (items : 0 < local_sz)
      (one_to_one : (r r' : ℕ)
        → r < lst_row
        → r' < lst_row
        → matrix_address g.lhs_ r id_wfc ≡ matrix_address g.lhs_ r' id_wfc
        → r ≡ r')
      (frs_col lst_col : ℕ) (blocks : 0 < g.local_memory_size_) (start : Store A) where
    abbrev Row : ℕ → Type 0
    Row = IsRow s g local_sz id_wfc frs_row lst_row items one_to_one

    abbrev Outside : ℕ → ℤ → Type 0
    Outside = IsOutside s g local_sz id_wfc frs_row lst_row items one_to_one

    abbrev cell : Store A → ℕ → A
    cell st r = st g.lhs_.data_.name (matrix_address g.lhs_ r id_wfc)

    -- The terms of a row from the first column up to the column `c`.
    abbrev prefix : ℕ → ℕ → A
    prefix r c = total exact (c - frs_col) (λ k. row_term exact g start r (frs_col + k))

    prefix_step :
        (r c n : ℕ)
        → frs_col ≤ c
        → s.add (prefix r c) (total exact n (λ k. row_term exact g start r (c + k)))
          ≡ prefix r (c + n)
    prefix_step r c n h =
        ap (s.add (prefix r c)) (
          total_congr exact n _ _ (λ k _.
            ap (row_term exact g start r) {x = c + k} {y = frs_col + (c - frs_col + k)}
              (omega arith)))
        ∙ sym (
            sum-add (sum_monoid exact) (c - frs_col) n
              (λ k. row_term exact g start r (frs_col + k)))
        ∙ ap (λ m. total exact m (λ k. row_term exact g start r (frs_col + k)))
            {x = c - frs_col + n} {y = c + n - frs_col} (omega arith)

    -- The rows have been summed up to the column, or this is the first one.
    abbrev IsSummed : ℕ → Store A → Type ℓ
    IsSummed colid st =
        ((b : ℕ) (a : ℤ) → b ≢ g.lhs_.data_.name → st b a ≡ start b a)
        × ((colid ≡ frs_col) ⊎ ((r : ℕ) → Row r → cell st r ≡ prefix r (min colid lst_col)))

    abbrev block_of : ℕ → (ℕ → A) → Store A → ℕ → A
    block_of colid shr_mem st =
        block_val s g st
          (copy_all s g st local_sz colid (min g.local_memory_size_ (lst_col - colid)) local_sz
            shr_mem)
          id_wfc frs_col colid (min g.local_memory_size_ (lst_col - colid))

    abbrev after : ℕ → (ℕ → A) → Store A → Store A
    after colid shr_mem st =
        apply_all
          (rows_of s g local_sz id_wfc frs_row lst_row items one_to_one (block_of colid shr_mem st))
          st

    ends :
        (colid : ℕ) (st : Store A)
        → frs_col < lst_col
        → lst_col ≤ colid
        → IsSummed colid st
        → (r : ℕ) → Row r
        → cell st r ≡ prefix r lst_col
    ends colid st some over summed r row = elim summed.1 [
      | inl same ↦ absurd (omega arith)
      | inr sums ↦ sums r row ∙ ap (prefix r) {x = min colid lst_col} {y = lst_col} (omega arith)
    ]

    block_of_lem :
        (colid : ℕ) (shr_mem : ℕ → A) (st : Store A) (r : ℕ)
        → frs_col ≤ colid
        → colid < lst_col
        → IsSummed colid st
        → Row r
        → block_of colid shr_mem st r ≡ prefix r (min (colid + g.local_memory_size_) lst_col)
    unfolding sum
    block_of_lem colid shr_mem st r lo hi summed row =
        let blq_sz = min g.local_memory_size_ (lst_col - colid) in
        block_val_lem exact g st local_sz shr_mem id_wfc frs_col colid blq_sz r items
        ∙ ap₂ s.add
            (elim (Bool-cases (colid == frs_col)) [
              | inl first ↦
                  let same = (==_iff colid frs_col).0 first in
                  if_yes (colid == frs_col) _ _ first
                  ∙ ap (λ m. total exact m (λ k. row_term exact g start r (frs_col + k))) {x = 0}
                      {y = colid - frs_col} (omega arith)
              | inr later ↦ if_no (colid == frs_col) _ _ later ∙ elim summed.1 [
                | inl same ↦ absurd (let yes = (==_iff colid frs_col).1 same in ground arith)
                | inr sums ↦
                    sums r row ∙ ap (prefix r) {x = min colid lst_col} {y = colid} (omega arith)
              ]
            ])
            (total_congr exact blq_sz _ _ (λ k _. row_term_frame st start r (colid + k) summed.0))
        ∙ prefix_step r colid blq_sz lo
        ∙ ap (prefix r) (omega arith)

    after-IsSummed :
        (colid : ℕ) (shr_mem : ℕ → A) (st : Store A)
        → frs_col ≤ colid
        → colid < lst_col
        → IsSummed colid st
        → IsSummed (colid + g.local_memory_size_) (after colid shr_mem st)
    after-IsSummed colid shr_mem st lo hi summed =
        let all =
          rows_lem s g local_sz id_wfc frs_row lst_row items one_to_one (block_of colid shr_mem st)
            st in
        (
          λ b a other. all.1 b a (λ r row q. other q.0) ∙ summed.0 b a other,
          inr (λ r row. all.0 r row ∙ block_of_lem colid shr_mem st r lo hi summed row),
        )

    -- The blocks leave the sums over all columns of the group in the rows of the item, and change
    -- nothing else.
    pub blocks_lem :
        (fuel colid : ℕ) (shr_mem : ℕ → A) (st : Store A)
        → frs_col < lst_col
        → frs_col ≤ colid
        → lst_col ≤ colid + fuel
        → IsSummed colid st
        → ((r : ℕ)
            → Row r
            → cell
                (apply_all
                  (blocks_loop s g local_sz id_wfc frs_row lst_row frs_col lst_col fuel colid
                    shr_mem st)
                  st)
                r
              ≡ prefix r lst_col)
          × ((b : ℕ) (a : ℤ)
              → Outside b a
              → apply_all
                  (blocks_loop s g local_sz id_wfc frs_row lst_row frs_col lst_col fuel colid
                    shr_mem st)
                  st
                  b
                  a
                ≡ st b a)
    unfolding blocks_loop apply_all
    blocks_lem zero colid shr_mem st some lo enough summed =
        (λ r row. ends colid st some (omega arith) summed r row, λ b a _. refl)
    blocks_lem (suc fuel) colid shr_mem st some lo enough summed =
        elim (Bool-cases (ltb colid lst_col)) [
          | inr ge ↦ rw ge (λ r row. ends colid st some (ltb→le _ _ ge) summed r row, λ b a _. refl)
          | inl lt ↦
              let hi = ltb→lt _ _ lt in
              let blq_sz = min g.local_memory_size_ (lst_col - colid) in
              let loaded = copy_all s g st local_sz colid blq_sz local_sz shr_mem in
              let ws =
                rows_of s g local_sz id_wfc frs_row lst_row items one_to_one
                  (block_of colid shr_mem st) in
              let rest =
                blocks_loop s g local_sz id_wfc frs_row lst_row frs_col lst_col fuel
                  (colid + g.local_memory_size_) loaded (after colid shr_mem st) in
              let next =
                blocks_lem fuel (colid + g.local_memory_size_) loaded (after colid shr_mem st) some
                  (omega arith) (omega arith) (after-IsSummed colid shr_mem st lo hi summed) in
              let all =
                rows_lem s g local_sz id_wfc frs_row lst_row items one_to_one
                  (block_of colid shr_mem st) st in
              rw lt (
                λ r row. ap (λ m. cell m r) (apply_all-++ ws rest st) ∙ next.0 r row,
                λ b a outside.
                    ap (λ m. m b a) (apply_all-++ ws rest st)
                    ∙ next.1 b a outside
                    ∙ all.1 b a outside,
              )
        ]
