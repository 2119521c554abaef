-- ===== src/GemvCol/Rows.antt =====
-- The rows of an item of `GemvCol`, in one block of columns and in all of them.
use sycl_blas.Base.{
  ℕ, zero, suc, ◌+◌, ◌-◌, ◌*◌, ◌<◌, ◌≤◌, ◌≡◌, inl, inr, List, refl, sym, ap, ◌∙◌, arith, Bool-cases,
  ltb, lt→ltb, ltb→lt,
}
use sycl_blas.Base.Int.{ℤ}
use sycl_blas.Base.Scalar.{Scalar}
use sycl_blas.Views.{Store, matrix_address}
use sycl_blas.Kernel.{Write, All, apply_all}
use sycl_blas.Kernel.Cells.{Any, At, All-map, apply_all_keeps, apply_all_hits}
use sycl_blas.GemvCol.{GemvCol, rowid_loop}

module _ {ℓ} {A : Type ℓ} (s : Scalar A) (g : GemvCol) (local_sz id_wfc frs_row lst_row : ℕ)
    (items : 0 < local_sz)
    (one_to_one : (r r' : ℕ)
      → r < lst_row
      → r' < lst_row
      → matrix_address g.lhs_ r id_wfc ≡ matrix_address g.lhs_ r' id_wfc
      → r ≡ r') where
  -- A row of the item.
  abbrev pub IsRow : ℕ → Type 0
  IsRow r = (t : ℕ) × (r ≡ frs_row + t * local_sz) × (r < lst_row)

  -- The place is in none of them.
  abbrev pub IsOutside : ℕ → ℤ → Type 0
  IsOutside b a =
      (r : ℕ) → IsRow r → ¬ ((b ≡ g.lhs_.data_.name) × (a ≡ matrix_address g.lhs_ r id_wfc))

  abbrev IsRowWrite : (ℕ → A) → Write A → Type ℓ
  IsRowWrite val w =
      (r : ℕ) × IsRow r
      × (w.name ≡ g.lhs_.data_.name)
      × (w.address ≡ matrix_address g.lhs_ r id_wfc)
      × (w.value ≡ val r)

  rowid_loop-All :
      (val : ℕ → A) (fuel t rowid : ℕ)
      → rowid ≡ frs_row + t * local_sz
      → All (IsRowWrite val) (rowid_loop s g val local_sz id_wfc lst_row fuel rowid)
  unfolding rowid_loop
  rowid_loop-All val zero t rowid e = tt
  rowid_loop-All val (suc fuel) t rowid e = elim (Bool-cases (ltb rowid lst_row)) [
    | inl lt ↦ rw lt (
      (rowid, (t, e, ltb→lt _ _ lt), refl, refl, refl),
      rowid_loop-All val fuel (suc t) (rowid + local_sz) (omega arith),
    )
    | inr ge ↦ rw ge tt
  ]

  rowid_loop-Any :
      (val : ℕ → A) (r : ℕ)
      → r < lst_row
      → (fuel t rowid : ℕ) → lst_row ≤ rowid + fuel
      → rowid + t * local_sz ≡ r
      → Any
          (At g.lhs_.data_.name (matrix_address g.lhs_ r id_wfc))
          (rowid_loop s g val local_sz id_wfc lst_row fuel rowid)
  unfolding rowid_loop
  rowid_loop-Any val r h zero t rowid enough e = absurd (omega arith)
  rowid_loop-Any val r h (suc fuel) zero rowid enough e =
      rw (lt→ltb rowid lst_row (omega arith))
        (inl (refl, ap (λ r. matrix_address g.lhs_ r id_wfc) {x = rowid} {y = r} (omega arith)))
  rowid_loop-Any val r h (suc fuel) (suc t) rowid enough e =
      rw (lt→ltb rowid lst_row (omega arith))
        (inr (rowid_loop-Any val r h fuel t (rowid + local_sz) (omega arith) (omega arith)))

  abbrev pub rows_of : (ℕ → A) → List (Write A)
  rows_of val = rowid_loop s g val local_sz id_wfc lst_row (lst_row - frs_row) frs_row

  -- The loop over the rows writes their values and nothing else.
  pub rows_lem :
      (val : ℕ → A) (st : Store A)
      → ((r : ℕ)
          → IsRow r
          → apply_all (rows_of val) st g.lhs_.data_.name (matrix_address g.lhs_ r id_wfc) ≡ val r)
        × ((b : ℕ) (a : ℤ) → IsOutside b a → apply_all (rows_of val) st b a ≡ st b a)
  rows_lem val st =
      let all = rowid_loop-All val (lst_row - frs_row) 0 frs_row (omega arith) in
      (
        λ r row.
            apply_all_hits g.lhs_.data_.name (matrix_address g.lhs_ r id_wfc) (val r) (rows_of val)
              st
              (All-map (λ w u at. u.4 ∙ ap val (one_to_one u.0 r u.1.2 row.2 (sym u.3 ∙ at.1)))
                (rows_of val) all)
              (rowid_loop-Any val r row.2 (lst_row - frs_row) row.0 frs_row
                (let at = row.1 in omega arith) (sym row.1)),
        λ b a outside.
            apply_all_keeps b a (st b a) (rows_of val) st
              (All-map (λ w u at. absurd (outside u.0 u.1 (sym at.0 ∙ u.2, sym at.1 ∙ u.3)))
                (rows_of val) all)
              refl,
      )
