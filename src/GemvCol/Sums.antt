-- ===== src/GemvCol/Sums.antt =====
-- The sums of `GemvCol`: what a block of columns adds to a row.
use mathlib.Core.Path.{ap₂}
use sycl_blas.Base.{
  ℕ, zero, suc, ◌+◌, ◌-◌, ◌<◌, ◌≤◌, ◌≡◌, inl, inr, sym, ap, ◌∙◌, arith, Bool-cases, ltb, leb, ne→==,
  ==_iff, ◌==◌, ◌&&◌, if◌then◌else◌, if_yes, if_no, lt→ltb, true,
}
use sycl_blas.Base.Scalar.{Scalar, IsExact, add-zero, sum_monoid}
use sycl_blas.Base.Sums.{sum, sum-op}
use sycl_blas.Base.Matrices.{total, total_congr, total_zero, total_one}
use sycl_blas.Views.{Store, vector_eval, matrix_address}
use sycl_blas.GemvCol.{GemvCol, is_factor, product_loop, copy_all, block_val}
use sycl_blas.GemvCol.Copies.{copy_all_lem}

module _ {ℓ} {A : Type ℓ} {s : Scalar A} (exact : IsExact s) (g : GemvCol) (st : Store A) where
  -- What the product takes in of a row and a column: the element of the triangle times the element of
  -- x, and of a unit diagonal the element of x alone.
  abbrev pub factor_term : ℕ → ℕ → A
  factor_term r c =
      if is_factor s g r c
      then s.mul (st g.matrix_.data_.name (matrix_address g.matrix_ r c))
          (vector_eval g.vector_ st c)
      else s.zero

  abbrev pub unit_term : ℕ → ℕ → A
  unit_term r c = if g.diag && g.unit && r == c then vector_eval g.vector_ st r else s.zero

  abbrev pub row_term : ℕ → ℕ → A
  row_term r c = s.add (factor_term r c) (unit_term r c)

  add_factor :
      (r c : ℕ) (x val : A)
      → x ≡ vector_eval g.vector_ st c
      → (if is_factor s g r c
          then s.add val (s.mul (st g.matrix_.data_.name (matrix_address g.matrix_ r c)) x)
          else val)
        ≡ s.add val (factor_term r c)
  add_factor r c x val e = elim (Bool-cases (is_factor s g r c)) [
    | inl on ↦ rw (on, e)
    | inr off ↦ rw off (sym (add-zero exact val))
  ]

  product_loop_lem :
      (shr_mem : ℕ → A) (r colid blq_sz : ℕ)
      → ((k : ℕ) → k < blq_sz → shr_mem k ≡ vector_eval g.vector_ st (colid + k))
      → (count id_col col : ℕ) (val : A) → id_col ≡ colid + col
      → count + col ≡ blq_sz
      → product_loop s g st shr_mem r count id_col col val
        ≡ s.add val (total exact count (λ k. factor_term r (id_col + k)))
  unfolding product_loop sum
  product_loop_lem shr_mem r colid blq_sz h zero id_col col val e f = sym (add-zero exact val)
  product_loop_lem shr_mem r colid blq_sz h (suc count) id_col col val e f =
      product_loop_lem shr_mem r colid blq_sz h count (suc id_col) (suc col) _ (omega arith)
        (omega arith)
      ∙ ap (λ v. s.add v (total exact count (λ k. factor_term r (suc id_col + k))))
          (add_factor r id_col (shr_mem col) val
            (h col (omega arith) ∙ ap (vector_eval g.vector_ st) (sym e)))
      ∙ exact.add_assoc val _ _
      ∙ ap (s.add val) (
          ap₂ s.add (ap (factor_term r) {x = id_col} {y = id_col + 0} (omega arith)) (
            total_congr exact count _ _
              (λ k _. ap (factor_term r) {x = suc id_col + k} {y = id_col + suc k} (omega arith))))

  unit_total :
      (r colid blq_sz : ℕ)
      → (if g.diag && g.unit && (leb colid r && ltb r (colid + blq_sz))
          then vector_eval g.vector_ st r
          else s.zero)
        ≡ total exact blq_sz (λ k. unit_term r (colid + k))
  unit_total r colid blq_sz = elim (Bool-cases (g.diag && g.unit)) [
    | inr off ↦
        if_no (g.diag && g.unit && (leb colid r && ltb r (colid + blq_sz))) _ _ (ground arith)
        ∙ sym (
            total_zero exact blq_sz (λ k. unit_term r (colid + k))
              (λ k h. if_no (g.diag && g.unit && r == colid + k) _ _ (ground arith)))
    | inl on ↦ elim (Bool-cases (leb colid r && ltb r (colid + blq_sz))) [
      | inl inside ↦
          let lo : colid ≤ r = ground arith in
          let hi : r < colid + blq_sz = ground arith in
          let here : r ≡ colid + (r - colid) = omega arith in
          if_yes (g.diag && g.unit && (leb colid r && ltb r (colid + blq_sz))) _ _ (rw (on, inside))
          ∙ sym (
              total_one exact blq_sz (r - colid) (λ k. unit_term r (colid + k)) (omega arith)
                (λ k ne.
                  if_no (g.diag && g.unit && r == colid + k) _ _
                    (rw (on, ne→== r (colid + k) (λ e. ne (omega arith)))))
              ∙ if_yes (g.diag && g.unit && r == colid + (r - colid)) _ _
                  (rw (on, (==_iff r (colid + (r - colid))).1 here)))
      | inr outside ↦
          if_no (g.diag && g.unit && (leb colid r && ltb r (colid + blq_sz))) _ _ (rw (on, outside))
          ∙ sym (
              total_zero exact blq_sz (λ k. unit_term r (colid + k))
                (λ k h. if_no (g.diag && g.unit && r == colid + k) _ _ (
                  rw (
                    on,
                    ne→== r (colid + k) (λ e.
                        let lo : (leb colid r) ≡ true = ground arith in
                        let hi : (ltb r (colid + blq_sz)) ≡ true = lt→ltb _ _ (omega arith) in
                        ground arith),
                  ))))
    ]
  ]

  -- The value that a block leaves in a row: what was there, and the terms of its columns.
  pub block_val_lem :
      (local_sz : ℕ) (shr_mem : ℕ → A) (id_wfc frs_col colid blq_sz r : ℕ)
      → 0 < local_sz
      → block_val s g st
          (copy_all s g st local_sz colid blq_sz local_sz shr_mem)
          id_wfc
          frs_col
          colid
          blq_sz
          r
        ≡ s.add
            (if colid == frs_col
              then s.zero
              else st g.lhs_.data_.name (matrix_address g.lhs_ r id_wfc))
            (total exact blq_sz (λ k. row_term r (colid + k)))
  block_val_lem local_sz shr_mem id_wfc frs_col colid blq_sz r items =
      let before =
        if colid == frs_col
        then s.zero
        else st g.lhs_.data_.name (matrix_address g.lhs_ r id_wfc) in
      product_loop_lem (copy_all s g st local_sz colid blq_sz local_sz shr_mem) r colid blq_sz
        (λ k h. copy_all_lem s g st local_sz colid blq_sz k shr_mem items h) blq_sz colid 0 _
        (omega arith) (omega arith)
      ∙ exact.add_assoc before _ _
      ∙ ap (s.add before) (
          exact.add_comm _ _
          ∙ ap (s.add (total exact blq_sz (λ k. factor_term r (colid + k))))
              (unit_total r colid blq_sz)
          ∙ sym (
              sum-op (sum_monoid exact) blq_sz (λ k. factor_term r (colid + k))
                (λ k. unit_term r (colid + k))))
