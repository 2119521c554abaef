-- ===== src/Trees/Columns.antt =====
-- `SumMatrixColumns` with exact arithmetic.
use sycl_blas.Base.{ℕ, zero, suc, ◌+◌, ◌<◌, ◌≡◌, sym, ap, ◌∙◌, arith, ltb, lt→ltb, if_yes}
use mathlib.Core.Path.{ap₂}
use sycl_blas.Base.Scalar.{Scalar, IsExact, add-zero}
use sycl_blas.Base.Sums.{sum}
use sycl_blas.Base.Matrices.{total, total_congr}
use sycl_blas.Views.{Store, MatrixView, matrix_address}
use sycl_blas.Trees.{sum_columns, column_loop, eval}

module _ {ℓ} {A : Type ℓ} {s : Scalar A} (exact : IsExact s) (m : MatrixView) (st : Store A) where
  abbrev element : ℕ → ℕ → A
  element i j = st m.data_.name (matrix_address m i j)

  column_loop_lem :
      (i count j : ℕ) (val : A)
      → column_loop s m st i count j val ≡ s.add val (total exact count (λ k. element i (j + k)))
  unfolding column_loop sum
  column_loop_lem i zero j val = sym (add-zero exact val)
  column_loop_lem i (suc count) j val =
      column_loop_lem i count (suc j) (s.add val (element i j))
      ∙ exact.add_assoc val _ _
      ∙ ap (s.add val) (
          ap₂ s.add (ap (element i) {x = j} {y = j + 0} (omega arith)) (
            total_congr exact count _ _
              (λ k _. ap (element i) {x = suc j + k} {y = j + suc k} (omega arith))))

  pub eval-sum_columns :
      (i : ℕ) → i < m.rows → eval s (sum_columns m) st i ≡ total exact m.cols (λ j. element i j)
  unfolding eval
  eval-sum_columns i h =
      if_yes (ltb i m.rows) _ _ (lt→ltb i m.rows h)
      ∙ column_loop_lem i m.cols 0 s.zero
      ∙ exact.zero-add _
      ∙ total_congr exact m.cols _ _ (λ k _. ap (element i) {x = 0 + k} {y = k} (omega arith))
