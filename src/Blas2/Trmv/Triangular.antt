-- ===== src/Blas2/Trmv/Triangular.antt =====
-- `_trmv_impl` of a matrix that is not transposed: the product of a triangle and a vector.
use mathlib.Core.Path.{ap₂}
use sycl_blas.Base.{
  ℕ, ◌+◌, ◌*◌, ◌<◌, ◌≡◌, ◌≢◌, ◌⊎◌, inl, inr, refl, sym, ap, ◌∙◌, arith, Bool, true, false, not,
  if◌then◌else◌, if_yes, if_no, Bool-cases, ltb, leb, ◌==◌, ◌&&◌, ◌||◌, ok, throw, invalid_argument,
}
use sycl_blas.Base.Int.{ℤ, int_laws}
use sycl_blas.Base.Scalar.{Scalar, IsExact, add-zero}
use sycl_blas.Base.Matrices.{total, total_congr}
use sycl_blas.Views.{
  Store, make_matrix_view, make_vector_view, vector_view, vector_eval, matrix_address, col_major,
  get_range_accessor,
}
use sycl_blas.Container.{make_sycl_iterator_buffer}
use sycl_blas.Trees
use sycl_blas.Trees.{eval, view_name, view_address, view_size, sum_columns}
use sycl_blas.Trees.Columns.{eval-sum_columns}
use sycl_blas.Executor.{Executor, execute}
use sycl_blas.Blas1.{vector_of, run_assign}
use sycl_blas.Blas1.Vectors.{IsVector, IsElsewhere, read, eval-vector, run_assign_lem}
use sycl_blas.Gemm.Call.{entry_at}
use sycl_blas.Gemm.Interface.{to_lower}
use sycl_blas.Kernel.{launch}
use sycl_blas.GemvCol.{is_factor, gemv_col_eval}
use sycl_blas.GemvCol.Sums.{row_term}
use sycl_blas.GemvCol.Shares.{shares_some, shares_lem}
use sycl_blas.GemvCol.Launch.{gemv_col_lem}
use sycl_blas.Blas2.Trmv.{TrmvCall, mat_1, make_gemv_col, trmv_columns, trmv_normal}

-- The test of `_trmv_impl` on its letters.
abbrev rejected : ℕ → ℕ → Bool
rejected uplo diag =
    not (to_lower uplo == 117)
    && not (to_lower uplo == 108)
    && not (to_lower diag == 117)
    && not (to_lower diag == 110)

-- One of the letters is valid.
abbrev pub HasLetter : ℕ → ℕ → Type 0
HasLetter uplo diag =
    (to_lower uplo ≡ 117) ⊎ (to_lower uplo ≡ 108) ⊎ (to_lower diag ≡ 117) ⊎ (to_lower diag ≡ 110)

accepted : (uplo diag : ℕ) → HasLetter uplo diag → rejected uplo diag ≡ false
accepted uplo diag h = ground arith

refused : (uplo diag : ℕ) → ¬ (HasLetter uplo diag) → rejected uplo diag ≡ true
refused uplo diag h = ground arith

module _ {ℓ} {A : Type ℓ} {s : Scalar A} (exact : IsExact s) where
  -- A term of the product of the triangle with a vector: its diagonal is one if it is a unit diagonal.
  abbrev pub triangle_term : Bool → Bool → (ℕ → ℕ → A) → (ℕ → A) → ℕ → ℕ → A
  triangle_term upper unit a x r c =
      if r == c
      then (if unit then x r else s.mul (a r c) (x c))
      else if (if upper then ltb r c else ltb c r)
      then s.mul (a r c) (x c)
      else s.zero

  factor_lem :
      (upper unit : Bool) (r c : ℕ)
      → (if (if upper then false else true) && (if upper then true else false) && true && not unit
          then true
          else (if upper then false else true) && leb (c + (if not true || unit then 1 else 0)) r
            || (if upper then true else false) && leb (r + (if not true || unit then 1 else 0)) c)
        ≡ (if r == c then not unit else (if upper then ltb r c else ltb c r))
  factor_lem true true r c = ground arith
  factor_lem true false r c = ground arith
  factor_lem false true r c = ground arith
  factor_lem false false r c = ground arith

  term_lem :
      (upper unit factor : Bool) (a : ℕ → ℕ → A) (x : ℕ → A) (r c : ℕ)
      → factor ≡ (if r == c then not unit else (if upper then ltb r c else ltb c r))
      → s.add
          (if factor then s.mul (a r c) (x c) else s.zero)
          (if true && unit && r == c then x r else s.zero)
        ≡ triangle_term upper unit a x r c
  term_lem upper true factor a x r c e = elim (Bool-cases (r == c)) [
    | inl same ↦ rw (e, same) (exact.zero-add (x r))
    | inr other ↦ rw (e, other) (add-zero exact _)
  ]
  term_lem upper false factor a x r c e = elim (Bool-cases (r == c)) [
    | inl same ↦ rw (e, same) (add-zero exact _)
    | inr other ↦ rw (e, other) (add-zero exact _)
  ]

module _ {ℓ} {A : Type ℓ} {s : Scalar A} (exact : IsExact s) (ex : Executor) (call : TrmvCall)
    (buffer : ℕ) (items : 0 < ex.work_group_size) (some : 0 < call.n)
    (vx : IsVector call.x_ call.incx call.n) (wide : call.a_.buffer.name ≢ buffer)
    (other_x : call.x_.buffer.name ≢ buffer) where
  abbrev x_at : Store A → ℕ → A
  x_at st = read st call.x_ call.incx call.n

  x_eq :
      (st : Store A) (c : ℕ)
      → c < call.n
      → vector_eval (make_vector_view call.x_ call.incx call.n) st c ≡ x_at st c
  unfolding vector_eval eval vector_of view_name view_address
  x_eq st c h = eval-vector s ex items vx st c h

  a_eq :
      (st : Store A) (r c : ℕ)
      → st call.a_.buffer.name
          (matrix_address (make_matrix_view col_major call.a_ call.n call.n call.lda) r c)
        ≡ entry_at st call.a_ call.lda r c
  unfolding matrix_address make_matrix_view
  a_eq st r c = ap (st call.a_.buffer.name) (omega int_laws)

  -- x becomes the product of the triangle and x.
  abbrev pub IsTriangular : Bool → Bool → Store A → Store A → Type ℓ
  IsTriangular upper unit st out =
      ((r : ℕ)
        → r < call.n
        → x_at out r
          ≡ total exact call.n
              (λ c. triangle_term exact upper unit (entry_at st call.a_ call.lda) (x_at st) r c))
      × ((b : ℕ) (a : ℤ) → b ≢ buffer → IsElsewhere call.x_ call.incx call.n b a → out b a ≡ st b a)

  term_eq :
      (upper unit : Bool) (st : Store A) (r c : ℕ)
      → r < call.n
      → c < call.n
      → row_term exact (make_gemv_col s ex call buffer upper unit) st r c
        ≡ triangle_term exact upper unit (entry_at st call.a_ call.lda) (x_at st) r c
  unfolding make_matrix_view make_vector_view vector_view get_range_accessor
  term_eq upper unit st r c hr hc =
      let g = make_gemv_col s ex call buffer upper unit in
      ap₂ s.add
        (ap₂ (λ x y. if is_factor s g r c then s.mul x y else s.zero) (a_eq st r c) (x_eq st c hc))
        (ap (λ x. if true && unit && r == c then x else s.zero) (x_eq st r hr))
      ∙ term_lem exact upper unit (is_factor s g r c) (entry_at st call.a_ call.lda) (x_at st) r c
          (factor_lem exact upper unit r c)

  columns_lem :
      (upper unit : Bool) (start : ℕ → A) (st : Store A)
      → IsTriangular upper unit st (trmv_columns s ex call buffer start upper unit st)
  unfolding trmv_columns run_assign execute make_matrix_view get_range_accessor
      make_sycl_iterator_buffer make_vector_view vector_view view_name view_size Trees.get_size
      vector_of
  columns_lem upper unit start st =
      let g = make_gemv_col s ex call buffer upper unit in
      let kernel =
        gemv_col_lem exact g wide other_x (omega arith) refl refl ex.work_group_size items
          (omega arith) items (λ w h. shares_some call.n ex.work_group_size w some items h) start
          st in
      let mid =
        launch (ex.work_group_size * g.nwg_row_ * g.nwg_col_)
          (gemv_col_eval s g start ex.work_group_size) st in
      let all =
        run_assign_lem s ex items vx (sum_columns (mat_1 s ex call buffer)) mid refl
          (λ j. inl (λ e. other_x (sym e))) in
      (
        λ r h.
            all.0 r h
            ∙ eval-sum_columns exact (mat_1 s ex call buffer) mid r h
            ∙ total_congr exact g.nwg_col_ _ _ (λ w hw. kernel.0 r w h hw)
            ∙ shares_lem exact g st r (omega arith)
            ∙ total_congr exact call.n _ _ (λ c hc. term_eq upper unit st r c h hc),
        λ b a ne miss. all.1 b a miss ∙ kernel.1 b a (λ r w _ _ q. ne q.0),
      )

  -- For every letter that is not rejected, x becomes the product of the triangle of A and x: the upper
  -- one for u, in either case, and else the lower one, with ones on the diagonal for u, and nothing
  -- else changes but the buffer of the sums. The call is rejected where neither of the letters is
  -- valid.
  pub trmv_normal_lem :
      (start : ℕ → A) (uplo diag : ℕ) (st : Store A)
      → (HasLetter uplo diag
          → (out : Store A) × (trmv_normal s ex call buffer start uplo diag st ≡ ok out)
            × IsTriangular (to_lower uplo == 117) (to_lower diag == 117) st out)
        × (¬ (HasLetter uplo diag)
            → trmv_normal s ex call buffer start uplo diag st
              ≡ throw (invalid_argument "Erroneous parameter"))
  unfolding trmv_normal
  trmv_normal_lem start uplo diag st = (
    λ valid. (
      trmv_columns s ex call buffer start (to_lower uplo == 117) (to_lower diag == 117) st,
      if_no (rejected uplo diag) _ _ (accepted uplo diag valid),
      columns_lem (to_lower uplo == 117) (to_lower diag == 117) start st,
    ),
    λ invalid. if_yes (rejected uplo diag) _ _ (refused uplo diag invalid),
  )
