-- ===== src/Trsm/Accepted.antt =====
-- src/interface/trsm_interface.hpp: `_trsm` with its checks, for arguments that pass them.
use sycl_blas.Base.{ℕ, ◌<◌, ◌≤◌, ◌≡◌, ◌≢◌, refl, ◌∙◌, inr, arith, Result, ok}
use sycl_blas.Base.Int.{ℤ}
use sycl_blas.Base.Scalar.{Scalar, IsExact}
use sycl_blas.Base.Matrices.{total}
use sycl_blas.Container.{BufferIterator, make_sycl_iterator_buffer}
use sycl_blas.Views.{Store}
use sycl_blas.Executor.{Executor}
use sycl_blas.Gemm.Call.{GemmCall, IsGemm}
use sycl_blas.Gemm.Interface.{to_lower}
use sycl_blas.Gemm.Interface.Scaling.{IsMatrix}
use sycl_blas.Trsm.Calls.{System}
use sycl_blas.Trsm.{system_of, solve_system, trsm}
use sycl_blas.Trsm.Steps.{equations, systems, b_at, IsApart}
use sycl_blas.Trsm.States.{triangle}
use sycl_blas.Trsm.Loops.{goes_up}
use sycl_blas.Trsm.Inverses.{HasDiagonal}
use sycl_blas.Trsm.Solution.{solve_system_lem}
use sycl_blas.Trsm.Checks.{
  IsEither, IsSizes, Outcome, bad_size, bad_side, bad_triangle, bad_transpose, bad_diagonal,
  accepted, trsm_checks_lem,
}

module _ {ℓ} {A : Type ℓ} {s : Scalar A} (exact : IsExact s)
    (add-neg : (x : A) → s.add x (s.neg x) ≡ s.zero) (ex : Executor)
    (some_items : 0 < ex.work_group_size) {run : GemmCall A → Store A → Result (Store A)}
    (gemm : IsGemm exact run) (side uplo trans diag m n : ℕ) (alpha : A) (a : BufferIterator)
    (lda : ℕ) (b : BufferIterator) (ldb inv_a x : ℕ) (st : Store A) where
  -- The system that the arguments describe.
  abbrev t : System A
  t =
      system_of (to_lower side) (to_lower uplo) (to_lower trans) (to_lower diag) m n alpha a lda b
        ldb inv_a x

  accepted_solves :
      {r : Result (Store A)}
      → Outcome s ex run side uplo trans diag m n alpha a lda b ldb inv_a x st r
      → IsSizes m n lda ldb
      → IsEither 108 114 side
      → IsEither 117 108 uplo
      → IsEither 110 116 trans
      → IsEither 117 110 diag
      → r ≡ solve_system s ex run t st
  accepted_solves (bad_size bad) sizes h₁ h₂ h₃ h₄ = absurd (bad sizes)
  accepted_solves (bad_side _ bad) sizes h₁ h₂ h₃ h₄ = absurd (bad h₁)
  accepted_solves (bad_triangle _ _ bad) sizes h₁ h₂ h₃ h₄ = absurd (bad h₂)
  accepted_solves (bad_transpose _ _ _ bad) sizes h₁ h₂ h₃ h₄ = absurd (bad h₃)
  accepted_solves (bad_diagonal _ _ _ _ bad) sizes h₁ h₂ h₃ h₄ = absurd (bad h₄)
  accepted_solves (accepted _ _ _ _ _) sizes h₁ h₂ h₃ h₄ = refl

  -- The buffer that `_trsm` makes for X holds a matrix of the shape of B.
  x-IsMatrix : m ≤ ldb → IsMatrix t.x_ m n ldb
  unfolding make_sycl_iterator_buffer
  x-IsMatrix apart = record { start = 0; at = refl; apart = apart; enough = inr (grind arith) }

  -- `_trsm` with sizes that are not zero and with valid letters, in either case, ends and leaves in B
  -- the solution of the triangular system: on the left of X the matrix `op(A)` and on the right its
  -- transpose, with zeros outside the triangle, times the solution is alpha times B of the memory
  -- before, and all other buffers of the caller are as before. This is for exact arithmetic, a
  -- `_gemm` that multiplies, work groups that are not empty, four buffers, B in its buffer with
  -- columns that do not overlap, and a diagonal of elements with reciprocals, or of ones for a unit
  -- diagonal.
  pub trsm_lem :
      IsSizes m n lda ldb
      → IsEither 108 114 side
      → IsEither 117 108 uplo
      → IsEither 110 116 trans
      → IsEither 117 110 diag
      → IsApart t
      → IsMatrix b m n ldb
      → HasDiagonal s t st
      → (out : Store A) × (trsm s ex run side uplo trans diag m n alpha a lda b ldb inv_a x st
          ≡ ok out)
        × ((row q : ℕ)
            → row < equations t.is_left t
            → q < systems t.is_left t
            → total exact
                (equations t.is_left t)
                (λ c. s.mul (triangle s t (goes_up t) st row c) (b_at t t.is_left out c q))
              ≡ s.mul alpha (b_at t t.is_left st row q))
        × ((buff : ℕ) (place : ℤ)
            → buff ≢ b.buffer.name
            → buff ≢ x
            → buff ≢ inv_a
            → out buff place ≡ st buff place)
  unfolding make_sycl_iterator_buffer
  trsm_lem sizes h₁ h₂ h₃ h₄ apart b_matrix diagonal =
      let solved =
        solve_system_lem exact add-neg ex some_items gemm t apart sizes.0 sizes.1
          (x-IsMatrix b_matrix.apart) b_matrix st diagonal in
      (
        solved.0,
        accepted_solves
              (trsm_checks_lem s ex run side uplo trans diag m n alpha a lda b ldb inv_a x st) sizes
              h₁ h₂ h₃ h₄
            ∙ solved.1,
        solved.2,
        solved.3,
      )
