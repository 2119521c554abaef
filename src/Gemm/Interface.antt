-- ===== src/Gemm/Interface.antt =====
-- src/interface/gemm_interface.hpp: the checks of `_gemm_backend` and its choice among kernels, with
-- the kernels of the back end as a parameter.
pub mod Scaling
pub mod Whole
pub mod Checks
use sycl_blas.Base.{
  ℕ, zero, suc, ◌+◌, ◌*◌, Bool, true, false, not, ◌&&◌, if◌then◌else◌, ◌==◌, leb, Result, ok, throw,
  invalid_argument,
}
use sycl_blas.Base.Int.{ℤ, pos}
use sycl_blas.Base.Scalar.{Scalar}
use sycl_blas.Container.{BufferIterator, advance}
use sycl_blas.Views.{Store}
use sycl_blas.Executor.{Executor}
use sycl_blas.Blas1.{scal}

-- `tolower`, on ASCII codes
unfoldable pub to_lower : ℕ → ℕ
to_lower ch = if leb 65 ch && leb ch 90 then ch + 32 else ch

-- `'n'`, `'t'` and `'c'`
unfoldable pub is_transpose : ℕ → Bool
is_transpose ch = not (not (ch == 110) && not (ch == 116) && not (ch == 99))

module _ {ℓ} {A : Type ℓ} (s : Scalar A) (ex : Executor) where
  -- `for (i = 0; i < num_columns; ++i) _scal(ex, _M, _beta, _C + i * _ldc, 1)`, from column `i` on
  unfoldable pub scale_columns : ℕ → ℕ → ℕ → A → BufferIterator → ℕ → Store A → Store A
  scale_columns zero i m beta c ldc st = st
  scale_columns (suc n) i m beta c ldc st =
      scale_columns n (suc i) m beta c ldc (scal s ex m beta (advance c (pos (i * ldc))) (pos 1) st)

  -- `C = beta * C`, all at once where the columns touch.
  unfoldable pub scale_matrix : ℕ → ℕ → A → BufferIterator → ℕ → ℕ → Store A → Store A
  scale_matrix m n beta c ldc batch_size st =
      if ldc == m
      then scal s ex (n * m * batch_size) beta c (pos 1) st
      else scale_columns (batch_size * n) 0 m beta c ldc st

  -- `_gemm_backend`. The kernel takes the two transposes and whether beta is zero.
  unfoldable pub gemm_backend :
      (Bool → Bool → Bool → Store A → Store A)
      → ℕ
      → ℕ
      → ℕ
      → ℕ
      → A
      → A
      → BufferIterator
      → ℕ
      → ℕ
      → Store A
      → Result (Store A)
  gemm_backend kernel trans_a trans_b m n alpha beta c ldc batch_size st =
      if s.equal alpha s.zero
      then ok (scale_matrix m n beta c ldc batch_size st)
      else if not (is_transpose (to_lower trans_a))
      then throw (invalid_argument "invalid _TransA")
      else if not (is_transpose (to_lower trans_b))
      then throw (invalid_argument "invalid _TransB")
      else ok (
          kernel (not (to_lower trans_a == 110)) (not (to_lower trans_b == 110))
            (s.equal beta s.zero) st)
