-- ===== src/Blas1/Reduce/Host.antt =====
-- The overloads of src/interface/blas1_interface.hpp that return the result: a buffer of one element
-- is made for it, and copied to the host.
pub mod Returns
use mathlib.Core.Option
use sycl_blas.Base.{ℕ, Option}
use sycl_blas.Base.Int.{ℤ, pos}
use sycl_blas.Base.Scalar.{Scalar}
use sycl_blas.Container.{BufferIterator, make_sycl_iterator_buffer}
use sycl_blas.Views.{Store}
use sycl_blas.Operators.{Limits, IndexValueTuple}
use sycl_blas.Executor.{Executor}
use sycl_blas.Blas1.Reduce.{dot, asum, nrm2, iamax, iamin}

-- `make_sycl_iterator_buffer<element_t>(1)`, by the name of the new buffer
unfoldable pub gpu_res : ℕ → BufferIterator
gpu_res name = make_sycl_iterator_buffer (record { name = name; get_count = 1 })

module _ {ℓ} {A : Type ℓ} (s : Scalar A) (limits : Limits A) (ex : Executor) (fuel : ℕ)
    (temp : ℕ → A) (name : ℕ) where
  unfoldable pub dot_value : ℕ → BufferIterator → ℤ → BufferIterator → ℤ → Store A → Option A
  dot_value n x incx y incy st =
      Option.map (λ (out : Store A). out name (pos 0))
        (dot s limits ex fuel temp n x incx y incy (gpu_res name) st)

  unfoldable pub asum_value : ℕ → BufferIterator → ℤ → Store A → Option A
  asum_value n x incx st =
      Option.map (λ (out : Store A). out name (pos 0))
        (asum s limits ex fuel temp n x incx (gpu_res name) st)

  unfoldable pub nrm2_value : ℕ → BufferIterator → ℤ → Store A → Option A
  nrm2_value n x incx st =
      Option.map (λ (out : Store A). out name (pos 0))
        (nrm2 s limits ex fuel temp n x incx (gpu_res name) st)

module _ {ℓ} {A : Type ℓ} (s : Scalar A) (limits : Limits A) (ex : Executor) (fuel max_index : ℕ)
    (temp : ℕ → IndexValueTuple A) (name : ℕ) where
  unfoldable pub iamax_value :
      ℕ → BufferIterator → ℤ → Store A → Store (IndexValueTuple A) → Option ℕ
  iamax_value n x incx st results =
      Option.map (λ (out : Store (IndexValueTuple A)). (out name (pos 0)).ind)
        (iamax s limits ex fuel max_index temp n x incx (gpu_res name) st results)

  unfoldable pub iamin_value :
      ℕ → BufferIterator → ℤ → Store A → Store (IndexValueTuple A) → Option ℕ
  iamin_value n x incx st results =
      Option.map (λ (out : Store (IndexValueTuple A)). (out name (pos 0)).ind)
        (iamin s limits ex fuel max_index temp n x incx (gpu_res name) st results)
