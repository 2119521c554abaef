-- ===== src/Blas2/Backends.antt =====
-- src/interface/blas2/backend: `_gemv` with the sizes that the back ends choose.
use mathlib.Core.Path.{subst}
use sycl_blas.Base.{
  ℕ, ◌*◌, ◌/◌, ◌^◌, ◌<◌, ◌≤◌, ◌≡◌, ◌≢◌, ◌⊎◌, inl, inr, refl, sym, arith, Bool, true, not, ◌==◌,
}
use sycl_blas.Base.Scalar.{Scalar, IsExact}
use sycl_blas.Views.{Store}
use sycl_blas.Blas1.Vectors.{IsVector}
use sycl_blas.Gemm.Interface.{to_lower}
use sycl_blas.Blas2.{
  GemvCall, x_vector_size, y_vector_size, Backend, default_cpu, intel_gpu, amd_gpu, arm_gpu,
  power_vr, rcar, gemv_local_range, gemv_cache_line_size, gemv, wgs_per,
}
use sycl_blas.Blas2.Product.{IsProduct, gemv_impl_lem}

-- `float` or `double`.
abbrev pub IsElementSize : ℕ → Type 0
IsElementSize size = (size ≡ 4) ⊎ (size ≡ 8)

-- The elements of a cache line divide the items of a group.
abbrev IsTiled : ℕ → ℕ → Type 0
IsTiled local_range cl_elems =
    (0 < local_range / cl_elems) × (local_range ≡ cl_elems * (local_range / cl_elems))

local_range_pos : (backend : Backend) (t : Bool) (m : ℕ) → 0 < gemv_local_range backend t m
unfolding gemv_local_range
local_range_pos default_cpu t m = ground arith
local_range_pos intel_gpu t m = ground arith
local_range_pos amd_gpu t m = ground arith
local_range_pos arm_gpu t m = ground arith
local_range_pos power_vr t m = ground arith
local_range_pos rcar t m = ground arith

backend-IsTiled :
    (backend : Backend) (m size : ℕ)
    → IsElementSize size
    → ¬ ((backend ≡ rcar) × (size ≡ 4) × (1024 ≤ m))
    → IsTiled (gemv_local_range backend true m) (gemv_cache_line_size backend / size)
unfolding gemv_local_range gemv_cache_line_size
backend-IsTiled default_cpu m size (inl e) h = rw e (omega arith)
backend-IsTiled default_cpu m size (inr e) h = rw e (omega arith)
backend-IsTiled intel_gpu m size (inl e) h = rw e (omega arith)
backend-IsTiled intel_gpu m size (inr e) h = rw e (omega arith)
backend-IsTiled amd_gpu m size (inl e) h = rw e (omega arith)
backend-IsTiled amd_gpu m size (inr e) h = rw e (omega arith)
backend-IsTiled arm_gpu m size (inl e) h = rw e (omega arith)
backend-IsTiled arm_gpu m size (inr e) h = rw e (omega arith)
backend-IsTiled power_vr m size (inl e) h = rw e (omega arith)
backend-IsTiled power_vr m size (inr e) h = rw e (omega arith)
backend-IsTiled rcar m size (inl e) h =
    let small : ¬ (1024 ≤ m) = λ l. h (refl, e, l) in rw e (ground arith)
backend-IsTiled rcar m size (inr e) h = rw e (ground arith)

-- Every letter but n, in either case, transposes.
abbrev pub transposes : ℕ → Bool
transposes trans = not (to_lower trans == 110)

module _ {ℓ} {A : Type ℓ} {s : Scalar A} (exact : IsExact s) (backend : Backend)
    (element_size trans : ℕ) (call : GemvCall A) (buffer : ℕ) where
  abbrev chosen : ℕ
  chosen = gemv_local_range backend (transposes trans) call.m

  -- `_gemv` of every back end, for elements of four or eight bytes, any letter and any increments:
  -- `y` becomes `alpha * op(A) * x + beta * y` of the memory before, y is not read where beta compares
  -- equal to zero, and nothing else changes but the buffer of the dot products. This is for exact
  -- arithmetic, a matrix with rows and columns, less than 2 ^ 31 items in the grid, x and y inside their
  -- buffers and a buffer of dot products of its own; on R-Car a transposed product of elements of four
  -- bytes has less than 1024 rows.
  pub gemv_lem :
      IsElementSize element_size
      → ¬ (((transposes trans) ≡ true) × (backend ≡ rcar) × (element_size ≡ 4) × (1024 ≤ call.m))
      → 0 < call.m
      → 0 < call.n
      → chosen * wgs_per call.m chosen * wgs_per call.n chosen < 2 ^ 31
      → (vx : IsVector call.x_ call.incx (x_vector_size (transposes trans) call))
        (vy : IsVector call.y_ call.incy (y_vector_size (transposes trans) call))
        (other_a : call.a_.buffer.name ≢ buffer) (other_x : call.x_.buffer.name ≢ buffer)
        (other_y : call.y_.buffer.name ≢ buffer) (start : ℕ → A) (st : Store A)
      → IsProduct exact
          (transposes trans)
          call
          buffer
          st
          (gemv s backend element_size trans call buffer start st)
  unfolding gemv
  gemv_lem size h rows cols fits vx vy other_a other_x other_y start st =
      gemv_impl_lem exact chosen (gemv_cache_line_size backend / element_size) (transposes trans)
        call buffer (local_range_pos backend (transposes trans) call.m) vx vy other_a other_x
        other_y true start st
        (λ _. (
          rows,
          cols,
          fits,
          λ e.
              subst
                (λ t.
                  IsTiled (gemv_local_range backend t call.m)
                    (gemv_cache_line_size backend / element_size))
                (sym e)
                (backend-IsTiled backend call.m element_size size (λ q. h (e, q.0, q.1, q.2))),
        ))
