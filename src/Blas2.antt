-- ===== src/Blas2.antt =====
-- src/interface/blas2_interface.hpp: the operations on a matrix and vectors.
pub mod Update
pub mod Product
pub mod Backends
pub mod Rank
pub mod Trmv
use sycl_blas.Base.{
  ℕ, ◌+◌, ◌-◌, ◌*◌, ◌/◌, ◌%◌, ◌^◌, Bool, true, not, if◌then◌else◌, ◌==◌, leb, ◌&&◌,
}
use sycl_blas.Base.Int.{ℤ}
use sycl_blas.Base.Scalar.{Scalar}
use sycl_blas.Meta.{round_up}
use sycl_blas.Container.{BufferIterator, make_sycl_iterator_buffer}
use sycl_blas.Views.{Store, MatrixView, make_matrix_view, make_vector_view, col_major}
use sycl_blas.Kernel.{launch}
use sycl_blas.Operators.{add, product}
use sycl_blas.Trees
use sycl_blas.Trees.{View, matrix, Expr, leaf, scalar_op, binary_op, sum_columns, assign}
use sycl_blas.Executor.{execute_sized}
use sycl_blas.Blas1.{vector_of}
use sycl_blas.Gemm.Interface.{to_lower}
use sycl_blas.Gemv.{Gemv, gemv_eval, gemv_local_eval}

-- The arguments of `_gemv` but the executor and the transpose.
pub record GemvCall {ℓ} (A : Type ℓ) : Type ℓ where
  pub m : ℕ
  pub n : ℕ
  pub alpha : A
  pub a_ : BufferIterator
  pub lda : ℕ
  pub x_ : BufferIterator
  pub incx : ℤ
  pub beta : A
  pub y_ : BufferIterator
  pub incy : ℤ

-- `x_vector_size` and `y_vector_size`, which is the leading dimension of the dot products too.
abbrev pub x_vector_size {ℓ} : {A : Type ℓ} → Bool → GemvCall A → ℕ
x_vector_size is_transposed call = if is_transposed then call.m else call.n

abbrev pub y_vector_size {ℓ} : {A : Type ℓ} → Bool → GemvCall A → ℕ
y_vector_size is_transposed call = if is_transposed then call.n else call.m

-- `(size - 1) / local_range + 1`. With a `local_range` of type `uint32_t` the difference wraps.
abbrev pub wgs_per : ℕ → ℕ → ℕ
wgs_per size local_range = (if size == 0 then 2 ^ 32 - 1 else size - 1) / local_range + 1

module _ {ℓ} {A : Type ℓ} (s : Scalar A) (local_range cl_elems : ℕ) (is_transposed : Bool)
    (call : GemvCall A) (dot_products_buffer : ℕ) where
  -- `dot_products_matrix`, with a column for each share of a row
  abbrev pub dot_products_matrix : ℕ → MatrixView
  dot_products_matrix columns =
      let ld = y_vector_size is_transposed call in
      make_matrix_view col_major
        (make_sycl_iterator_buffer
          (record { name = dot_products_buffer; get_count = ld * columns }))
        ld columns ld

  -- `make_Gemv<local_range, is_transposed, cache_line_size, 1>`
  abbrev pub make_gemv : ℕ → ℕ → Gemv
  make_gemv wgs_per_nc wgs_per_c = record {
    is_transposed = is_transposed;
    local_range = local_range;
    cl_elems = cl_elems;
    lhs_ = dot_products_matrix wgs_per_c;
    matrix_a_ = make_matrix_view col_major call.a_ call.m call.n call.lda;
    vector_x_ = make_vector_view call.x_ call.incx (x_vector_size is_transposed call);
    wgs_per_nc_ = wgs_per_nc;
    wgs_per_c_ = wgs_per_c;
  }

  -- The trees that update `y` from the dot products, with `_beta` or without, on groups of
  -- `local_range` items.
  unfoldable pub update_y : Expr A → Store A → Store A
  update_y dots st =
      let vy = vector_of call.y_ call.incy (y_vector_size is_transposed call) in
      let alpha_mul_dots = scalar_op product call.alpha dots in
      let rhs =
        if not (s.equal call.beta s.zero)
        then binary_op add (scalar_op product call.beta (leaf vy)) alpha_mul_dots
        else alpha_mul_dots in
      execute_sized local_range (Trees.get_size rhs) (assign s vy rhs) st

  -- `_gemv_impl`, by whether `memory_type` is `local`; `start` is what local memory holds at first. The
  -- product `global_size` is computed in `uint32_t`.
  unfoldable pub gemv_impl : Bool → (ℕ → A) → Store A → Store A
  gemv_impl is_local start st =
      let ld = y_vector_size is_transposed call in
      if not is_local
      then (let global_size = round_up ld local_range in
          update_y (leaf (matrix (dot_products_matrix 1)))
            (launch global_size (gemv_eval s (make_gemv 1 1) (global_size / local_range)) st))
      else let wgs_per_nc = wgs_per ld local_range in
        let wgs_per_c = wgs_per (x_vector_size is_transposed call) local_range in
        update_y (sum_columns (dot_products_matrix wgs_per_c)) (
          launch (local_range * wgs_per_c * wgs_per_nc % 2 ^ 32)
            (gemv_local_eval s (make_gemv wgs_per_nc wgs_per_c) start) st)

-- The files of src/interface/blas2/backend.
pub data Backend : Type 0 where
  default_cpu intel_gpu amd_gpu arm_gpu power_vr rcar : Backend

-- The `local_range` that `backend::_gemv` chooses, by the transpose and the rows.
unfoldable pub gemv_local_range : Backend → Bool → ℕ → ℕ
gemv_local_range default_cpu is_transposed m = if is_transposed then 128 else 256
gemv_local_range intel_gpu is_transposed m = if is_transposed then 128 else 256
gemv_local_range amd_gpu is_transposed m = if is_transposed then 128 else 256
gemv_local_range arm_gpu is_transposed m = 32
gemv_local_range power_vr is_transposed m = if is_transposed then 64 else 256
gemv_local_range rcar is_transposed m =
    if leb 512 m && is_transposed then (if leb 1024 m then 8 else 16) else 32

-- And its `cache_line_size`, in bytes.
unfoldable pub gemv_cache_line_size : Backend → ℕ
gemv_cache_line_size default_cpu = 32
gemv_cache_line_size intel_gpu = 32
gemv_cache_line_size amd_gpu = 64
gemv_cache_line_size arm_gpu = 32
gemv_cache_line_size power_vr = 32
gemv_cache_line_size rcar = 64

-- `_gemv`, which every back end passes on to the kernel with local memory; `element_size` is
-- `sizeof(element_t)`.
unfoldable pub gemv {ℓ} :
    {A : Type ℓ} → Scalar A → Backend → ℕ → ℕ → GemvCall A → ℕ → (ℕ → A) → Store A → Store A
gemv s backend element_size trans call dot_products_buffer start =
    let is_transposed = not (to_lower trans == 110) in
    gemv_impl s (gemv_local_range backend is_transposed call.m)
      (gemv_cache_line_size backend / element_size) is_transposed call dot_products_buffer true
      start
