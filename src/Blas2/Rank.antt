-- ===== src/Blas2/Rank.antt =====
-- src/interface/blas2_interface.hpp: `_ger`, `_syr` and `_syr2`, which add products of vectors to a
-- matrix or to a triangle of it.
pub mod Updates
pub mod Calls
use sycl_blas.Base.{ℕ, ◌+◌, ◌-◌, ◌*◌, ◌/◌, min, Bool, true, false, if◌then◌else◌, ◌==◌}
use sycl_blas.Base.Int.{ℤ}
use sycl_blas.Base.Scalar.{Scalar}
use sycl_blas.Container.{BufferIterator}
use sycl_blas.Views.{Store, make_matrix_view, make_vector_view, col_major}
use sycl_blas.Kernel.{launch}
use sycl_blas.Executor.{Executor}
use sycl_blas.Gemm.Interface.{to_lower}
use sycl_blas.Ger.{GerCol, ger_eval}

-- The last arguments of the three, all of which are zero if they are not given.
pub record Sizes : Type 0 where
  pub local_size : ℕ
  pub scratch_pad_size : ℕ
  pub n_rows_wg : ℕ
  pub n_cols_wg : ℕ

abbrev pub default_sizes : Sizes
default_sizes = record { local_size = 0; scratch_pad_size = 0; n_rows_wg = 0; n_cols_wg = 0 }

-- The matrix and the vectors of a call: `_mA` with `_lda`, `_vx` with `_incx`, `_vy` with `_incy`.
-- `_syr` has no `_vy`.
pub record RankCall {ℓ} (A : Type ℓ) : Type ℓ where
  pub alpha : A
  pub x_ : BufferIterator
  pub incx : ℤ
  pub y_ : BufferIterator
  pub incy : ℤ
  pub a_ : BufferIterator
  pub lda : ℕ

-- `localSize`
abbrev pub chosen_local_size : Executor → Sizes → ℕ
chosen_local_size ex sizes = if sizes.local_size == 0 then ex.work_group_size else sizes.local_size

-- `nRowsWG` and `nColsWG`
abbrev pub per_group : ℕ → ℕ → ℕ → ℕ
per_group local_size count given = if given == 0 then local_size else min count given

-- `(_M - 1) / nRowsWG + 1`
abbrev pub groups : ℕ → ℕ → ℕ
groups count per = (count - 1) / per + 1

module _ {ℓ} {A : Type ℓ} (s : Scalar A) (ex : Executor) (sizes : Sizes) (call : RankCall A)
    (start : ℕ → A) where
  abbrev local_size : ℕ
  local_size = chosen_local_size ex sizes

  -- `_ger_impl` of an `m` by `n` matrix
  unfoldable pub ger_impl : ℕ → ℕ → Store A → Store A
  ger_impl m n st =
      let scratch_pad_size = if sizes.local_size == 0 then local_size else sizes.scratch_pad_size in
      let nwg_per_col = groups n (per_group local_size n sizes.n_cols_wg) in
      let nwg_per_row = groups m (per_group local_size m sizes.n_rows_wg) in
      launch (local_size * nwg_per_row * nwg_per_col)
        (ger_eval s
          (record {
            is_single = true;
            lower = true;
            diag = true;
            upper = true;
            lhs_ = make_matrix_view col_major call.a_ m n call.lda;
            scalar_ = call.alpha;
            rhs_1_ = make_vector_view call.x_ call.incx m;
            rhs_2_ = make_vector_view call.y_ call.incy n;
            nwg_row_ = nwg_per_row;
            nwg_col_ = nwg_per_col;
            local_memory_size_ = scratch_pad_size;
          })
          start local_size)
        st

  -- `make_Ger_Col` of `_syr_impl` and `_syr2_impl`, on the upper triangle or on the lower one
  abbrev pub triangle_update : Bool → Bool → ℕ → ℕ → GerCol A
  triangle_update is_single triang_opr scratch_pad_size n = record {
    is_single = is_single;
    lower = if triang_opr then false else true;
    diag = true;
    upper = if triang_opr then true else false;
    lhs_ = make_matrix_view col_major call.a_ n n call.lda;
    scalar_ = call.alpha;
    rhs_1_ = make_vector_view call.x_ call.incx n;
    rhs_2_ =
        if is_single
        then make_vector_view call.x_ call.incx n
        else make_vector_view call.y_ call.incy n;
    nwg_row_ = groups n (per_group local_size n sizes.n_rows_wg);
    nwg_col_ = groups n (per_group local_size n sizes.n_cols_wg);
    local_memory_size_ = scratch_pad_size;
  }

  -- `_syr_impl` of an `n` by `n` matrix; the letter u, in either case, is for the upper triangle.
  unfoldable pub syr_impl : ℕ → ℕ → Store A → Store A
  syr_impl uplo n st =
      let triang_opr = to_lower uplo == 117 in
      let scratch_pad_size = if sizes.local_size == 0 then local_size else sizes.scratch_pad_size in
      let nwg_per_row = groups n (per_group local_size n sizes.n_rows_wg) in
      let nwg_per_col = groups n (per_group local_size n sizes.n_cols_wg) in
      launch (local_size * nwg_per_row * nwg_per_col)
        (ger_eval s (triangle_update true triang_opr scratch_pad_size n) start local_size) st

  -- `_syr2_impl`, with twice the local memory
  unfoldable pub syr2_impl : ℕ → ℕ → Store A → Store A
  syr2_impl uplo n st =
      let triang_opr = to_lower uplo == 117 in
      let scratch_pad_size =
        if sizes.local_size == 0 then 2 * local_size else sizes.scratch_pad_size in
      let nwg_per_row = groups n (per_group local_size n sizes.n_rows_wg) in
      let nwg_per_col = groups n (per_group local_size n sizes.n_cols_wg) in
      launch (local_size * nwg_per_row * nwg_per_col)
        (ger_eval s (triangle_update false triang_opr scratch_pad_size n) start local_size) st

-- `_ger`, `_syr` and `_syr2`
unfoldable pub ger {ℓ} :
    {A : Type ℓ} → Scalar A → Executor → RankCall A → (ℕ → A) → ℕ → ℕ → Store A → Store A
ger s ex call start m n st = ger_impl s ex default_sizes call start m n st

unfoldable pub syr {ℓ} :
    {A : Type ℓ} → Scalar A → Executor → RankCall A → (ℕ → A) → ℕ → ℕ → Store A → Store A
syr s ex call start uplo n st = syr_impl s ex default_sizes call start uplo n st

unfoldable pub syr2 {ℓ} :
    {A : Type ℓ} → Scalar A → Executor → RankCall A → (ℕ → A) → ℕ → ℕ → Store A → Store A
syr2 s ex call start uplo n st = syr2_impl s ex default_sizes call start uplo n st
