-- ===== src/Blas2/Trmv.antt =====
-- src/interface/blas2_interface.hpp: `_trmv_impl` of a matrix that is not transposed, for which the
-- kernel goes by columns.
pub mod Triangular
use sycl_blas.Base.{
  ℕ, ◌*◌, Bool, true, false, not, if◌then◌else◌, ◌==◌, ◌&&◌, Result, ok, throw, invalid_argument,
}
use sycl_blas.Base.Int.{ℤ}
use sycl_blas.Base.Scalar.{Scalar}
use sycl_blas.Container.{BufferIterator, make_sycl_iterator_buffer}
use sycl_blas.Views.{Store, MatrixView, make_matrix_view, make_vector_view, col_major, row_major}
use sycl_blas.Kernel.{launch}
use sycl_blas.Trees
use sycl_blas.Trees.{sum_columns, assign}
use sycl_blas.Executor.{Executor, execute_sized}
use sycl_blas.Blas1.{vector_of}
use sycl_blas.Gemm.Interface.{to_lower}
use sycl_blas.GemvCol.{GemvCol, gemv_col_eval}
use sycl_blas.Blas2.Rank.{groups}

-- The arguments but the letters and the sizes, which are left out by the callers.
pub record TrmvCall : Type 0 where
  pub n : ℕ
  pub a_ : BufferIterator
  pub lda : ℕ
  pub x_ : BufferIterator
  pub incx : ℤ

module _ {ℓ} {A : Type ℓ} (s : Scalar A) (ex : Executor) (call : TrmvCall) (buffer : ℕ) where
  -- `mat1`, in the buffer `valT1`
  abbrev pub mat_1 : MatrixView
  mat_1 =
      let scratch_size = groups call.n ex.work_group_size in
      make_matrix_view row_major
        (make_sycl_iterator_buffer (record { name = buffer; get_count = call.n * scratch_size }))
        call.n scratch_size scratch_size

  -- `make_Gemv_Col` of the four branches
  abbrev pub make_gemv_col : Bool → Bool → GemvCol
  make_gemv_col triang_opr unit_diag = record {
    lower = if triang_opr then false else true;
    diag = true;
    upper = if triang_opr then true else false;
    unit = unit_diag;
    lhs_ = mat_1;
    matrix_ = make_matrix_view col_major call.a_ call.n call.n call.lda;
    vector_ = make_vector_view call.x_ call.incx call.n;
    nwg_row_ = groups call.n ex.work_group_size;
    nwg_col_ = groups call.n ex.work_group_size;
    local_memory_size_ = ex.work_group_size;
  }

  -- The branch of `is_col_major()`, from `triangOpr` and `unitDiag` on, and the sum of the columns.
  unfoldable pub trmv_columns : (ℕ → A) → Bool → Bool → Store A → Store A
  trmv_columns start triang_opr unit_diag st =
      let local_size = ex.work_group_size in
      let nwg = groups call.n local_size in
      let mid =
        launch (local_size * nwg * nwg)
          (gemv_col_eval s (make_gemv_col triang_opr unit_diag) start local_size) st in
      let add_m_op = sum_columns mat_1 in
      execute_sized local_size (Trees.get_size add_m_op)
        (assign s (vector_of call.x_ call.incx call.n) add_m_op) mid

  -- `_trmv_impl<Normal>`, with its check of the letters u and l, and u and n.
  unfoldable pub trmv_normal : (ℕ → A) → ℕ → ℕ → Store A → Result (Store A)
  trmv_normal start uplo diag st =
      if not (to_lower uplo == 117)
        && not (to_lower uplo == 108)
        && not (to_lower diag == 117)
        && not (to_lower diag == 110)
      then throw (invalid_argument "Erroneous parameter")
      else ok (trmv_columns start (to_lower uplo == 117) (to_lower diag == 117) st)
