-- ===== src/Tests/Triangles.antt =====
-- A lower triangle with a unit diagonal, of five rows and columns, times a vector: two by two groups of
-- two items, and local memory for two columns at a time.
use sycl_blas.Base.{ℕ, ◌<◌, ◌≡◌, refl, arith, true, false, ok, throw, invalid_argument}
use sycl_blas.Base.Int.{ℤ, pos}
use sycl_blas.Views.{Store, matrix_address, col_major, row_major}
use sycl_blas.Kernel.{launch}
use sycl_blas.GemvCol.{GemvCol, gemv_col_eval}
use sycl_blas.GemvCol.Launch.{share, gemv_col_lem}
use sycl_blas.Gemm.Interface.{to_lower}
use sycl_blas.Blas2.Trmv.{TrmvCall, trmv_normal}
use sycl_blas.Blas2.Trmv.Triangular.{HasLetter, IsTriangular, trmv_normal_lem}
use sycl_blas.Tests.{natural, natural-IsExact, device, memory, x_vector, forth, x-IsVector}

abbrev triangle : GemvCol
triangle = record {
  lower = true;
  diag = true;
  upper = false;
  unit = true;
  lhs_ = record {
    data_ = record { name = 4; count = 10 };
    rows = 5;
    cols = 2;
    leading = 2;
    disp = pos 0;
    layout = row_major;
  };
  matrix_ = record {
    data_ = record { name = 3; count = 25 };
    rows = 5;
    cols = 5;
    leading = 5;
    disp = pos 0;
    layout = col_major;
  };
  vector_ = record {
    data_ = record { name = 0; count = 5 };
    size = 5;
    disp = pos 0;
    stride = pos 1;
  };
  nwg_row_ = 2;
  nwg_col_ = 2;
  local_memory_size_ = 2;
}

abbrev scratch : ℕ → ℕ
scratch place = 0

gemv_col_lem_example :
    ((r w : ℕ)
      → r < 5
      → w < 2
      → launch 8
          (gemv_col_eval natural triangle scratch 2)
          memory
          4
          (matrix_address triangle.lhs_ r w)
        ≡ share natural-IsExact triangle memory r w)
    × ((b : ℕ) (a : ℤ)
        → ((r w : ℕ) → r < 5 → w < 2 → ¬ ((b ≡ 4) × (a ≡ matrix_address triangle.lhs_ r w)))
        → launch 8 (gemv_col_eval natural triangle scratch 2) memory b a ≡ memory b a)
gemv_col_lem_example =
    gemv_col_lem natural-IsExact triangle (omega arith) (omega arith) (omega arith) refl refl 2
      (omega arith) (omega arith) (omega arith) (λ w h. omega arith) scratch memory

abbrev triangle_call : TrmvCall
triangle_call = record {
  n = 2;
  a_ = record { offset = pos 1; buffer = record { name = 3; get_count = 6 } };
  lda = 3;
  x_ = x_vector;
  incx = forth;
}

-- The capital letter U and the letter n: the upper triangle, with its own diagonal.
trmv_normal_lem_example :
    (HasLetter 85 110
      → (out : Store ℕ) × (trmv_normal natural device triangle_call 4 scratch 85 110 memory
          ≡ ok out)
        × IsTriangular natural-IsExact device triangle_call 4
            (omega arith)
            (omega arith)
            x-IsVector
            (omega arith)
            (omega arith)
            true
            false
            memory
            out)
    × (¬ (HasLetter 85 110)
        → trmv_normal natural device triangle_call 4 scratch 85 110 memory
          ≡ throw (invalid_argument "Erroneous parameter"))
unfolding to_lower
trmv_normal_lem_example =
    trmv_normal_lem natural-IsExact device triangle_call 4 (omega arith) (omega arith) x-IsVector
      (omega arith) (omega arith) scratch 85 110 memory
