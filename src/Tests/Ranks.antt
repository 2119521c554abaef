-- ===== src/Tests/Ranks.antt =====
-- Matrices with products of vectors added to them.
use sycl_blas.Base.{ℕ, ◌+◌, ◌<◌, ◌≡◌, arith, true, false, if◌then◌else◌}
use sycl_blas.Base.Int.{ℤ, pos}
use sycl_blas.Views.{matrix_address, col_major}
use sycl_blas.Kernel.{launch}
use sycl_blas.Blas1.Vectors.{read}
use sycl_blas.Ger.{GerCol, is_updated, ger_eval}
use sycl_blas.Ger.Fill.{addend}
use sycl_blas.Ger.Launch.{ger_launch_lem}
use sycl_blas.Blas2.Rank.{RankCall, ger, syr, syr2}
use sycl_blas.Blas2.Rank.Updates.{IsUpdated, rank_one, rank_two}
use sycl_blas.Blas2.Rank.Calls.{in_triangle, ger_lem, syr_lem, syr2_lem}
use sycl_blas.Tests.{
  natural, device, memory, x_vector, y_vector, forth, back, x-IsVector, y-IsVector,
}

abbrev rank_call : RankCall ℕ
rank_call = record {
  alpha = 2;
  x_ = x_vector;
  incx = forth;
  y_ = y_vector;
  incy = back;
  a_ = record { offset = pos 1; buffer = record { name = 3; get_count = 6 } };
  lda = 3;
}

abbrev empty : ℕ → ℕ
empty place = 0

abbrev x_of : ℕ → ℕ
x_of = read memory x_vector forth 2

abbrev y_of : ℕ → ℕ
y_of = read memory y_vector back 2

ger_lem_example :
    IsUpdated natural rank_call 2 2
      (λ r c. true)
      (rank_one natural 2 x_of y_of)
      memory
      (ger natural device rank_call empty 2 2 memory)
ger_lem_example =
    ger_lem natural device rank_call empty (omega arith) 2 2 memory x-IsVector y-IsVector
      (omega arith) (omega arith) (omega arith)

-- The upper triangle, by its capital letter.
syr_lem_example :
    IsUpdated natural rank_call 2 2
      (in_triangle 85)
      (rank_one natural 2 x_of x_of)
      memory
      (syr natural device rank_call empty 85 2 memory)
syr_lem_example =
    syr_lem natural device rank_call empty (omega arith) 85 2 memory x-IsVector (omega arith)
      (omega arith)

syr2_lem_example :
    IsUpdated natural rank_call 2 2
      (in_triangle 108)
      (rank_two natural 2 x_of y_of)
      memory
      (syr2 natural device rank_call empty 108 2 memory)
syr2_lem_example =
    syr2_lem natural device rank_call empty (omega arith) 108 2 memory x-IsVector y-IsVector
      (omega arith) (omega arith) (omega arith)

-- Five rows and columns in two by two groups of two items, and local memory for one column at a time:
-- the elements strictly below the diagonal.
abbrev below : GerCol ℕ
below = record {
  is_single = false;
  lower = true;
  diag = false;
  upper = false;
  lhs_ = record {
    data_ = record { name = 4; count = 25 };
    rows = 5;
    cols = 5;
    leading = 5;
    disp = pos 0;
    layout = col_major;
  };
  scalar_ = 3;
  rhs_1_ = record {
    data_ = record { name = 0; count = 5 };
    size = 5;
    disp = pos 0;
    stride = pos 1;
  };
  rhs_2_ = record {
    data_ = record { name = 1; count = 5 };
    size = 5;
    disp = pos 0;
    stride = pos 1;
  };
  nwg_row_ = 2;
  nwg_col_ = 2;
  local_memory_size_ = 2;
}

ger_launch_lem_example :
    ((r c : ℕ)
      → r < 5
      → c < 5
      → launch 8 (ger_eval natural below empty 2) memory 4 (matrix_address below.lhs_ r c) ≡ (
          if is_updated natural below r c
          then memory 4 (matrix_address below.lhs_ r c) + addend natural below memory r c
          else memory 4 (matrix_address below.lhs_ r c)))
    × ((b : ℕ) (a : ℤ)
        → ((r c : ℕ) → r < 5 → c < 5 → ¬ ((b ≡ 4) × (a ≡ matrix_address below.lhs_ r c)))
        → launch 8 (ger_eval natural below empty 2) memory b a ≡ memory b a)
ger_launch_lem_example =
    ger_launch_lem natural below 2 (omega arith) (omega arith) (omega arith) (omega arith)
      (omega arith) (omega arith) (λ h. omega arith) (omega arith) empty memory
