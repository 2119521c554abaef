-- ===== src/Tests/Matvec.antt =====
-- A matrix of two rows and columns times a vector.
use sycl_blas.Base.{ℕ, ◌*◌, ◌^◌, ◌<◌, ◌≡◌, refl, inl, arith, true, false}
use sycl_blas.Base.Int.{ℤ, pos}
use sycl_blas.Container.{BufferIterator}
use sycl_blas.Views.{matrix_address, col_major}
use sycl_blas.Kernel.{launch}
use sycl_blas.Gemm.Interface.{to_lower}
use sycl_blas.Gemv.{Gemv, gemv_local_eval}
use sycl_blas.Gemv.Partial.{partial_dot}
use sycl_blas.Gemv.Local.{gemv_local_lem}
use sycl_blas.Blas2.{GemvCall, wgs_per, gemv_local_range, default_cpu, gemv_impl, gemv}
use sycl_blas.Blas2.Product.{IsProduct, gemv_impl_lem}
use sycl_blas.Blas2.Backends.{gemv_lem}
use sycl_blas.Tests.{
  natural, natural-IsExact, memory, x_vector, y_vector, forth, back, x-IsVector, y-IsVector,
}

abbrev square : BufferIterator
square = record { offset = pos 0; buffer = record { name = 3; get_count = 6 } }

abbrev product_call : GemvCall ℕ
product_call = record {
  m = 2;
  n = 2;
  alpha = 2;
  a_ = square;
  lda = 3;
  x_ = x_vector;
  incx = forth;
  beta = 5;
  y_ = y_vector;
  incy = back;
}

abbrev nothing : ℕ → ℕ
nothing place = 0

fits :
    gemv_local_range default_cpu true 2
      * wgs_per 2 (gemv_local_range default_cpu true 2)
      * wgs_per 2 (gemv_local_range default_cpu true 2)
    < 2 ^ 31
unfolding gemv_local_range
fits = omega arith

gemv_lem_example :
    IsProduct natural-IsExact true product_call 4 memory
      (gemv natural default_cpu 4 116 product_call 4 nothing memory)
unfolding to_lower
gemv_lem_example =
    gemv_lem natural-IsExact default_cpu 4 116 product_call 4 (inl refl) (λ h. omega arith)
      (omega arith) (omega arith) fits x-IsVector y-IsVector (omega arith) (omega arith)
      (omega arith) nothing memory

gemv_impl_lem_example :
    IsProduct natural-IsExact false product_call 4 memory
      (gemv_impl natural 4 2 false product_call 4 true nothing memory)
gemv_impl_lem_example =
    gemv_impl_lem natural-IsExact 4 2 false product_call 4 (omega arith) x-IsVector y-IsVector
      (omega arith) (omega arith) (omega arith) true nothing memory
      (λ _. (omega arith, omega arith, omega arith, λ e. cc (e)))

-- Five rows and columns, transposed, so that both dimensions have two groups of items.
abbrev five : Gemv
five = record {
  is_transposed = true;
  local_range = 4;
  cl_elems = 2;
  lhs_ = record {
    data_ = record { name = 4; count = 10 };
    rows = 5;
    cols = 2;
    leading = 5;
    disp = pos 0;
    layout = col_major;
  };
  matrix_a_ = record {
    data_ = record { name = 3; count = 25 };
    rows = 5;
    cols = 5;
    leading = 5;
    disp = pos 0;
    layout = col_major;
  };
  vector_x_ = record {
    data_ = record { name = 0; count = 5 };
    size = 5;
    disp = pos 0;
    stride = pos 1;
  };
  wgs_per_nc_ = 2;
  wgs_per_c_ = 2;
}

gemv_local_lem_example :
    ((nc c : ℕ)
      → nc < 5
      → c < 2
      → launch 16 (gemv_local_eval natural five nothing) memory 4 (matrix_address five.lhs_ nc c)
        ≡ partial_dot natural-IsExact five memory nc c)
    × ((b : ℕ) (a : ℤ)
        → ((nc c : ℕ) → nc < 5 → c < 2 → ¬ ((b ≡ 4) × (a ≡ matrix_address five.lhs_ nc c)))
        → launch 16 (gemv_local_eval natural five nothing) memory b a ≡ memory b a)
gemv_local_lem_example =
    gemv_local_lem natural-IsExact five (omega arith) (omega arith) refl refl refl (omega arith)
      (omega arith) (omega arith) (λ e. (omega arith, omega arith)) (omega arith) nothing memory
