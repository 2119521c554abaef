-- ===== src/Tests/Memory.antt =====
-- Views, rounding, iterators and event lists at concrete numbers.
use sycl_blas.Base.{ℕ, ◌+◌, ◌*◌, ◌<◌, ◌≡◌, ◌↔◌, refl, arith, ok, true, inr}
use sycl_blas.Base.Int.{pos, negsuc, is_positive, ◌+ℤ◌}
use sycl_blas.Views.{
  Accessor, MatrixView, vector_view, vector_address, col_major, matrix_address, make_vector_view,
}
use sycl_blas.Views.Vector.{vector_size_lem, vector_address_bounds}
use sycl_blas.Views.Matrix.{matrix_address_injective, matrix_address_bounds}
use sycl_blas.Blas1.Vectors.{element, make_vector_view_lem}
use sycl_blas.Tests.{y_vector, back, y-IsVector}
use sycl_blas.Views.Host.{HostView, host_view, host_eval, host_view_lem}

-- Ten elements, of which a view takes every third, backwards.
abbrev range : Accessor
range = record { name = 0; count = 10 }

range_size : (vector_view range (pos 5) (negsuc 2) 4).size ≡ 4
range_size = vector_size_lem range (pos 5) (negsuc 2) 4 (λ e. cc (e)) (inr (omega arith))

vector_address_bounds_example :
    (k : ℕ) × (vector_address (vector_view range (pos 5) (negsuc 2) 4) 1 ≡ pos (5 + k)) × (k < 10)
vector_address_bounds_example =
    vector_address_bounds range 5 (negsuc 2) 4 1 (λ e. cc (e)) (omega (arith, range_size))

make_vector_view_lem_example :
    ((make_vector_view y_vector back 2).size ≡ 2)
    × ((i : ℕ)
        → i < 2
        → vector_address (make_vector_view y_vector back 2) i ≡ element y_vector back 2 i)
make_vector_view_lem_example = make_vector_view_lem y-IsVector

-- Three rows and two columns, five elements apart.
abbrev columns : MatrixView
columns = record {
  data_ = range;
  rows = 3;
  cols = 2;
  leading = 5;
  disp = pos 1;
  layout = col_major;
}

matrix_address_injective_example : (2 ≡ 1 + 1) × (1 ≡ 0 + 1)
matrix_address_injective_example =
    matrix_address_injective columns 2 1 2 1 (omega arith) (omega arith, omega arith)
      (omega arith, omega arith) refl

matrix_address_bounds_example : (k : ℕ) × (matrix_address columns 2 1 ≡ pos 1 +ℤ pos k) × (k < 8)
matrix_address_bounds_example = matrix_address_bounds columns 2 1 (omega arith, omega arith)

host_view_lem_example :
    ((is_positive (pos 2) ≡ true) ↔ ((v : HostView ℕ) × (host_view (λ k. k) 10 1 (pos 2) 4 ≡ ok v)))
    × ((v : HostView ℕ) (i : ℕ)
        → host_view (λ k. k) 10 1 (pos 2) 4 ≡ ok v
        → i < v.size
        → host_eval v i ≡ ok (1 + i * 2))
host_view_lem_example = host_view_lem (λ k. k) 10 1 (pos 2) 4
