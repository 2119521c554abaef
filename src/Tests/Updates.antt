-- ===== src/Tests/Updates.antt =====
-- The vector operations that change vectors, on two vectors of two elements.
use sycl_blas.Base.{◌≡◌, arith}
use sycl_blas.Base.Int.{◌+ℤ◌}
use sycl_blas.Blas1.{axpy, copy, scal, swap, rot}
use sycl_blas.Blas1.Vectors.{read}
use sycl_blas.Blas1.Updates.{axpy_lem, copy_lem, scal_lem}
use sycl_blas.Blas1.Exchanges.{swap_lem, rot_lem}
use sycl_blas.Tests.{
  natural, device, memory, x_vector, y_vector, forth, back, x-IsVector, y-IsVector,
}

axpy_lem_example :
    read (axpy natural device 2 3 x_vector forth y_vector back memory) y_vector back 2 0 ≡ 19
unfolding ◌+ℤ◌
axpy_lem_example =
    (axpy_lem natural device (omega arith) 2 3 x_vector forth y_vector back memory x-IsVector
        y-IsVector (λ e. absurd (omega arith))).0
      0 (omega arith)

copy_lem_example :
    read (copy natural device 2 x_vector forth y_vector back memory) y_vector back 2 1 ≡ 4
unfolding ◌+ℤ◌
copy_lem_example =
    (copy_lem natural device (omega arith) 2 x_vector forth y_vector back memory x-IsVector
        y-IsVector (λ e. absurd (omega arith))).0
      1 (omega arith)

scal_lem_example : read (scal natural device 2 5 x_vector forth memory) x_vector forth 2 1 ≡ 20
unfolding ◌+ℤ◌
scal_lem_example =
    (scal_lem natural device (omega arith) 2 5 x_vector forth memory x-IsVector).0 1 (omega arith)

swap_lem_example :
    (read (swap natural device 2 x_vector forth y_vector back memory) x_vector forth 2 0 ≡ 13)
    × (read (swap natural device 2 x_vector forth y_vector back memory) y_vector back 2 0 ≡ 2)
unfolding ◌+ℤ◌
swap_lem_example =
    (swap_lem natural device (omega arith) 2 x_vector forth y_vector back memory x-IsVector
        y-IsVector (λ e. absurd (omega arith))).0
      0 (omega arith)

rot_lem_example :
    (read (rot natural device 2 x_vector forth y_vector back 2 3 memory) x_vector forth 2 0 ≡ 43)
    × (read (rot natural device 2 x_vector forth y_vector back 2 3 memory) y_vector back 2 0 ≡ 32)
unfolding ◌+ℤ◌
rot_lem_example =
    (rot_lem natural device (omega arith) 2 x_vector forth y_vector back 2 3 memory x-IsVector
        y-IsVector (λ e. absurd (omega arith))).0
      0 (omega arith)
