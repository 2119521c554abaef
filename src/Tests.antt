-- ===== src/Tests.antt =====
-- Concrete memories, vectors and devices, on which the theorems apply.
pub mod Updates
pub mod Reductions
pub mod Returns
pub mod Kernels
pub mod Memory
pub mod Products
pub mod Systems
pub mod Matvec
pub mod Ranks
pub mod Triangles
use sycl_blas.Base.{
  ℕ, ◌+◌, ◌*◌, ◌/◌, ◌<◌, ◌≡◌, ◌≢◌, refl, arith, inr, ltb, ◌==◌, Option, some, [], ◌∷◌,
  if◌then◌else◌,
}
use sycl_blas.Base.Int.{ℤ, pos, negsuc, pos_part, ◌-ℤ◌}
use sycl_blas.Base.Scalar.{Scalar, IsExact, sum_monoid}
use sycl_blas.Base.Sums.{sum}
use sycl_blas.Container.{BufferIterator, get_size}
use sycl_blas.Views.{Store}
use sycl_blas.Operators.{Limits}
use sycl_blas.Executor.{Executor}
use sycl_blas.Blas1.{axpy, copy, scal, swap, rot}
use sycl_blas.Blas1.Vectors.{IsVector, read}
use sycl_blas.Blas1.Updates.{axpy_lem, copy_lem, scal_lem}
use sycl_blas.Blas1.Exchanges.{swap_lem, rot_lem}
use sycl_blas.Blas1.Reduce.{dot}
use sycl_blas.Blas1.Reduce.Sums.{dot_lem}

-- The natural numbers as an element type; what stands for the sign and the root is not used.
abbrev pub natural : Scalar ℕ
natural = record {
  zero = 0;
  one = 1;
  add = λ a b. a + b;
  mul = λ a b. a * b;
  neg = λ a. a;
  div = λ a b. a / b;
  sqrt = λ a. a;
  abs = λ a. a;
  below = ltb;
  equal = λ a b. a == b;
}

pub natural-IsExact : IsExact natural
natural-IsExact = record {
  add_assoc = λ a b c. omega arith;
  add_comm = λ a b. omega arith;
  zero-add = λ a. omega arith;
  mul_assoc = λ a b c. omega arith;
  mul_comm = λ a b. omega arith;
  one-mul = λ a. omega arith;
  zero-mul = λ a. omega arith;
  mul-add = λ a b c. omega arith;
}

abbrev pub limits : Limits ℕ
limits = record { largest = 1000; smallest = 0 }

abbrev pub device : Executor
device = record { work_group_size = 4; num_compute_units = 1 }

abbrev pub memory : Store ℕ
memory name address = pos_part address + 10 * name + 1

-- Every other element from 1 on; every other element, backwards; and one element.
abbrev pub x_vector : BufferIterator
x_vector = record { offset = pos 1; buffer = record { name = 0; get_count = 5 } }

abbrev pub y_vector : BufferIterator
y_vector = record { offset = pos 0; buffer = record { name = 1; get_count = 7 } }

abbrev pub result : BufferIterator
result = record { offset = pos 0; buffer = record { name = 2; get_count = 1 } }

abbrev pub forth : ℤ
forth = pos 2

abbrev pub back : ℤ
back = negsuc 1

pub x-IsVector : IsVector x_vector forth 2
unfolding get_size ◌-ℤ◌
x-IsVector = record { start = 1; at = refl; nonzero = λ e. cc (e); enough = inr (omega arith) }

pub y-IsVector : IsVector y_vector back 2
unfolding get_size ◌-ℤ◌
y-IsVector = record { start = 0; at = refl; nonzero = λ e. cc (e); enough = inr (omega arith) }

pub result-IsVector : IsVector result (pos 1) 1
unfolding get_size ◌-ℤ◌
result-IsVector = record { start = 0; at = refl; nonzero = λ e. cc (e); enough = inr (omega arith) }
