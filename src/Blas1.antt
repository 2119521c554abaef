-- ===== src/Blas1.antt =====
-- src/interface/blas1_interface.hpp: the vector operations, as the trees that they build and execute.
pub mod Vectors
pub mod Updates
pub mod Exchanges
pub mod Reduce
use sycl_blas.Base.{ℕ, if◌then◌else◌}
use sycl_blas.Base.Int.{ℤ}
use sycl_blas.Base.Scalar.{Scalar}
use sycl_blas.Container.{BufferIterator}
use sycl_blas.Views.{Store, make_vector_view}
use sycl_blas.Operators.{add, product, addition_identity}
use sycl_blas.Trees.{
  View, vector, Expr, leaf, scalar_op, unary_op, binary_op, get_size, assign, double_assign,
}
use sycl_blas.Executor.{Executor, execute}

-- `make_vector_view(ex, it, inc, n)` as a leaf
unfoldable pub vector_of : BufferIterator → ℤ → ℕ → View
vector_of it inc n = vector (make_vector_view it inc n)

module _ {ℓ} {A : Type ℓ} (s : Scalar A) (ex : Executor) where
  -- `ex.execute(make_op<Assign>(lhs, rhs))`
  unfoldable pub run_assign : View → Expr A → Store A → Store A
  run_assign lhs rhs = execute ex (get_size rhs) (assign s lhs rhs)

  -- `ex.execute(make_op<DoubleAssign>(lhs_1, lhs_2, rhs_1, rhs_2))`
  unfoldable pub run_double_assign : View → View → Expr A → Expr A → Store A → Store A
  run_double_assign lhs_1 lhs_2 rhs_1 rhs_2 =
      execute ex (get_size rhs_2) (double_assign s lhs_1 lhs_2 rhs_1 rhs_2)

  unfoldable pub axpy : ℕ → A → BufferIterator → ℤ → BufferIterator → ℤ → Store A → Store A
  axpy n alpha x incx y incy =
      let vx = vector_of x incx n in
      let vy = vector_of y incy n in
      let scal = scalar_op product alpha (leaf vx) in run_assign vy (binary_op add (leaf vy) scal)

  unfoldable pub copy : ℕ → BufferIterator → ℤ → BufferIterator → ℤ → Store A → Store A
  copy n x incx y incy = run_assign (vector_of y incy n) (leaf (vector_of x incx n))

  unfoldable pub scal : ℕ → A → BufferIterator → ℤ → Store A → Store A
  scal n alpha x incx =
      let vx = vector_of x incx n in
      if s.equal alpha s.zero
      then run_assign vx (unary_op addition_identity (leaf vx))
      else run_assign vx (scalar_op product alpha (leaf vx))

  unfoldable pub swap : ℕ → BufferIterator → ℤ → BufferIterator → ℤ → Store A → Store A
  swap n x incx y incy =
      let vx = vector_of x incx n in
      let vy = vector_of y incy n in run_double_assign vy vx (leaf vx) (leaf vy)

  unfoldable pub rot : ℕ → BufferIterator → ℤ → BufferIterator → ℤ → A → A → Store A → Store A
  rot n x incx y incy cos sin =
      let vx = vector_of x incx n in
      let vy = vector_of y incy n in
      let scal_1 = scalar_op product cos (leaf vx) in
      let scal_2 = scalar_op product sin (leaf vy) in
      let scal_3 = scalar_op product (s.neg sin) (leaf vx) in
      let scal_4 = scalar_op product cos (leaf vy) in
      run_double_assign vx vy (binary_op add scal_1 scal_2) (binary_op add scal_3 scal_4)
