-- ===== src/Blas1/Reduce.antt =====
-- src/interface/blas1_interface.hpp: the operations that reduce vectors to a value.
pub mod Run
pub mod Sums
pub mod Extrema
pub mod Host
use mathlib.Core.Option
use sycl_blas.Base.{ℕ, ◌*◌, Option, none, some}
use sycl_blas.Base.Int.{ℤ, pos}
use sycl_blas.Base.Scalar.{Scalar}
use sycl_blas.Container.{BufferIterator}
use sycl_blas.Views.{Store}
use sycl_blas.Kernel.{apply_write}
use sycl_blas.Operators.{
  BinaryOperator, Limits, IndexValueTuple, add, product, absolute_add, square, sqrt, init,
  eval_binary, imax, imin, imax_init, imin_init,
}
use sycl_blas.Trees.{View, Expr, leaf, unary_op, binary_op, get_size, eval, view_name, view_address}
use sycl_blas.Executor.{Executor}
use sycl_blas.Reduction.{Buffers, execute_reduction}
use sycl_blas.Blas1.{vector_of, run_assign}

-- `make_AssignReduction<op>(rs, rhs, localSize, localSize * nWG)` with `nWG = 2 * localSize`, and its
-- execution: the last pass has one group, which writes the first element of `rs`. The temporary
-- buffers hold anything at first.
unfoldable pub run_reduction {ℓ} :
    {V : Type ℓ}
    → Executor
    → ℕ
    → (V → V → V)
    → V
    → (ℕ → V)
    → ℕ
    → View
    → (ℕ → V)
    → Store V
    → Option (Store V)
run_reduction ex fuel op start rhs size rs temp st =
    let local_size = ex.work_group_size in
    let bufs : Buffers _ = record {
      lhs = λ i. st (view_name rs) (view_address rs i);
      mem_1 = temp;
      mem_2 = temp;
    } in
    Option.map
      (λ (out : Buffers _).
        apply_write (record { name = view_name rs; address = view_address rs 0; value = out.lhs 0 })
          st)
      (execute_reduction op start fuel rhs size local_size (local_size * (2 * local_size)) bufs)

module _ {ℓ} {A : Type ℓ} (s : Scalar A) (limits : Limits A) (ex : Executor) (fuel : ℕ)
    (temp : ℕ → A) where
  -- The reduction of a tree by a binary operator
  unfoldable pub reduce : BinaryOperator → Expr A → View → Store A → Option (Store A)
  reduce op rhs rs st =
      run_reduction ex fuel (eval_binary s op) (init s limits op) (eval s rhs st) (get_size rhs) rs
        temp st

  unfoldable pub dot :
      ℕ → BufferIterator → ℤ → BufferIterator → ℤ → BufferIterator → Store A → Option (Store A)
  dot n x incx y incy rs st =
      let vx = vector_of x incx n in
      let vy = vector_of y incy n in
      let prd_op = binary_op product (leaf vx) (leaf vy) in
      reduce add prd_op (vector_of rs (pos 1) 1) st

  unfoldable pub asum : ℕ → BufferIterator → ℤ → BufferIterator → Store A → Option (Store A)
  asum n x incx rs st = reduce absolute_add (leaf (vector_of x incx n)) (vector_of rs (pos 1) 1) st

  unfoldable pub nrm2 : ℕ → BufferIterator → ℤ → BufferIterator → Store A → Option (Store A)
  nrm2 n x incx rs st =
      let vr = vector_of rs (pos 1) 1 in
      let prd_op = unary_op square (leaf (vector_of x incx n)) in
      Option.map (run_assign s ex vr (unary_op sqrt (leaf vr))) (reduce add prd_op vr st)

-- `TupleOp::eval`
unfoldable pub tuple_op {ℓ} : {A : Type ℓ} → Scalar A → Expr A → Store A → ℕ → IndexValueTuple A
tuple_op s rhs st i = record { ind = i; val = eval s rhs st i }

module _ {ℓ} {A : Type ℓ} (s : Scalar A) (limits : Limits A) (ex : Executor) (fuel max_index : ℕ)
    (temp : ℕ → IndexValueTuple A) where
  unfoldable pub iamax :
      ℕ
      → BufferIterator
      → ℤ
      → BufferIterator
      → Store A
      → Store (IndexValueTuple A)
      → Option (Store (IndexValueTuple A))
  iamax n x incx rs st results =
      let vx = leaf (vector_of x incx n) in
      run_reduction ex fuel (imax s) (imax_init s max_index) (tuple_op s vx st) (get_size vx)
        (vector_of rs (pos 1) 1) temp results

  unfoldable pub iamin :
      ℕ
      → BufferIterator
      → ℤ
      → BufferIterator
      → Store A
      → Store (IndexValueTuple A)
      → Option (Store (IndexValueTuple A))
  iamin n x incx rs st results =
      let vx = leaf (vector_of x incx n) in
      run_reduction ex fuel (imin s) (imin_init s max_index limits) (tuple_op s vx st) (get_size vx)
        (vector_of rs (pos 1) 1) temp results
