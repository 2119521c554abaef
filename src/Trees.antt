-- ===== src/Trees.antt =====
-- src/operations/blas1_trees.hpp: the nodes of an expression tree, and the kernels that the trees
-- with a side effect are; and `SumMatrixColumns` of src/operations/blas2/gemv.hpp, which is a node too.
pub mod Locality
pub mod Assignment
pub mod DoubleAssignment
pub mod Interleaved
pub mod Columns
use sycl_blas.Base.{ℕ, zero, suc, List, [], ◌∷◌, ◌++◌, if◌then◌else◌, ltb}
use sycl_blas.Base.Int.{ℤ}
use sycl_blas.Base.Scalar.{Scalar}
use sycl_blas.Views.{
  VectorView, MatrixView, Store, vector_address, matrix_address, linear_address, matrix_size,
}
use sycl_blas.Kernel.{Write, Plan, apply_all}
use sycl_blas.Operators.{UnaryOperator, BinaryOperator, eval_unary, eval_binary}

-- The leaves: `eval(i)` of a vector view, and of a matrix view with its linear index.
pub data View : Type 0 where
  vector : VectorView → View
  matrix : MatrixView → View

unfoldable pub view_name : View → ℕ
view_name (vector v) = v.data_.name
view_name (matrix m) = m.data_.name

unfoldable pub view_address : View → ℕ → ℤ
view_address (vector v) i = vector_address v i
view_address (matrix m) i = linear_address m i

unfoldable pub view_size : View → ℕ
view_size (vector v) = v.size
view_size (matrix m) = matrix_size m

-- The nodes without a side effect.
pub data Expr {ℓ} (A : Type ℓ) : Type ℓ where
  leaf : View → Expr A
  scalar_op : BinaryOperator → A → Expr A → Expr A
  unary_op : UnaryOperator → Expr A → Expr A
  binary_op : BinaryOperator → Expr A → Expr A → Expr A
  sum_columns : MatrixView → Expr A

module _ {ℓ} {A : Type ℓ} where
  -- `get_size()`
  unfoldable pub get_size : Expr A → ℕ
  get_size (leaf v) = view_size v
  get_size (scalar_op op scalar r) = get_size r
  get_size (unary_op op r) = get_size r
  get_size (binary_op op l r) = get_size r
  get_size (sum_columns m) = m.rows

module _ {ℓ} {A : Type ℓ} (s : Scalar A) where
  -- `for (j = 0; j < dimC; j++) val += rhs_.eval(i, j)`, from column `j` on
  unfoldable pub column_loop : MatrixView → Store A → ℕ → ℕ → ℕ → A → A
  column_loop m st i zero j val = val
  column_loop m st i (suc count) j val =
      column_loop m st i count (suc j) (s.add val (st m.data_.name (matrix_address m i j)))

  -- `eval(i)`
  unfoldable pub eval : Expr A → Store A → ℕ → A
  eval (leaf v) st i = st (view_name v) (view_address v i)
  eval (scalar_op op scalar r) st i = eval_binary s op scalar (eval r st i)
  eval (unary_op op r) st i = eval_unary s op (eval r st i)
  eval (binary_op op l r) st i = eval_binary s op (eval l st i) (eval r st i)
  eval (sum_columns m) st i = if ltb i m.rows then column_loop m st i m.cols 0 s.zero else s.zero

  -- `Assign`: `valid_thread`, then `lhs_.eval(i) = rhs_.eval(i)`.
  unfoldable pub assign : View → Expr A → Plan A
  assign lhs rhs i st =
      if ltb i (get_size rhs)
      then record { name = view_name lhs; address = view_address lhs i; value = eval rhs st i } ∷ []
      else []

  -- `DoubleAssign`: both right sides are read before either left side is written.
  unfoldable pub double_assign : View → View → Expr A → Expr A → Plan A
  double_assign lhs_1 lhs_2 rhs_1 rhs_2 i st =
      if ltb i (get_size rhs_2)
      then record {
        name = view_name lhs_1;
        address = view_address lhs_1 i;
        value = eval rhs_1 st i;
      }
        ∷ record { name = view_name lhs_2; address = view_address lhs_2 i; value = eval rhs_2 st i }
        ∷ []
      else []
