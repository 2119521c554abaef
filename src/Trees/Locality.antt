-- ===== src/Trees/Locality.antt =====
-- What the value of an expression at an index depends on.
use mathlib.Core.Path.{ap₂}
use native.Mathlib.Nat.{div-eq_of_lt}
use sycl_blas.Base.{
  ℕ, zero, suc, ◌*◌, ◌-◌, ◌<◌, ◌≡◌, ◌≢◌, ◌⊎◌, inl, inr, refl, ap, sym, ◌∙◌, arith, Bool-cases, ltb,
  ltb→lt,
}
use sycl_blas.Base.Int.{int_laws}
use sycl_blas.Base.Scalar.{Scalar}
use sycl_blas.Views.{
  Store, MatrixView, Layout, row_major, col_major, matrix_address, linear_address,
}
use sycl_blas.Operators.{eval_unary, eval_binary}
use sycl_blas.Trees.{
  View, Expr, leaf, scalar_op, unary_op, binary_op, sum_columns, matrix, view_name, view_address,
  column_loop, eval,
}

-- A column of a matrix view, as a view of its own.
abbrev pub column : MatrixView → ℕ → MatrixView
column m j = record m { cols = 1; disp = matrix_address m 0 j }

column_address :
    (m : MatrixView) (i j : ℕ) → i < m.rows → linear_address (column m j) i ≡ matrix_address m i j
unfolding linear_address matrix_address
column_address m i j h =
    ap (λ t. matrix_address (column m j) (i - m.rows * t) t) (div-eq_of_lt h)
    ∙ ap (λ t. matrix_address (column m j) t 0) {x = i - m.rows * 0} {y = i} (omega arith)
    ∙ by_layout m.layout refl
  where
    by_layout : (l : Layout) → m.layout ≡ l → matrix_address (column m j) i 0 ≡ matrix_address m i j
    by_layout row_major e = rw e (omega int_laws)
    by_layout col_major e = rw e (omega int_laws)

-- All leaves satisfy the predicate.
abbrev pub AllLeaves {ℓ κ} : {A : Type ℓ} → (View → Type κ) → Expr A → Type κ
AllLeaves P (leaf v) = P v
AllLeaves P (scalar_op op scalar r) = AllLeaves P r
AllLeaves P (unary_op op r) = AllLeaves P r
AllLeaves P (binary_op op l r) = AllLeaves P l × AllLeaves P r
AllLeaves P (sum_columns m) = (j : ℕ) → P (matrix (column m j))

column_loop_congr {ℓ} :
    {A : Type ℓ} (s : Scalar A) (m : MatrixView) (st st' : Store A) (i count j : ℕ) (val : A)
    → ((j : ℕ) → st m.data_.name (matrix_address m i j) ≡ st' m.data_.name (matrix_address m i j))
    → column_loop s m st i count j val ≡ column_loop s m st' i count j val
unfolding column_loop
column_loop_congr s m st st' i zero j val h = refl
column_loop_congr s m st st' i (suc count) j val h =
    column_loop_congr s m st st' i count (suc j) _ h
    ∙ ap (λ x. column_loop s m st' i count (suc j) (s.add val x)) (h j)

-- Memories that agree at the elements of the leaves give the same value.
pub eval_congr {ℓ} :
    {A : Type ℓ} (s : Scalar A) (e : Expr A) (m n : Store A) (i : ℕ)
    → AllLeaves (λ v. m (view_name v) (view_address v i) ≡ n (view_name v) (view_address v i)) e
    → eval s e m i ≡ eval s e n i
unfolding eval view_name view_address
eval_congr s (leaf v) m n i h = h
eval_congr s (scalar_op op scalar r) m n i h = ap (eval_binary s op scalar) (eval_congr s r m n i h)
eval_congr s (unary_op op r) m n i h = ap (eval_unary s op) (eval_congr s r m n i h)
eval_congr s (binary_op op l r) m n i h =
    ap₂ (eval_binary s op) (eval_congr s l m n i h.0) (eval_congr s r m n i h.1)
eval_congr s (sum_columns v) m n i h = elim (Bool-cases (ltb i v.rows)) [
  | inl inside ↦ rw inside (
      column_loop_congr s v m n i v.cols 0 s.zero (λ j.
        let e = column_address v i j (ltb→lt _ _ inside) in
        ap (m v.data_.name) (sym e) ∙ h j ∙ ap (n v.data_.name) e))
  | inr outside ↦ rw outside
]

pub AllLeaves-map {ℓ κ ι} :
    {A : Type ℓ} {P : View → Type κ} {Q : View → Type ι} (e : Expr A)
    → ((v : View) → P v → Q v)
    → AllLeaves P e
    → AllLeaves Q e
AllLeaves-map (leaf v) f h = f v h
AllLeaves-map (scalar_op op scalar r) f h = AllLeaves-map r f h
AllLeaves-map (unary_op op r) f h = AllLeaves-map r f h
AllLeaves-map (binary_op op l r) f h = (AllLeaves-map l f h.0, AllLeaves-map r f h.1)
AllLeaves-map (sum_columns m) f h = λ j. f (matrix (column m j)) (h j)

-- A leaf lies in another buffer than the target view, or reads index by index what is written.
abbrev pub IsApart : View → View → Type 0
IsApart target v =
    (view_name v ≢ view_name target)
    ⊎ ((view_name v ≡ view_name target) × ((i : ℕ) → view_address v i ≡ view_address target i))

-- Below `size` distinct indices of the view are distinct elements.
abbrev pub IsInjective : ℕ → View → Type 0
IsInjective size v = (i j : ℕ) → i < size → j < size → view_address v i ≡ view_address v j → i ≡ j
