-- ===== src/Trsm/Steps.antt =====
-- What the products of the loops over the blocks do to X and B, on each side of X.
pub mod Values
pub mod Left
pub mod Right
pub mod Sides
use mathlib.Core.Path.{ap₂}
use sycl_blas.Base.{
  ℕ, ◌+◌, ◌-◌, ◌*◌, ◌<◌, ◌≤◌, ◌≡◌, ◌≢◌, ◌⊎◌, inl, inr, Bool, true, false, not, refl, sym, ap, ◌∙◌,
  arith, if◌then◌else◌, Result, ok,
}
use sycl_blas.Base.Int.{ℤ}
use sycl_blas.Base.Scalar.{Scalar, IsExact, add-zero, mul-zero}
use sycl_blas.Base.Matrices.{total, total_congr, mul-total}
use sycl_blas.Container.{BufferIterator, advance}
use sycl_blas.Views.{Store}
use sycl_blas.Gemm.Call.{GemmCall, IsGemm, entry_at, op_entry}
use sycl_blas.Gemm.Interface.Scaling.{IsMatrix}
use sycl_blas.Trsm.Calls.{
  System, block_size, shift, factor, left_solve_call, right_solve_call, left_forward_call,
  right_forward_call, left_backward_call, right_backward_call, solve_call, forward_call,
  backward_call,
}
use sycl_blas.Trsm.Regions.{shift-IsAt, self-IsAt, shift-shift-IsAt, entry_at-IsAt, region_lem}

-- An unknown or an entry of the right-hand side, by its equation and by the system that it is of: on
-- the left the columns of X are the systems, on the right the rows.
abbrev pub at_side {ℓ} : {A : Type ℓ} → Bool → Store A → BufferIterator → ℕ → ℕ → ℕ → A
at_side side st it leading c q =
    if side then entry_at st it leading c q else entry_at st it leading q c

-- An entry of `op(A)`, or of its transpose on the right.
abbrev pub op_side {ℓ} : {A : Type ℓ} → Bool → Store A → Bool → BufferIterator → ℕ → ℕ → ℕ → A
op_side side st trans it leading row col =
    if side then op_entry st trans it leading row col else op_entry st trans it leading col row

-- The count of equations, and that of systems.
abbrev pub equations {ℓ} : {A : Type ℓ} → Bool → System A → ℕ
equations side t = if side then t.m else t.n

abbrev pub systems {ℓ} : {A : Type ℓ} → Bool → System A → ℕ
systems side t = if side then t.n else t.m

module _ {ℓ} {A : Type ℓ} (t : System A) (side : Bool) where
  abbrev pub x_at : Store A → ℕ → ℕ → A
  x_at st c q = at_side side st t.x_ t.ldb c q

  abbrev pub b_at : Store A → ℕ → ℕ → A
  b_at st c q = at_side side st t.b_ t.ldb c q

  -- The matrix of the equations.
  abbrev pub a_at : Store A → ℕ → ℕ → A
  a_at st row col = op_side side st t.is_transpose t.a_ t.lda row col

  -- The inverse of the diagonal block at `i`.
  abbrev pub inverse_at : Store A → ℕ → ℕ → ℕ → A
  inverse_at st i row col =
      op_side side st t.is_transpose (shift t.inv_a_ (i * block_size)) block_size row col

-- The buffers of a system are four.
pub record IsApart {ℓ} {A : Type ℓ} (t : System A) : Type 0 where
  pub x_b : t.x_.buffer.name ≢ t.b_.buffer.name
  pub inv_x : t.inv_a_.buffer.name ≢ t.x_.buffer.name
  pub inv_b : t.inv_a_.buffer.name ≢ t.b_.buffer.name
  pub a_x : t.a_.buffer.name ≢ t.x_.buffer.name
  pub a_b : t.a_.buffer.name ≢ t.b_.buffer.name
  pub a_inv : t.a_.buffer.name ≢ t.inv_a_.buffer.name

module _ {ℓ} {A : Type ℓ} {s : Scalar A} (exact : IsExact s) (t : System A) where
  -- X has the unknowns of a block, and is as before elsewhere.
  pub record IsSolveStep (side : Bool) (i size : ℕ) (f : A) (st out : Store A) : Type ℓ where
    pub inside :
        (l q : ℕ)
        → l < size
        → q < systems side t
        → x_at t side out (i + l) q
          ≡ total exact size
              (λ k. s.mul (inverse_at t side st i l k) (s.mul f (b_at t side st (i + k) q)))
    pub outside :
        (c q : ℕ)
        → c < equations side t
        → q < systems side t
        → (c < i) ⊎ (i + size ≤ c)
        → x_at t side out c q ≡ x_at t side st c q
    pub others : (b : ℕ) (x : ℤ) → b ≢ t.x_.buffer.name → out b x ≡ st b x

  -- A block of unknowns has been taken out of some rows of B.
  pub record IsUpdateStep (side : Bool) (lo count i size : ℕ) (f : A) (st out : Store A)
      : Type ℓ where
    pub inside :
        (r q : ℕ)
        → r < count
        → q < systems side t
        → s.add (b_at t side out (lo + r) q) (
            total exact size
              (λ k. s.mul (a_at t side st (lo + r) (i + k)) (x_at t side st (i + k) q)))
          ≡ s.mul f (b_at t side st (lo + r) q)
    pub others : (b : ℕ) (x : ℤ) → b ≢ t.b_.buffer.name → out b x ≡ st b x
