-- ===== src/Trsm/Inverses/Parts.antt =====
-- The parts of a triangular matrix and of the buffer of its inverses, by side and transpose.
use sycl_blas.Base.{
  ℕ, ◌+◌, ◌≤◌, ◌≡◌, Bool, true, false, not, refl, ap, arith, if◌then◌else◌, leb, ◌&&◌, ◌||◌,
}
use sycl_blas.Base.Scalar.{Scalar}
use sycl_blas.Base.Matrices.{Entries}
use sycl_blas.Container.{BufferIterator}
use sycl_blas.Views.{Store}
use sycl_blas.Gemm.Call.{entry_at}
use sycl_blas.Trsm.Inverter.Inverse.{IsInvertible}
use sycl_blas.Trsm.Steps.{op_side}

leb_shift : (i a b : ℕ) → leb (i + a) (i + b) ≡ leb a b
leb_shift i a b = ground arith

pub leb_self : (a : ℕ) → leb a a ≡ true
leb_self a = ground arith

pub shift-IsInvertible {ℓ} :
    {A : Type ℓ} (s : Scalar A) (unit_diag : Bool) (n i size : ℕ) (t : Entries A)
    → i + size ≤ n
    → IsInvertible s unit_diag n t
    → IsInvertible s unit_diag size (λ row col. t (i + row) (i + col))
shift-IsInvertible s true n i size t fits h = λ j hj. h (i + j) (omega arith)
shift-IsInvertible s false n i size t fits h = λ j hj. h (i + j) (omega arith)

-- A triangle of a block of A, by the names of the flags.
abbrev pub block_part {ℓ} : {A : Type ℓ} → A → Bool → Store A → BufferIterator → ℕ → ℕ → ℕ → ℕ → A
block_part z upper st a lda i row col =
    if (if upper then leb row col else leb col row)
    then entry_at st a lda (i + row) (i + col)
    else z

-- Whether the equations have the transpose of A.
abbrev pub flips : Bool → Bool → Bool
flips side trans = if side then trans else not trans

abbrev up_of : Bool → Bool → Bool → Bool
up_of side upper trans =
    let op_lower = upper && trans || not upper && not trans in
    if side then op_lower else not op_lower

module _ {ℓ} {A : Type ℓ} (z : A) (st : Store A) (a : BufferIterator) (lda i l k : ℕ) where
  chosen : (x y : Bool) (v : A) → x ≡ y → (if x then v else z) ≡ (if y then v else z)
  chosen x y v e = ap (λ b. if b then v else z) e

  pub triangle_part :
      (side upper trans : Bool)
      → (if (if up_of side upper trans then leb (i + k) (i + l) else leb (i + l) (i + k))
          then op_side side st trans a lda (i + l) (i + k)
          else z)
        ≡ (if flips side trans
            then block_part z upper st a lda i k l
            else block_part z upper st a lda i l k)
  triangle_part true true true = chosen _ _ _ (leb_shift i k l)
  triangle_part true true false = chosen _ _ _ (leb_shift i l k)
  triangle_part true false true = chosen _ _ _ (leb_shift i l k)
  triangle_part true false false = chosen _ _ _ (leb_shift i k l)
  triangle_part false true true = chosen _ _ _ (leb_shift i l k)
  triangle_part false true false = chosen _ _ _ (leb_shift i k l)
  triangle_part false false true = chosen _ _ _ (leb_shift i k l)
  triangle_part false false false = chosen _ _ _ (leb_shift i l k)

  pub inverse_part :
      (side trans : Bool) (leading : ℕ)
      → op_side side st trans a leading k l
        ≡ (if flips side trans then entry_at st a leading l k else entry_at st a leading k l)
  inverse_part true true leading = refl
  inverse_part true false leading = refl
  inverse_part false true leading = refl
  inverse_part false false leading = refl
