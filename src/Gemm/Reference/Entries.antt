-- ===== src/Gemm/Reference/Entries.antt =====
-- The letters of the transposes, and the entries of the first matrix of a batch.
use sycl_blas.Base.{ℕ, ◌+◌, ◌*◌, ◌≡◌, Bool, true, false, not, refl, ap, arith, if◌then◌else◌, ◌==◌}
use sycl_blas.Base.Int.{pos, ◌+ℤ◌}
use sycl_blas.Container.{BufferIterator}
use sycl_blas.Views.{Store}
use sycl_blas.Gemm.Call.{op_entry, letter}
use sycl_blas.Gemm.Interface.{to_lower, is_transpose}

pub letter-is_transpose : (trans : Bool) → is_transpose (to_lower (letter trans)) ≡ true
unfolding is_transpose to_lower
letter-is_transpose true = refl
letter-is_transpose false = refl

pub letter_trans : (trans : Bool) → not (to_lower (letter trans) == 110) ≡ trans
unfolding to_lower
letter_trans true = refl
letter_trans false = refl

module _ {ℓ} {A : Type ℓ} (st : Store A) (it : BufferIterator) (leading x y size : ℕ) where
  -- The entries of the first matrix of a batch.
  pub a_entry_eq :
      (trans : Bool)
      → st it.buffer.name
          (it.offset +ℤ pos (0 * size + (if trans then x * leading + y else x + y * leading)))
        ≡ op_entry st trans it leading x y
  a_entry_eq true = ap (λ k. st it.buffer.name (it.offset +ℤ pos k)) (omega arith)
  a_entry_eq false = ap (λ k. st it.buffer.name (it.offset +ℤ pos k)) (omega arith)

  pub b_entry_eq :
      (trans : Bool)
      → st it.buffer.name
          (it.offset +ℤ pos (0 * size + (if trans then y + x * leading else y * leading + x)))
        ≡ op_entry st trans it leading x y
  b_entry_eq true = ap (λ k. st it.buffer.name (it.offset +ℤ pos k)) (omega arith)
  b_entry_eq false = ap (λ k. st it.buffer.name (it.offset +ℤ pos k)) (omega arith)
