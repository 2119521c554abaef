-- ===== src/Trsm/Steps/Values.antt =====
-- The entries that the products of the loops compute.
use mathlib.Core.Path.{ap₂}
use sycl_blas.Base.{ℕ, ◌+◌, ◌*◌, ◌≡◌, Bool, true, false, not, sym, ap, ◌∙◌, if◌then◌else◌}
use sycl_blas.Base.Scalar.{Scalar, IsExact, add-zero, mul-zero}
use sycl_blas.Base.Matrices.{total, total_congr, mul-total}
use sycl_blas.Container.{BufferIterator}
use sycl_blas.Views.{Store}
use sycl_blas.Gemm.Call.{op_entry}
use sycl_blas.Trsm.Calls.{shift}
use sycl_blas.Trsm.Regions.{shift-IsAt, entry_at-IsAt}

pub op_entry-shift {ℓ} :
    {A : Type ℓ} (st : Store A) (trans : Bool) (it : BufferIterator)
    (leading row col o_n o_t r c r' c' : ℕ)
    → o_n ≡ row + col * leading
    → o_t ≡ col + row * leading
    → row + r ≡ r'
    → col + c ≡ c'
    → op_entry st trans (shift it (if not trans then o_n else o_t)) leading r c
      ≡ op_entry st trans it leading r' c'
op_entry-shift st true it leading row col o_n o_t r c r' c' e_n e_t er ec =
    entry_at-IsAt (shift-IsAt it leading col row o_t e_t) st c r c' r' ec er
op_entry-shift st false it leading row col o_n o_t r c r' c' e_n e_t er ec =
    entry_at-IsAt (shift-IsAt it leading row col o_n e_n) st r c r' c' er ec

module _ {ℓ} {A : Type ℓ} {s : Scalar A} (exact : IsExact s) where
  swap_factor : (f w b : A) → s.mul f (s.mul w b) ≡ s.mul w (s.mul f b)
  swap_factor f w b =
      sym (exact.mul_assoc f w b) ∙ ap (λ y. s.mul y b) (exact.mul_comm f w) ∙ exact.mul_assoc w f b

  -- The entry that a product with a factor and no term of its own computes.
  pub scaled_total :
      (size : ℕ) (f y : A) (w w' b b' : ℕ → A)
      → ((k : ℕ) → s.mul (w k) (b k) ≡ s.mul (w' k) (b' k))
      → s.add (s.mul f (total exact size (λ k. s.mul (w k) (b k)))) (s.mul s.zero y)
        ≡ total exact size (λ k. s.mul (w' k) (s.mul f (b' k)))
  scaled_total size f y w w' b b' e =
      ap (s.add _) (exact.zero-mul y)
      ∙ add-zero exact _
      ∙ mul-total exact f size _
      ∙ total_congr exact size _ _ (λ k _. ap (s.mul f) (e k) ∙ swap_factor f (w' k) (b' k))

  -- And that of a product that is taken out.
  pub taken_out :
      (add-neg : (x : A) → s.add x (s.neg x) ≡ s.zero) (size : ℕ) (b y : A) (w w' x x' : ℕ → A)
      → b ≡ s.add (s.mul (s.neg s.one) (total exact size (λ k. s.mul (w k) (x k)))) y
      → ((k : ℕ) → s.mul (w k) (x k) ≡ s.mul (w' k) (x' k))
      → s.add b (total exact size (λ k. s.mul (w' k) (x' k))) ≡ y
  taken_out add-neg size b y w w' x x' from e =
      ap (λ a. s.add a sum) from
      ∙ ap (λ a. s.add (s.add (s.mul (s.neg s.one) a) y) sum)
          (total_congr exact size _ _ (λ k _. e k))
      ∙ exact.add_comm _ sum
      ∙ sym (exact.add_assoc sum _ y)
      ∙ ap (λ a. s.add a y)
          (ap₂ s.add (sym (exact.one-mul sum) ∙ exact.mul_comm s.one sum)
              (exact.mul_comm (s.neg s.one) sum)
            ∙ sym (exact.mul-add sum s.one (s.neg s.one))
            ∙ ap (s.mul sum) (add-neg s.one)
            ∙ mul-zero exact sum)
      ∙ exact.zero-add y
    where
      sum : A
      sum = total exact size (λ k. s.mul (w' k) (x' k))
