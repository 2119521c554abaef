-- ===== src/Gemm/Interface/Checks.antt =====
-- `_gemm_backend` where alpha is not zero: which transposes it accepts, and what it throws.
use mathlib.Core.Bool.{false≢true}
use sycl_blas.Base.{
  ℕ, ◌≡◌, ◌⊎◌, ◌↔◌, inl, inr, refl, arith, ◌==◌, ok, throw, Bool, true, false, not, Bool-cases, sym,
  ◌∙◌, Error,
}
use sycl_blas.Base.Scalar.{Scalar}
use sycl_blas.Container.{BufferIterator}
use sycl_blas.Views.{Store}
use sycl_blas.Executor.{Executor}
use sycl_blas.Gemm.Interface.{to_lower, is_transpose, gemm_backend}

-- `n`, `t` or `c`, in either case.
abbrev pub IsLetter : ℕ → Type 0
IsLetter ch = ((ch ≡ 110) ⊎ (ch ≡ 78)) ⊎ ((ch ≡ 116) ⊎ (ch ≡ 84)) ⊎ ((ch ≡ 99) ⊎ (ch ≡ 67))

IsLetter-is_transpose : (ch : ℕ) → IsLetter ch → is_transpose (to_lower ch) ≡ true
unfolding is_transpose to_lower
IsLetter-is_transpose ch h = ground arith

is_transpose-IsLetter : (ch : ℕ) → is_transpose (to_lower ch) ≡ true → IsLetter ch
unfolding is_transpose to_lower
is_transpose-IsLetter ch h = ground arith

module _ {ℓ} {A : Type ℓ} (s : Scalar A) (ex : Executor) where
  -- Where alpha does not compare equal to zero, the kernel runs exactly if both transposes are `n`, `t`
  -- or `c` in either case, with a transposition for every letter but `n`; for any other character the
  -- call throws.
  pub gemm_backend_checks_lem :
      (kernel : Bool → Bool → Bool → Store A → Store A) (trans_a trans_b m n : ℕ) (alpha beta : A)
      (c : BufferIterator) (ldc batch_size : ℕ) (st : Store A)
      → s.equal alpha s.zero ≡ false
      → ((IsLetter trans_a × IsLetter trans_b) ↔ (
          gemm_backend s ex kernel trans_a trans_b m n alpha beta c ldc batch_size st
          ≡ ok (
              kernel
                (not (to_lower trans_a == 110))
                (not (to_lower trans_b == 110))
                (s.equal beta s.zero)
                st)))
        × ((¬ (IsLetter trans_a × IsLetter trans_b)) ↔ (
            (e : Error) × (gemm_backend s ex kernel trans_a trans_b m n alpha beta c ldc batch_size
                st
              ≡ throw e)))
  unfolding gemm_backend
  gemm_backend_checks_lem kernel trans_a trans_b m n alpha beta c ldc batch_size st nonzero =
      elim (Bool-cases (is_transpose (to_lower trans_a))) [
        | inl va ↦ elim (Bool-cases (is_transpose (to_lower trans_b))) [
          | inl vb ↦
              rw (nonzero, va, vb)
                (
                  (
                    λ _. refl,
                    λ _. (is_transpose-IsLetter trans_a va, is_transpose-IsLetter trans_b vb),
                  ),
                  (
                    λ no.
                        absurd
                          (no (is_transpose-IsLetter trans_a va, is_transpose-IsLetter trans_b vb)),
                    λ p. cc (p.1),
                  ),
                )
          | inr vb ↦
              rw (nonzero, va, vb)
                (
                  (
                    λ l. absurd (false≢true (sym vb ∙ IsLetter-is_transpose trans_b l.1)),
                    λ p. cc (p),
                  ),
                  (λ _. (_, refl), λ _ l. false≢true (sym vb ∙ IsLetter-is_transpose trans_b l.1)),
                )
        ]
        | inr va ↦
            rw (nonzero, va)
              (
                (
                  λ l. absurd (false≢true (sym va ∙ IsLetter-is_transpose trans_a l.0)),
                  λ p. cc (p),
                ),
                (λ _. (_, refl), λ _ l. false≢true (sym va ∙ IsLetter-is_transpose trans_a l.0)),
              )
      ]
