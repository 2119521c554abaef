-- ===== src/Gemm/Batches.antt =====
-- The rounds of a work group of the reference kernel, one after the other: a round reads nothing that
-- the rounds before it have written, where A and B are in other buffers than C.
use mathlib.Core.Path.{ap₂}
use sycl_blas.Base.{
  ℕ, zero, suc, ◌+◌, ◌-◌, ◌*◌, ◌<◌, ◌≤◌, ◌≡◌, ◌≢◌, List, [], ◌∷◌, true, false, if◌then◌else◌, refl,
  sym, ap, ◌∙◌, arith, ltb, Bool-cases, inl, inr,
}
use sycl_blas.Base.Int.{ℤ, pos, ◌+ℤ◌, pos_offset_injective}
use sycl_blas.Base.Scalar.{Scalar}
use sycl_blas.Views.{Store}
use sycl_blas.Kernel.{Write, apply_write}
use sycl_blas.Kernel.Values.{apply_write_kept}
use sycl_blas.Kernel.Grid.{factor_pos, product_pos}
use sycl_blas.Gemm.{Gemm, m_, n_, k_, a_size, b_size, c_size, at, mad_loop, result, batch_loop}

module _ {ℓ} {A : Type ℓ} (s : Scalar A) (g : Gemm A) (st st' : Store A)
    (same_a : (x : ℤ) → st g.a_.data_.name x ≡ st' g.a_.data_.name x)
    (same_b : (x : ℤ) → st g.b_.data_.name x ≡ st' g.b_.data_.name x) where
  mad_loop_congr :
      (k a b : ℕ) (reg_res : A) → mad_loop s g k a b reg_res st ≡ mad_loop s g k a b reg_res st'
  unfolding mad_loop
  mad_loop_congr zero a b reg_res = refl
  mad_loop_congr (suc k) a b reg_res =
      mad_loop_congr k (a + (if g.trans_a then 1 else g.a_.leading))
        (b + (if g.trans_b then g.b_.leading else 1)) _
      ∙ ap₂
          (λ x y.
            mad_loop s g k (a + (if g.trans_a then 1 else g.a_.leading))
              (b + (if g.trans_b then g.b_.leading else 1)) (s.add (s.mul x y) reg_res) st')
          (same_a _) (same_b _)

  pub result_congr :
      (a b c : ℕ) → at g st g.c_ c ≡ at g st' g.c_ c → result s g a b c st ≡ result s g a b c st'
  unfolding result
  result_congr a b c e =
      ap₂
        (λ x y.
          if g.is_beta_zero then s.mul g.alpha x else s.add (s.mul g.alpha x) (s.mul g.beta y))
        (mad_loop_congr (k_ g) a b s.zero) e

module _ {ℓ} {A : Type ℓ} (s : Scalar A) (g : Gemm A) where
  -- The writes of the rounds, with what they read taken from the memory before all of them.
  unfoldable pub rounds : ℕ → ℕ → ℕ → ℕ → ℕ → ℕ → ℕ → Store A → List (Write A)
  rounds zero w d left a b c st = []
  rounds (suc fuel) w d left a b c st =
      record { name = g.c_.data_.name; address = g.c_.disp +ℤ pos c; value = result s g a b c st }
      ∷ elim (ltb w (left - d)) [
        | true ↦
            rounds fuel w d (left - d) (a + a_size g * d) (b + b_size g * d) (c + c_size g * d) st
        | false ↦ []
      ]

  module _ (other_a : g.a_.data_.name ≢ g.c_.data_.name)
      (other_b : g.b_.data_.name ≢ g.c_.data_.name) where
    -- A memory in which all that is read from a place of C on is as in the first one.
    abbrev Agrees : ℕ → Store A → Store A → Type ℓ
    Agrees c st st' =
        ((b : ℕ) (a : ℤ) → b ≢ g.c_.data_.name → st' b a ≡ st b a)
        × ((k : ℕ) → at g st' g.c_ (c + k) ≡ at g st g.c_ (c + k))

    result_same :
        (a b c : ℕ) (st st' : Store A)
        → Agrees c st st'
        → result s g a b c st' ≡ result s g a b c st
    result_same a b c st st' same =
        result_congr s g st' st (λ x. same.0 _ x other_a) (λ x. same.0 _ x other_b) a b c
          (ap (at g st' g.c_) {x = c} {y = c + 0} (omega arith)
            ∙ same.1 0
            ∙ ap (at g st g.c_) {x = c + 0} {y = c} (omega arith))

    write-Agrees :
        (c step : ℕ) (v : A) (st st' : Store A)
        → 0 < step
        → Agrees c st st'
        → Agrees (c + step) st (
            apply_write
              (record { name = g.c_.data_.name; address = g.c_.disp +ℤ pos c; value = v })
              st')
    write-Agrees c step v st st' far same = (
      λ b a other.
          apply_write_kept _ st' b a (st b a) (λ n _. absurd (other (sym n))) (same.0 b a other),
      λ k.
          apply_write_kept _ st' _ _ (at g st g.c_ (c + step + k))
            (λ _ p.
              let no = pos_offset_injective g.c_.disp c (c + step + k) p in absurd (omega arith))
            (ap (at g st' g.c_) {x = c + step + k} {y = c + (step + k)} (omega arith)
              ∙ same.1 (step + k)
              ∙ ap (at g st g.c_) {x = c + (step + k)} {y = c + step + k} (omega arith)),
    )

    batch_loop_same :
        (fuel w d left a b c : ℕ) (st st' : Store A)
        → 0 < c_size g * d
        → Agrees c st st'
        → batch_loop s g fuel w d left a b c st' ≡ rounds fuel w d left a b c st
    unfolding batch_loop rounds
    batch_loop_same zero w d left a b c st st' far same = refl
    batch_loop_same (suc fuel) w d left a b c st st' far same =
        ap₂
          (λ v rest.
            record { name = g.c_.data_.name; address = g.c_.disp +ℤ pos c; value = v } ∷ rest)
          (result_same a b c st st' same)
          (elim (Bool-cases (ltb w (left - d))) [
            | inl more ↦ rw more (
                batch_loop_same fuel w d (left - d) _ _ (c + c_size g * d) st _ far
                  (write-Agrees c (c_size g * d) (result s g a b c st') st st' far same))
            | inr done ↦ rw done
          ])

    pub batch_loop-rounds :
        (fuel w d left a b c : ℕ) (st : Store A)
        → 0 < c_size g * d
        → batch_loop s g fuel w d left a b c st ≡ rounds fuel w d left a b c st
    batch_loop-rounds fuel w d left a b c st far =
        batch_loop_same fuel w d left a b c st st far (λ b a _. refl, λ k. refl)

-- The pointer of C moves on in each round, if C has entries.
pub step_pos {ℓ} :
    {A : Type ℓ} (g : Gemm A) (item d : ℕ)
    → m_ g ≤ g.c_.leading
    → item < m_ g * n_ g
    → 0 < d
    → 0 < c_size g * d
unfolding c_size
step_pos g item d wide h pd =
    let rows = factor_pos (n_ g) (m_ g) (omega arith) in
    let cols = factor_pos (m_ g) (n_ g) (omega arith) in
    product_pos (g.c_.leading * n_ g) d (product_pos g.c_.leading (n_ g) (omega arith) cols) pd
