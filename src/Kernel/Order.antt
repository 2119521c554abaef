-- ===== src/Kernel/Order.antt =====
-- Work items that do not interfere, run one after the other: each sees the memory of the start.
use mathlib.Core.Path.{subst, subst₂}
use native.Mathlib.Decide.{ℕ_discrete}
use sycl_blas.Base.{
  ℕ, zero, suc, ◌+◌, ◌<◌, ◌≤◌, ◌≡◌, refl, sym, ap, ◌∙◌, List, [], ◌∷◌, inl, inr, arith, Bool-cases,
  ◌==◌, ◌&&◌, ==_iff,
}
use sycl_blas.Base.Int.{ℤ, ◌==ℤ◌, ==ℤ_iff}
use sycl_blas.Views.{Store, store}
use sycl_blas.Kernel.{Write, Plan, apply_write, apply_all, launch_from, launch, All, IsIndependent}

module _ {ℓ} {A : Type ℓ} where
  -- Two memories that agree at a place agree there after the same writes.
  pub apply_all_congr :
      (ws : List (Write A)) (s t : Store A) (b : ℕ) (a : ℤ)
      → s b a ≡ t b a
      → apply_all ws s b a ≡ apply_all ws t b a
  unfolding apply_all apply_write store
  apply_all_congr [] s t b a e = e
  apply_all_congr (w ∷ ws) s t b a e =
      apply_all_congr ws (apply_write w s) (apply_write w t) b a (rw e)

  -- A write elsewhere does not change a place.
  pub apply_write_other :
      (w : Write A) (s : Store A) (b : ℕ) (a : ℤ)
      → ¬ ((b ≡ w.name) × (a ≡ w.address))
      → apply_write w s b a ≡ s b a
  unfolding apply_write store
  apply_write_other w s b a h = elim (Bool-cases (b == w.name && a ==ℤ w.address)) [
    | inl same ↦
        absurd (h ((==_iff b w.name).0 (ground arith), (==ℤ_iff a w.address).0 (ground arith)))
    | inr other ↦ rw other
  ]

  -- Writes that all miss a place do not change it.
  pub apply_all_other :
      (ws : List (Write A)) (s : Store A) (b : ℕ) (a : ℤ)
      → All (λ w. ¬ ((b ≡ w.name) × (a ≡ w.address))) ws
      → apply_all ws s b a ≡ s b a
  unfolding apply_all
  apply_all_other [] s b a h = refl
  apply_all_other (w ∷ ws) s b a h =
      apply_all_other ws (apply_write w s) b a h.1 ∙ apply_write_other w s b a h.0

  All-map :
      {P Q : Write A → Type 0} (ws : List (Write A))
      → ((w : Write A) → P w → Q w)
      → All P ws
      → All Q ws
  All-map [] f h = tt
  All-map (w ∷ ws) f h = (f w h.0, All-map ws f h.1)

  -- A place that all writes of a list are allowed to miss is missed.
  pub apply_all_missed :
      (ws : List (Write A)) (R : ℕ → ℤ → Type 0) (s : Store A) (b : ℕ) (a : ℤ)
      → All (λ w. R w.name w.address) ws
      → ¬ R b a
      → apply_all ws s b a ≡ s b a
  apply_all_missed ws R s b a h miss = apply_all_other ws s b a (
      All-map {P = λ w. R w.name w.address} ws
        (λ w r same. miss (subst₂ R (sym same.0) (sym same.1) r)) h)

module _ {ℓ} {A : Type ℓ} {n : ℕ} {plan : Plan A} {Touches Writes : ℕ → ℕ → ℤ → Type 0}
    (ind : IsIndependent n plan Touches Writes) where
  -- Items that do not write to a place leave it alone.
  pub launch_from_other :
      (k i : ℕ) (st : Store A) (b : ℕ) (a : ℤ)
      → i + k ≤ n
      → ((j : ℕ) → i ≤ j → j < i + k → ¬ Writes j b a)
      → launch_from i k plan st b a ≡ st b a
  unfolding launch_from
  launch_from_other zero i st b a h miss = refl
  launch_from_other (suc k) i st b a h miss =
      launch_from_other k (suc i) (apply_all (plan i st) st) b a (omega arith)
        (λ j lo hi. miss j (omega arith) (omega arith))
      ∙ apply_all_missed (plan i st) (Writes i) st b a (ind.within i st (omega arith))
          (miss i (omega arith) (omega arith))

  launch_from_here :
      (k i : ℕ) (s st : Store A) (b : ℕ) (a : ℤ)
      → i + suc k ≤ n
      → ((c : ℕ) (x : ℤ) → Touches i c x → st c x ≡ s c x)
      → Touches i b a
      → launch_from i (suc k) plan st b a ≡ apply_all (plan i s) s b a
  unfolding launch_from
  launch_from_here k i s st b a h same t =
      launch_from_other k (suc i) (apply_all (plan i st) st) b a (omega arith)
        (λ j lo hi w. ind.apart j i b a (omega arith) (omega arith) (omega arith) w t)
      ∙ ap (λ ws. apply_all ws st b a) (ind.frame i st s (omega arith) same)
      ∙ apply_all_congr (plan i s) st s b a (same b a t)

  -- An item meets the memory of the start on all that it touches.
  pub launch_from_at :
      (k i : ℕ) (s st : Store A) (j b : ℕ) (a : ℤ)
      → i + k ≤ n
      → ((l c : ℕ) (x : ℤ) → i ≤ l → l < n → Touches l c x → st c x ≡ s c x)
      → i ≤ j
      → j < i + k
      → Touches j b a
      → launch_from i k plan st b a ≡ apply_all (plan j s) s b a
  unfolding launch_from
  launch_from_at zero i s st j b a h same lo hi t = absurd (omega arith)
  launch_from_at (suc k) i s st j b a h same lo hi t = elim (ℕ_discrete i j) [
    | yes e ↦
        subst (λ j. Touches j b a → launch_from i (suc k) plan st b a ≡ apply_all (plan j s) s b a)
          e (launch_from_here k i s st b a h (λ c x. same i c x (omega arith) (omega arith))) t
    | no ne ↦
        launch_from_at k (suc i) s (apply_all (plan i st) st) j b a (omega arith)
          (λ l c x lo' hi' t'.
            apply_all_missed (plan i st) (Writes i) st c x (ind.within i st (omega arith))
              (λ w. ind.apart i l c x (omega arith) hi' (omega arith) w t')
            ∙ same l c x (omega arith) hi' t')
          (omega arith) (omega arith) t
  ]

  -- After the kernel each item has done what it would have done alone, and nothing else has changed.
  pub launch_at :
      (s : Store A) (j b : ℕ) (a : ℤ)
      → j < n
      → Touches j b a
      → launch n plan s b a ≡ apply_all (plan j s) s b a
  unfolding launch
  launch_at s j b a h t =
      launch_from_at n 0 s s j b a (omega arith) (λ l c x lo hi q. refl) (omega arith) (omega arith)
        t

  pub launch_other :
      (s : Store A) (b : ℕ) (a : ℤ)
      → ((j : ℕ) → j < n → ¬ Writes j b a)
      → launch n plan s b a ≡ s b a
  unfolding launch
  launch_other s b a miss =
      launch_from_other n 0 s b a (omega arith) (λ j lo hi. miss j (omega arith))
