-- ===== src/Kernel/Single.antt =====
-- Kernels in which a work item writes one element at most, of a buffer that no item reads.
use sycl_blas.Base.{
  ℕ, ◌<◌, ◌≡◌, ◌≢◌, Bool, true, [], ◌∷◌, if◌then◌else◌, refl, sym, ap, ◌∙◌, inl, inr, Bool-cases,
  ==_refl,
}
use sycl_blas.Base.Int.{ℤ, ==ℤ_refl}
use sycl_blas.Views.{Store, store}
use sycl_blas.Kernel.{Plan, apply_write, apply_all, launch, All, IsIndependent}
use sycl_blas.Kernel.Order.{launch_at, launch_other}

module _ {ℓ} {A : Type ℓ} (name : ℕ) (active : ℕ → Bool) (addr : ℕ → ℤ)
    (value : ℕ → Store A → A) where
  -- What an item writes: its value at its place, if it is active.
  abbrev pub single : Plan A
  single i st =
      if active i then record { name = name; address = addr i; value = value i st } ∷ [] else []

  abbrev Touches : ℕ → ℕ → ℤ → Type 0
  Touches i b a = b ≡ name → (active i ≡ true) × (a ≡ addr i)

  abbrev Writes : ℕ → ℕ → ℤ → Type 0
  Writes i b a = (active i ≡ true) × (b ≡ name) × (a ≡ addr i)

  single_within : (i : ℕ) (st : Store A) → All (λ w. Writes i w.name w.address) (single i st)
  single_within i st = elim (Bool-cases (active i)) [
    | inl on ↦ rw on ((refl, refl, refl), tt)
    | inr off ↦ rw off tt
  ]

  single_self :
      (i : ℕ) (st : Store A)
      → active i ≡ true
      → apply_all (single i st) st name (addr i) ≡ value i st
  unfolding apply_all apply_write store
  single_self i st on = rw (on, ==_refl name, ==ℤ_refl (addr i))

  module _ (n : ℕ) (plan : Plan A) (same : (i : ℕ) (st : Store A) → i < n → plan i st ≡ single i st)
      (frame : (i : ℕ) (st st' : Store A)
        → i < n
        → active i ≡ true
        → ((b : ℕ) (a : ℤ) → b ≢ name → st b a ≡ st' b a)
        → value i st ≡ value i st')
      (injective : (i j : ℕ)
        → i < n
        → j < n
        → active i ≡ true
        → active j ≡ true
        → addr i ≡ addr j
        → i ≡ j) where
    single-IsIndependent : IsIndependent n plan Touches Writes
    single-IsIndependent = record {
      frame = λ i st st' h agree.
          same i st h
          ∙ elim (Bool-cases (active i)) [
            | inl on ↦ rw on (
                ap (λ v. record { name = name; address = addr i; value = v } ∷ [])
                  (frame i st st' h on (λ b a ne. agree b a (λ e. absurd (ne e)))))
            | inr off ↦ rw off
          ]
          ∙ sym (same i st' h);
      within = λ i st h. rw (same i st h) (single_within i st);
      owned = λ i b a _ w _. (w.0, w.2);
      apart = λ i j b a hi hj ne w t.
          let own = t w.1 in ne (injective i j hi hj w.0 own.0 (sym w.2 ∙ own.1));
    }

    -- Each active item leaves its value, computed from the memory before, and nothing else changes.
    pub launch-single :
        (st : Store A)
        → ((i : ℕ) → i < n → active i ≡ true → launch n plan st name (addr i) ≡ value i st)
          × ((b : ℕ) (a : ℤ)
              → ((i : ℕ) → i < n → active i ≡ true → ¬ ((b ≡ name) × (a ≡ addr i)))
              → launch n plan st b a ≡ st b a)
    launch-single st = (
      λ i h on.
          launch_at single-IsIndependent st i name (addr i) h (λ _. (on, refl))
          ∙ ap (λ ws. apply_all ws st name (addr i)) (same i st h)
          ∙ single_self i st on,
      λ b a miss. launch_other single-IsIndependent st b a (λ i h w. miss i h w.0 (w.1, w.2)),
    )
