-- ===== src/Kernel/Values.antt =====
-- What the writes of a work item leave at a place.
use mathlib.Core.Path.{subst₂}
use sycl_blas.Base.{
  ℕ, zero, suc, ◌≡◌, List, [], ◌∷◌, Option, some, none, refl, sym, ap, ◌∙◌, arith, Bool-cases, inl,
  inr, ◌&&◌, ◌==◌, ==_iff,
}
use sycl_blas.Base.Int.{ℤ, ◌==ℤ◌, ==ℤ_iff}
use sycl_blas.Views.{Store, store}
use sycl_blas.Kernel.{Write, apply_write, apply_all, All}

-- The element at an index of a list, if there is one.
unfoldable pub get_elem? {ℓ} : {A : Type ℓ} → List A → ℕ → Option A
get_elem? [] i = none
get_elem? (x ∷ xs) zero = some x
get_elem? (x ∷ xs) (suc i) = get_elem? xs i

module _ {ℓ} {A : Type ℓ} where
  pub some_injective : {x y : Write A} → some x ≡ some y → x ≡ y
  some_injective {x} e = ap (λ o. elim o [ some w ↦ w | none ↦ x ]) e

  pub All-get_elem? :
      (P : Write A → Type 0) (ws : List (Write A))
      → ((t : ℕ) (x : Write A) → get_elem? ws t ≡ some x → P x)
      → All P ws
  unfolding get_elem?
  All-get_elem? P [] h = tt
  All-get_elem? P (w ∷ ws) h = (h 0 w refl, All-get_elem? P ws (λ t x e. h (suc t) x e))

  pub apply_write_here : (w : Write A) (st : Store A) → apply_write w st w.name w.address ≡ w.value
  unfolding apply_write store
  apply_write_here w st = rw ((==_iff w.name w.name).1 refl, (==ℤ_iff w.address w.address).1 refl)

  pub apply_write_kept :
      (w : Write A) (st : Store A) (b : ℕ) (a : ℤ) (v : A)
      → (w.name ≡ b → w.address ≡ a → w.value ≡ v)
      → st b a ≡ v
      → apply_write w st b a ≡ v
  unfolding apply_write store
  apply_write_kept w st b a v agree e = elim (Bool-cases (b == w.name && a ==ℤ w.address)) [
    | inl same ↦ rw same (
        agree (sym ((==_iff b w.name).0 (ground arith)))
          (sym ((==ℤ_iff a w.address).0 (ground arith))))
    | inr other ↦ rw other e
  ]

  -- Writes that agree on a place leave their value there.
  apply_all_kept :
      (ws : List (Write A)) (st : Store A) (b : ℕ) (a : ℤ) (v : A)
      → ((t : ℕ) (x : Write A) → get_elem? ws t ≡ some x → x.name ≡ b → x.address ≡ a → x.value ≡ v)
      → st b a ≡ v
      → apply_all ws st b a ≡ v
  unfolding apply_all get_elem?
  apply_all_kept [] st b a v agree e = e
  apply_all_kept (w ∷ ws) st b a v agree e =
      apply_all_kept ws (apply_write w st) b a v (λ t x. agree (suc t) x)
        (apply_write_kept w st b a v (agree 0 w refl) e)

  pub apply_all_value :
      (ws : List (Write A)) (st : Store A) (b : ℕ) (a : ℤ) (v : A)
      → ((t : ℕ) (x : Write A) → get_elem? ws t ≡ some x → x.name ≡ b → x.address ≡ a → x.value ≡ v)
      → (t : ℕ) (x : Write A) → get_elem? ws t ≡ some x
      → x.name ≡ b
      → x.address ≡ a
      → apply_all ws st b a ≡ v
  unfolding apply_all get_elem?
  apply_all_value [] st b a v agree t x e n p = cc (e)
  apply_all_value (w ∷ ws) st b a v agree zero x e n p =
      apply_all_kept ws (apply_write w st) b a v (λ t x. agree (suc t) x)
        (let same = some_injective e in
          let name = ap (λ y. y.name) same ∙ n in
          let address = ap (λ y. y.address) same ∙ p in
          subst₂ (λ c z. apply_write w st c z ≡ v) name address
            (apply_write_here w st ∙ agree 0 w refl name address))
  apply_all_value (w ∷ ws) st b a v agree (suc t) x e n p =
      apply_all_value ws (apply_write w st) b a v (λ t x. agree (suc t) x) t x e n p
