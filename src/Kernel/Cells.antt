-- ===== src/Kernel/Cells.antt =====
-- Kernels in which a work item updates several elements of one buffer, each element by one item.
use mathlib.Core.Path.{subst₂}
use sycl_blas.Base.{
  ℕ, zero, suc, ◌+◌, ◌<◌, ◌≤◌, ◌≡◌, ◌≢◌, ◌⊎◌, inl, inr, List, [], ◌∷◌, ◌++◌, refl, sym, ap, ◌∙◌,
  arith, Bool-cases, ltb, ltb→lt, ltb→le,
}
use sycl_blas.Base.Int.{ℤ}
use sycl_blas.Views.{Store}
use sycl_blas.Kernel.{Write, Plan, apply_write, apply_all, launch, launch_from, All}
use sycl_blas.Kernel.Values.{apply_write_here, apply_write_kept}

module _ {ℓ} {A : Type ℓ} where
  abbrev pub Any : (Write A → Type 0) → List (Write A) → Type 0
  Any P [] = ⊥
  Any P (w ∷ ws) = P w ⊎ Any P ws

  pub All-++ {ℓ'} :
      (P : Write A → Type ℓ') (ws vs : List (Write A)) → All P ws → All P vs → All P (ws ++ vs)
  All-++ P [] vs h k = k
  All-++ P (w ∷ ws) vs h k = (h.0, All-++ P ws vs h.1 k)

  pub Any-++_left : (P : Write A → Type 0) (ws vs : List (Write A)) → Any P ws → Any P (ws ++ vs)
  Any-++_left P [] vs h = absurd h
  Any-++_left P (w ∷ ws) vs (inl h) = inl h
  Any-++_left P (w ∷ ws) vs (inr h) = inr (Any-++_left P ws vs h)

  pub Any-++_right : (P : Write A → Type 0) (ws vs : List (Write A)) → Any P vs → Any P (ws ++ vs)
  Any-++_right P [] vs h = h
  Any-++_right P (w ∷ ws) vs h = inr (Any-++_right P ws vs h)

  abbrev pub At : ℕ → ℤ → Write A → Type 0
  At b a w = (w.name ≡ b) × (w.address ≡ a)

  module _ (b : ℕ) (a : ℤ) (v : A) where
    -- Writes that leave the value at the place, if they meet it, keep it there.
    pub apply_all_keeps :
        (ws : List (Write A)) (st : Store A)
        → All (λ w. At b a w → w.value ≡ v) ws
        → st b a ≡ v
        → apply_all ws st b a ≡ v
    unfolding apply_all
    apply_all_keeps [] st h e = e
    apply_all_keeps (w ∷ ws) st h e =
        apply_all_keeps ws (apply_write w st) h.1
          (apply_write_kept w st b a v (λ n p. h.0 (n, p)) e)

    -- And if one of them meets it, it is there.
    pub apply_all_hits :
        (ws : List (Write A)) (st : Store A)
        → All (λ w. At b a w → w.value ≡ v) ws
        → Any (At b a) ws
        → apply_all ws st b a ≡ v
    unfolding apply_all
    apply_all_hits [] st h none_at = absurd none_at
    apply_all_hits (w ∷ ws) st h (inl at) =
        apply_all_keeps ws (apply_write w st) h.1
          (subst₂ (λ c z. apply_write w st c z ≡ v) at.0 at.1 (apply_write_here w st ∙ h.0 at))
    apply_all_hits (w ∷ ws) st h (inr any) = apply_all_hits ws (apply_write w st) h.1 any

  pub All-map {ℓ' ℓ''} :
      {P : Write A → Type ℓ'} {Q : Write A → Type ℓ''}
      → ((w : Write A) → P w → Q w)
      → (ws : List (Write A)) → All P ws
      → All Q ws
  All-map f [] h = tt
  All-map f (w ∷ ws) h = (f w h.0, All-map f ws h.1)

-- The elements are named by `K`; `owner` is the item that updates an element, and `value` what it
-- leaves there.
module _ {ℓ} {A : Type ℓ} {K : Type 0} (name : ℕ) (Valid : K → Type 0) (addr : K → ℤ)
    (owner : K → ℕ) (value : K → Store A → A) where
  -- A write of the item `i`: an element of its own, with its value.
  abbrev pub IsUpdate : ℕ → Store A → Write A → Type ℓ
  IsUpdate i st w =
      (k : K) × Valid k
      × (owner k ≡ i)
      × (w.name ≡ name)
      × (w.address ≡ addr k)
      × (w.value ≡ value k st)

  -- Kernels of which each item leaves their values in its own elements, and changes nothing else.
  module _ (items : ℕ) (plan : Plan A)
      (item_own : (k : K) (st : Store A)
        → Valid k
        → owner k < items
        → apply_all (plan (owner k) st) st name (addr k) ≡ value k st)
      (item_other : (i : ℕ) (st : Store A) (b : ℕ) (a : ℤ)
        → i < items
        → ((k : K) → Valid k → owner k ≡ i → ¬ ((b ≡ name) × (a ≡ addr k)))
        → apply_all (plan i st) st b a ≡ st b a)
      (frame : (k : K) (st st' : Store A)
        → Valid k
        → ((b : ℕ) (a : ℤ) → b ≢ name → st b a ≡ st' b a)
        → st name (addr k) ≡ st' name (addr k)
        → value k st ≡ value k st')
      (injective : (k l : K) → Valid k → Valid l → addr k ≡ addr l → k ≡ l) where
    launch_from_other :
        (n i : ℕ) (st : Store A) (b : ℕ) (a : ℤ)
        → i + n ≤ items
        → ((k : K) → Valid k → i ≤ owner k → owner k < i + n → ¬ ((b ≡ name) × (a ≡ addr k)))
        → launch_from i n plan st b a ≡ st b a
    unfolding launch_from
    launch_from_other zero i st b a h miss = refl
    launch_from_other (suc n) i st b a h miss =
        launch_from_other n (suc i) (apply_all (plan i st) st) b a (omega arith)
          (λ k valid lo hi. miss k valid (omega arith) (omega arith))
        ∙ item_other i st b a (omega arith)
            (λ k valid own. miss k valid (omega arith) (omega arith))

    launch_from_own :
        (n i : ℕ) (k : K) (st : Store A)
        → i + n ≤ items
        → Valid k
        → i ≤ owner k
        → owner k < i + n
        → launch_from i n plan st name (addr k) ≡ value k st
    unfolding launch_from
    launch_from_own zero i k st h valid lo hi = absurd (omega arith)
    launch_from_own (suc n) i k st h valid lo hi = elim (Bool-cases (ltb i (owner k))) [
      | inr le ↦
          let e : i ≡ owner k = let ge = ltb→le i (owner k) le in omega arith in
          launch_from_other n (suc i) (apply_all (plan i st) st) name (addr k) (omega arith)
            (λ l valid' lo' hi' q.
              absurd (let same = ap owner (injective k l valid valid' q.1) in omega arith))
          ∙ ap (λ j. apply_all (plan j st) st name (addr k)) e
          ∙ item_own k st valid (omega arith)
      | inl lt ↦
          let later = ltb→lt i (owner k) lt in
          let miss : (l : K) → Valid l → owner l ≡ i → addr k ≡ addr l → ⊥ =
            λ l valid' own q. let same = ap owner (injective k l valid valid' q) in omega arith in
          launch_from_own n (suc i) k (apply_all (plan i st) st) (omega arith) valid (omega arith)
            (omega arith)
          ∙ frame k (apply_all (plan i st) st) st valid
              (λ b a other. item_other i st b a (omega arith) (λ l _ _ q. other q.0))
              (item_other i st name (addr k) (omega arith)
                (λ l valid' own q. miss l valid' own q.1))
    ]

    -- Each element has its value, computed from the memory before, and nothing else changes.
    pub launch-items :
        (st : Store A)
        → ((k : K) → Valid k → owner k < items → launch items plan st name (addr k) ≡ value k st)
          × ((b : ℕ) (a : ℤ)
              → ((k : K) → Valid k → ¬ ((b ≡ name) × (a ≡ addr k)))
              → launch items plan st b a ≡ st b a)
    unfolding launch
    launch-items st = (
      λ k valid h. launch_from_own items 0 k st (omega arith) valid (omega arith) (omega arith),
      λ b a miss. launch_from_other items 0 st b a (omega arith) (λ k valid _ _. miss k valid),
    )

  -- Kernels of which each item writes its own elements once.
  module _ (items : ℕ) (plan : Plan A)
      (sound : (i : ℕ) (st : Store A) → i < items → All (IsUpdate i st) (plan i st))
      (complete : (k : K) (st : Store A) → Valid k → Any (At name (addr k)) (plan (owner k) st))
      (frame : (k : K) (st st' : Store A)
        → Valid k
        → ((b : ℕ) (a : ℤ) → b ≢ name → st b a ≡ st' b a)
        → st name (addr k) ≡ st' name (addr k)
        → value k st ≡ value k st')
      (injective : (k l : K) → Valid k → Valid l → addr k ≡ addr l → k ≡ l) where
    item_other :
        (i : ℕ) (st : Store A) (b : ℕ) (a : ℤ)
        → i < items
        → ((k : K) → Valid k → owner k ≡ i → ¬ ((b ≡ name) × (a ≡ addr k)))
        → apply_all (plan i st) st b a ≡ st b a
    item_other i st b a h miss =
        apply_all_keeps b a (st b a) (plan i st) st
          (All-map (λ w u at. absurd (miss u.0 u.1 u.2 (sym at.0 ∙ u.3, sym at.1 ∙ u.4)))
            (plan i st) (sound i st h))
          refl

    item_own :
        (k : K) (st : Store A)
        → Valid k
        → owner k < items
        → apply_all (plan (owner k) st) st name (addr k) ≡ value k st
    item_own k st valid h =
        apply_all_hits name (addr k) (value k st) (plan (owner k) st) st
          (All-map
            (λ w u at. u.5 ∙ ap (λ l. value l st) (injective u.0 k u.1 valid (sym u.4 ∙ at.1)))
            (plan (owner k) st) (sound (owner k) st h))
          (complete k st valid)

    pub launch-cells :
        (st : Store A)
        → ((k : K) → Valid k → owner k < items → launch items plan st name (addr k) ≡ value k st)
          × ((b : ℕ) (a : ℤ)
              → ((k : K) → Valid k → ¬ ((b ≡ name) × (a ≡ addr k)))
              → launch items plan st b a ≡ st b a)
    launch-cells = launch-items items plan item_own item_other frame injective
