-- ===== src/Kernel/Interleaving.antt =====
-- Every interleaving of work items that do not interfere ends as the sequential run does. An item
-- first reads all that it needs, and then makes its writes one at a time; between any two of these
-- steps other items may move.
use mathlib.Core.Path.{subst, subst₂}
use native.Mathlib.Decide.{ℕ_discrete}
use sycl_blas.Base.{
  ℕ, ◌<◌, ◌≡◌, ◌≢◌, refl, sym, ap, ◌∙◌, List, [], ◌∷◌, ◌==◌, ==_refl, ne→==, if◌then◌else◌,
}
use sycl_blas.Base.Int.{ℤ}
use sycl_blas.Views.{Store}
use sycl_blas.Kernel.{Write, Plan, apply_write, apply_all, launch, All, IsIndependent}
use sycl_blas.Kernel.Order.{apply_all_congr, apply_write_other, launch_at, launch_other}

pub data ItemState {ℓ} (A : Type ℓ) : Type ℓ where
  waiting : ItemState A
  writing : List (Write A) → ItemState A

pub record Config {ℓ} (A : Type ℓ) : Type ℓ where
  pub memory : Store A
  pub items : ℕ → ItemState A

module _ {ℓ} {A : Type ℓ} where
  abbrev pub set_item : (ℕ → ItemState A) → ℕ → ItemState A → ℕ → ItemState A
  set_item items i x j = if j == i then x else items j

  abbrev pub started : Store A → Config A
  started s = record { memory = s; items = λ _. waiting }

module _ {ℓ} {A : Type ℓ} (n : ℕ) (plan : Plan A) where
  pub data Step : Config A → Config A → Type ℓ where
    read :
        (c : Config A) (i : ℕ)
        → i < n
        → c.items i ≡ waiting
        → Step c (record c { items = set_item c.items i (writing (plan i c.memory)) })
    put :
        (c : Config A) (i : ℕ) (w : Write A) (ws : List (Write A))
        → i < n
        → c.items i ≡ writing (w ∷ ws)
        → Step c
            (record { memory = apply_write w c.memory; items = set_item c.items i (writing ws) })

  pub data Run (c : Config A) : Config A → Type ℓ where
    here : Run c c
    next : {d e : Config A} → Run c d → Step d e → Run c e

  abbrev pub IsDone : Config A → Type ℓ
  IsDone c = (i : ℕ) → i < n → c.items i ≡ writing []

  module _ (Touches Writes : ℕ → ℕ → ℤ → Type 0) (ind : IsIndependent n plan Touches Writes)
      (s : Store A) where
    -- What holds of item `i` in the state `x`, in the memory `m`.
    abbrev ItemInv : ℕ → Store A → ItemState A → Type ℓ
    ItemInv i m waiting = (b : ℕ) (a : ℤ) → Touches i b a → m b a ≡ s b a
    ItemInv i m (writing ws) =
        All (λ w. Writes i w.name w.address) ws
        × ((b : ℕ) (a : ℤ) → Touches i b a → apply_all ws m b a ≡ apply_all (plan i s) s b a)

    record Inv (c : Config A) : Type ℓ where
      item : (i : ℕ) → i < n → ItemInv i c.memory (c.items i)
      rest : (b : ℕ) (a : ℤ) → ((j : ℕ) → j < n → ¬ Writes j b a) → c.memory b a ≡ s b a

    ItemInv-other :
        (i : ℕ) (m m' : Store A) (x : ItemState A)
        → ((b : ℕ) (a : ℤ) → Touches i b a → m' b a ≡ m b a)
        → ItemInv i m x
        → ItemInv i m' x
    ItemInv-other i m m' waiting same h = λ b a t. same b a t ∙ h b a t
    ItemInv-other i m m' (writing ws) same h =
        (h.0, λ b a t. apply_all_congr ws m' m b a (same b a t) ∙ h.1 b a t)

    set-ItemInv :
        (m : Store A) (items : ℕ → ItemState A) (i : ℕ) (x : ItemState A) (j : ℕ)
        → ItemInv i m x
        → (j ≢ i → ItemInv j m (items j))
        → ItemInv j m (set_item items i x j)
    set-ItemInv m items i x j own other = elim (ℕ_discrete j i) [
      | yes e ↦ subst (λ k. ItemInv k m (set_item items i x k)) (sym e) (rw (==_refl i) own)
      | no ne ↦ rw (ne→== j i ne) (other ne)
    ]

    Step-Inv : {c d : Config A} → Step c d → Inv c → Inv d
    unfolding apply_all
    Step-Inv (read c i lt e) v = record {
      item = λ j hj.
          set-ItemInv c.memory c.items i (writing (plan i c.memory)) j (loaded (v.item i lt))
            (λ _. v.item j hj);
      rest = v.rest;
    }
      where
        loaded : ItemInv i c.memory (c.items i) → ItemInv i c.memory (writing (plan i c.memory))
        loaded p =
            let same : (b : ℕ) (a : ℤ) → Touches i b a → c.memory b a ≡ s b a =
              subst (ItemInv i c.memory) e p in
            (
              ind.within i c.memory lt,
              λ b a t.
                  ap (λ q. apply_all q c.memory b a) (ind.frame i c.memory s lt same)
                  ∙ apply_all_congr (plan i s) c.memory s b a (same b a t),
            )
    Step-Inv (put c i w ws lt e) v = record {
      item = λ j hj.
          set-ItemInv (apply_write w c.memory) c.items i (writing ws) j (written (mine.0.1, mine.1))
            (λ ne.
              ItemInv-other j c.memory (apply_write w c.memory) (c.items j)
                (λ b a t.
                  apply_write_other w c.memory b a
                    (λ q. ind.apart i j b a lt hj (λ r. ne (sym r)) (at b a q) t))
                (v.item j hj));
      rest = λ b a miss.
          apply_write_other w c.memory b a (λ q. miss i lt (at b a q)) ∙ v.rest b a miss;
    }
      where
        mine : ItemInv i c.memory (writing (w ∷ ws))
        mine = subst (ItemInv i c.memory) e (v.item i lt)

        at : (b : ℕ) (a : ℤ) → (b ≡ w.name) × (a ≡ w.address) → Writes i b a
        at b a q = subst₂ (Writes i) (sym q.0) (sym q.1) mine.0.0

        written :
            All (λ w. Writes i w.name w.address) ws
              × ((b : ℕ) (a : ℤ)
                  → Touches i b a
                  → apply_all (w ∷ ws) c.memory b a ≡ apply_all (plan i s) s b a)
            → ItemInv i (apply_write w c.memory) (writing ws)
        written p = (p.0, p.1)

    Run-Inv : {c d : Config A} → Inv c → Run c d → Inv d
    Run-Inv v here = v
    Run-Inv v (next r st) = Step-Inv st (Run-Inv v r)

    started-Inv : Inv (started s)
    started-Inv = record { item = λ i h b a t. refl; rest = λ b a miss. refl }

    -- Whatever the order of the steps, once all items are done the memory holds, wherever some item
    -- reads or writes and wherever none writes, what the sequential run leaves there.
    pub Run-launch :
        {c : Config A}
        → Run (started s) c
        → IsDone c
        → ((j b : ℕ) (a : ℤ) → j < n → Touches j b a → c.memory b a ≡ launch n plan s b a)
          × ((b : ℕ) (a : ℤ)
              → ((j : ℕ) → j < n → ¬ Writes j b a)
              → c.memory b a ≡ launch n plan s b a)
    unfolding apply_all
    Run-launch {c} r done =
        let v = Run-Inv started-Inv r in
        (
          λ j b a h t.
              (subst (ItemInv j c.memory) (done j h) (v.item j h)).1 b a t
              ∙ sym (launch_at ind s j b a h t),
          λ b a miss. v.rest b a miss ∙ sym (launch_other ind s b a miss),
        )
