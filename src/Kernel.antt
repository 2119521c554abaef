-- ===== src/Kernel.antt =====
-- src/executors/kernel_constructor.hpp and the SYCL execution model: a kernel is a set of work items
-- that read the device's memory and write to it, in no particular order.
pub mod Order
pub mod Values
pub mod Interleaving
pub mod Elementwise
pub mod Single
pub mod Cells
pub mod Grid
use sycl_blas.Base.{ℕ, zero, suc, ◌<◌, ◌≡◌, ◌≢◌, List, [], ◌∷◌, if◌then◌else◌, ◌==◌}
use sycl_blas.Base.Int.{ℤ}
use sycl_blas.Views.{Store, store}

pub record Write {ℓ} (A : Type ℓ) : Type ℓ where
  pub name : ℕ
  pub address : ℤ
  pub value : A

-- A work item's reads, as a function of the memory, and the writes that follow them.
abbrev pub Plan {ℓ} : Type ℓ → Type ℓ
Plan A = ℕ → Store A → List (Write A)

module _ {ℓ} {A : Type ℓ} where
  unfoldable pub apply_write : Write A → Store A → Store A
  apply_write w st = store w.name w.address w.value st

  unfoldable pub apply_all : List (Write A) → Store A → Store A
  apply_all [] st = st
  apply_all (w ∷ ws) st = apply_all ws (apply_write w st)

  -- The items `i`, `i + 1`, …, `i + n - 1`, one after the other.
  unfoldable pub launch_from : ℕ → ℕ → Plan A → Store A → Store A
  launch_from i zero plan st = st
  launch_from i (suc n) plan st = launch_from (suc i) n plan (apply_all (plan i st) st)

  -- `parallel_for` over `n` work items.
  unfoldable pub launch : ℕ → Plan A → Store A → Store A
  launch n plan st = launch_from 0 n plan st

  abbrev pub All {ℓ'} : (Write A → Type ℓ') → List (Write A) → Type ℓ'
  All P [] = Unit
  All P (w ∷ ws) = P w × All P ws

  -- What the items below `n` may read or write (`Touches`) and may write (`Writes`), by the item, the
  -- buffer and the address: no item writes where another one reads or writes.
  pub record IsIndependent (n : ℕ) (plan : Plan A) (Touches Writes : ℕ → ℕ → ℤ → Type 0)
      : Type ℓ where
    pub frame :
        (i : ℕ) (s t : Store A)
        → i < n
        → ((b : ℕ) (a : ℤ) → Touches i b a → s b a ≡ t b a)
        → plan i s ≡ plan i t
    pub within : (i : ℕ) (s : Store A) → i < n → All (λ w. Writes i w.name w.address) (plan i s)
    pub owned : (i b : ℕ) (a : ℤ) → i < n → Writes i b a → Touches i b a
    pub apart : (i j b : ℕ) (a : ℤ) → i < n → j < n → i ≢ j → Writes i b a → Touches j b a → ⊥
