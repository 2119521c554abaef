-- ===== src/Kernel/Elementwise.antt =====
-- Kernels in which each work item writes its own element of each target buffer, and reads of the
-- target buffers that element only.
use sycl_blas.Base.{ℕ, ◌<◌, ◌≡◌, sym, ◌∙◌}
use sycl_blas.Base.Int.{ℤ}
use sycl_blas.Views.{Store}
use sycl_blas.Kernel.{Plan, All, IsIndependent}

module _ (size : ℕ) (IsTarget : ℕ → Type 0) (addr : ℕ → ℕ → ℤ) where
  abbrev pub Touches : ℕ → ℕ → ℤ → Type 0
  Touches i b a = (i < size) × (IsTarget b → a ≡ addr b i)

  abbrev pub Writes : ℕ → ℕ → ℤ → Type 0
  Writes i b a = (i < size) × IsTarget b × (a ≡ addr b i)

  pub elementwise-IsIndependent {ℓ} :
      {A : Type ℓ} (n : ℕ) (plan : Plan A)
      → ((i : ℕ) (s t : Store A)
          → ((b : ℕ) (a : ℤ) → Touches i b a → s b a ≡ t b a)
          → plan i s ≡ plan i t)
      → ((i : ℕ) (s : Store A) → All (λ w. Writes i w.name w.address) (plan i s))
      → ((b i j : ℕ) → IsTarget b → i < size → j < size → addr b i ≡ addr b j → i ≡ j)
      → IsIndependent n plan Touches Writes
  elementwise-IsIndependent n plan frame within injective = record {
    frame = λ i s t _. frame i s t;
    within = λ i s _. within i s;
    owned = λ i b a _ w. (w.0, λ _. w.2);
    apart = λ i j b a _ _ ne w t. ne (injective b i j w.1 w.0 t.0 (sym w.2 ∙ t.1 w.1));
  }
