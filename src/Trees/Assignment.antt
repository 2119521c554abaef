-- ===== src/Trees/Assignment.antt =====
-- What `Assign` and `DoubleAssign` do, as kernels over enough work items.
use sycl_blas.Base.{
  ℕ, ◌<◌, ◌≤◌, ◌≡◌, refl, ap, ◌∙◌, inl, inr, arith, Bool-cases, ltb, lt→ltb, ltb→lt, ==_refl, [],
  ◌∷◌,
}
use sycl_blas.Base.Int.{ℤ, ==ℤ_refl}
use sycl_blas.Base.Scalar.{Scalar}
use sycl_blas.Views.{Store, store}
use sycl_blas.Kernel.{Write, apply_all, apply_write, launch, All, IsIndependent}
use sycl_blas.Kernel.Elementwise.{Touches, Writes, elementwise-IsIndependent}
use sycl_blas.Kernel.Order.{launch_at, launch_other}
use sycl_blas.Trees.{View, Expr, view_name, view_address, get_size, eval, assign}
use sycl_blas.Trees.Locality.{AllLeaves, AllLeaves-map, eval_congr, IsApart, IsInjective}

-- A write is read back at its own place.
pub apply_write_self {ℓ} :
    {A : Type ℓ} (w : Write A) (st : Store A) → apply_write w st w.name w.address ≡ w.value
unfolding apply_write store
apply_write_self w st = rw (==_refl w.name, ==ℤ_refl w.address)

module _ {ℓ} {A : Type ℓ} (s : Scalar A) where
  module _ (lhs : View) (rhs : Expr A) where
    abbrev IsTarget : ℕ → Type 0
    IsTarget b = b ≡ view_name lhs

    abbrev target_address : ℕ → ℕ → ℤ
    target_address _ i = view_address lhs i

    -- Memories that agree on what item `i` touches give the same value.
    eval_frame :
        (i : ℕ) (m n : Store A)
        → AllLeaves (IsApart lhs) rhs
        → ((b : ℕ) (a : ℤ) → (b ≡ view_name lhs → a ≡ view_address lhs i) → m b a ≡ n b a)
        → eval s rhs m i ≡ eval s rhs n i
    eval_frame i m n apart same = eval_congr s rhs m n i (AllLeaves-map rhs (λ v. at v) apart)
      where
        at :
            (v : View)
            → IsApart lhs v
            → m (view_name v) (view_address v i) ≡ n (view_name v) (view_address v i)
        at v (inl other) = same _ _ (λ e. absurd (other e))
        at v (inr own) = same _ _ (λ _. own.1 i)

    assign_frame :
        (i : ℕ) (m n : Store A)
        → AllLeaves (IsApart lhs) rhs
        → ((b : ℕ) (a : ℤ) → Touches (get_size rhs) IsTarget target_address i b a → m b a ≡ n b a)
        → assign s lhs rhs i m ≡ assign s lhs rhs i n
    unfolding assign
    assign_frame i m n apart same = elim (Bool-cases (ltb i (get_size rhs))) [
      | inl inside ↦ rw inside (
          ap (λ x. record { name = view_name lhs; address = view_address lhs i; value = x } ∷ [])
            (eval_frame i m n apart (λ b a h. same b a (ltb→lt _ _ inside, h))))
      | inr outside ↦ rw outside
    ]

    assign_within :
        (i : ℕ) (m : Store A)
        → All
            (λ w. Writes (get_size rhs) IsTarget target_address i w.name w.address)
            (assign s lhs rhs i m)
    unfolding assign
    assign_within i m = elim (Bool-cases (ltb i (get_size rhs))) [
      | inl inside ↦ rw inside ((ltb→lt _ _ inside, refl, refl), tt)
      | inr outside ↦ rw outside tt
    ]

    pub assign-IsIndependent :
        (n : ℕ)
        → AllLeaves (IsApart lhs) rhs
        → IsInjective (get_size rhs) lhs
        → IsIndependent n
            (assign s lhs rhs)
            (Touches (get_size rhs) IsTarget target_address)
            (Writes (get_size rhs) IsTarget target_address)
    assign-IsIndependent n apart inj =
        elementwise-IsIndependent (get_size rhs) IsTarget target_address n (assign s lhs rhs)
          (λ i m k. assign_frame i m k apart) assign_within (λ b i j _. inj i j)

    -- With a work item for each element the target view holds the value of the expression in the
    -- memory before the kernel, and every other element is as it was.
    pub launch-assign :
        (n : ℕ) (m : Store A)
        → AllLeaves (IsApart lhs) rhs
        → IsInjective (get_size rhs) lhs
        → get_size rhs ≤ n
        → ((i : ℕ)
            → i < get_size rhs
            → launch n (assign s lhs rhs) m (view_name lhs) (view_address lhs i) ≡ eval s rhs m i)
          × ((b : ℕ) (a : ℤ)
              → ((i : ℕ) → i < get_size rhs → ¬ ((b ≡ view_name lhs) × (a ≡ view_address lhs i)))
              → launch n (assign s lhs rhs) m b a ≡ m b a)
    launch-assign n m apart inj enough =
        let ind = assign-IsIndependent n apart inj in
        (
          λ i h.
              launch_at ind m i (view_name lhs) (view_address lhs i) (omega arith) (h, λ _. refl)
              ∙ written i h,
          λ b a miss. launch_other ind m b a (λ i _ w. miss i w.0 (w.1, w.2)),
        )
      where
        written :
            (i : ℕ)
            → i < get_size rhs
            → apply_all (assign s lhs rhs i m) m (view_name lhs) (view_address lhs i)
              ≡ eval s rhs m i
        written i h = unfold assign apply_all in rw (lt→ltb _ _ h) (apply_write_self _ m)
