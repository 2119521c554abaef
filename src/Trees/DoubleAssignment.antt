-- ===== src/Trees/DoubleAssignment.antt =====
-- What `DoubleAssign` does, as a kernel over enough work items: rotations and swaps rely on both right
-- sides being read before either left side is written.
use mathlib.Core.Path.{ap₂}
use sycl_blas.Base.{
  ℕ, ◌<◌, ◌≤◌, ◌≡◌, ◌≢◌, refl, sym, ◌∙◌, ◌⊎◌, inl, inr, arith, Bool-cases, ltb, lt→ltb, ltb→lt,
  ==_refl, ne→==, ◌==◌, [], ◌∷◌, if◌then◌else◌,
}
use sycl_blas.Base.Int.{ℤ}
use sycl_blas.Base.Scalar.{Scalar}
use sycl_blas.Views.{Store}
use sycl_blas.Kernel.{apply_all, launch, All, IsIndependent}
use sycl_blas.Kernel.Elementwise.{Touches, Writes, elementwise-IsIndependent}
use sycl_blas.Kernel.Order.{launch_at, launch_other, apply_write_other}
use sycl_blas.Trees.{View, Expr, view_name, view_address, get_size, eval, double_assign}
use sycl_blas.Trees.Assignment.{apply_write_self}
use sycl_blas.Trees.Locality.{AllLeaves, AllLeaves-map, eval_congr, IsApart, IsInjective}

module _ {ℓ} {A : Type ℓ} (s : Scalar A) (lhs_1 lhs_2 : View) (rhs_1 rhs_2 : Expr A) where
  abbrev IsTarget : ℕ → Type 0
  IsTarget b = (b ≡ view_name lhs_1) ⊎ (b ≡ view_name lhs_2)

  abbrev target_address : ℕ → ℕ → ℤ
  target_address b i = if b == view_name lhs_1 then view_address lhs_1 i else view_address lhs_2 i

  -- Both right sides may read the element that is written, and no other element of either target.
  abbrev pub AreApart : Type 0
  AreApart =
      AllLeaves (λ v. IsApart lhs_1 v × IsApart lhs_2 v) rhs_1
      × AllLeaves (λ v. IsApart lhs_1 v × IsApart lhs_2 v) rhs_2

  module _ (distinct : view_name lhs_1 ≢ view_name lhs_2) where
    first_address :
        (b : ℕ) (i : ℕ) → b ≡ view_name lhs_1 → target_address b i ≡ view_address lhs_1 i
    first_address b i e = rw (e, ==_refl (view_name lhs_1))

    second_address :
        (b : ℕ) (i : ℕ) → b ≡ view_name lhs_2 → target_address b i ≡ view_address lhs_2 i
    second_address b i e = rw (e, ne→== (view_name lhs_2) (view_name lhs_1) (λ q. distinct (sym q)))

    eval_frame :
        (rhs : Expr A) (i : ℕ) (m n : Store A)
        → AllLeaves (λ v. IsApart lhs_1 v × IsApart lhs_2 v) rhs
        → ((b : ℕ) (a : ℤ) → (IsTarget b → a ≡ target_address b i) → m b a ≡ n b a)
        → eval s rhs m i ≡ eval s rhs n i
    eval_frame rhs i m n apart same = eval_congr s rhs m n i (AllLeaves-map rhs (λ v. at v) apart)
      where
        own :
            (v : View)
            → IsApart lhs_1 v × IsApart lhs_2 v
            → IsTarget (view_name v)
            → view_address v i ≡ target_address (view_name v) i
        own v (inl other, _) (inl e) = absurd (other e)
        own v (inr (_, here), _) (inl e) = here i ∙ sym (first_address (view_name v) i e)
        own v (_, inl other) (inr e) = absurd (other e)
        own v (_, inr (_, here)) (inr e) = here i ∙ sym (second_address (view_name v) i e)

        at :
            (v : View)
            → IsApart lhs_1 v × IsApart lhs_2 v
            → m (view_name v) (view_address v i) ≡ n (view_name v) (view_address v i)
        at v h = same _ _ (own v h)

    double_assign_frame :
        (i : ℕ) (m n : Store A)
        → AreApart
        → ((b : ℕ) (a : ℤ) → Touches (get_size rhs_2) IsTarget target_address i b a → m b a ≡ n b a)
        → double_assign s lhs_1 lhs_2 rhs_1 rhs_2 i m ≡ double_assign s lhs_1 lhs_2 rhs_1 rhs_2 i n
    unfolding double_assign
    double_assign_frame i m n apart same = elim (Bool-cases (ltb i (get_size rhs_2))) [
      | inl inside ↦ rw inside (
          ap₂
            (λ x y.
              record { name = view_name lhs_1; address = view_address lhs_1 i; value = x }
              ∷ record { name = view_name lhs_2; address = view_address lhs_2 i; value = y }
              ∷ [])
            (eval_frame rhs_1 i m n apart.0 (λ b a h. same b a (ltb→lt _ _ inside, h)))
            (eval_frame rhs_2 i m n apart.1 (λ b a h. same b a (ltb→lt _ _ inside, h))))
      | inr outside ↦ rw outside
    ]

    double_assign_within :
        (i : ℕ) (m : Store A)
        → All
            (λ w. Writes (get_size rhs_2) IsTarget target_address i w.name w.address)
            (double_assign s lhs_1 lhs_2 rhs_1 rhs_2 i m)
    unfolding double_assign
    double_assign_within i m = elim (Bool-cases (ltb i (get_size rhs_2))) [
      | inl inside ↦ rw inside (
        (ltb→lt _ _ inside, inl refl, sym (first_address _ i refl)),
        ((ltb→lt _ _ inside, inr refl, sym (second_address _ i refl)), tt),
      )
      | inr outside ↦ rw outside tt
    ]

    target_injective :
        IsInjective (get_size rhs_2) lhs_1
        → IsInjective (get_size rhs_2) lhs_2
        → (b i j : ℕ) → IsTarget b
        → i < get_size rhs_2
        → j < get_size rhs_2
        → target_address b i ≡ target_address b j
        → i ≡ j
    target_injective inj_1 inj_2 b i j (inl e) hi hj q =
        inj_1 i j hi hj (sym (first_address b i e) ∙ q ∙ first_address b j e)
    target_injective inj_1 inj_2 b i j (inr e) hi hj q =
        inj_2 i j hi hj (sym (second_address b i e) ∙ q ∙ second_address b j e)

    double_assign-IsIndependent :
        (n : ℕ)
        → AreApart
        → IsInjective (get_size rhs_2) lhs_1
        → IsInjective (get_size rhs_2) lhs_2
        → IsIndependent n
            (double_assign s lhs_1 lhs_2 rhs_1 rhs_2)
            (Touches (get_size rhs_2) IsTarget target_address)
            (Writes (get_size rhs_2) IsTarget target_address)
    double_assign-IsIndependent n apart inj_1 inj_2 =
        elementwise-IsIndependent (get_size rhs_2) IsTarget target_address n
          (double_assign s lhs_1 lhs_2 rhs_1 rhs_2) (λ i m k. double_assign_frame i m k apart)
          double_assign_within (target_injective inj_1 inj_2)

    -- With a work item for each element, each of two target views in different buffers holds the value
    -- of its expression in the memory before the kernel, and every other element is as it was, if both
    -- expressions read the targets at most at the index that is written and the elements of each
    -- target are distinct.
    pub launch-double_assign :
        (n : ℕ) (m : Store A)
        → AreApart
        → IsInjective (get_size rhs_2) lhs_1
        → IsInjective (get_size rhs_2) lhs_2
        → get_size rhs_2 ≤ n
        → ((i : ℕ)
            → i < get_size rhs_2
            → (launch n
                  (double_assign s lhs_1 lhs_2 rhs_1 rhs_2)
                  m
                  (view_name lhs_1)
                  (view_address lhs_1 i)
                ≡ eval s rhs_1 m i)
              × (launch n
                    (double_assign s lhs_1 lhs_2 rhs_1 rhs_2)
                    m
                    (view_name lhs_2)
                    (view_address lhs_2 i)
                  ≡ eval s rhs_2 m i))
          × ((b : ℕ) (a : ℤ)
              → ((i : ℕ)
                  → i < get_size rhs_2
                  → ¬ ((b ≡ view_name lhs_1) × (a ≡ view_address lhs_1 i))
                    × ¬ ((b ≡ view_name lhs_2) × (a ≡ view_address lhs_2 i)))
              → launch n (double_assign s lhs_1 lhs_2 rhs_1 rhs_2) m b a ≡ m b a)
    launch-double_assign n m apart inj_1 inj_2 enough = (
      λ i h. (
        launch_at ind m i (view_name lhs_1) (view_address lhs_1 i) (omega arith) (h, at_first i)
            ∙ (written i h).0,
        launch_at ind m i (view_name lhs_2) (view_address lhs_2 i) (omega arith) (h, at_second i)
            ∙ (written i h).1,
      ),
      λ b a miss. launch_other ind m b a (λ i _ w. missed b a i (miss i w.0) w.1 w.2),
    )
      where
        ind :
            IsIndependent n
              (double_assign s lhs_1 lhs_2 rhs_1 rhs_2)
              (Touches (get_size rhs_2) IsTarget target_address)
              (Writes (get_size rhs_2) IsTarget target_address)
        ind = double_assign-IsIndependent n apart inj_1 inj_2

        at_first :
            (i : ℕ)
            → IsTarget (view_name lhs_1)
            → view_address lhs_1 i ≡ target_address (view_name lhs_1) i
        at_first i _ = sym (first_address _ i refl)

        at_second :
            (i : ℕ)
            → IsTarget (view_name lhs_2)
            → view_address lhs_2 i ≡ target_address (view_name lhs_2) i
        at_second i _ = sym (second_address _ i refl)

        missed :
            (b : ℕ) (a : ℤ) (i : ℕ)
            → ¬ ((b ≡ view_name lhs_1) × (a ≡ view_address lhs_1 i))
              × ¬ ((b ≡ view_name lhs_2) × (a ≡ view_address lhs_2 i))
            → IsTarget b
            → a ≡ target_address b i
            → ⊥
        missed b a i miss (inl e) q = miss.0 (e, q ∙ first_address b i e)
        missed b a i miss (inr e) q = miss.1 (e, q ∙ second_address b i e)

        written :
            (i : ℕ)
            → i < get_size rhs_2
            → (apply_all
                  (double_assign s lhs_1 lhs_2 rhs_1 rhs_2 i m)
                  m
                  (view_name lhs_1)
                  (view_address lhs_1 i)
                ≡ eval s rhs_1 m i)
              × (apply_all
                    (double_assign s lhs_1 lhs_2 rhs_1 rhs_2 i m)
                    m
                    (view_name lhs_2)
                    (view_address lhs_2 i)
                  ≡ eval s rhs_2 m i)
        written i h =
            unfold double_assign apply_all in
            rw (lt→ltb _ _ h) (
              apply_write_other _ _ _ _ (λ e. distinct e.0) ∙ apply_write_self _ _,
              apply_write_self _ _,
            )
