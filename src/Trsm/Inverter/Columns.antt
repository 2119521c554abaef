-- ===== src/Trsm/Inverter/Columns.antt =====
-- The loop over the columns of a block: what it leaves in each of them.
use native.Mathlib.Decide.{ℕ_discrete}
use mathlib.Core.Path.{ap₂, subst}
use sycl_blas.Base.{
  ℕ, zero, suc, ◌+◌, ◌-◌, ◌<◌, ◌≤◌, ◌≡◌, ◌≢◌, ◌⊎◌, ◌↔◌, inl, inr, Bool, true, false, refl, sym, ap,
  ◌∙◌, arith, ltb, ◌==◌, ◌&&◌, ==_iff, Bool-cases,
}
use sycl_blas.Base.Scalar.{Scalar, IsExact, sum_monoid, add-zero}
use sycl_blas.Base.Sums.{sum, sum_congr}
use sycl_blas.Trsm.Inverter.{Local, row_sum, update_column, upper_loop, lower_loop}

module _ {ℓ} {A : Type ℓ} {s : Scalar A} (exact : IsExact s) where
  row_sum_lem :
      (local : Local A) (i j from count : ℕ) (acc : A)
      → row_sum s local i j from count acc
        ≡ s.add
            (sum (sum_monoid exact) count (λ k. s.mul (local i (from + k)) (local (from + k) j)))
            acc
  unfolding row_sum sum
  row_sum_lem local i j from zero acc = sym (exact.zero-add acc)
  row_sum_lem local i j from (suc count) acc =
      row_sum_lem local i j (suc from) count _
      ∙ sym (exact.add_assoc _ _ acc)
      ∙ ap (λ t. s.add t acc)
          (exact.add_comm _ _
            ∙ ap₂ s.add (ap term {x = from} {y = from + 0} (omega arith)) (
                sum_congr (sum_monoid exact) count _ _
                  (λ k _. ap term {x = suc from + k} {y = from + suc k} (omega arith))))
    where
      term : ℕ → A
      term k = s.mul (local i k) (local k j)

-- Which elements of a block a loop over the columns replaces, and from which columns.
pub record Pattern : Type 0 where
  pub inside : ℕ → ℕ → Bool
  pub from : ℕ → ℕ
  pub count : ℕ → ℕ

module _ {ℓ} {A : Type ℓ} {s : Scalar A} (exact : IsExact s) (p : Pattern) (size : ℕ)
    (first : Local A) where
  -- The sum over the columns for an element.
  abbrev pub columns_sum : Local A → ℕ → ℕ → A
  columns_sum local i j =
      sum (sum_monoid exact) (p.count j)
        (λ k. s.mul (local i (p.from j + k)) (first (p.from j + k) j))

  -- The columns of `done` have been replaced.
  pub record IsReplaced (done : ℕ → Type 0) (local : Local A) : Type ℓ where
    pub replaced :
        (i j : ℕ)
        → i < size
        → done j
        → p.inside i j ≡ true
        → local i j ≡ s.mul (columns_sum local i j) (s.neg (first j j))
    pub kept : (i j : ℕ) → (p.inside i j ≡ false) ⊎ (¬ done j) → local i j ≡ first i j

  update_other :
      (j i c : ℕ) (local : Local A)
      → (c ≢ j) ⊎ (p.inside i j ≡ false)
      → update_column s j (λ i. p.inside i j) (p.from j) (p.count j) local i c ≡ local i c
  unfolding update_column
  update_other j i c local h = elim (Bool-cases (c == j && p.inside i j)) [
    | inl both ↦ elim h [
      | inl ne ↦ absurd (ne ((==_iff c j).0 (ground arith)))
      | inr out ↦ absurd (ground arith)
    ]
    | inr other ↦ rw other
  ]

  module _ (done done' : ℕ → Type 0) (j : ℕ) (local : Local A) (h : IsReplaced done local)
      (fresh : ¬ done j) (diagonal : p.inside j j ≡ false)
      (split : (c : ℕ) → done' c ↔ ((c ≡ j) ⊎ done c))
      (apart : (c k : ℕ) → done' c → k < p.count c → p.from c + k ≢ j) where
    abbrev next : Local A
    next = update_column s j (λ i. p.inside i j) (p.from j) (p.count j) local

    next-columns_sum : (i c : ℕ) → done' c → columns_sum local i c ≡ columns_sum next i c
    next-columns_sum i c hd = sum_congr (sum_monoid exact) (p.count c) _ _ (λ k hk.
        ap (λ t. s.mul t (first (p.from c + k) c))
          (sym (update_other j i (p.from c + k) local (inl (apart c k hd hk)))))

    next_here :
        (i : ℕ)
        → p.inside i j ≡ true
        → next i j ≡ s.mul (row_sum s local i j (p.from j) (p.count j) s.zero) (s.neg (local j j))
    unfolding update_column
    next_here i hi = rw ((==_iff j j).1 refl, hi)

    next_column :
        (i : ℕ) → p.inside i j ≡ true → next i j ≡ s.mul (columns_sum next i j) (s.neg (first j j))
    next_column i hi =
        next_here i hi
        ∙ ap₂ (λ x y. s.mul x (s.neg y))
            (row_sum_lem exact local i j (p.from j) (p.count j) s.zero
              ∙ add-zero exact _
              ∙ sum_congr (sum_monoid exact) (p.count j) _ _
                  (λ k _. ap (s.mul (local i (p.from j + k))) (h.kept (p.from j + k) j (inr fresh)))
              ∙ next-columns_sum i j ((split j).1 (inl refl)))
            (h.kept j j (inl diagonal))

    -- A step replaces its column.
    next-IsReplaced : IsReplaced done' next
    next-IsReplaced = record {
      replaced = λ i c hs hd hi. elim ((split c).0 hd) [
        | inl e ↦
            subst
              (λ c.
                p.inside i c ≡ true → next i c ≡ s.mul (columns_sum next i c) (s.neg (first c c)))
              (sym e) (next_column i) hi
        | inr before ↦
            update_other j i c local (inl (λ e. fresh (subst done e before)))
            ∙ h.replaced i c hs before hi
            ∙ ap (λ t. s.mul t (s.neg (first c c))) (next-columns_sum i c hd)
      ];
      kept = λ i c out. elim out [
        | inl outside ↦
            update_other j i c local (elim (ℕ_discrete c j) [
              | yes e ↦ inr (subst (λ c. p.inside i c ≡ false) e outside)
              | no ne ↦ inl ne
            ])
            ∙ h.kept i c (inl outside)
        | inr later ↦
            update_other j i c local (inl (λ e. later ((split c).1 (inl e))))
            ∙ h.kept i c (inr (λ d. later ((split c).1 (inr d))))
      ];
    }

abbrev pub upper_pattern : Pattern
upper_pattern = record { inside = λ i j. ltb i j; from = λ j. 0; count = λ j. j }

abbrev pub lower_pattern : ℕ → Pattern
lower_pattern size = record {
  inside = λ i j. ltb j i;
  from = λ j. suc j;
  count = λ j. size - suc j;
}

module _ {ℓ} {A : Type ℓ} {s : Scalar A} (exact : IsExact s) (size : ℕ) (first : Local A) where
  pub upper_loop-IsReplaced :
      (count j : ℕ) (local : Local A)
      → IsReplaced exact upper_pattern size first (λ c. c < j) local
      → IsReplaced exact upper_pattern size first (λ c. c < j + count) (upper_loop s j count local)
  unfolding upper_loop
  upper_loop-IsReplaced zero j local h =
      subst (λ n. IsReplaced exact upper_pattern size first (λ c. c < n) local) {x = j} {y = j + 0}
        (omega arith) h
  upper_loop-IsReplaced (suc count) j local h =
      subst
        (λ n.
          IsReplaced exact upper_pattern size first (λ c. c < n) (upper_loop s j (suc count) local))
        {x = suc j + count} {y = j + suc count} (omega arith)
        (upper_loop-IsReplaced count (suc j) _ (
          next-IsReplaced exact upper_pattern size first (λ c. c < j) (λ c. c < suc j) j local h
            (λ q. omega arith) (ground arith) (λ c. (λ q. omega arith, λ q. omega arith))
            (λ c k hc hk. omega arith)))

  split_lt :
      {j : ℕ} → j < size → (c : ℕ) → ((j ≤ c) × (c < size)) ↔ ((c ≡ j) ⊎ ((suc j ≤ c) × (c < size)))
  split_lt {j} h c = (
    λ q. elim (ℕ_discrete c j) [ yes e ↦ inl e | no ne ↦ inr (omega arith, q.1) ],
    λ q. elim q [ inl e ↦ (omega arith, omega arith) | inr r ↦ (omega arith, r.1) ],
  )

  pub lower_loop-IsReplaced :
      (j : ℕ) (local : Local A)
      → j < size
      → IsReplaced exact (lower_pattern size) size first (λ c. (j ≤ c) × (c < size)) local
      → IsReplaced exact
          (lower_pattern size)
          size
          first
          (λ c. (0 ≤ c) × (c < size))
          (lower_loop s size j local)
  unfolding lower_loop
  lower_loop-IsReplaced zero local q h = h
  lower_loop-IsReplaced (suc j) local q h = lower_loop-IsReplaced j _ (omega arith) (
      next-IsReplaced exact (lower_pattern size) size first (λ c. (suc j ≤ c) × (c < size))
        (λ c. (j ≤ c) × (c < size)) j local h (λ q. omega arith) (ground arith)
        (split_lt (omega arith)) (λ c k hc hk. omega arith))
