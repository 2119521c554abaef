-- ===== src/Trsm/Substitution.antt =====
-- Substitution by blocks, for one right-hand side: a system whose unknowns are solved block by block.
use mathlib.Core.Path.{subst}
use sycl_blas.Base.{
  ℕ, ◌+◌, ◌-◌, ◌<◌, ◌≤◌, ◌≡◌, ◌⊎◌, inl, inr, Bool, true, false, sym, ap, ◌∙◌, arith, ltb, leb, ◌&&◌,
  Bool-cases, if◌then◌else◌, ltb→lt,
}
use sycl_blas.Base.Scalar.{Scalar, IsExact, sum_monoid, add-zero, mul-zero}
use sycl_blas.Base.Sums.{sum-add, sum-op}
use sycl_blas.Base.Matrices.{
  Entries, total, total_congr, total_zero, total_cut, identity, product_assoc, identity-total,
}

module _ {ℓ} {A : Type ℓ} {s : Scalar A} (exact : IsExact s) where
  -- A sum whose terms are zero outside an interval.
  pub total_block :
      (k i n : ℕ) (f : ℕ → A)
      → i + n ≤ k
      → ((c : ℕ) → c < i → f c ≡ s.zero)
      → ((c : ℕ) → i + n ≤ c → f c ≡ s.zero)
      → total exact k f ≡ total exact n (λ c. f (i + c))
  total_block k i n f h below above =
      total_cut exact (i + n) k f h (λ c lo hi. above c lo)
      ∙ sum-add (sum_monoid exact) i n f
      ∙ ap (λ t. s.add t (total exact n (λ c. f (i + c)))) (total_zero exact i f below)
      ∙ exact.zero-add _

  -- A block that is the inverse of a diagonal block solves for its unknowns.
  pub block_solves :
      (n : ℕ) (u w : Entries A) (r : ℕ → A)
      → ((i j : ℕ)
          → i < n
          → j < n
          → total exact n (λ k. s.mul (u i k) (w k j)) ≡ identity exact i j)
      → (i : ℕ) → i < n
      → total exact n (λ k. s.mul (u i k) (total exact n (λ l. s.mul (w k l) (r l)))) ≡ r i
  block_solves n u w r inverse i hi =
      product_assoc exact n n (u i) w r
      ∙ total_congr exact n _ _ (λ l hl. ap (λ t. s.mul t (r l)) (inverse i l hi hl))
      ∙ identity-total exact n i r hi

module _ {ℓ} {A : Type ℓ} {s : Scalar A} (exact : IsExact s) (k : ℕ) (u : Entries A)
    (target : ℕ → A) where
  -- The unknowns that have been solved for.
  abbrev pub masked : (ℕ → Bool) → (ℕ → A) → ℕ → A
  masked done x c = if done c then x c else s.zero

  abbrev pub row_total : (ℕ → Bool) → (ℕ → A) → ℕ → A
  row_total done x row = total exact k (λ c. s.mul (u row c) (masked done x c))

  -- The equations of the unknowns that have been solved for hold with these unknowns alone; those of
  -- the others hold with what is left of the right-hand side.
  pub record IsPartly (done : ℕ → Bool) (x rest : ℕ → A) : Type ℓ where
    pub solved : (row : ℕ) → row < k → done row ≡ true → row_total done x row ≡ target row
    pub left :
        (row : ℕ)
        → row < k
        → done row ≡ false
        → s.add (rest row) (row_total done x row) ≡ target row

  pub none-IsPartly :
      (done : ℕ → Bool) (x rest : ℕ → A)
      → ((c : ℕ) → c < k → done c ≡ false)
      → ((row : ℕ) → row < k → rest row ≡ target row)
      → IsPartly done x rest
  none-IsPartly done x rest none e = record {
    solved = λ row h d. cc (d, none row h);
    left = λ row h d.
        ap (s.add (rest row)) (
          total_zero exact k _
            (λ c hc. ap (s.mul (u row c)) (hidden c hc) ∙ mul-zero exact (u row c)))
        ∙ add-zero exact (rest row)
        ∙ e row h;
  }
    where
      hidden : (c : ℕ) → c < k → masked done x c ≡ s.zero
      hidden c hc = rw (none c hc)

  pub all-IsPartly :
      (done : ℕ → Bool) (x rest : ℕ → A)
      → ((c : ℕ) → c < k → done c ≡ true)
      → IsPartly done x rest
      → (row : ℕ) → row < k
      → total exact k (λ c. s.mul (u row c) (x c)) ≡ target row
  all-IsPartly done x rest all h row hr =
      total_congr exact k _ _ (λ c hc. ap (s.mul (u row c)) (sym (shown c hc)))
      ∙ h.solved row hr (all row hr)
    where
      shown : (c : ℕ) → c < k → masked done x c ≡ x c
      shown c hc = rw (all c hc)

  module _ (done done' : ℕ → Bool) (x x' rest rest' : ℕ → A) (h : IsPartly done x rest) (i n : ℕ)
      (inside : i + n ≤ k) (fresh : (c : ℕ) → c < n → done (i + c) ≡ false)
      (now : (c : ℕ) → c < n → done' (i + c) ≡ true)
      (same : (c : ℕ) → (c < i) ⊎ (i + n ≤ c) → done' c ≡ done c)
      (kept : (c : ℕ) → c < k → (c < i) ⊎ (i + n ≤ c) → done c ≡ true → x' c ≡ x c) where
    place : (c : ℕ) → ((c < i) ⊎ (i + n ≤ c)) ⊎ ((l : ℕ) × (l < n) × (i + l ≡ c))
    place c = elim (Bool-cases (ltb c i)) [
      | inl e ↦ inl (inl (ltb→lt c i e))
      | inr e ↦ elim (Bool-cases (ltb c (i + n))) [
        | inl e' ↦ inr (c - i, ground arith, ground arith)
        | inr e' ↦ inl (inr (ground arith))
      ]
    ]

    -- The part of a row that the block adds.
    abbrev part : ℕ → A
    part row = total exact n (λ c. s.mul (u row (i + c)) (x' (i + c)))

    added : ℕ → A
    added c = if leb i c && ltb c (i + n) then x' c else s.zero

    added_outside : (c : ℕ) → (c < i) ⊎ (i + n ≤ c) → added c ≡ s.zero
    unfolding added
    added_outside c out = elim (Bool-cases (leb i c && ltb c (i + n))) [
      | inl e ↦ absurd (ground arith)
      | inr e ↦ rw e
    ]

    added_inside : (c : ℕ) → c < n → added (i + c) ≡ x' (i + c)
    unfolding added
    added_inside c hc = elim (Bool-cases (leb i (i + c) && ltb (i + c) (i + n))) [
      | inl e ↦ rw e
      | inr e ↦ absurd (ground arith)
    ]

    masked_outside : (c : ℕ) → c < k → (c < i) ⊎ (i + n ≤ c) → masked done' x' c ≡ masked done x c
    masked_outside c hc out = elim (Bool-cases (done c)) [
      | inl d ↦ rw (same c out ∙ d, d) (kept c hc out d)
      | inr d ↦ rw (same c out ∙ d, d)
    ]

    masked_inside :
        (l : ℕ) → l < n → masked done' x' (i + l) ≡ s.add (masked done x (i + l)) (added (i + l))
    masked_inside l hl =
        rw (now l hl, fresh l hl) (sym (added_inside l hl) ∙ sym (exact.zero-add _))

    masked-added : (c : ℕ) → c < k → masked done' x' c ≡ s.add (masked done x c) (added c)
    masked-added c hc = elim (place c) [
      | inl out ↦
          masked_outside c hc out
          ∙ sym (add-zero exact _)
          ∙ ap (s.add (masked done x c)) (sym (added_outside c out))
      | inr at ↦
          subst (λ c. masked done' x' c ≡ s.add (masked done x c) (added c)) at.2
            (masked_inside at.0 at.1)
    ]

    row_total_added : (row : ℕ) → row_total done' x' row ≡ s.add (row_total done x row) (part row)
    row_total_added row =
        total_congr exact k _ _
          (λ c hc. ap (s.mul (u row c)) (masked-added c hc) ∙ exact.mul-add _ _ _)
        ∙ sum-op (sum_monoid exact) k _ _
        ∙ ap (s.add (row_total done x row)) (
            total_block exact k i n _ inside
              (λ c hc. ap (s.mul (u row c)) (added_outside c (inl hc)) ∙ mul-zero exact _)
              (λ c hc. ap (s.mul (u row c)) (added_outside c (inr hc)) ∙ mul-zero exact _)
            ∙ total_congr exact n _ _ (λ c hc. ap (s.mul (u row (i + c))) (added_inside c hc)))

    -- A block is solved and taken out of the right-hand side of the others.
    pub next-IsPartly :
        ((c : ℕ) → c < n → part (i + c) ≡ rest (i + c))
        → ((row c : ℕ) → row < k → done row ≡ true → c < n → u row (i + c) ≡ s.zero)
        → ((row : ℕ) → row < k → done' row ≡ false → s.add (rest' row) (part row) ≡ rest row)
        → IsPartly done' x' rest'
    next-IsPartly block zeros update = record {
      solved = λ row hr d. elim (place row) [
        | inl out ↦
            row_total_added row
            ∙ ap (s.add (row_total done x row)) (
                total_zero exact n _ (λ c hc.
                  ap (λ t. s.mul t (x' (i + c))) (zeros row c hr (sym (same row out) ∙ d) hc)
                  ∙ exact.zero-mul _))
            ∙ add-zero exact _
            ∙ h.solved row hr (sym (same row out) ∙ d)
        | inr at ↦
            row_total_added row
            ∙ exact.add_comm _ _
            ∙ ap (λ t. s.add t (row_total done x row))
                (subst (λ c. part c ≡ rest c) at.2 (block at.0 at.1))
            ∙ h.left row hr (subst (λ c. done c ≡ false) at.2 (fresh at.0 at.1))
      ];
      left = λ row hr d. elim (place row) [
        | inl out ↦
            ap (s.add (rest' row)) (row_total_added row ∙ exact.add_comm _ _)
            ∙ sym (exact.add_assoc _ _ _)
            ∙ ap (λ t. s.add t (row_total done x row)) (update row hr d)
            ∙ h.left row hr (sym (same row out) ∙ d)
        | inr at ↦ cc (subst (λ c. done' c ≡ true) at.2 (now at.0 at.1), d)
      ];
    }
