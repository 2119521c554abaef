-- ===== src/Trsm/Inverter/Triangles.antt =====
-- Triangular matrices: what the columns' loop computes is the inverse, on both sides.
use native.Mathlib.Decide.{ℕ_discrete}
use mathlib.Core.Path.{ap₂, subst}
use sycl_blas.Base.{
  ℕ, suc, ◌+◌, ◌-◌, ◌<◌, ◌≤◌, ◌≡◌, ◌≢◌, inl, inr, true, false, sym, ap, ◌∙◌, arith, Bool-cases,
}
use sycl_blas.Base.Scalar.{Scalar, IsExact, sum_monoid, mul-zero}
use sycl_blas.Base.Sums.{sum-add}
use sycl_blas.Base.Matrices.{
  total, total_congr, total_zero, total_last, total_cut, identity, identity_same, identity_other,
}
use sycl_blas.Trsm.Inverter.{Local}
use sycl_blas.Trsm.Inverter.Columns.{Pattern, IsReplaced, upper_pattern, lower_pattern, columns_sum}

module _ {ℓ} {A : Type ℓ} {s : Scalar A} (exact : IsExact s) where
  -- What the sums over the columns need of a pattern, for `n` rows of a block.
  pub record IsPattern (p : Pattern) (n size : ℕ) : Type ℓ where
    pub diagonal : (j : ℕ) → p.inside j j ≡ false
    pub range_inside : (j k : ℕ) → k < p.count j → p.inside (p.from j + k) j ≡ true
    pub range_outside :
        (i j k : ℕ) → p.inside i j ≡ false → k < p.count j → p.inside i (p.from j + k) ≡ false
    pub cut :
        (j : ℕ) (f : ℕ → A)
        → j < n
        → ((k : ℕ) → p.inside k j ≡ false → k ≢ j → f k ≡ s.zero)
        → ((k : ℕ) → n ≤ k → k < size → f k ≡ s.zero)
        → total exact n f ≡ s.add (total exact (p.count j) (λ k. f (p.from j + k))) (f j)

  pub upper-IsPattern : (n size : ℕ) → IsPattern upper_pattern n size
  upper-IsPattern n size = record {
    diagonal = λ j. ground arith;
    range_inside = λ j k h. ground arith;
    range_outside = λ i j k h hk. ground arith;
    cut = λ j f h z _.
        total_cut exact (j + 1) n f (omega arith) (λ k lo hi. z k (ground arith) (omega arith))
        ∙ total_last exact j f
        ∙ ap (λ t. s.add t (f j))
            (total_congr exact j f (λ k. f (0 + k)) (λ k _. ap f (omega arith)));
  }

  pub lower-IsPattern : (n size : ℕ) → n ≤ size → IsPattern (lower_pattern size) n size
  lower-IsPattern n size fits = record {
    diagonal = λ j. ground arith;
    range_inside = λ j k h. ground arith;
    range_outside = λ i j k h hk. ground arith;
    cut = λ j f h z out.
        sym (total_cut exact n size f fits out)
        ∙ ap (λ k. total exact k f) {x = size} {y = j + 1 + (size - suc j)} (omega arith)
        ∙ sum-add (sum_monoid exact) (j + 1) (size - suc j) f
        ∙ ap₂ s.add
            (total_last exact j f
              ∙ ap (λ t. s.add t (f j))
                  (total_zero exact j f (λ k hk. z k (ground arith) (omega arith)))
              ∙ exact.zero-add _)
            (total_congr exact (size - suc j) _ _ (λ k _. ap f (omega arith)))
        ∙ exact.add_comm _ _;
  }

module _ {ℓ} {A : Type ℓ} {s : Scalar A} (exact : IsExact s)
    (add-neg : (x : A) → s.add x (s.neg x) ≡ s.zero) where
  cancel : (x d t : A) → s.mul d t ≡ s.one → s.add x (s.mul (s.mul x (s.neg d)) t) ≡ s.zero
  cancel x d t e =
      ap₂ s.add (sym (exact.one-mul x) ∙ ap (λ y. s.mul y x) (sym e) ∙ exact.mul_comm _ x)
        (exact.mul_assoc x (s.neg d) t)
      ∙ sym (exact.mul-add x (s.mul d t) (s.mul (s.neg d) t))
      ∙ ap (s.mul x) (
          ap₂ s.add (exact.mul_comm d t) (exact.mul_comm (s.neg d) t)
          ∙ sym (exact.mul-add t d (s.neg d))
          ∙ ap (s.mul t) (add-neg d)
          ∙ mul-zero exact t)
      ∙ mul-zero exact x

  module _ (p : Pattern) (n size : ℕ) (laws : IsPattern exact p n size) (fits : n ≤ size)
      (triangle first local : Local A) (h : IsReplaced exact p size first (λ c. c < size) local)
      (outside : (i j : ℕ) → p.inside i j ≡ false → i ≢ j → triangle i j ≡ s.zero)
      (beyond : (i j : ℕ) → n ≤ i → i < size → j < n → triangle i j ≡ s.zero)
      (off : (i j : ℕ) → i ≢ j → first i j ≡ triangle i j)
      (reciprocal : (j : ℕ) → j < n → s.mul (first j j) (triangle j j) ≡ s.one) where
    pub local-outside : (i j : ℕ) → p.inside i j ≡ false → i ≢ j → local i j ≡ s.zero
    local-outside i j out ne = h.kept i j (inl out) ∙ off i j ne ∙ outside i j out ne

    range_ne : (i j k : ℕ) → p.inside i j ≡ false → k < p.count j → i ≢ p.from j + k
    range_ne i j k out hk e = cc (subst (λ x. p.inside x j ≡ false) e out, laws.range_inside j k hk)

    product_split :
        (i j : ℕ)
        → j < n
        → total exact n (λ k. s.mul (local i k) (triangle k j))
          ≡ s.add (columns_sum exact p size first local i j) (s.mul (local i j) (triangle j j))
    product_split i j hj =
        laws.cut j _ hj (λ k out ne. ap (s.mul (local i k)) (outside k j out ne) ∙ mul-zero exact _)
          (λ k lo hi. ap (s.mul (local i k)) (beyond k j lo hi hj) ∙ mul-zero exact _)
        ∙ ap (λ t. s.add t (s.mul (local i j) (triangle j j)))
            (total_congr exact (p.count j) _ _ (λ k hk.
              ap (s.mul (local i (p.from j + k)))
                (sym (off (p.from j + k) j (λ e. range_ne j j k (laws.diagonal j) hk (sym e))))))

    row_outside :
        (i j : ℕ) → p.inside i j ≡ false → columns_sum exact p size first local i j ≡ s.zero
    row_outside i j out = total_zero exact (p.count j) _ (λ k hk.
        ap (λ t. s.mul t (first (p.from j + k) j))
          (local-outside i (p.from j + k) (laws.range_outside i j k out hk) (range_ne i j k out hk))
        ∙ exact.zero-mul _)

    -- The block that the loop leaves, times the triangle.
    pub left_inverse :
        (i j : ℕ)
        → i < n
        → j < n
        → total exact n (λ k. s.mul (local i k) (triangle k j)) ≡ identity exact i j
    left_inverse i j hi hj = product_split i j hj ∙ elim (Bool-cases (p.inside i j)) [
      | inl within ↦
          ap (λ t. s.add (columns_sum exact p size first local i j) (s.mul t (triangle j j)))
            (h.replaced i j (omega arith) (omega arith) within)
          ∙ cancel _ (first j j) (triangle j j) (reciprocal j hj)
          ∙ sym (
              identity_other exact i j
                (λ e. cc (subst (λ x. p.inside x j ≡ true) e within, laws.diagonal j)))
      | inr out ↦
          ap (λ t. s.add t (s.mul (local i j) (triangle j j))) (row_outside i j out)
          ∙ exact.zero-add _
          ∙ elim (ℕ_discrete i j) [
            | yes e ↦
                subst (λ x. s.mul (local x j) (triangle j j) ≡ identity exact x j) (sym e)
                  (ap (λ t. s.mul t (triangle j j)) (h.kept j j (inl (laws.diagonal j)))
                    ∙ reciprocal j hj
                    ∙ sym (identity_same exact j))
            | no ne ↦
                ap (λ t. s.mul t (triangle j j)) (local-outside i j out ne)
                ∙ exact.zero-mul _
                ∙ sym (identity_other exact i j ne)
          ]
    ]
