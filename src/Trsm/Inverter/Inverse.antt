-- ===== src/Trsm/Inverter/Inverse.antt =====
-- The block that a work group leaves in local memory is the inverse of the triangle that it loads.
use mathlib.Core.Path.{ap₂}
use sycl_blas.Base.{
  ℕ, ◌-◌, ◌<◌, ◌≤◌, ◌≡◌, ◌≢◌, inl, inr, Bool, true, false, refl, sym, ap, ◌∙◌, arith, ◌==◌, ==_iff,
  Bool-cases, if◌then◌else◌,
}
use sycl_blas.Base.Scalar.{Scalar, IsExact}
use sycl_blas.Base.Matrices.{product, identity, inverse_comm}
use sycl_blas.Trsm.Inverter.{Local, upper_loop, lower_loop, invert_diagonal, invert}
use sycl_blas.Trsm.Inverter.Columns.{
  Pattern, IsReplaced, upper_pattern, lower_pattern, upper_loop-IsReplaced, lower_loop-IsReplaced,
}
use sycl_blas.Trsm.Inverter.Triangles.{
  IsPattern, upper-IsPattern, lower-IsPattern, left_inverse, local-outside,
}

abbrev pub pattern : Bool → ℕ → Pattern
pattern true size = upper_pattern
pattern false size = lower_pattern size

same_inside :
    (upper : Bool) (n size i j : ℕ) → (pattern upper n).inside i j ≡ (pattern upper size).inside i j
same_inside true n size i j = refl
same_inside false n size i j = refl

-- The elements outside a triangle are zero.
abbrev pub IsTriangle {ℓ} : {A : Type ℓ} → Scalar A → Bool → Local A → Type ℓ
IsTriangle s true t = (i j : ℕ) → j < i → t i j ≡ s.zero
IsTriangle s false t = (i j : ℕ) → i < j → t i j ≡ s.zero

-- The elements of the diagonal have what the kernel takes for their reciprocals.
abbrev pub IsInvertible {ℓ} : {A : Type ℓ} → Scalar A → Bool → ℕ → Local A → Type ℓ
IsInvertible s true n t = (j : ℕ) → j < n → t j j ≡ s.one
IsInvertible s false n t = (j : ℕ) → j < n → s.mul (s.div s.one (t j j)) (t j j) ≡ s.one

module _ {ℓ} {A : Type ℓ} {s : Scalar A} (exact : IsExact s) where
  abbrev loop : Bool → ℕ → Local A → Local A
  loop true size first = upper_loop s 1 (size - 1) first
  loop false size first = lower_loop s size (size - 1) first

  loop-IsReplaced :
      (upper : Bool) (size : ℕ) (first : Local A)
      → 0 < size
      → IsReplaced exact (pattern upper size) size first (λ c. c < size) (loop upper size first)
  loop-IsReplaced true size first h =
      let all =
        upper_loop-IsReplaced exact size first (size - 1) 1 first
          (record { replaced = λ i j hi hj within. absurd (ground arith); kept = λ i j _. refl }) in
      record {
        replaced = λ i j hi hj within. all.replaced i j hi (omega arith) within;
        kept = λ i j out.
            all.kept i j (elim out [ inl o ↦ inl o | inr o ↦ inr (λ q. o (omega arith)) ]);
      }
  loop-IsReplaced false size first h =
      let all =
        lower_loop-IsReplaced exact size first (size - 1) first (omega arith)
          (record { replaced = λ i j hi hj within. absurd (ground arith); kept = λ i j _. refl }) in
      record {
        replaced = λ i j hi hj within. all.replaced i j hi (omega arith, hj) within;
        kept = λ i j out. elim out [
          | inl o ↦ all.kept i j (inl o)
          | inr o ↦ all.kept i j (inr (λ q. o q.1))
        ];
      }

  pattern-IsPattern :
      (upper : Bool) (n size : ℕ) → n ≤ size → IsPattern exact (pattern upper size) n size
  pattern-IsPattern true n size h = upper-IsPattern exact n size
  pattern-IsPattern false n size h = lower-IsPattern exact n size h

  triangle-outside :
      (upper : Bool) (size : ℕ) (t : Local A)
      → IsTriangle s upper t
      → (i j : ℕ) → (pattern upper size).inside i j ≡ false
      → i ≢ j
      → t i j ≡ s.zero
  triangle-outside true size t h i j out ne = h i j (ground arith)
  triangle-outside false size t h i j out ne = h i j (ground arith)

  invert-loop :
      (unit_diag upper : Bool) (size : ℕ) (t : Local A)
      → invert s unit_diag upper size t ≡ loop upper size (invert_diagonal s unit_diag t)
  unfolding invert
  invert-loop unit_diag true size t = refl
  invert-loop unit_diag false size t = refl

  other_if : (i j : ℕ) (x y : A) → i ≢ j → (if i == j then x else y) ≡ y
  other_if i j x y ne = elim (Bool-cases (i == j)) [
    | inl e ↦ absurd (ne ((==_iff i j).0 e))
    | inr e ↦ rw e
  ]

  diagonal_off :
      (unit_diag : Bool) (t : Local A) (i j : ℕ) → i ≢ j → invert_diagonal s unit_diag t i j ≡ t i j
  unfolding invert_diagonal
  diagonal_off true t i j ne = refl
  diagonal_off false t i j ne = other_if i j (s.div s.one (t i i)) (t i j) ne

  diagonal_reciprocal :
      (unit_diag : Bool) (n : ℕ) (t : Local A)
      → IsInvertible s unit_diag n t
      → (j : ℕ) → j < n
      → s.mul (invert_diagonal s unit_diag t j j) (t j j) ≡ s.one
  unfolding invert_diagonal
  diagonal_reciprocal true n t h j hj = ap₂ s.mul (h j hj) (h j hj) ∙ exact.one-mul s.one
  diagonal_reciprocal false n t h j hj = rw ((==_iff j j).1 refl) (h j hj)

  module _ (add-neg : (x : A) → s.add x (s.neg x) ≡ s.zero) (unit_diag upper : Bool) (n size : ℕ)
      (fits : n ≤ size) (some_rows : 0 < n) (t : Local A) (triangle : IsTriangle s upper t)
      (beyond : (i j : ℕ) → n ≤ i → i < size → j < n → t i j ≡ s.zero)
      (invertible : IsInvertible s unit_diag n t) where
    abbrev first : Local A
    first = invert_diagonal s unit_diag t

    abbrev block : Local A
    block = loop upper size first

    block-triangle : (i j : ℕ) → i < n → j < n → product exact n block t i j ≡ identity exact i j
    block-triangle =
        left_inverse exact add-neg (pattern upper size) n size (pattern-IsPattern upper n size fits)
          fits t first block (loop-IsReplaced upper size first (omega arith))
          (triangle-outside upper size t triangle) beyond (diagonal_off unit_diag t)
          (diagonal_reciprocal unit_diag n t invertible)

    -- The inverse of the block, by the same loop.
    abbrev again_first : Local A
    again_first i j = if i == j then t j j else block i j

    abbrev again : Local A
    again = loop upper n again_first

    again-block : (i j : ℕ) → i < n → j < n → product exact n again block i j ≡ identity exact i j
    again-block =
        left_inverse exact add-neg (pattern upper n) n n (pattern-IsPattern upper n n (omega arith))
          (omega arith) block again_first again (loop-IsReplaced upper n again_first some_rows)
          (λ i j out ne.
            local-outside exact add-neg (pattern upper size) n size
              (pattern-IsPattern upper n size fits) fits t first block
              (loop-IsReplaced upper size first (omega arith))
              (triangle-outside upper size t triangle) beyond (diagonal_off unit_diag t)
              (diagonal_reciprocal unit_diag n t invertible) i j
              (sym (same_inside upper n size i j) ∙ out) ne)
          (λ i j lo hi hj. absurd (omega arith)) (λ i j ne. other_if i j (t j j) (block i j) ne)
          (λ j hj. rw ((==_iff j j).1 refl) (
            exact.mul_comm _ _
            ∙ ap (λ x. s.mul x (t j j))
                ((loop-IsReplaced upper size first (omega arith)).kept j j
                  (inl ((pattern-IsPattern upper n size fits).diagonal j)))
            ∙ diagonal_reciprocal unit_diag n t invertible j hj))

    -- The inverse is one on both sides.
    pub inverse_lem :
        ((i j : ℕ)
          → i < n
          → j < n
          → product exact n (invert s unit_diag upper size t) t i j ≡ identity exact i j)
        × ((i j : ℕ)
            → i < n
            → j < n
            → product exact n t (invert s unit_diag upper size t) i j ≡ identity exact i j)
    inverse_lem =
        rw (invert-loop unit_diag upper size t)
          (block-triangle, inverse_comm exact n again block t again-block block-triangle)
