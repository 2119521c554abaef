-- ===== src/Base/Int.antt =====
-- Signed integers over the native numbers: `index_t`, `increment_t` and `std::ptrdiff_t` where the
-- source uses their sign.
use sycl_blas.Base.{
  ℕ, zero, suc, ◌+◌, ◌-◌, ◌*◌, ◌≤◌, ◌<◌, ◌≡◌, refl, sym, ap, ◌∙◌, ◌≢◌, ◌↔◌, Bool, true, false,
  arith, leb, ◌==◌, if◌then◌else◌,
}

-- `negsuc n` is -(n + 1).
pub data ℤ : Type 0 where
  pos : ℕ → ℤ
  negsuc : ℕ → ℤ

abbrev pub pos_part : ℤ → ℕ
pos_part (pos n) = n
pos_part (negsuc n) = 0

abbrev pub neg_part : ℤ → ℕ
neg_part (pos n) = 0
neg_part (negsuc n) = suc n

-- a - b, as an integer.
abbrev pub sub_ℕ : ℕ → ℕ → ℤ
sub_ℕ a b = if leb b a then pos (a - b) else negsuc (b - a - 1)

infixl 65 ◌+ℤ◌ ◌-ℤ◌
infixl 70 ◌*ℤ◌
infix 50 ◌≤ℤ◌ ◌==ℤ◌
unfoldable pub ◌+ℤ◌ : ℤ → ℤ → ℤ
a +ℤ b = sub_ℕ (pos_part a + pos_part b) (neg_part a + neg_part b)

unfoldable pub ◌-ℤ◌ : ℤ → ℤ → ℤ
a -ℤ b = sub_ℕ (pos_part a + neg_part b) (neg_part a + pos_part b)

unfoldable pub ◌*ℤ◌ : ℤ → ℤ → ℤ
a *ℤ b =
    sub_ℕ (pos_part a * pos_part b + neg_part a * neg_part b)
      (pos_part a * neg_part b + neg_part a * pos_part b)

abbrev pub ◌≤ℤ◌ : ℤ → ℤ → Type 0
a ≤ℤ b = pos_part a + neg_part b ≤ pos_part b + neg_part a

abbrev pub ◌==ℤ◌ : ℤ → ℤ → Bool
pos a ==ℤ pos b = a == b
negsuc a ==ℤ negsuc b = a == b
pos a ==ℤ negsuc b = false
negsuc a ==ℤ pos b = false

-- `a < 0`
abbrev pub is_neg : ℤ → Bool
is_neg (pos _) = false
is_neg (negsuc _) = true

-- `0 < a`
abbrev pub is_positive : ℤ → Bool
is_positive (pos zero) = false
is_positive (pos (suc _)) = true
is_positive (negsuc _) = false

abbrev pub neg : ℤ → ℤ
neg a = sub_ℕ (neg_part a) (pos_part a)

pub +ℤ_parts :
    (a b : ℤ)
    → pos_part (a +ℤ b) + neg_part a + neg_part b ≡ neg_part (a +ℤ b) + pos_part a + pos_part b
unfolding ◌+ℤ◌
+ℤ_parts a b = ground arith

pub -ℤ_parts :
    (a b : ℤ)
    → pos_part (a -ℤ b) + neg_part a + pos_part b ≡ neg_part (a -ℤ b) + pos_part a + neg_part b
unfolding ◌-ℤ◌
-ℤ_parts a b = ground arith

pub eq_of_parts : (a b : ℤ) → pos_part a + neg_part b ≡ pos_part b + neg_part a → a ≡ b
eq_of_parts a b h = ground arith

pub ruleset int_laws = (arith, +ℤ_parts, -ℤ_parts, eq_of_parts)

pub ==ℤ_iff : (a b : ℤ) → ((a ==ℤ b) ≡ true) ↔ (a ≡ b)
==ℤ_iff a b = ground arith

pub ==ℤ_refl : (a : ℤ) → (a ==ℤ a) ≡ true
==ℤ_refl a = (==ℤ_iff a a).1 refl

pub ne→==ℤ : (a b : ℤ) → a ≢ b → (a ==ℤ b) ≡ false
ne→==ℤ a b h = ground arith

pub pos-+ℤ : (a b : ℕ) → pos a +ℤ pos b ≡ pos (a + b)
pos-+ℤ a b = omega int_laws

pub pos-*ℤ : (a b : ℕ) → pos a *ℤ pos b ≡ pos (a * b)
unfolding ◌*ℤ◌
pos-*ℤ a b = ground arith

pub pos-*ℤ-negsuc : (a s : ℕ) → pos a *ℤ negsuc s ≡ neg (pos (a * suc s))
unfolding ◌*ℤ◌
pos-*ℤ-negsuc a s = ground arith

pub neg-negsuc : (s : ℕ) → neg (negsuc s) ≡ pos (suc s)
neg-negsuc s = ground arith

plus_minus : (o a b : ℕ) → pos o +ℤ pos (a + b) +ℤ neg (pos b) ≡ pos (o + a)
unfolding ◌+ℤ◌
plus_minus o a b = ground arith

-- From the far end of a walk of `d + i` steps back by `i` steps.
pub walk_back : (o d i s : ℕ) → pos o +ℤ pos ((d + i) * s) +ℤ neg (pos (i * s)) ≡ pos (o + d * s)
walk_back o d i s =
    ap (λ t. pos o +ℤ pos t +ℤ neg (pos (i * s))) {x = (d + i) * s} {y = d * s + i * s}
      (omega arith)
    ∙ plus_minus o (d * s) (i * s)

pub pos_injective : (a b : ℕ) → pos a ≡ pos b → a ≡ b
pos_injective a b h = ground arith

-- Equal distances from one place.
pub pos_offset_injective : (o : ℤ) (a b : ℕ) → o +ℤ pos a ≡ o +ℤ pos b → a ≡ b
pos_offset_injective o a b e = pos_injective a b (back o a ∙ ap (λ t. t -ℤ o) e ∙ sym (back o b))
  where
    back : (o : ℤ) (a : ℕ) → pos a ≡ o +ℤ pos a -ℤ o
    back o a = omega int_laws
