-- ===== src/Trsm/Loops/Order.antt =====
-- The tests of the loops over the blocks.
use sycl_blas.Base.{
  ℕ, ◌+◌, ◌<◌, ◌≤◌, ◌≡◌, ◌⊎◌, inl, inr, true, false, sym, ◌∙◌, arith, leb, ltb, lt→ltb, le→ltb,
}

pub leb_yes : (a b : ℕ) → a ≤ b → leb a b ≡ true
leb_yes a b h = ground arith

pub leb_no : (a b : ℕ) → b < a → leb a b ≡ false
leb_no a b h = ground arith

pub ltb→le : (a b : ℕ) → ltb a b ≡ false → b ≤ a
ltb→le a b h = ground arith

pub leb→le : (a b : ℕ) → leb a b ≡ true → a ≤ b
leb→le a b h = ground arith

pub leb→gt : (a b : ℕ) → leb a b ≡ false → b < a
leb→gt a b h = ground arith

pub forward_same : (c i size : ℕ) → (c < i) ⊎ (i + size ≤ c) → ltb c (i + size) ≡ ltb c i
forward_same c i size (inl h) = lt→ltb c (i + size) (omega arith) ∙ sym (lt→ltb c i h)
forward_same c i size (inr h) = le→ltb c (i + size) h ∙ sym (le→ltb c i (omega arith))

pub backward_same : (c i size : ℕ) → (c < i) ⊎ (i + size ≤ c) → leb i c ≡ leb (i + size) c
backward_same c i size (inl h) = leb_no i c h ∙ sym (leb_no (i + size) c (omega arith))
backward_same c i size (inr h) = leb_yes i c (omega arith) ∙ sym (leb_yes (i + size) c h)
