-- ===== src/Meta/Rounding.antt =====
-- Rounding up to a multiple.
use native.Mathlib.Nat.{lt_of_mul-lt-mul_right, mul-le-mul_right}
use sycl_blas.Base.{ℕ, ◌+◌, ◌*◌, ◌≤◌, ◌<◌, ◌≡◌, arith}
use sycl_blas.Meta.{round_up, round_up_ratio}

-- The ceiling of a quotient: it covers the count, and one group less would not.
pub round_up_ratio_bounds :
    (num den : ℕ)
    → 0 < den
    → (num ≤ round_up_ratio num den * den) × (round_up_ratio num den * den < num + den)
unfolding round_up_ratio
round_up_ratio_bounds num den h = grind arith

pub round_up-eq : (x y : ℕ) → round_up x y ≡ round_up_ratio x y * y
unfolding round_up round_up_ratio
round_up-eq x y = omega arith

-- `roundUp` returns a multiple of `y`, at least `x`, and no larger multiple than needed.
round_up_least :
    (x y : ℕ)
    → 0 < y
    → (x ≤ round_up x y)
      × ((k : ℕ) × (round_up x y ≡ k * y))
      × ((k : ℕ) → x ≤ k * y → round_up x y ≤ k * y)
round_up_least x y h = (
  omega (arith, round_up_ratio_bounds x y h, round_up-eq x y),
  (round_up_ratio x y, round_up-eq x y),
  λ k above. rw (round_up-eq x y) (least k above),
)
  where
    least : (k : ℕ) → x ≤ k * y → round_up_ratio x y * y ≤ k * y
    least k above =
        let b = round_up_ratio_bounds x y h in
        let r : round_up_ratio x y < k + 1 = lt_of_mul-lt-mul_right y (omega arith) in
        mul-le-mul_right y (omega arith)
