-- ===== src/Base/Division.antt =====
-- Quotients and remainders of native numbers that are given as a multiple and a rest.
use native.Mathlib.Nat.{
  add-mul-div_right, add-mul-mod_self_right, div-eq_of_lt, mod-eq_of_lt, zero-add,
}
use Prim.Native.Nat.{ℕ, ◌+◌, ◌*◌, ◌/◌, ◌%◌, ◌<◌}
use mathlib.Core.Path.{◌≡◌, ap, ◌∙◌}
use native.Mathlib.Omega.{arith}

pub split_div : (a b n : ℕ) → b < n → (b + a * n) / n ≡ a
split_div a b n h =
    add-mul-div_right b a (omega arith) ∙ ap (λ t. t + a) (div-eq_of_lt h) ∙ zero-add a

pub split_mod : (a b n : ℕ) → b < n → (b + a * n) % n ≡ b
split_mod a b n h = add-mul-mod_self_right b a n ∙ mod-eq_of_lt h
