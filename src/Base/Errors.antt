-- ===== src/Base/Errors.antt =====
-- Calls that may throw.
use Prim.Native.String.{String}
use mathlib.Core.Path.{◌≡◌}

pub data Error : Type 0 where
  invalid_argument : String → Error
  runtime_error : String → Error

pub data Result {ℓ} (A : Type ℓ) : Type ℓ where
  ok : A → Result A
  throw : Error → Result A

infixl 5 ◌>>=◌
abbrev pub ◌>>=◌ {ℓ κ} : {A : Type ℓ} {B : Type κ} → Result A → (A → Result B) → Result B
ok a >>= f = f a
throw e >>= f = throw e

pub ok_injective {ℓ} : {A : Type ℓ} (a b : A) → ok a ≡ ok b → a ≡ b
ok_injective a b e = cc
