-- ===== src/Base/Scalar.antt =====
-- `element_t`: the operations that the kernels apply to it, and the laws of exact arithmetic.
-- The library is generic in the element type; a floating type has the operations and meets the laws
-- only up to rounding.
use sycl_blas.Base.{◌≡◌, Bool, ◌∙◌}

pub record Scalar {ℓ} (A : Type ℓ) : Type ℓ where
  pub zero : A
  pub one : A
  pub add : A → A → A
  pub mul : A → A → A
  pub neg : A → A
  pub div : A → A → A
  pub sqrt : A → A
  pub abs : A → A
  -- `<` and `==`
  pub below : A → A → Bool
  pub equal : A → A → Bool

-- A commutative monoid: what an exact reduction may rely on.
pub record Monoid {ℓ} (M : Type ℓ) : Type ℓ where
  pub unit : M
  pub op : M → M → M
  pub op_assoc : (a b c : M) → op (op a b) c ≡ op a (op b c)
  pub op_comm : (a b : M) → op a b ≡ op b a
  pub unit-op : (a : M) → op unit a ≡ a

-- Exact arithmetic: a commutative ring, as far as the kernels use one.
pub record IsExact {ℓ} {A : Type ℓ} (s : Scalar A) : Type ℓ where
  pub add_assoc : (a b c : A) → s.add (s.add a b) c ≡ s.add a (s.add b c)
  pub add_comm : (a b : A) → s.add a b ≡ s.add b a
  pub zero-add : (a : A) → s.add s.zero a ≡ a
  pub mul_assoc : (a b c : A) → s.mul (s.mul a b) c ≡ s.mul a (s.mul b c)
  pub mul_comm : (a b : A) → s.mul a b ≡ s.mul b a
  pub one-mul : (a : A) → s.mul s.one a ≡ a
  pub zero-mul : (a : A) → s.mul s.zero a ≡ s.zero
  pub mul-add : (a b c : A) → s.mul a (s.add b c) ≡ s.add (s.mul a b) (s.mul a c)

module _ {ℓ} {A : Type ℓ} {s : Scalar A} (e : IsExact s) where
  abbrev pub sum_monoid : Monoid A
  sum_monoid = record {
    unit = s.zero;
    op = s.add;
    op_assoc = e.add_assoc;
    op_comm = e.add_comm;
    unit-op = e.zero-add;
  }

  pub add-zero : (a : A) → s.add a s.zero ≡ a
  add-zero a = e.add_comm a s.zero ∙ e.zero-add a

  pub mul-zero : (a : A) → s.mul a s.zero ≡ s.zero
  mul-zero a = e.mul_comm a s.zero ∙ e.zero-mul a
