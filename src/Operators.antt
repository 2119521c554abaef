-- ===== src/Operators.antt =====
-- src/operations/blas_operators.hpp: the operators of the expression trees, and their initial values.
pub mod Indexed
use sycl_blas.Base.{ℕ, ◌+◌, ◌*◌, ltb, ◌&&◌, ◌||◌, Bool, if◌then◌else◌}
use sycl_blas.Base.Scalar.{Scalar}

-- `AdditionIdentity`, …, `SquareOperator`
pub data UnaryOperator : Type 0 where
  addition_identity product_identity identity negation sqrt double square : UnaryOperator

-- `AddOperator`, …, `AbsoluteAddOperator`
pub data BinaryOperator : Type 0 where
  add product division max min absolute_add : BinaryOperator

-- The constants of `constant<value_t, …>` that are not in the interface of the element type:
-- `numeric_limits::max()` and `numeric_limits::min()`.
pub record Limits {ℓ} (A : Type ℓ) : Type ℓ where
  pub largest : A
  pub smallest : A

module _ {ℓ} {A : Type ℓ} (s : Scalar A) where
  unfoldable pub eval_unary : UnaryOperator → A → A
  eval_unary addition_identity r = s.zero
  eval_unary product_identity r = s.one
  eval_unary identity r = r
  eval_unary negation r = s.neg r
  eval_unary sqrt r = s.sqrt r
  eval_unary double r = s.add r r
  eval_unary square r = s.mul r r

  unfoldable pub eval_binary : BinaryOperator → A → A → A
  eval_binary add l r = s.add l r
  eval_binary product l r = s.mul l r
  eval_binary division l r = s.div l r
  eval_binary max l r = if s.below r l then l else r
  eval_binary min l r = if s.below l r then l else r
  eval_binary absolute_add l r = s.add (s.abs l) (s.abs r)

  -- `operator_t::init()`
  unfoldable pub init : Limits A → BinaryOperator → A
  init limits add = s.zero
  init limits product = s.one
  init limits division = s.one
  init limits max = limits.smallest
  init limits min = limits.largest
  init limits absolute_add = s.zero

-- `IndexValueTuple<index_t, value_t>`
pub record IndexValueTuple {ℓ} (A : Type ℓ) : Type ℓ where
  pub ind : ℕ
  pub val : A

module _ {ℓ} {A : Type ℓ} (s : Scalar A) where
  -- `IMaxOperator::eval`
  unfoldable pub imax : IndexValueTuple A → IndexValueTuple A → IndexValueTuple A
  imax l r =
      if s.below (s.abs l.val) (s.abs r.val)
        || (s.equal (s.abs l.val) (s.abs r.val) && ltb r.ind l.ind)
      then r
      else l

  -- `IMinOperator::eval`
  unfoldable pub imin : IndexValueTuple A → IndexValueTuple A → IndexValueTuple A
  imin l r =
      if s.below (s.abs r.val) (s.abs l.val)
        || (s.equal (s.abs l.val) (s.abs r.val) && ltb r.ind l.ind)
      then r
      else l

  -- The initial values, with `numeric_limits<index_t>::max()` as the index.
  unfoldable pub imax_init : ℕ → IndexValueTuple A
  imax_init max_index = record { ind = max_index; val = s.zero }

  unfoldable pub imin_init : ℕ → Limits A → IndexValueTuple A
  imin_init max_index limits = record { ind = max_index; val = limits.largest }

-- `CollapseIndexTupleOperator::eval`: the index of the group and the index inside it give one index.
unfoldable pub collapse {ℓ} :
    {A : Type ℓ} → ℕ → IndexValueTuple (IndexValueTuple A) → IndexValueTuple A
collapse l r = record { ind = r.ind * l + r.val.ind; val = r.val.val }
