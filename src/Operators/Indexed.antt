-- ===== src/Operators/Indexed.antt =====
-- `IMaxOperator` and `IMinOperator` (src/operations/blas_operators.hpp), as one choice: the second
-- tuple is taken if its value is the better one, or as good with a smaller index.
use mathlib.Core.Bool.{or_assoc, or_comm, false≢true}
use sycl_blas.Base.{
  ℕ, ◌<◌, ◌≤◌, ◌≡◌, ◌⊎◌, inl, inr, refl, ap, ◌∙◌, arith, Bool, true, false, ◌&&◌, ◌||◌, ltb, zero,
  suc, ◌==◌, ==_refl, ==_iff, if◌then◌else◌, ltb→le, ltb→lt, fun_ext, Bool-cases,
}
use sycl_blas.Base.Scalar.{Monoid}
use sycl_blas.Base.Sums.{sum}
use sycl_blas.Reduction.Block.{IsReduction}
use sycl_blas.Operators.{IndexValueTuple}

-- The laws of `<` and `==` on the values compared; every ordered type has them, a floating type
-- without its NaN.
pub record IsOrder {ℓ} {A : Type ℓ} (less same : A → A → Bool) : Type ℓ where
  pub total : (a b : A) → (less a b ≡ true) ⊎ (same a b ≡ true) ⊎ (less b a ≡ true)
  pub trans : (a b c : A) → less a b ≡ true → less b c ≡ true → less a c ≡ true
  pub less-same : (a b c : A) → less a b ≡ true → same b c ≡ true → less a c ≡ true
  pub same-less : (a b c : A) → same a b ≡ true → less b c ≡ true → less a c ≡ true
  pub same_sym : (a b : A) → same a b ≡ true → same b a ≡ true
  pub same_trans : (a b c : A) → same a b ≡ true → same b c ≡ true → same a c ≡ true
  pub irrefl : (a : A) → less a a ≡ false

-- Sets of indices, and their union.
abbrev pub union_monoid : Monoid (ℕ → Bool)
union_monoid = record {
  unit = λ _. false;
  op = λ a b k. a k || b k;
  op_assoc = λ a b c. fun_ext (λ k. or_assoc (a k) (b k) (c k));
  op_comm = λ a b. fun_ext (λ k. or_comm (a k) (b k));
  unit-op = λ a. refl;
}

module _ {ℓ} {A : Type ℓ} (less same : A → A → Bool) (order : IsOrder less same)
    (value : ℕ → A) where
  -- No index of the set is better than the tuple.
  abbrev pub IsBest : (ℕ → Bool) → ℕ → A → Type 0
  IsBest set i v =
      (k : ℕ) → set k ≡ true → (less v (value k) ≡ false) × (same v (value k) ≡ true → i ≤ k)

  -- The better of two, by value and then by index.
  abbrev pub is_worse : ℕ → A → ℕ → A → Bool
  is_worse i v j w = less v w || (same v w && ltb j i)

  -- What the chosen tuple is at least as good as, that the other one is too.
  IsBest-second :
      (set : ℕ → Bool) (i j : ℕ) (v w : A)
      → is_worse i v j w ≡ true
      → IsBest set i v
      → IsBest set j w
  IsBest-second set i j v w worse best k h =
      let b = best k h in
      let l1 = order.trans v w (value k) in
      let l2 = order.same-less v w (value k) in
      let l3 = order.less-same v w (value k) in
      let l4 = order.same_trans v w (value k) in
      let l5 = ltb→lt j i in (ground arith, λ q. ground arith)

  IsBest-first :
      (set : ℕ → Bool) (i j : ℕ) (v w : A)
      → is_worse i v j w ≡ false
      → IsBest set j w
      → IsBest set i v
  IsBest-first set i j v w worse best k h =
      let b = best k h in
      let l0 = order.total v w in
      let l1 = order.trans w v (value k) in
      let l2 = order.same-less w v (value k) in
      let l3 = order.less-same w v (value k) in
      let l4 = order.same_trans w v (value k) in
      let l5 = ltb→le j i in let l6 = order.same_sym v w in (ground arith, λ q. ground arith)

  module _ (start : IndexValueTuple A) where
    -- The choice of an `AssignReduction` over tuples
    abbrev pub choose : IndexValueTuple A → IndexValueTuple A → IndexValueTuple A
    choose l r = if is_worse l.ind l.val r.ind r.val then r else l

    -- The tuple stands for the best of a set of indices; the initial tuple for none.
    pub record IsChoice (set : ℕ → Bool) (t : IndexValueTuple A) : Type ℓ where
      pub best : IsBest set t.ind t.val
      pub origin : (t ≡ start) ⊎ ((set t.ind ≡ true) × (t.val ≡ value t.ind))

    IsBest-union :
        {a b : ℕ → Bool} {i : ℕ} {v : A}
        → IsBest a i v
        → IsBest b i v
        → IsBest (λ k. a k || b k) i v
    IsBest-union {a} {b} p q k h = elim (Bool-cases (a k)) [
      | inl inside ↦ p k inside
      | inr outside ↦ q k (ground arith)
    ]

    -- Set by set: the origin of a tuple is also one in a larger set.
    origin_mono :
        {a b : ℕ → Bool} {t : IndexValueTuple A}
        → ((k : ℕ) → a k ≡ true → b k ≡ true)
        → (t ≡ start) ⊎ ((a t.ind ≡ true) × (t.val ≡ value t.ind))
        → (t ≡ start) ⊎ ((b t.ind ≡ true) × (t.val ≡ value t.ind))
    origin_mono sub (inl e) = inl e
    origin_mono {t} sub (inr h) = inr (sub t.ind h.0, h.1)

    choose-IsChoice :
        {a b : ℕ → Bool} {x y : IndexValueTuple A}
        → IsChoice a x
        → IsChoice b y
        → IsChoice (λ k. a k || b k) (choose x y)
    choose-IsChoice {a} {b} {x} {y} p q = elim (Bool-cases (is_worse x.ind x.val y.ind y.val)) [
      | inl worse ↦ rw worse (record {
        best =
            IsBest-union {a = a} {b = b} (IsBest-second a x.ind y.ind x.val y.val worse p.best)
              q.best;
        origin = origin_mono {a = b} {b = λ k. a k || b k} {t = y} (λ k h. ground arith) q.origin;
      })
      | inr better ↦ rw better (record {
        best =
            IsBest-union {a = a} {b = b} p.best
              (IsBest-first b x.ind y.ind x.val y.val better q.best);
        origin = origin_mono {a = a} {b = λ k. a k || b k} {t = x} (λ k h. ground arith) p.origin;
      })
    ]

    -- The choice is a reduction.
    pub choose-IsReduction : IsReduction union_monoid choose start IsChoice IsChoice
    choose-IsReduction = record {
      start = record { best = λ k h. absurd (false≢true h); origin = inl refl };
      step = choose-IsChoice;
      join = choose-IsChoice;
    }

    -- A tuple of an index and its value stands for that index.
    pub singleton-IsChoice : (i : ℕ) → IsChoice (λ k. k == i) (record { ind = i; val = value i })
    singleton-IsChoice i = record {
      best = λ k h.
          let e : k ≡ i = (==_iff k i).0 h in
          (ap (λ j. less (value i) (value j)) e ∙ order.irrefl (value i), λ _. omega arith);
      origin = inr (==_refl i, refl);
    }

-- The union of `n` singletons: what it holds, and that it holds no more.
pub union_member :
    (n : ℕ) (f : ℕ → ℕ) (k : ℕ) → k < n → sum union_monoid n (λ i j. j == f i) (f k) ≡ true
unfolding sum
union_member zero f k h = elim h [ ]
union_member (suc n) f zero h = rw (==_refl (f 0))
union_member (suc n) f (suc k) h =
    let e = union_member n (λ i. f (suc i)) k (omega arith) in ground arith

pub union_member_bound :
    (n : ℕ) (f : ℕ → ℕ) (b : ℕ)
    → ((k : ℕ) → k < n → f k < b)
    → (j : ℕ) → sum union_monoid n (λ i j. j == f i) j ≡ true
    → j < b
unfolding sum
union_member_bound zero f b below j h = absurd (false≢true h)
union_member_bound (suc n) f b below j h = elim (Bool-cases (j == f 0)) [
  | inl first ↦ let e = (==_iff j (f 0)).0 first in let l = below 0 (omega arith) in omega arith
  | inr other ↦
      union_member_bound n (λ i. f (suc i)) b (λ k l. below (suc k) (omega arith)) j (ground arith)
]
