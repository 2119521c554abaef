-- ===== src/Base/Sums.antt =====
-- Sums over an interval of the natural numbers, in a commutative monoid.
use native.Mathlib.Nat.{zero-add, suc-add}
use sycl_blas.Base.{ℕ, zero, suc, ◌+◌, ◌-◌, ◌*◌, ◌<◌, ◌≤◌, ◌≡◌, refl, sym, ap, ◌∙◌, arith}
use sycl_blas.Base.Scalar.{Monoid}

module _ {ℓ} {M : Type ℓ} (m : Monoid M) where
  -- f 0 + (f 1 + (… + f (n - 1)))
  unfoldable pub sum : ℕ → (ℕ → M) → M
  sum zero f = m.unit
  sum (suc n) f = m.op (f 0) (sum n (λ k. f (suc k)))

  pub op-unit : (a : M) → m.op a m.unit ≡ a
  op-unit a = m.op_comm a m.unit ∙ m.unit-op a

  pub op_interchange : (a b c d : M) → m.op (m.op a b) (m.op c d) ≡ m.op (m.op a c) (m.op b d)
  op_interchange a b c d =
      m.op_assoc a b (m.op c d)
      ∙ ap (m.op a) (sym (m.op_assoc b c d) ∙ ap (λ t. m.op t d) (m.op_comm b c) ∙ m.op_assoc c b d)
      ∙ sym (m.op_assoc a c (m.op b d))

  pub sum_congr : (n : ℕ) (f g : ℕ → M) → ((k : ℕ) → k < n → f k ≡ g k) → sum n f ≡ sum n g
  unfolding sum
  sum_congr zero f g h = refl
  sum_congr (suc n) f g h =
      ap (λ t. m.op t (sum n (λ k. f (suc k)))) (h 0 (omega arith))
      ∙ ap (m.op (g 0))
          (sum_congr n (λ k. f (suc k)) (λ k. g (suc k)) (λ k q. h (suc k) (omega arith)))

  pub sum-unit : (n : ℕ) → sum n (λ _. m.unit) ≡ m.unit
  unfolding sum
  sum-unit zero = refl
  sum-unit (suc n) = m.unit-op _ ∙ sum-unit n

  pub sum-op : (n : ℕ) (f g : ℕ → M) → sum n (λ k. m.op (f k) (g k)) ≡ m.op (sum n f) (sum n g)
  unfolding sum
  sum-op zero f g = sym (m.unit-op m.unit)
  sum-op (suc n) f g =
      ap (m.op (m.op (f 0) (g 0))) (sum-op n (λ k. f (suc k)) (λ k. g (suc k)))
      ∙ op_interchange (f 0) (g 0) _ _

  pub sum_comm :
      (n k : ℕ) (f : ℕ → ℕ → M) → sum n (λ i. sum k (λ j. f i j)) ≡ sum k (λ j. sum n (λ i. f i j))
  unfolding sum
  sum_comm zero k f = sym (sum-unit k)
  sum_comm (suc n) k f =
      ap (m.op (sum k (f 0))) (sum_comm n k (λ i. f (suc i)))
      ∙ sym (sum-op k (f 0) (λ j. sum n (λ i. f (suc i) j)))

  -- An interval is cut in two.
  pub sum-add : (a b : ℕ) (f : ℕ → M) → sum (a + b) f ≡ m.op (sum a f) (sum b (λ k. f (a + k)))
  unfolding sum
  sum-add zero b f =
      ap (λ n. sum n f) (zero-add b)
      ∙ sum_congr b f (λ k. f (0 + k)) (λ k _. ap f (sym (zero-add k)))
      ∙ sym (m.unit-op _)
  sum-add (suc a) b f =
      ap (λ n. sum n f) (suc-add a b)
      ∙ ap (m.op (f 0)) (sum-add a b (λ k. f (suc k)))
      ∙ sym (m.op_assoc (f 0) _ _)
      ∙ ap (m.op (sum (suc a) f)) (
          sum_congr b (λ k. f (suc (a + k))) (λ k. f (suc a + k)) (λ k _. ap f (sym (suc-add a k))))

  -- An interval of `a * b` numbers is cut into `a` of `b`.
  pub sum-mul : (a b : ℕ) (f : ℕ → M) → sum (a * b) f ≡ sum a (λ i. sum b (λ j. f (i * b + j)))
  unfolding sum
  sum-mul zero b f = ap (λ n. sum n f) {x = 0 * b} {y = 0} (omega arith)
  sum-mul (suc a) b f =
      ap (λ n. sum n f) {x = suc a * b} {y = b + a * b} (omega arith)
      ∙ sum-add b (a * b) f
      ∙ ap (m.op (sum b f)) (sum-mul a b (λ k. f (b + k)))
      ∙ ap (λ t. m.op t (sum a (λ i. sum b (λ j. f (b + (i * b + j))))))
          (sum_congr b f (λ j. f (0 * b + j)) (λ j _. ap f (omega arith)))
      ∙ ap (m.op (sum b (λ j. f (0 * b + j)))) (
          sum_congr a (λ i. sum b (λ j. f (b + (i * b + j)))) (λ i. sum b (λ j. f (suc i * b + j)))
            (λ i _.
              sum_congr b (λ j. f (b + (i * b + j))) (λ j. f (suc i * b + j))
                (λ j _. ap f (omega arith))))

  -- Terms that are the unit beyond `a` do not count.
  pub sum_extend :
      (a b : ℕ) (f : ℕ → M) → a ≤ b → ((k : ℕ) → a ≤ k → f k ≡ m.unit) → sum b f ≡ sum a f
  sum_extend a b f h z =
      ap (λ n. sum n f) {x = b} {y = a + (b - a)} (omega arith)
      ∙ sum-add a (b - a) f
      ∙ ap (m.op (sum a f)) (
          sum_congr (b - a) (λ k. f (a + k)) (λ _. m.unit) (λ k _. z (a + k) (omega arith))
          ∙ sum-unit (b - a))
      ∙ op-unit (sum a f)
