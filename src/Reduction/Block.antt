-- ===== src/Reduction/Block.antt =====
-- The loop inside a work group of `AssignReduction::eval` (src/operations/blas1_trees.hpp), for work
-- groups whose size is a power of two.
use native.Mathlib.Nat.{two-pow-succ}
use mathlib.Core.Path.{subst}
use sycl_blas.Base.{ℕ, zero, suc, ◌+◌, ◌/◌, ◌^◌, ltb, true, ◌<◌, ◌≡◌, sym, ap, ◌∙◌, arith, lt→ltb}
use sycl_blas.Base.Scalar.{Monoid}
use sycl_blas.Base.Sums.{sum, sum-add, sum-op, op-unit}
use sycl_blas.Reduction.{block_loop, block_round}

-- A reduction of values against the monoid that it computes in: `Acc a x` says that the partial
-- result `x` stands for `a`, and `Leaf a x` that the operand `x` does.
pub record IsReduction {ℓ ℓ' κ} {M : Type ℓ} {V : Type ℓ'} (m : Monoid M) (op : V → V → V)
    (init : V) (Leaf Acc : M → V → Type κ) : Type (ℓ ⊔ ℓ' ⊔ κ) where
  pub start : Acc m.unit init
  pub step : {a b : M} {x y : V} → Acc a x → Leaf b y → Acc (m.op a b) (op x y)
  pub join : {a b : M} {x y : V} → Acc a x → Acc b y → Acc (m.op a b) (op x y)

pub lt_two_pow : (q : ℕ) → q < 2 ^ q
lt_two_pow zero = omega arith
lt_two_pow (suc q) = let e = two-pow-succ q in let h = lt_two_pow q in omega arith

half_two_pow : (q : ℕ) → 2 ^ suc q / 2 ≡ 2 ^ q
half_two_pow q = let e = two-pow-succ q in omega arith

positive_two_pow : (q : ℕ) → ltb 0 (2 ^ q) ≡ true
positive_two_pow q = let h = lt_two_pow q in lt→ltb 0 (2 ^ q) (omega arith)

module _ {ℓ ℓ' κ} {M : Type ℓ} {V : Type ℓ'} {m : Monoid M} {op : V → V → V} {init : V}
    {Leaf Acc : M → V → Type κ} (r : IsReduction m op init Leaf Acc) where
  round_lem :
      (n : ℕ) (ms : ℕ → M) (scratch : ℕ → V)
      → ((l : ℕ) → l < n + n → Acc (ms l) (scratch l))
      → (l : ℕ) → l < n
      → Acc (m.op (ms l) (ms (n + l))) (block_round op n scratch l)
  unfolding block_round
  round_lem n ms scratch h l k = rw (lt→ltb l n k) (
      r.join (h l (omega arith)) (
        subst (λ t. Acc (ms t) (scratch (l + n))) {x = l + n} {y = n + l} (omega arith)
          (h (l + n) (omega arith))))

  -- The first cell of the scratch memory ends up as the sum of all.
  pub block_loop_lem :
      (q fuel : ℕ) (ms : ℕ → M) (scratch : ℕ → V)
      → q < fuel
      → ((l : ℕ) → l < 2 ^ q → Acc (ms l) (scratch l))
      → Acc (sum m (2 ^ q) ms) (block_loop op fuel (2 ^ q / 2) scratch 0)
  unfolding block_loop sum
  block_loop_lem zero zero ms scratch h all = elim h [ ]
  block_loop_lem (suc q) zero ms scratch h all = elim h [ ]
  block_loop_lem zero (suc fuel) ms scratch h all =
      subst (λ t. Acc t (scratch 0)) (sym (op-unit m (ms 0))) (all 0 (omega arith))
  block_loop_lem (suc q) (suc fuel) ms scratch h all =
      subst (λ o. Acc (sum m (2 ^ suc q) ms) (block_loop op (suc fuel) o scratch 0))
        (sym (half_two_pow q))
        (rw (positive_two_pow q, block_loop)
          (subst (λ t. Acc t (block_loop op fuel (2 ^ q / 2) (block_round op (2 ^ q) scratch) 0))
            (sum-op m (2 ^ q) ms (λ l. ms (2 ^ q + l))
              ∙ sym (sum-add m (2 ^ q) (2 ^ q) ms)
              ∙ ap (λ n. sum m n ms) {x = 2 ^ q + 2 ^ q} {y = 2 ^ suc q}
                  (let e = two-pow-succ q in omega arith))
            (block_loop_lem q fuel (λ l. m.op (ms l) (ms (2 ^ q + l)))
              (block_round op (2 ^ q) scratch) (omega arith)
              (round_lem (2 ^ q) ms scratch
                (λ l k. all l (let e = two-pow-succ q in omega arith))))))
