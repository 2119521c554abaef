-- ===== src/Reduction/Kernel.antt =====
-- The kernel `AssignReduction::eval` (src/operations/blas1_trees.hpp) as a whole: the partial results
-- of the groups, which together are the result.
use sycl_blas.Base.{ℕ, ◌+◌, ◌*◌, ◌^◌, ◌<◌, ◌≤◌, ◌≡◌, arith, lt→ltb, le→ltb}
use sycl_blas.Base.Scalar.{Monoid}
use sycl_blas.Base.Sums.{sum}
use sycl_blas.Reduction.{group_value, reduction_kernel}
use sycl_blas.Reduction.Block.{IsReduction, block_loop_lem, lt_two_pow}
use sycl_blas.Reduction.Grid.{taken, taken_all, item_value_lem}

-- What the group `g` of `groups` groups reduces.
abbrev pub share {ℓ} : {M : Type ℓ} → Monoid M → (ℕ → M) → ℕ → ℕ → ℕ → ℕ → M
share m h n local_size groups g =
    sum m local_size
      (λ l. taken m h n local_size (2 * (groups * local_size)) (2 * g * local_size + l) n)

module _ {ℓ ℓ' κ} {M : Type ℓ} {V : Type ℓ'} {m : Monoid M} {op : V → V → V} {init : V}
    {Leaf Acc : M → V → Type κ} (r : IsReduction m op init Leaf Acc) (h : ℕ → M) (rhs : ℕ → V)
    (n : ℕ) (leaves : (k : ℕ) → k < n → Leaf (h k) (rhs k)) where
  group_value_lem :
      (q groups g : ℕ)
      → Acc (share m h n (2 ^ q) groups g) (group_value op init rhs n (2 ^ q) (groups * 2 ^ q) g)
  unfolding group_value
  group_value_lem q groups g =
      block_loop_lem r q (2 ^ q)
        (λ l. taken m h n (2 ^ q) (2 * (groups * 2 ^ q)) (2 * g * 2 ^ q + l) n) _ (lt_two_pow q)
        (λ l _. item_value_lem r h rhs n leaves (2 ^ q) (groups * 2 ^ q) g l)

  -- With work groups of a power of two, and at least one of them, each group leaves a partial result at its own index, the
  -- partial results together stand for the operands, each taken once, and the rest of the left side
  -- is as before.
  pub reduction_kernel_lem :
      (q groups : ℕ) (lhs : ℕ → V)
      → 0 < groups
      → ((g : ℕ)
          → g < groups
          → Acc
              (share m h n (2 ^ q) groups g)
              (reduction_kernel op init rhs n (2 ^ q) groups lhs g))
        × (sum m groups (share m h n (2 ^ q) groups) ≡ sum m n h)
        × ((i : ℕ) → groups ≤ i → reduction_kernel op init rhs n (2 ^ q) groups lhs i ≡ lhs i)
  unfolding reduction_kernel
  reduction_kernel_lem q groups lhs some_groups = (
    λ g k. rw (lt→ltb g groups k) (group_value_lem q groups g),
    taken_all m h n (2 ^ q) groups (let p = lt_two_pow q in omega arith) some_groups,
    λ i k. rw (le→ltb i groups k),
  )
