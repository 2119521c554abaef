-- ===== src/Reduction/Passes.antt =====
-- The passes of `Executor::execute(AssignReduction)` (src/executors/executor_sycl.hpp): for the grids
-- that the interface asks for, the result is the reduction of all operands.
use native.Mathlib.Nat.{lt_of_mul-lt-mul_right}
use mathlib.Core.Path.{subst, ap₂}
use sycl_blas.Base.{
  ℕ, suc, ◌*◌, ◌^◌, ltb, true, ◌<◌, ◌≤◌, ◌≡◌, ◌⊎◌, inl, inr, sym, ap, ◌∙◌, arith, lt→ltb, le→ltb,
  ne→==, if◌then◌else◌, some, Bool, not, false,
}
use sycl_blas.Base.Scalar.{Monoid}
use sycl_blas.Base.Sums.{sum, op-unit}
use sycl_blas.Meta.{round_up_ratio}
use sycl_blas.Meta.Rounding.{round_up_ratio_bounds}
use sycl_blas.Reduction.{
  Buffers, reduction_kernel, first_pass, later_pass, passes, execute_reduction,
}
use sycl_blas.Reduction.Block.{IsReduction}
use sycl_blas.Reduction.Kernel.{share, reduction_kernel_lem}

module _ {ℓ ℓ' κ} {M : Type ℓ} {V : Type ℓ'} {m : Monoid M} {op : V → V → V} {init : V}
    {Leaf Acc : M → V → Type κ} (r : IsReduction m op init Leaf Acc) where
  -- One group reduces everything into the first cell.
  one_group_lem :
      (q : ℕ) (h : ℕ → M) (rhs : ℕ → V) (n : ℕ) (lhs : ℕ → V)
      → ((k : ℕ) → k < n → Leaf (h k) (rhs k))
      → Acc (sum m n h) (reduction_kernel op init rhs n (2 ^ q) 1 lhs 0)
  unfolding sum
  one_group_lem q h rhs n lhs leaves =
      let all = reduction_kernel_lem r h rhs n leaves q 1 lhs (omega arith) in
      subst (λ a. Acc a (reduction_kernel op init rhs n (2 ^ q) 1 lhs 0))
        (sym (op-unit m _) ∙ all.1) (all.0 0 (omega arith))

-- The grids for which one or two passes do: one group, or at least as many groups as the second pass
-- reads cells, and at most as many as its one group can take in one round.
abbrev pub IsCovered : ℕ → ℕ → Type 0
IsCovered local_size groups =
    (groups ≡ 1) ⊎ ((1 < groups) × (local_size ≤ groups) × (groups ≤ 2 * local_size))

one_group_count :
    (local_size n : ℕ) → 1 < n → n ≤ 2 * local_size → round_up_ratio n (2 * local_size) ≡ 1
one_group_count local_size n several few =
    let b = round_up_ratio_bounds n (2 * local_size) (omega arith) in
    let low : 0 < round_up_ratio n (2 * local_size) =
      lt_of_mul-lt-mul_right (2 * local_size) (omega arith) in
    let high : round_up_ratio n (2 * local_size) < 2 =
      lt_of_mul-lt-mul_right (2 * local_size) (omega arith) in
    omega arith

module _ {ℓ} {V : Type ℓ} (op : V → V → V) (init : V) (fuel : ℕ) (rhs : ℕ → V) (n : ℕ)
    (bufs : Buffers V) (local_size : ℕ) where
  run_one_pass :
      (global_size : ℕ)
      → round_up_ratio global_size (2 * local_size) ≡ 1
      → execute_reduction op init (suc fuel) rhs n local_size global_size bufs
        ≡ some (record bufs { lhs = reduction_kernel op init rhs n local_size 1 bufs.lhs })
  unfolding execute_reduction first_pass passes
  run_one_pass global_size e = go _ e
    where
      go :
          (groups : ℕ)
          → groups ≡ 1
          → passes op init
              (suc fuel)
              true
              (if ltb groups local_size then local_size else groups)
              local_size
              groups
              (first_pass op init rhs n local_size groups bufs)
            ≡ some (record bufs { lhs = reduction_kernel op init rhs n local_size 1 bufs.lhs })
      go groups q = rw q

  another_pass :
      (even : Bool) (shared_size groups : ℕ) (b : Buffers V)
      → 1 < groups
      → passes op init (suc (suc fuel)) even shared_size local_size groups b
        ≡ passes op init
            (suc fuel)
            (not even)
            shared_size
            local_size
            (round_up_ratio groups (2 * local_size))
            (later_pass op init even shared_size local_size
              (round_up_ratio groups (2 * local_size))
              b)
  unfolding passes
  another_pass even shared_size groups b several = rw (lt→ltb 1 groups several, passes)

  -- The partial results of the first pass.
  abbrev pub partial : ℕ → ℕ → V
  partial groups = reduction_kernel op init rhs n local_size groups bufs.mem_1

  run_two_passes :
      (groups : ℕ)
      → 1 < groups
      → local_size ≤ groups
      → groups ≤ 2 * local_size
      → passes op init
          (suc (suc fuel))
          true
          (if ltb groups local_size then local_size else groups)
          local_size
          groups
          (first_pass op init rhs n local_size groups bufs)
        ≡ some (record bufs {
          lhs = reduction_kernel op init (partial groups) groups local_size 1 bufs.lhs;
          mem_1 = partial groups;
        })
  unfolding first_pass passes later_pass
  run_two_passes groups several enough few =
      another_pass true (if ltb groups local_size then local_size else groups) groups _ several
      ∙ ap
          (λ c.
            passes op init (suc fuel) false (if ltb groups local_size then local_size else groups)
              local_size c
              (later_pass op init true (if ltb groups local_size then local_size else groups)
                local_size c (first_pass op init rhs n local_size groups bufs)))
          (one_group_count local_size groups several few)
      ∙ ap₂
          (λ shared (b : Buffers V).
            some (record b { lhs = reduction_kernel op init b.mem_1 shared local_size 1 b.lhs }))
          shared (rw (ne→== groups 1 (λ e. omega arith)))
    where
      shared : (if ltb groups local_size then local_size else groups) ≡ groups
      shared = rw (le→ltb groups local_size enough)

module _ {ℓ ℓ' κ} {M : Type ℓ} {V : Type ℓ'} {m : Monoid M} {op : V → V → V} {init : V}
    {Leaf Acc : M → V → Type κ} (r : IsReduction m op init Leaf Acc) where
  -- A later pass, whose operands are partial results.
  again : IsReduction m op init Acc Acc
  again = record { start = r.start; step = r.join; join = r.join }

  -- On a grid of one group, or of at least as many groups as a work group (a power of two) has items
  -- and at most twice as many, fuel for two passes is enough, and the first element of the result
  -- stands for the reduction of all operands, if the operator computes in the monoid.
  pub execute_reduction_lem :
      (fuel q global_size : ℕ) (h : ℕ → M) (rhs : ℕ → V) (n : ℕ) (bufs : Buffers V)
      → ((k : ℕ) → k < n → Leaf (h k) (rhs k))
      → IsCovered (2 ^ q) (round_up_ratio global_size (2 * 2 ^ q))
      → (out : Buffers V) × (execute_reduction op init
            (suc (suc fuel))
            rhs
            n
            (2 ^ q)
            global_size
            bufs
          ≡ some out)
        × Acc (sum m n h) (out.lhs 0)
  unfolding execute_reduction
  execute_reduction_lem fuel q global_size h rhs n bufs leaves (inl one) = (
    _,
    run_one_pass op init (suc fuel) rhs n bufs (2 ^ q) global_size one,
    one_group_lem r q h rhs n bufs.lhs leaves,
  )
  execute_reduction_lem fuel q global_size h rhs n bufs leaves (inr covered) =
      let groups = round_up_ratio global_size (2 * 2 ^ q) in
      let first = reduction_kernel_lem r h rhs n leaves q groups bufs.mem_1 (omega arith) in
      (
        _,
        run_two_passes op init fuel rhs n bufs (2 ^ q) groups covered.0 covered.1 covered.2,
        subst
            (λ a. Acc a (
              reduction_kernel op init (partial op init fuel rhs n bufs (2 ^ q) groups) groups
                (2 ^ q) 1 bufs.lhs 0))
            first.1
            (one_group_lem again q (share m h n (2 ^ q) groups)
              (partial op init fuel rhs n bufs (2 ^ q) groups) groups bufs.lhs first.0),
      )
