-- ===== src/Reduction.antt =====
-- `AssignReduction` (src/operations/blas1_trees.hpp) and its execution
-- (src/executors/executor_sycl.hpp). The values being reduced may be of another type than the
-- elements in memory, so that the operands of a reduction are functions of the index.
pub mod Block
pub mod Grid
pub mod Kernel
pub mod Passes
pub mod Termination
use sycl_blas.Base.{
  ℕ, zero, suc, ◌+◌, ◌*◌, ◌/◌, ltb, ◌==◌, if◌then◌else◌, Bool, true, false, not, Option, none, some,
}
use sycl_blas.Meta.{round_up_ratio}

module _ {ℓ} {V : Type ℓ} (op : V → V → V) where
  -- One round of the loop across the grid.
  unfoldable pub accumulate : (ℕ → V) → ℕ → ℕ → ℕ → V → V
  accumulate rhs vec_size local_size k val =
      let once = op val (rhs k) in
      if ltb (k + local_size) vec_size then op once (rhs (k + local_size)) else once

  -- `for (k = frs_thrd; k < vecS; k += 2 * global_num_thread_)`, with fuel
  unfoldable pub grid_loop : (ℕ → V) → ℕ → ℕ → ℕ → ℕ → ℕ → V → V
  grid_loop rhs vec_size local_size global_size zero k val = val
  grid_loop rhs vec_size local_size global_size (suc fuel) k val = elim (ltb k vec_size) [
    | true ↦
        grid_loop rhs vec_size local_size global_size fuel (k + 2 * global_size)
          (accumulate rhs vec_size local_size k val)
    | false ↦ val
  ]

  -- The items between two barriers of the loop inside the block: each writes its own cell, and reads
  -- one that no item of the round writes.
  unfoldable pub block_round : ℕ → (ℕ → V) → ℕ → V
  block_round offset scratch local_id =
      if ltb local_id offset
      then op (scratch local_id) (scratch (local_id + offset))
      else scratch local_id

  -- `for (offset = localSz >> 1; offset > 0; offset >>= 1)`, with fuel
  unfoldable pub block_loop : ℕ → ℕ → (ℕ → V) → ℕ → V
  block_loop zero offset scratch = scratch
  block_loop (suc fuel) offset scratch = elim (ltb 0 offset) [
    | true ↦ block_loop fuel (offset / 2) (block_round offset scratch)
    | false ↦ scratch
  ]

-- The result and the two buffers for partial results.
pub record Buffers {ℓ} (V : Type ℓ) : Type ℓ where
  pub lhs : ℕ → V
  pub mem_1 : ℕ → V
  pub mem_2 : ℕ → V

module _ {ℓ} {V : Type ℓ} (op : V → V → V) (init : V) where
  -- What an item writes to `scratch[localid]` before the first barrier. The index grows in each
  -- round, so that `vec_size` rounds are enough.
  unfoldable pub item_value : (ℕ → V) → ℕ → ℕ → ℕ → ℕ → ℕ → V
  item_value rhs vec_size local_size global_size group_id local_id =
      grid_loop op rhs vec_size local_size global_size vec_size
        (2 * group_id * local_size + local_id) init

  -- The value that the first item of a group writes to `lhs_.eval(groupid)`.
  unfoldable pub group_value : (ℕ → V) → ℕ → ℕ → ℕ → ℕ → V
  group_value rhs vec_size local_size global_size group_id =
      block_loop op local_size (local_size / 2)
        (item_value rhs vec_size local_size global_size group_id) 0

  -- `AssignReduction::eval(scratch, ndItem)` over `groups` work groups: the left side afterwards.
  unfoldable pub reduction_kernel : (ℕ → V) → ℕ → ℕ → ℕ → (ℕ → V) → ℕ → V
  reduction_kernel rhs vec_size local_size groups lhs i =
      if ltb i groups then group_value rhs vec_size local_size (groups * local_size) i else lhs i

  -- `((nWG == 1) ? lhs : opShMem1)`
  unfoldable pub first_pass : (ℕ → V) → ℕ → ℕ → ℕ → Buffers V → Buffers V
  first_pass rhs vec_size local_size groups bufs =
      if groups == 1
      then record bufs { lhs = reduction_kernel rhs vec_size local_size groups bufs.lhs }
      else record bufs { mem_1 = reduction_kernel rhs vec_size local_size groups bufs.mem_1 }

  -- `((nWG == 1) ? lhs : (even ? opShMem2 : opShMem1)), (even ? opShMem1 : opShMem2)`, where both
  -- buffers are views of `shared_size` elements.
  unfoldable pub later_pass : Bool → ℕ → ℕ → ℕ → Buffers V → Buffers V
  later_pass even shared_size local_size groups bufs =
      let source = if even then bufs.mem_1 else bufs.mem_2 in
      let target = λ (old : ℕ → V). reduction_kernel source shared_size local_size groups old in
      if groups == 1
      then record bufs { lhs = target bufs.lhs }
      else if even
      then record bufs { mem_2 = target bufs.mem_2 }
      else record bufs { mem_1 = target bufs.mem_1 }

  -- The passes after the first: `n` is the count of groups of the pass before. `none` is fuel that
  -- ran out.
  unfoldable pub passes : ℕ → Bool → ℕ → ℕ → ℕ → Buffers V → Option (Buffers V)
  passes zero even shared_size local_size n bufs = none
  passes (suc fuel) even shared_size local_size n bufs = elim (ltb 1 n) [
    | true ↦
        let groups = round_up_ratio n (2 * local_size) in
        passes fuel (not even) shared_size local_size groups
          (later_pass even shared_size local_size groups bufs)
    | false ↦ some bufs
  ]

  -- `Executor::execute(AssignReduction)`, from the sizes of the tree's constructor.
  unfoldable pub execute_reduction : ℕ → (ℕ → V) → ℕ → ℕ → ℕ → Buffers V → Option (Buffers V)
  execute_reduction fuel rhs vec_size local_size global_size bufs =
      let groups = round_up_ratio global_size (2 * local_size) in
      let shared_size = if ltb groups local_size then local_size else groups in
      passes fuel true shared_size local_size groups
        (first_pass rhs vec_size local_size groups bufs)
