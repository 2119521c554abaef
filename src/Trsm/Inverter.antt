-- ===== src/Trsm/Inverter.antt =====
-- src/operations/blas3/trsm.hpp: the kernel that inverts the diagonal blocks of a triangular matrix.
-- A work group inverts one block, in local memory: `local[j + i * internalBlockSize]` is `local i j`,
-- where item `i` owns the row. Between two barriers an item writes to its own row only, and what it
-- reads of other rows is not written before the next barrier, so that all items take each step at once.
pub mod Columns
pub mod Triangles
pub mod Inverse
pub mod Launch
pub mod Blocks
use sycl_blas.Base.{
  ℕ, zero, suc, ◌+◌, ◌-◌, ◌*◌, ◌/◌, ◌%◌, Bool, true, false, List, [], ◌∷◌, if◌then◌else◌, ltb, leb,
  ◌==◌, ◌&&◌,
}
use sycl_blas.Base.Int.{pos, ◌+ℤ◌}
use sycl_blas.Base.Scalar.{Scalar}
use sycl_blas.Views.{Store, MatrixView}
use sycl_blas.Kernel.{Write, Plan}

-- The local memory of a work group, by row and column.
abbrev pub Local {ℓ} : Type ℓ → Type ℓ
Local A = ℕ → ℕ → A

-- The template's parameters, and the two matrices; `internalBlockSize` and `outterBlockSize` are both
-- `block_size`.
pub record DiagonalBlocksInverter : Type 0 where
  pub unit_diag : Bool
  pub upper : Bool
  pub block_size : ℕ
  pub a_ : MatrixView
  pub inv_a_ : MatrixView

module _ {ℓ} {A : Type ℓ} (s : Scalar A) where
  -- `for (k = from; k < from + count; ++k) sum = mad(local[k + i * …], local[j + k * …], sum)`
  unfoldable pub row_sum : Local A → ℕ → ℕ → ℕ → ℕ → A → A
  row_sum local i j from zero sum = sum
  row_sum local i j from (suc count) sum =
      row_sum local i j (suc from) count (s.add (s.mul (local i from) (local from j)) sum)

  -- What the items do to column `j`: those with `inside` replace their element of it, from the sum
  -- over `count` columns.
  unfoldable pub update_column : ℕ → (ℕ → Bool) → ℕ → ℕ → Local A → Local A
  update_column j inside from count local i c =
      if c == j && inside i
      then s.mul (row_sum local i j from count s.zero) (s.neg (local j j))
      else local i c

  -- `for (j = 1; j < internalBlockSize; ++j)`, from column `j` on
  unfoldable pub upper_loop : ℕ → ℕ → Local A → Local A
  upper_loop j zero local = local
  upper_loop j (suc count) local =
      upper_loop (suc j) count (update_column j (λ i. ltb i j) 0 j local)

  -- `for (j = internalBlockSize - 2; j >= 0; --j)`, for the columns below `j`
  unfoldable pub lower_loop : ℕ → ℕ → Local A → Local A
  lower_loop block_size zero local = local
  lower_loop block_size (suc j) local =
      lower_loop block_size j (update_column j (λ i. ltb j i) (suc j) (block_size - suc j) local)

  -- `if (!UnitDiag) local[i + i * …] = value_t{1} / local[i + i * …]`
  unfoldable pub invert_diagonal : Bool → Local A → Local A
  invert_diagonal unit_diag local i j =
      if unit_diag then local i j else if i == j then s.div s.one (local i i) else local i j

  unfoldable pub invert : Bool → Bool → ℕ → Local A → Local A
  invert unit_diag upper block_size local =
      if upper
      then upper_loop 1 (block_size - 1) (invert_diagonal unit_diag local)
      else lower_loop block_size (block_size - 1) (invert_diagonal unit_diag local)

  module _ (d : DiagonalBlocksInverter) where
    -- `isInRange`, with `N_` the count of the matrix's rows
    unfoldable pub is_in_range : ℕ → ℕ → ℕ → Bool
    is_in_range block_index i j =
        if d.upper
        then leb i j && ltb (block_index * d.block_size + j) d.a_.rows
        else leb j i && ltb (block_index * d.block_size + i) d.a_.rows

    unfoldable pub src_block_offset : ℕ → ℕ
    src_block_offset block_index = block_index * (d.block_size + d.a_.leading * d.block_size)

    -- `offsetPart1 + offsetPart2`
    unfoldable pub dest_block_offset : ℕ → ℕ
    dest_block_offset block_index =
        let num_inner_blocks = d.block_size / d.block_size in
        block_index / num_inner_blocks * d.block_size * d.block_size
        + block_index % num_inner_blocks * (d.block_size * d.block_size + d.block_size)

    -- The loop that loads the triangle.
    unfoldable pub load_block : ℕ → Store A → Local A
    load_block block_index st i j =
        if is_in_range block_index i j
        then st d.a_.data_.name
            (d.a_.disp +ℤ pos (j * d.a_.leading + i + src_block_offset block_index))
        else s.zero

    -- The loop that writes an item's row, from column `j` on.
    unfoldable pub write_row : ℕ → ℕ → ℕ → ℕ → Local A → List (Write A)
    write_row block_index i j zero local = []
    write_row block_index i j (suc count) local =
        record {
          name = d.inv_a_.data_.name;
          address = d.inv_a_.disp +ℤ pos (j * d.block_size + i + dest_block_offset block_index);
          value = local i j;
        }
        ∷ write_row block_index i (suc j) count local

    -- `eval(localMem, item)` of the item with this global index
    unfoldable pub inverter_eval : Plan A
    inverter_eval item st =
        let block_index = item / d.block_size in
        write_row block_index (item % d.block_size) 0 d.block_size
          (invert d.unit_diag d.upper d.block_size (load_block block_index st))
