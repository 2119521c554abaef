-- ===== src/GemvCol.antt =====
-- src/operations/blas2/gemv.hpp: `GemvCol` with local memory, the kernel of the triangular and the
-- symmetric products. An item of a group adds up a share of its rows, a block of columns at a time,
-- and keeps the sums in memory between the blocks.
pub mod Guard
pub mod Copies
pub mod Sums
pub mod Rows
pub mod Blocks
pub mod Launch
pub mod Shares
use sycl_blas.Base.{
  ℕ, zero, suc, ◌+◌, ◌-◌, ◌*◌, ◌/◌, ◌%◌, min, Bool, true, not, List, [], ◌∷◌, ◌++◌, if◌then◌else◌,
  ltb, leb, ◌==◌, ◌&&◌, ◌||◌,
}
use sycl_blas.Base.Scalar.{Scalar}
use sycl_blas.Views.{Store, MatrixView, VectorView, vector_eval, matrix_address}
use sycl_blas.Kernel.{Write, Plan, apply_all}

-- The template's parameters and the constructor's.
pub record GemvCol : Type 0 where
  pub lower : Bool
  pub diag : Bool
  pub upper : Bool
  pub unit : Bool
  pub lhs_ : MatrixView
  pub matrix_ : MatrixView
  pub vector_ : VectorView
  pub nwg_row_ : ℕ
  pub nwg_col_ : ℕ
  pub local_memory_size_ : ℕ

module _ {ℓ} {A : Type ℓ} (s : Scalar A) (g : GemvCol) where
  -- Whether the product takes in the element in this row and column; a unit diagonal is left out.
  abbrev pub is_factor : ℕ → ℕ → Bool
  is_factor rowid id_col =
      let beside = if not g.diag || g.unit then 1 else 0 in
      if g.lower && g.upper && g.diag && not g.unit
      then true
      else g.lower && leb (id_col + beside) rowid || g.upper && leb (rowid + beside) id_col

  -- `shrMem[col] = vector_.eval(colid + col)`
  abbrev pub copy_place : Store A → ℕ → ℕ → (ℕ → A) → ℕ → A
  copy_place st colid col shr_mem p =
      if p == col then vector_eval g.vector_ st (colid + col) else shr_mem p

  -- `for (col = localid; col < blqSz; col += localSz)`, with fuel
  unfoldable pub copy_loop : Store A → ℕ → ℕ → ℕ → ℕ → ℕ → (ℕ → A) → ℕ → A
  copy_loop st local_sz colid blq_sz zero col shr_mem = shr_mem
  copy_loop st local_sz colid blq_sz (suc fuel) col shr_mem =
      let rest =
        copy_loop st local_sz colid blq_sz fuel (col + local_sz)
          (copy_place st colid col shr_mem) in
      if ltb col blq_sz then rest else shr_mem

  -- The loops of the items below `count` of a group, up to the barrier.
  unfoldable pub copy_all : Store A → ℕ → ℕ → ℕ → ℕ → (ℕ → A) → ℕ → A
  copy_all st local_sz colid blq_sz zero shr_mem = shr_mem
  copy_all st local_sz colid blq_sz (suc count) shr_mem =
      copy_loop st local_sz colid blq_sz blq_sz count
        (copy_all st local_sz colid blq_sz count shr_mem)

  -- `val` before the loop over the columns
  abbrev pub first_val : Store A → ℕ → ℕ → ℕ → ℕ → ℕ → A
  first_val st id_wfc frs_col colid blq_sz rowid =
      s.add
        (if colid == frs_col
          then s.zero
          else st g.lhs_.data_.name (matrix_address g.lhs_ rowid id_wfc))
        (if g.diag && g.unit && (leb colid rowid && ltb rowid (colid + blq_sz))
          then vector_eval g.vector_ st rowid
          else s.zero)

  -- `for (id_col = colid, col = 0; col < blqSz; id_col++, col++)`, from `id_col` and `col` on
  unfoldable pub product_loop : Store A → (ℕ → A) → ℕ → ℕ → ℕ → ℕ → A → A
  product_loop st shr_mem rowid zero id_col col val = val
  product_loop st shr_mem rowid (suc count) id_col col val =
      product_loop st shr_mem rowid count (suc id_col) (suc col) (
        if is_factor rowid id_col
        then s.add val
            (s.mul (st g.matrix_.data_.name (matrix_address g.matrix_ rowid id_col)) (shr_mem col))
        else val)

  -- `lhs_.eval(rowid, idWFC) = val`
  abbrev pub set_lhs : ℕ → ℕ → A → Write A
  set_lhs id_wfc rowid val = record {
    name = g.lhs_.data_.name;
    address = matrix_address g.lhs_ rowid id_wfc;
    value = val;
  }

  -- The value that a block of columns leaves in a row.
  abbrev pub block_val : Store A → (ℕ → A) → ℕ → ℕ → ℕ → ℕ → ℕ → A
  block_val st shr_mem id_wfc frs_col colid blq_sz rowid =
      product_loop st shr_mem rowid blq_sz colid 0 (first_val st id_wfc frs_col colid blq_sz rowid)

  -- `for (rowid = frs_row; rowid < lst_row; rowid += localSz)`, with fuel; `val` of a row is computed
  -- before the item writes to it, and the item reads no other row.
  unfoldable pub rowid_loop : (ℕ → A) → ℕ → ℕ → ℕ → ℕ → ℕ → List (Write A)
  rowid_loop val local_sz id_wfc lst_row zero rowid = []
  rowid_loop val local_sz id_wfc lst_row (suc fuel) rowid =
      let rest = rowid_loop val local_sz id_wfc lst_row fuel (rowid + local_sz) in
      if ltb rowid lst_row then set_lhs id_wfc rowid (val rowid) ∷ rest else []

  -- `for (colid = frs_col; colid < lst_col; colid += local_memory_size_)`, with fuel: a block reads
  -- the sums that the block before it has written.
  unfoldable pub blocks_loop : ℕ → ℕ → ℕ → ℕ → ℕ → ℕ → ℕ → ℕ → (ℕ → A) → Store A → List (Write A)
  blocks_loop local_sz id_wfc frs_row lst_row frs_col lst_col zero colid shr_mem st = []
  blocks_loop local_sz id_wfc frs_row lst_row frs_col lst_col (suc fuel) colid shr_mem st =
      let blq_sz = min g.local_memory_size_ (lst_col - colid) in
      let loaded = copy_all st local_sz colid blq_sz local_sz shr_mem in
      let rows =
        rowid_loop (block_val st loaded id_wfc frs_col colid blq_sz) local_sz id_wfc lst_row
          (lst_row - frs_row) frs_row in
      let rest =
        blocks_loop local_sz id_wfc frs_row lst_row frs_col lst_col fuel
          (colid + g.local_memory_size_) loaded (apply_all rows st) in
      if ltb colid lst_col then rows ++ rest else []

  -- `eval(shrMem, ndItem)` of the item with this global index, in groups of `local_sz` items;
  -- `start` is what local memory holds at the start.
  unfoldable pub gemv_col_eval : (ℕ → A) → ℕ → Plan A
  gemv_col_eval start local_sz i st =
      let localid = i % local_sz in
      let groupid = i / local_sz in
      let dim_r = g.matrix_.rows in
      let dim_c = g.matrix_.cols in
      let col_sz = (dim_c + g.nwg_col_ - 1) / g.nwg_col_ in
      let id_wfr = groupid % g.nwg_row_ in
      let id_wfc = groupid / g.nwg_row_ in
      let dim_wfr = (dim_r + local_sz * g.nwg_row_ - 1) / (local_sz * g.nwg_row_) * local_sz in
      let frs_row = id_wfr * dim_wfr + localid in
      let lst_row = min dim_r (frs_row + dim_wfr) in
      let frs_col = id_wfc * col_sz in
      let lst_col = min dim_c (frs_col + col_sz) in
      let beside = if not g.diag then 1 else 0 in
      if not g.upper && ltb (id_wfr * dim_wfr + dim_wfr) (frs_col + beside + 1)
        || not g.lower && ltb lst_col (id_wfr * dim_wfr + beside + 1)
      then rowid_loop (λ rowid. s.zero) local_sz id_wfc lst_row (lst_row - frs_row) frs_row
      else blocks_loop local_sz id_wfc frs_row lst_row frs_col lst_col (lst_col - frs_col) frs_col
          start st
