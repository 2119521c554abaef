-- ===== src/Ger.antt =====
-- src/operations/blas2/ger.hpp: `GerCol`, the kernel of the rank updates, with local memory. An item
-- updates an element of the matrix once, and no other item does, so that what it writes is
-- a function of the memory before.
pub mod Fill
pub mod Columns
pub mod Loops
pub mod Owners
pub mod Launch
use sycl_blas.Base.{
  ℕ, zero, suc, ◌+◌, ◌-◌, ◌*◌, ◌/◌, ◌%◌, min, Bool, true, not, List, [], ◌∷◌, ◌++◌, if◌then◌else◌,
  ltb, leb, ◌==◌, ◌&&◌, ◌||◌,
}
use sycl_blas.Base.Scalar.{Scalar}
use sycl_blas.Views.{Store, MatrixView, VectorView, vector_eval, matrix_address}
use sycl_blas.Kernel.{Write, Plan}

-- The template's parameters and the constructor's.
pub record GerCol {ℓ} (A : Type ℓ) : Type ℓ where
  pub is_single : Bool
  pub lower : Bool
  pub diag : Bool
  pub upper : Bool
  pub lhs_ : MatrixView
  pub scalar_ : A
  pub rhs_1_ : VectorView
  pub rhs_2_ : VectorView
  pub nwg_row_ : ℕ
  pub nwg_col_ : ℕ
  pub local_memory_size_ : ℕ

module _ {ℓ} {A : Type ℓ} (s : Scalar A) (g : GerCol A) where
  -- `(!Diag) ? 1 : 0`
  abbrev pub beside : ℕ
  beside = if not g.diag then 1 else 0

  -- The columns of a block that goes through local memory: all of it for one vector, half for two.
  abbrev pub block : ℕ
  block = if g.is_single then g.local_memory_size_ else g.local_memory_size_ / 2

  -- `shrMem[place] = value`
  abbrev pub set_place : ℕ → A → (ℕ → A) → ℕ → A
  set_place place value shr_mem p = if p == place then value else shr_mem p

  -- The body of the loop that fills local memory.
  abbrev pub fill_place : Store A → ℕ → ℕ → (ℕ → A) → ℕ → A
  fill_place st colid col shr_mem =
      if g.is_single
      then set_place col (s.mul g.scalar_ (vector_eval g.rhs_2_ st (colid + col))) shr_mem
      else set_place (block + col) (s.mul g.scalar_ (vector_eval g.rhs_2_ st (colid + col)))
          (set_place col (s.mul g.scalar_ (vector_eval g.rhs_1_ st (colid + col))) shr_mem)

  -- `for (col = localid; col < blqSz; col += localSz)`, with fuel
  unfoldable pub fill_loop : Store A → ℕ → ℕ → ℕ → ℕ → ℕ → (ℕ → A) → ℕ → A
  fill_loop st local_sz colid blq_sz zero col shr_mem = shr_mem
  fill_loop st local_sz colid blq_sz (suc fuel) col shr_mem =
      let rest =
        fill_loop st local_sz colid blq_sz fuel (col + local_sz)
          (fill_place st colid col shr_mem) in
      if ltb col blq_sz then rest else shr_mem

  -- The loops of the items below `count` of a group, which write different places.
  unfoldable pub fill_all : Store A → ℕ → ℕ → ℕ → ℕ → (ℕ → A) → ℕ → A
  fill_all st local_sz colid blq_sz zero shr_mem = shr_mem
  fill_all st local_sz colid blq_sz (suc count) shr_mem =
      fill_loop st local_sz colid blq_sz blq_sz count
        (fill_all st local_sz colid blq_sz count shr_mem)

  -- Whether the kernel updates the element in this row and column.
  abbrev pub is_updated : ℕ → ℕ → Bool
  is_updated id_row id_col =
      if g.lower && g.upper && g.diag
      then true
      else g.lower && leb (id_col + beside) id_row || g.upper && leb (id_row + beside) id_col

  -- What is added to it, where `col` is the column's place in the block.
  abbrev pub increment : Store A → (ℕ → A) → ℕ → ℕ → A
  increment st shr_mem id_row col =
      if g.is_single
      then s.mul (vector_eval g.rhs_1_ st id_row) (shr_mem col)
      else s.add (s.mul (vector_eval g.rhs_1_ st id_row) (shr_mem (block + col)))
          (s.mul (vector_eval g.rhs_2_ st id_row) (shr_mem col))

  -- `lhs_.eval(id_row, id_col) += …`
  abbrev pub update : Store A → ℕ → ℕ → A → Write A
  update st id_row id_col addend = record {
    name = g.lhs_.data_.name;
    address = matrix_address g.lhs_ id_row id_col;
    value = s.add (st g.lhs_.data_.name (matrix_address g.lhs_ id_row id_col)) addend;
  }

  -- `for (id_col = colid, col = 0; col < blqSz; id_col++, col++)`, from `id_col` and `col` on
  unfoldable pub id_col_loop : Store A → (ℕ → A) → ℕ → ℕ → ℕ → ℕ → List (Write A)
  id_col_loop st shr_mem id_row zero id_col col = []
  id_col_loop st shr_mem id_row (suc count) id_col col =
      let rest = id_col_loop st shr_mem id_row count (suc id_col) (suc col) in
      if is_updated id_row id_col
      then update st id_row id_col (increment st shr_mem id_row col) ∷ rest
      else rest

  -- `for (id_row = frs_row; id_row < lst_row; id_row += localSz)`, with fuel
  unfoldable pub id_row_loop : Store A → (ℕ → A) → ℕ → ℕ → ℕ → ℕ → ℕ → ℕ → List (Write A)
  id_row_loop st shr_mem local_sz colid blq_sz lst_row zero id_row = []
  id_row_loop st shr_mem local_sz colid blq_sz lst_row (suc fuel) id_row =
      let rest = id_row_loop st shr_mem local_sz colid blq_sz lst_row fuel (id_row + local_sz) in
      if ltb id_row lst_row then id_col_loop st shr_mem id_row blq_sz colid 0 ++ rest else []

  -- `for (colid = frs_col; colid < lst_col; colid += …)`, with fuel: the group fills local memory up
  -- to a barrier, and then an item updates its rows.
  unfoldable pub colid_loop : Store A → ℕ → ℕ → ℕ → ℕ → ℕ → ℕ → (ℕ → A) → List (Write A)
  colid_loop st local_sz frs_row lst_row lst_col zero colid shr_mem = []
  colid_loop st local_sz frs_row lst_row lst_col (suc fuel) colid shr_mem =
      let blq_sz = min block (lst_col - colid) in
      let loaded = fill_all st local_sz colid blq_sz local_sz shr_mem in
      let rest = colid_loop st local_sz frs_row lst_row lst_col fuel (colid + block) loaded in
      if ltb colid lst_col
      then id_row_loop st loaded local_sz colid blq_sz lst_row (lst_row - frs_row) frs_row ++ rest
      else []

  -- `colSz`, the columns of a group, and `dimWFR`, its rows.
  abbrev pub col_sz : ℕ → ℕ
  col_sz local_sz =
      if ltb g.lhs_.rows local_sz then local_sz else (g.lhs_.cols + g.nwg_col_ - 1) / g.nwg_col_

  abbrev pub dim_wfr : ℕ → ℕ
  dim_wfr local_sz = (g.lhs_.rows + local_sz * g.nwg_row_ - 1) / (local_sz * g.nwg_row_) * local_sz

  -- The guard of a group: it has rows from `row` on and columns from `frs_col` to `lst_col`, and all
  -- of them lie on the side that is not updated. (`a > b - 1` is written `a + 1 > b`.)
  abbrev pub is_outside : ℕ → ℕ → ℕ → ℕ → Bool
  is_outside local_sz row frs_col lst_col =
      not g.upper && ltb (row + dim_wfr local_sz) (frs_col + beside + 1)
      || not g.lower && ltb lst_col (row + beside + 1)

  -- `eval(shrMem, ndItem)` of the item with this global index, in groups of `local_sz` items;
  -- `start` is what local memory holds at the start.
  unfoldable pub ger_eval : (ℕ → A) → ℕ → Plan A
  ger_eval start local_sz i st =
      let localid = i % local_sz in
      let groupid = i / local_sz in
      let id_wfr = groupid % g.nwg_row_ in
      let frs_row = id_wfr * dim_wfr local_sz + localid in
      let lst_row = min g.lhs_.rows (frs_row + dim_wfr local_sz) in
      let frs_col = groupid / g.nwg_row_ * col_sz local_sz in
      let lst_col = min g.lhs_.cols (frs_col + col_sz local_sz) in
      if is_outside local_sz (id_wfr * dim_wfr local_sz) frs_col lst_col
      then []
      else colid_loop st local_sz frs_row lst_row lst_col (lst_col - frs_col) frs_col start
