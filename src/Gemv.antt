-- ===== src/Gemv.antt =====
-- src/operations/blas2/gemv.hpp: the kernels of the matrix-vector product, `Gemv`, without and with
-- local memory. The kernels write the dot products to a matrix that no work item reads, one element
-- at most for each item; what the items of a group put into local memory before a barrier is a
-- function of the place in it.
pub mod Dots
pub mod Rows
pub mod Extract
pub mod Partial
pub mod Local
use sycl_blas.Base.{
  ℕ, zero, suc, ◌+◌, ◌-◌, ◌*◌, ◌/◌, ◌%◌, min, Bool, true, false, List, [], ◌∷◌, if◌then◌else◌, ltb,
  ◌==◌, ◌&&◌,
}
use sycl_blas.Base.Scalar.{Scalar}
use sycl_blas.Views.{Store, MatrixView, VectorView, vector_eval, linear_address, pointer_address}
use sycl_blas.Kernel.{Write, Plan}

-- The template's parameters and the constructor's; `cl_elems` is the cache line's size in elements.
pub record Gemv : Type 0 where
  pub is_transposed : Bool
  pub local_range : ℕ
  pub cl_elems : ℕ
  pub lhs_ : MatrixView
  pub matrix_a_ : MatrixView
  pub vector_x_ : VectorView
  pub wgs_per_nc_ : ℕ
  pub wgs_per_c_ : ℕ

-- `contract_dim` and `non_contract_dim`
abbrev pub c_dim : Gemv → ℕ
c_dim g = if g.is_transposed then g.matrix_a_.rows else g.matrix_a_.cols

abbrev pub nc_dim : Gemv → ℕ
nc_dim g = if g.is_transposed then g.matrix_a_.cols else g.matrix_a_.rows

abbrev pub nc_stride : Gemv → ℕ
nc_stride g = if g.is_transposed then g.matrix_a_.leading else 1

abbrev pub contract_stride : Gemv → ℕ
contract_stride g = if g.is_transposed then 1 else g.matrix_a_.leading

module _ {ℓ} {A : Type ℓ} (s : Scalar A) (g : Gemv) where
  -- `matrix_a_.template eval<true>(index)`
  abbrev pub matrix_eval : Store A → ℕ → A
  matrix_eval st index = st g.matrix_a_.data_.name (pointer_address g.matrix_a_ index)

  -- `for (col_id = 0; col_id < contract_dim; ++col_id) sum = mad(…)`, from `col_id` on
  unfoldable pub dot_loop : ℕ → ℕ → ℕ → A → Store A → A
  dot_loop zero col_id index sum st = sum
  dot_loop (suc count) col_id index sum st =
      dot_loop count (suc col_id) (index + contract_stride g)
        (s.add (s.mul (matrix_eval st index) (vector_eval g.vector_x_ st col_id)) sum) st

  -- `for (row_id = 0; row_id < non_contract_dim; row_id += group_stride)`, with fuel. The index has
  -- moved on by the columns when it is moved on by the rows.
  unfoldable pub row_loop : ℕ → ℕ → ℕ → ℕ → ℕ → Store A → List (Write A)
  row_loop zero group_stride thread_id row_id index st = []
  row_loop (suc fuel) group_stride thread_id row_id index st =
      let rest =
        row_loop fuel group_stride thread_id (row_id + group_stride)
          (index + c_dim g * contract_stride g + group_stride * nc_stride g) st in
      if ltb row_id (nc_dim g) && ltb (thread_id + row_id) (nc_dim g)
      then record {
        name = g.lhs_.data_.name;
        address = linear_address g.lhs_ (thread_id + row_id);
        value = dot_loop (c_dim g) 0 index s.zero st;
      }
        ∷ rest
      else []

  -- `eval(ndItem)` of the item with this global index, in a range of `group_range` groups
  unfoldable pub gemv_eval : ℕ → Plan A
  gemv_eval group_range i st =
      let local_id = i % g.local_range in
      let group_id = i / g.local_range in
      let thread_id = group_id * g.local_range + local_id in
      row_loop (nc_dim g) (group_range * g.local_range) thread_id 0 (thread_id * nc_stride g) st

  -- The portion of X in local memory, after the barrier.
  unfoldable pub vector_scratch : ℕ → Store A → ℕ → A
  vector_scratch c_group_id st local_id =
      let x_vec_index = local_id + c_group_id * g.local_range in
      if ltb x_vec_index g.vector_x_.size then vector_eval g.vector_x_ st x_vec_index else s.zero

  -- `for (c_dim_id = 0; c_dim_id < last_c_dim_id; ++c_dim_id)`, from `c_dim_id` on
  unfoldable pub partial_loop : (ℕ → A) → ℕ → ℕ → ℕ → A → Store A → A
  partial_loop scratch zero c_dim_id mat_index sum st = sum
  partial_loop scratch (suc count) c_dim_id mat_index sum st =
      partial_loop scratch count (suc c_dim_id) (mat_index + g.matrix_a_.leading)
        (s.add (s.mul (matrix_eval st mat_index) (scratch c_dim_id)) sum) st

  -- `for (nc_tile_id = 0; nc_tile_id < tile_nc_loops; ++nc_tile_id)` of `extract_input_block`
  unfoldable pub tile_loop : Store A → ℕ → Bool → ℕ → ℕ → ℕ → ℕ → (ℕ → A) → ℕ → A
  tile_loop st scratch_index in_c_range zero mat_index local_nc grid_nc matrix_scratch =
      matrix_scratch
  tile_loop st scratch_index in_c_range (suc count) mat_index local_nc grid_nc matrix_scratch =
      let tile_dim_nc = g.local_range / g.cl_elems in
      tile_loop st scratch_index in_c_range count (mat_index + tile_dim_nc * g.matrix_a_.leading)
        (local_nc + tile_dim_nc) (grid_nc + tile_dim_nc)
        (λ place.
          if place == scratch_index + local_nc
          then (if in_c_range && ltb grid_nc (nc_dim g) then matrix_eval st mat_index else s.zero)
          else matrix_scratch place)

  -- `extract_input_block` of one item
  unfoldable pub extract_input_block : Store A → ℕ → ℕ → ℕ → (ℕ → A) → ℕ → A
  extract_input_block st group_id c_tile_id local_id matrix_scratch =
      let nc_group_id = group_id / g.wgs_per_c_ in
      let c_group_id = group_id - nc_group_id * g.wgs_per_c_ in
      let tile_nc_index = local_id / g.cl_elems in
      let tile_c_index = local_id % g.cl_elems in
      let grid_nc_index = tile_nc_index + nc_group_id * g.local_range in
      let grid_c_index = tile_c_index + c_tile_id * g.cl_elems + c_group_id * g.local_range in
      tile_loop st ((g.local_range + 1) * tile_c_index) (ltb grid_c_index (c_dim g)) g.cl_elems
        (grid_c_index + grid_nc_index * g.matrix_a_.leading) tile_nc_index grid_nc_index
        matrix_scratch

  -- And of the items below `count`: they write different places, so that any order will do.
  unfoldable pub extract_all : Store A → ℕ → ℕ → ℕ → (ℕ → A) → ℕ → A
  extract_all st group_id c_tile_id zero matrix_scratch = matrix_scratch
  extract_all st group_id c_tile_id (suc count) matrix_scratch =
      extract_input_block st group_id c_tile_id count
        (extract_all st group_id c_tile_id count matrix_scratch)

  -- `for (c_dim_id = 0; c_dim_id < cl_elems; ++c_dim_id)`, from `vector_index` and `mat_index` on
  unfoldable pub scratch_loop : (ℕ → A) → (ℕ → A) → ℕ → ℕ → ℕ → A → A
  scratch_loop matrix_scratch scratch zero mat_index vector_index sum = sum
  scratch_loop matrix_scratch scratch (suc count) mat_index vector_index sum =
      scratch_loop matrix_scratch scratch count (mat_index + (g.local_range + 1)) (suc vector_index)
        (s.add (s.mul (matrix_scratch mat_index) (scratch vector_index)) sum)

  -- `for (c_tile_id = 0; c_tile_id < tile_c_loops; ++c_tile_id)`, from `c_tile_id` on
  unfoldable pub c_tile_loop : (ℕ → A) → Store A → ℕ → ℕ → ℕ → ℕ → (ℕ → A) → A → A
  c_tile_loop scratch st group_id local_id zero c_tile_id matrix_scratch sum = sum
  c_tile_loop scratch st group_id local_id (suc count) c_tile_id matrix_scratch sum =
      let loaded = extract_all st group_id c_tile_id g.local_range matrix_scratch in
      c_tile_loop scratch st group_id local_id count (suc c_tile_id) loaded
        (scratch_loop loaded scratch g.cl_elems local_id (c_tile_id * g.cl_elems) sum)

  -- `eval(local_mem, ndItem)` of the item with this global index; `start` is what local memory holds
  -- at the start.
  unfoldable pub gemv_local_eval : (ℕ → A) → Plan A
  gemv_local_eval start i st =
      let local_id = i % g.local_range in
      let group_id = i / g.local_range in
      let nc_group_id = group_id / g.wgs_per_c_ in
      let c_group_id = group_id - nc_group_id * g.wgs_per_c_ in
      let scratch = vector_scratch c_group_id st in
      let nc_dim_index = local_id + nc_group_id * g.local_range in
      let out_index = nc_dim_index + c_group_id * nc_dim g in
      if ltb nc_dim_index (nc_dim g)
      then record {
        name = g.lhs_.data_.name;
        address = linear_address g.lhs_ out_index;
        value =
            if g.is_transposed
            then c_tile_loop scratch st group_id local_id (g.local_range / g.cl_elems) 0 start
                s.zero
            else partial_loop scratch (min (c_dim g - c_group_id * g.local_range) g.local_range) 0
                (nc_dim_index + c_group_id * g.local_range * g.matrix_a_.leading) s.zero st;
      }
        ∷ []
      else []
