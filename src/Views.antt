-- ===== src/Views.antt =====
-- src/views/view_sycl.hpp: the views through which kernels address device memory.
-- The memory of the device is one function: the name of a buffer and a signed distance from its first
-- element give the element. `get_pointer()` of an accessor is the start of the buffer, so that a
-- view's displacement is such a distance.
pub mod Vector
pub mod Matrix
pub mod Host
use sycl_blas.Base.{ℕ, ◌+◌, ◌*◌, ◌-◌, ◌/◌, ◌^◌, min, Bool, true, false, if◌then◌else◌, ◌&&◌, ◌==◌}
use sycl_blas.Base.Int.{
  ℤ, pos, negsuc, is_neg, is_positive, neg, pos_part, neg_part, ◌+ℤ◌, ◌-ℤ◌, ◌*ℤ◌, ◌==ℤ◌,
}
use sycl_blas.Meta.{round_up_ratio}
use sycl_blas.Container.{BufferIterator, get_size}

abbrev pub Store {ℓ} : Type ℓ → Type ℓ
Store A = ℕ → ℤ → A

-- `*(ptr) = value`
unfoldable pub store {ℓ} : {A : Type ℓ} → ℕ → ℤ → A → Store A → Store A
store name address value st n a = if n == name && a ==ℤ address then value else st n a

-- A placeholder accessor: the buffer, and the count of elements in its range.
pub record Accessor : Type 0 where
  pub name : ℕ
  pub count : ℕ

-- The conversion of a `ptrdiff_t` to `size_t`, of 64 bits.
abbrev pub to_size_t : ℤ → ℕ
to_size_t (pos n) = n
to_size_t (negsuc n) = 2 ^ 64 - (n + 1)

-- `get_range_accessor(buff_iterator)`: the elements from the offset on; behind the end, where their
-- count is negative, it wraps.
unfoldable pub get_range_accessor : BufferIterator → Accessor
get_range_accessor it = record { name = it.buffer.name; count = to_size_t (get_size it) }

pub record VectorView : Type 0 where
  pub data_ : Accessor
  pub size : ℕ
  pub disp : ℤ
  pub stride : ℤ

unfoldable pub calculate_input_data_size : Accessor → ℤ → ℕ → ℕ
calculate_input_data_size data_ stride size =
    let positive_stride = if is_neg stride then neg stride else stride in
    min size (round_up_ratio data_.count (pos_part positive_stride))

-- `VectorView(data, disp, strd, size)`. The displacement is computed with the view's own size.
unfoldable pub vector_view : Accessor → ℤ → ℤ → ℕ → VectorView
vector_view data_ disp strd size =
    let size_ = calculate_input_data_size data_ strd size in
    record {
      data_ = data_;
      size = size_;
      disp = if is_positive strd then disp else disp +ℤ (pos size_ -ℤ pos 1) *ℤ neg strd;
      stride = strd;
    }

-- `VectorView(BufferIterator, strd, size)`, by `make_vector_view`
unfoldable pub make_vector_view : BufferIterator → ℤ → ℕ → VectorView
make_vector_view it strd size = vector_view (get_range_accessor it) it.offset strd size

-- The pointer that `eval(i)` dereferences; `ptr_` is the start of the buffer moved by `disp_`.
unfoldable pub vector_address : VectorView → ℕ → ℤ
vector_address v i = if v.stride ==ℤ pos 1 then v.disp +ℤ pos i else v.disp +ℤ pos i *ℤ v.stride

unfoldable pub vector_eval {ℓ} : {A : Type ℓ} → VectorView → Store A → ℕ → A
vector_eval v st i = st v.data_.name (vector_address v i)

-- `struct row_major`, `struct col_major`
pub data Layout : Type 0 where
  row_major col_major : Layout

abbrev pub is_col_major : Layout → Bool
is_col_major row_major = false
is_col_major col_major = true

pub record MatrixView : Type 0 where
  pub data_ : Accessor
  pub rows : ℕ
  pub cols : ℕ
  pub leading : ℕ
  pub disp : ℤ
  pub layout : Layout

-- `MatrixView(BufferIterator, sizeR, sizeC, sizeL)`, by `make_matrix_view<layout>`
unfoldable pub make_matrix_view : Layout → BufferIterator → ℕ → ℕ → ℕ → MatrixView
make_matrix_view layout it rows cols leading = record {
  data_ = get_range_accessor it;
  rows = rows;
  cols = cols;
  leading = leading;
  disp = it.offset;
  layout = layout;
}

-- `get_size()`
unfoldable pub matrix_size : MatrixView → ℕ
matrix_size m = m.rows * m.cols

-- The pointer of `eval(i, j)`.
unfoldable pub matrix_address : MatrixView → ℕ → ℕ → ℤ
matrix_address m i j =
    if is_col_major m.layout
    then m.disp +ℤ pos i +ℤ pos (m.leading * j)
    else m.disp +ℤ pos j +ℤ pos (m.leading * i)

-- The pointer of `eval(indx)`: the elements are counted down the columns.
unfoldable pub linear_address : MatrixView → ℕ → ℤ
linear_address m indx = let j = indx / m.rows in let i = indx - m.rows * j in matrix_address m i j

-- The pointer of `eval<true>(indx)`.
unfoldable pub pointer_address : MatrixView → ℕ → ℤ
pointer_address m indx = m.disp +ℤ pos indx
