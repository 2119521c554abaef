-- ===== src/Container.antt =====
-- include/container/sycl_iterator.h: `BufferIterator`, a SYCL buffer and an offset into it.
pub mod Laws
use sycl_blas.Base.{ℕ}
use sycl_blas.Base.Int.{ℤ, pos, ◌+ℤ◌, ◌-ℤ◌}

-- A SYCL buffer stands for the storage that it owns: a name, and the count of its elements.
pub record Buffer : Type 0 where
  pub name : ℕ
  pub get_count : ℕ

pub record BufferIterator : Type 0 where
  pub offset : ℤ
  pub buffer : Buffer

-- `BufferIterator(buff)` and `make_sycl_iterator_buffer`
unfoldable pub make_sycl_iterator_buffer : Buffer → BufferIterator
make_sycl_iterator_buffer buff = record { offset = pos 0; buffer = buff }

-- `operator+(offset)`, and the value of `*this` after `operator+=(offset)`
unfoldable pub advance : BufferIterator → ℤ → BufferIterator
advance it offset = record { offset = it.offset +ℤ offset; buffer = it.buffer }

-- `operator-(offset)`, and the value of `*this` after `operator-=(offset)`
pub retreat : BufferIterator → ℤ → BufferIterator
retreat it offset = record { offset = it.offset -ℤ offset; buffer = it.buffer }

-- `operator++()`: `*this` afterwards, and the result.
pub pre_increment : BufferIterator → BufferIterator × BufferIterator
pre_increment it = let next = record it { offset = it.offset +ℤ pos 1 } in (next, next)

-- `operator++(int)`: `*this` afterwards, and the result.
pub post_increment : BufferIterator → BufferIterator × BufferIterator
post_increment it = (record it { offset = it.offset +ℤ pos 1 }, it)

unfoldable pub get_size : BufferIterator → ℤ
get_size it = pos it.buffer.get_count -ℤ it.offset
