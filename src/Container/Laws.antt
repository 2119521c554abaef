-- ===== src/Container/Laws.antt =====
-- Pointer arithmetic on buffer iterators.
use sycl_blas.Base.{◌≡◌, refl, ap}
use sycl_blas.Base.Int.{ℤ, pos, ◌+ℤ◌, ◌-ℤ◌, int_laws}
use sycl_blas.Container.{BufferIterator, advance, retreat, pre_increment, post_increment, get_size}

-- Moving forth and back by the same distance returns to the same element of the same buffer, two
-- moves add up, and the count of elements that are left shrinks by the distance.
advance_lem :
    (it : BufferIterator) (i j : ℤ)
    → (retreat (advance it i) i ≡ it)
      × (advance (advance it i) j ≡ advance it (i +ℤ j))
      × (get_size (advance it i) ≡ get_size it -ℤ i)
unfolding advance retreat get_size
advance_lem it i j = (
  ap at {x = it.offset +ℤ i -ℤ i} (omega int_laws),
  ap at {x = it.offset +ℤ i +ℤ j} (omega int_laws),
  omega int_laws,
)
  where
    at : ℤ → BufferIterator
    at offset = record { offset = offset; buffer = it.buffer }

-- Both increments move by one element; the postfix form returns the iterator as it was.
pub increment_lem :
    (it : BufferIterator)
    → ((pre_increment it).0 ≡ advance it (pos 1))
      × ((pre_increment it).1 ≡ advance it (pos 1))
      × ((post_increment it).0 ≡ advance it (pos 1))
      × ((post_increment it).1 ≡ it)
unfolding pre_increment post_increment advance
increment_lem it = (refl, refl, refl, refl)
