-- ===== src/Blas1/Vectors.antt =====
-- Vectors in memory: a start, an increment and a count, as the callers of the interface give them.
use mathlib.Core.Path.{ap₂}
use sycl_blas.Base.{ℕ, ◌+◌, ◌-◌, ◌*◌, ◌<◌, ◌≤◌, ◌≡◌, ◌≢◌, ◌⊎◌, refl, sym, ap, ◌∙◌, arith, inl, inr}
use sycl_blas.Base.Int.{ℤ, pos, negsuc, pos_part, ◌+ℤ◌, pos-+ℤ, pos_offset_injective}
use sycl_blas.Base.Scalar.{Scalar}
use sycl_blas.Meta.{round_up_ratio}
use sycl_blas.Meta.Rounding.{round_up_ratio_bounds}
use sycl_blas.Container.{BufferIterator, get_size}
use sycl_blas.Views.{
  Store, to_size_t, get_range_accessor, make_vector_view, vector_view, vector_address,
}
use sycl_blas.Views.Vector.{
  magnitude, place, vector_size_lem, vector_address-place, place_injective,
}
use sycl_blas.Trees
use sycl_blas.Trees.{leaf, View, Expr, view_name, view_address, view_size, assign, eval}
use sycl_blas.Trees.Locality.{AllLeaves, IsApart, IsInjective}
use sycl_blas.Trees.Assignment.{launch-assign}
use sycl_blas.Executor.{Executor, execute}
use sycl_blas.Blas1.{vector_of, run_assign}

-- The element `i` of a vector of `n`, by the convention of BLAS: with a negative increment the first
-- element is the one that lies last.
abbrev pub element : BufferIterator → ℤ → ℕ → ℕ → ℤ
element it inc n i = it.offset +ℤ pos (place inc n i)

-- The vector lies in its buffer.
pub record IsVector (it : BufferIterator) (inc : ℤ) (n : ℕ) : Type 0 where
  pub start : ℕ
  pub at : it.offset ≡ pos start
  pub nonzero : inc ≢ pos 0
  pub enough : (n ≡ 0) ⊎ (1 + (n - 1) * magnitude inc ≤ pos_part (get_size it))

counted : (z : ℤ) → pos_part z ≤ to_size_t z
counted (pos n) = omega arith
counted (negsuc n) = omega arith

module _ {it : BufferIterator} {inc : ℤ} {n : ℕ} (v : IsVector it inc n) where
  in_range : (n ≡ 0) ⊎ (1 + (n - 1) * magnitude inc ≤ to_size_t (get_size it))
  in_range = elim v.enough [
    | inl none_asked ↦ inl none_asked
    | inr fits ↦ let more = counted (get_size it) in inr (omega arith)
  ]

  pub vector_of-size : view_size (vector_of it inc n) ≡ n
  unfolding view_size vector_of make_vector_view get_range_accessor
  vector_of-size = vector_size_lem (get_range_accessor it) it.offset inc n v.nonzero in_range

  pub vector_of-address : (i : ℕ) → i < n → view_address (vector_of it inc n) i ≡ element it inc n i
  unfolding view_address vector_of make_vector_view get_range_accessor
  vector_of-address i h =
      ap (λ o. vector_address (vector_view (get_range_accessor it) o inc n) i) v.at
      ∙ vector_address-place (get_range_accessor it) v.start inc n i v.nonzero in_range h
      ∙ sym (pos-+ℤ v.start (place inc n i))
      ∙ ap (λ o. o +ℤ pos (place inc n i)) (sym v.at)

  -- The view of a vector that lies in its buffer, with an increment of either sign, has as many elements
  -- as were asked for, and reaches the elements of the vector by the convention of BLAS: the first is at
  -- the offset for a positive increment, and the last is there for a negative one.
  pub make_vector_view_lem :
      ((make_vector_view it inc n).size ≡ n)
      × ((i : ℕ) → i < n → vector_address (make_vector_view it inc n) i ≡ element it inc n i)
  unfolding view_size view_address vector_of
  make_vector_view_lem = (vector_of-size, λ i h. vector_of-address i h)

  pub vector_of-IsInjective : IsInjective n (vector_of it inc n)
  vector_of-IsInjective i j hi hj e = place_injective inc n i j v.nonzero hi hj (
      pos_offset_injective it.offset _ _
        (sym (vector_of-address i hi) ∙ e ∙ vector_of-address j hj))

  pub vector_of-name : view_name (vector_of it inc n) ≡ it.buffer.name
  unfolding view_name vector_of make_vector_view vector_view get_range_accessor
  vector_of-name = refl

-- A vector in another buffer than the target's; and the target itself.
module _ (x y : BufferIterator) (incx incy : ℤ) (n : ℕ) where
  pub other-IsApart :
      x.buffer.name ≢ y.buffer.name → IsApart (vector_of y incy n) (vector_of x incx n)
  unfolding view_name vector_of make_vector_view vector_view get_range_accessor
  other-IsApart h = inl h

pub self-IsApart : (v : View) → IsApart v v
self-IsApart v = inr (refl, λ i. refl)

-- The place is no element of the vector.
abbrev pub IsElsewhere : BufferIterator → ℤ → ℕ → ℕ → ℤ → Type 0
IsElsewhere it inc n b a = (i : ℕ) → i < n → ¬ ((b ≡ it.buffer.name) × (a ≡ element it inc n i))

-- Element `i` of the vector, in the memory.
abbrev pub read {ℓ} : {A : Type ℓ} → Store A → BufferIterator → ℤ → ℕ → ℕ → A
read m it inc n i = m it.buffer.name (element it inc n i)

-- The kernel of a tree covers it, whatever the size of the work groups.
pub execute-covers :
    (ex : Executor) (size : ℕ)
    → 0 < ex.work_group_size
    → size ≤ round_up_ratio size ex.work_group_size * ex.work_group_size
execute-covers ex size h = (round_up_ratio_bounds size ex.work_group_size h).0

module _ {ℓ} {A : Type ℓ} (s : Scalar A) (ex : Executor) (some_items : 0 < ex.work_group_size) where
  -- The value of a vector leaf is the element.
  pub eval-vector :
      {it : BufferIterator} {inc : ℤ} {n : ℕ} (v : IsVector it inc n) (m : Store A) (i : ℕ)
      → i < n
      → eval s (leaf (vector_of it inc n)) m i ≡ read m it inc n i
  unfolding eval
  eval-vector {it} {inc} {n} v m i h =
      ap (λ b. m b (view_address (vector_of it inc n) i)) (vector_of-name v)
      ∙ ap (m it.buffer.name) (vector_of-address v i h)

  -- An assignment to a vector.
  pub run_assign_lem :
      {y : BufferIterator} {incy : ℤ} {n : ℕ} (v : IsVector y incy n) (rhs : Expr A) (m : Store A)
      → Trees.get_size rhs ≡ n
      → AllLeaves (IsApart (vector_of y incy n)) rhs
      → ((i : ℕ)
          → i < n
          → read (run_assign s ex (vector_of y incy n) rhs m) y incy n i ≡ eval s rhs m i)
        × ((b : ℕ) (a : ℤ)
            → IsElsewhere y incy n b a
            → run_assign s ex (vector_of y incy n) rhs m b a ≡ m b a)
  unfolding run_assign execute
  run_assign_lem {y} {incy} {n} v rhs m size apart = (
    λ i h.
        ap₂ (λ b a. result b a) (sym (vector_of-name v)) (sym (vector_of-address v i h))
        ∙ all.0 i (omega arith),
    λ b a miss. all.1 b a (λ i h q.
        let h' : i < n = omega arith in
        miss i h' (q.0 ∙ vector_of-name v, q.1 ∙ vector_of-address v i h')),
  )
    where
      result : Store A
      result = execute ex (Trees.get_size rhs) (assign s (vector_of y incy n) rhs) m

      injective : IsInjective (Trees.get_size rhs) (vector_of y incy n)
      injective i j hi hj = vector_of-IsInjective v i j (omega arith) (omega arith)

      all :
          ((i : ℕ)
            → i < Trees.get_size rhs
            → result (view_name (vector_of y incy n)) (view_address (vector_of y incy n) i)
              ≡ eval s rhs m i)
          × ((b : ℕ) (a : ℤ)
              → ((i : ℕ)
                  → i < Trees.get_size rhs
                  → ¬ (
                      (b ≡ view_name (vector_of y incy n))
                      × (a ≡ view_address (vector_of y incy n) i)))
              → result b a ≡ m b a)
      all =
          launch-assign s (vector_of y incy n) rhs _ m apart injective
            (execute-covers ex (Trees.get_size rhs) some_items)
