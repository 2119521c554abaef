-- ===== src/Views/Vector.antt =====
-- Vector views: the elements that a view of a buffer reaches, in either direction.
use mathlib.Core.Path.{ap₂}
use native.Mathlib.Nat.{mul-le-mul_right, lt_of_mul-lt-mul_right, eq_of_mul-eq-mul_right}
use sycl_blas.Base.{
  ℕ, zero, suc, ◌+◌, ◌-◌, ◌*◌, ◌≤◌, ◌<◌, ◌≡◌, ◌≢◌, ◌⊎◌, inl, inr, refl, ap, ◌∙◌, ◌≡⟨◌⟩◌, ◌∎, min,
  arith,
}
use sycl_blas.Base.Int.{
  ℤ, pos, negsuc, neg, ◌+ℤ◌, ◌-ℤ◌, ◌*ℤ◌, int_laws, walk_back, neg-negsuc, pos-*ℤ, pos-*ℤ-negsuc,
}
use sycl_blas.Meta.{round_up_ratio}
use sycl_blas.Meta.Rounding.{round_up_ratio_bounds}
use sycl_blas.Views.{Accessor, vector_view, vector_address, calculate_input_data_size}

-- The distance between neighbours, in elements.
abbrev pub magnitude : ℤ → ℕ
magnitude (pos n) = n
magnitude (negsuc n) = suc n

-- The place of element `i` in the range: forth from the start, or back from the last element.
abbrev pub place : ℤ → ℕ → ℕ → ℕ
place (pos s) size i = i * s
place (negsuc s) size i = (size - 1 - i) * suc s

size_eq :
    (data_ : Accessor) (stride : ℤ) (size : ℕ)
    → calculate_input_data_size data_ stride size
      ≡ min size (round_up_ratio data_.count (magnitude stride))
unfolding calculate_input_data_size
size_eq data_ (pos s) size = refl
size_eq data_ (negsuc s) size = ground arith

far_end :
    (o n i s : ℕ)
    → i < n
    → pos o +ℤ (pos n -ℤ pos 1) *ℤ neg (negsuc s) +ℤ pos i *ℤ negsuc s
      ≡ pos (o + (n - 1 - i) * suc s)
far_end o n i s lt =
    pos o +ℤ (pos n -ℤ pos 1) *ℤ neg (negsuc s) +ℤ pos i *ℤ negsuc s
    ≡⟨ ap₂ (λ m t. pos o +ℤ m *ℤ t +ℤ pos i *ℤ negsuc s) before (neg-negsuc s) ⟩
      pos o +ℤ pos (n - 1 - i + i) *ℤ pos (suc s) +ℤ pos i *ℤ negsuc s
    ≡⟨ ap₂ (λ m t. pos o +ℤ m +ℤ t) (pos-*ℤ (n - 1 - i + i) (suc s)) (pos-*ℤ-negsuc i s) ⟩
      pos o +ℤ pos ((n - 1 - i + i) * suc s) +ℤ neg (pos (i * suc s))
    ≡⟨ walk_back o (n - 1 - i) i (suc s) ⟩ pos (o + (n - 1 - i) * suc s) ∎
  where
    before : pos n -ℤ pos 1 ≡ pos (n - 1 - i + i)
    before = omega int_laws

address_eq :
    (data_ : Accessor) (offset : ℕ) (stride : ℤ) (size i : ℕ)
    → stride ≢ pos 0
    → i < (vector_view data_ (pos offset) stride size).size
    → vector_address (vector_view data_ (pos offset) stride size) i
      ≡ pos (offset + place stride (vector_view data_ (pos offset) stride size).size i)
unfolding vector_view vector_address
address_eq data_ offset (pos zero) size i h lt = absurd (h refl)
address_eq data_ offset (pos (suc s)) size i h lt = unfold ◌+ℤ◌ ◌*ℤ◌ in ground arith
address_eq data_ offset (negsuc s) size i h lt =
    far_end offset (calculate_input_data_size data_ (negsuc s) size) i s lt

pub place_lt : (count m size k : ℕ) → 0 < m → k < min size (round_up_ratio count m) → k * m < count
place_lt count m size k pos_m lt =
    let b = round_up_ratio_bounds count m pos_m in
    let above : (k + 1) * m ≤ round_up_ratio count m * m = mul-le-mul_right m (omega arith) in
    omega arith

place-lt-count :
    (data_ : Accessor) (stride : ℤ) (size i : ℕ)
    → stride ≢ pos 0
    → i < calculate_input_data_size data_ stride size
    → place stride (calculate_input_data_size data_ stride size) i < data_.count
place-lt-count data_ (pos zero) size i h lt = absurd (h refl)
place-lt-count data_ (pos (suc s)) size i h lt =
    place_lt data_.count (suc s) size i (omega arith)
      (omega (arith, size_eq data_ (pos (suc s)) size))
place-lt-count data_ (negsuc s) size i h lt =
    place_lt data_.count (suc s) size (calculate_input_data_size data_ (negsuc s) size - 1 - i)
      (omega arith) (omega (arith, size_eq data_ (negsuc s) size))

pub place_injective :
    (stride : ℤ) (n i j : ℕ)
    → stride ≢ pos 0
    → i < n
    → j < n
    → place stride n i ≡ place stride n j
    → i ≡ j
place_injective (pos zero) n i j h li lj e = absurd (h refl)
place_injective (pos (suc s)) n i j h li lj e = eq_of_mul-eq-mul_right (suc s) (omega arith) i j e
place_injective (negsuc s) n i j h li lj e =
    let back = eq_of_mul-eq-mul_right (suc s) (omega arith) (n - 1 - i) (n - 1 - j) e in omega arith

-- An index of a view with a nonzero increment reads inside the range of its accessor, whatever the
-- size that the view was asked for, and for a start that is not before the buffer's.
pub vector_address_bounds :
    (data_ : Accessor) (offset : ℕ) (stride : ℤ) (size i : ℕ)
    → stride ≢ pos 0
    → i < (vector_view data_ (pos offset) stride size).size
    → (k : ℕ) × (vector_address (vector_view data_ (pos offset) stride size) i ≡ pos (offset + k))
      × (k < data_.count)
unfolding vector_view
vector_address_bounds data_ offset stride size i h lt = (
  place stride (calculate_input_data_size data_ stride size) i,
  address_eq data_ offset stride size i h lt,
  place-lt-count data_ stride size i h lt,
)

enough_ratio :
    (count m size : ℕ)
    → 0 < m
    → (size ≡ 0) ⊎ (1 + (size - 1) * m ≤ count)
    → min size (round_up_ratio count m) ≡ size
enough_ratio count m size pos_m (inl none_asked) = omega arith
enough_ratio count m size pos_m (inr enough) =
    let b = round_up_ratio_bounds count m pos_m in
    let r : size - 1 < round_up_ratio count m = lt_of_mul-lt-mul_right m (omega arith) in
    omega arith

magnitude_pos : (stride : ℤ) → stride ≢ pos 0 → 0 < magnitude stride
magnitude_pos (pos zero) h = absurd (h refl)
magnitude_pos (pos (suc s)) h = omega arith
magnitude_pos (negsuc s) h = omega arith

-- A range that is long enough gives the view the size that it was asked for.
pub vector_size_lem :
    (data_ : Accessor) (disp stride : ℤ) (size : ℕ)
    → stride ≢ pos 0
    → (size ≡ 0) ⊎ (1 + (size - 1) * magnitude stride ≤ data_.count)
    → (vector_view data_ disp stride size).size ≡ size
unfolding vector_view
vector_size_lem data_ disp stride size h enough =
    size_eq data_ stride size
    ∙ enough_ratio data_.count (magnitude stride) size (magnitude_pos stride h) enough

-- Where the range is long enough, element `i` is at its place in the vector asked for.
pub vector_address-place :
    (data_ : Accessor) (offset : ℕ) (stride : ℤ) (size i : ℕ)
    → stride ≢ pos 0
    → (size ≡ 0) ⊎ (1 + (size - 1) * magnitude stride ≤ data_.count)
    → i < size
    → vector_address (vector_view data_ (pos offset) stride size) i
      ≡ pos (offset + place stride size i)
vector_address-place data_ offset stride size i h enough lt =
    let same = vector_size_lem data_ (pos offset) stride size h enough in
    address_eq data_ offset stride size i h (omega arith)
    ∙ ap (λ t. pos (offset + place stride t i)) same
