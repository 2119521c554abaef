-- ===== src/Views/Matrix.antt =====
-- Matrix views: the elements that a matrix view reaches by row and column, and by one index.
use native.Mathlib.Nat.{
  mul-le-mul_left, eq_of_mul-eq-mul_left, add-mul-mod_self_left, mod-eq_of_lt, add-mul-div_left,
  div-eq_of_lt, zero-add, mul-div-le,
}
use sycl_blas.Base.{ℕ, ◌+◌, ◌-◌, ◌*◌, ◌/◌, ◌%◌, ◌≤◌, ◌<◌, ◌≡◌, refl, sym, ap, ◌∙◌, arith}
use sycl_blas.Base.Int.{pos, ◌+ℤ◌, int_laws, pos_offset_injective}
use sycl_blas.Views.{
  MatrixView, Layout, row_major, col_major, matrix_address, linear_address, pointer_address,
}

-- The two indices, the one that runs along the leading dimension first.
abbrev pub inner : Layout → ℕ → ℕ → ℕ
inner row_major i j = j
inner col_major i j = i

abbrev pub outer : Layout → ℕ → ℕ → ℕ
outer row_major i j = i
outer col_major i j = j

-- The leading dimension is at least the length of what it separates.
abbrev pub IsWide : MatrixView → Type 0
IsWide m = inner m.layout m.rows m.cols ≤ m.leading

address_eq :
    (m : MatrixView) (i j : ℕ)
    → matrix_address m i j ≡ m.disp +ℤ pos (inner m.layout i j + m.leading * outer m.layout i j)
unfolding matrix_address
address_eq m i j = by_layout m.layout refl
  where
    by_layout :
        (l : Layout)
        → m.layout ≡ l
        → matrix_address m i j ≡ m.disp +ℤ pos (inner m.layout i j + m.leading * outer m.layout i j)
    by_layout row_major e = rw e (omega int_laws)
    by_layout col_major e = rw e (omega int_laws)

-- A place inside a rectangle of lines determines the line and the place in it.
pub flat_injective : (l a b c d : ℕ) → a < l → c < l → a + l * b ≡ c + l * d → (a ≡ c) × (b ≡ d)
flat_injective l a b c d ha hc e =
    (inside, eq_of_mul-eq-mul_left l (omega arith) b d (omega (arith, inside)))
  where
    inside : a ≡ c
    inside =
        sym (add-mul-mod_self_left a l b ∙ mod-eq_of_lt ha)
        ∙ ap (λ t. t % l) e
        ∙ add-mul-mod_self_left c l d
        ∙ mod-eq_of_lt hc

-- Distinct entries of a matrix view with a wide enough leading dimension are distinct elements.
pub matrix_address_injective :
    (m : MatrixView) (i j i' j' : ℕ)
    → IsWide m
    → (i < m.rows) × (j < m.cols)
    → (i' < m.rows) × (j' < m.cols)
    → matrix_address m i j ≡ matrix_address m i' j'
    → (i ≡ i') × (j ≡ j')
matrix_address_injective m i j i' j' wide (hi, hj) (hi', hj') e =
    by_layout m.layout wide
      (pos_offset_injective m.disp _ _ (sym (address_eq m i j) ∙ e ∙ address_eq m i' j'))
  where
    by_layout :
        (l : Layout)
        → inner l m.rows m.cols ≤ m.leading
        → inner l i j + m.leading * outer l i j ≡ inner l i' j' + m.leading * outer l i' j'
        → (i ≡ i') × (j ≡ j')
    by_layout row_major w q =
        let r = flat_injective m.leading j i j' i' (omega arith) (omega arith) q in (r.1, r.0)
    by_layout col_major w q = flat_injective m.leading i j i' j' (omega arith) (omega arith) q

-- All entries lie in one stretch that starts at the displacement: the lines but the last take the
-- leading dimension each, the last its own length.
pub matrix_address_bounds :
    (m : MatrixView) (i j : ℕ)
    → (i < m.rows) × (j < m.cols)
    → (k : ℕ) × (matrix_address m i j ≡ m.disp +ℤ pos k)
      × (k < m.leading * (outer m.layout m.rows m.cols - 1) + inner m.layout m.rows m.cols)
matrix_address_bounds m i j (hi, hj) =
    (inner m.layout i j + m.leading * outer m.layout i j, address_eq m i j, by_layout m.layout)
  where
    stretch : (a b x y : ℕ) → a < x → b < y → a + m.leading * b < m.leading * (y - 1) + x
    stretch a b x y ha hb =
        let h : m.leading * b ≤ m.leading * (y - 1) = mul-le-mul_left m.leading (omega arith) in
        omega arith

    by_layout :
        (l : Layout)
        → inner l i j + m.leading * outer l i j
          < m.leading * (outer l m.rows m.cols - 1) + inner l m.rows m.cols
    by_layout row_major = stretch j i m.cols m.rows hj hi
    by_layout col_major = stretch i j m.rows m.cols hi hj

-- One index counts the entries down the columns, in either layout.
pub linear_address_lem :
    (m : MatrixView) (i j : ℕ)
    → i < m.rows
    → linear_address m (i + m.rows * j) ≡ matrix_address m i j
unfolding linear_address
linear_address_lem m i j h =
    ap (λ t. matrix_address m (i + m.rows * j - m.rows * t) t) column
    ∙ ap (λ t. matrix_address m t j) {x = i + m.rows * j - m.rows * j} (omega arith)
  where
    column : (i + m.rows * j) / m.rows ≡ j
    column = add-mul-div_left i j (omega arith) ∙ ap (λ t. t + j) (div-eq_of_lt h) ∙ zero-add j

-- Where the columns touch, the linear index is the distance from the start: `eval(indx)` and
-- `eval<true>(indx)` are the same element.
linear_address-pointer_address :
    (m : MatrixView) (indx : ℕ)
    → m.layout ≡ col_major
    → m.leading ≡ m.rows
    → linear_address m indx ≡ pointer_address m indx
unfolding linear_address pointer_address
linear_address-pointer_address m indx col touch =
    address_eq m (indx - m.rows * (indx / m.rows)) (indx / m.rows) ∙ ap (λ t. m.disp +ℤ pos t) place
  where
    place :
        inner m.layout (indx - m.rows * (indx / m.rows)) (indx / m.rows)
          + m.leading * outer m.layout (indx - m.rows * (indx / m.rows)) (indx / m.rows)
        ≡ indx
    place = rw (col, touch) (omega (arith, mul-div-le indx m.rows))
