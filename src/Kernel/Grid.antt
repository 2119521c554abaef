-- ===== src/Kernel/Grid.antt =====
-- Kernels whose groups share out the rows of a matrix and, in another direction, its columns: the rows
-- of a group are shared out among its items, which take them `local_sz` apart.
use native.Mathlib.Nat.{mod-lt, mod-add-div', div-lt_iff_lt-mul, mul-le-mul_right}
use mathlib.Core.Path.{ap₂}
use sycl_blas.Base.{
  ℕ, zero, suc, ◌+◌, ◌-◌, ◌*◌, ◌/◌, ◌%◌, ◌<◌, ◌≤◌, ◌≡◌, inl, inr, ap, ◌∙◌, arith, ltb, ltb→lt,
  ltb→le, Bool-cases,
}
use sycl_blas.Base.Division.{split_div, split_mod}

pub factor_pos : (a b : ℕ) → 0 < a * b → 0 < b
factor_pos a zero h = absurd (omega arith)
factor_pos a (suc b) h = omega arith

-- A quotient that is rounded up covers what is divided.
pub ceiling_covers : (a b : ℕ) → 0 < b → a ≤ (a + b - 1) / b * b
ceiling_covers a b h =
    let rest = mod-lt (a + b - 1) h in let back = mod-add-div' (a + b - 1) b in omega arith

pub product_pos : (a b : ℕ) → 0 < a → 0 < b → 0 < a * b
product_pos (suc a) (suc b) h k = omega arith
product_pos zero b h k = absurd (omega arith)
product_pos (suc a) zero h k = absurd (omega arith)

-- A multiple below a multiple leaves room for a remainder.
pub room : (l t x q : ℕ) → x < l → t * l < q * l → x + t * l < q * l
room l t x q h k = elim (Bool-cases (ltb t q)) [
  | inl lt ↦
      let below = ltb→lt t q lt in
      let more : (t + 1) * l ≤ q * l = mul-le-mul_right l (omega arith) in omega arith
  | inr ge ↦
      let above = ltb→le t q ge in
      let less : q * l ≤ t * l = mul-le-mul_right l above in absurd (omega arith)
]

module _ (rows local_sz nwg_row : ℕ) (items : 0 < local_sz) (row_groups : 0 < nwg_row) where
  -- The rows of a group, a multiple of its items.
  abbrev pub wfr : ℕ
  wfr = (rows + local_sz * nwg_row - 1) / (local_sz * nwg_row) * local_sz

  -- The item of a row, in the groups at `w` in the other direction.
  abbrev pub owner : ℕ → ℕ → ℕ
  owner r w = r % wfr % local_sz + (r / wfr + w * nwg_row) * local_sz

  rows_covered : rows ≤ nwg_row * wfr
  rows_covered =
      let all =
        ceiling_covers rows (local_sz * nwg_row) (product_pos local_sz nwg_row items row_groups) in
      omega arith

  pub row_group-lt : (r : ℕ) → r < rows → (0 < wfr) × (r / wfr < nwg_row)
  row_group-lt r h =
      let some = factor_pos nwg_row wfr (let all = rows_covered in omega arith) in
      (some, (div-lt_iff_lt-mul some).1 (let all = rows_covered in omega arith))

  pub owner-lt :
      (r w nwg_col : ℕ) → r < rows → w < nwg_col → owner r w < local_sz * nwg_row * nwg_col
  owner-lt r w nwg_col hr hw =
      let rest = mod-lt (r % wfr) items in
      let row = (row_group-lt r hr).1 in
      let groups : (w + 1) * nwg_row ≤ nwg_col * nwg_row = mul-le-mul_right nwg_row (omega arith) in
      let all : (r / wfr + w * nwg_row + 1) * local_sz ≤ nwg_col * nwg_row * local_sz =
        mul-le-mul_right local_sz (omega arith) in
      omega arith

  -- The place of an item: its index in the group, and the group in both directions.
  pub owner_place :
      (r w : ℕ)
      → r < rows
      → (owner r w % local_sz ≡ r % wfr % local_sz)
        × (owner r w / local_sz % nwg_row ≡ r / wfr)
        × (owner r w / local_sz / nwg_row ≡ w)
  owner_place r w h =
      let rest = mod-lt (r % wfr) items in
      let row = (row_group-lt r h).1 in
      let group = split_div (r / wfr + w * nwg_row) (r % wfr % local_sz) local_sz rest in
      (
        split_mod (r / wfr + w * nwg_row) (r % wfr % local_sz) local_sz rest,
        ap (λ x. x % nwg_row) group ∙ split_mod w (r / wfr) nwg_row row,
        ap (λ x. x / nwg_row) group ∙ split_div w (r / wfr) nwg_row row,
      )

  -- The row that an item reaches after some steps in the rows of its group.
  pub owner_row : (r : ℕ) → r / wfr * wfr + r % wfr % local_sz + r % wfr / local_sz * local_sz ≡ r
  owner_row r =
      let inside = mod-add-div' (r % wfr) local_sz in let back = mod-add-div' r wfr in omega arith

  -- What an item reaches is its own.
  pub owner_lem :
      (i t : ℕ)
      → t * local_sz < wfr
      → owner (i / local_sz % nwg_row * wfr + i % local_sz + t * local_sz) (i / local_sz / nwg_row)
        ≡ i
  owner_lem i t below =
      let q = (rows + local_sz * nwg_row - 1) / (local_sz * nwg_row) in
      let local = mod-lt i items in
      let p = i / local_sz % nwg_row in
      let inside = room local_sz t (i % local_sz) q local below in
      let r = p * wfr + i % local_sz + t * local_sz in
      let split : r ≡ i % local_sz + t * local_sz + p * wfr = omega arith in
      let rest : r % wfr ≡ i % local_sz + t * local_sz =
        ap (λ x. x % wfr) split ∙ split_mod p (i % local_sz + t * local_sz) wfr inside in
      let block : r / wfr ≡ p =
        ap (λ x. x / wfr) split ∙ split_div p (i % local_sz + t * local_sz) wfr inside in
      ap₂ (λ x y. x % local_sz + y * local_sz) rest
        (ap (λ x. x + i / local_sz / nwg_row * nwg_row) block ∙ mod-add-div' (i / local_sz) nwg_row)
      ∙ ap (λ x. x + i / local_sz * local_sz) (split_mod t (i % local_sz) local_sz local)
      ∙ mod-add-div' i local_sz
