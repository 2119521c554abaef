-- ===== src/Ger/Owners.antt =====
-- The shares of the items of `GerCol`: each element of the matrix is in the rows of one item and in
-- the columns of its group.
use native.Mathlib.Nat.{div-lt_iff_lt-mul}
use mathlib.Core.Path.{ap₂}
use sycl_blas.Base.{
  ℕ, ◌+◌, ◌-◌, ◌*◌, ◌/◌, ◌%◌, ◌<◌, ◌≤◌, ◌≡◌, ◌⊎◌, inl, inr, true, false, refl, ap, ◌∙◌, arith, ltb,
  ltb→lt, le→ltb, Bool-cases, Bool, leb, if◌then◌else◌, ◌&&◌, ◌||◌, not,
}
use sycl_blas.Base.Division.{split_div}
use sycl_blas.Kernel.Grid
use sycl_blas.Kernel.Grid.{factor_pos, ceiling_covers}
use sycl_blas.Ger.{GerCol, is_updated, is_outside, col_sz, dim_wfr, beside}
use sycl_blas.Base.Scalar.{Scalar}

module _ {ℓ} {A : Type ℓ} (s : Scalar A) (g : GerCol A) (local_sz : ℕ) (items : 0 < local_sz)
    (row_groups : 0 < g.nwg_row_) (col_groups : 0 < g.nwg_col_)
    (covers : g.lhs_.rows < local_sz → g.lhs_.cols ≤ g.nwg_col_ * local_sz) where
  abbrev pub wfr : ℕ
  wfr = dim_wfr s g local_sz

  abbrev pub col_width : ℕ
  col_width = col_sz s g local_sz

  -- The item of an element.
  abbrev pub owner : ℕ → ℕ → ℕ
  owner r c = Grid.owner g.lhs_.rows local_sz g.nwg_row_ items row_groups r (c / col_width)

  cols_covered : g.lhs_.cols ≤ g.nwg_col_ * col_width
  cols_covered = elim (Bool-cases (ltb g.lhs_.rows local_sz)) [
    | inl lt ↦ rw lt (covers (ltb→lt _ _ lt))
    | inr ge ↦ rw ge (let all = ceiling_covers g.lhs_.cols g.nwg_col_ col_groups in omega arith)
  ]

  pub col_group-lt : (c : ℕ) → c < g.lhs_.cols → (0 < col_width) × (c / col_width < g.nwg_col_)
  col_group-lt c h =
      let some = factor_pos g.nwg_col_ col_width (let all = cols_covered in omega arith) in
      (some, (div-lt_iff_lt-mul some).1 (let all = cols_covered in omega arith))

  pub owner-lt :
      (r c : ℕ) → r < g.lhs_.rows → c < g.lhs_.cols → owner r c < local_sz * g.nwg_row_ * g.nwg_col_
  owner-lt r c hr hc =
      Grid.owner-lt g.lhs_.rows local_sz g.nwg_row_ items row_groups r (c / col_width) g.nwg_col_ hr
        (col_group-lt c hc).1

  -- What an item reaches is its own.
  pub owner_lem :
      (i t c : ℕ)
      → t * local_sz < wfr
      → i / local_sz / g.nwg_row_ * col_width ≤ c
      → c < i / local_sz / g.nwg_row_ * col_width + col_width
      → owner (i / local_sz % g.nwg_row_ * wfr + i % local_sz + t * local_sz) c ≡ i
  owner_lem i t c below lo hi =
      let p = i / local_sz / g.nwg_row_ in
      let column : c / col_width ≡ p =
        ap (λ x. x / col_width) {x = c} {y = c - p * col_width + p * col_width} (omega arith)
        ∙ split_div p (c - p * col_width) col_width (omega arith) in
      ap
        (Grid.owner g.lhs_.rows local_sz g.nwg_row_ items row_groups
          (i / local_sz % g.nwg_row_ * wfr + i % local_sz + t * local_sz))
        column
      ∙ Grid.owner_lem g.lhs_.rows local_sz g.nwg_row_ items row_groups i t below

-- The sides of the diagonal on which an element that is updated lies.
sides :
    (lower diag upper : Bool) (beside r c : ℕ)
    → (if lower && upper && diag
        then true
        else lower && leb (c + beside) r || upper && leb (r + beside) c)
      ≡ true
    → ((upper ≡ true) ⊎ (c + beside ≤ r)) × ((lower ≡ true) ⊎ (r + beside ≤ c))
sides true diag true beside r c h = (inl refl, inl refl)
sides true diag false beside r c h = (inr (ground arith), inl refl)
sides false diag true beside r c h = (inl refl, inr (ground arith))
sides false diag false beside r c h = (ground arith, ground arith)

allowed : (side : Bool) (a b : ℕ) → (side ≡ true) ⊎ (b ≤ a) → (not side && ltb a b) ≡ false
allowed side a b (inl e) = rw e
allowed side a b (inr le) = elim (Bool-cases side) [
  | inl on ↦ rw on
  | inr off ↦ rw off (le→ltb a b le)
]

module _ {ℓ} {A : Type ℓ} (s : Scalar A) (g : GerCol A) where
  -- A group that has an element to update is not stopped by the guard.
  pub inside_lem :
      (local_sz row frs_col lst_col r c : ℕ)
      → is_updated s g r c ≡ true
      → row ≤ r
      → r < row + dim_wfr s g local_sz
      → frs_col ≤ c
      → c < lst_col
      → is_outside s g local_sz row frs_col lst_col ≡ false
  inside_lem local_sz row frs_col lst_col r c on lr hr lc hc =
      let at = sides g.lower g.diag g.upper (beside s g) r c on in
      ap₂ (λ x y. x || y)
        (allowed g.upper (row + dim_wfr s g local_sz) (frs_col + beside s g + 1)
          (elim at.0 [ inl e ↦ inl e | inr le ↦ inr (omega arith) ]))
        (allowed g.lower lst_col (row + beside s g + 1)
          (elim at.1 [ inl e ↦ inl e | inr le ↦ inr (omega arith) ]))
