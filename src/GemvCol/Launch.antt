-- ===== src/GemvCol/Launch.antt =====
-- `GemvCol` as a kernel: the items of the groups together.
use native.Mathlib.Nat.{mod-lt, mod-add-div', div-lt_iff_lt-mul}
use mathlib.Core.Path.{ap₂}
use sycl_blas.Base.{
  ℕ, ◌+◌, ◌-◌, ◌*◌, ◌/◌, ◌%◌, ◌<◌, ◌≡◌, ◌≢◌, true, Bool, inl, inr, refl, sym, ap, ◌∙◌, arith,
  Bool-cases, min, not, ltb, ◌==◌, ◌&&◌, ◌||◌, if◌then◌else◌, if_yes, if_no, List,
}
use sycl_blas.Base.Int.{ℤ}
use sycl_blas.Base.Scalar.{Scalar, IsExact}
use sycl_blas.Base.Matrices.{total, total_congr, total_zero}
use sycl_blas.Views.{Store, matrix_address}
use sycl_blas.Views.Matrix.{IsWide, matrix_address_injective}
use sycl_blas.Kernel.{Write, apply_all, launch}
use sycl_blas.Kernel.Grid
use sycl_blas.Kernel.Cells.{launch-items}
use sycl_blas.GemvCol.{GemvCol, is_factor, rowid_loop, blocks_loop, gemv_col_eval}
use sycl_blas.GemvCol.Sums.{row_term}
use sycl_blas.GemvCol.Guard.{skipped}
use sycl_blas.GemvCol.Rows.{IsRow, rows_lem}
use sycl_blas.GemvCol.Blocks.{row_term_frame, blocks_lem}

module _ {ℓ} {A : Type ℓ} {s : Scalar A} (exact : IsExact s) (g : GemvCol) where
  abbrev col_sz : ℕ
  col_sz = (g.matrix_.cols + g.nwg_col_ - 1) / g.nwg_col_

  abbrev frs_col : ℕ → ℕ
  frs_col w = w * col_sz

  abbrev lst_col : ℕ → ℕ
  lst_col w = min g.matrix_.cols (frs_col w + col_sz)

  -- The share of the columns of a group in the product of a row.
  abbrev pub share : Store A → ℕ → ℕ → A
  share st r w = total exact (lst_col w - frs_col w) (λ k. row_term exact g st r (frs_col w + k))

module _ {ℓ} {A : Type ℓ} {s : Scalar A} (exact : IsExact s) (g : GemvCol)
    (other_a : g.matrix_.data_.name ≢ g.lhs_.data_.name)
    (other_x : g.vector_.data_.name ≢ g.lhs_.data_.name) (wide : IsWide g.lhs_)
    (rows : g.lhs_.rows ≡ g.matrix_.rows) (cols : g.lhs_.cols ≡ g.nwg_col_) (local_sz : ℕ)
    (items : 0 < local_sz) (row_groups : 0 < g.nwg_row_) (blocks : 0 < g.local_memory_size_)
    (some_cols : (w : ℕ)
      → w < g.nwg_col_
      → w * ((g.matrix_.cols + g.nwg_col_ - 1) / g.nwg_col_) < g.matrix_.cols)
    (start : ℕ → A) where
  abbrev wfr : ℕ
  wfr = Grid.wfr g.matrix_.rows local_sz g.nwg_row_ items row_groups

  abbrev column : ℕ → ℕ
  column i = i / local_sz / g.nwg_row_

  abbrev frs_row : ℕ → ℕ
  frs_row i = i / local_sz % g.nwg_row_ * wfr + i % local_sz

  abbrev lst_row : ℕ → ℕ
  lst_row i = min g.matrix_.rows (frs_row i + wfr)

  abbrev stops : ℕ → Bool
  stops i =
      not g.upper
        && ltb (i / local_sz % g.nwg_row_ * wfr + wfr)
            (frs_col exact g (column i) + (if not g.diag then 1 else 0) + 1)
      || not g.lower
        && ltb (lst_col exact g (column i))
            (i / local_sz % g.nwg_row_ * wfr + (if not g.diag then 1 else 0) + 1)

  abbrev zeros : ℕ → List (Write A)
  zeros i =
      rowid_loop s g (λ rowid. s.zero) local_sz (column i) (lst_row i) (lst_row i - frs_row i)
        (frs_row i)

  abbrev sums : ℕ → Store A → List (Write A)
  sums i st =
      blocks_loop s g local_sz (column i) (frs_row i) (lst_row i) (frs_col exact g (column i))
        (lst_col exact g (column i)) (lst_col exact g (column i) - frs_col exact g (column i))
        (frs_col exact g (column i)) start st

  eval_lem :
      (i : ℕ) (st : Store A)
      → gemv_col_eval s g start local_sz i st ≡ (if stops i then zeros i else sums i st)
  unfolding gemv_col_eval
  eval_lem i st = refl

  column-lt : (i : ℕ) → i < local_sz * g.nwg_row_ * g.nwg_col_ → column i < g.nwg_col_
  column-lt i h = (div-lt_iff_lt-mul row_groups).1 ((div-lt_iff_lt-mul items).1 (omega arith))

  one_to_one :
      (w r r' : ℕ)
      → w < g.nwg_col_
      → r < g.matrix_.rows
      → r' < g.matrix_.rows
      → matrix_address g.lhs_ r w ≡ matrix_address g.lhs_ r' w
      → r ≡ r'
  one_to_one w r r' hw h h' e =
      (matrix_address_injective g.lhs_ r w r' w wide (omega arith, omega arith)
        (omega arith, omega arith) e).0

  module _ (i : ℕ) (st : Store A) (inside : column i < g.nwg_col_) where
    abbrev own_rows :
        (r r' : ℕ)
        → r < lst_row i
        → r' < lst_row i
        → matrix_address g.lhs_ r (column i) ≡ matrix_address g.lhs_ r' (column i)
        → r ≡ r'
    own_rows r r' h h' = one_to_one (column i) r r' inside (omega arith) (omega arith)

    abbrev Row : ℕ → Type 0
    Row = IsRow s g local_sz (column i) (frs_row i) (lst_row i) items own_rows

    skipped_share : stops i ≡ true → (r : ℕ) → Row r → s.zero ≡ share exact g st r (column i)
    skipped_share stop r row = sym (
        total_zero exact (lst_col exact g (column i) - frs_col exact g (column i))
          (λ k. row_term exact g st r (frs_col exact g (column i) + k))
          (λ k h.
            let at =
              skipped g.lower g.diag g.upper g.unit (i / local_sz % g.nwg_row_ * wfr) wfr
                (frs_col exact g (column i)) (lst_col exact g (column i)) r
                (frs_col exact g (column i) + k) stop (let e = row.1 in omega arith)
                (let e = row.1 in
                  let below = row.2 in
                  let rest =
                    Grid.room local_sz row.0 (i % local_sz)
                      ((g.matrix_.rows + local_sz * g.nwg_row_ - 1) / (local_sz * g.nwg_row_))
                      (mod-lt i items) (omega arith) in
                  omega arith)
                (omega arith) (omega arith) in
            ap₂ s.add (if_no (is_factor s g r (frs_col exact g (column i) + k)) _ _ at.0)
              (if_no (g.diag && g.unit && r == frs_col exact g (column i) + k) _ _ at.1)
            ∙ exact.zero-add s.zero))

    item_lem :
        ((r : ℕ)
          → Row r
          → apply_all
              (gemv_col_eval s g start local_sz i st)
              st
              g.lhs_.data_.name
              (matrix_address g.lhs_ r (column i))
            ≡ share exact g st r (column i))
        × ((b : ℕ) (a : ℤ)
            → ((r : ℕ)
                → Row r
                → ¬ ((b ≡ g.lhs_.data_.name) × (a ≡ matrix_address g.lhs_ r (column i))))
            → apply_all (gemv_col_eval s g start local_sz i st) st b a ≡ st b a)
    item_lem = elim (Bool-cases (stops i)) [
      | inl stop ↦
          let all =
            rows_lem s g local_sz (column i) (frs_row i) (lst_row i) items own_rows
              (λ rowid. s.zero) st in
          let same = eval_lem i st ∙ if_yes (stops i) (zeros i) (sums i st) stop in
          (
            λ r row.
                ap (λ ws. apply_all ws st g.lhs_.data_.name (matrix_address g.lhs_ r (column i)))
                  same
                ∙ all.0 r row
                ∙ skipped_share stop r row,
            λ b a outside. ap (λ ws. apply_all ws st b a) same ∙ all.1 b a outside,
          )
      | inr go ↦
          let some = some_cols (column i) inside in
          let some_size : 0 < col_sz exact g =
            let all = Grid.ceiling_covers g.matrix_.cols g.nwg_col_ (omega arith) in
            Grid.factor_pos g.nwg_col_ (col_sz exact g) (omega arith) in
          let all =
            blocks_lem exact g other_a other_x local_sz (column i) (frs_row i) (lst_row i) items
              own_rows (frs_col exact g (column i)) (lst_col exact g (column i)) blocks st
              (lst_col exact g (column i) - frs_col exact g (column i)) (frs_col exact g (column i))
              start st (omega arith) (omega arith) (omega arith) (λ b a _. refl, inl refl) in
          let same = eval_lem i st ∙ if_no (stops i) (zeros i) (sums i st) go in
          (
            λ r row.
                ap (λ ws. apply_all ws st g.lhs_.data_.name (matrix_address g.lhs_ r (column i)))
                  same
                ∙ all.0 r row,
            λ b a outside. ap (λ ws. apply_all ws st b a) same ∙ all.1 b a outside,
          )
    ]

  abbrev Valid : ℕ × ℕ → Type 0
  Valid k = (k.0 < g.matrix_.rows) × (k.1 < g.nwg_col_)

  abbrev addr : ℕ × ℕ → ℤ
  addr k = matrix_address g.lhs_ k.0 k.1

  abbrev owner : ℕ × ℕ → ℕ
  owner k = Grid.owner g.matrix_.rows local_sz g.nwg_row_ items row_groups k.0 k.1

  item_own :
      (k : ℕ × ℕ) (st : Store A)
      → Valid k
      → apply_all (gemv_col_eval s g start local_sz (owner k) st) st g.lhs_.data_.name (addr k)
        ≡ share exact g st k.0 k.1
  item_own k st valid =
      let at =
        Grid.owner_place g.matrix_.rows local_sz g.nwg_row_ items row_groups k.0 k.1 valid.0 in
      let back = Grid.owner_row g.matrix_.rows local_sz g.nwg_row_ items row_groups k.0 in
      let some =
        (Grid.row_group-lt g.matrix_.rows local_sz g.nwg_row_ items row_groups k.0 valid.0).0 in
      let row_at : owner k / local_sz % g.nwg_row_ * wfr ≡ k.0 / wfr * wfr =
        ap (λ x. x * wfr) at.1 in
      let rest = mod-lt k.0 some in
      let whole = mod-add-div' k.0 wfr in
      let inside : column (owner k) < g.nwg_col_ = let w = valid.1 in omega (arith, at.2) in
      ap
        (λ w.
          apply_all (gemv_col_eval s g start local_sz (owner k) st) st g.lhs_.data_.name
            (matrix_address g.lhs_ k.0 w))
        (sym at.2)
      ∙ (item_lem (owner k) st inside).0 k.0 (
        k.0 % wfr / local_sz,
        omega (arith, row_at, at.0, back),
        (let r = valid.0 in omega (arith, row_at, at.0, back, rest, whole)),
      )
      ∙ ap (share exact g st k.0) at.2

  item_other :
      (i : ℕ) (st : Store A) (b : ℕ) (a : ℤ)
      → i < local_sz * g.nwg_row_ * g.nwg_col_
      → ((k : ℕ × ℕ) → Valid k → owner k ≡ i → ¬ ((b ≡ g.lhs_.data_.name) × (a ≡ addr k)))
      → apply_all (gemv_col_eval s g start local_sz i st) st b a ≡ st b a
  item_other i st b a h miss = (item_lem i st (column-lt i h)).1 b a (λ r row q.
      let e = row.1 in
      let below = row.2 in
      miss (r, column i) (omega arith, column-lt i h)
        (ap (λ r. owner (r, column i)) e
          ∙ Grid.owner_lem g.matrix_.rows local_sz g.nwg_row_ items row_groups i row.0
              (omega arith))
        q)

  -- The kernel leaves in each row and column of its result the share of that group's columns in the
  -- product of the row, with the elements that the triangle and its diagonal take in, and changes
  -- nothing else.
  pub gemv_col_lem :
      (st : Store A)
      → ((r w : ℕ)
          → r < g.matrix_.rows
          → w < g.nwg_col_
          → launch
              (local_sz * g.nwg_row_ * g.nwg_col_)
              (gemv_col_eval s g start local_sz)
              st
              g.lhs_.data_.name
              (matrix_address g.lhs_ r w)
            ≡ share exact g st r w)
        × ((b : ℕ) (a : ℤ)
            → ((r w : ℕ)
                → r < g.matrix_.rows
                → w < g.nwg_col_
                → ¬ ((b ≡ g.lhs_.data_.name) × (a ≡ matrix_address g.lhs_ r w)))
            → launch (local_sz * g.nwg_row_ * g.nwg_col_) (gemv_col_eval s g start local_sz) st b a
              ≡ st b a)
  gemv_col_lem st =
      let all =
        launch-items g.lhs_.data_.name Valid addr owner (λ k st. share exact g st k.0 k.1)
          (local_sz * g.nwg_row_ * g.nwg_col_) (gemv_col_eval s g start local_sz)
          (λ k st valid _. item_own k st valid) item_other
          (λ k st st' _ same _.
            total_congr exact (lst_col exact g k.1 - frs_col exact g k.1) _ _ (λ c _.
              row_term_frame exact g other_a other_x st st' k.0 (frs_col exact g k.1 + c) same))
          (λ k l hk hl e.
            let same =
              matrix_address_injective g.lhs_ k.0 k.1 l.0 l.1 wide (omega arith, omega arith)
                (omega arith, omega arith) e in
            ap₂ (λ x y. (x, y)) same.0 same.1)
          st in
      (
        λ r w hr hw.
            all.0 (r, w) (hr, hw)
              (Grid.owner-lt g.matrix_.rows local_sz g.nwg_row_ items row_groups r w g.nwg_col_ hr
                hw),
        λ b a miss. all.1 b a (λ k hk q. miss k.0 k.1 hk.0 hk.1 q),
      )
