-- ===== src/Ger/Launch.antt =====
-- `GerCol` as a kernel: the items of the groups together.
use native.Mathlib.Nat.{mod-lt, mod-add-div'}
use mathlib.Core.Path.{ap₂, subst}
use sycl_blas.Base.{
  ℕ, ◌+◌, ◌*◌, ◌/◌, ◌%◌, ◌<◌, ◌≤◌, ◌≡◌, ◌≢◌, true, inl, inr, refl, sym, ap, ◌∙◌, arith, Bool-cases,
  min, ◌-◌, if◌then◌else◌, if_yes, if_no, Bool, false, List, [],
}
use sycl_blas.Base.Int.{ℤ}
use sycl_blas.Base.Scalar.{Scalar}
use sycl_blas.Views.{Store, matrix_address, vector_eval}
use sycl_blas.Views.Matrix.{IsWide, matrix_address_injective}
use sycl_blas.Kernel.{Write, All, launch}
use sycl_blas.Kernel.Grid
use sycl_blas.Kernel.Cells.{Any, At, IsUpdate, launch-cells}
use sycl_blas.Ger.{GerCol, block, is_updated, is_outside, ger_eval, colid_loop}
use sycl_blas.Ger.Fill.{addend}
use sycl_blas.Ger.Loops.{colid_loop-All, colid_loop-Any}
use sycl_blas.Ger.Owners.{wfr, col_width, owner, col_group-lt, owner-lt, owner_lem, inside_lem}

module _ {ℓ} {A : Type ℓ} (s : Scalar A) (g : GerCol A) (local_sz : ℕ)
    (other_1 : g.rhs_1_.data_.name ≢ g.lhs_.data_.name)
    (other_2 : g.rhs_2_.data_.name ≢ g.lhs_.data_.name) (wide : IsWide g.lhs_)
    (items : 0 < local_sz) (row_groups : 0 < g.nwg_row_) (col_groups : 0 < g.nwg_col_)
    (covers : g.lhs_.rows < local_sz → g.lhs_.cols ≤ g.nwg_col_ * local_sz) (blocks : 0 < block s g)
    (start : ℕ → A) where
  abbrev Valid : ℕ × ℕ → Type 0
  Valid k = (k.0 < g.lhs_.rows) × (k.1 < g.lhs_.cols) × (is_updated s g k.0 k.1 ≡ true)

  abbrev addr : ℕ × ℕ → ℤ
  addr k = matrix_address g.lhs_ k.0 k.1

  abbrev item : ℕ × ℕ → ℕ
  item k = owner s g local_sz items row_groups col_groups covers k.0 k.1

  abbrev value : ℕ × ℕ → Store A → A
  value k st = s.add (st g.lhs_.data_.name (addr k)) (addend s g st k.0 k.1)

  abbrev wfr_ : ℕ
  wfr_ = wfr s g local_sz items row_groups col_groups covers

  abbrev width_ : ℕ
  width_ = col_width s g local_sz items row_groups col_groups covers

  abbrev i_row : ℕ → ℕ
  i_row i = i / local_sz % g.nwg_row_ * wfr_

  abbrev row_start : ℕ → ℕ
  row_start i = i_row i + i % local_sz

  abbrev row_end : ℕ → ℕ
  row_end i = min g.lhs_.rows (row_start i + wfr_)

  abbrev col_start : ℕ → ℕ
  col_start i = i / local_sz / g.nwg_row_ * width_

  abbrev col_end : ℕ → ℕ
  col_end i = min g.lhs_.cols (col_start i + width_)

  abbrev stops : ℕ → Bool
  stops i = is_outside s g local_sz (i_row i) (col_start i) (col_end i)

  abbrev loops : ℕ → Store A → List (Write A)
  loops i st =
      colid_loop s g st local_sz (row_start i) (row_end i) (col_end i) (col_end i - col_start i)
        (col_start i) start

  ger_eval_lem :
      (i : ℕ) (st : Store A)
      → ger_eval s g start local_sz i st ≡ (if stops i then [] else loops i st)
  unfolding ger_eval
  ger_eval_lem i st = refl

  sound :
      (i : ℕ) (st : Store A)
      → All
          (IsUpdate g.lhs_.data_.name Valid addr item value i st)
          (ger_eval s g start local_sz i st)
  sound i st =
      subst (All (IsUpdate g.lhs_.data_.name Valid addr item value i st)) (sym (ger_eval_lem i st))
        (elim (Bool-cases (stops i)) [
          | inl out ↦ rw out tt
          | inr go ↦ rw go (
              colid_loop-All s g st local_sz (row_start i) (row_end i) (col_end i) items
                (IsUpdate g.lhs_.data_.name Valid addr item value i st) (col_start i)
                (λ t c below lo hi on. (
                  (row_start i + t * local_sz, c),
                  (omega arith, omega arith, on),
                  owner_lem s g local_sz items row_groups col_groups covers i t c (omega arith) lo
                      (omega arith),
                  refl,
                  refl,
                  refl,
                ))
                (col_end i - col_start i) (col_start i) start (omega arith))
        ])

  complete :
      (k : ℕ × ℕ) (st : Store A)
      → Valid k
      → Any (At g.lhs_.data_.name (addr k)) (ger_eval s g start local_sz (item k) st)
  complete k st valid =
      let r = k.0 in
      let c = k.1 in
      let at =
        Grid.owner_place g.lhs_.rows local_sz g.nwg_row_ items row_groups r (c / width_) valid.0 in
      let t = r % wfr_ / local_sz in
      let some_rows =
        (Grid.row_group-lt g.lhs_.rows local_sz g.nwg_row_ items row_groups r valid.0).0 in
      let some_cols = (col_group-lt s g local_sz items row_groups col_groups covers c valid.1).0 in
      let row_back = mod-add-div' r wfr_ in
      let col_back = mod-add-div' c width_ in
      let row_rest = mod-lt r some_rows in
      let col_rest = mod-lt c some_cols in
      let col_at : col_start (item k) ≡ c / width_ * width_ = ap (λ x. x * width_) at.2 in
      let row_at : i_row (item k) ≡ r / wfr_ * wfr_ = ap (λ x. x * wfr_) at.1 in
      let here : row_start (item k) + t * local_sz ≡ r =
        ap₂ (λ x y. x + y + t * local_sz) row_at at.0
        ∙ Grid.owner_row g.lhs_.rows local_sz g.nwg_row_ items row_groups r in
      subst (Any (At g.lhs_.data_.name (addr k))) (sym (ger_eval_lem (item k) st)) (
        let go : stops (item k) ≡ false =
          inside_lem s g local_sz (i_row (item k)) (col_start (item k)) (col_end (item k)) r c
            valid.2 (omega (arith, row_at)) (omega (arith, row_at)) (omega (arith, col_at))
            (omega (arith, col_at)) in
        rw go (
          colid_loop-Any s g st local_sz (row_start (item k)) (row_end (item k)) (col_end (item k))
            items (At g.lhs_.data_.name (addr k)) t c (ap (λ r. is_updated s g r c) here ∙ valid.2)
            (refl, ap (λ r. matrix_address g.lhs_ r c) here)
            (let below = valid.0 in omega (arith, here)) (omega (arith, col_at)) blocks
            (col_end (item k) - col_start (item k)) (col_start (item k)) start (omega arith)
            (omega (arith, col_at))))

  pair_injective :
      (k l : ℕ × ℕ)
      → (k.0 < g.lhs_.rows) × (k.1 < g.lhs_.cols)
      → (l.0 < g.lhs_.rows) × (l.1 < g.lhs_.cols)
      → addr k ≡ addr l
      → k ≡ l
  pair_injective k l hk hl e =
      let same = matrix_address_injective g.lhs_ k.0 k.1 l.0 l.1 wide hk hl e in
      ap₂ (λ x y. (x, y)) same.0 same.1

  frame :
      (k : ℕ × ℕ) (st st' : Store A)
      → ((b : ℕ) (a : ℤ) → b ≢ g.lhs_.data_.name → st b a ≡ st' b a)
      → st g.lhs_.data_.name (addr k) ≡ st' g.lhs_.data_.name (addr k)
      → value k st ≡ value k st'
  unfolding vector_eval
  frame k st st' same own =
      let first : (i : ℕ) → vector_eval g.rhs_1_ st i ≡ vector_eval g.rhs_1_ st' i =
        λ i. same g.rhs_1_.data_.name _ other_1 in
      let second : (i : ℕ) → vector_eval g.rhs_2_ st i ≡ vector_eval g.rhs_2_ st' i =
        λ i. same g.rhs_2_.data_.name _ other_2 in
      ap₂ s.add own (elim (Bool-cases g.is_single) [
        | inl one ↦ rw (one, first k.0, second k.1)
        | inr two ↦ rw (two, first k.0, second k.1, first k.1, second k.0)
      ])

  -- The kernel adds to each element that it is to update, in the given rows and columns, its product
  -- of the memory before, and changes nothing else.
  pub ger_launch_lem :
      (st : Store A)
      → ((r c : ℕ)
          → r < g.lhs_.rows
          → c < g.lhs_.cols
          → launch
              (local_sz * g.nwg_row_ * g.nwg_col_)
              (ger_eval s g start local_sz)
              st
              g.lhs_.data_.name
              (matrix_address g.lhs_ r c)
            ≡ (if is_updated s g r c
                then s.add (st g.lhs_.data_.name (matrix_address g.lhs_ r c)) (addend s g st r c)
                else st g.lhs_.data_.name (matrix_address g.lhs_ r c)))
        × ((b : ℕ) (a : ℤ)
            → ((r c : ℕ)
                → r < g.lhs_.rows
                → c < g.lhs_.cols
                → ¬ ((b ≡ g.lhs_.data_.name) × (a ≡ matrix_address g.lhs_ r c)))
            → launch (local_sz * g.nwg_row_ * g.nwg_col_) (ger_eval s g start local_sz) st b a
              ≡ st b a)
  ger_launch_lem st =
      let all =
        launch-cells g.lhs_.data_.name Valid addr item value (local_sz * g.nwg_row_ * g.nwg_col_)
          (ger_eval s g start local_sz) (λ i st _. sound i st) complete
          (λ k st st' _ same own. frame k st st' same own)
          (λ k l hk hl e. pair_injective k l (hk.0, hk.1) (hl.0, hl.1) e) st in
      (
        λ r c hr hc. elim (Bool-cases (is_updated s g r c)) [
          | inl on ↦
              all.0 (r, c) (hr, hc, on)
                (owner-lt s g local_sz items row_groups col_groups covers r c hr hc)
              ∙ sym (if_yes (is_updated s g r c) _ _ on)
          | inr off ↦
              all.1 g.lhs_.data_.name (matrix_address g.lhs_ r c) (λ k hk q.
                let same = pair_injective (r, c) k (hr, hc) (hk.0, hk.1) q.1 in
                let no : true ≡ false =
                  sym hk.2 ∙ ap (λ k. is_updated s g k.0 k.1) (sym same) ∙ off in
                ground arith)
              ∙ sym (if_no (is_updated s g r c) _ _ off)
        ],
        λ b a miss. all.1 b a (λ k hk q. miss k.0 k.1 hk.0 hk.1 q),
      )
