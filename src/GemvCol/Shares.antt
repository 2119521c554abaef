-- ===== src/GemvCol/Shares.antt =====
-- The shares of the groups of `GemvCol`: together they are the product.
use native.Mathlib.Nat.{div-lt_iff_lt-mul, mod-lt, mod-add-div', mul-le-mul_left, mul-le-mul_right}
use sycl_blas.Base.{
  ℕ, ◌+◌, ◌-◌, ◌*◌, ◌/◌, ◌<◌, ◌≤◌, ◌≡◌, sym, ◌∙◌, arith, if◌then◌else◌, if_yes, if_no, ltb, lt→ltb,
  le→ltb, min,
}
use sycl_blas.Base.Scalar.{Scalar, IsExact, sum_monoid}
use sycl_blas.Base.Sums.{sum-mul}
use sycl_blas.Base.Matrices.{total, total_congr, total_cut}
use sycl_blas.Views.{Store}
use sycl_blas.Kernel.Grid.{ceiling_covers}
use sycl_blas.GemvCol.{GemvCol}
use sycl_blas.GemvCol.Sums.{row_term}
use sycl_blas.GemvCol.Launch.{share}
use sycl_blas.Blas2.Rank.{groups}

-- The share of every group has columns: groups of `per` rounded up, and their shares rounded up.
pub shares_some :
    (n per w : ℕ)
    → 0 < n
    → 0 < per
    → w < groups n per
    → w * ((n + groups n per - 1) / groups n per) < n
shares_some n per w some h hw =
    let q = groups n per in
    let rest = mod-lt (n - 1) h in
    let back = mod-add-div' (n - 1) per in
    let width : (n + q - 1) / q < per + 1 =
      (div-lt_iff_lt-mul {k = q} (omega arith)).1 (omega arith) in
    let most : w * ((n + q - 1) / q) ≤ w * per = mul-le-mul_left w (omega arith) in
    let whole : w * per ≤ (n - 1) / per * per = mul-le-mul_right per (omega arith) in omega arith

module _ {ℓ} {A : Type ℓ} {s : Scalar A} (exact : IsExact s) (g : GemvCol) (st : Store A) (r : ℕ)
    (some : 0 < g.nwg_col_) where
  abbrev width : ℕ
  width = (g.matrix_.cols + g.nwg_col_ - 1) / g.nwg_col_

  -- The terms of the row, and zeros behind them.
  abbrev padded : ℕ → A
  padded k = if ltb k g.matrix_.cols then row_term exact g st r k else s.zero

  share-padded : (w : ℕ) → share exact g st r w ≡ total exact width (λ k. padded (w * width + k))
  share-padded w =
      let frs = w * width in
      let lst = min g.matrix_.cols (frs + width) in
      total_congr exact (lst - frs) _ _
        (λ k h. sym (if_yes (ltb (frs + k) g.matrix_.cols) _ _ (lt→ltb _ _ (omega arith))))
      ∙ sym (
          total_cut exact (lst - frs) width (λ k. padded (frs + k)) (omega arith)
            (λ k lo hi. if_no (ltb (frs + k) g.matrix_.cols) _ _ (le→ltb _ _ (omega arith))))

  -- The shares of the groups add up to the product of the row.
  pub shares_lem :
      total exact g.nwg_col_ (λ w. share exact g st r w)
      ≡ total exact g.matrix_.cols (λ c. row_term exact g st r c)
  shares_lem =
      total_congr exact g.nwg_col_ _ _ (λ w _. share-padded w)
      ∙ sym (sum-mul (sum_monoid exact) g.nwg_col_ width padded)
      ∙ total_cut exact g.matrix_.cols (g.nwg_col_ * width) padded
          (let all = ceiling_covers g.matrix_.cols g.nwg_col_ some in omega arith)
          (λ k lo hi. if_no (ltb k g.matrix_.cols) _ _ (le→ltb _ _ lo))
      ∙ total_congr exact g.matrix_.cols _ _
          (λ k h. if_yes (ltb k g.matrix_.cols) _ _ (lt→ltb _ _ h))
