-- ===== src/GemvCol/Guard.antt =====
-- The guard of a group of `GemvCol`.
use sycl_blas.Base.{
  ℕ, ◌+◌, ◌<◌, ◌≤◌, ◌≡◌, true, false, Bool, arith, not, ltb, leb, ◌==◌, ◌&&◌, ◌||◌, if◌then◌else◌,
}

-- What the guard of a group says of its rows and columns.
pub skipped :
    (lower diag upper unit : Bool) (row wide frs_col lst_col r c : ℕ)
    → (not upper && ltb (row + wide) (frs_col + (if not diag then 1 else 0) + 1)
        || not lower && ltb lst_col (row + (if not diag then 1 else 0) + 1))
      ≡ true
    → row ≤ r
    → r < row + wide
    → frs_col ≤ c
    → c < lst_col
    → ((if lower && upper && diag && not unit
          then true
          else lower && leb (c + (if not diag || unit then 1 else 0)) r
            || upper && leb (r + (if not diag || unit then 1 else 0)) c)
        ≡ false)
      × ((diag && unit && r == c) ≡ false)
skipped true diag true unit row wide frs_col lst_col r c h lr hr lc hc = absurd (ground arith)
skipped true true false true row wide frs_col lst_col r c h lr hr lc hc =
    (ground arith, ground arith)
skipped true true false false row wide frs_col lst_col r c h lr hr lc hc =
    (ground arith, ground arith)
skipped true false false unit row wide frs_col lst_col r c h lr hr lc hc =
    (ground arith, ground arith)
skipped false true true true row wide frs_col lst_col r c h lr hr lc hc =
    (ground arith, ground arith)
skipped false true true false row wide frs_col lst_col r c h lr hr lc hc =
    (ground arith, ground arith)
skipped false false true unit row wide frs_col lst_col r c h lr hr lc hc =
    (ground arith, ground arith)
skipped false true false true row wide frs_col lst_col r c h lr hr lc hc =
    (ground arith, ground arith)
skipped false true false false row wide frs_col lst_col r c h lr hr lc hc =
    (ground arith, ground arith)
skipped false false false unit row wide frs_col lst_col r c h lr hr lc hc =
    (ground arith, ground arith)
