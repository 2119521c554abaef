-- ===== src/Gemv/Rows.antt =====
-- The kernel without local memory over a grid that covers the result: one item for each dot product.
use native.Mathlib.Nat.{div-add-mod'}
use mathlib.Core.Path.{ap₂}
use sycl_blas.Base.{
  ℕ, zero, suc, ◌+◌, ◌*◌, ◌<◌, ◌≤◌, ◌≡◌, ◌≢◌, inl, inr, refl, sym, ap, ◌∙◌, arith, List, [], ◌∷◌,
  ltb, ◌&&◌, Bool-cases, ltb→lt, lt→ltb, le→ltb,
}
use sycl_blas.Base.Int.{ℤ}
use sycl_blas.Base.Scalar.{Scalar, IsExact}
use sycl_blas.Base.Matrices.{total_congr}
use sycl_blas.Views.{Store, linear_address, matrix_address, vector_eval}
use sycl_blas.Views.Matrix.{IsWide, linear_address_lem, matrix_address_injective}
use sycl_blas.Kernel.{Write, launch}
use sycl_blas.Kernel.Single.{single, launch-single}
use sycl_blas.Gemv.{Gemv, c_dim, nc_dim, nc_stride, dot_loop, row_loop, gemv_eval}
use sycl_blas.Gemv.Dots.{dot, dot_loop_lem}

first_test : (b n : ℕ) → (ltb 0 n && ltb (b + 0) n) ≡ ltb b n
first_test b n = ground arith

module _ {ℓ} {A : Type ℓ} (s : Scalar A) (g : Gemv) where
  -- What an item computes.
  abbrev row_value : ℕ → Store A → A
  row_value i st = dot_loop s g (c_dim g) 0 (i * nc_stride g) s.zero st

  abbrev row_single : ℕ → Store A → List (Write A)
  row_single =
      single g.lhs_.data_.name (λ i. ltb i (nc_dim g)) (λ i. linear_address g.lhs_ i) row_value

  row_loop_ends :
      (fuel stride thread row index : ℕ) (st : Store A)
      → nc_dim g ≤ row
      → row_loop s g fuel stride thread row index st ≡ []
  unfolding row_loop
  row_loop_ends zero stride thread row index st h = refl
  row_loop_ends (suc fuel) stride thread row index st h = rw (le→ltb row (nc_dim g) h)

  row_loop_first :
      (fuel stride thread : ℕ) (st : Store A)
      → nc_dim g ≤ fuel
      → nc_dim g ≤ stride
      → row_loop s g fuel stride thread 0 (thread * nc_stride g) st ≡ row_single thread st
  unfolding row_loop
  row_loop_first zero stride thread st h wide = rw (le→ltb thread (nc_dim g) (omega arith))
  row_loop_first (suc fuel) stride thread st h wide = elim (Bool-cases (ltb thread (nc_dim g))) [
    | inl on ↦
        rw (first_test thread (nc_dim g), on)
          (ap₂ ◌∷◌
            (ap
              (λ row. record {
                name = g.lhs_.data_.name;
                address = linear_address g.lhs_ row;
                value = row_value thread st;
              })
              {x = thread + 0} {y = thread} (omega arith))
            (row_loop_ends fuel stride thread (0 + stride) _ st (omega arith)))
    | inr off ↦ rw (first_test thread (nc_dim g), off)
  ]

  module _ (groups : ℕ) (covers : nc_dim g ≤ groups * g.local_range) where
    gemv_eval-single : (i : ℕ) (st : Store A) → gemv_eval s g groups i st ≡ row_single i st
    unfolding gemv_eval
    gemv_eval-single i st =
        row_loop_first (nc_dim g) (groups * g.local_range) _ st (omega arith) covers
        ∙ ap (λ t. row_single t st) (div-add-mod' i g.local_range)

-- The places of the result: its rows are those of the product.
module _ (g : Gemv) (rows : g.lhs_.rows ≡ nc_dim g) (wide : IsWide g.lhs_) where
  pub out_address :
      (i c : ℕ)
      → i < nc_dim g
      → linear_address g.lhs_ (i + c * nc_dim g) ≡ matrix_address g.lhs_ i c
  out_address i c h =
      ap (linear_address g.lhs_) {x = i + c * nc_dim g} {y = i + g.lhs_.rows * c}
        (ap (λ r. i + c * r) (sym rows) ∙ omega arith)
      ∙ linear_address_lem g.lhs_ i c (omega arith)

  pub out_address_injective :
      (i c j d : ℕ)
      → (i < nc_dim g) × (c < g.lhs_.cols)
      → (j < nc_dim g) × (d < g.lhs_.cols)
      → linear_address g.lhs_ (i + c * nc_dim g) ≡ linear_address g.lhs_ (j + d * nc_dim g)
      → (i ≡ j) × (c ≡ d)
  out_address_injective i c j d hi hj e =
      matrix_address_injective g.lhs_ i c j d wide (omega arith, hi.1) (omega arith, hj.1)
        (sym (out_address i c hi.0) ∙ e ∙ out_address j d hj.0)

module _ {ℓ} {A : Type ℓ} {s : Scalar A} (exact : IsExact s) (g : Gemv)
    (other_a : g.matrix_a_.data_.name ≢ g.lhs_.data_.name)
    (other_x : g.vector_x_.data_.name ≢ g.lhs_.data_.name) (rows : g.lhs_.rows ≡ nc_dim g)
    (wide : IsWide g.lhs_) (some_columns : 0 < g.lhs_.cols) where
  pub dot_frame :
      (i : ℕ) (st st' : Store A)
      → ((b : ℕ) (a : ℤ) → b ≢ g.lhs_.data_.name → st b a ≡ st' b a)
      → dot exact g st i ≡ dot exact g st' i
  unfolding vector_eval
  dot_frame i st st' same = total_congr exact (c_dim g) _ _ (λ k _.
      ap₂ s.mul (same g.matrix_a_.data_.name _ other_a) (same g.vector_x_.data_.name _ other_x))

  first_address : (i : ℕ) → linear_address g.lhs_ i ≡ linear_address g.lhs_ (i + 0 * nc_dim g)
  first_address i = ap (linear_address g.lhs_) {x = i} {y = i + 0 * nc_dim g} (omega arith)

  -- Where the grid has an item for each row, the kernel leaves in each row of its result the dot
  -- product of that row of `op(A)` and X of the memory before, and changes nothing else.
  pub gemv_eval_lem :
      (groups : ℕ) (st : Store A)
      → nc_dim g ≤ groups * g.local_range
      → ((i : ℕ)
          → i < nc_dim g
          → launch
              (groups * g.local_range)
              (gemv_eval s g groups)
              st
              g.lhs_.data_.name
              (matrix_address g.lhs_ i 0)
            ≡ dot exact g st i)
        × ((b : ℕ) (a : ℤ)
            → ((i : ℕ)
                → i < nc_dim g
                → ¬ ((b ≡ g.lhs_.data_.name) × (a ≡ matrix_address g.lhs_ i 0)))
            → launch (groups * g.local_range) (gemv_eval s g groups) st b a ≡ st b a)
  gemv_eval_lem groups st covers =
      let all =
        launch-single g.lhs_.data_.name (λ i. ltb i (nc_dim g)) (λ i. linear_address g.lhs_ i)
          (row_value s g) (groups * g.local_range) (gemv_eval s g groups)
          (λ i st _. gemv_eval-single s g groups covers i st)
          (λ i st st' _ _ same.
            dot_loop_lem exact g st i ∙ dot_frame i st st' same ∙ sym (dot_loop_lem exact g st' i))
          (λ i j _ _ on on' e.
            (out_address_injective g rows wide i 0 j 0 (ltb→lt _ _ on, some_columns)
              (ltb→lt _ _ on', some_columns) (sym (first_address i) ∙ e ∙ first_address j)).0)
          st in
      (
        λ i h.
            ap (launch (groups * g.local_range) (gemv_eval s g groups) st g.lhs_.data_.name)
              (sym (first_address i ∙ out_address g rows wide i 0 h))
            ∙ all.0 i (omega arith) (lt→ltb _ _ h)
            ∙ dot_loop_lem exact g st i,
        λ b a miss. all.1 b a (λ i _ on q.
            let h = ltb→lt _ _ on in
            miss i h (q.0, q.1 ∙ first_address i ∙ out_address g rows wide i 0 h)),
      )
