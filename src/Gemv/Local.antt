-- ===== src/Gemv/Local.antt =====
-- The kernel with local memory over its grid: a part of each dot product for each item.
use mathlib.Core.Path.{ap₂}
use native.Mathlib.Nat.{mod-lt, mod-add-div', div-lt_iff_lt-mul, mul-le-mul_right}
use sycl_blas.Base.{
  ℕ, ◌+◌, ◌-◌, ◌*◌, ◌/◌, ◌%◌, min, ◌<◌, ◌≤◌, ◌≡◌, ◌≢◌, inl, inr, refl, sym, ap, ◌∙◌, arith, true,
  if◌then◌else◌, if_yes, if_no, ltb, Bool-cases, ltb→lt, lt→ltb,
}
use sycl_blas.Base.Int.{ℤ}
use sycl_blas.Base.Scalar.{Scalar, IsExact, sum_monoid}
use sycl_blas.Base.Sums.{sum-mul}
use sycl_blas.Base.Matrices.{total, total_congr, total_cut}
use sycl_blas.Views.{Store, linear_address, matrix_address, vector_eval}
use sycl_blas.Views.Matrix.{IsWide}
use sycl_blas.Kernel.{launch}
use sycl_blas.Kernel.Single.{launch-single}
use sycl_blas.Base.Division.{split_div, split_mod}
use sycl_blas.Gemv.{Gemv, c_dim, nc_dim, vector_scratch, partial_loop, c_tile_loop, gemv_local_eval}
use sycl_blas.Gemv.Dots.{dot}
use sycl_blas.Gemv.Rows.{out_address, out_address_injective}
use sycl_blas.Gemv.Partial.{
  term, partial_dot, normal_lem, transposed_lem, term_inside, term_outside,
}

module _ (g : Gemv) where
  -- The row and the share of it that an item has.
  abbrev nc_index : ℕ → ℕ
  nc_index i = i % g.local_range + i / g.local_range / g.wgs_per_c_ * g.local_range

  abbrev c_group : ℕ → ℕ
  c_group i = i / g.local_range - i / g.local_range / g.wgs_per_c_ * g.wgs_per_c_

  -- The item for a row and a share.
  abbrev worker : ℕ → ℕ → ℕ
  worker nc c = nc % g.local_range + (c + nc / g.local_range * g.wgs_per_c_) * g.local_range

  c_group_mod : (i : ℕ) → c_group i ≡ i / g.local_range % g.wgs_per_c_
  c_group_mod i = omega (arith, mod-add-div' (i / g.local_range) g.wgs_per_c_)

  module _ (items : 0 < g.local_range) where
    worker_lem : (i : ℕ) → worker (nc_index i) (c_group i) ≡ i
    worker_lem i =
        ap₂ (λ x y. x + (c_group i + y * g.wgs_per_c_) * g.local_range)
          (split_mod (i / g.local_range / g.wgs_per_c_) (i % g.local_range) g.local_range
            (mod-lt i items))
          (split_div (i / g.local_range / g.wgs_per_c_) (i % g.local_range) g.local_range
            (mod-lt i items))
        ∙ ap (λ x. i % g.local_range + x * g.local_range)
            {x = c_group i + i / g.local_range / g.wgs_per_c_ * g.wgs_per_c_}
            {y = i / g.local_range} (omega (arith, mod-add-div' (i / g.local_range) g.wgs_per_c_))
        ∙ mod-add-div' i g.local_range

    worker_group :
        (nc c : ℕ) → c < g.wgs_per_c_ → (nc_index (worker nc c) ≡ nc) × (c_group (worker nc c) ≡ c)
    worker_group nc c h =
        let rest =
          split_mod (c + nc / g.local_range * g.wgs_per_c_) (nc % g.local_range) g.local_range
            (mod-lt nc items) in
        let group =
          split_div (c + nc / g.local_range * g.wgs_per_c_) (nc % g.local_range) g.local_range
            (mod-lt nc items) in
        let block =
          ap (λ x. x / g.wgs_per_c_) group ∙ split_div (nc / g.local_range) c g.wgs_per_c_ h in
        (
          ap₂ (λ x y. x + y * g.local_range) rest block ∙ mod-add-div' nc g.local_range,
          ap₂ (λ x y. x - y * g.wgs_per_c_) group block ∙ omega arith,
        )

    worker-lt :
        (nc c : ℕ)
        → c < g.wgs_per_c_
        → nc < g.wgs_per_nc_ * g.local_range
        → worker nc c < g.local_range * g.wgs_per_c_ * g.wgs_per_nc_
    worker-lt nc c hc hn =
        let rest : nc % g.local_range < g.local_range = mod-lt nc items in
        let below : nc / g.local_range < g.wgs_per_nc_ = (div-lt_iff_lt-mul items).1 hn in
        let blocks : (nc / g.local_range + 1) * g.wgs_per_c_ ≤ g.wgs_per_nc_ * g.wgs_per_c_ =
          mul-le-mul_right g.wgs_per_c_ (omega arith) in
        let groups : (c + nc / g.local_range * g.wgs_per_c_ + 1) * g.local_range
            ≤ g.wgs_per_nc_ * g.wgs_per_c_ * g.local_range =
          mul-le-mul_right g.local_range (omega arith) in
        omega arith

module _ {ℓ} {A : Type ℓ} {s : Scalar A} (exact : IsExact s) (g : Gemv)
    (other_a : g.matrix_a_.data_.name ≢ g.lhs_.data_.name)
    (other_x : g.vector_x_.data_.name ≢ g.lhs_.data_.name) (x_size : g.vector_x_.size ≡ c_dim g)
    (rows : g.lhs_.rows ≡ nc_dim g) (cols : g.lhs_.cols ≡ g.wgs_per_c_) (wide : IsWide g.lhs_)
    (items : 0 < g.local_range) (shares : 0 < g.wgs_per_c_)
    (tiles : g.is_transposed ≡ true
      → (0 < g.local_range / g.cl_elems)
        × (g.local_range ≡ g.cl_elems * (g.local_range / g.cl_elems)))
    (covers : nc_dim g ≤ g.wgs_per_nc_ * g.local_range) (start : ℕ → A) where
  abbrev item_value : ℕ → Store A → A
  item_value i st =
      if g.is_transposed
      then c_tile_loop s g (vector_scratch s g (c_group g i) st) st (i / g.local_range)
          (i % g.local_range) (g.local_range / g.cl_elems) 0 start s.zero
      else partial_loop s g (vector_scratch s g (c_group g i) st)
          (min (c_dim g - c_group g i * g.local_range) g.local_range) 0
          (nc_index g i + c_group g i * g.local_range * g.matrix_a_.leading) s.zero st

  item_value_lem :
      (i : ℕ) (st : Store A)
      → nc_index g i < nc_dim g
      → item_value i st ≡ partial_dot exact g st (nc_index g i) (c_group g i)
  item_value_lem i st h = elim (Bool-cases g.is_transposed) [
    | inl transposed ↦
        if_yes g.is_transposed _ _ transposed
        ∙ transposed_lem exact g st x_size (tiles transposed).0 (tiles transposed).1 transposed
            (i / g.local_range) (i % g.local_range) (mod-lt i items) h start
    | inr normal ↦
        if_no g.is_transposed _ _ normal
        ∙ normal_lem exact g st x_size (nc_index g i) (c_group g i) normal
  ]

  partial_frame :
      (nc c : ℕ) (st st' : Store A)
      → ((b : ℕ) (a : ℤ) → b ≢ g.lhs_.data_.name → st b a ≡ st' b a)
      → partial_dot exact g st nc c ≡ partial_dot exact g st' nc c
  unfolding vector_eval
  partial_frame nc c st st' same = total_congr exact g.local_range _ _ (λ k _.
      ap₂ (λ x y. if ltb (k + c * g.local_range) (c_dim g) then s.mul x y else s.zero)
        (same g.matrix_a_.data_.name _ other_a) (same g.vector_x_.data_.name _ other_x))

  c_group-lt : (i : ℕ) → c_group g i < g.wgs_per_c_
  c_group-lt i =
      let rest : i / g.local_range % g.wgs_per_c_ < g.wgs_per_c_ =
        mod-lt (i / g.local_range) shares in
      omega (arith, c_group_mod g i)

  -- The kernel with local memory leaves in each row and column of its result the share of the column
  -- in the dot product of the row, and changes nothing else. This is for exact arithmetic, a matrix and
  -- a vector in other buffers than the result, a vector of as many elements as the matrix has columns, a
  -- result with a row for each row of the product and a column for each share, whose columns do not
  -- overlap, work groups that are not empty, at least one share, groups that cover the rows, and for a
  -- transposed product a cache line whose elements divide the items of a group, at least once.
  pub gemv_local_lem :
      (st : Store A)
      → ((nc c : ℕ)
          → nc < nc_dim g
          → c < g.wgs_per_c_
          → launch
              (g.local_range * g.wgs_per_c_ * g.wgs_per_nc_)
              (gemv_local_eval s g start)
              st
              g.lhs_.data_.name
              (matrix_address g.lhs_ nc c)
            ≡ partial_dot exact g st nc c)
        × ((b : ℕ) (a : ℤ)
            → ((nc c : ℕ)
                → nc < nc_dim g
                → c < g.wgs_per_c_
                → ¬ ((b ≡ g.lhs_.data_.name) × (a ≡ matrix_address g.lhs_ nc c)))
            → launch
                (g.local_range * g.wgs_per_c_ * g.wgs_per_nc_)
                (gemv_local_eval s g start)
                st
                b
                a
              ≡ st b a)
  unfolding gemv_local_eval
  gemv_local_lem st =
      let all =
        launch-single g.lhs_.data_.name (λ i. ltb (nc_index g i) (nc_dim g))
          (λ i. linear_address g.lhs_ (nc_index g i + c_group g i * nc_dim g)) item_value
          (g.local_range * g.wgs_per_c_ * g.wgs_per_nc_) (gemv_local_eval s g start)
          (λ i st _. refl)
          (λ i st st' _ on same.
            let h = ltb→lt _ _ on in
            item_value_lem i st h
            ∙ partial_frame (nc_index g i) (c_group g i) st st' same
            ∙ sym (item_value_lem i st' h))
          (λ i j _ _ on on' e.
            let same =
              out_address_injective g rows wide (nc_index g i) (c_group g i) (nc_index g j)
                (c_group g j) (ltb→lt _ _ on, omega (arith, c_group-lt i))
                (ltb→lt _ _ on', omega (arith, c_group-lt j)) e in
            sym (worker_lem g items i) ∙ ap₂ (worker g) same.0 same.1 ∙ worker_lem g items j)
          st in
      (
        λ nc c hn hc.
            let at = worker_group g items nc c hc in
            ap
              (launch (g.local_range * g.wgs_per_c_ * g.wgs_per_nc_) (gemv_local_eval s g start) st
                g.lhs_.data_.name)
              (sym (out_address g rows wide nc c hn)
                ∙ ap₂ (λ x y. linear_address g.lhs_ (x + y * nc_dim g)) (sym at.0) (sym at.1))
            ∙ all.0 (worker g nc c) (worker-lt g items nc c hc (omega arith))
                (lt→ltb _ _ (omega (arith, at.0)))
            ∙ item_value_lem (worker g nc c) st (omega (arith, at.0))
            ∙ ap₂ (partial_dot exact g st) at.0 at.1,
        λ b a miss. all.1 b a (λ i _ on q.
            let h = ltb→lt _ _ on in
            miss (nc_index g i) (c_group g i) h (c_group-lt i)
              (q.0, q.1 ∙ out_address g rows wide (nc_index g i) (c_group g i) h)),
      )

  -- The shares of a row add up to its dot product.
  pub shares_lem :
      (st : Store A) (nc : ℕ)
      → c_dim g ≤ g.wgs_per_c_ * g.local_range
      → total exact g.wgs_per_c_ (λ c. partial_dot exact g st nc c) ≡ dot exact g st nc
  shares_lem st nc enough =
      total_congr exact g.wgs_per_c_ _ _ (λ c _. total_congr exact g.local_range _ _ (λ k _.
        ap (term exact g st nc) {x = k + c * g.local_range} {y = c * g.local_range + k}
          (omega arith)))
      ∙ sym (sum-mul (sum_monoid exact) g.wgs_per_c_ g.local_range (term exact g st nc))
      ∙ total_cut exact (c_dim g) (g.wgs_per_c_ * g.local_range) (term exact g st nc) enough
          (λ k lo hi. term_outside exact g st x_size nc k lo)
      ∙ total_congr exact (c_dim g) _ _ (λ k h. term_inside exact g st x_size nc k h)
