-- ===== src/Blas2/Product.antt =====
-- `_gemv_impl`: the product of a matrix and a vector.
use mathlib.Core.Path.{ap₂, subst}
use native.Mathlib.Nat.{mod-lt, mod-add-div', mod-eq_of_lt}
use sycl_blas.Base.{
  ℕ, ◌+◌, ◌-◌, ◌*◌, ◌/◌, ◌%◌, ◌^◌, ◌<◌, ◌≤◌, ◌≡◌, ◌≢◌, inl, inr, refl, sym, ap, ◌∙◌, arith, Bool,
  true, false, if◌then◌else◌, ◌==◌, ==_iff, Bool-cases,
}
use sycl_blas.Base.Int.{ℤ, pos, ◌+ℤ◌}
use sycl_blas.Base.Scalar.{Scalar, IsExact}
use sycl_blas.Base.Matrices.{total, total_congr}
use sycl_blas.Meta.{round_up, round_up_ratio}
use sycl_blas.Meta.Rounding.{round_up_ratio_bounds, round_up-eq}
use sycl_blas.Container.{make_sycl_iterator_buffer}
use sycl_blas.Views.{
  Store, make_matrix_view, make_vector_view, vector_view, matrix_size, vector_eval,
  get_range_accessor, linear_address, pointer_address,
}
use sycl_blas.Kernel.{launch}
use sycl_blas.Trees
use sycl_blas.Trees.{Expr, leaf, matrix, sum_columns, eval, view_name, view_address, view_size}
use sycl_blas.Trees.Columns.{eval-sum_columns}
use sycl_blas.Trees.Locality.{AllLeaves, IsApart}
use sycl_blas.Blas1.{vector_of}
use sycl_blas.Blas1.Vectors.{IsVector, IsElsewhere, read, eval-vector, vector_of-size}
use sycl_blas.Gemm.Call.{op_entry}
use sycl_blas.Base.Division.{split_div}
use sycl_blas.Gemv.{Gemv, gemv_eval, gemv_local_eval}
use sycl_blas.Gemv.Dots.{dot}
use sycl_blas.Gemv.Rows.{gemv_eval_lem, out_address}
use sycl_blas.Gemv.Local.{gemv_local_lem, shares_lem}
use sycl_blas.Blas2.{
  GemvCall, x_vector_size, y_vector_size, wgs_per, dot_products_matrix, make_gemv, update_y,
  gemv_impl,
}
use sycl_blas.Blas2.Update.{updated, y_at, update_y_lem}

module _ {ℓ} {A : Type ℓ} {s : Scalar A} (exact : IsExact s) (is_transposed : Bool)
    (call : GemvCall A) (buffer : ℕ) where
  -- A row of `op(A)` times x.
  abbrev pub product_at : Store A → ℕ → A
  product_at st i = total exact (x_vector_size is_transposed call) (λ c.
      s.mul (op_entry st is_transposed call.a_ call.lda i c)
        (read st call.x_ call.incx (x_vector_size is_transposed call) c))

  -- `y` is `alpha * op(A) * x + beta * y` of the memory before, and nothing else has changed but the
  -- buffer of the dot products.
  abbrev pub IsProduct : Store A → Store A → Type ℓ
  IsProduct st out =
      ((i : ℕ)
        → i < y_vector_size is_transposed call
        → y_at s is_transposed call out i
          ≡ updated s is_transposed call (product_at st i) (y_at s is_transposed call st i))
      × ((b : ℕ) (a : ℤ)
          → b ≢ buffer
          → IsElsewhere call.y_ call.incy (y_vector_size is_transposed call) b a
          → out b a ≡ st b a)

-- The sizes for which the kernel with local memory gets its grid: none is zero (the counts of groups
-- wrap there), the items are less than 2 ^ 31, and for a transposed product the elements of a cache line
-- divide the items of a group.
abbrev pub IsGrid {ℓ} : {A : Type ℓ} → ℕ → ℕ → Bool → GemvCall A → Type 0
IsGrid local_range cl_elems is_transposed call =
    (0 < call.m)
    × (0 < call.n)
    × (local_range * wgs_per call.m local_range * wgs_per call.n local_range < 2 ^ 31)
    × (is_transposed ≡ true
        → (0 < local_range / cl_elems) × (local_range ≡ cl_elems * (local_range / cl_elems)))

module _ {ℓ} {A : Type ℓ} {s : Scalar A} (exact : IsExact s) (local_range cl_elems : ℕ)
    (is_transposed : Bool) (call : GemvCall A) (buffer : ℕ) (items : 0 < local_range)
    (vx : IsVector call.x_ call.incx (x_vector_size is_transposed call))
    (vy : IsVector call.y_ call.incy (y_vector_size is_transposed call))
    (other_a : call.a_.buffer.name ≢ buffer) (other_x : call.x_.buffer.name ≢ buffer)
    (other_y : call.y_.buffer.name ≢ buffer) where
  abbrev kernel : ℕ → ℕ → Gemv
  kernel wgs_per_nc wgs_per_c =
      make_gemv s local_range cl_elems is_transposed call buffer wgs_per_nc wgs_per_c

  entry_eq :
      (t : Bool) (st : Store A) (i c : ℕ)
      → st call.a_.buffer.name (
          call.a_.offset +ℤ pos (i * (if t then call.lda else 1) + c * (if t then 1 else call.lda)))
        ≡ op_entry st t call.a_ call.lda i c
  entry_eq true st i c = ap (λ k. st call.a_.buffer.name (call.a_.offset +ℤ pos k)) (omega arith)
  entry_eq false st i c = ap (λ k. st call.a_.buffer.name (call.a_.offset +ℤ pos k)) (omega arith)

  x_eq :
      (st : Store A) (c : ℕ)
      → c < x_vector_size is_transposed call
      → vector_eval (make_vector_view call.x_ call.incx (x_vector_size is_transposed call)) st c
        ≡ read st call.x_ call.incx (x_vector_size is_transposed call) c
  unfolding vector_eval eval vector_of view_name view_address
  x_eq st c h =
      eval-vector s (record { work_group_size = local_range; num_compute_units = 0 }) items vx st c
        h

  dot-product_at :
      (wgs_per_nc wgs_per_c : ℕ) (st : Store A) (i : ℕ)
      → dot exact (kernel wgs_per_nc wgs_per_c) st i
        ≡ product_at exact is_transposed call buffer st i
  unfolding make_matrix_view get_range_accessor pointer_address
  dot-product_at wgs_per_nc wgs_per_c st i =
      total_congr exact (x_vector_size is_transposed call) _ _
        (λ c h. ap₂ s.mul (entry_eq is_transposed st i c) (x_eq st c h))

  update-IsProduct :
      (dots : Expr A) (st mid : Store A)
      → Trees.get_size dots ≡ y_vector_size is_transposed call
      → AllLeaves (IsApart (vector_of call.y_ call.incy (y_vector_size is_transposed call))) dots
      → ((i : ℕ)
          → i < y_vector_size is_transposed call
          → eval s dots mid i ≡ product_at exact is_transposed call buffer st i)
      → ((b : ℕ) (a : ℤ) → b ≢ buffer → mid b a ≡ st b a)
      → IsProduct exact is_transposed call buffer st
          (update_y s local_range cl_elems is_transposed call buffer dots mid)
  update-IsProduct dots st mid size apart value kept =
      let all =
        update_y_lem s local_range cl_elems is_transposed call buffer items vy dots mid size
          apart in
      (
        λ i h.
            all.0 i h
            ∙ ap₂ (updated s is_transposed call) (value i h) (kept call.y_.buffer.name _ other_y),
        λ b a ne miss. all.1 b a miss ∙ kept b a ne,
      )

  wgs_per-covers : (size : ℕ) → size ≤ wgs_per size local_range * local_range
  wgs_per-covers size = elim (Bool-cases (size == 0)) [
    | inl empty ↦ let none_left = (==_iff size 0).0 empty in omega arith
    | inr more ↦ rw more (
        let whole = mod-add-div' (size - 1) local_range in
        let rest : (size - 1) % local_range < local_range = mod-lt (size - 1) items in omega arith)
  ]

  whole_groups :
      (ld : ℕ) → round_up ld local_range / local_range * local_range ≡ round_up ld local_range
  whole_groups ld =
      let groups = round_up_ratio ld local_range in
      let size : round_up ld local_range ≡ 0 + groups * local_range =
        round_up-eq ld local_range ∙ omega arith in
      let count : round_up ld local_range / local_range ≡ groups =
        ap (λ x. x / local_range) size ∙ split_div groups 0 local_range items in
      ap (λ x. x * local_range) count ∙ sym (round_up-eq ld local_range)

  global_lem :
      (st : Store A)
      → IsProduct exact is_transposed call buffer st (
          update_y s local_range cl_elems is_transposed call buffer
            (leaf (matrix (dot_products_matrix s local_range cl_elems is_transposed call buffer 1)))
            (launch
              (round_up (y_vector_size is_transposed call) local_range)
              (gemv_eval s
                (kernel 1 1)
                (round_up (y_vector_size is_transposed call) local_range / local_range))
              st))
  unfolding make_matrix_view get_range_accessor make_sycl_iterator_buffer make_vector_view
      vector_view eval view_name view_address view_size Trees.get_size matrix_size vector_of
  global_lem st =
      let groups = round_up (y_vector_size is_transposed call) local_range / local_range in
      let rounded = round_up_ratio_bounds (y_vector_size is_transposed call) local_range items in
      let all =
        gemv_eval_lem exact (kernel 1 1) other_a other_x refl (omega arith) (omega arith) groups st
          (omega (
            arith,
            whole_groups (y_vector_size is_transposed call),
            round_up-eq (y_vector_size is_transposed call) local_range,
            rounded.0,
          )) in
      subst
        (λ n. IsProduct exact is_transposed call buffer st (
          update_y s local_range cl_elems is_transposed call buffer
            (leaf (matrix (dot_products_matrix s local_range cl_elems is_transposed call buffer 1)))
            (launch n (gemv_eval s (kernel 1 1) groups) st)))
        (whole_groups (y_vector_size is_transposed call))
        (update-IsProduct _ st _ (omega arith) (inl (λ e. other_y (sym e)))
          (λ i h.
            ap (launch (groups * local_range) (gemv_eval s (kernel 1 1) groups) st buffer) (
              ap
                (linear_address
                  (dot_products_matrix s local_range cl_elems is_transposed call buffer 1))
                {x = i} {y = i + 0 * y_vector_size is_transposed call} (omega arith)
              ∙ out_address (kernel 1 1) refl (omega arith) i 0 h)
            ∙ all.0 i h
            ∙ dot-product_at 1 1 st i)
          (λ b a ne. all.1 b a (λ i h q. ne q.0)))

  local_lem :
      (start : ℕ → A) (st : Store A)
      → (is_transposed ≡ true
          → (0 < local_range / cl_elems) × (local_range ≡ cl_elems * (local_range / cl_elems)))
      → IsProduct exact is_transposed call buffer st (
          update_y s local_range cl_elems is_transposed call buffer
            (sum_columns (
              dot_products_matrix s local_range cl_elems is_transposed call buffer
                (wgs_per (x_vector_size is_transposed call) local_range)))
            (launch
              (local_range
                * wgs_per (x_vector_size is_transposed call) local_range
                * wgs_per (y_vector_size is_transposed call) local_range)
              (gemv_local_eval s
                (kernel
                  (wgs_per (y_vector_size is_transposed call) local_range)
                  (wgs_per (x_vector_size is_transposed call) local_range))
                start)
              st))
  unfolding make_matrix_view get_range_accessor make_sycl_iterator_buffer make_vector_view
      vector_view view_name view_size Trees.get_size vector_of
  local_lem start st tiles =
      let nc = wgs_per (y_vector_size is_transposed call) local_range in
      let c = wgs_per (x_vector_size is_transposed call) local_range in
      let all =
        gemv_local_lem exact (kernel nc c) other_a other_x (vector_of-size vx) refl refl
          (omega arith) items (omega arith) tiles
          (wgs_per-covers (y_vector_size is_transposed call)) start st in
      update-IsProduct _ st _ refl (λ j. inl (λ e. other_y (sym e)))
        (λ i h.
          eval-sum_columns exact
            (dot_products_matrix s local_range cl_elems is_transposed call buffer c) _ i h
          ∙ total_congr exact c _ _ (λ k hk. all.0 i k h hk)
          ∙ shares_lem exact (kernel nc c) other_a other_x (vector_of-size vx) refl refl
              (omega arith) items (omega arith) tiles
              (wgs_per-covers (y_vector_size is_transposed call)) start st i
              (wgs_per-covers (x_vector_size is_transposed call))
          ∙ dot-product_at nc c st i)
        (λ b a ne. all.1 b a (λ i k h hk q. ne q.0))

  items_eq :
      local_range
        * wgs_per (x_vector_size is_transposed call) local_range
        * wgs_per (y_vector_size is_transposed call) local_range
      ≡ local_range * wgs_per call.m local_range * wgs_per call.n local_range
  items_eq = elim (Bool-cases is_transposed) [
    | inl transposed ↦ rw transposed
    | inr normal ↦ rw normal (omega arith)
  ]

  -- `_gemv_impl`, without local memory or with it, with exact arithmetic, work groups that are not empty,
  -- x and y inside their buffers and a buffer of dot products of its own, and with local memory on sizes
  -- that make a grid: `y` becomes `alpha * op(A) * x + beta * y`, where for a beta that compares equal
  -- to zero y is not read, and nothing else changes but the buffer of the dot products.
  pub gemv_impl_lem :
      (is_local : Bool) (start : ℕ → A) (st : Store A)
      → (is_local ≡ true → IsGrid local_range cl_elems is_transposed call)
      → IsProduct exact is_transposed call buffer st
          (gemv_impl s local_range cl_elems is_transposed call buffer is_local start st)
  unfolding gemv_impl
  gemv_impl_lem true start st grid =
      let fits = (grid refl).2 in
      subst
        (λ n. IsProduct exact is_transposed call buffer st (
          update_y s local_range cl_elems is_transposed call buffer
            (sum_columns (
              dot_products_matrix s local_range cl_elems is_transposed call buffer
                (wgs_per (x_vector_size is_transposed call) local_range)))
            (launch n
              (gemv_local_eval s
                (kernel (wgs_per (y_vector_size is_transposed call) local_range)
                  (wgs_per (x_vector_size is_transposed call) local_range))
                start)
              st)))
        (sym (mod-eq_of_lt (omega (arith, items_eq)))) (local_lem start st (grid refl).3)
  gemv_impl_lem false start st grid = global_lem st
