-- ===== src/Trsm/Inverses.antt =====
-- The inverter's blocks, as the loops of `_trsm` read them.
pub mod Parts
use mathlib.Core.Path.{ap₂, subst}
use native.Mathlib.Decide.{ℕ_discrete}
use sycl_blas.Base.{
  ℕ, ◌+◌, ◌-◌, ◌*◌, ◌/◌, ◌<◌, ◌≤◌, ◌≡◌, ◌≢◌, inl, inr, Bool, true, false, not, refl, sym, ap, ◌∙◌,
  arith, if◌then◌else◌, leb, min, ◌&&◌, ◌||◌, Result, Bool-cases,
}
use sycl_blas.Base.Int.{ℤ, int_laws}
use sycl_blas.Base.Scalar.{Scalar, IsExact}
use sycl_blas.Base.Matrices.{Entries, total, total_congr, identity, identity_other, product}
use sycl_blas.Meta.{round_up, round_up_ratio}
use sycl_blas.Meta.Rounding.{round_up_ratio_bounds, round_up-eq}
use sycl_blas.Container.{BufferIterator, advance}
use sycl_blas.Views.{Store, make_matrix_view, get_range_accessor}
use sycl_blas.Kernel.{launch}
use sycl_blas.Executor.{Executor}
use sycl_blas.Gemm.Call.{GemmCall, entry_at}
use sycl_blas.Base.Division.{split_div}
use sycl_blas.Trsm.Calls.{System, block_size, shift}
use sycl_blas.Trsm.{inverter, num_blocks}
use sycl_blas.Trsm.Inverter.{inverter_eval}
use sycl_blas.Trsm.Inverter.Inverse.{IsInvertible}
use sycl_blas.Trsm.Inverter.Launch.{inverse_place}
use sycl_blas.Trsm.Inverter.Blocks.{
  block_triangle, block_rows, IsInvertible-congr, inverter_launch_lem,
}
use sycl_blas.Trsm.Steps.{op_side, equations, inverse_at}
use sycl_blas.Trsm.States.{triangle, HasInverses}
use sycl_blas.Trsm.Loops.{goes_up}
use sycl_blas.Trsm.Inverses.Parts.{
  leb_self, shift-IsInvertible, block_part, flips, triangle_part, inverse_part,
}

-- The diagonal of A: ones for a unit diagonal, elements with reciprocals else.
abbrev pub HasDiagonal {ℓ} : {A : Type ℓ} → Scalar A → System A → Store A → Type ℓ
HasDiagonal s t st =
    IsInvertible s t.is_unit_diag (equations t.is_left t)
      (λ row col. entry_at st t.a_ t.lda row col)

module _ {ℓ} {A : Type ℓ} {s : Scalar A} (exact : IsExact s)
    (add-neg : (x : A) → s.add x (s.neg x) ≡ s.zero) (ex : Executor) (t : System A)
    (run : GemmCall A → Store A → Result (Store A))
    (apart : t.a_.buffer.name ≢ t.inv_a_.buffer.name) (st start : Store A)
    (a_same : (x : ℤ) → start t.a_.buffer.name x ≡ st t.a_.buffer.name x)
    (inv_same : (x : ℤ)
      → start t.inv_a_.buffer.name x
        ≡ launch
            (num_blocks s ex run t * block_size)
            (inverter_eval s (inverter s ex run t))
            st
            t.inv_a_.buffer.name
            x) where
  num_blocks_lem :
      (block : ℕ) → block * block_size < equations t.is_left t → block < num_blocks s ex run t
  num_blocks_lem block h =
      let rounded = round_up_ratio_bounds (equations t.is_left t) 16 (omega arith) in
      let groups : num_blocks s ex run t ≡ round_up_ratio (equations t.is_left t) 16 =
        ap (λ x. x / 16) {x = round_up (equations t.is_left t) 16}
          {y = 0 + round_up_ratio (equations t.is_left t) 16 * 16}
          (round_up-eq (equations t.is_left t) 16 ∙ omega arith)
        ∙ split_div (round_up_ratio (equations t.is_left t) 16) 0 16 (omega arith) in
      omega (arith, groups, rounded.0)

  identity_sym : (i j : ℕ) → identity exact j i ≡ identity exact i j
  identity_sym i j = elim (ℕ_discrete i j) [
    | yes e ↦ subst (λ x. identity exact j x ≡ identity exact x j) (sym e) refl
    | no ne ↦ identity_other exact j i (λ e. ne (sym e)) ∙ sym (identity_other exact i j ne)
  ]

  module _ (diagonal : HasDiagonal s t st) (block size : ℕ)
      (fits : block * block_size < equations t.is_left t)
      (all_of_it : size ≡ min (equations t.is_left t - block * block_size) block_size) where
    -- The block's triangle, and its inverse in memory.
    abbrev part : Entries A
    part = block_triangle s (inverter s ex run t) block st

    abbrev stored : Entries A
    stored row col =
        entry_at start (shift t.inv_a_ (block * block_size * block_size)) block_size row col

    rows_eq : block_rows (inverter s ex run t) block ≡ size
    unfolding make_matrix_view
    rows_eq = omega arith

    part_eq :
        (row col : ℕ)
        → block_part s.zero t.is_upper start t.a_ t.lda (block * block_size) row col ≡ part row col
    unfolding make_matrix_view get_range_accessor
    part_eq row col =
        ap (λ v. if (if t.is_upper then leb row col else leb col row) then v else s.zero) (a_same _)

    diagonal_eq :
        (j : ℕ)
        → part j j ≡ entry_at st t.a_ t.lda (block * block_size + j) (block * block_size + j)
    unfolding make_matrix_view get_range_accessor
    diagonal_eq j = elim (Bool-cases t.is_upper) [
      | inl u ↦ rw (u, leb_self j)
      | inr u ↦ rw (u, leb_self j)
    ]

    part-IsInvertible : IsInvertible s t.is_unit_diag size part
    part-IsInvertible =
        IsInvertible-congr s t.is_unit_diag size _ part (λ j hj. sym (diagonal_eq j))
          (shift-IsInvertible s t.is_unit_diag (equations t.is_left t) (block * block_size) size _
            (omega arith) diagonal)

    stored_eq :
        (row col : ℕ)
        → launch
            (num_blocks s ex run t * block_size)
            (inverter_eval s (inverter s ex run t))
            st
            t.inv_a_.buffer.name
            (inverse_place s (inverter s ex run t) block row col)
          ≡ stored row col
    unfolding make_matrix_view advance
    stored_eq row col =
        ap
          (launch (num_blocks s ex run t * block_size) (inverter_eval s (inverter s ex run t)) st
            t.inv_a_.buffer.name)
          (omega int_laws)
        ∙ sym (inv_same _)

    abbrev inverse : Entries A
    inverse row col =
        launch (num_blocks s ex run t * block_size) (inverter_eval s (inverter s ex run t)) st
          t.inv_a_.buffer.name (inverse_place s (inverter s ex run t) block row col)

    raw_products :
        ((i j : ℕ) → i < size → j < size → product exact size inverse part i j ≡ identity exact i j)
        × ((i j : ℕ)
            → i < size
            → j < size
            → product exact size part inverse i j ≡ identity exact i j)
    unfolding make_matrix_view get_range_accessor
    raw_products =
        subst
          (λ n.
            IsInvertible s t.is_unit_diag n part
            → ((i j : ℕ) → i < n → j < n → product exact n inverse part i j ≡ identity exact i j)
              × ((i j : ℕ) → i < n → j < n → product exact n part inverse i j ≡ identity exact i j))
          rows_eq
          (λ inv.
            let p =
              inverter_launch_lem exact add-neg (inverter s ex run t) (num_blocks s ex run t)
                (omega arith) apart st block (num_blocks_lem block fits) inv in
            (λ i j hi hj. (p i j hi hj).0, λ i j hi hj. (p i j hi hj).1))
          part-IsInvertible

    products :
        ((i j : ℕ) → i < size → j < size → product exact size stored part i j ≡ identity exact i j)
        × ((i j : ℕ)
            → i < size
            → j < size
            → product exact size part stored i j ≡ identity exact i j)
    products = (
      λ i j hi hj.
          total_congr exact size _ _ (λ k _. ap (λ v. s.mul v (part k j)) (sym (stored_eq i k)))
          ∙ raw_products.0 i j hi hj,
      λ i j hi hj.
          total_congr exact size _ _ (λ k _. ap (s.mul (part i k)) (sym (stored_eq k j)))
          ∙ raw_products.1 i j hi hj,
    )

    -- A term of the product, by whether the equations have the transpose.
    abbrev term : ℕ → ℕ → ℕ → Bool → A
    term l j k b =
        s.mul
          (if b
            then block_part s.zero t.is_upper start t.a_ t.lda (block * block_size) k l
            else block_part s.zero t.is_upper start t.a_ t.lda (block * block_size) l k)
          (if b then stored j k else stored k j)

    on_block :
        (l j : ℕ)
        → l < size
        → j < size
        → total exact size (λ k.
          s.mul
            (triangle s t (goes_up t) start (block * block_size + l) (block * block_size + k))
            (inverse_at t t.is_left start (block * block_size) k j))
          ≡ identity exact l j
    on_block l j hl hj =
        total_congr exact size _ _ (λ k _.
          ap₂ s.mul
            (triangle_part s.zero start t.a_ t.lda (block * block_size) l k t.is_left t.is_upper
              t.is_transpose)
            (inverse_part s.zero start (shift t.inv_a_ (block * block_size * block_size)) 0 0 j k
              t.is_left t.is_transpose block_size))
        ∙ elim (Bool-cases (flips t.is_left t.is_transpose)) [
          | inl e ↦
              total_congr exact size _ _ (λ k _.
                ap (term l j k) e ∙ exact.mul_comm _ _ ∙ ap (s.mul (stored j k)) (part_eq k l))
              ∙ products.0 j l hj hl
              ∙ identity_sym l j
          | inr e ↦
              total_congr exact size _ _
                (λ k _. ap (term l j k) e ∙ ap (λ v. s.mul v (stored k j)) (part_eq l k))
              ∙ products.1 l j hl hj
        ]

  pub launch-HasInverses : HasDiagonal s t st → HasInverses exact t (goes_up t) start
  launch-HasInverses diagonal block i size at fits all_of_it l j hl hj =
      subst
        (λ i.
          i < equations t.is_left t
          → size ≡ min (equations t.is_left t - i) block_size
          → total exact size (λ k.
            s.mul (triangle s t (goes_up t) start (i + l) (i + k))
              (inverse_at t t.is_left start i k j))
            ≡ identity exact l j)
        (sym at) (λ fits all_of_it. on_block diagonal block size fits all_of_it l j hl hj) fits
        all_of_it
