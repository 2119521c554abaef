-- ===== src/Trsm/Solution.antt =====
-- `_trsm` after its checks: the whole of it, from the memory that the caller gives.
use mathlib.Core.Path.{ap₂, subst}
use native.Mathlib.Nat.{mul-le-mul_right}
use sycl_blas.Base.{
  ℕ, zero, suc, ◌+◌, ◌-◌, ◌*◌, ◌<◌, ◌≤◌, ◌≡◌, ◌≢◌, ◌⊎◌, inl, inr, Bool, true, false, refl, sym, ap,
  ◌∙◌, arith, if◌then◌else◌, leb, ◌==◌, ==_iff, Bool-cases, Result, ok, ◌>>=◌,
}
use sycl_blas.Base.Int.{ℤ, pos, ◌+ℤ◌, ◌-ℤ◌, pos_part}
use sycl_blas.Base.Scalar.{Scalar, IsExact}
use sycl_blas.Base.Matrices.{total, total_congr}
use sycl_blas.Meta.{round_up}
use sycl_blas.Container.{BufferIterator, get_size}
use sycl_blas.Views.{Store, store, make_matrix_view, get_range_accessor}
use sycl_blas.Kernel.{launch}
use sycl_blas.Executor.{Executor}
use sycl_blas.Blas1.{copy}
use sycl_blas.Blas1.Vectors.{IsVector}
use sycl_blas.Blas1.Updates.{copy_lem}
use sycl_blas.Gemm.Call.{GemmCall, IsGemm, entry_at}
use sycl_blas.Gemm.Interface.Scaling.{IsMatrix, room}
use sycl_blas.Trsm.Calls.{System, k_, block_size}
use sycl_blas.Trsm.{fill, inverter, num_blocks, b_size, solve_system}
use sycl_blas.Trsm.Inverter.{inverter_eval}
use sycl_blas.Trsm.Inverter.Blocks.{IsInvertible-congr}
use sycl_blas.Trsm.Inverter.Launch.{launch_elsewhere}
use sycl_blas.Trsm.Steps.{IsApart, at_side, equations, systems, b_at}
use sycl_blas.Trsm.States.{triangle, HasInverses, at_side_congr, op_side_congr}
use sycl_blas.Trsm.Loops.{goes_up, solve_blocks_lem}
use sycl_blas.Trsm.Inverses.{HasDiagonal, launch-HasInverses}

fill_other {ℓ} :
    {A : Type ℓ} (it : BufferIterator) (value : A) (size : ℕ) (st : Store A) (b : ℕ) (x : ℤ)
    → b ≢ it.buffer.name
    → fill it value size st b x ≡ st b x
unfolding fill store
fill_other it value zero st b x ne = refl
fill_other it value (suc size) st b x ne = elim (Bool-cases (b == it.buffer.name)) [
  | inl e ↦ absurd (ne ((==_iff b it.buffer.name).0 e))
  | inr e ↦ rw e (fill_other it value size st b x ne)
]

matrix-IsVector :
    (c : BufferIterator) (m n leading : ℕ)
    → 0 < n
    → IsMatrix c m n leading
    → IsVector c (pos 1) (leading * (n - 1) + m)
unfolding get_size
matrix-IsVector c m n leading some_columns im = record {
  start = im.start;
  at = im.at;
  nonzero = λ e. cc (e);
  enough = elim (im.enough) [
    | inl e ↦ absurd (omega arith)
    | inr fits ↦
        subst
          (λ o.
            (leading * (n - 1) + m ≡ 0)
            ⊎ (1 + (leading * (n - 1) + m - 1) * 1 ≤ pos_part (pos c.buffer.get_count -ℤ o)))
          (sym im.at) (room c.buffer.get_count im.start (leading * (n - 1) + m) (omega arith))
  ];
}

entry_inside :
    (m n leading row col : ℕ) → row < m → col < n → row + col * leading < leading * (n - 1) + m
entry_inside m n leading row col hr hc =
    let h : col * leading ≤ (n - 1) * leading = mul-le-mul_right leading (omega arith) in
    omega arith

-- A copy of the memory of one matrix to another of the same shape.
module _ {ℓ} {A : Type ℓ} (s : Scalar A) (ex : Executor) (some_items : 0 < ex.work_group_size)
    (x y : BufferIterator) (m n leading : ℕ) (some_columns : 0 < n)
    (x_matrix : IsMatrix x m n leading) (y_matrix : IsMatrix y m n leading)
    (apart : x.buffer.name ≢ y.buffer.name) (st : Store A) where
  abbrev copied : Store A
  copied = copy s ex (leading * (n - 1) + m) x (pos 1) y (pos 1) st

  copy_entry :
      (row col : ℕ)
      → row < m
      → col < n
      → entry_at copied y leading row col ≡ entry_at st x leading row col
  copy_entry row col hr hc =
      ap (λ i. copied y.buffer.name (y.offset +ℤ pos i)) {x = row + col * leading}
        {y = (row + col * leading) * 1} (omega arith)
      ∙ (copy_lem s ex some_items (leading * (n - 1) + m) x (pos 1) y (pos 1) st
            (matrix-IsVector x m n leading some_columns x_matrix)
            (matrix-IsVector y m n leading some_columns y_matrix) apart).0
          (row + col * leading) (entry_inside m n leading row col hr hc)
      ∙ ap (λ i. st x.buffer.name (x.offset +ℤ pos i)) {x = (row + col * leading) * 1}
          {y = row + col * leading} (omega arith)

  copy_other : (b : ℕ) (a : ℤ) → b ≢ y.buffer.name → copied b a ≡ st b a
  copy_other b a ne =
      (copy_lem s ex some_items (leading * (n - 1) + m) x (pos 1) y (pos 1) st
          (matrix-IsVector x m n leading some_columns x_matrix)
          (matrix-IsVector y m n leading some_columns y_matrix) apart).1
        b a (λ i h e. ne e.0)

  copy_side :
      (side : Bool) (c q : ℕ)
      → c < (if side then m else n)
      → q < (if side then n else m)
      → at_side side copied y leading c q ≡ at_side side st x leading c q
  copy_side true c q hc hq = copy_entry c q hc hq
  copy_side false c q hc hq = copy_entry q c hq hc

module _ {ℓ} {A : Type ℓ} {s : Scalar A} (exact : IsExact s)
    (add-neg : (x : A) → s.add x (s.neg x) ≡ s.zero) (ex : Executor)
    (some_items : 0 < ex.work_group_size) {run : GemmCall A → Store A → Result (Store A)}
    (gemm : IsGemm exact run) (t : System A) (apart : IsApart t) (some_rows : 0 < t.m)
    (some_columns : 0 < t.n) (x_matrix : IsMatrix t.x_ t.m t.n t.ldb)
    (b_matrix : IsMatrix t.b_ t.m t.n t.ldb) (st : Store A) where
  abbrev filled : Store A
  filled = fill t.inv_a_ s.zero (round_up (k_ s t) block_size * block_size) st

  abbrev inverted : Store A
  inverted =
      launch (num_blocks s ex run t * block_size) (inverter_eval s (inverter s ex run t)) filled

  abbrev start : Store A
  start = copy s ex (b_size s ex run t) t.b_ (pos 1) t.x_ (pos 1) inverted

  start_other :
      (b : ℕ) (x : ℤ) → b ≢ t.x_.buffer.name → b ≢ t.inv_a_.buffer.name → start b x ≡ st b x
  unfolding make_matrix_view get_range_accessor
  start_other b x ne ne' =
      copy_other s ex some_items t.b_ t.x_ t.m t.n t.ldb some_columns b_matrix x_matrix
        (λ e. apart.x_b (sym e)) inverted b x ne
      ∙ launch_elsewhere s (inverter s ex run t) (omega arith) (num_blocks s ex run t) apart.a_inv
          filled b x ne'
      ∙ fill_other t.inv_a_ s.zero _ st b x ne'

  some_equations : (side : Bool) → 0 < equations side t
  some_equations true = some_rows
  some_equations false = some_columns

  inverted_same : (b : ℕ) (x : ℤ) → b ≢ t.x_.buffer.name → start b x ≡ inverted b x
  inverted_same b x ne =
      copy_other s ex some_items t.b_ t.x_ t.m t.n t.ldb some_columns b_matrix x_matrix
        (λ e. apart.x_b (sym e)) inverted b x ne

  filled-HasDiagonal : HasDiagonal s t st → HasDiagonal s t filled
  filled-HasDiagonal diagonal =
      IsInvertible-congr s t.is_unit_diag (equations t.is_left t) _ _
        (λ j hj. sym (fill_other t.inv_a_ s.zero _ st t.a_.buffer.name _ apart.a_inv)) diagonal

  start-HasInverses : HasDiagonal s t st → HasInverses exact t (goes_up t) start
  start-HasInverses diagonal =
      launch-HasInverses exact add-neg ex t run apart.a_inv filled start
        (λ x.
          start_other t.a_.buffer.name x apart.a_x apart.a_inv
          ∙ sym (fill_other t.inv_a_ s.zero _ st t.a_.buffer.name x apart.a_inv))
        (λ x. inverted_same t.inv_a_.buffer.name x apart.inv_x) (filled-HasDiagonal diagonal)

  triangle_same :
      (row c : ℕ) → triangle s t (goes_up t) st row c ≡ triangle s t (goes_up t) start row c
  triangle_same row c =
      ap (λ v. if (if goes_up t then leb c row else leb row c) then v else s.zero)
        (op_side_congr st start t.a_
          (λ x. sym (start_other t.a_.buffer.name x apart.a_x apart.a_inv)) t.is_left t.is_transpose
          t.lda row c)

  -- `_trsm` ends, and leaves in B the solution of the triangular system: on the left of X the matrix
  -- `op(A)` and on the right its transpose, with zeros outside the triangle, times the solution is
  -- alpha times B of the memory before, and all other buffers of the caller are as before. This is
  -- for exact arithmetic, a `_gemm` that multiplies, four buffers, B and X in their buffers with
  -- columns that do not overlap, at least one row and column, and a diagonal of elements with
  -- reciprocals, or of ones for a unit diagonal.
  pub solve_system_lem :
      HasDiagonal s t st
      → (out : Store A) × (solve_system s ex run t st ≡ ok out)
        × ((row q : ℕ)
            → row < equations t.is_left t
            → q < systems t.is_left t
            → total exact
                (equations t.is_left t)
                (λ c. s.mul (triangle s t (goes_up t) st row c) (b_at t t.is_left out c q))
              ≡ s.mul t.alpha (b_at t t.is_left st row q))
        × ((b : ℕ) (x : ℤ)
            → b ≢ t.b_.buffer.name
            → b ≢ t.x_.buffer.name
            → b ≢ t.inv_a_.buffer.name
            → out b x ≡ st b x)
  unfolding solve_system
  solve_system_lem diagonal =
      let solved =
        solve_blocks_lem exact t gemm add-neg x_matrix b_matrix apart start
          (some_equations t.is_left) (start-HasInverses diagonal) in
      (
        copy s ex (b_size s ex run t) t.x_ (pos 1) t.b_ (pos 1) solved.0,
        ap
            (λ r.
              r >>= λ solved. ok (copy s ex (b_size s ex run t) t.x_ (pos 1) t.b_ (pos 1) solved))
            solved.1,
        λ row q hr hq.
            total_congr exact (equations t.is_left t) _ _ (λ c hc. ap₂ s.mul (triangle_same row c) (
              copy_side s ex some_items t.x_ t.b_ t.m t.n t.ldb some_columns x_matrix b_matrix
                apart.x_b solved.0 t.is_left c q hc hq))
            ∙ solved.2.holds row q hr hq
            ∙ ap (s.mul t.alpha) (
                at_side_congr start st t.b_
                  (λ x.
                    start_other t.b_.buffer.name x (λ e. apart.x_b (sym e))
                      (λ e. apart.inv_b (sym e)))
                  t.is_left t.ldb row q),
        λ b x ne_b ne_x ne_inv.
            copy_other s ex some_items t.x_ t.b_ t.m t.n t.ldb some_columns x_matrix b_matrix
              apart.x_b solved.0 b x ne_b
            ∙ solved.2.kept b x ne_x ne_b
            ∙ start_other b x ne_x ne_inv,
      )
