-- ===== src/Blas2/Rank/Updates.antt =====
-- The kernel as `_ger`, `_syr` and `_syr2` launch it: what it adds to the matrix.
use mathlib.Core.Path.{ap₂}
use native.Mathlib.Nat.{mod-lt, mod-add-div'}
use sycl_blas.Base.{
  ℕ, ◌+◌, ◌-◌, ◌*◌, ◌/◌, ◌<◌, ◌≤◌, ◌≡◌, ◌≢◌, sym, ap, ◌∙◌, arith, Bool, true, false, inl, inr,
  if◌then◌else◌, Bool-cases,
}
use sycl_blas.Base.Int.{ℤ, pos, ◌+ℤ◌, int_laws}
use sycl_blas.Base.Scalar.{Scalar}
use sycl_blas.Container.{BufferIterator}
use sycl_blas.Views.{
  Store, make_matrix_view, make_vector_view, vector_view, vector_eval, matrix_address, col_major,
  get_range_accessor,
}
use sycl_blas.Kernel.{launch}
use sycl_blas.Trees.{eval, view_name, view_address}
use sycl_blas.Executor.{Executor}
use sycl_blas.Blas1.{vector_of}
use sycl_blas.Blas1.Vectors.{IsVector, read, eval-vector}
use sycl_blas.Ger.{GerCol, is_updated, ger_eval}
use sycl_blas.Ger.Fill.{addend}
use sycl_blas.Ger.Launch.{ger_launch_lem}
use sycl_blas.Blas2.Rank.{RankCall, groups}

-- Groups of `per` cover what they are counted for.
groups_cover : (count per : ℕ) → 0 < per → count ≤ groups count per * per
groups_cover count per h =
    let rest = mod-lt (count - 1) h in let back = mod-add-div' (count - 1) per in omega arith

-- Element `r`, `c` of the matrix of a call.
abbrev pub entry {ℓ} : {A : Type ℓ} → RankCall A → Store A → ℕ → ℕ → A
entry call st r c = st call.a_.buffer.name (call.a_.offset +ℤ pos (r + c * call.lda))

-- `alpha * x * yᵀ`, and in `_syr2` with `alpha * y * xᵀ` added to it.
abbrev pub rank_one {ℓ} : {A : Type ℓ} → Scalar A → A → (ℕ → A) → (ℕ → A) → ℕ → ℕ → A
rank_one s alpha x y r c = s.mul (x r) (s.mul alpha (y c))

abbrev pub rank_two {ℓ} : {A : Type ℓ} → Scalar A → A → (ℕ → A) → (ℕ → A) → ℕ → ℕ → A
rank_two s alpha x y r c = s.add (rank_one s alpha x y r c) (rank_one s alpha y x r c)

-- The matrix has `term` added to it where `chosen` holds, and nothing else has changed.
abbrev pub IsUpdated {ℓ} :
    {A : Type ℓ}
    → Scalar A
    → RankCall A
    → ℕ
    → ℕ
    → (ℕ → ℕ → Bool)
    → (ℕ → ℕ → A)
    → Store A
    → Store A
    → Type ℓ
IsUpdated s call m n chosen term st out =
    ((r c : ℕ)
      → r < m
      → c < n
      → entry call out r c
        ≡ (if chosen r c then s.add (entry call st r c) (term r c) else entry call st r c))
    × ((b : ℕ) (a : ℤ)
        → ((r c : ℕ)
            → r < m
            → c < n
            → ¬ ((b ≡ call.a_.buffer.name) × (a ≡ call.a_.offset +ℤ pos (r + c * call.lda))))
        → out b a ≡ st b a)

module _ {ℓ} {A : Type ℓ} (s : Scalar A) (ex : Executor) (call : RankCall A) (start : ℕ → A)
    (items : 0 < ex.work_group_size) where
  vector_value :
      {it : BufferIterator} {inc : ℤ} {n : ℕ} (v : IsVector it inc n) (st : Store A) (i : ℕ)
      → i < n
      → vector_eval (make_vector_view it inc n) st i ≡ read st it inc n i
  unfolding vector_eval eval vector_of view_name view_address
  vector_value v st i h = eval-vector s ex items v st i h

  entry_address :
      (m n r c : ℕ)
      → matrix_address (make_matrix_view col_major call.a_ m n call.lda) r c
        ≡ call.a_.offset +ℤ pos (r + c * call.lda)
  unfolding matrix_address make_matrix_view
  entry_address m n r c = omega int_laws

  -- The kernel of an `m` by `n` matrix in groups of as many items as the device has.
  abbrev pub kernel :
      (is_single lower upper : Bool) (y : BufferIterator) (incy : ℤ) (m n local_memory_size : ℕ)
      → GerCol A
  kernel is_single lower upper y incy m n local_memory_size = record {
    is_single = is_single;
    lower = lower;
    diag = true;
    upper = upper;
    lhs_ = make_matrix_view col_major call.a_ m n call.lda;
    scalar_ = call.alpha;
    rhs_1_ = make_vector_view call.x_ call.incx m;
    rhs_2_ = make_vector_view y incy n;
    nwg_row_ = groups m ex.work_group_size;
    nwg_col_ = groups n ex.work_group_size;
    local_memory_size_ = local_memory_size;
  }

  module _ (is_single lower upper : Bool) (y : BufferIterator) (incy : ℤ)
      (m n local_memory_size : ℕ) (vx : IsVector call.x_ call.incx m) (vy : IsVector y incy n)
      (other_x : call.x_.buffer.name ≢ call.a_.buffer.name)
      (other_y : y.buffer.name ≢ call.a_.buffer.name) (wide : m ≤ call.lda)
      (square : is_single ≡ false → m ≡ n)
      (blocks : 0 < (if is_single then local_memory_size else local_memory_size / 2)) where
    abbrev this : GerCol A
    this = kernel is_single lower upper y incy m n local_memory_size

    abbrev term : Store A → ℕ → ℕ → A
    term st =
        if is_single
        then rank_one s call.alpha (read st call.x_ call.incx m) (read st y incy n)
        else rank_two s call.alpha (read st call.x_ call.incx m) (read st y incy n)

    addend_lem : (st : Store A) (r c : ℕ) → r < m → c < n → addend s this st r c ≡ term st r c
    addend_lem st r c hr hc =
        let x_r = vector_value vx st r hr in
        let y_c = vector_value vy st c hc in
        elim (Bool-cases is_single) [
          | inl one ↦ rw (one, x_r, y_c)
          | inr two ↦
              let same = square two in
              rw (
                two,
                x_r,
                y_c,
                vector_value vx st c (omega arith),
                vector_value vy st r (omega arith),
              )
        ]

    abbrev out : Store A → Store A
    out =
        launch (ex.work_group_size * groups m ex.work_group_size * groups n ex.work_group_size)
          (ger_eval s this start ex.work_group_size)

    pub rank_lem : (st : Store A) → IsUpdated s call m n (is_updated s this) (term st) st (out st)
    unfolding make_matrix_view make_vector_view vector_view get_range_accessor
    rank_lem st =
        let all =
          ger_launch_lem s this ex.work_group_size other_x other_y wide items (omega arith)
            (omega arith) (λ _. groups_cover n ex.work_group_size items) blocks start st in
        (
          λ r c hr hc.
              ap (out st call.a_.buffer.name) (sym (entry_address m n r c))
              ∙ all.0 r c hr hc
              ∙ ap₂ (λ x y. if is_updated s this r c then s.add x y else x)
                  (ap (st call.a_.buffer.name) (entry_address m n r c)) (addend_lem st r c hr hc),
          λ b a miss. all.1 b a (λ r c hr hc q. miss r c hr hc (q.0, q.1 ∙ entry_address m n r c)),
        )

  pub choose :
      (m n : ℕ) (chosen chosen' : ℕ → ℕ → Bool) (term : ℕ → ℕ → A) (st out : Store A)
      → ((r c : ℕ) → chosen r c ≡ chosen' r c)
      → IsUpdated s call m n chosen term st out
      → IsUpdated s call m n chosen' term st out
  choose m n chosen chosen' term st out same h = (
    λ r c hr hc.
        h.0 r c hr hc
        ∙ ap (λ b. if b then s.add (entry call st r c) (term r c) else entry call st r c)
            (same r c),
    h.1,
  )
