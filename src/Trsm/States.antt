-- ===== src/Trsm/States.antt =====
-- The memory between two blocks of a loop of `_trsm`.
use mathlib.Core.Path.{ap₂, subst}
use sycl_blas.Base.{
  ℕ, ◌+◌, ◌-◌, ◌*◌, ◌<◌, ◌≤◌, ◌≡◌, ◌≢◌, ◌⊎◌, Bool, true, false, sym, ap, ◌∙◌, arith, if◌then◌else◌,
  leb, min, fun_ext,
}
use sycl_blas.Base.Int.{ℤ}
use sycl_blas.Base.Scalar.{Scalar, IsExact}
use sycl_blas.Base.Matrices.{total, total_congr, identity}
use sycl_blas.Container.{BufferIterator, advance}
use sycl_blas.Views.{Store}
use sycl_blas.Gemm.Call.{op_entry}
use sycl_blas.Trsm.Calls.{System, block_size, shift, factor}
use sycl_blas.Trsm.Substitution.{IsPartly, next-IsPartly, all-IsPartly, block_solves}
use sycl_blas.Trsm.Steps.{
  IsApart, at_side, op_side, equations, systems, x_at, b_at, a_at, inverse_at, IsSolveStep,
  IsUpdateStep,
}

module _ {ℓ} {A : Type ℓ} (st st' : Store A) (it : BufferIterator)
    (same : (x : ℤ) → st it.buffer.name x ≡ st' it.buffer.name x) where
  pub at_side_congr :
      (side : Bool) (leading c q : ℕ)
      → at_side side st it leading c q ≡ at_side side st' it leading c q
  at_side_congr true leading c q = same _
  at_side_congr false leading c q = same _

  op_entry_congr :
      (trans : Bool) (leading row col : ℕ)
      → op_entry st trans it leading row col ≡ op_entry st' trans it leading row col
  op_entry_congr true leading row col = same _
  op_entry_congr false leading row col = same _

  pub op_side_congr :
      (side trans : Bool) (leading row col : ℕ)
      → op_side side st trans it leading row col ≡ op_side side st' trans it leading row col
  op_side_congr true trans leading row col = op_entry_congr trans leading row col
  op_side_congr false trans leading row col = op_entry_congr trans leading col row

-- The triangle of the equations, by whether the loop goes up: a lower one then, an upper one else.
abbrev pub triangle {ℓ} : {A : Type ℓ} → Scalar A → System A → Bool → Store A → ℕ → ℕ → A
triangle s t goes_up st row col =
    if (if goes_up then leb col row else leb row col) then a_at t t.is_left st row col else s.zero

module _ {ℓ} {A : Type ℓ} {s : Scalar A} (exact : IsExact s) (t : System A) (goes_up : Bool)
    (start : Store A) where
  -- The right-hand side of an equation.
  abbrev pub target : ℕ → ℕ → A
  target q row = s.mul t.alpha (b_at t t.is_left start row q)

  pub record IsState (done : ℕ → Bool) (is_first : Bool) (st : Store A) : Type ℓ where
    pub partly :
        (q : ℕ)
        → q < systems t.is_left t
        → IsPartly exact
            (equations t.is_left t)
            (triangle s t goes_up start)
            (target q)
            done
            (λ c. x_at t t.is_left st c q)
            (λ row. s.mul (factor s t is_first) (b_at t t.is_left st row q))
    pub kept : (b : ℕ) (x : ℤ) → b ≢ t.x_.buffer.name → b ≢ t.b_.buffer.name → st b x ≡ start b x

  -- All equations hold in a memory, and the buffers but X and B are as at the start.
  pub record IsSolution (st : Store A) : Type ℓ where
    pub holds :
        (row q : ℕ)
        → row < equations t.is_left t
        → q < systems t.is_left t
        → total exact
            (equations t.is_left t)
            (λ c. s.mul (triangle s t goes_up start row c) (x_at t t.is_left st c q))
          ≡ target q row
    pub kept : (b : ℕ) (x : ℤ) → b ≢ t.x_.buffer.name → b ≢ t.b_.buffer.name → st b x ≡ start b x

  -- The inverses of the diagonal blocks are in memory.
  abbrev pub HasInverses : Type ℓ
  HasInverses =
      (block i size : ℕ)
      → i ≡ block * block_size
      → i < equations t.is_left t
      → size ≡ min (equations t.is_left t - i) block_size
      → (l j : ℕ) → l < size
      → j < size
      → total exact size (λ k.
        s.mul (triangle s t goes_up start (i + l) (i + k)) (inverse_at t t.is_left start i k j))
        ≡ identity exact l j

  pub state-IsSolution :
      (done : ℕ → Bool) (is_first : Bool) (st : Store A)
      → ((c : ℕ) → c < equations t.is_left t → done c ≡ true)
      → IsState done is_first st
      → IsSolution st
  state-IsSolution done is_first st all h = record {
    holds = λ row q hr hq.
        all-IsPartly exact (equations t.is_left t) (triangle s t goes_up start) (target q) done _ _
          all (h.partly q hq) row hr;
    kept = h.kept;
  }

  module _ (apart : IsApart t) (inverses : HasInverses) (done done' : ℕ → Bool) (is_first : Bool)
      (st out : Store A) (h : IsState done is_first st) (block i size : ℕ)
      (at : i ≡ block * block_size) (all_of_it : size ≡ min (equations t.is_left t - i) block_size)
      (some_rows : i < equations t.is_left t)
      (step : IsSolveStep exact t t.is_left i size (factor s t is_first) st out)
      (fresh : (c : ℕ) → c < size → done (i + c) ≡ false)
      (now : (c : ℕ) → c < size → done' (i + c) ≡ true)
      (same : (c : ℕ) → (c < i) ⊎ (i + size ≤ c) → done' c ≡ done c)
      (zeros : (row c : ℕ)
        → done row ≡ true
        → c < size
        → triangle s t goes_up start row (i + c) ≡ s.zero) where
    inverse_eq : (l k : ℕ) → inverse_at t t.is_left st i l k ≡ inverse_at t t.is_left start i l k
    unfolding advance
    inverse_eq l k =
        op_side_congr st start (shift t.inv_a_ (i * block_size))
          (λ x. h.kept t.inv_a_.buffer.name x apart.inv_x apart.inv_b) t.is_left t.is_transpose
          block_size l k

    solves :
        (q : ℕ)
        → q < systems t.is_left t
        → (c : ℕ) → c < size
        → total exact size (λ k.
          s.mul (triangle s t goes_up start (i + c) (i + k)) (x_at t t.is_left out (i + k) q))
          ≡ s.mul (factor s t is_first) (b_at t t.is_left st (i + c) q)
    solves q hq c hc =
        total_congr exact size _ _ (λ k hk.
          ap (s.mul (triangle s t goes_up start (i + c) (i + k))) (
            step.inside k q hk hq
            ∙ total_congr exact size _ _ (λ l _.
              ap (λ w. s.mul w (s.mul (factor s t is_first) (b_at t t.is_left st (i + l) q)))
                (inverse_eq k l))))
        ∙ block_solves exact size (λ l k. triangle s t goes_up start (i + l) (i + k))
            (inverse_at t t.is_left start i)
            (λ l. s.mul (factor s t is_first) (b_at t t.is_left st (i + l) q))
            (inverses block i size at some_rows all_of_it) c hc

    step-IsPartly :
        (rest : ℕ → ℕ → A)
        → ((row q : ℕ)
            → row < equations t.is_left t
            → q < systems t.is_left t
            → done' row ≡ false
            → s.add (rest q row) (
                total exact size (λ c.
                  s.mul (triangle s t goes_up start row (i + c)) (x_at t t.is_left out (i + c) q)))
              ≡ s.mul (factor s t is_first) (b_at t t.is_left st row q))
        → (q : ℕ) → q < systems t.is_left t
        → IsPartly exact
            (equations t.is_left t)
            (triangle s t goes_up start)
            (target q)
            done'
            (λ c. x_at t t.is_left out c q)
            (rest q)
    step-IsPartly rest update q hq =
        next-IsPartly exact (equations t.is_left t) (triangle s t goes_up start) (target q) done
          done' (λ c. x_at t t.is_left st c q) (λ c. x_at t t.is_left out c q) _ (rest q)
          (h.partly q hq) i size (omega arith) fresh now same (λ c hc o d. step.outside c q hc hq o)
          (solves q hq) (λ row c hr d hc. zeros row c d hc) (λ row hr d. update row q hr hq d)

    -- Where the block was the last one, all equations hold.
    pub last-IsSolution : ((c : ℕ) → c < equations t.is_left t → done' c ≡ true) → IsSolution out
    last-IsSolution all = state-IsSolution done' is_first out all (record {
      partly =
          step-IsPartly (λ q row. s.mul (factor s t is_first) (b_at t t.is_left out row q))
            (λ row q hr hq d. cc (d, all row hr));
      kept = λ b x ne ne'. step.others b x ne ∙ h.kept b x ne ne';
    })

    -- A block that is not the last one is taken out of the rows that are left.
    pub next-IsState :
        (lo count : ℕ) (after : Store A)
        → IsUpdateStep exact t t.is_left lo count i size (factor s t is_first) out after
        → ((row : ℕ)
            → row < equations t.is_left t
            → done' row ≡ false
            → (lo ≤ row) × (row < lo + count))
        → ((row c : ℕ)
            → done' row ≡ false
            → c < size
            → triangle s t goes_up start row (i + c) ≡ a_at t t.is_left start row (i + c))
        → IsState done' false after
    next-IsState lo count after update rows side = record {
      partly = λ q hq.
          subst
            (λ f.
              IsPartly exact (equations t.is_left t) (triangle s t goes_up start) (target q) done' f
                (λ row. s.mul (factor s t false) (b_at t t.is_left after row q)))
            (fun_ext (λ c.
              at_side_congr out after t.x_ (λ x. sym (update.others t.x_.buffer.name x apart.x_b))
                t.is_left t.ldb c q))
            (step-IsPartly (λ q row. s.mul (factor s t false) (b_at t t.is_left after row q))
              (λ row q hr hq d. taken row q hr hq d) q hq);
      kept = λ b x ne ne'. update.others b x ne' ∙ step.others b x ne ∙ h.kept b x ne ne';
    }
      where
        a_eq : (row c : ℕ) → a_at t t.is_left start row c ≡ a_at t t.is_left out row c
        a_eq row c =
            op_side_congr start out t.a_
              (λ x. sym (
                step.others t.a_.buffer.name x apart.a_x
                ∙ h.kept t.a_.buffer.name x apart.a_x apart.a_b))
              t.is_left t.is_transpose t.lda row c

        taken :
            (row q : ℕ)
            → row < equations t.is_left t
            → q < systems t.is_left t
            → done' row ≡ false
            → s.add (s.mul (factor s t false) (b_at t t.is_left after row q)) (
                total exact size (λ c.
                  s.mul (triangle s t goes_up start row (i + c)) (x_at t t.is_left out (i + c) q)))
              ≡ s.mul (factor s t is_first) (b_at t t.is_left st row q)
        taken row q hr hq d =
            let range = rows row hr d in
            ap₂ s.add (exact.one-mul _) (
              total_congr exact size _ _ (λ c hc.
                ap (λ w. s.mul w (x_at t t.is_left out (i + c) q))
                  (side row c d hc ∙ a_eq row (i + c))))
            ∙ subst
                (λ r.
                  s.add (b_at t t.is_left after r q) (
                    total exact size (λ k.
                      s.mul (a_at t t.is_left out r (i + k)) (x_at t t.is_left out (i + k) q)))
                  ≡ s.mul (factor s t is_first) (b_at t t.is_left out r q))
                {x = lo + (row - lo)} {y = row} (omega (arith, range.0))
                (update.inside (row - lo) q (omega (arith, range.0, range.1)) hq)
            ∙ ap (s.mul (factor s t is_first)) (
                at_side_congr out st t.b_
                  (λ x. step.others t.b_.buffer.name x (λ e. apart.x_b (sym e))) t.is_left t.ldb row
                  q)
