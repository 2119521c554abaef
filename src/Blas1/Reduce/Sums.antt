-- ===== src/Blas1/Reduce/Sums.antt =====
-- `_dot`, `_asum` and `_nrm2`: the sums that they leave in the result's buffer, with exact arithmetic.
use mathlib.Core.Path.{ap₂}
use mathlib.Core.Option
use sycl_blas.Base.{ℕ, suc, ◌^◌, ◌<◌, ◌≡◌, refl, sym, ap, ◌∙◌, arith, some}
use sycl_blas.Base.Int.{ℤ, pos}
use sycl_blas.Base.Scalar.{Scalar, IsExact, sum_monoid}
use sycl_blas.Base.Sums.{sum}
use sycl_blas.Container.{BufferIterator}
use sycl_blas.Views.{Store}
use sycl_blas.Operators.{Limits, eval_unary, eval_binary, init, add, absolute_add, sqrt, square}
use sycl_blas.Trees
use sycl_blas.Trees.{Expr, leaf, unary_op, eval, view_size}
use sycl_blas.Executor.{Executor}
use sycl_blas.Reduction.Block.{IsReduction, lt_two_pow}
use sycl_blas.Blas1.{vector_of, run_assign}
use sycl_blas.Blas1.Vectors.{
  IsVector, IsElsewhere, read, vector_of-size, self-IsApart, eval-vector, run_assign_lem,
}
use sycl_blas.Blas1.Reduce.{reduce, dot, asum, nrm2}
use sycl_blas.Blas1.Reduce.Run.{run_reduction_lem}

-- The laws of the absolute value that a sum of absolute values relies on.
pub record IsAbsolute {ℓ} {A : Type ℓ} (s : Scalar A) : Type ℓ where
  pub abs-zero : s.abs s.zero ≡ s.zero
  pub abs-abs : (a : A) → s.abs (s.abs a) ≡ s.abs a
  pub abs-add : (a b : A) → s.abs (s.add (s.abs a) (s.abs b)) ≡ s.add (s.abs a) (s.abs b)

module _ {ℓ} {A : Type ℓ} {s : Scalar A} (exact : IsExact s) where
  -- Addition reduces to the sum.
  pub add-IsReduction : IsReduction (sum_monoid exact) (eval_binary s add) s.zero ◌≡◌ ◌≡◌
  unfolding eval_binary
  add-IsReduction = record { start = refl; step = ap₂ s.add; join = ap₂ s.add }

  -- The absolute sum reduces to the sum of the absolute values.
  absolute_add-IsReduction :
      IsAbsolute s
      → IsReduction
          (sum_monoid exact)
          (eval_binary s absolute_add)
          s.zero
          (λ a x. a ≡ s.abs x)
          (λ a x. (a ≡ x) × (s.abs a ≡ a))
  unfolding eval_binary
  absolute_add-IsReduction absolute = record {
    start = (refl, absolute.abs-zero);
    step = λ p e. both (sym p.1 ∙ ap s.abs p.0) e;
    join = λ p e. both (sym p.1 ∙ ap s.abs p.0) (sym e.1 ∙ ap s.abs e.0);
  }
    where
      both :
          {a b x y : A}
          → a ≡ s.abs x
          → b ≡ s.abs y
          → (s.add a b ≡ s.add (s.abs x) (s.abs y)) × (s.abs (s.add a b) ≡ s.add a b)
      both {a} {b} {x} {y} p e =
          let q : s.add a b ≡ s.add (s.abs x) (s.abs y) = ap₂ s.add p e in
          (q, ap s.abs q ∙ absolute.abs-add x y ∙ sym q)

  module _ (limits : Limits A) (ex : Executor) (fuel q : ℕ) (temp : ℕ → A)
      (size : ex.work_group_size ≡ 2 ^ q) where
    some_items : 0 < ex.work_group_size
    some_items = let p = lt_two_pow q in omega (arith, size)

    -- A reduction by addition, of a tree of `n` elements.
    reduce-add :
        (rhs : Expr A) (h : ℕ → A) (n : ℕ) (rs : BufferIterator) (st : Store A)
        → Trees.get_size rhs ≡ n
        → IsVector rs (pos 1) 1
        → ((k : ℕ) → k < n → eval s rhs st k ≡ h k)
        → (out : Store A) × (reduce s limits ex
              (suc (suc fuel))
              temp
              add
              rhs
              (vector_of rs (pos 1) 1)
              st
            ≡ some out)
          × (read out rs (pos 1) 1 0 ≡ sum (sum_monoid exact) n h)
          × ((b : ℕ) (a : ℤ) → IsElsewhere rs (pos 1) 1 b a → out b a ≡ st b a)
    unfolding reduce init
    reduce-add rhs h n rs st count vr operands =
        let all =
          run_reduction_lem add-IsReduction ex fuel q h (eval s rhs st) (Trees.get_size rhs) rs temp
            st size vr (λ k p. sym (operands k (omega arith))) in
        (all.0, all.1, sym all.2 ∙ ap (λ k. sum (sum_monoid exact) k h) count, all.3)

    -- With exact arithmetic and a work group whose size is a power of two, the reduction ends, the
    -- first element of the result is the inner product of the vectors, and nothing else in memory has
    -- changed.
    pub dot_lem :
        (n : ℕ) (x : BufferIterator) (incx : ℤ) (y : BufferIterator) (incy : ℤ)
        (rs : BufferIterator) (st : Store A)
        → IsVector x incx n
        → IsVector y incy n
        → IsVector rs (pos 1) 1
        → (out : Store A) × (dot s limits ex (suc (suc fuel)) temp n x incx y incy rs st ≡ some out)
          × (read out rs (pos 1) 1 0
              ≡ sum (sum_monoid exact) n (λ i. s.mul (read st x incx n i) (read st y incy n i)))
          × ((b : ℕ) (a : ℤ) → IsElsewhere rs (pos 1) 1 b a → out b a ≡ st b a)
    unfolding dot eval eval_binary Trees.get_size
    dot_lem n x incx y incy rs st vx vy vr = reduce-add _ _ n rs st (vector_of-size vy) vr (λ i h.
        ap₂ s.mul (eval-vector s ex some_items vx st i h) (eval-vector s ex some_items vy st i h))

    -- With exact arithmetic, an absolute value that is additive on absolute values and a work group
    -- whose size is a power of two, the reduction ends, the first element of the result is the sum of
    -- the absolute values, and nothing else in memory has changed.
    pub asum_lem :
        (n : ℕ) (x : BufferIterator) (incx : ℤ) (rs : BufferIterator) (st : Store A)
        → IsAbsolute s
        → IsVector x incx n
        → IsVector rs (pos 1) 1
        → (out : Store A) × (asum s limits ex (suc (suc fuel)) temp n x incx rs st ≡ some out)
          × (read out rs (pos 1) 1 0 ≡ sum (sum_monoid exact) n (λ i. s.abs (read st x incx n i)))
          × ((b : ℕ) (a : ℤ) → IsElsewhere rs (pos 1) 1 b a → out b a ≡ st b a)
    unfolding asum reduce init Trees.get_size
    asum_lem n x incx rs st absolute vx vr =
        let size_x = vector_of-size vx in
        let all =
          run_reduction_lem (absolute_add-IsReduction absolute) ex fuel q
            (λ i. s.abs (read st x incx n i)) (eval s (leaf (vector_of x incx n)) st)
            (view_size (vector_of x incx n)) rs temp st size vr
            (λ k p. ap s.abs (sym (eval-vector s ex some_items vx st k (omega arith)))) in
        (
          all.0,
          all.1,
          sym all.2.0 ∙ ap (λ k. sum (sum_monoid exact) k (λ i. s.abs (read st x incx n i))) size_x,
          all.3,
        )

    -- With exact arithmetic and a work group whose size is a power of two, the reduction ends, the
    -- first element of the result is the root of the sum of the squares, and nothing else in memory
    -- has changed.
    pub nrm2_lem :
        (n : ℕ) (x : BufferIterator) (incx : ℤ) (rs : BufferIterator) (st : Store A)
        → IsVector x incx n
        → IsVector rs (pos 1) 1
        → (out : Store A) × (nrm2 s limits ex (suc (suc fuel)) temp n x incx rs st ≡ some out)
          × (read out rs (pos 1) 1 0
              ≡ s.sqrt
                  (sum (sum_monoid exact) n (λ i. s.mul (read st x incx n i) (read st x incx n i))))
          × ((b : ℕ) (a : ℤ) → IsElsewhere rs (pos 1) 1 b a → out b a ≡ st b a)
    unfolding nrm2 eval eval_unary Trees.get_size
    nrm2_lem n x incx rs st vx vr =
        let squares =
          reduce-add (unary_op square (leaf (vector_of x incx n)))
            (λ i. s.mul (read st x incx n i) (read st x incx n i)) n rs st (vector_of-size vx) vr
            (λ i h. ap (λ a. s.mul a a) (eval-vector s ex some_items vx st i h)) in
        let vs = vector_of rs (pos 1) 1 in
        let root =
          run_assign_lem s ex some_items vr (unary_op sqrt (leaf vs)) squares.0 (vector_of-size vr)
            (self-IsApart vs) in
        (
          run_assign s ex vs (unary_op sqrt (leaf vs)) squares.0,
          ap (Option.map (run_assign s ex vs (unary_op sqrt (leaf vs)))) squares.1,
          root.0 0 (omega arith)
              ∙ ap s.sqrt (eval-vector s ex some_items vr squares.0 0 (omega arith) ∙ squares.2),
          λ b a miss. root.1 b a miss ∙ squares.3 b a miss,
        )
