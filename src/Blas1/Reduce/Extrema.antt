-- ===== src/Blas1/Reduce/Extrema.antt =====
-- `_iamax` and `_iamin`: the index that they leave in the result's buffer.
use mathlib.Core.Bool.{false≢true}
use mathlib.Core.Path.{subst}
use sycl_blas.Base.{
  ℕ, suc, ◌^◌, ◌<◌, ◌≤◌, ◌≡◌, ◌⊎◌, sym, ap, ◌∙◌, arith, inl, inr, some, Bool, true, false, ◌==◌,
}
use sycl_blas.Base.Int.{ℤ, pos}
use sycl_blas.Base.Scalar.{Scalar}
use sycl_blas.Base.Sums.{sum}
use sycl_blas.Container.{BufferIterator}
use sycl_blas.Views.{Store}
use sycl_blas.Operators.{Limits, IndexValueTuple, imax, imin, imax_init, imin_init}
use sycl_blas.Operators.Indexed.{
  IsOrder, IsChoice, choose, choose-IsReduction, singleton-IsChoice, union_monoid, union_member,
  union_member_bound,
}
use sycl_blas.Trees
use sycl_blas.Trees.{leaf, view_size}
use sycl_blas.Executor.{Executor}
use sycl_blas.Reduction.Block.{lt_two_pow}
use sycl_blas.Blas1.{vector_of}
use sycl_blas.Blas1.Vectors.{IsVector, IsElsewhere, read, vector_of-size, eval-vector}
use sycl_blas.Blas1.Reduce.{iamax, iamin, tuple_op, run_reduction}
use sycl_blas.Blas1.Reduce.Run.{run_reduction_lem}

-- The tuple holds the first index below `n` of a value that no other one is better than.
abbrev pub IsFirstBest {ℓ} :
    {A : Type ℓ} → (A → A → Bool) → (A → A → Bool) → (ℕ → A) → ℕ → IndexValueTuple A → Type ℓ
IsFirstBest less same value n t =
    (t.ind < n)
    × (t.val ≡ value t.ind)
    × ((k : ℕ)
        → k < n
        → (less (value t.ind) (value k) ≡ false)
          × (same (value t.ind) (value k) ≡ true → t.ind ≤ k))

module _ {ℓ} {A : Type ℓ} (less same : A → A → Bool) (order : IsOrder less same) (value : ℕ → A)
    (start : IndexValueTuple A) where
  choice_lem :
      (n : ℕ) (t : IndexValueTuple A)
      → 0 < n
      → n ≤ start.ind
      → ((k : ℕ) → k < n → (less start.val (value k) ≡ true) ⊎ (same start.val (value k) ≡ true))
      → IsChoice less same order value start (sum union_monoid n (λ k j. j == k)) t
      → IsFirstBest less same value n t
  choice_lem n t some_values below worst c = elim (c.origin) [
    | inl e ↦
        let b = c.best 0 (union_member n (λ i. i) 0 some_values) in
        elim (worst 0 some_values) [
          | inl w ↦
              absurd
                (false≢true (sym b.0 ∙ ap (λ (u : IndexValueTuple A). less u.val (value 0)) e ∙ w))
          | inr w ↦
              let l = b.1 (ap (λ (u : IndexValueTuple A). same u.val (value 0)) e ∙ w) in
              let i = ap (λ (u : IndexValueTuple A). u.ind) e in absurd (omega arith)
        ]
    | inr o ↦ (
      union_member_bound n (λ i. i) n (λ k h. h) t.ind o.0,
      o.1,
      λ k h.
          subst (λ v. (less v (value k) ≡ false) × (same v (value k) ≡ true → t.ind ≤ k)) o.1
            (c.best k (union_member n (λ i. i) k h)),
    )
  ]

module _ {ℓ} {A : Type ℓ} (s : Scalar A) (limits : Limits A) (ex : Executor) (fuel q max_index : ℕ)
    (temp : ℕ → IndexValueTuple A) (size : ex.work_group_size ≡ 2 ^ q) where
  -- The reduction of the elements of a vector by a choice among them.
  run_choice_lem :
      (less same : A → A → Bool) (order : IsOrder less same) (start : IndexValueTuple A) (n : ℕ)
      (x : BufferIterator) (incx : ℤ) (rs : BufferIterator) (st : Store A)
      (results : Store (IndexValueTuple A))
      → ((k : ℕ)
          → k < n
          → (less start.val (read st x incx n k) ≡ true)
            ⊎ (same start.val (read st x incx n k) ≡ true))
      → IsVector x incx n
      → IsVector rs (pos 1) 1
      → 0 < n
      → n ≤ start.ind
      → (out : Store (IndexValueTuple A)) × (run_reduction ex
            (suc (suc fuel))
            (choose less same order (read st x incx n) start)
            start
            (tuple_op s (leaf (vector_of x incx n)) st)
            (view_size (vector_of x incx n))
            (vector_of rs (pos 1) 1)
            temp
            results
          ≡ some out)
        × IsFirstBest less same (read st x incx n) n (read out rs (pos 1) 1 0)
        × ((b : ℕ) (a : ℤ) → IsElsewhere rs (pos 1) 1 b a → out b a ≡ results b a)
  unfolding tuple_op
  run_choice_lem less same order start n x incx rs st results worst vx vr some_values below =
      let value = read st x incx n in
      let count = vector_of-size vx in
      let some_items : 0 < ex.work_group_size = (let p = lt_two_pow q in omega (arith, size)) in
      let all =
        run_reduction_lem (choose-IsReduction less same order value start) ex fuel q (λ k j. j == k)
          (tuple_op s (leaf (vector_of x incx n)) st) (view_size (vector_of x incx n)) rs temp
          results size vr
          (λ k h.
            subst
              (λ v.
                IsChoice less same order value start (λ j. j == k) (record { ind = k; val = v }))
              (sym (eval-vector s ex some_items vx st k (omega arith)))
              (singleton-IsChoice less same order value start k)) in
      (
        all.0,
        all.1,
        choice_lem less same order value start n (read all.0 rs (pos 1) 1 0) some_values below worst
            (subst
              (λ c.
                IsChoice less same order value start (sum union_monoid c (λ k j. j == k))
                  (read all.0 rs (pos 1) 1 0))
              count all.2),
        all.3,
      )

  -- The result holds the first index of an element whose absolute value is the largest, for an order
  -- of the absolute values with zero at its start, a work group whose size is a power of two, and a
  -- vector that is not empty, lies inside its buffer and has a count that the indices can hold; the
  -- reduction ends, and changes nothing else.
  pub iamax_lem :
      (n : ℕ) (x : BufferIterator) (incx : ℤ) (rs : BufferIterator) (st : Store A)
      (results : Store (IndexValueTuple A))
      → IsOrder {A = A} (λ a b. s.below (s.abs a) (s.abs b)) (λ a b. s.equal (s.abs a) (s.abs b))
      → ((a : A)
          → (s.below (s.abs s.zero) (s.abs a) ≡ true) ⊎ (s.equal (s.abs s.zero) (s.abs a) ≡ true))
      → IsVector x incx n
      → IsVector rs (pos 1) 1
      → 0 < n
      → n ≤ max_index
      → (out : Store (IndexValueTuple A)) × (iamax s limits ex
            (suc (suc fuel))
            max_index
            temp
            n
            x
            incx
            rs
            st
            results
          ≡ some out)
        × IsFirstBest
            (λ a b. s.below (s.abs a) (s.abs b))
            (λ a b. s.equal (s.abs a) (s.abs b))
            (read st x incx n)
            n
            (read out rs (pos 1) 1 0)
        × ((b : ℕ) (a : ℤ) → IsElsewhere rs (pos 1) 1 b a → out b a ≡ results b a)
  unfolding iamax imax imax_init tuple_op Trees.get_size
  iamax_lem n x incx rs st results order worst vx vr some_values below =
      run_choice_lem (λ a b. s.below (s.abs a) (s.abs b)) (λ a b. s.equal (s.abs a) (s.abs b)) order
        (record { ind = max_index; val = s.zero }) n x incx rs st results
        (λ k _. worst (read st x incx n k)) vx vr some_values below

  -- The result holds the first index of an element whose absolute value is the smallest, for an order
  -- of the absolute values, in which the largest number is no less than those of the elements, a
  -- work group whose size is a power of two, and a vector that is not empty, lies inside its buffer and
  -- has a count that the indices can hold; the reduction ends, and changes nothing else.
  pub iamin_lem :
      (n : ℕ) (x : BufferIterator) (incx : ℤ) (rs : BufferIterator) (st : Store A)
      (results : Store (IndexValueTuple A))
      → IsOrder {A = A} (λ a b. s.below (s.abs b) (s.abs a)) (λ a b. s.equal (s.abs a) (s.abs b))
      → ((k : ℕ)
          → k < n
          → (s.below (s.abs (read st x incx n k)) (s.abs limits.largest) ≡ true)
            ⊎ (s.equal (s.abs limits.largest) (s.abs (read st x incx n k)) ≡ true))
      → IsVector x incx n
      → IsVector rs (pos 1) 1
      → 0 < n
      → n ≤ max_index
      → (out : Store (IndexValueTuple A)) × (iamin s limits ex
            (suc (suc fuel))
            max_index
            temp
            n
            x
            incx
            rs
            st
            results
          ≡ some out)
        × IsFirstBest
            (λ a b. s.below (s.abs b) (s.abs a))
            (λ a b. s.equal (s.abs a) (s.abs b))
            (read st x incx n)
            n
            (read out rs (pos 1) 1 0)
        × ((b : ℕ) (a : ℤ) → IsElsewhere rs (pos 1) 1 b a → out b a ≡ results b a)
  unfolding iamin imin imin_init tuple_op Trees.get_size
  iamin_lem n x incx rs st results order worst vx vr some_values below =
      run_choice_lem (λ a b. s.below (s.abs b) (s.abs a)) (λ a b. s.equal (s.abs a) (s.abs b)) order
        (record { ind = max_index; val = limits.largest }) n x incx rs st results worst vx vr
        some_values below
