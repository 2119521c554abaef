-- ===== src/Blas1/Reduce/Host/Returns.antt =====
-- What the overloads return.
use mathlib.Core.Option
use sycl_blas.Base.{
  ℕ, suc, ◌^◌, ◌<◌, ◌≤◌, ◌≡◌, ◌⊎◌, inr, refl, sym, ap, ◌∙◌, arith, some, Bool, true, false,
}
use sycl_blas.Base.Int.{ℤ, pos, ◌+ℤ◌, ◌-ℤ◌}
use sycl_blas.Base.Scalar.{Scalar, IsExact, sum_monoid}
use sycl_blas.Base.Sums.{sum}
use sycl_blas.Container.{BufferIterator, get_size, make_sycl_iterator_buffer}
use sycl_blas.Views.{Store}
use sycl_blas.Operators.{Limits, IndexValueTuple}
use sycl_blas.Operators.Indexed.{IsOrder}
use sycl_blas.Executor.{Executor}
use sycl_blas.Blas1.Vectors.{IsVector, read}
use sycl_blas.Blas1.Reduce.Sums.{IsAbsolute, dot_lem, asum_lem, nrm2_lem}
use sycl_blas.Blas1.Reduce.Extrema.{iamax_lem, iamin_lem}
use sycl_blas.Blas1.Reduce.Host.{
  gpu_res, dot_value, asum_value, nrm2_value, iamax_value, iamin_value,
}

gpu_res-IsVector : (name : ℕ) → IsVector (gpu_res name) (pos 1) 1
unfolding gpu_res get_size make_sycl_iterator_buffer ◌-ℤ◌
gpu_res-IsVector name = record {
  start = 0;
  at = refl;
  nonzero = λ e. cc (e);
  enough = inr (omega arith);
}

read-gpu_res {ℓ} :
    {A : Type ℓ} (out : Store A) (name : ℕ) → read out (gpu_res name) (pos 1) 1 0 ≡ out name (pos 0)
unfolding gpu_res make_sycl_iterator_buffer ◌+ℤ◌
read-gpu_res out name = refl

module _ {ℓ} {A : Type ℓ} {s : Scalar A} (exact : IsExact s) (limits : Limits A) (ex : Executor)
    (fuel q : ℕ) (temp : ℕ → A) (size : ex.work_group_size ≡ 2 ^ q) (name : ℕ) where
  -- With exact arithmetic and a work group whose size is a power of two, the call returns the inner
  -- product of the vectors.
  pub dot_value_lem :
      (n : ℕ) (x : BufferIterator) (incx : ℤ) (y : BufferIterator) (incy : ℤ) (st : Store A)
      → IsVector x incx n
      → IsVector y incy n
      → dot_value s limits ex (suc (suc fuel)) temp name n x incx y incy st
        ≡ some (sum (sum_monoid exact) n (λ i. s.mul (read st x incx n i) (read st y incy n i)))
  unfolding dot_value
  dot_value_lem n x incx y incy st vx vy =
      let all =
        dot_lem exact limits ex fuel q temp size n x incx y incy (gpu_res name) st vx vy
          (gpu_res-IsVector name) in
      ap (Option.map (λ (out : Store A). out name (pos 0))) all.1
      ∙ ap some (sym (read-gpu_res all.0 name) ∙ all.2)

  -- With exact arithmetic, an absolute value that is additive on absolute values and a work group
  -- whose size is a power of two, the call returns the sum of the absolute values.
  asum_value_lem :
      (n : ℕ) (x : BufferIterator) (incx : ℤ) (st : Store A)
      → IsAbsolute s
      → IsVector x incx n
      → asum_value s limits ex (suc (suc fuel)) temp name n x incx st
        ≡ some (sum (sum_monoid exact) n (λ i. s.abs (read st x incx n i)))
  unfolding asum_value
  asum_value_lem n x incx st absolute vx =
      let all =
        asum_lem exact limits ex fuel q temp size n x incx (gpu_res name) st absolute vx
          (gpu_res-IsVector name) in
      ap (Option.map (λ (out : Store A). out name (pos 0))) all.1
      ∙ ap some (sym (read-gpu_res all.0 name) ∙ all.2)

  -- With exact arithmetic and a work group whose size is a power of two, the call returns the root of
  -- the sum of the squares.
  nrm2_value_lem :
      (n : ℕ) (x : BufferIterator) (incx : ℤ) (st : Store A)
      → IsVector x incx n
      → nrm2_value s limits ex (suc (suc fuel)) temp name n x incx st
        ≡ some (
            s.sqrt
              (sum (sum_monoid exact) n (λ i. s.mul (read st x incx n i) (read st x incx n i))))
  unfolding nrm2_value
  nrm2_value_lem n x incx st vx =
      let all =
        nrm2_lem exact limits ex fuel q temp size n x incx (gpu_res name) st vx
          (gpu_res-IsVector name) in
      ap (Option.map (λ (out : Store A). out name (pos 0))) all.1
      ∙ ap some (sym (read-gpu_res all.0 name) ∙ all.2)

-- The first index below `n` of a value that no other one is better than.
abbrev pub IsFirstIndex {ℓ} :
    {A : Type ℓ} → (A → A → Bool) → (A → A → Bool) → (ℕ → A) → ℕ → ℕ → Type 0
IsFirstIndex less same value n i =
    (i < n)
    × ((k : ℕ)
        → k < n
        → (less (value i) (value k) ≡ false) × (same (value i) (value k) ≡ true → i ≤ k))

module _ {ℓ} {A : Type ℓ} (s : Scalar A) (limits : Limits A) (ex : Executor) (fuel q max_index : ℕ)
    (temp : ℕ → IndexValueTuple A) (size : ex.work_group_size ≡ 2 ^ q) (name : ℕ) where
  -- The call returns the first index of an element whose absolute value is the largest, for an order
  -- of the absolute values with zero at its start, a work group whose size is a power of two, and a
  -- vector that is not empty, lies inside its buffer and has a count that the indices can hold.
  pub iamax_value_lem :
      (n : ℕ) (x : BufferIterator) (incx : ℤ) (st : Store A) (results : Store (IndexValueTuple A))
      → IsOrder {A = A} (λ a b. s.below (s.abs a) (s.abs b)) (λ a b. s.equal (s.abs a) (s.abs b))
      → ((a : A)
          → (s.below (s.abs s.zero) (s.abs a) ≡ true) ⊎ (s.equal (s.abs s.zero) (s.abs a) ≡ true))
      → IsVector x incx n
      → 0 < n
      → n ≤ max_index
      → (i : ℕ) × (iamax_value s limits ex (suc (suc fuel)) max_index temp name n x incx st results
          ≡ some i)
        × IsFirstIndex
            (λ a b. s.below (s.abs a) (s.abs b))
            (λ a b. s.equal (s.abs a) (s.abs b))
            (read st x incx n)
            n
            i
  unfolding iamax_value
  iamax_value_lem n x incx st results order worst vx some_values below =
      let all =
        iamax_lem s limits ex fuel q max_index temp size n x incx (gpu_res name) st results order
          worst vx (gpu_res-IsVector name) some_values below in
      (
        (read all.0 (gpu_res name) (pos 1) 1 0).ind,
        ap (Option.map (λ (out : Store (IndexValueTuple A)). (out name (pos 0)).ind)) all.1
            ∙ ap (λ (t : IndexValueTuple A). some t.ind) (sym (read-gpu_res all.0 name)),
        (all.2.0, all.2.2),
      )

  -- The call returns the first index of an element whose absolute value is the smallest, for an order
  -- of the absolute values, in which the largest number is no less than those of the elements, a work
  -- group whose size is a power of two, and a vector that is not empty and whose count the indices can
  -- hold.
  iamin_value_lem :
      (n : ℕ) (x : BufferIterator) (incx : ℤ) (st : Store A) (results : Store (IndexValueTuple A))
      → IsOrder {A = A} (λ a b. s.below (s.abs b) (s.abs a)) (λ a b. s.equal (s.abs a) (s.abs b))
      → ((k : ℕ)
          → k < n
          → (s.below (s.abs (read st x incx n k)) (s.abs limits.largest) ≡ true)
            ⊎ (s.equal (s.abs limits.largest) (s.abs (read st x incx n k)) ≡ true))
      → IsVector x incx n
      → 0 < n
      → n ≤ max_index
      → (i : ℕ) × (iamin_value s limits ex (suc (suc fuel)) max_index temp name n x incx st results
          ≡ some i)
        × IsFirstIndex
            (λ a b. s.below (s.abs b) (s.abs a))
            (λ a b. s.equal (s.abs a) (s.abs b))
            (read st x incx n)
            n
            i
  unfolding iamin_value
  iamin_value_lem n x incx st results order worst vx some_values below =
      let all =
        iamin_lem s limits ex fuel q max_index temp size n x incx (gpu_res name) st results order
          worst vx (gpu_res-IsVector name) some_values below in
      (
        (read all.0 (gpu_res name) (pos 1) 1 0).ind,
        ap (Option.map (λ (out : Store (IndexValueTuple A)). (out name (pos 0)).ind)) all.1
            ∙ ap (λ (t : IndexValueTuple A). some t.ind) (sym (read-gpu_res all.0 name)),
        (all.2.0, all.2.2),
      )
