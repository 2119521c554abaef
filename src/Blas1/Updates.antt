-- ===== src/Blas1/Updates.antt =====
-- `_axpy`, `_copy` and `_scal`: what they leave in memory.
use sycl_blas.Base.{ℕ, ◌<◌, ◌≡◌, ◌≢◌, ap, ◌∙◌, true, false, if◌then◌else◌, Bool-cases, inl, inr}
use mathlib.Core.Path.{ap₂}
use sycl_blas.Base.Int.{ℤ}
use sycl_blas.Base.Scalar.{Scalar}
use sycl_blas.Container.{BufferIterator}
use sycl_blas.Views.{Store}
use sycl_blas.Operators.{eval_binary, eval_unary, product, addition_identity}
use sycl_blas.Trees
use sycl_blas.Trees.{leaf, unary_op, scalar_op, eval}
use sycl_blas.Executor.{Executor}
use sycl_blas.Blas1.{vector_of, axpy, copy, scal}
use sycl_blas.Blas1.Vectors.{
  IsVector, IsElsewhere, read, vector_of-size, other-IsApart, self-IsApart, eval-vector,
  run_assign_lem,
}

module _ {ℓ} {A : Type ℓ} (s : Scalar A) (ex : Executor) (some_items : 0 < ex.work_group_size) where
  -- `y = alpha * x + y`, element by element, for vectors in different buffers, with any nonzero
  -- increments; nothing else changes.
  pub axpy_lem :
      (n : ℕ) (alpha : A) (x : BufferIterator) (incx : ℤ) (y : BufferIterator) (incy : ℤ)
      (m : Store A)
      → IsVector x incx n
      → IsVector y incy n
      → x.buffer.name ≢ y.buffer.name
      → ((i : ℕ)
          → i < n
          → read (axpy s ex n alpha x incx y incy m) y incy n i
            ≡ s.add (read m y incy n i) (s.mul alpha (read m x incx n i)))
        × ((b : ℕ) (a : ℤ)
            → IsElsewhere y incy n b a
            → axpy s ex n alpha x incx y incy m b a ≡ m b a)
  unfolding axpy Trees.get_size eval eval_binary
  axpy_lem n alpha x incx y incy m vx vy apart =
      let all =
        run_assign_lem s ex some_items vy _ m (vector_of-size vx)
          (self-IsApart (vector_of y incy n), other-IsApart x y incx incy n apart) in
      (
        λ i h.
            all.0 i h
            ∙ ap₂ (λ a b. s.add a (s.mul alpha b)) (eval-vector s ex some_items vy m i h)
                (eval-vector s ex some_items vx m i h),
        all.1,
      )

  -- `y = x`, element by element, for vectors in different buffers, with any nonzero increments;
  -- nothing else changes.
  pub copy_lem :
      (n : ℕ) (x : BufferIterator) (incx : ℤ) (y : BufferIterator) (incy : ℤ) (m : Store A)
      → IsVector x incx n
      → IsVector y incy n
      → x.buffer.name ≢ y.buffer.name
      → ((i : ℕ) → i < n → read (copy s ex n x incx y incy m) y incy n i ≡ read m x incx n i)
        × ((b : ℕ) (a : ℤ) → IsElsewhere y incy n b a → copy s ex n x incx y incy m b a ≡ m b a)
  unfolding copy Trees.get_size
  copy_lem n x incx y incy m vx vy apart =
      let all =
        run_assign_lem s ex some_items vy (leaf (vector_of x incx n)) m (vector_of-size vx)
          (other-IsApart x y incx incy n apart) in
      (λ i h. all.0 i h ∙ eval-vector s ex some_items vx m i h, all.1)

  scal_zero :
      (n : ℕ) (alpha : A) (x : BufferIterator) (incx : ℤ) (m : Store A)
      → IsVector x incx n
      → s.equal alpha s.zero ≡ true
      → ((i : ℕ) → i < n → read (scal s ex n alpha x incx m) x incx n i ≡ s.zero)
        × ((b : ℕ) (a : ℤ) → IsElsewhere x incx n b a → scal s ex n alpha x incx m b a ≡ m b a)
  unfolding scal Trees.get_size eval eval_unary
  scal_zero n alpha x incx m vx is_zero = rw is_zero (
      run_assign_lem s ex some_items vx (unary_op addition_identity (leaf (vector_of x incx n))) m
        (vector_of-size vx) (self-IsApart (vector_of x incx n)))

  scal_other :
      (n : ℕ) (alpha : A) (x : BufferIterator) (incx : ℤ) (m : Store A)
      → IsVector x incx n
      → s.equal alpha s.zero ≡ false
      → ((i : ℕ)
          → i < n
          → read (scal s ex n alpha x incx m) x incx n i ≡ s.mul alpha (read m x incx n i))
        × ((b : ℕ) (a : ℤ) → IsElsewhere x incx n b a → scal s ex n alpha x incx m b a ≡ m b a)
  unfolding scal Trees.get_size eval eval_binary
  scal_other n alpha x incx m vx other =
      let all =
        run_assign_lem s ex some_items vx (scalar_op product alpha (leaf (vector_of x incx n))) m
          (vector_of-size vx) (self-IsApart (vector_of x incx n)) in
      rw other (λ i h. all.0 i h ∙ ap (s.mul alpha) (eval-vector s ex some_items vx m i h), all.1)

  -- `x = alpha * x`, and zeros where `alpha` compares equal to zero, whatever was in memory (a
  -- product with a NaN is not zero); nothing else changes.
  pub scal_lem :
      (n : ℕ) (alpha : A) (x : BufferIterator) (incx : ℤ) (m : Store A)
      → IsVector x incx n
      → ((i : ℕ)
          → i < n
          → read (scal s ex n alpha x incx m) x incx n i
            ≡ (if s.equal alpha s.zero then s.zero else s.mul alpha (read m x incx n i)))
        × ((b : ℕ) (a : ℤ) → IsElsewhere x incx n b a → scal s ex n alpha x incx m b a ≡ m b a)
  scal_lem n alpha x incx m vx = elim (Bool-cases (s.equal alpha s.zero)) [
    | inl is_zero ↦
        let all = scal_zero n alpha x incx m vx is_zero in (λ i h. all.0 i h ∙ rw is_zero, all.1)
    | inr other ↦
        let all = scal_other n alpha x incx m vx other in (λ i h. all.0 i h ∙ rw other, all.1)
  ]
