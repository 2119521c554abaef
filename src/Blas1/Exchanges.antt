-- ===== src/Blas1/Exchanges.antt =====
-- `_swap` and `_rot`: what they leave in memory.
use mathlib.Core.Path.{ap₂}
use sycl_blas.Base.{ℕ, ◌<◌, ◌≡◌, ◌≢◌, sym, ◌∙◌, arith}
use sycl_blas.Base.Int.{ℤ}
use sycl_blas.Base.Scalar.{Scalar}
use sycl_blas.Container.{BufferIterator}
use sycl_blas.Views.{Store}
use sycl_blas.Operators.{eval_binary}
use sycl_blas.Trees
use sycl_blas.Trees.{Expr, leaf, eval, view_name, view_address, double_assign}
use sycl_blas.Trees.Locality.{IsApart}
use sycl_blas.Trees.DoubleAssignment.{AreApart, launch-double_assign}
use sycl_blas.Executor.{Executor, execute}
use sycl_blas.Blas1.{vector_of, run_double_assign, swap, rot}
use sycl_blas.Blas1.Vectors.{
  IsVector, IsElsewhere, read, vector_of-size, vector_of-name, vector_of-address,
  vector_of-IsInjective, other-IsApart, self-IsApart, eval-vector, execute-covers,
}

module _ {ℓ} {A : Type ℓ} (s : Scalar A) (ex : Executor) (some_items : 0 < ex.work_group_size) where
  -- An assignment to two vectors at once.
  run_double_assign_lem :
      {x y : BufferIterator} {incx incy : ℤ} {n : ℕ} (vx : IsVector x incx n)
      (vy : IsVector y incy n) (rhs_1 rhs_2 : Expr A) (m : Store A)
      → x.buffer.name ≢ y.buffer.name
      → Trees.get_size rhs_2 ≡ n
      → AreApart s (vector_of x incx n) (vector_of y incy n) rhs_1 rhs_2
      → ((i : ℕ)
          → i < n
          → (read
                (run_double_assign s ex (vector_of x incx n) (vector_of y incy n) rhs_1 rhs_2 m)
                x
                incx
                n
                i
              ≡ eval s rhs_1 m i)
            × (read
                  (run_double_assign s ex (vector_of x incx n) (vector_of y incy n) rhs_1 rhs_2 m)
                  y
                  incy
                  n
                  i
                ≡ eval s rhs_2 m i))
        × ((b : ℕ) (a : ℤ)
            → IsElsewhere x incx n b a
            → IsElsewhere y incy n b a
            → run_double_assign s ex (vector_of x incx n) (vector_of y incy n) rhs_1 rhs_2 m b a
              ≡ m b a)
  unfolding run_double_assign execute
  run_double_assign_lem {x} {y} {incx} {incy} {n} vx vy rhs_1 rhs_2 m distinct size apart = (
    λ i h.
        let both = all.0 i (omega arith) in
        (
          ap₂ (λ b a. result b a) (sym (vector_of-name vx)) (sym (vector_of-address vx i h))
              ∙ both.0,
          ap₂ (λ b a. result b a) (sym (vector_of-name vy)) (sym (vector_of-address vy i h))
              ∙ both.1,
        ),
    λ b a miss_x miss_y. all.1 b a (λ i h. (
      λ q.
          miss_x i (omega arith)
            (q.0 ∙ vector_of-name vx, q.1 ∙ vector_of-address vx i (omega arith)),
      λ q.
          miss_y i (omega arith)
            (q.0 ∙ vector_of-name vy, q.1 ∙ vector_of-address vy i (omega arith)),
    )),
  )
    where
      result : Store A
      result =
          execute ex (Trees.get_size rhs_2)
            (double_assign s (vector_of x incx n) (vector_of y incy n) rhs_1 rhs_2) m

      all :
          ((i : ℕ)
            → i < Trees.get_size rhs_2
            → (result (view_name (vector_of x incx n)) (view_address (vector_of x incx n) i)
                ≡ eval s rhs_1 m i)
              × (result (view_name (vector_of y incy n)) (view_address (vector_of y incy n) i)
                  ≡ eval s rhs_2 m i))
          × ((b : ℕ) (a : ℤ)
              → ((i : ℕ)
                  → i < Trees.get_size rhs_2
                  → ¬ (
                      (b ≡ view_name (vector_of x incx n))
                      × (a ≡ view_address (vector_of x incx n) i))
                    × ¬ (
                        (b ≡ view_name (vector_of y incy n))
                        × (a ≡ view_address (vector_of y incy n) i)))
              → result b a ≡ m b a)
      all =
          launch-double_assign s (vector_of x incx n) (vector_of y incy n) rhs_1 rhs_2
            (λ e. distinct (sym (vector_of-name vx) ∙ e ∙ vector_of-name vy)) _ m apart
            (λ i j hi hj. vector_of-IsInjective vx i j (omega arith) (omega arith))
            (λ i j hi hj. vector_of-IsInjective vy i j (omega arith) (omega arith))
            (execute-covers ex (Trees.get_size rhs_2) some_items)

  -- The leaves `x` and `y` of a double assignment to `x` and `y`.
  module _ (x : BufferIterator) (incx : ℤ) (y : BufferIterator) (incy : ℤ) (n : ℕ)
      (distinct : x.buffer.name ≢ y.buffer.name) where
    first_leaf :
        IsApart (vector_of x incx n) (vector_of x incx n)
        × IsApart (vector_of y incy n) (vector_of x incx n)
    first_leaf = (self-IsApart (vector_of x incx n), other-IsApart x y incx incy n distinct)

    second_leaf :
        IsApart (vector_of x incx n) (vector_of y incy n)
        × IsApart (vector_of y incy n) (vector_of y incy n)
    second_leaf =
        (other-IsApart y x incy incx n (λ e. distinct (sym e)), self-IsApart (vector_of y incy n))

  -- The vectors trade their elements, for vectors in different buffers, with any nonzero increments;
  -- nothing else changes.
  pub swap_lem :
      (n : ℕ) (x : BufferIterator) (incx : ℤ) (y : BufferIterator) (incy : ℤ) (m : Store A)
      → IsVector x incx n
      → IsVector y incy n
      → x.buffer.name ≢ y.buffer.name
      → ((i : ℕ)
          → i < n
          → (read (swap s ex n x incx y incy m) x incx n i ≡ read m y incy n i)
            × (read (swap s ex n x incx y incy m) y incy n i ≡ read m x incx n i))
        × ((b : ℕ) (a : ℤ)
            → IsElsewhere x incx n b a
            → IsElsewhere y incy n b a
            → swap s ex n x incx y incy m b a ≡ m b a)
  unfolding swap Trees.get_size
  swap_lem n x incx y incy m vx vy distinct =
      let all =
        run_double_assign_lem vy vx (leaf (vector_of x incx n)) (leaf (vector_of y incy n)) m
          (λ e. distinct (sym e)) (vector_of-size vy)
          (
            second_leaf y incy x incx n (λ e. distinct (sym e)),
            first_leaf y incy x incx n (λ e. distinct (sym e)),
          ) in
      (
        λ i h.
            let both = all.0 i h in
            (
              both.1 ∙ eval-vector s ex some_items vy m i h,
              both.0 ∙ eval-vector s ex some_items vx m i h,
            ),
        λ b a mx my. all.1 b a my mx,
      )

  -- Each pair of elements is turned by the rotation: `x = c x + s y` and `y = -s x + c y`, both from
  -- the elements before, for vectors in different buffers with any nonzero increments; nothing else
  -- changes.
  pub rot_lem :
      (n : ℕ) (x : BufferIterator) (incx : ℤ) (y : BufferIterator) (incy : ℤ) (cos sin : A)
      (m : Store A)
      → IsVector x incx n
      → IsVector y incy n
      → x.buffer.name ≢ y.buffer.name
      → ((i : ℕ)
          → i < n
          → (read (rot s ex n x incx y incy cos sin m) x incx n i
              ≡ s.add (s.mul cos (read m x incx n i)) (s.mul sin (read m y incy n i)))
            × (read (rot s ex n x incx y incy cos sin m) y incy n i
                ≡ s.add (s.mul (s.neg sin) (read m x incx n i)) (s.mul cos (read m y incy n i))))
        × ((b : ℕ) (a : ℤ)
            → IsElsewhere x incx n b a
            → IsElsewhere y incy n b a
            → rot s ex n x incx y incy cos sin m b a ≡ m b a)
  unfolding rot Trees.get_size eval eval_binary
  rot_lem n x incx y incy cos sin m vx vy distinct =
      let all = run_double_assign_lem vx vy _ _ m distinct (vector_of-size vy) (
        (first_leaf x incx y incy n distinct, second_leaf x incx y incy n distinct),
        (first_leaf x incx y incy n distinct, second_leaf x incx y incy n distinct),
      ) in
      (
        λ i h.
            let both = all.0 i h in
            let ex_ = eval-vector s ex some_items vx m i h in
            let ey = eval-vector s ex some_items vy m i h in
            (
              both.0 ∙ ap₂ (λ a b. s.add (s.mul cos a) (s.mul sin b)) ex_ ey,
              both.1 ∙ ap₂ (λ a b. s.add (s.mul (s.neg sin) a) (s.mul cos b)) ex_ ey,
            ),
        all.1,
      )
