-- ===== src/Blas2/Rank/Calls.antt =====
-- `_ger`, `_syr` and `_syr2`: what they add to the matrix.
use sycl_blas.Base.{
  ℕ, ◌*◌, ◌<◌, ◌≤◌, ◌≡◌, ◌≢◌, refl, arith, Bool, true, false, if◌then◌else◌, leb, ◌==◌,
}
use sycl_blas.Base.Int.{ℤ}
use sycl_blas.Base.Scalar.{Scalar}
use sycl_blas.Container.{BufferIterator}
use sycl_blas.Views.{Store}
use sycl_blas.Executor.{Executor}
use sycl_blas.Blas1.Vectors.{IsVector, read}
use sycl_blas.Gemm.Interface.{to_lower}
use sycl_blas.Ger.{is_updated}
use sycl_blas.Blas2.Rank.Updates.{rank_one, rank_two, IsUpdated, kernel, rank_lem, choose}
use sycl_blas.Blas2.Rank.{RankCall, ger, ger_impl, syr, syr_impl, syr2, syr2_impl}

-- The triangle of `uplo`: u, in either case, for the upper one, and every other letter for the
-- lower one.
abbrev pub in_triangle : ℕ → ℕ → ℕ → Bool
in_triangle uplo r c = if to_lower uplo == 117 then leb r c else leb c r

module _ {ℓ} {A : Type ℓ} (s : Scalar A) (ex : Executor) (call : RankCall A) (start : ℕ → A)
    (items : 0 < ex.work_group_size) where
  -- `_ger` adds `alpha * x * yᵀ` to the `m` by `n` matrix A, and nothing else changes: for x and y
  -- inside their buffers, which are not A's, with any increments, and a leading dimension of at least
  -- `m`.
  pub ger_lem :
      (m n : ℕ) (st : Store A)
      → IsVector call.x_ call.incx m
      → IsVector call.y_ call.incy n
      → call.x_.buffer.name ≢ call.a_.buffer.name
      → call.y_.buffer.name ≢ call.a_.buffer.name
      → m ≤ call.lda
      → IsUpdated s call m n
          (λ r c. true)
          (rank_one s call.alpha (read st call.x_ call.incx m) (read st call.y_ call.incy n))
          st
          (ger s ex call start m n st)
  unfolding ger ger_impl
  ger_lem m n st vx vy other_x other_y wide =
      rank_lem s ex call start items true true true call.y_ call.incy m n ex.work_group_size vx vy
        other_x other_y wide (λ e. ground arith) items st

  triangle_lem :
      (is_single upper : Bool) (y : BufferIterator) (incy : ℤ) (n local_memory_size r c : ℕ)
      → is_updated s
          (kernel s ex call start items is_single
            (if upper then false else true)
            (if upper then true else false)
            y
            incy
            n
            n
            local_memory_size)
          r
          c
        ≡ (if upper then leb r c else leb c r)
  triangle_lem is_single true y incy n local_memory_size r c = ground arith
  triangle_lem is_single false y incy n local_memory_size r c = ground arith

  -- `_syr` adds `alpha * x * xᵀ` to the triangle of the `n` by `n` matrix A that `uplo` names, and
  -- nothing else changes: for x inside its buffer, which is not A's, with any increment, and a leading
  -- dimension of at least `n`.
  pub syr_lem :
      (uplo n : ℕ) (st : Store A)
      → IsVector call.x_ call.incx n
      → call.x_.buffer.name ≢ call.a_.buffer.name
      → n ≤ call.lda
      → IsUpdated s call n n
          (in_triangle uplo)
          (rank_one s call.alpha (read st call.x_ call.incx n) (read st call.x_ call.incx n))
          st
          (syr s ex call start uplo n st)
  unfolding syr syr_impl
  syr_lem uplo n st vx other_x wide =
      let upper = to_lower uplo == 117 in
      choose s ex call start items n n
        (is_updated s (
          kernel s ex call start items true (if upper then false else true)
            (if upper then true else false) call.x_ call.incx n n ex.work_group_size))
        (in_triangle uplo)
        (rank_one s call.alpha (read st call.x_ call.incx n) (read st call.x_ call.incx n)) st
        (syr s ex call start uplo n st)
        (triangle_lem true upper call.x_ call.incx n ex.work_group_size)
        (rank_lem s ex call start items true (if upper then false else true)
          (if upper then true else false) call.x_ call.incx n n ex.work_group_size vx vx other_x
          other_x wide (λ _. refl) items st)

  -- `_syr2` adds `alpha * x * yᵀ + alpha * y * xᵀ` to the triangle of the `n` by `n` matrix A that
  -- `uplo` names, and nothing else changes: for x and y inside their buffers, which are not A's, with
  -- any increments, and a leading dimension of at least `n`.
  pub syr2_lem :
      (uplo n : ℕ) (st : Store A)
      → IsVector call.x_ call.incx n
      → IsVector call.y_ call.incy n
      → call.x_.buffer.name ≢ call.a_.buffer.name
      → call.y_.buffer.name ≢ call.a_.buffer.name
      → n ≤ call.lda
      → IsUpdated s call n n
          (in_triangle uplo)
          (rank_two s call.alpha (read st call.x_ call.incx n) (read st call.y_ call.incy n))
          st
          (syr2 s ex call start uplo n st)
  unfolding syr2 syr2_impl
  syr2_lem uplo n st vx vy other_x other_y wide =
      let upper = to_lower uplo == 117 in
      choose s ex call start items n n
        (is_updated s (
          kernel s ex call start items false (if upper then false else true)
            (if upper then true else false) call.y_ call.incy n n (2 * ex.work_group_size)))
        (in_triangle uplo)
        (rank_two s call.alpha (read st call.x_ call.incx n) (read st call.y_ call.incy n)) st
        (syr2 s ex call start uplo n st)
        (triangle_lem false upper call.y_ call.incy n (2 * ex.work_group_size))
        (rank_lem s ex call start items false (if upper then false else true)
          (if upper then true else false) call.y_ call.incy n n (2 * ex.work_group_size) vx vy
          other_x other_y wide (λ _. refl) (omega arith) st)
