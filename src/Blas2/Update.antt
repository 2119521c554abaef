-- ===== src/Blas2/Update.antt =====
-- The update of `y` at the end of `_gemv_impl`.
use sycl_blas.Base.{ℕ, ◌<◌, ◌≡◌, inl, inr, ap, ◌∙◌, Bool, if◌then◌else◌, Bool-cases}
use sycl_blas.Base.Int.{ℤ}
use sycl_blas.Base.Scalar.{Scalar}
use sycl_blas.Views.{Store}
use sycl_blas.Operators.{add, product, eval_binary}
use sycl_blas.Trees
use sycl_blas.Trees.{Expr, leaf, scalar_op, binary_op, eval}
use sycl_blas.Trees.Locality.{AllLeaves, IsApart}
use sycl_blas.Executor.{Executor, execute}
use sycl_blas.Blas1.{vector_of, run_assign}
use sycl_blas.Blas1.Vectors.{IsVector, IsElsewhere, read, self-IsApart, eval-vector, run_assign_lem}
use sycl_blas.Blas2.{GemvCall, y_vector_size, update_y}

module _ {ℓ} {A : Type ℓ} (s : Scalar A) (is_transposed : Bool) (call : GemvCall A) where
  -- `alpha * dots + beta * y` for an element, without the last term where beta compares equal to zero.
  abbrev pub updated : A → A → A
  updated dot y =
      if s.equal call.beta s.zero
      then s.mul call.alpha dot
      else s.add (s.mul call.beta y) (s.mul call.alpha dot)

  abbrev pub y_at : Store A → ℕ → A
  y_at st i = read st call.y_ call.incy (y_vector_size is_transposed call) i

module _ {ℓ} {A : Type ℓ} (s : Scalar A) (local_range cl_elems : ℕ) (is_transposed : Bool)
    (call : GemvCall A) (buffer : ℕ) (items : 0 < local_range)
    (vy : IsVector call.y_ call.incy (y_vector_size is_transposed call)) where
  -- Groups of `local_range` items.
  abbrev ex : Executor
  ex = record { work_group_size = local_range; num_compute_units = 0 }

  pub update_y_lem :
      (dots : Expr A) (st : Store A)
      → Trees.get_size dots ≡ y_vector_size is_transposed call
      → AllLeaves (IsApart (vector_of call.y_ call.incy (y_vector_size is_transposed call))) dots
      → ((i : ℕ)
          → i < y_vector_size is_transposed call
          → y_at s is_transposed call
              (update_y s local_range cl_elems is_transposed call buffer dots st)
              i
            ≡ updated s is_transposed call (eval s dots st i) (y_at s is_transposed call st i))
        × ((b : ℕ) (a : ℤ)
            → IsElsewhere call.y_ call.incy (y_vector_size is_transposed call) b a
            → update_y s local_range cl_elems is_transposed call buffer dots st b a ≡ st b a)
  unfolding update_y run_assign execute Trees.get_size eval eval_binary
  update_y_lem dots st size apart = elim (Bool-cases (s.equal call.beta s.zero)) [
    | inl zero_beta ↦
        rw zero_beta
          (run_assign_lem s ex items vy (scalar_op product call.alpha dots) st size apart)
    | inr other ↦
        let all =
          run_assign_lem s ex items vy
            (binary_op add
              (scalar_op product call.beta
                (leaf (vector_of call.y_ call.incy (y_vector_size is_transposed call))))
              (scalar_op product call.alpha dots))
            st size (self-IsApart _, apart) in
        rw other (
          λ i h.
              all.0 i h
              ∙ ap (λ y. s.add (s.mul call.beta y) (s.mul call.alpha (eval s dots st i)))
                  (eval-vector s ex items vy st i h),
          all.1,
        )
  ]
