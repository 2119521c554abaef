-- ===== src/Blas1/Reduce/Run.antt =====
-- A reduction on the grid that the interface asks for.
use native.Mathlib.Nat.{lt_of_mul-lt-mul_right}
use mathlib.Core.Path.{subst, ap₂}
use mathlib.Core.Option
use sycl_blas.Base.{ℕ, zero, suc, ◌+◌, ◌*◌, ◌^◌, ◌<◌, ◌≡◌, sym, ap, ◌∙◌, arith, inl, inr, some}
use sycl_blas.Base.Int.{ℤ, pos}
use sycl_blas.Base.Scalar.{Monoid}
use sycl_blas.Base.Sums.{sum}
use sycl_blas.Meta.{round_up_ratio}
use sycl_blas.Meta.Rounding.{round_up_ratio_bounds}
use sycl_blas.Container.{BufferIterator}
use sycl_blas.Views.{Store}
use sycl_blas.Kernel.{Write, apply_write}
use sycl_blas.Kernel.Order.{apply_write_other}
use sycl_blas.Trees.{view_name, view_address}
use sycl_blas.Trees.Assignment.{apply_write_self}
use sycl_blas.Executor.{Executor}
use sycl_blas.Reduction.{Buffers, execute_reduction}
use sycl_blas.Reduction.Block.{IsReduction, lt_two_pow}
use sycl_blas.Reduction.Passes.{IsCovered, execute_reduction_lem}
use sycl_blas.Blas1.{vector_of}
use sycl_blas.Blas1.Vectors.{IsVector, IsElsewhere, read, vector_of-name, vector_of-address}
use sycl_blas.Blas1.Reduce.{run_reduction}

-- The grid of the interface has as many groups as a group has items.
group_count : (n : ℕ) → 0 < n → round_up_ratio (n * (2 * n)) (2 * n) ≡ n
group_count n h =
    let b = round_up_ratio_bounds (n * (2 * n)) (2 * n) (omega arith) in
    let low : n < round_up_ratio (n * (2 * n)) (2 * n) + 1 =
      lt_of_mul-lt-mul_right (2 * n) (omega arith) in
    let high : round_up_ratio (n * (2 * n)) (2 * n) < n + 1 =
      lt_of_mul-lt-mul_right (2 * n) (omega arith) in
    omega arith

interface-IsCovered : (n : ℕ) → 0 < n → IsCovered n (round_up_ratio (n * (2 * n)) (2 * n))
interface-IsCovered zero h = elim h [ ]
interface-IsCovered (suc zero) h = inl (group_count 1 h)
interface-IsCovered (suc (suc n)) h =
    let e = group_count (suc (suc n)) h in inr (omega arith, omega arith, omega arith)

module _ {ℓ ℓ' κ} {M : Type ℓ} {V : Type ℓ'} {m : Monoid M} {op : V → V → V} {start : V}
    {Leaf Acc : M → V → Type κ} (r : IsReduction m op start Leaf Acc) where
  execute_interface :
      (fuel q local_size : ℕ) (h : ℕ → M) (rhs : ℕ → V) (n : ℕ) (bufs : Buffers V)
      → local_size ≡ 2 ^ q
      → ((k : ℕ) → k < n → Leaf (h k) (rhs k))
      → (out : Buffers V) × (execute_reduction op start
            (suc (suc fuel))
            rhs
            n
            local_size
            (local_size * (2 * local_size))
            bufs
          ≡ some out)
        × Acc (sum m n h) (out.lhs 0)
  execute_interface fuel q local_size h rhs n bufs size leaves =
      subst
        (λ l.
          (out : Buffers V) × (execute_reduction op start (suc (suc fuel)) rhs n l (l * (2 * l))
              bufs
            ≡ some out)
          × Acc (sum m n h) (out.lhs 0))
        (sym size)
        (execute_reduction_lem r fuel q (2 ^ q * (2 * 2 ^ q)) h rhs n bufs leaves
          (interface-IsCovered (2 ^ q) (let p = lt_two_pow q in omega arith)))

  -- A reduction ends, and leaves in the first element of the result what stands for all operands.
  pub run_reduction_lem :
      (ex : Executor) (fuel q : ℕ) (h : ℕ → M) (rhs : ℕ → V) (n : ℕ) (rs : BufferIterator)
      (temp : ℕ → V) (st : Store V)
      → ex.work_group_size ≡ 2 ^ q
      → IsVector rs (pos 1) 1
      → ((k : ℕ) → k < n → Leaf (h k) (rhs k))
      → (out : Store V) × (run_reduction ex
            (suc (suc fuel))
            op
            start
            rhs
            n
            (vector_of rs (pos 1) 1)
            temp
            st
          ≡ some out)
        × Acc (sum m n h) (read out rs (pos 1) 1 0)
        × ((b : ℕ) (a : ℤ) → IsElsewhere rs (pos 1) 1 b a → out b a ≡ st b a)
  unfolding run_reduction
  run_reduction_lem ex fuel q h rhs n rs temp st size vr leaves =
      let vs = vector_of rs (pos 1) 1 in
      let bufs : Buffers V = record {
        lhs = λ i. st (view_name vs) (view_address vs i);
        mem_1 = temp;
        mem_2 = temp;
      } in
      let done = execute_interface fuel q ex.work_group_size h rhs n bufs size leaves in
      let w : Write V = record {
        name = view_name vs;
        address = view_address vs 0;
        value = done.0.lhs 0;
      } in
      (
        apply_write w st,
        ap
            (λ o.
              Option.map
                (λ (out : Buffers V).
                  apply_write
                    (record { name = view_name vs; address = view_address vs 0; value = out.lhs 0 })
                    st)
                o)
            done.1,
        subst (Acc (sum m n h))
            (sym (apply_write_self w st)
              ∙ ap₂ (λ b a. apply_write w st b a) (vector_of-name vr)
                  (vector_of-address vr 0 (omega arith)))
            done.2,
        λ b a miss. apply_write_other w st b a (λ e.
            miss 0 (omega arith)
              (e.0 ∙ vector_of-name vr, e.1 ∙ vector_of-address vr 0 (omega arith))),
      )
