-- ===== src/Reduction/Termination.antt =====
-- The loop over the passes of `Executor::execute(AssignReduction)` (src/executors/executor_sycl.hpp)
-- ends, whatever the grid and the operator.
use native.Mathlib.Nat.{lt_of_mul-lt-mul_right, mul-le-mul_left}
use sycl_blas.Base.{
  ℕ, zero, suc, ◌*◌, ltb, ◌<◌, ◌≤◌, ◌≡◌, arith, le→ltb, some, Bool, not, Bool-cases, inl, inr,
  ltb→lt,
}
use sycl_blas.Meta.{round_up_ratio}
use sycl_blas.Meta.Rounding.{round_up_ratio_bounds}
use sycl_blas.Reduction.{Buffers, later_pass, passes, execute_reduction}

-- Each pass has fewer groups than the one before.
shrink : (n size : ℕ) → 1 < n → 0 < size → round_up_ratio n (2 * size) < n
shrink (suc (suc k)) (suc l) hn hs =
    let b = round_up_ratio_bounds (suc (suc k)) (2 * suc l) (omega arith) in
    let wide : suc k * 2 ≤ suc k * (2 * suc l) = mul-le-mul_left (suc k) (omega arith) in
    lt_of_mul-lt-mul_right (2 * suc l) (omega arith)
shrink zero size hn hs = elim hn [ ]
shrink (suc zero) size hn hs = absurd (omega arith)
shrink (suc (suc k)) zero hn hs = elim hs [ ]

module _ {ℓ} {V : Type ℓ} (op : V → V → V) (init : V) (local_size : ℕ)
    (some_items : 0 < local_size) where
  passes_end :
      (fuel : ℕ) (even : Bool) (shared_size n : ℕ) (bufs : Buffers V)
      → n ≤ fuel
      → (out : Buffers V) × (passes op init (suc fuel) even shared_size local_size n bufs
          ≡ some out)
  unfolding passes
  passes_end zero even shared_size n bufs h = (bufs, rw (le→ltb 1 n (omega arith), passes))
  passes_end (suc fuel) even shared_size n bufs h = elim (Bool-cases (ltb 1 n)) [
    | inl more ↦
        let groups = round_up_ratio n (2 * local_size) in
        let rest =
          passes_end fuel (not even) shared_size groups
            (later_pass op init even shared_size local_size groups bufs)
            (omega (arith, shrink n local_size (ltb→lt 1 n more) some_items)) in
        (rest.0, rw (more, passes) rest.1)
    | inr done ↦ (bufs, rw (done, passes))
  ]

  -- Fuel for as many passes as the first one has groups, and one more, is enough: the reduction ends
  -- for every size of the vector, every grid and every work group that is not empty.
  pub execute_reduction_ends :
      (rhs : ℕ → V) (vec_size global_size : ℕ) (bufs : Buffers V)
      → (out : Buffers V) × (execute_reduction op init
            (suc (round_up_ratio global_size (2 * local_size)))
            rhs
            vec_size
            local_size
            global_size
            bufs
          ≡ some out)
  unfolding execute_reduction
  execute_reduction_ends rhs vec_size global_size bufs =
      passes_end (round_up_ratio global_size (2 * local_size)) _ _ _ _ (omega arith)
