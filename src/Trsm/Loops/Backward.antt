-- ===== src/Trsm/Loops/Backward.antt =====
-- The loop that goes down over the blocks: it ends, and leaves a solution in X.
use mathlib.Core.Path.{subst}
use sycl_blas.Base.{
  if_yes, if_no, ℕ, zero, suc, ◌+◌, ◌-◌, ◌*◌, ◌<◌, ◌≤◌, ◌≡◌, inl, inr, Bool, true, false, refl, ◌∙◌,
  arith, if◌then◌else◌, leb, ltb, min, ◌==◌, Bool-cases, Result, ok, ltb→lt,
}
use sycl_blas.Base.Scalar.{Scalar, IsExact}
use sycl_blas.Views.{Store}
use sycl_blas.Gemm.Call.{GemmCall, IsGemm}
use sycl_blas.Gemm.Interface.Scaling.{IsMatrix}
use sycl_blas.Trsm.Calls.{System, block_size, solve_call, backward_call}
use sycl_blas.Trsm.{backward_loop}
use sycl_blas.Trsm.Steps.Sides.{solve_step, backward_step}
use sycl_blas.Trsm.Steps.{IsApart, equations, a_at}
use sycl_blas.Trsm.States.{
  triangle, IsState, IsSolution, HasInverses, last-IsSolution, next-IsState,
}
use sycl_blas.Trsm.Loops.Order.{leb_yes, leb_no, ltb→le, leb→le, leb→gt, backward_same}

module _ {ℓ} {A : Type ℓ} {s : Scalar A} (exact : IsExact s) (t : System A)
    {run : GemmCall A → Store A → Result (Store A)} (gemm : IsGemm exact run)
    (add-neg : (x : A) → s.add x (s.neg x) ≡ s.zero) (x_matrix : IsMatrix t.x_ t.m t.n t.ldb)
    (b_matrix : IsMatrix t.b_ t.m t.n t.ldb) (apart : IsApart t) (start : Store A) where
  backward_zeros :
      (row c i size : ℕ)
      → leb (i + size) row ≡ true
      → c < size
      → triangle s t false start row (i + c) ≡ s.zero
  backward_zeros row c i size d hc =
      let l = leb→le (i + size) row d in
      if_no (leb row (i + c)) _ _ (leb_no row (i + c) (omega arith))

  backward_side :
      (row c i : ℕ)
      → leb i row ≡ false
      → triangle s t false start row (i + c) ≡ a_at t t.is_left start row (i + c)
  backward_side row c i d =
      let l = leb→gt i row d in if_yes (leb row (i + c)) _ _ (leb_yes row (i + c) (omega arith))

  module _ (fuel i_start special i size : ℕ) (is_first : Bool) (st solved : Store A)
      (e : (i == i_start) ≡ is_first) (e' : (if is_first then special else block_size) ≡ size)
      (run_solve : run (solve_call s t i size is_first) st ≡ ok solved) where
    backward_last :
        ltb i block_size ≡ true → backward_loop s t run (suc fuel) i_start special i st ≡ ok solved
    unfolding backward_loop
    backward_last ends = rw (e, e', run_solve, ends)

    backward_next :
        (updated : Store A)
        → ltb i block_size ≡ false
        → run (backward_call s t i size is_first) solved ≡ ok updated
        → backward_loop s t run (suc fuel) i_start special i st
          ≡ backward_loop s t run fuel i_start special (i - block_size) updated
    unfolding backward_loop
    backward_next updated goes_on run_update = rw (e, e', run_solve, goes_on, run_update)

  pub backward_loop_lem :
      (inverses : HasInverses exact t false start)
      (fuel i_start special_block_size block i size : ℕ) (is_first : Bool) (st : Store A)
      → i ≡ block * block_size
      → i < equations t.is_left t
      → i < fuel
      → i ≤ i_start
      → size ≡ min (equations t.is_left t - i) block_size
      → (i == i_start) ≡ is_first
      → (if is_first then special_block_size else block_size) ≡ size
      → IsState exact t false start (λ c. leb (i + size) c) is_first st
      → (out : Store A) × (backward_loop s t run fuel i_start special_block_size i st ≡ ok out)
        × IsSolution exact t false start out
  backward_loop_lem inverses zero i_start special block i size is_first st at fits enough below
        all_of_it e e' h =
      elim enough [ ]
  backward_loop_lem inverses (suc fuel) i_start special block i size is_first st at fits enough
        below all_of_it e e' h =
      let r =
        solve_step exact t gemm add-neg x_matrix b_matrix apart i size is_first st (omega arith) in
      elim (Bool-cases (ltb i block_size)) [
        | inl ends ↦
            let l = ltb→lt i block_size ends in
            (
              r.0,
              backward_last fuel i_start special i size is_first st r.0 e e' r.1 ends,
              last-IsSolution exact t false start apart inverses (λ c. leb (i + size) c)
                  (λ c. leb i c) is_first st r.0 h block i size at all_of_it fits r.2
                  (λ c hc. leb_no (i + size) (i + c) (omega arith))
                  (λ c hc. leb_yes i (i + c) (omega arith)) (λ c o. backward_same c i size o)
                  (λ row c d hc. backward_zeros row c i size d hc)
                  (λ c hc. leb_yes i c (omega arith)),
            )
        | inr goes_on ↦
            let l = ltb→le i block_size goes_on in
            let updated =
              backward_step exact t gemm add-neg x_matrix b_matrix apart i size is_first r.0
                (omega arith) in
            let next =
              next-IsState exact t false start apart inverses (λ c. leb (i + size) c) (λ c. leb i c)
                is_first st r.0 h block i size at all_of_it fits r.2
                (λ c hc. leb_no (i + size) (i + c) (omega arith))
                (λ c hc. leb_yes i (i + c) (omega arith)) (λ c o. backward_same c i size o)
                (λ row c d hc. backward_zeros row c i size d hc) 0 i updated.0 updated.2
                (λ row hr d. let g = leb→gt i row d in (omega arith, omega arith))
                (λ row c d hc. backward_side row c i d) in
            let rest =
              backward_loop_lem inverses fuel i_start special (block - 1) (i - block_size)
                block_size false updated.0 (omega arith) (omega arith) (omega arith) (omega arith)
                (omega arith) (ground arith) refl
                (subst (λ n. IsState exact t false start (λ c. leb n c) false updated.0) {x = i}
                  {y = i - block_size + block_size} (omega arith) next) in
            (
              rest.0,
              backward_next fuel i_start special i size is_first st r.0 e e' r.1 updated.0 goes_on
                    updated.1
                  ∙ rest.1,
              rest.2,
            )
      ]
