-- ===== src/Trsm/Loops/Forward.antt =====
-- The loop that goes up over the blocks: it ends, and leaves a solution in X.
use mathlib.Core.Path.{subst}
use sycl_blas.Base.{
  if_yes, if_no, ℕ, zero, suc, ◌+◌, ◌-◌, ◌*◌, ◌<◌, ◌≤◌, ◌≡◌, inl, inr, Bool, true, false, refl, sym,
  ◌∙◌, arith, leb, ltb, min, ◌==◌, Bool-cases, Result, ok, ltb→lt, lt→ltb, le→ltb,
}
use sycl_blas.Base.Scalar.{Scalar, IsExact}
use sycl_blas.Views.{Store}
use sycl_blas.Gemm.Call.{GemmCall, IsGemm}
use sycl_blas.Gemm.Interface.Scaling.{IsMatrix}
use sycl_blas.Trsm.Calls.{System, k_, block_size, factor}
use sycl_blas.Trsm.{forward_ends, forward_loop}
use sycl_blas.Trsm.Steps.Sides.{solve_step, forward_step}
use sycl_blas.Trsm.Steps.{IsApart, equations, a_at, IsSolveStep}
use sycl_blas.Trsm.States.{
  triangle, IsState, IsSolution, HasInverses, state-IsSolution, last-IsSolution, next-IsState,
}
use sycl_blas.Trsm.Loops.Order.{leb_yes, leb_no, ltb→le, leb→le, leb→gt, forward_same}

module _ {ℓ} {A : Type ℓ} {s : Scalar A} (exact : IsExact s) (t : System A)
    {run : GemmCall A → Store A → Result (Store A)} (gemm : IsGemm exact run)
    (add-neg : (x : A) → s.add x (s.neg x) ≡ s.zero) (x_matrix : IsMatrix t.x_ t.m t.n t.ldb)
    (b_matrix : IsMatrix t.b_ t.m t.n t.ldb) (apart : IsApart t) (start : Store A) where
  forward_ends_yes :
      (side : Bool) (i : ℕ)
      → t.is_left ≡ side
      → forward_ends s t i ≡ true
      → equations side t ≤ i + block_size
  unfolding forward_ends
  forward_ends_yes true i e h = leb→le t.m (i + block_size) (sym (if_yes t.is_left _ _ e) ∙ h)
  forward_ends_yes false i e h =
      let l = ltb→lt t.n (i + block_size) (sym (if_no t.is_left _ _ e) ∙ h) in omega arith

  forward_ends_no :
      (side : Bool) (i : ℕ)
      → t.is_left ≡ side
      → forward_ends s t i ≡ false
      → i + block_size ≤ equations side t
  unfolding forward_ends
  forward_ends_no true i e h =
      let l = leb→gt t.m (i + block_size) (sym (if_yes t.is_left _ _ e) ∙ h) in omega arith
  forward_ends_no false i e h = ltb→le t.n (i + block_size) (sym (if_no t.is_left _ _ e) ∙ h)

  forward_zeros : (row c i : ℕ) → ltb row i ≡ true → triangle s t true start row (i + c) ≡ s.zero
  forward_zeros row c i d =
      let l = ltb→lt row i d in if_no (leb (i + c) row) _ _ (leb_no (i + c) row (omega arith))

  forward_side :
      (row c i : ℕ)
      → ltb row (i + block_size) ≡ false
      → c < block_size
      → triangle s t true start row (i + c) ≡ a_at t t.is_left start row (i + c)
  forward_side row c i d hc =
      let l = ltb→le row (i + block_size) d in
      if_yes (leb (i + c) row) _ _ (leb_yes (i + c) row (omega arith))

  pub forward_loop_lem :
      (inverses : HasInverses exact t true start) (fuel block i : ℕ) (is_first : Bool)
      (st : Store A)
      → i ≡ block * block_size
      → i ≤ equations t.is_left t
      → equations t.is_left t ≤ i + fuel
      → (i == 0) ≡ is_first
      → IsState exact t true start (λ c. ltb c i) is_first st
      → (out : Store A) × (forward_loop s t run fuel i st ≡ ok out)
        × IsSolution exact t true start out
  unfolding forward_loop
  forward_loop_lem inverses zero block i is_first st at fits enough e h = (
    st,
    refl,
    state-IsSolution exact t true start _ is_first st (λ c hc. lt→ltb c i (omega arith)) h,
  )
  forward_loop_lem inverses (suc fuel) block i is_first st at fits enough e h =
      elim (Bool-cases (ltb i (k_ s t))) [
        | inr stop ↦
            let l = ltb→le i (k_ s t) stop in
            (
              st,
              rw stop,
              state-IsSolution exact t true start _ is_first st (λ c hc. lt→ltb c i (omega arith))
                  h,
            )
        | inl go ↦
            let more = ltb→lt i (k_ s t) go in
            let size : ℕ = min (k_ s t - i) block_size in
            let r =
              solve_step exact t gemm add-neg x_matrix b_matrix apart i size is_first st
                (omega arith) in
            elim (Bool-cases (forward_ends s t i)) [
              | inl ends ↦ (
                r.0,
                rw (go, e, r.1, ends),
                last-IsSolution exact t true start apart inverses (λ c. ltb c i)
                    (λ c. ltb c (i + size)) is_first st r.0 h block i size at refl more r.2
                    (λ c hc. le→ltb (i + c) i (omega arith))
                    (λ c hc. lt→ltb (i + c) (i + size) (omega arith))
                    (λ c o. forward_same c i size o) (λ row c d hc. forward_zeros row c i d)
                    (λ c hc.
                      let l = forward_ends_yes t.is_left i refl ends in
                      lt→ltb c (i + size) (omega arith)),
              )
              | inr goes_on ↦
                  let full = forward_ends_no t.is_left i refl goes_on in
                  let step : IsSolveStep exact t t.is_left i block_size (factor s t is_first) st
                      r.0 =
                    subst (λ n. IsSolveStep exact t t.is_left i n (factor s t is_first) st r.0)
                      {x = size} {y = block_size} (omega arith) r.2 in
                  let updated =
                    forward_step exact t gemm add-neg x_matrix b_matrix apart i is_first r.0 full in
                  let next =
                    next-IsState exact t true start apart inverses (λ c. ltb c i)
                      (λ c. ltb c (i + block_size)) is_first st r.0 h block i block_size at
                      (omega arith) more step (λ c hc. le→ltb (i + c) i (omega arith))
                      (λ c hc. lt→ltb (i + c) (i + block_size) (omega arith))
                      (λ c o. forward_same c i block_size o) (λ row c d hc. forward_zeros row c i d)
                      (i + block_size) (equations t.is_left t - i - block_size) updated.0 updated.2
                      (λ row hr d. let l = ltb→le row (i + block_size) d in (l, omega arith))
                      (λ row c d hc. forward_side row c i d hc) in
                  let rest =
                    forward_loop_lem inverses fuel (suc block) (i + block_size) false updated.0
                      (omega arith) full (omega arith) (ground arith) next in
                  (rest.0, rw (go, e, r.1, goes_on, updated.1) rest.1, rest.2)
            ]
      ]
