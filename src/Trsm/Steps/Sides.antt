-- ===== src/Trsm/Steps/Sides.antt =====
-- The products of the loops on the side of a system.
use sycl_blas.Base.{
  ℕ, ◌+◌, ◌-◌, ◌≤◌, ◌≡◌, Bool, true, false, refl, ap, ◌∙◌, if◌then◌else◌, Result, ok,
}
use sycl_blas.Base.Scalar.{Scalar, IsExact}
use sycl_blas.Views.{Store}
use sycl_blas.Gemm.Call.{GemmCall, IsGemm}
use sycl_blas.Gemm.Interface.Scaling.{IsMatrix}
use sycl_blas.Trsm.Calls.{
  System, block_size, factor, left_solve_call, right_solve_call, left_forward_call,
  right_forward_call, left_backward_call, right_backward_call, solve_call, forward_call,
  backward_call,
}
use sycl_blas.Trsm.Steps.{equations, IsApart, IsSolveStep, IsUpdateStep}
use sycl_blas.Trsm.Steps.Left.{left_solve, left_forward, left_backward}
use sycl_blas.Trsm.Steps.Right.{right_solve, right_forward, right_backward}

module _ {ℓ} {A : Type ℓ} {s : Scalar A} (exact : IsExact s) (t : System A)
    {run : GemmCall A → Store A → Result (Store A)} (gemm : IsGemm exact run)
    (add-neg : (x : A) → s.add x (s.neg x) ≡ s.zero) (x_matrix : IsMatrix t.x_ t.m t.n t.ldb)
    (b_matrix : IsMatrix t.b_ t.m t.n t.ldb) (apart : IsApart t) where
  on_side :
      {b side : Bool} (l r : GemmCall A) {st : Store A}
      → b ≡ side
      → run (if b then l else r) st ≡ run (if side then l else r) st
  on_side l r {st = st} e = ap (λ b. run (if b then l else r) st) e

  side-IsSolveStep :
      (side : Bool) (i size : ℕ) (is_first : Bool) (st : Store A)
      → t.is_left ≡ side
      → i + size ≤ equations side t
      → (out : Store A) × (run (solve_call s t i size is_first) st ≡ ok out)
        × IsSolveStep exact t side i size (factor s t is_first) st out
  unfolding solve_call
  side-IsSolveStep true i size is_first st e h =
      let r = left_solve exact t gemm add-neg x_matrix b_matrix apart i size is_first st h in
      (
        r.0,
        on_side (left_solve_call s t i size is_first) (right_solve_call s t i size is_first) e
            ∙ r.1,
        r.2,
      )
  side-IsSolveStep false i size is_first st e h =
      let r = right_solve exact t gemm add-neg x_matrix b_matrix apart i size is_first st h in
      (
        r.0,
        on_side (left_solve_call s t i size is_first) (right_solve_call s t i size is_first) e
            ∙ r.1,
        r.2,
      )

  pub solve_step :
      (i size : ℕ) (is_first : Bool) (st : Store A)
      → i + size ≤ equations t.is_left t
      → (out : Store A) × (run (solve_call s t i size is_first) st ≡ ok out)
        × IsSolveStep exact t t.is_left i size (factor s t is_first) st out
  solve_step i size is_first st h = side-IsSolveStep t.is_left i size is_first st refl h

  forward_step_on :
      (side : Bool) (i : ℕ) (is_first : Bool) (st : Store A)
      → t.is_left ≡ side
      → i + block_size ≤ equations side t
      → (out : Store A) × (run (forward_call s t i is_first) st ≡ ok out)
        × IsUpdateStep exact t side
            (i + block_size)
            (equations side t - i - block_size)
            i
            block_size
            (factor s t is_first)
            st
            out
  unfolding forward_call
  forward_step_on true i is_first st e h =
      let r = left_forward exact t gemm add-neg x_matrix b_matrix apart i is_first st h in
      (
        r.0,
        on_side (left_forward_call s t i is_first) (right_forward_call s t i is_first) e ∙ r.1,
        r.2,
      )
  forward_step_on false i is_first st e h =
      let r = right_forward exact t gemm add-neg x_matrix b_matrix apart i is_first st h in
      (
        r.0,
        on_side (left_forward_call s t i is_first) (right_forward_call s t i is_first) e ∙ r.1,
        r.2,
      )

  pub forward_step :
      (i : ℕ) (is_first : Bool) (st : Store A)
      → i + block_size ≤ equations t.is_left t
      → (out : Store A) × (run (forward_call s t i is_first) st ≡ ok out)
        × IsUpdateStep exact t t.is_left
            (i + block_size)
            (equations t.is_left t - i - block_size)
            i
            block_size
            (factor s t is_first)
            st
            out
  forward_step i is_first st h = forward_step_on t.is_left i is_first st refl h

  backward_step_on :
      (side : Bool) (i size : ℕ) (is_first : Bool) (st : Store A)
      → t.is_left ≡ side
      → i ≤ equations side t
      → (out : Store A) × (run (backward_call s t i size is_first) st ≡ ok out)
        × IsUpdateStep exact t side 0 i i size (factor s t is_first) st out
  unfolding backward_call
  backward_step_on true i size is_first st e h =
      let r = left_backward exact t gemm add-neg x_matrix b_matrix apart i size is_first st h in
      (
        r.0,
        on_side (left_backward_call s t i size is_first) (right_backward_call s t i size is_first) e
            ∙ r.1,
        r.2,
      )
  backward_step_on false i size is_first st e h =
      let r = right_backward exact t gemm add-neg x_matrix b_matrix apart i size is_first st h in
      (
        r.0,
        on_side (left_backward_call s t i size is_first) (right_backward_call s t i size is_first) e
            ∙ r.1,
        r.2,
      )

  pub backward_step :
      (i size : ℕ) (is_first : Bool) (st : Store A)
      → i ≤ equations t.is_left t
      → (out : Store A) × (run (backward_call s t i size is_first) st ≡ ok out)
        × IsUpdateStep exact t t.is_left 0 i i size (factor s t is_first) st out
  backward_step i size is_first st h = backward_step_on t.is_left i size is_first st refl h
