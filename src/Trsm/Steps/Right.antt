-- ===== src/Trsm/Steps/Right.antt =====
-- The products of the loops where A is on the right of X.
use mathlib.Core.Path.{ap₂}
use sycl_blas.Base.{
  ℕ, ◌+◌, ◌-◌, ◌*◌, ◌≤◌, ◌≡◌, inr, Bool, false, refl, sym, ap, ◌∙◌, arith, Result, ok,
}
use sycl_blas.Base.Scalar.{Scalar, IsExact}
use sycl_blas.Container.{advance}
use sycl_blas.Views.{Store}
use sycl_blas.Gemm.Call.{GemmCall, IsGemm}
use sycl_blas.Gemm.Interface.Scaling.{IsMatrix}
use sycl_blas.Trsm.Calls.{
  System, block_size, factor, right_solve_call, right_forward_call, right_backward_call,
}
use sycl_blas.Trsm.Regions.{shift-IsAt, self-IsAt, entry_at-IsAt, region_lem}
use sycl_blas.Trsm.Steps.{IsApart, IsSolveStep, IsUpdateStep}
use sycl_blas.Trsm.Steps.Values.{op_entry-shift, scaled_total, taken_out}

module _ {ℓ} {A : Type ℓ} {s : Scalar A} (exact : IsExact s) (t : System A)
    {run : GemmCall A → Store A → Result (Store A)} (gemm : IsGemm exact run)
    (add-neg : (x : A) → s.add x (s.neg x) ≡ s.zero) (x_matrix : IsMatrix t.x_ t.m t.n t.ldb)
    (b_matrix : IsMatrix t.b_ t.m t.n t.ldb) (apart : IsApart t) where
  pub right_solve :
      (i size : ℕ) (is_first : Bool) (st : Store A)
      → i + size ≤ t.n
      → (out : Store A) × (run (right_solve_call s t i size is_first) st ≡ ok out)
        × IsSolveStep exact t false i size (factor s t is_first) st out
  unfolding advance
  right_solve i size is_first st h =
      let r =
        region_lem exact gemm t.x_ t.m t.n t.ldb 0 i x_matrix (right_solve_call s t i size is_first)
          false t.is_transpose refl refl refl (shift-IsAt t.x_ t.ldb 0 i (i * t.ldb) (omega arith))
          (omega arith) h (λ e. apart.x_b (sym e)) apart.inv_x st in
      (
        r.0,
        r.1,
        record {
          inside = λ l q hl hq.
              r.2 q l q (i + l) hq hl (omega arith) refl
              ∙ scaled_total exact size _ _ _ _ _ _ (λ k.
                exact.mul_comm _ _
                ∙ ap (s.mul _) (
                    entry_at-IsAt (shift-IsAt t.b_ t.ldb 0 i (i * t.ldb) (omega arith)) st q k q
                      (i + k) (omega arith) refl));
          outside = λ c q hc hq o. let wide = x_matrix.apart in r.3 q c (omega arith) (inr o);
          others = r.4;
        },
      )

  pub right_forward :
      (i : ℕ) (is_first : Bool) (st : Store A)
      → i + block_size ≤ t.n
      → (out : Store A) × (run (right_forward_call s t i is_first) st ≡ ok out)
        × IsUpdateStep exact t false
            (i + block_size)
            (t.n - i - block_size)
            i
            block_size
            (factor s t is_first)
            st
            out
  unfolding advance
  right_forward i is_first st h =
      let r =
        region_lem exact gemm t.b_ t.m t.n t.ldb 0 (i + block_size) b_matrix
          (right_forward_call s t i is_first) false t.is_transpose refl refl refl
          (shift-IsAt t.b_ t.ldb 0 (i + block_size) ((i + block_size) * t.ldb) (omega arith))
          (omega arith) (omega arith) apart.x_b apart.a_b st in
      (
        r.0,
        r.1,
        record {
          inside = λ l q hl hq.
              taken_out exact add-neg block_size _ _ _ _ _ _
                (r.2 q l q (i + block_size + l) hq hl (omega arith) refl)
                (λ k.
                  exact.mul_comm _ _
                  ∙ ap₂ s.mul
                      (op_entry-shift st t.is_transpose t.a_ t.lda i (i + block_size) _ _ k l _ _
                        (omega arith) (omega arith) refl refl)
                      (entry_at-IsAt (shift-IsAt t.x_ t.ldb 0 i (i * t.ldb) (omega arith)) st q k q
                        (i + k) (omega arith) refl));
          others = r.4;
        },
      )

  pub right_backward :
      (i size : ℕ) (is_first : Bool) (st : Store A)
      → i ≤ t.n
      → (out : Store A) × (run (right_backward_call s t i size is_first) st ≡ ok out)
        × IsUpdateStep exact t false 0 i i size (factor s t is_first) st out
  unfolding advance
  right_backward i size is_first st h =
      let r =
        region_lem exact gemm t.b_ t.m t.n t.ldb 0 0 b_matrix
          (right_backward_call s t i size is_first) false t.is_transpose refl refl refl
          (self-IsAt t.b_ t.ldb) (omega arith) (omega arith) apart.x_b apart.a_b st in
      (
        r.0,
        r.1,
        record {
          inside = λ l q hl hq.
              taken_out exact add-neg size _ _ _ _ _ _ (r.2 q l q (0 + l) hq hl (omega arith) refl)
                (λ k.
                  exact.mul_comm _ _
                  ∙ ap₂ s.mul
                      (op_entry-shift st t.is_transpose t.a_ t.lda i 0 _ _ k l _ _ (omega arith)
                        (omega arith) refl refl)
                      (entry_at-IsAt (shift-IsAt t.x_ t.ldb 0 i (i * t.ldb) (omega arith)) st q k q
                        (i + k) (omega arith) refl));
          others = r.4;
        },
      )
