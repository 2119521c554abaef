-- ===== src/Trsm/Steps/Left.antt =====
-- The products of the loops where A is on the left of X.
use mathlib.Core.Path.{ap₂}
use sycl_blas.Base.{
  ℕ, ◌+◌, ◌-◌, ◌≤◌, ◌≡◌, inl, Bool, true, false, refl, sym, ap, ◌∙◌, arith, Result, ok,
}
use sycl_blas.Base.Scalar.{Scalar, IsExact}
use sycl_blas.Container.{advance}
use sycl_blas.Views.{Store}
use sycl_blas.Gemm.Call.{GemmCall, IsGemm}
use sycl_blas.Gemm.Interface.Scaling.{IsMatrix}
use sycl_blas.Trsm.Calls.{
  System, block_size, factor, left_solve_call, left_forward_call, left_backward_call,
}
use sycl_blas.Trsm.Regions.{shift-IsAt, self-IsAt, shift-shift-IsAt, entry_at-IsAt, region_lem}
use sycl_blas.Trsm.Steps.{IsApart, IsSolveStep, IsUpdateStep}
use sycl_blas.Trsm.Steps.Values.{op_entry-shift, scaled_total, taken_out}

module _ {ℓ} {A : Type ℓ} {s : Scalar A} (exact : IsExact s) (t : System A)
    {run : GemmCall A → Store A → Result (Store A)} (gemm : IsGemm exact run)
    (add-neg : (x : A) → s.add x (s.neg x) ≡ s.zero) (x_matrix : IsMatrix t.x_ t.m t.n t.ldb)
    (b_matrix : IsMatrix t.b_ t.m t.n t.ldb) (apart : IsApart t) where
  pub left_solve :
      (i size : ℕ) (is_first : Bool) (st : Store A)
      → i + size ≤ t.m
      → (out : Store A) × (run (left_solve_call s t i size is_first) st ≡ ok out)
        × IsSolveStep exact t true i size (factor s t is_first) st out
  unfolding advance
  left_solve i size is_first st h =
      let r =
        region_lem exact gemm t.x_ t.m t.n t.ldb i 0 x_matrix (left_solve_call s t i size is_first)
          t.is_transpose false refl refl refl (shift-IsAt t.x_ t.ldb i 0 i (omega arith)) h
          (omega arith) apart.inv_x (λ e. apart.x_b (sym e)) st in
      (
        r.0,
        r.1,
        record {
          inside = λ l q hl hq.
              r.2 l q (i + l) q hl hq refl (omega arith)
              ∙ scaled_total exact size _ _ _ _ _ _ (λ k. ap (s.mul _) (
                  entry_at-IsAt (shift-IsAt t.b_ t.ldb i 0 i (omega arith)) st k q (i + k) q refl
                    (omega arith)));
          outside = λ c q hc hq o. let wide = x_matrix.apart in r.3 c q (omega arith) (inl o);
          others = r.4;
        },
      )

  pub left_forward :
      (i : ℕ) (is_first : Bool) (st : Store A)
      → i + block_size ≤ t.m
      → (out : Store A) × (run (left_forward_call s t i is_first) st ≡ ok out)
        × IsUpdateStep exact t true
            (i + block_size)
            (t.m - i - block_size)
            i
            block_size
            (factor s t is_first)
            st
            out
  unfolding advance
  left_forward i is_first st h =
      let r =
        region_lem exact gemm t.b_ t.m t.n t.ldb (i + block_size) 0 b_matrix
          (left_forward_call s t i is_first) t.is_transpose false refl refl refl
          (shift-shift-IsAt t.b_ t.ldb i block_size) (omega arith) (omega arith) apart.a_b apart.x_b
          st in
      (
        r.0,
        r.1,
        record {
          inside = λ l q hl hq.
              taken_out exact add-neg block_size _ _ _ _ _ _
                (r.2 l q (i + block_size + l) q hl hq refl (omega arith))
                (λ k.
                  ap₂ s.mul
                    (op_entry-shift st t.is_transpose t.a_ t.lda (i + block_size) i _ _ l k _ _
                      (omega arith) (omega arith) refl refl)
                    (entry_at-IsAt (shift-IsAt t.x_ t.ldb i 0 i (omega arith)) st k q (i + k) q refl
                      (omega arith)));
          others = r.4;
        },
      )

  pub left_backward :
      (i size : ℕ) (is_first : Bool) (st : Store A)
      → i ≤ t.m
      → (out : Store A) × (run (left_backward_call s t i size is_first) st ≡ ok out)
        × IsUpdateStep exact t true 0 i i size (factor s t is_first) st out
  unfolding advance
  left_backward i size is_first st h =
      let r =
        region_lem exact gemm t.b_ t.m t.n t.ldb 0 0 b_matrix
          (left_backward_call s t i size is_first) t.is_transpose false refl refl refl
          (self-IsAt t.b_ t.ldb) (omega arith) (omega arith) apart.a_b apart.x_b st in
      (
        r.0,
        r.1,
        record {
          inside = λ l q hl hq.
              taken_out exact add-neg size _ _ _ _ _ _ (r.2 l q (0 + l) q hl hq refl (omega arith))
                (λ k.
                  ap₂ s.mul
                    (op_entry-shift st t.is_transpose t.a_ t.lda 0 i _ _ l k _ _ (omega arith)
                      (omega arith) refl refl)
                    (entry_at-IsAt (shift-IsAt t.x_ t.ldb i 0 i (omega arith)) st k q (i + k) q refl
                      (omega arith)));
          others = r.4;
        },
      )
