-- ===== src/Trsm/Loops.antt =====
-- The loops over the blocks: they end, and leave a solution in X.
pub mod Order
pub mod Forward
pub mod Backward
use mathlib.Core.Path.{subst}
use native.Mathlib.Nat.{div-add-mod', mod-lt}
use sycl_blas.Base.{
  if_yes, if_no, ℕ, zero, suc, ◌+◌, ◌-◌, ◌*◌, ◌/◌, ◌%◌, ◌<◌, ◌≤◌, ◌≡◌, ◌≢◌, ◌⊎◌, inl, inr, Bool,
  true, false, not, refl, sym, ◌∙◌, arith, if◌then◌else◌, leb, ltb, min, ◌==◌, ◌&&◌, ◌||◌,
  Bool-cases, Result, ok, ltb→lt, lt→ltb, le→ltb, ==_iff,
}
use sycl_blas.Base.Scalar.{Scalar, IsExact}
use sycl_blas.Views.{Store}
use sycl_blas.Gemm.Call.{GemmCall, IsGemm}
use sycl_blas.Gemm.Interface.Scaling.{IsMatrix}
use sycl_blas.Trsm.Calls.{System, k_, block_size, factor, solve_call, backward_call}
use sycl_blas.Trsm.{forward_ends, forward_loop, backward_loop, solve_blocks}
use sycl_blas.Trsm.Substitution.{none-IsPartly}
use sycl_blas.Trsm.Steps.Sides.{solve_step, forward_step, backward_step}
use sycl_blas.Trsm.Steps.{IsApart, equations, a_at, IsSolveStep}
use sycl_blas.Trsm.States.{
  triangle, IsState, IsSolution, HasInverses, target, state-IsSolution, last-IsSolution,
  next-IsState,
}
use sycl_blas.Trsm.Loops.Order.{
  leb_yes, leb_no, ltb→le, leb→le, leb→gt, forward_same, backward_same,
}
use sycl_blas.Trsm.Loops.Forward.{forward_loop_lem}
use sycl_blas.Trsm.Loops.Backward.{backward_loop_lem}

-- The last block, which may be a smaller one.
special_lem :
    (k : ℕ)
    → 0 < k
    → (block : ℕ) × (k - (if k % 16 == 0 then 16 else k % 16) ≡ block * 16)
      × ((if k % 16 == 0 then 16 else k % 16)
          ≡ min (k - (k - (if k % 16 == 0 then 16 else k % 16))) 16)
      × (0 < (if k % 16 == 0 then 16 else k % 16))
      × ((if k % 16 == 0 then 16 else k % 16) ≤ k)
special_lem k h = elim (Bool-cases (k % 16 == 0)) [
  | inl e ↦
      let none = (==_iff (k % 16) 0).0 e in
      let whole = div-add-mod' k 16 in
      rw e (k / 16 - 1, omega arith, omega arith, omega arith, omega arith)
  | inr e ↦
      let some_left : k % 16 ≢ 0 = λ z. cc (sym e ∙ (==_iff (k % 16) 0).1 z) in
      let whole = div-add-mod' k 16 in
      let small : k % 16 < 16 = mod-lt k (omega arith) in
      rw e (k / 16, omega arith, omega arith, omega arith, omega arith)
]

-- Whether the loop of a system goes up.
abbrev pub goes_up {ℓ} : {A : Type ℓ} → System A → Bool
goes_up t =
    let op_lower = t.is_upper && t.is_transpose || not t.is_upper && not t.is_transpose in
    if t.is_left then op_lower else not op_lower

module _ {ℓ} {A : Type ℓ} {s : Scalar A} (exact : IsExact s) (t : System A)
    {run : GemmCall A → Store A → Result (Store A)} (gemm : IsGemm exact run)
    (add-neg : (x : A) → s.add x (s.neg x) ≡ s.zero) (x_matrix : IsMatrix t.x_ t.m t.n t.ldb)
    (b_matrix : IsMatrix t.b_ t.m t.n t.ldb) (apart : IsApart t) (start : Store A) where
  start-IsState :
      (up : Bool) (done : ℕ → Bool)
      → ((c : ℕ) → c < equations t.is_left t → done c ≡ false)
      → IsState exact t up start done true start
  start-IsState up done none = record {
    partly = λ q hq.
        none-IsPartly exact (equations t.is_left t) (triangle s t up start)
          (target exact t up start q) done _ _ none (λ row hr. refl);
    kept = λ b x ne ne'. refl;
  }

  -- `specialBlockSize`
  abbrev special : ℕ
  special = if k_ s t % block_size == 0 then block_size else k_ s t % block_size

  loops_lem :
      (up : Bool)
      → 0 < equations t.is_left t
      → HasInverses exact t up start
      → (out : Store A) × ((if up
            then forward_loop s t run (k_ s t) 0 start
            else backward_loop s t run (k_ s t) (k_ s t - special) special (k_ s t - special) start)
          ≡ ok out)
        × IsSolution exact t up start out
  loops_lem true some_rows inverses =
      forward_loop_lem exact t gemm add-neg x_matrix b_matrix apart start inverses (k_ s t) 0 0 true
        start (omega arith) (omega arith) (omega arith) refl
        (start-IsState true _ (λ c hc. le→ltb c 0 (omega arith)))
  loops_lem false some_rows inverses =
      let w = special_lem (k_ s t) some_rows in
      backward_loop_lem exact t gemm add-neg x_matrix b_matrix apart start inverses (k_ s t)
        (k_ s t - special) special w.0 (k_ s t - special) special true start w.1
        (omega (arith, w.3, w.4)) (omega (arith, w.3, w.4)) (omega arith) w.2
        ((==_iff (k_ s t - special) _).1 refl) refl
        (start-IsState false _
          (λ c hc. leb_no (k_ s t - special + special) c (omega (arith, w.3, w.4))))

  pub solve_blocks_lem :
      0 < equations t.is_left t
      → HasInverses exact t (goes_up t) start
      → (out : Store A) × (solve_blocks s t run start ≡ ok out)
        × IsSolution exact t (goes_up t) start out
  unfolding solve_blocks
  solve_blocks_lem = loops_lem (goes_up t)
