-- ===== src/Gemm/Product.antt =====
-- The value that the reference kernel computes for an element of C: the product of a row and a column.
use mathlib.Core.Path.{ap₂}
use sycl_blas.Base.{
  ℕ, zero, suc, ◌+◌, ◌*◌, Bool, true, false, if◌then◌else◌, ◌≡◌, sym, ap, ◌∙◌, arith,
}
use sycl_blas.Base.Scalar.{Scalar, IsExact, sum_monoid, add-zero}
use sycl_blas.Base.Sums.{sum, sum_congr}
use sycl_blas.Views.{Store}
use sycl_blas.Gemm.{Gemm, k_, a_size, b_size, c_size, at, mad_loop, result}

module _ {ℓ} {A : Type ℓ} (g : Gemm A) where
  -- Where the entries of `op(A)`, `op(B)` and C of a batch are, from the pointers of the views.
  abbrev pub a_entry : ℕ → ℕ → ℕ → ℕ
  a_entry batch row p =
      batch * a_size g + (if g.trans_a then row * g.a_.leading + p else row + p * g.a_.leading)

  abbrev pub b_entry : ℕ → ℕ → ℕ → ℕ
  b_entry batch p col =
      batch * b_size g + (if g.trans_b then col + p * g.b_.leading else col * g.b_.leading + p)

  abbrev pub c_entry : ℕ → ℕ → ℕ → ℕ
  c_entry batch row col = batch * c_size g + (row + col * g.c_.leading)

-- `alpha * op(A) * op(B) + beta * C` at an entry, without the last term where C is not read.
abbrev pub gemm_value {ℓ} :
    {A : Type ℓ} {s : Scalar A} → IsExact s → Gemm A → Store A → ℕ → ℕ → ℕ → A
gemm_value {s = s} exact g st batch row col =
    let product =
      sum (sum_monoid exact) (k_ g) (λ p.
        s.mul (at g st g.a_ (a_entry g batch row p)) (at g st g.b_ (b_entry g batch p col))) in
    if g.is_beta_zero
    then s.mul g.alpha product
    else s.add (s.mul g.alpha product) (s.mul g.beta (at g st g.c_ (c_entry g batch row col)))

along :
    (t : Bool) (x row p l : ℕ)
    → x + row * (if t then l else 1) + p * (if t then 1 else l)
      ≡ x + (if t then row * l + p else row + p * l)
along true x row p l = omega arith
along false x row p l = omega arith

across :
    (t : Bool) (x col p l : ℕ)
    → x + col * (if t then 1 else l) + p * (if t then l else 1)
      ≡ x + (if t then col + p * l else col * l + p)
across true x col p l = omega arith
across false x col p l = omega arith

module _ {ℓ} {A : Type ℓ} {s : Scalar A} (exact : IsExact s) (g : Gemm A) where
  mad_loop_lem :
      (k a b : ℕ) (reg_res : A) (st : Store A)
      → mad_loop s g k a b reg_res st
        ≡ s.add
            (sum (sum_monoid exact) k (λ p.
              s.mul
                (at g st g.a_ (a + p * (if g.trans_a then 1 else g.a_.leading)))
                (at g st g.b_ (b + p * (if g.trans_b then g.b_.leading else 1)))))
            reg_res
  unfolding mad_loop sum
  mad_loop_lem zero a b reg_res st = sym (exact.zero-add reg_res)
  mad_loop_lem (suc k) a b reg_res st =
      mad_loop_lem k (a + sa) (b + sb) (s.add (s.mul (at g st g.a_ a) (at g st g.b_ b)) reg_res) st
      ∙ sym (exact.add_assoc _ _ reg_res)
      ∙ ap (λ x. s.add x reg_res)
          (exact.add_comm _ _
            ∙ ap₂ s.add
                (ap₂ s.mul (ap (at g st g.a_) {x = a} {y = a + 0 * sa} (omega arith))
                  (ap (at g st g.b_) {x = b} {y = b + 0 * sb} (omega arith)))
                (sum_congr (sum_monoid exact) k _ _ (λ p _.
                  ap₂ s.mul
                    (ap (at g st g.a_) {x = a + sa + p * sa} {y = a + suc p * sa} (omega arith))
                    (ap (at g st g.b_) {x = b + sb + p * sb} {y = b + suc p * sb} (omega arith)))))
    where
      sa : ℕ
      sa = if g.trans_a then 1 else g.a_.leading

      sb : ℕ
      sb = if g.trans_b then g.b_.leading else 1

  -- From the first entries of a row and a column the loop computes the entry of the product.
  pub result_lem :
      (batch row col : ℕ) (st : Store A)
      → result s g
          (batch * a_size g + row * (if g.trans_a then g.a_.leading else 1))
          (batch * b_size g + col * (if g.trans_b then 1 else g.b_.leading))
          (c_entry g batch row col)
          st
        ≡ gemm_value exact g st batch row col
  unfolding result
  result_lem batch row col st =
      ap
        (λ x.
          if g.is_beta_zero
          then s.mul g.alpha x
          else s.add (s.mul g.alpha x) (s.mul g.beta (at g st g.c_ (c_entry g batch row col))))
        (mad_loop_lem (k_ g) _ _ s.zero st
          ∙ add-zero exact _
          ∙ sum_congr (sum_monoid exact) (k_ g) _ _ (λ p _.
            ap₂ s.mul (ap (at g st g.a_) (along g.trans_a (batch * a_size g) row p g.a_.leading))
              (ap (at g st g.b_) (across g.trans_b (batch * b_size g) col p g.b_.leading))))
