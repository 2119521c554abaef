-- ===== src/Gemv/Dots.antt =====
-- The loops of the kernels as dot products, with exact arithmetic.
use mathlib.Core.Path.{ap₂}
use sycl_blas.Base.{ℕ, zero, suc, ◌+◌, ◌*◌, ◌≡◌, refl, sym, ap, ◌∙◌, arith}
use sycl_blas.Base.Scalar.{Scalar, IsExact, add-zero}
use sycl_blas.Base.Matrices.{total, total_congr}
use sycl_blas.Base.Sums.{sum}
use sycl_blas.Views.{Store, vector_eval}
use sycl_blas.Gemv.{
  Gemv, c_dim, nc_stride, contract_stride, matrix_eval, dot_loop, partial_loop, scratch_loop,
}

-- A loop of `mad`s over two sequences, the first with a stride.
mads {ℓ} : {A : Type ℓ} → Scalar A → (ℕ → A) → (ℕ → A) → ℕ → ℕ → ℕ → ℕ → A → A
mads s f g stride zero p q acc = acc
mads s f g stride (suc count) p q acc =
    mads s f g stride count (p + stride) (suc q) (s.add (s.mul (f p) (g q)) acc)

module _ {ℓ} {A : Type ℓ} {s : Scalar A} (exact : IsExact s) where
  mads_lem :
      (f g : ℕ → A) (stride count p q : ℕ) (acc : A)
      → mads s f g stride count p q acc
        ≡ s.add (total exact count (λ k. s.mul (f (p + k * stride)) (g (q + k)))) acc
  unfolding mads sum
  mads_lem f g stride zero p q acc = sym (exact.zero-add acc)
  mads_lem f g stride (suc count) p q acc =
      mads_lem f g stride count (p + stride) (suc q) (s.add (s.mul (f p) (g q)) acc)
      ∙ sym (exact.add_assoc _ _ acc)
      ∙ ap (λ x. s.add x acc)
          (exact.add_comm _ _
            ∙ ap₂ s.add
                (ap₂ s.mul (ap f {x = p} {y = p + 0 * stride} (omega arith))
                  (ap g {x = q} {y = q + 0} (omega arith)))
                (total_congr exact count _ _ (λ k _.
                  ap₂ s.mul
                    (ap f {x = p + stride + k * stride} {y = p + suc k * stride} (omega arith))
                    (ap g {x = suc q + k} {y = q + suc k} (omega arith)))))

  module _ (g : Gemv) where
    dot_loop-mads :
        (count q p : ℕ) (acc : A) (st : Store A)
        → dot_loop s g count q p acc st
          ≡ mads s
              (matrix_eval s g st)
              (vector_eval g.vector_x_ st)
              (contract_stride g)
              count
              p
              q
              acc
    unfolding dot_loop mads
    dot_loop-mads zero q p acc st = refl
    dot_loop-mads (suc count) q p acc st = dot_loop-mads count (suc q) (p + contract_stride g) _ st

    partial_loop-mads :
        (scratch : ℕ → A) (count q p : ℕ) (acc : A) (st : Store A)
        → partial_loop s g scratch count q p acc st
          ≡ mads s (matrix_eval s g st) scratch g.matrix_a_.leading count p q acc
    unfolding partial_loop mads
    partial_loop-mads scratch zero q p acc st = refl
    partial_loop-mads scratch (suc count) q p acc st =
        partial_loop-mads scratch count (suc q) (p + g.matrix_a_.leading) _ st

    scratch_loop-mads :
        (matrix_scratch scratch : ℕ → A) (count p q : ℕ) (acc : A)
        → scratch_loop s g matrix_scratch scratch count p q acc
          ≡ mads s matrix_scratch scratch (g.local_range + 1) count p q acc
    unfolding scratch_loop mads
    scratch_loop-mads matrix_scratch scratch zero p q acc = refl
    scratch_loop-mads matrix_scratch scratch (suc count) p q acc =
        scratch_loop-mads matrix_scratch scratch count (p + (g.local_range + 1)) (suc q) _

    -- The entry of `op(A)` in a row of the result and a place of X.
    abbrev pub op_entry : Store A → ℕ → ℕ → A
    op_entry st nc c = matrix_eval s g st (nc * nc_stride g + c * contract_stride g)

    abbrev pub dot : Store A → ℕ → A
    dot st nc = total exact (c_dim g) (λ c. s.mul (op_entry st nc c) (vector_eval g.vector_x_ st c))

    pub dot_loop_lem :
        (st : Store A) (nc : ℕ) → dot_loop s g (c_dim g) 0 (nc * nc_stride g) s.zero st ≡ dot st nc
    dot_loop_lem st nc =
        dot_loop-mads (c_dim g) 0 (nc * nc_stride g) s.zero st
        ∙ mads_lem _ _ (contract_stride g) (c_dim g) _ 0 s.zero
        ∙ add-zero exact _
        ∙ total_congr exact (c_dim g) _ _ (λ k _.
          ap (λ j. s.mul (op_entry st nc k) (vector_eval g.vector_x_ st j)) {x = 0 + k} {y = k}
            (omega arith))

    pub partial_loop_lem :
        (scratch : ℕ → A) (count p : ℕ) (st : Store A)
        → partial_loop s g scratch count 0 p s.zero st
          ≡ total exact count
              (λ k. s.mul (matrix_eval s g st (p + k * g.matrix_a_.leading)) (scratch k))
    partial_loop_lem scratch count p st =
        partial_loop-mads scratch count 0 p s.zero st
        ∙ mads_lem _ _ g.matrix_a_.leading count p 0 s.zero
        ∙ add-zero exact _
        ∙ total_congr exact count _ _ (λ k _.
          ap (λ j. s.mul (matrix_eval s g st (p + k * g.matrix_a_.leading)) (scratch j)) {x = 0 + k}
            {y = k} (omega arith))

    pub scratch_loop_lem :
        (matrix_scratch scratch : ℕ → A) (count p q : ℕ) (acc : A)
        → scratch_loop s g matrix_scratch scratch count p q acc
          ≡ s.add
              (total exact count
                (λ k. s.mul (matrix_scratch (p + k * (g.local_range + 1))) (scratch (q + k))))
              acc
    scratch_loop_lem matrix_scratch scratch count p q acc =
        scratch_loop-mads matrix_scratch scratch count p q acc
        ∙ mads_lem matrix_scratch scratch (g.local_range + 1) count p q acc
