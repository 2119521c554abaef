-- ===== src/Gemm/Reference.antt =====
-- src/interface/gemm_launcher.hpp: `_gemm` with the reference kernel does what its callers rely on.
pub mod Entries
use mathlib.Core.Path.{ap₂, subst}
use sycl_blas.Base.{
  ℕ, ◌+◌, ◌*◌, ◌<◌, ◌≡◌, ◌≢◌, inl, inr, Bool, true, false, not, refl, sym, ap, ◌∙◌, arith,
  if◌then◌else◌, ◌==◌, Bool-cases, ok,
}
use sycl_blas.Base.Int.{ℤ, pos, ◌+ℤ◌}
use sycl_blas.Base.Scalar.{Scalar, IsExact, add-zero}
use sycl_blas.Base.Matrices.{total, total_congr}
use sycl_blas.Container.{BufferIterator}
use sycl_blas.Views.{Store, make_matrix_view, get_range_accessor, col_major}
use sycl_blas.Kernel.{launch}
use sycl_blas.Executor.{Executor}
use sycl_blas.Gemm.{Gemm, get_groups, gemm_eval}
use sycl_blas.Gemm.Product.{c_entry, gemm_value}
use sycl_blas.Gemm.Launch.{gemm_launch_lem}
use sycl_blas.Gemm.Call.{GemmCall, gemm, IsGemm, entry_at, op_entry, letter}
use sycl_blas.Gemm.Interface.{gemm_backend, to_lower, is_transpose}
use sycl_blas.Gemm.Interface.Scaling.{IsMatrix}
use sycl_blas.Gemm.Interface.Whole.{gemm_backend_lem, IsScaled}
use sycl_blas.Gemm.Reference.Entries.{letter-is_transpose, letter_trans, a_entry_eq, b_entry_eq}

-- The kernel object that `_select_gemm` makes.
unfoldable pub reference_gemm {ℓ} : {A : Type ℓ} → ℕ → GemmCall A → Bool → Bool → Bool → Gemm A
reference_gemm wg_size call trans_a trans_b is_beta_zero = record {
  trans_a = trans_a;
  trans_b = trans_b;
  is_beta_zero = is_beta_zero;
  wg_size = wg_size;
  a_ = make_matrix_view col_major call.a_ call.m call.k call.lda;
  b_ = make_matrix_view col_major call.b_ call.k call.n call.ldb;
  c_ = make_matrix_view col_major call.c_ call.m call.n call.ldc;
  alpha = call.alpha;
  beta = call.beta;
  batch_size = 1;
}

-- And its execution over its grid.
unfoldable pub select_gemm {ℓ} :
    {A : Type ℓ} → Scalar A → Executor → ℕ → GemmCall A → Bool → Bool → Bool → Store A → Store A
select_gemm s ex wg_size call trans_a trans_b is_beta_zero =
    let g = reference_gemm wg_size call trans_a trans_b is_beta_zero in
    launch (get_groups g ex.num_compute_units * wg_size)
      (gemm_eval s g (get_groups g ex.num_compute_units))

module _ {ℓ} {A : Type ℓ} {s : Scalar A} (exact : IsExact s) (ex : Executor)
    (some_items : 0 < ex.work_group_size) (sound : (x : A) → s.equal x s.zero ≡ true → x ≡ s.zero)
    (wg_size : ℕ) (some : 0 < wg_size) where
  -- The entries that a call promises.
  abbrev value : GemmCall A → Bool → Bool → Store A → ℕ → ℕ → A
  value call trans_a trans_b st row col =
      s.add
        (s.mul call.alpha (
          total exact call.k (λ p.
            s.mul (op_entry st trans_a call.a_ call.lda row p)
              (op_entry st trans_b call.b_ call.ldb p col))))
        (s.mul call.beta (entry_at st call.c_ call.ldc row col))

  -- What a call promises of the memory afterwards.
  abbrev Does : GemmCall A → Bool → Bool → Store A → Store A → Type ℓ
  Does call trans_a trans_b st out =
      ((row col : ℕ)
        → row < call.m
        → col < call.n
        → entry_at out call.c_ call.ldc row col ≡ value call trans_a trans_b st row col)
      × ((b : ℕ) (x : ℤ)
          → ((row col : ℕ)
              → row < call.m
              → col < call.n
              → ¬ ((b ≡ call.c_.buffer.name) × (x ≡ call.c_.offset +ℤ pos (row + col * call.ldc))))
          → out b x ≡ st b x)

  beta_value : (beta x : A) → (if s.equal beta s.zero then s.zero else s.mul beta x) ≡ s.mul beta x
  beta_value beta x = elim (Bool-cases (s.equal beta s.zero)) [
    | inl e ↦ rw e (sym (ap (λ b. s.mul b x) (sound beta e) ∙ exact.zero-mul x))
    | inr e ↦ rw e
  ]

  no_product : (alpha x y : A) → alpha ≡ s.zero → s.add (s.mul alpha x) y ≡ y
  no_product alpha x y e =
      ap (λ a. s.add (s.mul a x) y) e ∙ ap (λ z. s.add z y) (exact.zero-mul x) ∙ exact.zero-add y

  scaled-Does :
      (call : GemmCall A) (trans_a trans_b : Bool) (st out : Store A)
      → s.equal call.alpha s.zero ≡ true
      → IsScaled s ex some_items call.c_ call.m (1 * call.n) call.ldc call.beta st out
      → Does call trans_a trans_b st out
  scaled-Does call trans_a trans_b st out zero_alpha h = (
    λ row col hr hc.
        ap (λ k. out call.c_.buffer.name (call.c_.offset +ℤ pos k)) {x = row + col * call.ldc}
          {y = col * call.ldc + row} (omega arith)
        ∙ h.0 col row (omega arith) hr
        ∙ beta_value call.beta _
        ∙ sym (
            no_product call.alpha _ _ (sound call.alpha zero_alpha)
            ∙ ap (λ k. s.mul call.beta (st call.c_.buffer.name (call.c_.offset +ℤ pos k)))
                {x = row + col * call.ldc} {y = col * call.ldc + row} (omega arith)),
    λ b x miss. h.1 b x (λ k row hk hr e. miss row k hr (omega arith) (
      e.0,
      e.1
          ∙ ap (λ k. call.c_.offset +ℤ pos k) {x = k * call.ldc + row} {y = row + k * call.ldc}
              (omega arith),
    )),
  )

  beta_term :
      (beta x y : A)
      → (if s.equal beta s.zero then x else s.add x (s.mul beta y)) ≡ s.add x (s.mul beta y)
  beta_term beta x y = elim (Bool-cases (s.equal beta s.zero)) [
    | inl e ↦ rw e (
        sym (
          ap (λ b. s.add x (s.mul b y)) (sound beta e)
          ∙ ap (s.add x) (exact.zero-mul y)
          ∙ add-zero exact x))
    | inr e ↦ rw e
  ]

  module _ (call : GemmCall A) (trans_a trans_b : Bool) (st : Store A)
      (matrix : IsMatrix call.c_ call.m call.n call.ldc)
      (other_a : call.a_.buffer.name ≢ call.c_.buffer.name)
      (other_b : call.b_.buffer.name ≢ call.c_.buffer.name) where
    abbrev kernel : Gemm A
    kernel = reference_gemm wg_size call trans_a trans_b (s.equal call.beta s.zero)

    place_eq :
        (row col : ℕ)
        → kernel.c_.disp +ℤ pos (c_entry kernel 0 row col)
          ≡ call.c_.offset +ℤ pos (row + col * call.ldc)
    unfolding reference_gemm make_matrix_view
    place_eq row col = ap (λ k. call.c_.offset +ℤ pos k) (omega arith)

    value_eq :
        (row col : ℕ) → gemm_value exact kernel st 0 row col ≡ value call trans_a trans_b st row col
    unfolding reference_gemm make_matrix_view get_range_accessor
    value_eq row col =
        beta_term call.beta _ _
        ∙ ap₂ (λ x y. s.add (s.mul call.alpha x) (s.mul call.beta y))
            (total_congr exact call.k _ _ (λ p _.
              ap₂ s.mul (a_entry_eq st call.a_ call.lda row p _ trans_a)
                (b_entry_eq st call.b_ call.ldb p col _ trans_b)))
            (ap (st call.c_.buffer.name) (place_eq row col))

    select_gemm-Does :
        Does call trans_a trans_b st
          (select_gemm s ex wg_size call trans_a trans_b (s.equal call.beta s.zero) st)
    unfolding reference_gemm select_gemm make_matrix_view get_range_accessor
    select_gemm-Does =
        let all =
          gemm_launch_lem exact kernel ex.num_compute_units some matrix.apart other_a other_b st in
        (
          λ row col hr hc.
              ap
                (λ x.
                  select_gemm s ex wg_size call trans_a trans_b (s.equal call.beta s.zero) st
                    call.c_.buffer.name x)
                (sym (place_eq row col))
              ∙ all.0 0 row col (omega arith, hr, hc)
              ∙ value_eq row col,
          λ b x miss. all.1 b x (λ batch row col h e.
              let only : batch < 1 = h.0 in
              miss row col h.1 h.2 (
                e.0,
                e.1
                    ∙ ap (λ k. kernel.c_.disp +ℤ pos (c_entry kernel k row col)) {x = batch} {y = 0}
                        (omega arith)
                    ∙ place_eq row col,
              )),
        )

  gemm_run :
      (call : GemmCall A) (trans_a trans_b : Bool) (st : Store A)
      → call.trans_a ≡ letter trans_a
      → call.trans_b ≡ letter trans_b
      → s.equal call.alpha s.zero ≡ false
      → gemm s ex (select_gemm s ex wg_size) call st
        ≡ ok (select_gemm s ex wg_size call trans_a trans_b (s.equal call.beta s.zero) st)
  unfolding gemm gemm_backend
  gemm_run call trans_a trans_b st la lb e =
      ap₂
        (λ x y.
          gemm_backend s ex (select_gemm s ex wg_size call) x y call.m call.n call.alpha call.beta
            call.c_ call.ldc 1 st)
        la lb
      ∙ rw (e, letter-is_transpose trans_a, letter-is_transpose trans_b)
          (ap₂ (λ x y. ok (select_gemm s ex wg_size call x y (s.equal call.beta s.zero) st))
            (letter_trans trans_a) (letter_trans trans_b))

  -- `_gemm` with the reference kernel, whatever its work groups, does what its callers rely on: for
  -- exact arithmetic in which only zero compares equal to zero, the entries of C become those of
  -- `alpha * op(A) * op(B) + beta * C` of the memory before and nothing else changes, where alpha is
  -- zero and the product is not computed too.
  pub gemm-IsGemm : IsGemm exact (gemm s ex (select_gemm s ex wg_size))
  unfolding gemm
  gemm-IsGemm = record {
    law = λ call trans_a trans_b st la lb matrix other_a other_b.
        elim (Bool-cases (s.equal call.alpha s.zero)) [
          | inl e ↦
              let r =
                gemm_backend_lem s ex some_items (select_gemm s ex wg_size call) call.trans_a
                  call.trans_b call.m call.n call.alpha call.beta call.c_ call.ldc 1 st e
                  (subst (λ n. IsMatrix call.c_ call.m n call.ldc) {x = call.n} {y = 1 * call.n}
                    (omega arith) matrix) in
              let does = scaled-Does call trans_a trans_b st r.0 e r.2 in (r.0, r.1, does.0, does.1)
          | inr e ↦
              let does = select_gemm-Does call trans_a trans_b st matrix other_a other_b in
              (
                select_gemm s ex wg_size call trans_a trans_b (s.equal call.beta s.zero) st,
                gemm_run call trans_a trans_b st la lb e,
                does.0,
                does.1,
              )
        ];
  }
