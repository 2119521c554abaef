-- ===== src/Gemm/Call.antt =====
-- src/interface/gemm_interface.hpp: a call of `_gemm` as its callers make it, and what it promises.
use sycl_blas.Base.{ℕ, ◌+◌, ◌*◌, ◌<◌, ◌≡◌, ◌≢◌, Bool, if◌then◌else◌, Result, ok}
use sycl_blas.Base.Int.{ℤ, pos, ◌+ℤ◌}
use sycl_blas.Base.Scalar.{Scalar, IsExact}
use sycl_blas.Base.Matrices.{total}
use sycl_blas.Container.{BufferIterator}
use sycl_blas.Views.{Store}
use sycl_blas.Executor.{Executor}
use sycl_blas.Gemm.Interface.{gemm_backend}
use sycl_blas.Gemm.Interface.Scaling.{IsMatrix}

-- The arguments of `_gemm`, without the executor.
pub record GemmCall {ℓ} (A : Type ℓ) : Type ℓ where
  pub trans_a : ℕ
  pub trans_b : ℕ
  pub m : ℕ
  pub n : ℕ
  pub k : ℕ
  pub alpha : A
  pub a_ : BufferIterator
  pub lda : ℕ
  pub b_ : BufferIterator
  pub ldb : ℕ
  pub beta : A
  pub c_ : BufferIterator
  pub ldc : ℕ

-- `_gemm`: one matrix. The kernel that the back end launches takes the call, the two transposes and
-- whether beta is zero.
unfoldable pub gemm {ℓ} :
    {A : Type ℓ}
    → Scalar A
    → Executor
    → (GemmCall A → Bool → Bool → Bool → Store A → Store A)
    → GemmCall A
    → Store A
    → Result (Store A)
gemm s ex kernel call =
    gemm_backend s ex (kernel call) call.trans_a call.trans_b call.m call.n call.alpha call.beta
      call.c_ call.ldc 1

-- An entry of a matrix in column-major order, by its distance from the first one.
abbrev pub entry_at {ℓ} : {A : Type ℓ} → Store A → BufferIterator → ℕ → ℕ → ℕ → A
entry_at st it leading row col = st it.buffer.name (it.offset +ℤ pos (row + col * leading))

-- An entry of a matrix or of its transpose.
abbrev pub op_entry {ℓ} : {A : Type ℓ} → Store A → Bool → BufferIterator → ℕ → ℕ → ℕ → A
op_entry st trans it leading row col =
    if trans then entry_at st it leading col row else entry_at st it leading row col

abbrev pub letter : Bool → ℕ
letter trans = if trans then 116 else 110

-- What `_gemm` does for calls with the letters n and t, with exact arithmetic: the entries of C are
-- those of `alpha * op(A) * op(B) + beta * C` of the memory before, and nothing else changes, where A
-- and B are in other buffers than C, which lies in its buffer with columns that do not overlap.
pub record IsGemm {ℓ} {A : Type ℓ} {s : Scalar A} (exact : IsExact s)
    (run : GemmCall A → Store A → Result (Store A)) : Type ℓ where
  pub law :
      (call : GemmCall A) (trans_a trans_b : Bool) (st : Store A)
      → call.trans_a ≡ letter trans_a
      → call.trans_b ≡ letter trans_b
      → IsMatrix call.c_ call.m call.n call.ldc
      → call.a_.buffer.name ≢ call.c_.buffer.name
      → call.b_.buffer.name ≢ call.c_.buffer.name
      → (out : Store A) × (run call st ≡ ok out)
        × ((row col : ℕ)
            → row < call.m
            → col < call.n
            → entry_at out call.c_ call.ldc row col
              ≡ s.add
                  (s.mul call.alpha (
                    total exact call.k (λ p.
                      s.mul
                        (op_entry st trans_a call.a_ call.lda row p)
                        (op_entry st trans_b call.b_ call.ldb p col))))
                  (s.mul call.beta (entry_at st call.c_ call.ldc row col)))
        × ((b : ℕ) (x : ℤ)
            → ((row col : ℕ)
                → row < call.m
                → col < call.n
                → ¬ (
                    (b ≡ call.c_.buffer.name) × (x ≡ call.c_.offset +ℤ pos (row + col * call.ldc))))
            → out b x ≡ st b x)
