-- ===== src/Trsm/Calls.antt =====
-- src/interface/trsm_interface.hpp: the arguments of `_trsm` after its checks, and its calls of `_gemm`.
use sycl_blas.Base.{ℕ, ◌+◌, ◌-◌, ◌*◌, Bool, not, if◌then◌else◌}
use sycl_blas.Base.Int.{pos}
use sycl_blas.Base.Scalar.{Scalar}
use sycl_blas.Container.{BufferIterator, advance}
use sycl_blas.Gemm.Call.{GemmCall}

-- `i + offset`, for a count of elements
abbrev pub shift : BufferIterator → ℕ → BufferIterator
shift it offset = advance it (pos offset)

-- `blockSize`
abbrev pub block_size : ℕ
block_size = 16

-- The arguments of `_trsm` after its checks, with the two buffers that it makes.
pub record System {ℓ} (A : Type ℓ) : Type ℓ where
  pub is_left : Bool
  pub is_upper : Bool
  pub is_transpose : Bool
  pub is_unit_diag : Bool
  pub m : ℕ
  pub n : ℕ
  pub alpha : A
  pub a_ : BufferIterator
  pub lda : ℕ
  pub b_ : BufferIterator
  pub ldb : ℕ
  pub inv_a_ : BufferIterator
  pub x_ : BufferIterator

module _ {ℓ} {A : Type ℓ} (s : Scalar A) (t : System A) where
  -- `K`
  abbrev pub k_ : ℕ
  k_ = if t.is_left then t.m else t.n

  abbrev pub trans : ℕ
  trans = if t.is_transpose then 116 else 110

  -- `(i == start) ? alpha : element_t{1}`
  abbrev pub factor : Bool → A
  factor is_first = if is_first then t.alpha else s.one

  -- The products that solve for a block of X, on each side: with the inverse of the diagonal block.
  abbrev pub left_solve_call : ℕ → ℕ → Bool → GemmCall A
  left_solve_call i current_block_size is_first = record {
    trans_a = trans;
    trans_b = 110;
    m = current_block_size;
    n = t.n;
    k = current_block_size;
    alpha = factor is_first;
    a_ = shift t.inv_a_ (i * block_size);
    lda = block_size;
    b_ = shift t.b_ i;
    ldb = t.ldb;
    beta = s.zero;
    c_ = shift t.x_ i;
    ldc = t.ldb;
  }

  abbrev pub right_solve_call : ℕ → ℕ → Bool → GemmCall A
  right_solve_call i current_block_size is_first = record {
    trans_a = 110;
    trans_b = trans;
    m = t.m;
    n = current_block_size;
    k = current_block_size;
    alpha = factor is_first;
    a_ = shift t.b_ (i * t.ldb);
    lda = t.ldb;
    b_ = shift t.inv_a_ (i * block_size);
    ldb = block_size;
    beta = s.zero;
    c_ = shift t.x_ (i * t.ldb);
    ldc = t.ldb;
  }

  unfoldable pub solve_call : ℕ → ℕ → Bool → GemmCall A
  solve_call i current_block_size is_first =
      if t.is_left
      then left_solve_call i current_block_size is_first
      else right_solve_call i current_block_size is_first

  -- The products that take a solved block out of the right-hand side, in the loops that go up: from the
  -- rest of B behind the block.
  abbrev pub left_forward_call : ℕ → Bool → GemmCall A
  left_forward_call i is_first = record {
    trans_a = trans;
    trans_b = 110;
    m = t.m - i - block_size;
    n = t.n;
    k = block_size;
    alpha = s.neg s.one;
    a_ =
        shift t.a_
          (if not t.is_transpose then i + block_size + i * t.lda else i + (block_size + i) * t.lda);
    lda = t.lda;
    b_ = shift t.x_ i;
    ldb = t.ldb;
    beta = factor is_first;
    c_ = shift (shift t.b_ i) block_size;
    ldc = t.ldb;
  }

  abbrev pub right_forward_call : ℕ → Bool → GemmCall A
  right_forward_call i is_first = record {
    trans_a = 110;
    trans_b = trans;
    m = t.m;
    n = t.n - i - block_size;
    k = block_size;
    alpha = s.neg s.one;
    a_ = shift t.x_ (i * t.ldb);
    lda = t.ldb;
    b_ =
        shift t.a_
          (if not t.is_transpose then i + (block_size + i) * t.lda else i + block_size + i * t.lda);
    ldb = t.lda;
    beta = factor is_first;
    c_ = shift t.b_ ((i + block_size) * t.ldb);
    ldc = t.ldb;
  }

  unfoldable pub forward_call : ℕ → Bool → GemmCall A
  forward_call i is_first =
      if t.is_left then left_forward_call i is_first else right_forward_call i is_first

  -- And in the loops that go down: from B before the block.
  abbrev pub left_backward_call : ℕ → ℕ → Bool → GemmCall A
  left_backward_call i current_block_size is_first = record {
    trans_a = trans;
    trans_b = 110;
    m = i;
    n = t.n;
    k = current_block_size;
    alpha = s.neg s.one;
    a_ = shift t.a_ (if not t.is_transpose then i * t.lda else i);
    lda = t.lda;
    b_ = shift t.x_ i;
    ldb = t.ldb;
    beta = factor is_first;
    c_ = t.b_;
    ldc = t.ldb;
  }

  abbrev pub right_backward_call : ℕ → ℕ → Bool → GemmCall A
  right_backward_call i current_block_size is_first = record {
    trans_a = 110;
    trans_b = trans;
    m = t.m;
    n = i;
    k = current_block_size;
    alpha = s.neg s.one;
    a_ = shift t.x_ (i * t.ldb);
    lda = t.ldb;
    b_ = shift t.a_ (if not t.is_transpose then i else i * t.lda);
    ldb = t.lda;
    beta = factor is_first;
    c_ = t.b_;
    ldc = t.ldb;
  }

  unfoldable pub backward_call : ℕ → ℕ → Bool → GemmCall A
  backward_call i current_block_size is_first =
      if t.is_left
      then left_backward_call i current_block_size is_first
      else right_backward_call i current_block_size is_first
