-- ===== src/Trsm.antt =====
-- src/interface/trsm_interface.hpp: `_trsm`, which solves a triangular system by inverting the diagonal
-- blocks of A and multiplying. `_gemm` is a parameter of the model.
pub mod Calls
pub mod Inverter
pub mod Substitution
pub mod Regions
pub mod Steps
pub mod States
pub mod Loops
pub mod Inverses
pub mod Solution
pub mod Checks
pub mod Accepted
use sycl_blas.Base.{
  ℕ, zero, suc, ◌+◌, ◌-◌, ◌*◌, ◌/◌, ◌%◌, min, Bool, true, false, not, ◌&&◌, ◌||◌, if◌then◌else◌,
  ◌==◌, ltb, leb, Result, ok, throw, invalid_argument, ◌>>=◌,
}
use sycl_blas.Base.Int.{ℤ, pos, ◌+ℤ◌}
use sycl_blas.Base.Scalar.{Scalar}
use sycl_blas.Meta.{round_up}
use sycl_blas.Container.{BufferIterator, Buffer, make_sycl_iterator_buffer, advance}
use sycl_blas.Views.{Store, store, make_matrix_view, col_major}
use sycl_blas.Kernel.{launch}
use sycl_blas.Executor.{Executor}
use sycl_blas.Blas1.{copy}
use sycl_blas.Gemm.Call.{GemmCall}
use sycl_blas.Gemm.Interface.{to_lower}
use sycl_blas.Trsm.Inverter.{DiagonalBlocksInverter, inverter_eval}
use sycl_blas.Trsm.Calls.{System, k_, block_size, solve_call, forward_call, backward_call}

-- `fill(buff, value, size)` of the policy handler
unfoldable pub fill {ℓ} : {A : Type ℓ} → BufferIterator → A → ℕ → Store A → Store A
fill buff value zero st = st
fill buff value (suc size) st =
    store buff.buffer.name (buff.offset +ℤ pos size) value (fill buff value size st)

module _ {ℓ} {A : Type ℓ} (s : Scalar A) (t : System A) where
  -- `if ((i + blockSize) >= M) break;` on the left, `if ((i + blockSize) > N) break;` on the right
  unfoldable pub forward_ends : ℕ → Bool
  forward_ends i = if t.is_left then leb t.m (i + block_size) else ltb t.n (i + block_size)

  module _ (gemm : GemmCall A → Store A → Result (Store A)) where
    -- `for (i = 0; i < K; i += blockSize)`, from `i` on, with fuel
    unfoldable pub forward_loop : ℕ → ℕ → Store A → Result (Store A)
    forward_loop zero i st = ok st
    forward_loop (suc fuel) i st =
        if ltb i (k_ s t)
        then (gemm (solve_call s t i (min (k_ s t - i) block_size) (i == 0)) st >>= λ solved.
            if forward_ends i
            then ok solved
            else gemm (forward_call s t i (i == 0)) solved >>= λ updated.
                forward_loop fuel (i + block_size) updated)
        else ok st

    -- `for (i = iStart; i >= 0; i -= blockSize)`, from `i` on, with fuel; the loop breaks before `i`
    -- gets negative.
    unfoldable pub backward_loop : ℕ → ℕ → ℕ → ℕ → Store A → Result (Store A)
    backward_loop zero i_start special_block_size i st = ok st
    backward_loop (suc fuel) i_start special_block_size i st =
        let current_block_size = if i == i_start then special_block_size else block_size in
        gemm (solve_call s t i current_block_size (i == i_start)) st >>= λ solved.
        if ltb i block_size
        then ok solved
        else gemm (backward_call s t i current_block_size (i == i_start)) solved >>= λ updated.
            backward_loop fuel i_start special_block_size (i - block_size) updated

    -- The four loops over the blocks, by the side and by which triangle `op(A)` is.
    unfoldable pub solve_blocks : Store A → Result (Store A)
    solve_blocks st =
        let op_lower = t.is_upper && t.is_transpose || not t.is_upper && not t.is_transpose in
        let goes_up = if t.is_left then op_lower else not op_lower in
        let special_block_size =
          if k_ s t % block_size == 0 then block_size else k_ s t % block_size in
        if goes_up
        then forward_loop (k_ s t) 0 st
        else backward_loop (k_ s t) (k_ s t - special_block_size) special_block_size
            (k_ s t - special_block_size) st

-- The flags of the arguments in lower case, and the two buffers; `inv_a` and `x` name their storage.
abbrev pub system_of {ℓ} :
    {A : Type ℓ}
    → ℕ
    → ℕ
    → ℕ
    → ℕ
    → ℕ
    → ℕ
    → A
    → BufferIterator
    → ℕ
    → BufferIterator
    → ℕ
    → ℕ
    → ℕ
    → System A
system_of side uplo trans diag m n alpha a lda b ldb inv_a x =
    let k = if side == 108 then m else n in
    record {
      is_left = side == 108;
      is_upper = uplo == 117;
      is_transpose = trans == 116;
      is_unit_diag = diag == 117;
      m = m;
      n = n;
      alpha = alpha;
      a_ = a;
      lda = lda;
      b_ = b;
      ldb = ldb;
      inv_a_ =
          make_sycl_iterator_buffer
            (record { name = inv_a; get_count = round_up k block_size * block_size });
      x_ = make_sycl_iterator_buffer (record { name = x; get_count = ldb * (n - 1) + m });
    }

module _ {ℓ} {A : Type ℓ} (s : Scalar A) (ex : Executor)
    (gemm : GemmCall A → Store A → Result (Store A)) where
  -- The kernel that `make_diag_blocks_inverter` makes.
  abbrev pub inverter : System A → DiagonalBlocksInverter
  inverter t = record {
    unit_diag = t.is_unit_diag;
    upper = t.is_upper;
    block_size = block_size;
    a_ = make_matrix_view col_major t.a_ (k_ s t) (k_ s t) t.lda;
    inv_a_ = make_matrix_view col_major t.inv_a_ block_size block_size t.lda;
  }

  -- `roundUp<index_t>(K, blockSize) / blockSize`
  abbrev pub num_blocks : System A → ℕ
  num_blocks t = round_up (k_ s t) block_size / block_size

  -- `BSize`
  abbrev pub b_size : System A → ℕ
  b_size t = t.ldb * (t.n - 1) + t.m

  -- `_trsm` after its checks.
  unfoldable pub solve_system : System A → Store A → Result (Store A)
  solve_system t st =
      let filled = fill t.inv_a_ s.zero (round_up (k_ s t) block_size * block_size) st in
      let inverted = launch (num_blocks t * block_size) (inverter_eval s (inverter t)) filled in
      let copied = copy s ex (b_size t) t.b_ (pos 1) t.x_ (pos 1) inverted in
      solve_blocks s t gemm copied >>= λ solved.
      ok (copy s ex (b_size t) t.x_ (pos 1) t.b_ (pos 1) solved)

  -- `_trsm`
  unfoldable pub trsm :
      ℕ
      → ℕ
      → ℕ
      → ℕ
      → ℕ
      → ℕ
      → A
      → BufferIterator
      → ℕ
      → BufferIterator
      → ℕ
      → ℕ
      → ℕ
      → Store A
      → Result (Store A)
  trsm side uplo trans diag m n alpha a lda b ldb inv_a x st =
      if m == 0 || n == 0 || lda == 0 || ldb == 0
      then throw (invalid_argument "invalid matrix size argument")
      else let side = to_lower side in
        let uplo = to_lower uplo in
        let trans = to_lower trans in
        let diag = to_lower diag in
        if not (side == 108) && not (side == 114)
        then throw (invalid_argument "invalid Side argument")
        else if not (uplo == 117) && not (uplo == 108)
        then throw (invalid_argument "invalid Triangle argument")
        else if not (trans == 110) && not (trans == 116)
        then throw (invalid_argument "invalid Transpose argument")
        else if not (diag == 117) && not (diag == 110)
        then throw (invalid_argument "invalid Diagonal argument")
        else solve_system (system_of side uplo trans diag m n alpha a lda b ldb inv_a x) st
