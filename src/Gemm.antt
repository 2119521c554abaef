-- ===== src/Gemm.antt =====
-- src/operations/blas3/gemm_ref.hpp: the reference kernel of the matrix product, with the batches that
-- its work groups share out.
pub mod Batches
pub mod Product
pub mod Rounds
pub mod Schedule
pub mod Writes
pub mod Owners
pub mod Launch
pub mod Interface
pub mod Call
pub mod Reference
use sycl_blas.Base.{
  ℕ, zero, suc, ◌+◌, ◌-◌, ◌*◌, ◌/◌, ◌%◌, Bool, true, false, List, [], ◌∷◌, if◌then◌else◌, ltb, leb,
}
use sycl_blas.Base.Int.{ℤ, pos, ◌+ℤ◌}
use sycl_blas.Base.Scalar.{Scalar}
use sycl_blas.Views.{Store, MatrixView}
use sycl_blas.Kernel.{Write, Plan, apply_write}

-- The kernel's parameters of the template and of the constructor; `m_`, `n_` and `k_` are read off the
-- views, and `wg_size` is the work group's size.
pub record Gemm {ℓ} (A : Type ℓ) : Type ℓ where
  pub trans_a : Bool
  pub trans_b : Bool
  pub is_beta_zero : Bool
  pub wg_size : ℕ
  pub a_ : MatrixView
  pub b_ : MatrixView
  pub c_ : MatrixView
  pub alpha : A
  pub beta : A
  pub batch_size : ℕ

module _ {ℓ} {A : Type ℓ} (g : Gemm A) where
  -- `m_`, `n_` and `k_`
  abbrev pub m_ : ℕ
  m_ = g.a_.rows

  abbrev pub n_ : ℕ
  n_ = g.b_.cols

  abbrev pub k_ : ℕ
  k_ = g.a_.cols

  unfoldable pub get_workgroup_cluster : ℕ
  get_workgroup_cluster = (m_ * n_ - 1) / g.wg_size + 1

  unfoldable pub get_num_workgroup_cluster : ℕ → ℕ
  get_num_workgroup_cluster compute_units = (4 * compute_units - 1) / get_workgroup_cluster + 1

  -- The count of work groups in `get_nd_range`.
  unfoldable pub get_groups : ℕ → ℕ
  get_groups compute_units = get_workgroup_cluster * get_num_workgroup_cluster compute_units

  -- The sizes of one matrix of a batch.
  unfoldable pub a_size : ℕ
  a_size = if g.trans_a then m_ * g.a_.leading else k_ * g.a_.leading

  unfoldable pub b_size : ℕ
  b_size = if g.trans_b then g.b_.leading * k_ else n_ * g.b_.leading

  unfoldable pub c_size : ℕ
  c_size = g.c_.leading * n_

  -- An element by its distance from a view's pointer.
  abbrev pub at : Store A → MatrixView → ℕ → A
  at st v offset = st v.data_.name (v.disp +ℤ pos offset)

module _ {ℓ} {A : Type ℓ} (s : Scalar A) (g : Gemm A) where
  -- `while (k_ > 0) { reg_res = mad(A[0], B[0], reg_res); … }`
  unfoldable pub mad_loop : ℕ → ℕ → ℕ → A → Store A → A
  mad_loop zero a b reg_res st = reg_res
  mad_loop (suc k) a b reg_res st =
      mad_loop k (a + (if g.trans_a then 1 else g.a_.leading))
        (b + (if g.trans_b then g.b_.leading else 1))
        (s.add (s.mul (at g st g.a_ a) (at g st g.b_ b)) reg_res) st

  -- What is written to `C[0]`.
  unfoldable pub result : ℕ → ℕ → ℕ → Store A → A
  result a b c st =
      let reg_res = mad_loop (k_ g) a b s.zero st in
      if g.is_beta_zero
      then s.mul g.alpha reg_res
      else s.add (s.mul g.alpha reg_res) (s.mul g.beta (at g st g.c_ c))

  -- `do … while (batch_size_ > wg_batch_id)`, with fuel: one element of each matrix that the work group
  -- handles. A round reads the memory after the writes of the rounds before it. (The source's
  -- `batch_size_` may get negative; the test is false then, as it is at zero.)
  unfoldable pub batch_loop : ℕ → ℕ → ℕ → ℕ → ℕ → ℕ → ℕ → Store A → List (Write A)
  batch_loop zero wg_batch_id batch_stride left a b c st = []
  batch_loop (suc fuel) wg_batch_id batch_stride left a b c st =
      let w : Write A = record {
        name = g.c_.data_.name;
        address = g.c_.disp +ℤ pos c;
        value = result a b c st;
      } in
      w ∷ elim (ltb wg_batch_id (left - batch_stride)) [
        | true ↦
            batch_loop fuel wg_batch_id batch_stride (left - batch_stride)
              (a + a_size g * batch_stride) (b + b_size g * batch_stride)
              (c + c_size g * batch_stride) (apply_write w st)
        | false ↦ []
      ]

  -- The part of `eval(id)` from `row` and `col` on.
  unfoldable pub run_item : ℕ → ℕ → ℕ → Store A → List (Write A)
  run_item wg_batch_id batch_stride item_id st =
      let row = item_id % m_ g in
      let col = item_id / m_ g in
      batch_loop g.batch_size wg_batch_id batch_stride g.batch_size
        (wg_batch_id * a_size g + row * (if g.trans_a then g.a_.leading else 1))
        (wg_batch_id * b_size g + col * (if g.trans_b then 1 else g.b_.leading))
        (wg_batch_id * c_size g + (row + col * g.c_.leading)) st

  -- `eval(id)` of the item with this global index, in a range of `groups` work groups.
  unfoldable pub gemm_eval : ℕ → Plan A
  gemm_eval groups i st =
      let group = i / g.wg_size in
      let wg_batch_id = group / get_workgroup_cluster g in
      let item_id = group % get_workgroup_cluster g * g.wg_size + i % g.wg_size in
      if leb g.batch_size wg_batch_id
      then []
      else if leb (m_ g * n_ g) item_id
      then []
      else run_item wg_batch_id (groups / get_workgroup_cluster g) item_id st
