-- ===== src/Executor.antt =====
-- src/executors/executor_sycl.hpp: the grid on which a tree is executed.
use sycl_blas.Base.{ℕ, ◌*◌}
use sycl_blas.Meta.{round_up_ratio}
use sycl_blas.Views.{Store}
use sycl_blas.Kernel.{Plan, launch}

-- What an executor asks its policy handler, which asks the device.
pub record Executor : Type 0 where
  pub work_group_size : ℕ
  pub num_compute_units : ℕ

-- `execute(t, localSize)`: whole work groups, as many as cover the tree. The items beyond the size are
-- stopped by `valid_thread`.
unfoldable pub execute_sized {ℓ} : {A : Type ℓ} → ℕ → ℕ → Plan A → Store A → Store A
execute_sized local_size size plan m =
    let groups = round_up_ratio size local_size in launch (groups * local_size) plan m

-- `execute(t)`
unfoldable pub execute {ℓ} : {A : Type ℓ} → Executor → ℕ → Plan A → Store A → Store A
unfolding execute_sized
execute ex size plan m = execute_sized ex.work_group_size size plan m
