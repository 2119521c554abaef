-- ===== src/Tests/Products.antt =====
-- The reference kernel on three batches of matrices of two rows and two columns.
use sycl_blas.Base.{
  refl, inr, ok, throw, Error, ◌↔◌, ℕ, ◌*◌, ◌/◌, ◌<◌, ◌≡◌, arith, true, false, some,
}
use sycl_blas.Base.Int.{ℤ, pos, ◌+ℤ◌}
use sycl_blas.Views.{Store, MatrixView, col_major}
use sycl_blas.Kernel.{Write, launch}
use sycl_blas.Kernel.Values.{get_elem?}
use sycl_blas.Gemm.{
  Gemm, get_groups, gemm_eval, run_item, batch_loop, result, mad_loop, get_workgroup_cluster,
  a_size, b_size, c_size,
}
use sycl_blas.Gemm.Writes.{gemm_eval_only}
use sycl_blas.Gemm.Launch.{IsEntry, gemm_launch_lem}
use sycl_blas.Gemm.Product.{c_entry, gemm_value}
use sycl_blas.Gemm.Schedule.{gemm_eval_lem}
use sycl_blas.Gemm.Interface.{gemm_backend}
use sycl_blas.Gemm.Interface.Scaling.{IsMatrix}
use sycl_blas.Gemm.Interface.Whole.{IsScaled, gemm_backend_lem}
use sycl_blas.Gemm.Interface.Checks.{IsLetter, gemm_backend_checks_lem}
use sycl_blas.Tests.{device, y_vector, natural, natural-IsExact, memory}

abbrev square : ℕ → MatrixView
square buffer_name = record {
  data_ = record { name = buffer_name; count = 20 };
  rows = 2;
  cols = 2;
  leading = 3;
  disp = pos 1;
  layout = col_major;
}

abbrev kernel : Gemm ℕ
kernel = record {
  trans_a = false;
  trans_b = true;
  is_beta_zero = false;
  wg_size = 3;
  a_ = square 0;
  b_ = square 1;
  c_ = square 2;
  alpha = 2;
  beta = 3;
  batch_size = 3;
}

gemm_eval_lem_example :
    (i : ℕ) × (t : ℕ) × (i < get_groups kernel 1 * 3)
    × (get_elem? (gemm_eval natural kernel (get_groups kernel 1) i memory) t
        ≡ some (record {
          name = 2;
          address = pos 1 +ℤ pos (c_entry kernel 2 1 1);
          value = gemm_value natural-IsExact kernel memory 2 1 1;
        }))
gemm_eval_lem_example =
    gemm_eval_lem natural kernel natural-IsExact 1 2 1 1 memory (omega arith) (omega arith)
      (omega arith) (omega arith) (omega arith) (omega arith) (omega arith)

y-IsMatrix : IsMatrix y_vector 2 2 3
y-IsMatrix = record { start = 0; at = refl; apart = omega arith; enough = inr (omega arith) }

gemm_backend_lem_example :
    (out : Store ℕ) × (gemm_backend natural device
        (λ _ _ _ st. st)
        110
        110
        2
        2
        0
        3
        y_vector
        3
        1
        memory
      ≡ ok out)
    × IsScaled natural device (omega arith) y_vector 2 2 3 3 memory out
gemm_backend_lem_example =
    gemm_backend_lem natural device (omega arith) (λ _ _ _ st. st) 110 110 2 2 0 3 y_vector 3 1
      memory refl y-IsMatrix

gemm_backend_checks_lem_example :
    ((IsLetter 110 × IsLetter 84) ↔ (
      gemm_backend natural device (λ _ _ _ st. st) 110 84 2 2 1 3 y_vector 3 1 memory ≡ ok memory))
    × ((¬ (IsLetter 110 × IsLetter 84)) ↔ (
        (e : Error) × (gemm_backend natural device
            (λ _ _ _ st. st)
            110
            84
            2
            2
            1
            3
            y_vector
            3
            1
            memory
          ≡ throw e)))
gemm_backend_checks_lem_example =
    gemm_backend_checks_lem natural device (λ _ _ _ st. st) 110 84 2 2 1 3 y_vector 3 1 memory refl

abbrev first_write : Write ℕ
first_write = record { name = 2; address = pos 1; value = 264 }

first_write_eq : get_elem? (gemm_eval natural kernel 2 0 memory) 0 ≡ some first_write
unfolding gemm_eval run_item batch_loop result mad_loop get_workgroup_cluster a_size b_size c_size
    get_elem? ◌+ℤ◌
first_write_eq = refl

some_groups : 0 < 2 / get_workgroup_cluster kernel
unfolding get_workgroup_cluster
some_groups = omega arith

gemm_eval_only_example :
    (batch : ℕ) × (row : ℕ) × (col : ℕ) × (batch < 3)
    × (row < 2)
    × (col < 2)
    × (some (record {
      name = 2;
      address = pos 1 +ℤ pos (c_entry kernel batch row col);
      value = gemm_value natural-IsExact kernel memory batch row col;
    })
        ≡ some first_write)
gemm_eval_only_example =
    gemm_eval_only natural kernel natural-IsExact 2 0 memory 0 first_write (omega arith)
      (omega arith) (omega arith) some_groups first_write_eq

gemm_launch_lem_example :
    ((batch row col : ℕ)
      → IsEntry kernel batch row col
      → launch
          (get_groups kernel 1 * 3)
          (gemm_eval natural kernel (get_groups kernel 1))
          memory
          2
          (pos 1 +ℤ pos (c_entry kernel batch row col))
        ≡ gemm_value natural-IsExact kernel memory batch row col)
    × ((b : ℕ) (a : ℤ)
        → ((batch row col : ℕ)
            → IsEntry kernel batch row col
            → ¬ ((b ≡ 2) × (a ≡ pos 1 +ℤ pos (c_entry kernel batch row col))))
        → launch
            (get_groups kernel 1 * 3)
            (gemm_eval natural kernel (get_groups kernel 1))
            memory
            b
            a
          ≡ memory b a)
gemm_launch_lem_example =
    gemm_launch_lem natural-IsExact kernel 1 (omega arith) (omega arith) (omega arith) (omega arith)
      memory
