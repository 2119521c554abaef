-- ===== src/Tests/Systems.antt =====
-- Triangular systems over the field of two elements, for a matrix of ones.
use sycl_blas.Base.{
  ℕ, ◌*◌, ◌<◌, ◌≡◌, ◌≢◌, refl, inl, inr, arith, Bool, true, false, not, ◌&&◌, if◌then◌else◌, Result,
  ok,
}
use sycl_blas.Base.Int.{ℤ, pos}
use sycl_blas.Base.Scalar.{Scalar, IsExact}
use sycl_blas.Base.Matrices.{total, product, identity}
use sycl_blas.Container.{BufferIterator, make_sycl_iterator_buffer}
use sycl_blas.Views.{Store, col_major}
use sycl_blas.Kernel.{launch}
use sycl_blas.Gemm.Call.{GemmCall, gemm, IsGemm}
use sycl_blas.Gemm.Interface.{to_lower}
use sycl_blas.Gemm.Interface.Scaling.{IsMatrix}
use sycl_blas.Gemm.Reference.{select_gemm, gemm-IsGemm}
use sycl_blas.Trsm.Calls.{System}
use sycl_blas.Trsm.{system_of, trsm}
use sycl_blas.Trsm.Inverter.{DiagonalBlocksInverter, inverter_eval}
use sycl_blas.Trsm.Inverter.Launch.{inverse_place}
use sycl_blas.Trsm.Inverter.Blocks.{block_triangle, inverter_launch_lem}
use sycl_blas.Trsm.Steps.{IsApart, b_at}
use sycl_blas.Trsm.States.{triangle}
use sycl_blas.Trsm.Loops.{goes_up}
use sycl_blas.Trsm.Accepted.{trsm_lem}
use sycl_blas.Trsm.Checks.{Outcome, trsm_checks_lem}
use sycl_blas.Tests.{device}

abbrev add_bits : Bool → Bool → Bool
add_bits a b = if a then not b else b

-- The field of two elements; what stands for the sign, the root and the order is not used.
abbrev bits : Scalar Bool
bits = record {
  zero = false;
  one = true;
  add = add_bits;
  mul = λ a b. a && b;
  neg = λ a. a;
  div = λ a b. a;
  sqrt = λ a. a;
  abs = λ a. a;
  below = λ a b. false;
  equal = λ a b. not (add_bits a b);
}

bits-IsExact : IsExact bits
bits-IsExact = record {
  add_assoc = λ a b c. ground arith;
  add_comm = λ a b. ground arith;
  zero-add = λ a. ground arith;
  mul_assoc = λ a b c. ground arith;
  mul_comm = λ a b. ground arith;
  one-mul = λ a. ground arith;
  zero-mul = λ a. ground arith;
  mul-add = λ a b c. ground arith;
}

bits-add-neg : (a : Bool) → add_bits a a ≡ false
bits-add-neg a = ground arith

bits_sound : (a : Bool) → not (add_bits a false) ≡ true → a ≡ false
bits_sound a h = ground arith

abbrev ones : Store Bool
ones name address = true

-- The upper triangle of a matrix of three rows, in blocks of two.
abbrev blocks_of_two : DiagonalBlocksInverter
blocks_of_two = record {
  unit_diag = false;
  upper = true;
  block_size = 2;
  a_ = record {
    data_ = record { name = 0; count = 9 };
    rows = 3;
    cols = 3;
    leading = 3;
    disp = pos 0;
    layout = col_major;
  };
  inv_a_ = record {
    data_ = record { name = 1; count = 8 };
    rows = 2;
    cols = 2;
    leading = 3;
    disp = pos 0;
    layout = col_major;
  };
}

abbrev inverse_of : ℕ → ℕ → ℕ → Bool
inverse_of block i j =
    launch (2 * 2) (inverter_eval bits blocks_of_two) ones 1
      (inverse_place bits blocks_of_two block i j)

inverter_launch_lem_example :
    (product bits-IsExact 2 (inverse_of 0) (block_triangle bits blocks_of_two 0 ones) 0 1
      ≡ identity bits-IsExact 0 1)
    × (product bits-IsExact 2 (block_triangle bits blocks_of_two 0 ones) (inverse_of 0) 0 1
        ≡ identity bits-IsExact 0 1)
inverter_launch_lem_example =
    inverter_launch_lem bits-IsExact bits-add-neg blocks_of_two 2 (omega arith) (omega arith) ones 0
      (omega arith) (λ j hj. ground arith) 0 1 (omega arith) (omega arith)

abbrev multiply : GemmCall Bool → Store Bool → Result (Store Bool)
multiply = gemm bits device (select_gemm bits device 3)

multiply-IsGemm : IsGemm bits-IsExact multiply
multiply-IsGemm = gemm-IsGemm bits-IsExact device (omega arith) bits_sound 3 (omega arith)

gemm-IsGemm_example : IsGemm bits-IsExact (gemm bits device (select_gemm bits device 3))
gemm-IsGemm_example = gemm-IsGemm bits-IsExact device (omega arith) bits_sound 3 (omega arith)

abbrev buffer_of : ℕ → ℕ → BufferIterator
buffer_of buffer_name count = record {
  offset = pos 0;
  buffer = record { name = buffer_name; get_count = count };
}

-- Twenty equations, so that there are two blocks, for three right-hand sides.
abbrev twenty : System Bool
twenty = system_of 108 108 110 110 20 3 true (buffer_of 0 400) 20 (buffer_of 1 60) 20 2 3

twenty-IsApart : IsApart twenty
unfolding make_sycl_iterator_buffer
twenty-IsApart = record {
  x_b = omega arith;
  inv_x = omega arith;
  inv_b = omega arith;
  a_x = omega arith;
  a_b = omega arith;
  a_inv = omega arith;
}

sixty-IsMatrix : IsMatrix (buffer_of 1 60) 20 3 20
sixty-IsMatrix = record { start = 0; at = refl; apart = omega arith; enough = inr (omega arith) }

trsm_lem_example :
    (out : Store Bool) × (trsm bits device multiply 76 108 78 110 20 3 true
        (buffer_of 0 400)
        20
        (buffer_of 1 60)
        20
        2
        3
        ones
      ≡ ok out)
    × ((row q : ℕ)
        → row < 20
        → q < 3
        → total bits-IsExact 20
            (λ c. triangle bits twenty (goes_up twenty) ones row c && b_at twenty true out c q)
          ≡ (true && true))
    × ((b : ℕ) (x : ℤ) → b ≢ 1 → b ≢ 3 → b ≢ 2 → out b x ≡ true)
unfolding to_lower
trsm_lem_example =
    trsm_lem bits-IsExact bits-add-neg device (omega arith) multiply-IsGemm 76 108 78 110 20 3 true
      (buffer_of 0 400) 20 (buffer_of 1 60) 20 2 3 ones
      (omega arith, omega arith, omega arith, omega arith) (inl (inl refl)) (inr (inr refl))
      (inl (inl refl)) (inr (inr refl)) twenty-IsApart sixty-IsMatrix (λ j hj. refl)

trsm_checks_lem_example :
    Outcome bits device multiply 76 117 78 120 20 3 true
      (buffer_of 0 400)
      20
      (buffer_of 1 60)
      20
      2
      3
      ones
      (trsm bits device multiply 76 117 78 120 20 3 true
        (buffer_of 0 400)
        20
        (buffer_of 1 60)
        20
        2
        3
        ones)
trsm_checks_lem_example =
    trsm_checks_lem bits device multiply 76 117 78 120 20 3 true (buffer_of 0 400) 20
      (buffer_of 1 60) 20 2 3 ones
