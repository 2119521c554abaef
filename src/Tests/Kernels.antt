-- ===== src/Tests/Kernels.antt =====
-- Kernels on concrete memories: an interleaving of two items, and reductions of ten numbers.
use sycl_blas.Base.{ℕ, zero, suc, ◌*◌, ◌<◌, ◌≤◌, ◌≡◌, refl, ap, arith, lt→ltb, inr, some, [], ◌∷◌}
use sycl_blas.Base.Int.{ℤ}
use sycl_blas.Base.Scalar.{sum_monoid}
use sycl_blas.Base.Sums.{sum}
use sycl_blas.Meta.{round_up_ratio}
use sycl_blas.Kernel.{Plan, Write, launch, apply_write}
use sycl_blas.Kernel.Interleaving.{
  Config, Run, IsDone, started, set_item, writing, waiting, read, put, here, next,
}
use sycl_blas.Operators.{eval_binary}
use sycl_blas.Trees
use sycl_blas.Trees.{
  View, Expr, leaf, assign, double_assign, eval, view_name, view_address, view_size,
}
use sycl_blas.Trees.Locality.{IsApart, IsInjective}
use sycl_blas.Trees.DoubleAssignment.{launch-double_assign}
use sycl_blas.Trees.Interleaved.{assign-Run}
use sycl_blas.Blas1.{vector_of}
use sycl_blas.Blas1.Vectors.{
  vector_of-size, vector_of-IsInjective, vector_of-name, other-IsApart, self-IsApart,
}
use sycl_blas.Blas1.Reduce.Sums.{add-IsReduction}
use sycl_blas.Reduction.{Buffers, reduction_kernel, execute_reduction}
use sycl_blas.Reduction.Kernel.{share, reduction_kernel_lem}
use sycl_blas.Reduction.Passes.{execute_reduction_lem}
use sycl_blas.Reduction.Termination.{execute_reduction_ends}
use sycl_blas.Tests.{
  natural, natural-IsExact, memory, x_vector, y_vector, forth, back, x-IsVector, y-IsVector,
}

-- Four groups' worth of numbers, in two groups of two items.
reduction_kernel_lem_example :
    ((g : ℕ)
      → g < 2
      → share (sum_monoid natural-IsExact) (λ k. k) 10 2 2 g
        ≡ reduction_kernel natural.add 0 (λ k. k) 10 2 2 (λ _. 9) g)
    × (sum (sum_monoid natural-IsExact) 2 (share (sum_monoid natural-IsExact) (λ k. k) 10 2 2) ≡ 45)
    × ((i : ℕ) → 2 ≤ i → reduction_kernel natural.add 0 (λ k. k) 10 2 2 (λ _. 9) i ≡ 9)
unfolding sum eval_binary
reduction_kernel_lem_example =
    reduction_kernel_lem (add-IsReduction natural-IsExact) (λ k. k) (λ k. k) 10 (λ k _. refl) 1 2
      (λ _. 9) (omega arith)

abbrev buffers : Buffers ℕ
buffers = record { lhs = λ _. 7; mem_1 = λ _. 8; mem_2 = λ _. 9 }

execute_reduction_lem_example :
    (out : Buffers ℕ) × (execute_reduction natural.add 0 2 (λ k. k) 10 2 8 buffers ≡ some out)
    × (45 ≡ out.lhs 0)
unfolding sum round_up_ratio eval_binary
execute_reduction_lem_example =
    execute_reduction_lem (add-IsReduction natural-IsExact) 0 1 8 (λ k. k) (λ k. k) 10 buffers
      (λ k _. refl) (inr (omega arith, omega arith, omega arith))

abbrev source : View
source = vector_of x_vector forth 2

abbrev target : View
target = vector_of y_vector back 2

abbrev plan : Plan ℕ
plan = assign natural target (leaf source)

abbrev write : ℕ → Write ℕ
write i = record {
  name = view_name target;
  address = view_address target i;
  value = eval natural (leaf source) memory i;
}

plan_lem : (i : ℕ) → i < 2 → plan i memory ≡ write i ∷ []
unfolding assign Trees.get_size
plan_lem i h = rw (lt→ltb i (view_size source) (omega (arith, vector_of-size x-IsVector)))

-- Both items have read before the first one writes.
abbrev finished : Config ℕ
finished = record {
  memory = apply_write (write 1) (apply_write (write 0) memory);
  items =
      set_item
        (set_item
          (set_item (set_item (λ _. waiting) 1 (writing (plan 1 memory))) 0
            (writing (plan 0 memory)))
          0 (writing []))
        1 (writing []);
}

finished-Run : Run 2 plan (started memory) finished
finished-Run =
    next
      (next
        (next (next here (read (started memory) 1 (omega arith) refl))
          (read _ 0 (omega arith) refl))
        (put _ 0 (write 0) [] (omega arith) (ap writing (plan_lem 0 (omega arith)))))
      (put _ 1 (write 1) [] (omega arith) (ap writing (plan_lem 1 (omega arith))))

finished-IsDone : IsDone 2 plan finished
finished-IsDone zero h = refl
finished-IsDone (suc zero) h = refl
finished-IsDone (suc (suc i)) h = absurd (omega arith)

source-IsApart : IsApart target source
source-IsApart = other-IsApart x_vector y_vector forth back 2 (λ e. absurd (omega arith))

target-IsInjective : IsInjective (view_size source) target
target-IsInjective i j hi hj =
    let size = vector_of-size x-IsVector in
    vector_of-IsInjective y-IsVector i j (omega arith) (omega arith)

assign-Run_example :
    ((i : ℕ)
      → i < view_size source
      → finished.memory (view_name target) (view_address target i)
        ≡ eval natural (leaf source) memory i)
    × ((b : ℕ) (a : ℤ)
        → ((i : ℕ)
            → i < view_size source
            → ¬ ((b ≡ view_name target) × (a ≡ view_address target i)))
        → finished.memory b a ≡ memory b a)
unfolding Trees.get_size
assign-Run_example =
    assign-Run natural target (leaf source) 2 memory finished source-IsApart target-IsInjective
      (omega (arith, vector_of-size x-IsVector)) finished-Run finished-IsDone

target-IsApart : IsApart source target
target-IsApart = other-IsApart y_vector x_vector back forth 2 (λ e. absurd (omega arith))

launch-double_assign_example :
    ((i : ℕ)
      → i < view_size source
      → (launch 4
            (double_assign natural source target (leaf target) (leaf source))
            memory
            (view_name source)
            (view_address source i)
          ≡ eval natural (leaf target) memory i)
        × (launch 4
              (double_assign natural source target (leaf target) (leaf source))
              memory
              (view_name target)
              (view_address target i)
            ≡ eval natural (leaf source) memory i))
    × ((b : ℕ) (a : ℤ)
        → ((i : ℕ)
            → i < view_size source
            → ¬ ((b ≡ view_name source) × (a ≡ view_address source i))
              × ¬ ((b ≡ view_name target) × (a ≡ view_address target i)))
        → launch 4 (double_assign natural source target (leaf target) (leaf source)) memory b a
          ≡ memory b a)
unfolding Trees.get_size
launch-double_assign_example =
    launch-double_assign natural source target (leaf target) (leaf source)
      (λ e. absurd (omega (arith, vector_of-name x-IsVector, vector_of-name y-IsVector))) 4 memory
      ((target-IsApart, self-IsApart target), (self-IsApart source, source-IsApart))
      (λ i j hi hj.
        let size = vector_of-size x-IsVector in
        vector_of-IsInjective x-IsVector i j (omega arith) (omega arith))
      target-IsInjective (omega (arith, vector_of-size x-IsVector))

execute_reduction_ends_example :
    (out : Buffers ℕ) × (execute_reduction natural.add 0
        (suc (round_up_ratio 9 (2 * 2)))
        (λ k. k)
        10
        2
        9
        buffers
      ≡ some out)
execute_reduction_ends_example =
    execute_reduction_ends natural.add 0 2 (omega arith) (λ k. k) 10 9 buffers
