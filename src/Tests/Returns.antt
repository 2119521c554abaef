-- ===== src/Tests/Returns.antt =====
-- The overloads that return a result, on a vector of two elements, or a vector and another one.
use sycl_blas.Base.{ℕ, ◌≡◌, refl, arith, some, ltb, ◌==◌}
use sycl_blas.Base.Int.{◌+ℤ◌}
use sycl_blas.Base.Sums.{sum}
use sycl_blas.Blas1.Vectors.{read}
use sycl_blas.Blas1.Reduce.Host.{dot_value, iamax_value}
use sycl_blas.Blas1.Reduce.Host.Returns.{IsFirstIndex, dot_value_lem, iamax_value_lem}
use sycl_blas.Tests.{
  natural, natural-IsExact, limits, device, memory, x_vector, y_vector, forth, back, x-IsVector,
  y-IsVector,
}
use sycl_blas.Tests.Reductions.{up-IsOrder, tuples}

dot_value_lem_example :
    dot_value natural limits device 2 (λ _. 7) 9 2 x_vector forth y_vector back memory ≡ some 70
unfolding sum ◌+ℤ◌
dot_value_lem_example =
    dot_value_lem natural-IsExact limits device 0 2 (λ _. 7) refl 9 2 x_vector forth y_vector back
      memory x-IsVector y-IsVector

iamax_value_lem_example :
    (i : ℕ) × (iamax_value natural limits device 2 100
        (λ _. record { ind = 3; val = 3 })
        9
        2
        x_vector
        forth
        memory
        tuples
      ≡ some i)
    × IsFirstIndex {A = ℕ} (λ a b. ltb a b) (λ a b. a == b) (read memory x_vector forth 2) 2 i
iamax_value_lem_example =
    iamax_value_lem natural limits device 0 2 100 (λ _. record { ind = 3; val = 3 }) refl 9 2
      x_vector forth memory tuples up-IsOrder (λ a. ground arith) x-IsVector (omega arith)
      (omega arith)
