-- ===== src/Tests/Reductions.antt =====
-- The reductions, on a vector of two elements, or a vector and another one.
use sycl_blas.Base.{ℕ, ◌≡◌, refl, arith, some, ltb, ◌==◌, inl}
use sycl_blas.Base.Int.{ℤ, pos, ◌+ℤ◌}
use sycl_blas.Base.Sums.{sum}
use sycl_blas.Views.{Store}
use sycl_blas.Operators.{IndexValueTuple}
use sycl_blas.Operators.Indexed.{IsOrder}
use sycl_blas.Blas1.Vectors.{read, IsElsewhere}
use sycl_blas.Blas1.Reduce.{dot, asum, nrm2, iamax, iamin}
use sycl_blas.Blas1.Reduce.Sums.{IsAbsolute, dot_lem, asum_lem, nrm2_lem}
use sycl_blas.Blas1.Reduce.Extrema.{IsFirstBest, iamax_lem, iamin_lem}
use sycl_blas.Tests.{
  natural, natural-IsExact, limits, device, memory, x_vector, y_vector, result, forth, back,
  x-IsVector, y-IsVector, result-IsVector,
}

pub natural-IsAbsolute : IsAbsolute natural
natural-IsAbsolute = record { abs-zero = refl; abs-abs = λ a. refl; abs-add = λ a b. refl }

dot_lem_example :
    (out : Store ℕ) × (dot natural limits device 2
        (λ _. 7)
        2
        x_vector
        forth
        y_vector
        back
        result
        memory
      ≡ some out)
    × (read out result (pos 1) 1 0 ≡ 70)
    × ((b : ℕ) (a : ℤ) → IsElsewhere result (pos 1) 1 b a → out b a ≡ memory b a)
unfolding sum ◌+ℤ◌
dot_lem_example =
    dot_lem natural-IsExact limits device 0 2 (λ _. 7) refl 2 x_vector forth y_vector back result
      memory x-IsVector y-IsVector result-IsVector

asum_lem_example :
    (out : Store ℕ) × (asum natural limits device 2 (λ _. 7) 2 x_vector forth result memory
      ≡ some out)
    × (read out result (pos 1) 1 0 ≡ 6)
    × ((b : ℕ) (a : ℤ) → IsElsewhere result (pos 1) 1 b a → out b a ≡ memory b a)
unfolding sum ◌+ℤ◌
asum_lem_example =
    asum_lem natural-IsExact limits device 0 2 (λ _. 7) refl 2 x_vector forth result memory
      natural-IsAbsolute x-IsVector result-IsVector

nrm2_lem_example :
    (out : Store ℕ) × (nrm2 natural limits device 2 (λ _. 7) 2 x_vector forth result memory
      ≡ some out)
    × (read out result (pos 1) 1 0 ≡ 20)
    × ((b : ℕ) (a : ℤ) → IsElsewhere result (pos 1) 1 b a → out b a ≡ memory b a)
unfolding sum ◌+ℤ◌
nrm2_lem_example =
    nrm2_lem natural-IsExact limits device 0 2 (λ _. 7) refl 2 x_vector forth result memory
      x-IsVector result-IsVector

pub up-IsOrder : IsOrder {A = ℕ} (λ a b. ltb a b) (λ a b. a == b)
up-IsOrder = record {
  total = λ a b. ground arith;
  trans = λ a b c p q. ground arith;
  less-same = λ a b c p q. ground arith;
  same-less = λ a b c p q. ground arith;
  same_sym = λ a b p. ground arith;
  same_trans = λ a b c p q. ground arith;
  irrefl = λ a. ground arith;
}

pub down-IsOrder : IsOrder {A = ℕ} (λ a b. ltb b a) (λ a b. a == b)
down-IsOrder = record {
  total = λ a b. ground arith;
  trans = λ a b c p q. ground arith;
  less-same = λ a b c p q. ground arith;
  same-less = λ a b c p q. ground arith;
  same_sym = λ a b p. ground arith;
  same_trans = λ a b c p q. ground arith;
  irrefl = λ a. ground arith;
}

abbrev pub tuples : Store (IndexValueTuple ℕ)
tuples name address = record { ind = 0; val = 0 }

iamax_lem_example :
    (out : Store (IndexValueTuple ℕ)) × (iamax natural limits device 2 100
        (λ _. record { ind = 3; val = 3 })
        2
        x_vector
        forth
        result
        memory
        tuples
      ≡ some out)
    × IsFirstBest {A = ℕ}
        (λ a b. ltb a b)
        (λ a b. a == b)
        (read memory x_vector forth 2)
        2
        (read out result (pos 1) 1 0)
    × ((b : ℕ) (a : ℤ) → IsElsewhere result (pos 1) 1 b a → out b a ≡ tuples b a)
iamax_lem_example =
    iamax_lem natural limits device 0 2 100 (λ _. record { ind = 3; val = 3 }) refl 2 x_vector forth
      result memory tuples up-IsOrder (λ a. ground arith) x-IsVector result-IsVector (omega arith)
      (omega arith)

iamin_lem_example :
    (out : Store (IndexValueTuple ℕ)) × (iamin natural limits device 2 100
        (λ _. record { ind = 3; val = 3 })
        2
        x_vector
        forth
        result
        memory
        tuples
      ≡ some out)
    × IsFirstBest {A = ℕ}
        (λ a b. ltb b a)
        (λ a b. a == b)
        (read memory x_vector forth 2)
        2
        (read out result (pos 1) 1 0)
    × ((b : ℕ) (a : ℤ) → IsElsewhere result (pos 1) 1 b a → out b a ≡ tuples b a)
unfolding ◌+ℤ◌
iamin_lem_example =
    iamin_lem natural limits device 0 2 100 (λ _. record { ind = 3; val = 3 }) refl 2 x_vector forth
      result memory tuples down-IsOrder (λ k h. inl (ground arith)) x-IsVector result-IsVector
      (omega arith) (omega arith)
