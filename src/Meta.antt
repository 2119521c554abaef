-- ===== src/Meta.antt =====
-- include/blas_meta.h: rounding of sizes and the chaining of event vectors.
pub mod Rounding
pub mod Events
use sycl_blas.Base.{ℕ, ◌+◌, ◌-◌, ◌*◌, ◌/◌, Bool, true, List, ◌++◌, if◌then◌else◌, ltb, ◌&&◌, ◌==◌}
use Prim.Native.Nat.{bit_and, bit_or}
use mathlib.Core.List.{foldl}

-- `roundUp(x, y)`
pub round_up : ℕ → ℕ → ℕ
round_up x y = (x + y - 1) / y * y

-- `VectorView::round_up_ratio(num, den)`, and the same expression wherever a count of work groups is
-- computed.
unfoldable pub round_up_ratio : ℕ → ℕ → ℕ
round_up_ratio num den = (num + den - 1) / den

-- `append_vector(lhs, rhs)`: the left vector afterwards.
pub append_vector {ℓ} : {A : Type ℓ} → List A → List A → List A
append_vector lhs rhs = lhs ++ rhs

-- `concatenate_vectors(first, others...)`
pub concatenate_vectors {ℓ} : {A : Type ℓ} → List A → List (List A) → List A
concatenate_vectors first others = foldl append_vector first others
