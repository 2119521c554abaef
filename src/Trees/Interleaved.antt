-- ===== src/Trees/Interleaved.antt =====
-- `Assign` as the device runs it: the items of the kernel move in any order, and between one another's
-- reads and writes.
use sycl_blas.Base.{ℕ, ◌<◌, ◌≤◌, ◌≡◌, ◌∙◌, refl, arith}
use sycl_blas.Base.Int.{ℤ}
use sycl_blas.Base.Scalar.{Scalar}
use sycl_blas.Views.{Store}
use sycl_blas.Kernel.Interleaving.{Config, Run, IsDone, started, Run-launch}
use sycl_blas.Trees.{View, Expr, view_name, view_address, get_size, eval, assign}
use sycl_blas.Trees.Locality.{AllLeaves, IsApart, IsInjective}
use sycl_blas.Trees.Assignment.{assign-IsIndependent, launch-assign}

-- However the items of an assignment are interleaved, once all are done the target view holds the
-- value of the expression in the memory before the kernel, and every other element is as it was. The
-- expression reads the target at most at the index that it writes, the view's elements are distinct,
-- and there is an item for each.
pub assign-Run {ℓ} :
    {A : Type ℓ} (s : Scalar A) (lhs : View) (rhs : Expr A) (n : ℕ) (m : Store A) (c : Config A)
    → AllLeaves (IsApart lhs) rhs
    → IsInjective (get_size rhs) lhs
    → get_size rhs ≤ n
    → Run n (assign s lhs rhs) (started m) c
    → IsDone n (assign s lhs rhs) c
    → ((i : ℕ) → i < get_size rhs → c.memory (view_name lhs) (view_address lhs i) ≡ eval s rhs m i)
      × ((b : ℕ) (a : ℤ)
          → ((i : ℕ) → i < get_size rhs → ¬ ((b ≡ view_name lhs) × (a ≡ view_address lhs i)))
          → c.memory b a ≡ m b a)
assign-Run s lhs rhs n m c apart inj enough run done =
    let ind = assign-IsIndependent s lhs rhs n apart inj in
    let sequential = launch-assign s lhs rhs n m apart inj enough in
    let any = Run-launch n (assign s lhs rhs) _ _ ind m run done in
    (
      λ i h.
          any.0 i (view_name lhs) (view_address lhs i) (omega arith) (h, λ _. refl)
          ∙ sequential.0 i h,
      λ b a miss. any.1 b a (λ j _ w. miss j w.0 (w.1, w.2)) ∙ sequential.1 b a miss,
    )
