-- ===== src/Views/Host.antt =====
-- src/views/view.hpp: the vector view over a host container, whose constructor and access check their
-- arguments and throw.
use mathlib.Core.Path.{subst}
use sycl_blas.Base.{
  ℕ, zero, suc, ◌+◌, ◌-◌, ◌*◌, ◌<◌, ◌≡◌, ◌↔◌, ok_injective, refl, ap, ◌∙◌, min, arith, leb,
  if◌then◌else◌, Result, ok, throw, invalid_argument, true,
}
use sycl_blas.Base.Int.{
  ℤ, pos, negsuc, is_positive, ◌+ℤ◌, ◌-ℤ◌, ◌*ℤ◌, pos_part, neg_part, pos-*ℤ, int_laws,
}
use sycl_blas.Meta.{round_up_ratio}
use sycl_blas.Views.Vector.{place_lt}

-- A displacement lies inside the container.
pub record HostView {ℓ} (A : Type ℓ) : Type ℓ where
  pub data_ : ℕ → A
  pub size_data : ℕ
  pub size : ℕ
  pub disp : ℕ
  pub strd : ℤ

-- `initialize(originalSize)`. The second test of the source repeats the first, so that its branch
-- is never taken, and a negative stride is refused.
unfoldable pub initialize {ℓ} : {A : Type ℓ} → HostView A → ℕ → Result (HostView A)
initialize v original_size =
    if is_positive v.strd
    then ok (record v {
      size = min original_size (round_up_ratio (v.size_data - v.disp) (pos_part v.strd));
    })
    else throw (invalid_argument "Cannot create view with 0 stride")

-- `VectorView(data, disp, strd, size)`
unfoldable pub host_view {ℓ} : {A : Type ℓ} → (ℕ → A) → ℕ → ℕ → ℤ → ℕ → Result (HostView A)
host_view data_ size_data disp strd size =
    initialize (record { data_ = data_; size_data = size_data; size = 0; disp = disp; strd = strd })
      size

-- `eval(i)`, for an index of the view.
unfoldable pub host_eval {ℓ} : {A : Type ℓ} → HostView A → ℕ → Result A
host_eval v i =
    let ind =
      if is_positive v.strd
      then pos v.disp +ℤ v.strd *ℤ pos i
      else pos v.disp -ℤ v.strd *ℤ (pos v.size -ℤ pos i -ℤ pos 1) in
    if leb (v.size_data + neg_part ind) (pos_part ind)
    then throw (invalid_argument "Out of range access")
    else ok (v.data_ (pos_part ind))

host_eval_inside {ℓ} :
    {A : Type ℓ} (data_ : ℕ → A) (size_data disp s n i : ℕ)
    → disp + i * suc s < size_data
    → host_eval
        (record { data_ = data_; size_data = size_data; size = n; disp = disp; strd = pos (suc s) })
        i
      ≡ ok (data_ (disp + i * suc s))
unfolding host_eval
host_eval_inside data_ size_data disp s n i h = rw place (ground arith)
  where
    place : pos disp +ℤ pos (suc s) *ℤ pos i ≡ pos (disp + i * suc s)
    place = ap (λ t. pos disp +ℤ t) (pos-*ℤ (suc s) i) ∙ omega int_laws

host_view-reads {ℓ} :
    {A : Type ℓ} (data_ : ℕ → A) (size_data disp : ℕ) (strd : ℤ) (size : ℕ) (v : HostView A) (i : ℕ)
    → host_view data_ size_data disp strd size ≡ ok v
    → i < v.size
    → host_eval v i ≡ ok (data_ (disp + i * pos_part strd))
unfolding host_view initialize
host_view-reads data_ size_data disp (pos zero) size v i e lt = absurd (ground arith)
host_view-reads {A} data_ size_data disp (pos (suc s)) size v i e lt =
    subst (λ (w : HostView A). i < w.size → host_eval w i ≡ ok (data_ (disp + i * suc s)))
      (ok_injective _ _ e) (λ p. host_eval_inside data_ size_data disp s _ i (inside p)) lt
  where
    inside : i < min size (round_up_ratio (size_data - disp) (suc s)) → disp + i * suc s < size_data
    inside p = omega (arith, place_lt (size_data - disp) (suc s) size i (omega arith) p)
host_view-reads data_ size_data disp (negsuc s) size v i e lt = absurd (ground arith)

host_view-IsMade {ℓ} :
    {A : Type ℓ} (data_ : ℕ → A) (size_data disp : ℕ) (strd : ℤ) (size : ℕ)
    → (is_positive strd ≡ true)
      ↔ ((v : HostView A) × (host_view data_ size_data disp strd size ≡ ok v))
unfolding host_view initialize
host_view-IsMade data_ size_data disp (pos zero) size = (λ e. cc, λ p. cc (p.1))
host_view-IsMade data_ size_data disp (pos (suc s)) size = (λ _. (_, refl), λ _. refl)
host_view-IsMade data_ size_data disp (negsuc s) size = (λ e. cc, λ p. cc (p.1))

-- The constructor succeeds for the positive strides alone, and every index of the view that it
-- returns reads an element of the container, one stride after the one before.
pub host_view_lem {ℓ} :
    {A : Type ℓ} (data_ : ℕ → A) (size_data disp : ℕ) (strd : ℤ) (size : ℕ)
    → ((is_positive strd ≡ true)
        ↔ ((v : HostView A) × (host_view data_ size_data disp strd size ≡ ok v)))
      × ((v : HostView A) (i : ℕ)
          → host_view data_ size_data disp strd size ≡ ok v
          → i < v.size
          → host_eval v i ≡ ok (data_ (disp + i * pos_part strd)))
host_view_lem data_ size_data disp strd size = (
  host_view-IsMade data_ size_data disp strd size,
  host_view-reads data_ size_data disp strd size,
)
