-- ===== src/Gemv/Extract.antt =====
-- `extract_input_block`: what the items of a group put into local memory, a tile of the transpose.
use native.Mathlib.Nat.{mod-lt, mod-add-div', div-lt_iff_lt-mul, mul-le-mul_right}
use mathlib.Core.Path.{ap₂}
use sycl_blas.Base.Division.{split_div, split_mod}
use sycl_blas.Base.{
  ℕ, zero, suc, ◌+◌, ◌-◌, ◌*◌, ◌/◌, ◌%◌, ◌<◌, ◌≤◌, ◌≡◌, ◌≢◌, refl, sym, ap, ◌∙◌, arith, Bool,
  if◌then◌else◌, ltb, ◌&&◌, ==_iff, ne→==,
}
use native.Mathlib.Decide.{ℕ_discrete}
use sycl_blas.Base.Scalar.{Scalar}
use sycl_blas.Views.{Store}
use sycl_blas.Views.Matrix.{flat_injective}
use sycl_blas.Gemv.{Gemv, c_dim, nc_dim, matrix_eval, tile_loop, extract_input_block, extract_all}

module _ {ℓ} {A : Type ℓ} (s : Scalar A) (g : Gemv) (st : Store A)
    (some : 0 < g.local_range / g.cl_elems)
    (tiles : g.local_range ≡ g.cl_elems * (g.local_range / g.cl_elems)) where
  abbrev tile_dim_nc : ℕ
  tile_dim_nc = g.local_range / g.cl_elems

  -- What is put in for a matrix index, by whether it is inside the matrix.
  abbrev loaded : Bool → ℕ → ℕ → A
  loaded in_c_range grid_nc mat_index =
      if in_c_range && ltb grid_nc (nc_dim g) then matrix_eval s g st mat_index else s.zero

  tile_loop_miss :
      (si : ℕ) (inside : Bool) (count mi ln gn : ℕ) (scratch : ℕ → A) (place : ℕ)
      → ((t : ℕ) → t < count → place ≢ si + ln + t * tile_dim_nc)
      → tile_loop s g st si inside count mi ln gn scratch place ≡ scratch place
  unfolding tile_loop
  tile_loop_miss si inside zero mi ln gn scratch place miss = refl
  tile_loop_miss si inside (suc count) mi ln gn scratch place miss =
      tile_loop_miss si inside count _ _ _ _ place
        (λ t h e. miss (suc t) (omega arith) (omega (arith, e)))
      ∙ rw (ne→== place (si + ln) (λ e. miss 0 (omega arith) (omega (arith, e)))) refl

  tile_loop_hit :
      (si : ℕ) (inside : Bool) (count mi ln gn : ℕ) (scratch : ℕ → A) (t place : ℕ)
      → t < count
      → place ≡ si + ln + t * tile_dim_nc
      → tile_loop s g st si inside count mi ln gn scratch place
        ≡ loaded inside (gn + t * tile_dim_nc) (mi + t * tile_dim_nc * g.matrix_a_.leading)
  unfolding tile_loop
  tile_loop_hit si inside zero mi ln gn scratch t place h at = elim h [ ]
  tile_loop_hit si inside (suc count) mi ln gn scratch zero place h at =
      tile_loop_miss si inside count _ _ _ _ place (λ t h e. absurd (omega (arith, e, at)))
      ∙ rw ((==_iff place (si + ln)).1 (omega (arith, at)))
          (ap₂ (loaded inside) {x = gn} {y = gn + 0 * tile_dim_nc} (omega arith) (omega arith))
  tile_loop_hit si inside (suc count) mi ln gn scratch (suc t) place h at =
      tile_loop_hit si inside count _ _ _ _ t place (omega arith) (omega (arith, at))
      ∙ ap₂ (loaded inside) {x = gn + tile_dim_nc + t * tile_dim_nc} {y = gn + suc t * tile_dim_nc}
          (omega arith) (omega arith)

  module _ (group c_tile : ℕ) where
    abbrev nc_group_id : ℕ
    nc_group_id = group / g.wgs_per_c_

    abbrev c_group_id : ℕ
    c_group_id = group - nc_group_id * g.wgs_per_c_

    -- The item that loads a place, and the round in which it does.
    abbrev loader : ℕ → ℕ → ℕ
    loader local c = c + local % tile_dim_nc * g.cl_elems

    loader_mod : (local c : ℕ) → c < g.cl_elems → loader local c % g.cl_elems ≡ c
    loader_mod local c h = split_mod (local % tile_dim_nc) c g.cl_elems h

    loader_div : (local c : ℕ) → c < g.cl_elems → loader local c / g.cl_elems ≡ local % tile_dim_nc
    loader_div local c h = split_div (local % tile_dim_nc) c g.cl_elems h

    -- No other item writes to the place.
    only :
        (item local c t : ℕ)
        → local < g.local_range
        → c < g.cl_elems
        → item < g.local_range
        → t < g.cl_elems
        → local + (g.local_range + 1) * c
          ≡ item / g.cl_elems + t * tile_dim_nc + (g.local_range + 1) * (item % g.cl_elems)
        → item ≡ loader local c
    only item local c t hl hc hi ht e =
        let positive : 0 < g.cl_elems = omega arith in
        let below : item / g.cl_elems < tile_dim_nc =
          (div-lt_iff_lt-mul positive).1 (omega arith) in
        let rounds : (t + 1) * tile_dim_nc ≤ g.cl_elems * tile_dim_nc =
          mul-le-mul_right tile_dim_nc (omega arith) in
        let places =
          flat_injective (g.local_range + 1) local c (item / g.cl_elems + t * tile_dim_nc)
            (item % g.cl_elems) (omega arith) (omega arith) e in
        let parts =
          flat_injective tile_dim_nc (local % tile_dim_nc) (local / tile_dim_nc) (item / g.cl_elems)
            t (mod-lt local some) below (omega (arith, mod-add-div' local tile_dim_nc, places.0)) in
        sym (mod-add-div' item g.cl_elems)
        ∙ ap₂ (λ x y. x + y * g.cl_elems) (sym places.1) (sym parts.0)

    extract_miss :
        (item local c : ℕ) (scratch : ℕ → A)
        → local < g.local_range
        → c < g.cl_elems
        → item < g.local_range
        → item ≢ loader local c
        → extract_input_block s g st group c_tile item scratch (local + (g.local_range + 1) * c)
          ≡ scratch (local + (g.local_range + 1) * c)
    unfolding extract_input_block
    extract_miss item local c scratch hl hc hi ne =
        tile_loop_miss _ _ g.cl_elems _ _ _ scratch _
          (λ t ht e. ne (only item local c t hl hc hi ht (omega (arith, e))))

    extract_hit :
        (local c : ℕ) (scratch : ℕ → A)
        → local < g.local_range
        → c < g.cl_elems
        → extract_input_block s g st group c_tile
            (loader local c)
            scratch
            (local + (g.local_range + 1) * c)
          ≡ loaded
              (ltb (c + c_tile * g.cl_elems + c_group_id * g.local_range) (c_dim g))
              (local + nc_group_id * g.local_range)
              (c
                + c_tile * g.cl_elems
                + c_group_id * g.local_range
                + (local + nc_group_id * g.local_range) * g.matrix_a_.leading)
    unfolding extract_input_block
    extract_hit local c scratch hl hc =
        let rounds : local / tile_dim_nc < g.cl_elems = (div-lt_iff_lt-mul some).1 (omega arith) in
        tile_loop_hit _ _ g.cl_elems _ _ _ scratch (local / tile_dim_nc) _ rounds (
          omega (
            arith,
            mod-add-div' local tile_dim_nc,
            loader_div local c hc,
            ap (λ x. (g.local_range + 1) * x) (loader_mod local c hc),
          ))
        ∙ ap₂
            (λ x y.
              loaded (ltb (x + c_tile * g.cl_elems + c_group_id * g.local_range) (c_dim g))
                (y + nc_group_id * g.local_range + local / tile_dim_nc * tile_dim_nc)
                (x
                  + c_tile * g.cl_elems
                  + c_group_id * g.local_range
                  + (y + nc_group_id * g.local_range) * g.matrix_a_.leading
                  + local / tile_dim_nc * tile_dim_nc * g.matrix_a_.leading))
            (loader_mod local c hc) (loader_div local c hc)
        ∙ ap₂ (loaded (ltb (c + c_tile * g.cl_elems + c_group_id * g.local_range) (c_dim g)))
            (omega (arith, mod-add-div' local tile_dim_nc))
            (omega (arith, ap (λ x. x * g.matrix_a_.leading) (mod-add-div' local tile_dim_nc)))

    -- After all items a place has the element of A that it stands for, or zero outside A.
    extract_below :
        (count local c : ℕ) (scratch : ℕ → A)
        → count ≤ g.local_range
        → local < g.local_range
        → c < g.cl_elems
        → loader local c < count
        → extract_all s g st group c_tile count scratch (local + (g.local_range + 1) * c)
          ≡ loaded
              (ltb (c + c_tile * g.cl_elems + c_group_id * g.local_range) (c_dim g))
              (local + nc_group_id * g.local_range)
              (c
                + c_tile * g.cl_elems
                + c_group_id * g.local_range
                + (local + nc_group_id * g.local_range) * g.matrix_a_.leading)
    unfolding extract_all
    extract_below zero local c scratch hk hl hc h = elim h [ ]
    extract_below (suc count) local c scratch hk hl hc h =
        elim (ℕ_discrete count (loader local c)) [
          | yes e ↦
              ap
                (λ item.
                  extract_input_block s g st group c_tile item
                    (extract_all s g st group c_tile count scratch)
                    (local + (g.local_range + 1) * c))
                e
              ∙ extract_hit local c _ hl hc
          | no ne ↦
              extract_miss count local c _ hl hc (omega arith) ne
              ∙ extract_below count local c scratch (omega arith) hl hc (omega arith)
        ]

    pub extract_all_lem :
        (local c : ℕ) (scratch : ℕ → A)
        → local < g.local_range
        → c < g.cl_elems
        → extract_all s g st group c_tile g.local_range scratch (local + (g.local_range + 1) * c)
          ≡ loaded
              (ltb (c + c_tile * g.cl_elems + c_group_id * g.local_range) (c_dim g))
              (local + nc_group_id * g.local_range)
              (c
                + c_tile * g.cl_elems
                + c_group_id * g.local_range
                + (local + nc_group_id * g.local_range) * g.matrix_a_.leading)
    extract_all_lem local c scratch hl hc =
        let rest : local % tile_dim_nc < tile_dim_nc = mod-lt local some in
        let all : (local % tile_dim_nc + 1) * g.cl_elems ≤ tile_dim_nc * g.cl_elems =
          mul-le-mul_right g.cl_elems (omega arith) in
        extract_below g.local_range local c scratch (omega arith) hl hc (omega arith)
