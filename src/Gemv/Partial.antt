-- ===== src/Gemv/Partial.antt =====
-- The kernel with local memory: the part of a dot product that a work group computes.
use mathlib.Core.Path.{ap₂}
use sycl_blas.Base.{
  ℕ, zero, suc, ◌+◌, ◌-◌, ◌*◌, ◌/◌, min, ◌<◌, ◌≤◌, ◌≡◌, inl, inr, sym, ap, ◌∙◌, arith, true, false,
  if◌then◌else◌, ltb, Bool-cases, ltb→lt, lt→ltb, le→ltb, ltb→le,
}
use sycl_blas.Base.Scalar.{Scalar, IsExact, sum_monoid, mul-zero, add-zero}
use sycl_blas.Base.Sums.{sum, sum-mul}
use sycl_blas.Base.Matrices.{total, total_congr, total_cut}
use sycl_blas.Views.{Store, vector_eval}
use sycl_blas.Gemv.{
  Gemv, c_dim, nc_dim, matrix_eval, vector_scratch, partial_loop, extract_all, scratch_loop,
  c_tile_loop,
}
use sycl_blas.Gemv.Dots.{op_entry, partial_loop_lem, scratch_loop_lem}
use sycl_blas.Gemv.Extract.{extract_all_lem}

module _ {ℓ} {A : Type ℓ} {s : Scalar A} (exact : IsExact s) (g : Gemv) (st : Store A) where
  -- A term of the dot product of the row, or zero behind its end.
  abbrev pub term : ℕ → ℕ → A
  term nc c =
      if ltb c (c_dim g)
      then s.mul (op_entry exact g st nc c) (vector_eval g.vector_x_ st c)
      else s.zero

  -- The terms of the group's share of a row.
  abbrev pub partial_dot : ℕ → ℕ → A
  partial_dot nc c_group = total exact g.local_range (λ k. term nc (k + c_group * g.local_range))

module _ {ℓ} {A : Type ℓ} {s : Scalar A} (exact : IsExact s) (g : Gemv) (st : Store A)
    (x_size : g.vector_x_.size ≡ c_dim g) where
  pub term_inside :
      (nc c : ℕ)
      → c < c_dim g
      → term exact g st nc c ≡ s.mul (op_entry exact g st nc c) (vector_eval g.vector_x_ st c)
  term_inside nc c h = rw (lt→ltb c (c_dim g) h)

  pub term_outside : (nc c : ℕ) → c_dim g ≤ c → term exact g st nc c ≡ s.zero
  term_outside nc c h = rw (le→ltb c (c_dim g) h)

  abbrev scratch : ℕ → ℕ → A
  scratch c_group = vector_scratch s g c_group st

  scratch_inside :
      (c_group k : ℕ)
      → k + c_group * g.local_range < c_dim g
      → scratch c_group k ≡ vector_eval g.vector_x_ st (k + c_group * g.local_range)
  unfolding vector_scratch
  scratch_inside c_group k h =
      rw (lt→ltb (k + c_group * g.local_range) g.vector_x_.size (omega arith))

  scratch_outside :
      (c_group k : ℕ) → c_dim g ≤ k + c_group * g.local_range → scratch c_group k ≡ s.zero
  unfolding vector_scratch
  scratch_outside c_group k h =
      rw (le→ltb (k + c_group * g.local_range) g.vector_x_.size (omega arith))

  normal_entry :
      (nc c_group k : ℕ)
      → g.is_transposed ≡ false
      → matrix_eval s g st
          (nc + c_group * g.local_range * g.matrix_a_.leading + k * g.matrix_a_.leading)
        ≡ op_entry exact g st nc (k + c_group * g.local_range)
  normal_entry nc c_group k normal =
      ap (matrix_eval s g st)
        {x = nc + c_group * g.local_range * g.matrix_a_.leading + k * g.matrix_a_.leading}
        {y = nc * 1 + (k + c_group * g.local_range) * g.matrix_a_.leading} (omega arith)
      ∙ ap
          (λ b. matrix_eval s g st (
            nc * (if b then g.matrix_a_.leading else 1)
            + (k + c_group * g.local_range) * (if b then 1 else g.matrix_a_.leading)))
          (sym normal)

  transposed_entry :
      (nc c : ℕ)
      → g.is_transposed ≡ true
      → matrix_eval s g st (c + nc * g.matrix_a_.leading) ≡ op_entry exact g st nc c
  transposed_entry nc c transposed =
      ap (matrix_eval s g st) {x = c + nc * g.matrix_a_.leading}
        {y = nc * g.matrix_a_.leading + c * 1} (omega arith)
      ∙ ap
          (λ b. matrix_eval s g st (
            nc * (if b then g.matrix_a_.leading else 1)
            + c * (if b then 1 else g.matrix_a_.leading)))
          (sym transposed)

  pub normal_lem :
      (nc c_group : ℕ)
      → g.is_transposed ≡ false
      → partial_loop s g
          (scratch c_group)
          (min (c_dim g - c_group * g.local_range) g.local_range)
          0
          (nc + c_group * g.local_range * g.matrix_a_.leading)
          s.zero
          st
        ≡ partial_dot exact g st nc c_group
  normal_lem nc c_group normal =
      partial_loop_lem exact g (scratch c_group) count _ st
      ∙ total_congr exact count _ (λ k. term exact g st nc (k + c_group * g.local_range))
          (λ k hk.
            ap₂ s.mul (normal_entry nc c_group k normal) (scratch_inside c_group k (omega arith))
            ∙ sym (term_inside nc (k + c_group * g.local_range) (omega arith)))
      ∙ sym (
          total_cut exact count g.local_range
            (λ k. term exact g st nc (k + c_group * g.local_range)) (omega arith)
            (λ k lo hi. term_outside nc (k + c_group * g.local_range) (omega arith)))
    where
      count : ℕ
      count = min (c_dim g - c_group * g.local_range) g.local_range

  module _ (some : 0 < g.local_range / g.cl_elems)
      (tiles : g.local_range ≡ g.cl_elems * (g.local_range / g.cl_elems))
      (transposed : g.is_transposed ≡ true) (group local_id : ℕ)
      (inside : local_id < g.local_range) where
    abbrev nc : ℕ
    nc = local_id + group / g.wgs_per_c_ * g.local_range

    abbrev c_group : ℕ
    c_group = group - group / g.wgs_per_c_ * g.wgs_per_c_

    module _ (row : nc < nc_dim g) where
      loaded_entry :
          (c_tile c : ℕ) (before : ℕ → A)
          → c < g.cl_elems
          → c_tile * g.cl_elems + c + c_group * g.local_range < c_dim g
          → extract_all s g st group c_tile g.local_range before
              (local_id + c * (g.local_range + 1))
            ≡ op_entry exact g st nc (c_tile * g.cl_elems + c + c_group * g.local_range)
      loaded_entry c_tile c before h l =
          ap (extract_all s g st group c_tile g.local_range before)
            {x = local_id + c * (g.local_range + 1)} {y = local_id + (g.local_range + 1) * c}
            (omega arith)
          ∙ extract_all_lem s g st some tiles group c_tile local_id c before inside h
          ∙ rw
              (
                lt→ltb (c + c_tile * g.cl_elems + c_group * g.local_range) (c_dim g) (omega arith),
                lt→ltb nc (nc_dim g) row,
              )
              (transposed_entry nc (c + c_tile * g.cl_elems + c_group * g.local_range) transposed)
          ∙ ap (op_entry exact g st nc) {x = c + c_tile * g.cl_elems + c_group * g.local_range}
              {y = c_tile * g.cl_elems + c + c_group * g.local_range} (omega arith)

      -- A product in the loop over a tile.
      tile_term :
          (c_tile c : ℕ) (before : ℕ → A)
          → c < g.cl_elems
          → s.mul
              (extract_all s g st group c_tile g.local_range before
                (local_id + c * (g.local_range + 1)))
              (scratch c_group (c_tile * g.cl_elems + c))
            ≡ term exact g st nc (c_tile * g.cl_elems + c + c_group * g.local_range)
      tile_term c_tile c before h = elim (Bool-cases (ltb col (c_dim g))) [
        | inl in_range ↦
            let l = ltb→lt col (c_dim g) in_range in
            ap₂ s.mul (loaded_entry c_tile c before h l)
              (scratch_inside c_group (c_tile * g.cl_elems + c) l)
            ∙ sym (term_inside nc col l)
        | inr out ↦
            let l = ltb→le col (c_dim g) out in
            ap (s.mul _) (scratch_outside c_group (c_tile * g.cl_elems + c) l)
            ∙ mul-zero exact _
            ∙ sym (term_outside nc col l)
      ]
        where
          col : ℕ
          col = c_tile * g.cl_elems + c + c_group * g.local_range

      c_tile_loop_lem :
          (count c_tile : ℕ) (before : ℕ → A) (acc : A)
          → c_tile_loop s g (scratch c_group) st group local_id count c_tile before acc
            ≡ s.add
                (total exact count (λ t. total exact g.cl_elems (λ c.
                  term exact g st nc ((c_tile + t) * g.cl_elems + c + c_group * g.local_range))))
                acc
      unfolding c_tile_loop sum
      c_tile_loop_lem zero c_tile before acc = sym (exact.zero-add acc)
      c_tile_loop_lem (suc count) c_tile before acc =
          let loaded = extract_all s g st group c_tile g.local_range before in
          c_tile_loop_lem count (suc c_tile) loaded (
            scratch_loop s g loaded (scratch c_group) g.cl_elems local_id (c_tile * g.cl_elems) acc)
          ∙ ap₂ s.add
              (total_congr exact count _ _ (λ t _. total_congr exact g.cl_elems _ _ (λ c _.
                ap (λ x. term exact g st nc (x * g.cl_elems + c + c_group * g.local_range))
                  {x = suc c_tile + t} {y = c_tile + suc t} (omega arith))))
              (scratch_loop_lem exact g loaded (scratch c_group) g.cl_elems local_id
                  (c_tile * g.cl_elems) acc
                ∙ ap (λ x. s.add x acc)
                    (total_congr exact g.cl_elems _ _ (λ c h.
                      tile_term c_tile c before h
                      ∙ ap (λ x. term exact g st nc (x * g.cl_elems + c + c_group * g.local_range))
                          {x = c_tile} {y = c_tile + 0} (omega arith))))
          ∙ sym (exact.add_assoc _ _ acc)
          ∙ ap (λ x. s.add x acc) (exact.add_comm _ _)

      pub transposed_lem :
          (start : ℕ → A)
          → c_tile_loop s g
              (scratch c_group)
              st
              group
              local_id
              (g.local_range / g.cl_elems)
              0
              start
              s.zero
            ≡ partial_dot exact g st nc c_group
      transposed_lem start =
          c_tile_loop_lem (g.local_range / g.cl_elems) 0 start s.zero
          ∙ add-zero exact _
          ∙ total_congr exact (g.local_range / g.cl_elems) _ _ (λ t _.
            total_congr exact g.cl_elems _ _ (λ c _.
              ap (λ x. term exact g st nc (x * g.cl_elems + c + c_group * g.local_range))
                {x = 0 + t} {y = t} (omega arith)))
          ∙ sym (
              sum-mul (sum_monoid exact) (g.local_range / g.cl_elems) g.cl_elems
                (λ k. term exact g st nc (k + c_group * g.local_range)))
          ∙ ap (λ n. total exact n (λ k. term exact g st nc (k + c_group * g.local_range)))
              {x = g.local_range / g.cl_elems * g.cl_elems} {y = g.local_range} (omega arith)
