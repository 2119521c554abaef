-- ===== src/Ger/Fill.antt =====
-- The local memory of `GerCol`: what the items of a group put there before the barrier.
use native.Mathlib.Nat.{mod-add-div', mod-lt, div-le_self}
use mathlib.Core.Path.{ap₂}
use sycl_blas.Base.{
  ℕ, zero, suc, ◌+◌, ◌*◌, ◌/◌, ◌%◌, ◌<◌, ◌≤◌, ◌≡◌, true, false, inl, inr, sym, ap, ◌∙◌, arith,
  if◌then◌else◌, ltb, ◌==◌, ==_refl, ==_iff, lt→ltb, ltb→lt, ltb→le, Bool-cases, if_yes, if_no,
}
use sycl_blas.Base.Scalar.{Scalar}
use sycl_blas.Views.{Store, vector_eval}
use sycl_blas.Ger.{GerCol, block, set_place, fill_place, fill_loop, fill_all, increment}

module _ {ℓ} {A : Type ℓ} (s : Scalar A) (g : GerCol A) where
  -- What the kernel adds to an element: `alpha * y` of the column times `x` of the row, and for two
  -- vectors the same with their roles exchanged.
  abbrev pub addend : Store A → ℕ → ℕ → A
  addend st r c =
      if g.is_single
      then s.mul (vector_eval g.rhs_1_ st r) (s.mul g.scalar_ (vector_eval g.rhs_2_ st c))
      else s.add (s.mul (vector_eval g.rhs_1_ st r) (s.mul g.scalar_ (vector_eval g.rhs_2_ st c)))
          (s.mul (vector_eval g.rhs_2_ st r) (s.mul g.scalar_ (vector_eval g.rhs_1_ st c)))

  set_here : (p : ℕ) (v : A) (shr_mem : ℕ → A) → set_place s g p v shr_mem p ≡ v
  set_here p v shr_mem = if_yes (p == p) v (shr_mem p) (==_refl p)

  set_keeps :
      (p q : ℕ) (v w : A) (shr_mem : ℕ → A)
      → (q ≡ p → v ≡ w)
      → shr_mem q ≡ w
      → set_place s g p v shr_mem q ≡ w
  set_keeps p q v w shr_mem agree e = elim (Bool-cases (q == p)) [
    | inl same ↦ if_yes (q == p) v (shr_mem q) same ∙ agree ((==_iff q p).0 same)
    | inr other ↦ if_no (q == p) v (shr_mem q) other ∙ e
  ]

module _ {ℓ} {A : Type ℓ} (s : Scalar A) (g : GerCol A) (st : Store A)
    (local_sz colid blq_sz : ℕ) where
  -- A place whose value no column of the block changes once it is `v`, and which `col₀` sets to it.
  module _ (p : ℕ) (v : A)
      (keeps : (col : ℕ) (shr_mem : ℕ → A)
        → col < blq_sz
        → shr_mem p ≡ v
        → fill_place s g st colid col shr_mem p ≡ v)
      (own : ℕ) (own_lt : own < blq_sz)
      (hits : (shr_mem : ℕ → A) → fill_place s g st colid own shr_mem p ≡ v) where
    fill_loop_keeps :
        (fuel col : ℕ) (shr_mem : ℕ → A)
        → shr_mem p ≡ v
        → fill_loop s g st local_sz colid blq_sz fuel col shr_mem p ≡ v
    unfolding fill_loop
    fill_loop_keeps zero col shr_mem e = e
    fill_loop_keeps (suc fuel) col shr_mem e = elim (Bool-cases (ltb col blq_sz)) [
      | inl lt ↦ rw lt (
          fill_loop_keeps fuel (col + local_sz) (fill_place s g st colid col shr_mem)
            (keeps col shr_mem (ltb→lt _ _ lt) e))
      | inr ge ↦ rw ge e
    ]

    fill_loop_hits :
        (fuel t col : ℕ) (shr_mem : ℕ → A)
        → t < fuel
        → col + t * local_sz ≡ own
        → fill_loop s g st local_sz colid blq_sz fuel col shr_mem p ≡ v
    unfolding fill_loop
    fill_loop_hits zero t col shr_mem h e = absurd (omega arith)
    fill_loop_hits (suc fuel) zero col shr_mem h e = rw (lt→ltb col blq_sz (omega arith)) (
        fill_loop_keeps fuel (col + local_sz) (fill_place s g st colid col shr_mem) (
          let same : col ≡ own = omega arith in
          ap (λ c. fill_place s g st colid c shr_mem p) same ∙ hits shr_mem))
    fill_loop_hits (suc fuel) (suc t) col shr_mem h e = rw (lt→ltb col blq_sz (omega arith)) (
        fill_loop_hits fuel t (col + local_sz) (fill_place s g st colid col shr_mem) (omega arith)
          (omega arith))

    fill_all_hits :
        (count : ℕ) (shr_mem : ℕ → A)
        → own % local_sz < count
        → fill_all s g st local_sz colid blq_sz count shr_mem p ≡ v
    unfolding fill_all
    fill_all_hits zero shr_mem h = absurd (omega arith)
    fill_all_hits (suc count) shr_mem h = elim (Bool-cases (ltb (own % local_sz) count)) [
      | inl lt ↦
          fill_loop_keeps blq_sz count (fill_all s g st local_sz colid blq_sz count shr_mem)
            (fill_all_hits count shr_mem (ltb→lt _ _ lt))
      | inr ge ↦
          let at = ltb→le _ _ ge in
          let rounds : own / local_sz ≤ own = div-le_self own local_sz in
          let back = mod-add-div' own local_sz in
          fill_loop_hits blq_sz (own / local_sz) count
            (fill_all s g st local_sz colid blq_sz count shr_mem) (omega arith) (omega arith)
    ]

  abbrev scaled_1 : ℕ → A
  scaled_1 col = s.mul g.scalar_ (vector_eval g.rhs_1_ st (colid + col))

  abbrev scaled_2 : ℕ → A
  scaled_2 col = s.mul g.scalar_ (vector_eval g.rhs_2_ st (colid + col))

  fill_single :
      g.is_single ≡ true
      → (col : ℕ) (shr_mem : ℕ → A)
      → fill_place s g st colid col shr_mem ≡ set_place s g col (scaled_2 col) shr_mem
  fill_single one col shr_mem = if_yes g.is_single _ _ one

  fill_double :
      g.is_single ≡ false
      → (col : ℕ) (shr_mem : ℕ → A)
      → fill_place s g st colid col shr_mem
        ≡ set_place s g (block s g + col) (scaled_2 col) (set_place s g col (scaled_1 col) shr_mem)
  fill_double two col shr_mem = if_no g.is_single _ _ two

  module _ (items : 0 < local_sz) (fits : blq_sz ≤ block s g) (shr_mem : ℕ → A) (place : ℕ)
      (inside : place < blq_sz) where
    abbrev loaded : ℕ → A
    loaded = fill_all s g st local_sz colid blq_sz local_sz shr_mem

    loaded_single : g.is_single ≡ true → loaded place ≡ scaled_2 place
    loaded_single one =
        fill_all_hits place (scaled_2 place)
          (λ col shr _ e.
            ap (λ f. f place) (fill_single one col shr)
            ∙ set_keeps s g col place (scaled_2 col) (scaled_2 place) shr (λ q. ap scaled_2 (sym q))
                e)
          place inside
          (λ shr.
            ap (λ f. f place) (fill_single one place shr) ∙ set_here s g place (scaled_2 place) shr)
          local_sz shr_mem (mod-lt place items)

    loaded_first : g.is_single ≡ false → loaded place ≡ scaled_1 place
    loaded_first two =
        fill_all_hits place (scaled_1 place)
          (λ col shr _ e.
            ap (λ f. f place) (fill_double two col shr)
            ∙ set_keeps s g (block s g + col) place (scaled_2 col) (scaled_1 place)
                (set_place s g col (scaled_1 col) shr) (λ q. absurd (omega arith))
                (set_keeps s g col place (scaled_1 col) (scaled_1 place) shr
                  (λ q. ap scaled_1 (sym q)) e))
          place inside
          (λ shr.
            ap (λ f. f place) (fill_double two place shr)
            ∙ set_keeps s g (block s g + place) place (scaled_2 place) (scaled_1 place)
                (set_place s g place (scaled_1 place) shr) (λ q. absurd (omega arith))
                (set_here s g place (scaled_1 place) shr))
          local_sz shr_mem (mod-lt place items)

    loaded_second : g.is_single ≡ false → loaded (block s g + place) ≡ scaled_2 place
    loaded_second two =
        fill_all_hits (block s g + place) (scaled_2 place)
          (λ col shr h e.
            ap (λ f. f (block s g + place)) (fill_double two col shr)
            ∙ set_keeps s g (block s g + col) (block s g + place) (scaled_2 col) (scaled_2 place)
                (set_place s g col (scaled_1 col) shr)
                (λ q. let same : col ≡ place = omega arith in ap scaled_2 same)
                (set_keeps s g col (block s g + place) (scaled_1 col) (scaled_2 place) shr
                  (λ q. absurd (omega arith)) e))
          place inside
          (λ shr.
            ap (λ f. f (block s g + place)) (fill_double two place shr)
            ∙ set_here s g (block s g + place) (scaled_2 place)
                (set_place s g place (scaled_1 place) shr))
          local_sz shr_mem (mod-lt place items)

    -- What an item adds to the element in row `id_row` and the column at `place` in the block.
    pub increment_lem :
        (id_row : ℕ) → increment s g st loaded id_row place ≡ addend s g st id_row (colid + place)
    increment_lem id_row = elim (Bool-cases g.is_single) [
      | inl one ↦
          if_yes g.is_single _ _ one
          ∙ ap (s.mul (vector_eval g.rhs_1_ st id_row)) (loaded_single one)
          ∙ sym (if_yes g.is_single _ _ one)
      | inr two ↦
          if_no g.is_single _ _ two
          ∙ ap₂
              (λ x y.
                s.add (s.mul (vector_eval g.rhs_1_ st id_row) x)
                  (s.mul (vector_eval g.rhs_2_ st id_row) y))
              (loaded_second two) (loaded_first two)
          ∙ sym (if_no g.is_single _ _ two)
    ]
