-- ===== src/GemvCol/Copies.antt =====
-- The local memory of `GemvCol`: what the items of a group copy there before the barrier.
use native.Mathlib.Nat.{mod-add-div', mod-lt, div-le_self}
use sycl_blas.Base.{
  ℕ, zero, suc, ◌+◌, ◌*◌, ◌/◌, ◌%◌, ◌<◌, ◌≤◌, ◌≡◌, inl, inr, sym, ap, ◌∙◌, arith, ltb, ◌==◌,
  ==_refl, ==_iff, lt→ltb, ltb→lt, ltb→le, Bool-cases, if_yes, if_no,
}
use sycl_blas.Base.Scalar.{Scalar}
use sycl_blas.Views.{Store, vector_eval}
use sycl_blas.GemvCol.{GemvCol, copy_place, copy_loop, copy_all}

module _ {ℓ} {A : Type ℓ} (s : Scalar A) (g : GemvCol) (st : Store A)
    (local_sz colid blq_sz place : ℕ) where
  abbrev copied : A
  copied = vector_eval g.vector_ st (colid + place)

  copy_place_hits : (shr_mem : ℕ → A) → copy_place s g st colid place shr_mem place ≡ copied
  copy_place_hits shr_mem = if_yes (place == place) copied (shr_mem place) (==_refl place)

  copy_place_keeps :
      (col : ℕ) (shr_mem : ℕ → A)
      → shr_mem place ≡ copied
      → copy_place s g st colid col shr_mem place ≡ copied
  copy_place_keeps col shr_mem e = elim (Bool-cases (place == col)) [
    | inl same ↦
        if_yes (place == col) _ _ same
        ∙ ap (λ c. vector_eval g.vector_ st (colid + c)) (sym ((==_iff place col).0 same))
    | inr other ↦ if_no (place == col) _ _ other ∙ e
  ]

  copy_loop_keeps :
      (fuel col : ℕ) (shr_mem : ℕ → A)
      → shr_mem place ≡ copied
      → copy_loop s g st local_sz colid blq_sz fuel col shr_mem place ≡ copied
  unfolding copy_loop
  copy_loop_keeps zero col shr_mem e = e
  copy_loop_keeps (suc fuel) col shr_mem e = elim (Bool-cases (ltb col blq_sz)) [
    | inl lt ↦ rw lt (
        copy_loop_keeps fuel (col + local_sz) (copy_place s g st colid col shr_mem)
          (copy_place_keeps col shr_mem e))
    | inr ge ↦ rw ge e
  ]

  -- The item that reaches the place after `t` rounds sets it.
  copy_loop_hits :
      (fuel t col : ℕ) (shr_mem : ℕ → A)
      → place < blq_sz
      → t < fuel
      → col + t * local_sz ≡ place
      → copy_loop s g st local_sz colid blq_sz fuel col shr_mem place ≡ copied
  unfolding copy_loop
  copy_loop_hits zero t col shr_mem inside h e = absurd (omega arith)
  copy_loop_hits (suc fuel) zero col shr_mem inside h e = rw (lt→ltb col blq_sz (omega arith)) (
      copy_loop_keeps fuel (col + local_sz) (copy_place s g st colid col shr_mem) (
        let same : col ≡ place = omega arith in
        ap (λ c. copy_place s g st colid c shr_mem place) same ∙ copy_place_hits shr_mem))
  copy_loop_hits (suc fuel) (suc t) col shr_mem inside h e = rw (lt→ltb col blq_sz (omega arith)) (
      copy_loop_hits fuel t (col + local_sz) (copy_place s g st colid col shr_mem) inside
        (omega arith) (omega arith))

  copy_first :
      (count : ℕ) (shr_mem : ℕ → A)
      → place < blq_sz
      → place % local_sz < count
      → copy_all s g st local_sz colid blq_sz count shr_mem place ≡ copied
  unfolding copy_all
  copy_first zero shr_mem inside h = absurd (omega arith)
  copy_first (suc count) shr_mem inside h = elim (Bool-cases (ltb (place % local_sz) count)) [
    | inl lt ↦
        copy_loop_keeps blq_sz count (copy_all s g st local_sz colid blq_sz count shr_mem)
          (copy_first count shr_mem inside (ltb→lt _ _ lt))
    | inr ge ↦
        let at = ltb→le _ _ ge in
        let rounds : place / local_sz ≤ place = div-le_self place local_sz in
        let back = mod-add-div' place local_sz in
        copy_loop_hits blq_sz (place / local_sz) count
          (copy_all s g st local_sz colid blq_sz count shr_mem) inside (omega arith) (omega arith)
  ]

  -- Once all items of a group that is not empty have copied their share, each place of the block holds
  -- its element of the vector.
  pub copy_all_lem :
      (shr_mem : ℕ → A)
      → 0 < local_sz
      → place < blq_sz
      → copy_all s g st local_sz colid blq_sz local_sz shr_mem place
        ≡ vector_eval g.vector_ st (colid + place)
  copy_all_lem shr_mem items inside = copy_first local_sz shr_mem inside (mod-lt place items)
