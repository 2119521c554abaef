-- ===== src/Ger/Loops.antt =====
-- The loops of `GerCol`: which elements an item updates.
use mathlib.Core.Path.{subst}
use sycl_blas.Base.{
  ℕ, zero, suc, ◌+◌, ◌-◌, ◌*◌, ◌<◌, ◌≤◌, ◌≡◌, min, true, inl, inr, refl, sym, ap, ◌∙◌, arith, ltb,
  lt→ltb, ltb→lt, ltb→le, Bool-cases,
}
use sycl_blas.Base.Scalar.{Scalar}
use sycl_blas.Views.{Store}
use sycl_blas.Kernel.{Write, All}
use sycl_blas.Kernel.Cells.{Any, All-++, Any-++_left, Any-++_right}
use sycl_blas.Ger.{
  GerCol, block, fill_all, is_updated, increment, id_col_loop, id_row_loop, colid_loop,
}
use sycl_blas.Ger.Fill.{increment_lem, addend}
use sycl_blas.Ger.Columns.{updated, id_col_loop-All, id_col_loop-Any}

module _ {ℓ} {A : Type ℓ} (s : Scalar A) (g : GerCol A) (st : Store A) where
  -- The rows of an item, `local_sz` apart.
  module _ (shr_mem : ℕ → A) (local_sz colid blq_sz frs_row lst_row : ℕ)
      (filled : (r k : ℕ)
        → k < blq_sz
        → increment s g st shr_mem r k ≡ addend s g st r (colid + k)) where
    id_row_loop-All {ℓ'} :
        (P : Write A → Type ℓ')
        → ((t c : ℕ)
            → frs_row + t * local_sz < lst_row
            → colid ≤ c
            → c < colid + blq_sz
            → is_updated s g (frs_row + t * local_sz) c ≡ true
            → P (updated s g st (frs_row + t * local_sz) c))
        → (fuel t id_row : ℕ) → id_row ≡ frs_row + t * local_sz
        → All P (id_row_loop s g st shr_mem local_sz colid blq_sz lst_row fuel id_row)
    unfolding id_row_loop
    id_row_loop-All P h zero t id_row e = tt
    id_row_loop-All P h (suc fuel) t id_row e = elim (Bool-cases (ltb id_row lst_row)) [
      | inl lt ↦
          let below = ltb→lt id_row lst_row lt in
          rw lt (
            All-++ P (id_col_loop s g st shr_mem id_row blq_sz colid 0)
              (id_row_loop s g st shr_mem local_sz colid blq_sz lst_row fuel (id_row + local_sz))
              (id_col_loop-All s g st shr_mem colid blq_sz id_row (filled id_row) P
                (λ c lo hi on.
                  subst (λ r. P (updated s g st r c)) (sym e)
                    (h t c (omega arith) lo hi (ap (λ r. is_updated s g r c) (sym e) ∙ on)))
                blq_sz colid 0 (omega arith) (omega arith))
              (id_row_loop-All P h fuel (suc t) (id_row + local_sz) (omega arith)))
      | inr ge ↦ rw ge tt
    ]

    id_row_loop-Any :
        (P : Write A → Type 0) (r c : ℕ)
        → is_updated s g r c ≡ true
        → P (updated s g st r c)
        → colid ≤ c
        → c < colid + blq_sz
        → r < lst_row
        → (fuel t id_row : ℕ) → 0 < local_sz
        → lst_row ≤ id_row + fuel
        → id_row + t * local_sz ≡ r
        → Any P (id_row_loop s g st shr_mem local_sz colid blq_sz lst_row fuel id_row)
    unfolding id_row_loop
    id_row_loop-Any P r c on h lo hi below zero t id_row items enough e = absurd (omega arith)
    id_row_loop-Any P r c on h lo hi below (suc fuel) zero id_row items enough e =
        let here : r ≡ id_row = omega arith in
        rw (lt→ltb id_row lst_row (omega arith)) (
          Any-++_left P (id_col_loop s g st shr_mem id_row blq_sz colid 0)
            (id_row_loop s g st shr_mem local_sz colid blq_sz lst_row fuel (id_row + local_sz))
            (id_col_loop-Any s g st shr_mem colid blq_sz id_row (filled id_row) P c
              (ap (λ r. is_updated s g r c) (sym here) ∙ on)
              (subst (λ r. P (updated s g st r c)) here h) blq_sz colid 0 (omega arith)
              (omega arith) lo hi))
    id_row_loop-Any P r c on h lo hi below (suc fuel) (suc t) id_row items enough e =
        rw (lt→ltb id_row lst_row (omega arith)) (
          Any-++_right P (id_col_loop s g st shr_mem id_row blq_sz colid 0)
            (id_row_loop s g st shr_mem local_sz colid blq_sz lst_row fuel (id_row + local_sz))
            (id_row_loop-Any P r c on h lo hi below fuel t (id_row + local_sz) items (omega arith)
              (omega arith)))

  -- The columns of a group, a block at a time.
  module _ (local_sz frs_row lst_row lst_col : ℕ) (items : 0 < local_sz) where
    loaded_lem :
        (colid : ℕ) (shr_mem : ℕ → A) (r k : ℕ)
        → k < min (block s g) (lst_col - colid)
        → increment s g st
            (fill_all s g st local_sz colid (min (block s g) (lst_col - colid)) local_sz shr_mem)
            r
            k
          ≡ addend s g st r (colid + k)
    loaded_lem colid shr_mem r k h =
        increment_lem s g st local_sz colid (min (block s g) (lst_col - colid)) items (omega arith)
          shr_mem k h r

    -- An item updates only elements of its rows in the columns of its group, each with its value.
    pub colid_loop-All {ℓ'} :
        (P : Write A → Type ℓ') (frs_col : ℕ)
        → ((t c : ℕ)
            → frs_row + t * local_sz < lst_row
            → frs_col ≤ c
            → c < lst_col
            → is_updated s g (frs_row + t * local_sz) c ≡ true
            → P (updated s g st (frs_row + t * local_sz) c))
        → (fuel colid : ℕ) (shr_mem : ℕ → A) → frs_col ≤ colid
        → All P (colid_loop s g st local_sz frs_row lst_row lst_col fuel colid shr_mem)
    unfolding colid_loop
    colid_loop-All P frs_col h zero colid shr_mem le = tt
    colid_loop-All P frs_col h (suc fuel) colid shr_mem le =
        let blq_sz = min (block s g) (lst_col - colid) in
        let loaded = fill_all s g st local_sz colid blq_sz local_sz shr_mem in
        elim (Bool-cases (ltb colid lst_col)) [
          | inl lt ↦ rw lt (
              All-++ P
                (id_row_loop s g st loaded local_sz colid blq_sz lst_row (lst_row - frs_row)
                  frs_row)
                (colid_loop s g st local_sz frs_row lst_row lst_col fuel (colid + block s g) loaded)
                (id_row_loop-All loaded local_sz colid blq_sz frs_row lst_row
                  (loaded_lem colid shr_mem) P
                  (λ t c below lo hi. h t c below (omega arith) (omega arith)) (lst_row - frs_row) 0
                  frs_row (omega arith))
                (colid_loop-All P frs_col h fuel (colid + block s g) loaded (omega arith)))
          | inr ge ↦ rw ge tt
        ]

    -- And it updates all of them.
    pub colid_loop-Any :
        (P : Write A → Type 0) (t c : ℕ)
        → is_updated s g (frs_row + t * local_sz) c ≡ true
        → P (updated s g st (frs_row + t * local_sz) c)
        → frs_row + t * local_sz < lst_row
        → c < lst_col
        → 0 < block s g
        → (fuel colid : ℕ) (shr_mem : ℕ → A) → lst_col ≤ colid + fuel
        → colid ≤ c
        → Any P (colid_loop s g st local_sz frs_row lst_row lst_col fuel colid shr_mem)
    unfolding colid_loop
    colid_loop-Any P t c on h below hi wide zero colid shr_mem enough lo = absurd (omega arith)
    colid_loop-Any P t c on h below hi wide (suc fuel) colid shr_mem enough lo =
        let blq_sz = min (block s g) (lst_col - colid) in
        let loaded = fill_all s g st local_sz colid blq_sz local_sz shr_mem in
        let rows =
          id_row_loop s g st loaded local_sz colid blq_sz lst_row (lst_row - frs_row) frs_row in
        let rest =
          colid_loop s g st local_sz frs_row lst_row lst_col fuel (colid + block s g) loaded in
        rw (lt→ltb colid lst_col (omega arith)) (elim (Bool-cases (ltb c (colid + block s g))) [
          | inl lt ↦
              let inside = ltb→lt _ _ lt in
              Any-++_left P rows rest (
                id_row_loop-Any loaded local_sz colid blq_sz frs_row lst_row
                  (loaded_lem colid shr_mem) P (frs_row + t * local_sz) c on h lo (omega arith)
                  below (lst_row - frs_row) t frs_row items (omega arith) refl)
          | inr ge ↦
              let later = ltb→le _ _ ge in
              Any-++_right P rows rest (
                colid_loop-Any P t c on h below hi wide fuel (colid + block s g) loaded
                  (omega arith) (omega arith))
        ])
