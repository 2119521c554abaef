-- ===== src/Ger/Columns.antt =====
-- The inner loop of `GerCol`: which elements of a row an item updates, and with which values.
use mathlib.Core.Path.{subst}
use sycl_blas.Base.{
  ℕ, zero, suc, ◌+◌, ◌<◌, ◌≤◌, ◌≡◌, true, inl, inr, sym, ap, ◌∙◌, arith, ltb, ltb→lt, ltb→le,
  Bool-cases,
}
use sycl_blas.Base.Scalar.{Scalar}
use sycl_blas.Views.{Store}
use sycl_blas.Kernel.{Write, All}
use sycl_blas.Kernel.Cells.{Any}
use sycl_blas.Ger.{GerCol, is_updated, increment, update, id_col_loop}
use sycl_blas.Ger.Fill.{addend}

module _ {ℓ} {A : Type ℓ} (s : Scalar A) (g : GerCol A) (st : Store A) where
  -- The update of an element with what the kernel means to add.
  abbrev pub updated : ℕ → ℕ → Write A
  updated r c = update s g st r c (addend s g st r c)

  module _ (shr_mem : ℕ → A) (colid blq_sz r : ℕ)
      (filled : (k : ℕ)
        → k < blq_sz
        → increment s g st shr_mem r k ≡ addend s g st r (colid + k)) where
    same_update :
        (id_col col : ℕ)
        → id_col ≡ colid + col
        → col < blq_sz
        → update s g st r id_col (increment s g st shr_mem r col) ≡ updated r id_col
    same_update id_col col e h =
        ap (update s g st r id_col) (filled col h ∙ ap (addend s g st r) (sym e))

    pub id_col_loop-All {ℓ'} :
        (P : Write A → Type ℓ')
        → ((c : ℕ) → colid ≤ c → c < colid + blq_sz → is_updated s g r c ≡ true → P (updated r c))
        → (count id_col col : ℕ) → id_col ≡ colid + col
        → count + col ≡ blq_sz
        → All P (id_col_loop s g st shr_mem r count id_col col)
    unfolding id_col_loop
    id_col_loop-All P h zero id_col col e f = tt
    id_col_loop-All P h (suc count) id_col col e f =
        let rest = id_col_loop-All P h count (suc id_col) (suc col) (omega arith) (omega arith) in
        elim (Bool-cases (is_updated s g r id_col)) [
          | inl on ↦ rw on (
            subst P (sym (same_update id_col col e (omega arith)))
                (h id_col (omega arith) (omega arith) on),
            rest,
          )
          | inr off ↦ rw off rest
        ]

    pub id_col_loop-Any :
        (P : Write A → Type 0) (c : ℕ)
        → is_updated s g r c ≡ true
        → P (updated r c)
        → (count id_col col : ℕ) → id_col ≡ colid + col
        → count + col ≡ blq_sz
        → id_col ≤ c
        → c < colid + blq_sz
        → Any P (id_col_loop s g st shr_mem r count id_col col)
    unfolding id_col_loop
    id_col_loop-Any P c on h zero id_col col e f lo hi = absurd (omega arith)
    id_col_loop-Any P c on h (suc count) id_col col e f lo hi = elim (Bool-cases (ltb id_col c)) [
      | inl lt ↦
          let later = ltb→lt id_col c lt in
          let rest =
            id_col_loop-Any P c on h count (suc id_col) (suc col) (omega arith) (omega arith)
              (omega arith) hi in
          elim (Bool-cases (is_updated s g r id_col)) [
            | inl on' ↦ rw on' (inr rest)
            | inr off ↦ rw off rest
          ]
      | inr ge ↦
          let here : id_col ≡ c = let le = ltb→le id_col c ge in omega arith in
          let on' : is_updated s g r id_col ≡ true = ap (is_updated s g r) here ∙ on in
          rw on'
            (inl (subst P (sym (same_update id_col col e (omega arith) ∙ ap (updated r) here)) h))
    ]
