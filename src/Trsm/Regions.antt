-- ===== src/Trsm/Regions.antt =====
-- Calls of `_gemm` on a part of a matrix.
use mathlib.Core.Path.{ap₂, subst}
use native.Mathlib.Nat.{mul-le-mul_right}
use sycl_blas.Base.{
  ℕ, zero, suc, ◌+◌, ◌-◌, ◌*◌, ◌<◌, ◌≤◌, ◌≡◌, ◌≢◌, ◌⊎◌, inl, inr, Bool, refl, sym, ap, ◌∙◌, arith,
  Result, ok,
}
use sycl_blas.Base.Int.{ℤ, pos, ◌+ℤ◌, int_laws, pos-+ℤ, pos_offset_injective}
use sycl_blas.Base.Scalar.{Scalar, IsExact}
use sycl_blas.Base.Matrices.{total}
use sycl_blas.Container.{BufferIterator, advance}
use sycl_blas.Views.{Store}
use sycl_blas.Views.Matrix.{flat_injective}
use sycl_blas.Gemm.Call.{GemmCall, IsGemm, entry_at, op_entry, letter}
use sycl_blas.Gemm.Interface.Scaling.{IsMatrix}
use sycl_blas.Trsm.Calls.{shift}

-- The first iterator points at an entry of the matrix at the second one.
pub record IsAt (it base : BufferIterator) (leading row col : ℕ) : Type 0 where
  pub buffer : it.buffer ≡ base.buffer
  pub offset : it.offset ≡ base.offset +ℤ pos (row + col * leading)

pub shift-IsAt :
    (it : BufferIterator) (leading row col o : ℕ)
    → o ≡ row + col * leading
    → IsAt (shift it o) it leading row col
unfolding advance
shift-IsAt it leading row col o e = record {
  buffer = refl;
  offset = ap (λ x. it.offset +ℤ pos x) e;
}

pub self-IsAt : (it : BufferIterator) (leading : ℕ) → IsAt it it leading 0 0
self-IsAt it leading = record { buffer = refl; offset = omega int_laws }

pub shift-shift-IsAt :
    (it : BufferIterator) (leading row o : ℕ) → IsAt (shift (shift it row) o) it leading (row + o) 0
unfolding advance
shift-shift-IsAt it leading row o = record { buffer = refl; offset = omega int_laws }

part_enough :
    (n cols col row m rows leading start count : ℕ)
    → row + m ≤ rows
    → col + n ≤ cols
    → (cols ≡ 0) ⊎ (start + (cols - 1) * leading + rows ≤ count)
    → (n ≡ 0) ⊎ (start + (row + col * leading) + (n - 1) * leading + m ≤ count)
part_enough zero cols col row m rows leading start count hr hc enough = inl refl
part_enough (suc n) cols col row m rows leading start count hr hc (inl e) = inl (omega arith)
part_enough (suc n) cols col row m rows leading start count hr hc (inr e) =
    let h : (col + n) * leading ≤ (cols - 1) * leading = mul-le-mul_right leading (omega arith) in
    let last : (suc n - 1) * leading ≡ n * leading = ap (λ k. k * leading) (omega arith) in
    inr (omega arith)

module _ {it base : BufferIterator} {leading row col : ℕ} (at : IsAt it base leading row col) where
  address_eq :
      (r c : ℕ)
      → it.offset +ℤ pos (r + c * leading) ≡ base.offset +ℤ pos (row + r + (col + c) * leading)
  address_eq r c =
      ap (λ o. o +ℤ pos (r + c * leading)) at.offset
      ∙ offset_eq (row + col * leading) (r + c * leading) _ (omega arith)
    where
      offset_eq : (x y z : ℕ) → x + y ≡ z → base.offset +ℤ pos x +ℤ pos y ≡ base.offset +ℤ pos z
      offset_eq x y z e = omega int_laws ∙ ap (λ k. base.offset +ℤ pos k) e

  pub entry_at-IsAt {ℓ} :
      {A : Type ℓ} (st : Store A) (r c r' c' : ℕ)
      → row + r ≡ r'
      → col + c ≡ c'
      → entry_at st it leading r c ≡ entry_at st base leading r' c'
  entry_at-IsAt st r c r' c' er ec =
      ap₂ st (ap (λ b. b.name) at.buffer)
        (address_eq r c ∙ ap₂ (λ x y. base.offset +ℤ pos (x + y * leading)) er ec)

  pub part-IsMatrix :
      (m n rows cols : ℕ)
      → IsMatrix base rows cols leading
      → row + m ≤ rows
      → col + n ≤ cols
      → IsMatrix it m n leading
  part-IsMatrix m n rows cols im hr hc = record {
    start = im.start + (row + col * leading);
    at = at.offset ∙ ap (λ o. o +ℤ pos (row + col * leading)) im.at ∙ pos-+ℤ im.start _;
    apart = let h = im.apart in omega arith;
    enough =
        subst
          (λ b. (n ≡ 0) ⊎ (im.start + (row + col * leading) + (n - 1) * leading + m ≤ b.get_count))
          (sym at.buffer)
          (part_enough n cols col row m rows leading im.start base.buffer.get_count hr hc
            im.enough);
  }

-- What a call on a part of C does to the whole of it.
module _ {ℓ} {A : Type ℓ} {s : Scalar A} (exact : IsExact s)
    {run : GemmCall A → Store A → Result (Store A)} (gemm : IsGemm exact run)
    (base : BufferIterator) (rows cols leading row col : ℕ)
    (matrix : IsMatrix base rows cols leading) (call : GemmCall A) (trans_a trans_b : Bool)
    (letter_a : call.trans_a ≡ letter trans_a) (letter_b : call.trans_b ≡ letter trans_b)
    (same : call.ldc ≡ leading) (at : IsAt call.c_ base leading row col)
    (rows_fit : row + call.m ≤ rows) (cols_fit : col + call.n ≤ cols)
    (other_a : call.a_.buffer.name ≢ base.buffer.name)
    (other_b : call.b_.buffer.name ≢ base.buffer.name) (st : Store A) where
  -- The entry that the call computes.
  abbrev pub computed : ℕ → ℕ → ℕ → ℕ → A
  computed r c r' c' =
      s.add
        (s.mul call.alpha (
          total exact call.k (λ p.
            s.mul (op_entry st trans_a call.a_ call.lda r p)
              (op_entry st trans_b call.b_ call.ldb p c))))
        (s.mul call.beta (entry_at st base leading r' c'))

  name_eq : call.c_.buffer.name ≡ base.buffer.name
  name_eq = ap (λ b. b.name) at.buffer

  missed :
      (r c r' c' : ℕ)
      → r < leading
      → ((r < row) ⊎ (row + call.m ≤ r)) ⊎ ((c < col) ⊎ (col + call.n ≤ c))
      → r' < call.m
      → c' < call.n
      → ¬ (base.offset +ℤ pos (r + c * leading) ≡ call.c_.offset +ℤ pos (r' + c' * call.ldc))
  missed r c r' c' hr out hr' hc' e =
      let wide = matrix.apart in
      let flat : r + c * leading ≡ row + r' + (col + c') * leading =
        pos_offset_injective base.offset _ _
          (e ∙ ap (λ l. call.c_.offset +ℤ pos (r' + c' * l)) same ∙ address_eq at r' c') in
      let lines =
        flat_injective leading r c (row + r') (col + c') hr (omega arith) (omega (arith, flat)) in
      let row_eq = lines.0 in
      let col_eq = lines.1 in
      elim out [
        | inl o ↦ elim o [ inl l ↦ omega arith | inr l ↦ omega arith ]
        | inr o ↦ elim o [ inl l ↦ omega arith | inr l ↦ omega arith ]
      ]

  pub region_lem :
      (out : Store A) × (run call st ≡ ok out)
      × ((r c r' c' : ℕ)
          → r < call.m
          → c < call.n
          → row + r ≡ r'
          → col + c ≡ c'
          → entry_at out base leading r' c' ≡ computed r c r' c')
      × ((r c : ℕ)
          → r < leading
          → ((r < row) ⊎ (row + call.m ≤ r)) ⊎ ((c < col) ⊎ (col + call.n ≤ c))
          → entry_at out base leading r c ≡ entry_at st base leading r c)
      × ((b : ℕ) (x : ℤ) → b ≢ base.buffer.name → out b x ≡ st b x)
  region_lem = (
    all.0,
    all.1,
    λ r c r' c' hr hc er ec.
        sym (entry_at-IsAt at all.0 r c r' c' er ec)
        ∙ ap (λ l. entry_at all.0 call.c_ l r c) (sym same)
        ∙ all.2 r c hr hc
        ∙ ap
            (λ e.
              s.add
                (s.mul call.alpha (
                  total exact call.k (λ p.
                    s.mul (op_entry st trans_a call.a_ call.lda r p)
                      (op_entry st trans_b call.b_ call.ldb p c))))
                (s.mul call.beta e))
            (ap (λ l. entry_at st call.c_ l r c) same ∙ entry_at-IsAt at st r c r' c' er ec),
    λ r c hr out. all.3 base.buffer.name _ (λ r' c' hr' hc' e. missed r c r' c' hr out hr' hc' e.1),
    λ b x ne. all.3 b x (λ r' c' hr' hc' e. ne (e.0 ∙ name_eq)),
  )
    where
      all :
          (out : Store A) × (run call st ≡ ok out)
          × ((r c : ℕ)
              → r < call.m
              → c < call.n
              → entry_at out call.c_ call.ldc r c
                ≡ s.add
                    (s.mul call.alpha (
                      total exact call.k (λ p.
                        s.mul
                          (op_entry st trans_a call.a_ call.lda r p)
                          (op_entry st trans_b call.b_ call.ldb p c))))
                    (s.mul call.beta (entry_at st call.c_ call.ldc r c)))
          × ((b : ℕ) (x : ℤ)
              → ((r c : ℕ)
                  → r < call.m
                  → c < call.n
                  → ¬ ((b ≡ call.c_.buffer.name) × (x ≡ call.c_.offset +ℤ pos (r + c * call.ldc))))
              → out b x ≡ st b x)
      all =
          gemm.law call trans_a trans_b st letter_a letter_b
            (subst (λ l. IsMatrix call.c_ call.m call.n l) (sym same)
              (part-IsMatrix at call.m call.n rows cols matrix rows_fit cols_fit))
            (λ e. other_a (e ∙ name_eq)) (λ e. other_b (e ∙ name_eq))
