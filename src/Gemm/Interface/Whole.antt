-- ===== src/Gemm/Interface/Whole.antt =====
-- `_gemm_backend` where alpha is zero: both ways to scale C do the same.
use mathlib.Core.Path.{subst}
use native.Mathlib.Nat.{mul-le-mul_right, mod-lt, div-add-mod', div-lt_iff_lt-mul}
use sycl_blas.Base.{
  ℕ, zero, suc, ◌+◌, ◌-◌, ◌*◌, ◌/◌, ◌%◌, ◌<◌, ◌≤◌, ◌≡◌, ◌⊎◌, inl, inr, refl, sym, ap, ◌∙◌, arith,
  if◌then◌else◌, ◌==◌, Bool-cases, ==_iff, ok, Bool, true,
}
use sycl_blas.Base.Int.{ℤ, pos, ◌+ℤ◌, ◌-ℤ◌, pos_part}
use sycl_blas.Base.Scalar.{Scalar}
use sycl_blas.Container.{BufferIterator, get_size}
use sycl_blas.Views.{Store}
use sycl_blas.Executor.{Executor}
use sycl_blas.Blas1.{scal}
use sycl_blas.Blas1.Vectors.{IsVector}
use sycl_blas.Blas1.Updates.{scal_lem}
use sycl_blas.Gemm.Interface.{scale_matrix, gemm_backend}
use sycl_blas.Gemm.Interface.Scaling.{IsMatrix, entry, scaled, room, scale_columns_lem}

matrix_room :
    (c : BufferIterator) (m n batch_size : ℕ)
    → IsMatrix c m (batch_size * n) m
    → (n * m * batch_size ≡ 0) ⊎ (1 + (n * m * batch_size - 1) * 1 ≤ pos_part (get_size c))
unfolding get_size
matrix_room c m n batch_size im = elim (im.enough) [
  | inl e ↦ let none_at_all : batch_size * n * m ≡ 0 * m = ap (λ t. t * m) e in inl (omega arith)
  | inr fits ↦
      let all : batch_size * n * m ≤ (batch_size * n - 1 + 1) * m =
        mul-le-mul_right m (omega arith) in
      subst
        (λ o.
          (n * m * batch_size ≡ 0)
          ⊎ (1 + (n * m * batch_size - 1) * 1 ≤ pos_part (pos c.buffer.get_count -ℤ o)))
        (sym im.at) (room c.buffer.get_count im.start (n * m * batch_size) (omega arith))
]

matrix-IsVector :
    (c : BufferIterator) (m n batch_size : ℕ)
    → IsMatrix c m (batch_size * n) m
    → IsVector c (pos 1) (n * m * batch_size)
matrix-IsVector c m n batch_size im = record {
  start = im.start;
  at = im.at;
  nonzero = λ e. cc (e);
  enough = matrix_room c m n batch_size im;
}

positive_rows : (n m batch_size i : ℕ) → i < n * m * batch_size → 0 < m
positive_rows n zero batch_size i h = absurd (omega arith)
positive_rows n (suc m) batch_size i h = omega arith

offset_eq : (o : ℤ) (i k m row : ℕ) → i ≡ k * m + row → o +ℤ pos (i * 1) ≡ o +ℤ pos (k * m + row)
offset_eq o i k m row e = ap (λ t. o +ℤ pos t) {x = i * 1} {y = k * m + row} (omega arith)

module _ {ℓ} {A : Type ℓ} (s : Scalar A) (ex : Executor) (some_items : 0 < ex.work_group_size) where
  -- Columns that touch, all at once.
  touching_lem :
      (c : BufferIterator) (m n batch_size : ℕ) (beta : A) (st : Store A)
      → IsMatrix c m (batch_size * n) m
      → ((k row : ℕ)
          → k < batch_size * n
          → row < m
          → scal s ex (n * m * batch_size) beta c (pos 1) st c.buffer.name (entry c m k row)
            ≡ scaled s ex some_items beta (st c.buffer.name (entry c m k row)))
        × ((b : ℕ) (a : ℤ)
            → ((k row : ℕ)
                → k < batch_size * n
                → row < m
                → ¬ ((b ≡ c.buffer.name) × (a ≡ entry c m k row)))
            → scal s ex (n * m * batch_size) beta c (pos 1) st b a ≡ st b a)
  touching_lem c m n batch_size beta st im =
      let all =
        scal_lem s ex some_items (n * m * batch_size) beta c (pos 1) st
          (matrix-IsVector c m n batch_size im) in
      (
        λ k row hk hr.
            let below : (k + 1) * m ≤ batch_size * n * m = mul-le-mul_right m (omega arith) in
            subst
              (λ x.
                scal s ex (n * m * batch_size) beta c (pos 1) st c.buffer.name x
                ≡ scaled s ex some_items beta (st c.buffer.name x))
              (offset_eq c.offset (k * m + row) k m row refl) (all.0 (k * m + row) (omega arith)),
        λ b a miss. all.1 b a (λ i h e.
            let some_rows : 0 < m = positive_rows n m batch_size i h in
            miss (i / m) (i % m) ((div-lt_iff_lt-mul some_rows).1 (omega arith))
              (mod-lt i some_rows)
              (e.0, e.1 ∙ offset_eq c.offset i (i / m) m (i % m) (sym (div-add-mod' i m)))),
      )

  -- All entries of the columns are multiplied by beta, or zero if that is what beta compares equal
  -- to, and nothing else has changed.
  abbrev pub IsScaled : BufferIterator → ℕ → ℕ → ℕ → A → Store A → Store A → Type ℓ
  IsScaled c m columns ldc beta st out =
      ((k row : ℕ)
        → k < columns
        → row < m
        → out c.buffer.name (entry c ldc k row) ≡ (
            if s.equal beta s.zero
            then s.zero
            else s.mul beta (st c.buffer.name (entry c ldc k row))))
      × ((b : ℕ) (a : ℤ)
          → ((k row : ℕ)
              → k < columns
              → row < m
              → ¬ ((b ≡ c.buffer.name) × (a ≡ entry c ldc k row)))
          → out b a ≡ st b a)

  scale_matrix_lem :
      (m n : ℕ) (beta : A) (c : BufferIterator) (ldc batch_size : ℕ) (st : Store A)
      → IsMatrix c m (batch_size * n) ldc
      → IsScaled c m (batch_size * n) ldc beta st (scale_matrix s ex m n beta c ldc batch_size st)
  unfolding scale_matrix
  scale_matrix_lem m n beta c ldc batch_size st im = elim (Bool-cases (ldc == m)) [
    | inl touch ↦
        let e : ldc ≡ m = (==_iff ldc m).0 touch in
        subst (IsScaled c m (batch_size * n) ldc beta st) (rw touch) (
          subst
            (λ l.
              IsScaled c m (batch_size * n) l beta st
                (scal s ex (n * m * batch_size) beta c (pos 1) st))
            (sym e)
            (touching_lem c m n batch_size beta st (subst (IsMatrix c m (batch_size * n)) e im)))
    | inr apart ↦ subst (IsScaled c m (batch_size * n) ldc beta st) (rw apart) (
        let all =
          scale_columns_lem s ex some_items c m (batch_size * n) ldc (batch_size * n) 0 beta st im
            (omega arith) in
        (
          λ k row h l. all.0 k row (omega arith) (omega arith) l,
          λ b a miss. all.1 b a (λ k row _ h l. miss k row (omega arith) l),
        ))
  ]

  -- Where alpha compares equal to zero the product is not computed: for matrices that lie in the buffer
  -- of C with columns that do not overlap, each entry of each matrix of the batch is multiplied by
  -- beta, or zero where beta compares equal to zero, and nothing else in memory changes; with touching
  -- columns or without.
  pub gemm_backend_lem :
      (kernel : Bool → Bool → Bool → Store A → Store A) (trans_a trans_b m n : ℕ) (alpha beta : A)
      (c : BufferIterator) (ldc batch_size : ℕ) (st : Store A)
      → s.equal alpha s.zero ≡ true
      → IsMatrix c m (batch_size * n) ldc
      → (out : Store A) × (gemm_backend s ex kernel trans_a trans_b m n alpha beta c ldc batch_size
            st
          ≡ ok out)
        × IsScaled c m (batch_size * n) ldc beta st out
  unfolding gemm_backend
  gemm_backend_lem kernel trans_a trans_b m n alpha beta c ldc batch_size st zero_alpha im = (
    scale_matrix s ex m n beta c ldc batch_size st,
    rw zero_alpha,
    scale_matrix_lem m n beta c ldc batch_size st im,
  )
