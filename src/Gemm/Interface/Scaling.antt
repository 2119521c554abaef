-- ===== src/Gemm/Interface/Scaling.antt =====
-- `_gemm_backend` where alpha is zero: both ways to scale C do the same.
use mathlib.Core.Path.{subst}
use native.Mathlib.Decide.{ℕ_discrete}
use native.Mathlib.Nat.{mul-le-mul_right}
use sycl_blas.Base.{
  ℕ, zero, suc, ◌+◌, ◌-◌, ◌*◌, ◌<◌, ◌≤◌, ◌≡◌, ◌⊎◌, inl, inr, refl, sym, ap, ◌∙◌, arith,
  if◌then◌else◌,
}
use sycl_blas.Base.Int.{ℤ, pos, ◌+ℤ◌, ◌-ℤ◌, pos_part, int_laws, pos-+ℤ, pos_offset_injective}
use sycl_blas.Base.Scalar.{Scalar}
use sycl_blas.Container.{BufferIterator, advance, get_size}
use sycl_blas.Views.{Store}
use sycl_blas.Views.Matrix.{flat_injective}
use sycl_blas.Executor.{Executor}
use sycl_blas.Blas1.{scal}
use sycl_blas.Blas1.Vectors.{IsVector}
use sycl_blas.Blas1.Updates.{scal_lem}
use sycl_blas.Gemm.Interface.{scale_columns}

-- `columns` columns of `m` elements, `ldc` apart, lie in the buffer.
pub record IsMatrix (c : BufferIterator) (m columns ldc : ℕ) : Type 0 where
  pub start : ℕ
  pub at : c.offset ≡ pos start
  pub apart : m ≤ ldc
  pub enough : (columns ≡ 0) ⊎ (start + (columns - 1) * ldc + m ≤ c.buffer.get_count)

-- The entry of a column.
abbrev pub entry : BufferIterator → ℕ → ℕ → ℕ → ℤ
entry c ldc k row = c.offset +ℤ pos (k * ldc + row)

column_start :
    (c : BufferIterator) (m columns ldc k : ℕ) (im : IsMatrix c m columns ldc)
    → c.offset +ℤ pos (k * ldc) ≡ pos (im.start + k * ldc)
column_start c m columns ldc k im = ap (λ o. o +ℤ pos (k * ldc)) im.at ∙ pos-+ℤ im.start (k * ldc)

-- What is left behind a place is enough for a vector.
pub room :
    (count o m : ℕ) → o + m ≤ count → (m ≡ 0) ⊎ (1 + (m - 1) * 1 ≤ pos_part (pos count -ℤ pos o))
unfolding ◌-ℤ◌
room count o zero h = inl refl
room count o (suc m) h = inr (grind arith)

column_inside :
    (columns ldc k start m count : ℕ)
    → k < columns
    → (columns ≡ 0) ⊎ (start + (columns - 1) * ldc + m ≤ count)
    → start + k * ldc + m ≤ count
column_inside columns ldc k start m count h (inl e) = absurd (omega arith)
column_inside columns ldc k start m count h (inr enough) =
    let l : k * ldc ≤ (columns - 1) * ldc = mul-le-mul_right ldc (omega arith) in omega arith

pub entry_eq : (o : ℤ) (j row : ℕ) → o +ℤ pos j +ℤ pos (row * 1) ≡ o +ℤ pos (j + row)
entry_eq o j row =
    ap (λ t. o +ℤ pos j +ℤ pos t) {x = row * 1} {y = row} (omega arith) ∙ omega int_laws

entry_column :
    (c : BufferIterator) (ldc k row k' row' : ℕ)
    → row < ldc
    → row' < ldc
    → entry c ldc k row ≡ entry c ldc k' row'
    → k ≡ k'
entry_column c ldc k row k' row' h h' e =
    let same = pos_offset_injective c.offset (k * ldc + row) (k' * ldc + row') e in
    (flat_injective ldc row k row' k' h h' (omega arith)).1

module _ {ℓ} {A : Type ℓ} (s : Scalar A) (ex : Executor) (some_items : 0 < ex.work_group_size) where
  -- The new value of an entry.
  abbrev pub scaled : A → A → A
  scaled beta x = if s.equal beta s.zero then s.zero else s.mul beta x

  column-IsVector :
      (c : BufferIterator) (m columns ldc k : ℕ)
      → IsMatrix c m columns ldc
      → k < columns
      → IsVector (advance c (pos (k * ldc))) (pos 1) m
  unfolding get_size advance
  column-IsVector c m columns ldc k im h = record {
    start = im.start + k * ldc;
    at = column_start c m columns ldc k im;
    nonzero = λ e. cc (e);
    enough =
        subst (λ o. (m ≡ 0) ⊎ (1 + (m - 1) * 1 ≤ pos_part (pos c.buffer.get_count -ℤ o)))
          (sym (column_start c m columns ldc k im))
          (room c.buffer.get_count (im.start + k * ldc) m
            (column_inside columns ldc k im.start m c.buffer.get_count h im.enough));
  }

  -- One column.
  column_lem :
      (c : BufferIterator) (m columns ldc k : ℕ) (beta : A) (st : Store A)
      → IsMatrix c m columns ldc
      → k < columns
      → ((row : ℕ)
          → row < m
          → scal s ex m beta
              (advance c (pos (k * ldc)))
              (pos 1)
              st
              c.buffer.name
              (entry c ldc k row)
            ≡ scaled beta (st c.buffer.name (entry c ldc k row)))
        × ((b : ℕ) (a : ℤ)
            → ((row : ℕ) → row < m → ¬ ((b ≡ c.buffer.name) × (a ≡ entry c ldc k row)))
            → scal s ex m beta (advance c (pos (k * ldc))) (pos 1) st b a ≡ st b a)
  unfolding advance
  column_lem c m columns ldc k beta st im h =
      let all =
        scal_lem s ex some_items m beta (advance c (pos (k * ldc))) (pos 1) st
          (column-IsVector c m columns ldc k im h) in
      (
        λ row l.
            subst
              (λ x.
                scal s ex m beta (advance c (pos (k * ldc))) (pos 1) st c.buffer.name x
                ≡ scaled beta (st c.buffer.name x))
              (entry_eq c.offset (k * ldc) row) (all.0 row l),
        λ b a miss. all.1 b a (λ row l e. miss row l (e.0, e.1 ∙ entry_eq c.offset (k * ldc) row)),
      )

  -- The columns from `i` on.
  pub scale_columns_lem :
      (c : BufferIterator) (m columns ldc n i : ℕ) (beta : A) (st : Store A)
      → IsMatrix c m columns ldc
      → i + n ≤ columns
      → ((k row : ℕ)
          → i ≤ k
          → k < i + n
          → row < m
          → scale_columns s ex n i m beta c ldc st c.buffer.name (entry c ldc k row)
            ≡ scaled beta (st c.buffer.name (entry c ldc k row)))
        × ((b : ℕ) (a : ℤ)
            → ((k row : ℕ)
                → i ≤ k
                → k < i + n
                → row < m
                → ¬ ((b ≡ c.buffer.name) × (a ≡ entry c ldc k row)))
            → scale_columns s ex n i m beta c ldc st b a ≡ st b a)
  unfolding scale_columns
  scale_columns_lem c m columns ldc zero i beta st im h =
      (λ k row lo hi l. absurd (omega arith), λ b a miss. refl)
  scale_columns_lem c m columns ldc (suc n) i beta st im h =
      let column = column_lem c m columns ldc i beta st im (omega arith) in
      let rest =
        scale_columns_lem c m columns ldc n (suc i) beta
          (scal s ex m beta (advance c (pos (i * ldc))) (pos 1) st) im (omega arith) in
      (
        λ k row lo hi l. elim (ℕ_discrete k i) [
          | yes e ↦
              rest.1 c.buffer.name (entry c ldc k row) (λ k' row' lo' hi' l' q.
                let q' =
                  entry_column c ldc k row k' row' (omega (arith, im.apart))
                    (omega (arith, im.apart)) q.1 in
                absurd (omega arith))
              ∙ subst
                  (λ j.
                    scal s ex m beta (advance c (pos (i * ldc))) (pos 1) st c.buffer.name
                      (entry c ldc j row)
                    ≡ scaled beta (st c.buffer.name (entry c ldc j row)))
                  (sym e) (column.0 row l)
          | no ne ↦
              rest.0 k row (omega arith) (omega arith) l
              ∙ ap (scaled beta) (
                  column.1 c.buffer.name (entry c ldc k row) (λ row' l' q. ne (
                    entry_column c ldc k row i row' (omega (arith, im.apart))
                      (omega (arith, im.apart)) q.1)))
        ],
        λ b a miss.
            rest.1 b a (λ k row lo hi l. miss k row (omega arith) (omega arith) l)
            ∙ column.1 b a (λ row l. miss i row (omega arith) (omega arith) l),
      )
