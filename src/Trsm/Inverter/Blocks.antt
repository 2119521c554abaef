-- ===== src/Trsm/Inverter/Blocks.antt =====
-- The inverse of each diagonal block, in memory.
use mathlib.Core.Path.{ap₂, subst}
use sycl_blas.Base.{
  ℕ, ◌+◌, ◌-◌, ◌*◌, ◌<◌, ◌≤◌, ◌≡◌, ◌≢◌, inl, inr, Bool, true, false, refl, sym, ap, ◌∙◌, arith, leb,
  min, lt→ltb, le→ltb, ◌&&◌, Bool-cases, if◌then◌else◌,
}
use sycl_blas.Base.Int.{pos, ◌+ℤ◌}
use sycl_blas.Base.Scalar.{Scalar, IsExact}
use sycl_blas.Base.Matrices.{total_congr, product, identity}
use sycl_blas.Views.{Store}
use sycl_blas.Kernel.{launch}
use sycl_blas.Gemm.Rounds.{gt→leb}
use sycl_blas.Trsm.Inverter.{
  Local, DiagonalBlocksInverter, invert, is_in_range, src_block_offset, load_block, inverter_eval,
}
use sycl_blas.Trsm.Inverter.Inverse.{IsTriangle, IsInvertible, inverse_lem}
use sycl_blas.Trsm.Inverter.Launch.{inverse_place, launch_block}

-- The triangle of a diagonal block: the elements of A on its side, and zero elsewhere.
abbrev pub block_triangle {ℓ} :
    {A : Type ℓ} → Scalar A → DiagonalBlocksInverter → ℕ → Store A → Local A
block_triangle s d block st i j =
    let row = block * d.block_size + i in
    let col = block * d.block_size + j in
    if (if d.upper then leb i j else leb j i)
    then st d.a_.data_.name (d.a_.disp +ℤ pos (row + col * d.a_.leading))
    else s.zero

pub IsInvertible-congr {ℓ} :
    {A : Type ℓ} (s : Scalar A) (unit_diag : Bool) (n : ℕ) (t t' : Local A)
    → ((j : ℕ) → j < n → t j j ≡ t' j j)
    → IsInvertible s unit_diag n t
    → IsInvertible s unit_diag n t'
IsInvertible-congr s true n t t' e h = λ j hj. sym (e j hj) ∙ h j hj
IsInvertible-congr s false n t t' e h =
    λ j hj. subst (λ x. s.mul (s.div s.one x) x ≡ s.one) (e j hj) (h j hj)

leb_yes : (a b : ℕ) → a ≤ b → leb a b ≡ true
leb_yes a b h = ground arith

-- How many rows of a block the matrix has.
abbrev pub block_rows : DiagonalBlocksInverter → ℕ → ℕ
block_rows d block = min d.block_size (d.a_.rows - block * d.block_size)

module _ {ℓ} {A : Type ℓ} {s : Scalar A} (exact : IsExact s)
    (add-neg : (x : A) → s.add x (s.neg x) ≡ s.zero) (d : DiagonalBlocksInverter) (blocks : ℕ)
    (some_items : 0 < d.block_size) (apart : d.a_.data_.name ≢ d.inv_a_.data_.name) where
  -- The entries that the launch leaves for a block.
  abbrev inverse : Store A → ℕ → Local A
  inverse st block i j =
      launch (blocks * d.block_size) (inverter_eval s d) st d.inv_a_.data_.name
        (inverse_place s d block i j)

  load_block-IsTriangle :
      (block : ℕ) (st : Store A) (u : Bool) → d.upper ≡ u → IsTriangle s u (load_block s d block st)
  unfolding load_block is_in_range
  load_block-IsTriangle block st true e = λ i j h. rw (e, gt→leb i j h)
  load_block-IsTriangle block st false e = λ i j h. rw (e, gt→leb j i h)

  load_block-beyond :
      (block : ℕ) (st : Store A) (i j : ℕ)
      → block_rows d block ≤ i
      → i < d.block_size
      → j < block_rows d block
      → load_block s d block st i j ≡ s.zero
  unfolding load_block is_in_range
  load_block-beyond block st i j lo hi hj = elim (Bool-cases d.upper) [
    | inl up ↦ rw (up, gt→leb i j (omega arith))
    | inr low ↦
        rw (
          low,
          le→ltb (block * d.block_size + i) d.a_.rows (omega arith),
          leb_yes j i (omega arith),
        )
  ]

  if_congr :
      (c r : Bool) (x y z : A) → r ≡ true → x ≡ y → (if c && r then x else z) ≡ (if c then y else z)
  if_congr true r x y z h e = rw h e
  if_congr false r x y z h e = refl

  load_block_lem :
      (block : ℕ) (st : Store A) (i j : ℕ)
      → i < block_rows d block
      → j < block_rows d block
      → load_block s d block st i j ≡ block_triangle s d block st i j
  unfolding load_block is_in_range src_block_offset
  load_block_lem block st i j hi hj = elim (Bool-cases d.upper) [
    | inl up ↦ rw up (
        if_congr (leb i j) _ _ _ s.zero (lt→ltb (block * d.block_size + j) d.a_.rows (omega arith))
          same)
    | inr low ↦ rw low (
        if_congr (leb j i) _ _ _ s.zero (lt→ltb (block * d.block_size + i) d.a_.rows (omega arith))
          same)
  ]
    where
      same :
          st d.a_.data_.name (
            d.a_.disp
            +ℤ pos (j * d.a_.leading + i + block * (d.block_size + d.a_.leading * d.block_size)))
          ≡ st d.a_.data_.name (
              d.a_.disp
              +ℤ pos (block * d.block_size + i + (block * d.block_size + j) * d.a_.leading))
      same = ap (λ k. st d.a_.data_.name (d.a_.disp +ℤ pos k)) (omega arith)

  -- The kernel of the diagonal blocks: what its launch leaves for a block is the inverse of the
  -- block's triangle in A, on both sides, for the rows that the matrix has, with exact arithmetic,
  -- where A is in another buffer, the elements of the diagonal have reciprocals, or are one for a unit
  -- diagonal, and blocks are not empty.
  pub inverter_launch_lem :
      (st : Store A) (block : ℕ)
      → block < blocks
      → IsInvertible s d.unit_diag (block_rows d block) (block_triangle s d block st)
      → (i j : ℕ) → i < block_rows d block
      → j < block_rows d block
      → (product exact (block_rows d block) (inverse st block) (block_triangle s d block st) i j
          ≡ identity exact i j)
        × (product exact (block_rows d block) (block_triangle s d block st) (inverse st block) i j
            ≡ identity exact i j)
  inverter_launch_lem st block hb invertible i j hi hj = (
    total_congr exact n _ _
          (λ k hk. ap₂ s.mul (stored i k hi hk) (sym (load_block_lem block st k j hk hj)))
        ∙ both.0 i j hi hj,
    total_congr exact n _ _
          (λ k hk. ap₂ s.mul (sym (load_block_lem block st i k hi hk)) (stored k j hk hj))
        ∙ both.1 i j hi hj,
  )
    where
      n : ℕ
      n = block_rows d block

      loaded : Local A
      loaded = load_block s d block st

      stored :
          (i j : ℕ)
          → i < block_rows d block
          → j < block_rows d block
          → inverse st block i j ≡ invert s d.unit_diag d.upper d.block_size loaded i j
      stored i j hi hj =
          launch_block s d some_items blocks apart st block i j hb (omega arith) (omega arith)

      both :
          ((i j : ℕ)
            → i < n
            → j < n
            → product exact n (invert s d.unit_diag d.upper d.block_size loaded) loaded i j
              ≡ identity exact i j)
          × ((i j : ℕ)
              → i < n
              → j < n
              → product exact n loaded (invert s d.unit_diag d.upper d.block_size loaded) i j
                ≡ identity exact i j)
      both =
          inverse_lem exact add-neg d.unit_diag d.upper n d.block_size (omega arith) (omega arith)
            loaded (load_block-IsTriangle block st d.upper refl) (load_block-beyond block st)
            (IsInvertible-congr s d.unit_diag n _ _
              (λ j hj. sym (load_block_lem block st j j hj hj)) invertible)
