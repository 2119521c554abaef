-- ===== src/Trsm/Inverter/Launch.antt =====
-- The launch of the inverter: each work group writes the inverse of its block.
use mathlib.Core.Path.{ap₂}
use native.Mathlib.Nat.{mod-lt, mod-add-div', mul-le-mul_right}
use sycl_blas.Base.{
  ℕ, zero, suc, ◌+◌, ◌*◌, ◌/◌, ◌%◌, ◌<◌, ◌≤◌, ◌≡◌, ◌≢◌, some, List, refl, sym, ap, ◌∙◌, arith,
  if◌then◌else◌,
}
use sycl_blas.Base.Int.{ℤ, pos, ◌+ℤ◌, pos_offset_injective}
use sycl_blas.Base.Scalar.{Scalar}
use sycl_blas.Views.{Store}
use sycl_blas.Views.Matrix.{flat_injective}
use sycl_blas.Kernel.{Write, launch, apply_all, IsIndependent}
use sycl_blas.Kernel.Order.{launch_at, launch_other}
use sycl_blas.Kernel.Values.{get_elem?, some_injective, All-get_elem?, apply_all_value}
use sycl_blas.Base.Division.{split_div, split_mod}
use sycl_blas.Trsm.Inverter.{
  Local, DiagonalBlocksInverter, invert, is_in_range, src_block_offset, dest_block_offset,
  load_block, write_row, inverter_eval,
}

module _ {ℓ} {A : Type ℓ} (s : Scalar A) (d : DiagonalBlocksInverter) where
  dest_eq :
      (block : ℕ)
      → 0 < d.block_size
      → dest_block_offset s d block ≡ block * d.block_size * d.block_size
  unfolding dest_block_offset
  dest_eq block h =
      ap
        (λ q.
          block / q * d.block_size * d.block_size
          + block % q * (d.block_size * d.block_size + d.block_size))
        (ap (λ x. x / d.block_size) {x = d.block_size} {y = 0 + 1 * d.block_size} (omega arith)
          ∙ split_div 1 0 d.block_size h)
      ∙ ap₂
          (λ x y.
            x * d.block_size * d.block_size + y * (d.block_size * d.block_size + d.block_size))
          (ap (λ x. x / 1) {x = block} {y = 0 + block * 1} (omega arith)
            ∙ split_div block 0 1 (omega arith))
          (ap (λ x. x % 1) {x = block} {y = 0 + block * 1} (omega arith)
            ∙ split_mod block 0 1 (omega arith))
      ∙ omega arith

  -- The place of an element of an inverted block.
  abbrev pub inverse_place : ℕ → ℕ → ℕ → ℤ
  inverse_place block i j =
      d.inv_a_.disp +ℤ pos (j * d.block_size + i + block * d.block_size * d.block_size)

  inverse_place_injective :
      (block i j block' i' j' : ℕ)
      → (i < d.block_size) × (j < d.block_size)
      → (i' < d.block_size) × (j' < d.block_size)
      → inverse_place block i j ≡ inverse_place block' i' j'
      → (block ≡ block') × (i ≡ i') × (j ≡ j')
  inverse_place_injective block i j block' i' j' (hi, hj) (hi', hj') e =
      let flat = pos_offset_injective d.inv_a_.disp _ _ e in
      let lines =
        flat_injective d.block_size i (j + d.block_size * block) i' (j' + d.block_size * block') hi
          hi' (omega (arith, flat)) in
      let columns = flat_injective d.block_size j block j' block' hj hj' lines.1 in
      (columns.1, lines.0, columns.0)

  abbrev row_write : ℕ → ℕ → Local A → ℕ → Write A
  row_write block i local j = record {
    name = d.inv_a_.data_.name;
    address = inverse_place block i j;
    value = local i j;
  }

  module _ (some_items : 0 < d.block_size) where
    write_row_at :
        (block i j count t : ℕ) (local : Local A)
        → t < count
        → get_elem? (write_row s d block i j count local) t ≡ some (row_write block i local (j + t))
    unfolding write_row get_elem?
    write_row_at block i j zero t local h = elim h [ ]
    write_row_at block i j (suc count) zero local h =
        ap₂
          (λ a v.
            some
              (record { name = d.inv_a_.data_.name; address = d.inv_a_.disp +ℤ pos a; value = v }))
          (ap (λ b. j * d.block_size + i + b) (dest_eq block some_items)
            ∙ ap (λ k. k * d.block_size + i + block * d.block_size * d.block_size) {x = j}
                {y = j + 0} (omega arith))
          (ap (local i) {x = j} {y = j + 0} (omega arith))
    write_row_at block i j (suc count) (suc t) local h =
        write_row_at block i (suc j) count t local (omega arith)
        ∙ ap (λ k. some (row_write block i local k)) {x = suc j + t} {y = j + suc t} (omega arith)

    write_row_only :
        (block i j count t : ℕ) (local : Local A) (x : Write A)
        → get_elem? (write_row s d block i j count local) t ≡ some x
        → t < count
    unfolding write_row get_elem?
    write_row_only block i j zero t local x e = cc (e)
    write_row_only block i j (suc count) zero local x e = omega arith
    write_row_only block i j (suc count) (suc t) local x e =
        let h = write_row_only block i (suc j) count t local x e in omega arith

    write_row_value :
        (block i t : ℕ) (local : Local A) (x : Write A)
        → get_elem? (write_row s d block i 0 d.block_size local) t ≡ some x
        → (t < d.block_size) × (row_write block i local t ≡ x)
    write_row_value block i t local x e =
        let h = write_row_only block i 0 d.block_size t local x e in
        (
          h,
          some_injective (
              ap (λ k. some (row_write block i local k)) {x = t} {y = 0 + t} (omega arith)
              ∙ sym (write_row_at block i 0 d.block_size t local h)
              ∙ e),
        )

  module _ (some_items : 0 < d.block_size) (blocks : ℕ)
      (apart : d.a_.data_.name ≢ d.inv_a_.data_.name) where
    abbrev plan : ℕ → Store A → List (Write A)
    plan = inverter_eval s d

    abbrev inverted : ℕ → Store A → Local A
    inverted block st = invert s d.unit_diag d.upper d.block_size (load_block s d block st)

    abbrev Owned : ℕ → ℤ → Type 0
    Owned i a =
        (j : ℕ) × (j < d.block_size) × (inverse_place (i / d.block_size) (i % d.block_size) j ≡ a)

    load_block_congr :
        (st st' : Store A) (block : ℕ)
        → ((x : ℤ) → st d.a_.data_.name x ≡ st' d.a_.data_.name x)
        → load_block s d block st ≡ load_block s d block st'
    unfolding load_block
    load_block_congr st st' block same k i j =
        if is_in_range s d block i j
        then same (d.a_.disp +ℤ pos (j * d.a_.leading + i + src_block_offset s d block)) k
        else s.zero

    plan_write :
        (i : ℕ) (st : Store A) (t : ℕ) (x : Write A)
        → get_elem? (plan i st) t ≡ some x
        → (t < d.block_size)
          × (row_write (i / d.block_size) (i % d.block_size) (inverted (i / d.block_size) st) t ≡ x)
    unfolding inverter_eval
    plan_write i st t x e = write_row_value some_items _ _ t _ x e

    independent :
        IsIndependent
          (blocks * d.block_size)
          plan
          (λ i b a. b ≡ d.inv_a_.data_.name → Owned i a)
          (λ i b a. (b ≡ d.inv_a_.data_.name) × Owned i a)
    unfolding inverter_eval
    independent = record {
      frame = λ i st st' h same.
          ap
            (λ l.
              write_row s d (i / d.block_size) (i % d.block_size) 0 d.block_size
                (invert s d.unit_diag d.upper d.block_size l))
            (load_block_congr st st' (i / d.block_size)
              (λ x. same d.a_.data_.name x (λ e. absurd (apart e))));
      within = λ i st h.
          All-get_elem? (λ w. (w.name ≡ d.inv_a_.data_.name) × Owned i w.address) (plan i st)
            (λ t x e.
              let w = plan_write i st t x e in
              (sym (ap (λ y. y.name) w.1), (t, w.0, ap (λ y. y.address) w.1)));
      owned = λ i b a h w _. w.1;
      apart = λ i j b a hi hj ne w t.
          let p = w.1 in
          let q = t w.0 in
          let same =
            inverse_place_injective (i / d.block_size) (i % d.block_size) p.0 (j / d.block_size)
              (j % d.block_size) q.0 (mod-lt i some_items, p.1) (mod-lt j some_items, q.1)
              (p.2 ∙ sym q.2) in
          ne (
            sym (mod-add-div' i d.block_size)
            ∙ ap₂ (λ x y. x + y * d.block_size) same.1 same.0
            ∙ mod-add-div' j d.block_size);
    }

    -- What the launch leaves in the buffer of the inverses.
    pub launch_block :
        (st : Store A) (block i j : ℕ)
        → block < blocks
        → i < d.block_size
        → j < d.block_size
        → launch (blocks * d.block_size) plan st d.inv_a_.data_.name (inverse_place block i j)
          ≡ inverted block st i j
    unfolding inverter_eval
    launch_block st block i j hb hi hj =
        launch_at independent st item d.inv_a_.data_.name (inverse_place block i j) inside
          (λ _. (j, hj, ap₂ (λ x y. inverse_place x y j) place_block place_row))
        ∙ ap₂
            (λ b r.
              apply_all (write_row s d b r 0 d.block_size (inverted b st)) st d.inv_a_.data_.name
                (inverse_place block i j))
            place_block place_row
        ∙ apply_all_value _ st _ _ _
            (λ t x e n a.
              let w = write_row_value some_items block i t (inverted block st) x e in
              let same =
                inverse_place_injective block i t block i j (hi, w.0) (hi, hj)
                  (ap (λ y. y.address) w.1 ∙ a) in
              sym (ap (λ y. y.value) w.1) ∙ ap (inverted block st i) same.2)
            j (row_write block i (inverted block st) j)
            (write_row_at some_items block i 0 d.block_size j (inverted block st) hj
              ∙ ap (λ k. some (row_write block i (inverted block st) k)) {x = 0 + j} {y = j}
                  (omega arith))
            refl refl
      where
        item : ℕ
        item = i + block * d.block_size

        inside : item < blocks * d.block_size
        inside =
            let h : suc block * d.block_size ≤ blocks * d.block_size =
              mul-le-mul_right d.block_size (omega arith) in
            omega arith

        place_block : item / d.block_size ≡ block
        place_block = split_div block i d.block_size hi

        place_row : item % d.block_size ≡ i
        place_row = split_mod block i d.block_size hi

    -- The other buffers are as before.
    pub launch_elsewhere :
        (st : Store A) (b : ℕ) (x : ℤ)
        → b ≢ d.inv_a_.data_.name
        → launch (blocks * d.block_size) plan st b x ≡ st b x
    launch_elsewhere st b x ne = launch_other independent st b x (λ j hj w. ne w.0)
