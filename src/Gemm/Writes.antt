-- ===== src/Gemm/Writes.antt =====
-- What the items of the reference kernel write at all.
use native.Mathlib.Nat.{mod-lt, div-lt_iff_lt-mul}
use sycl_blas.Base.{
  ℕ, zero, suc, ◌+◌, ◌-◌, ◌*◌, ◌/◌, ◌%◌, ◌<◌, ◌≤◌, ◌≡◌, ◌≢◌, some, none, refl, sym, ap, ◌∙◌, arith,
  ltb, leb, ltb→lt, Bool-cases, inl, inr, true, false,
}
use sycl_blas.Base.Int.{pos, ◌+ℤ◌}
use sycl_blas.Base.Scalar.{Scalar, IsExact}
use sycl_blas.Views.{Store}
use sycl_blas.Kernel.{Write}
use sycl_blas.Kernel.Values.{get_elem?}
use sycl_blas.Gemm.{
  Gemm, m_, n_, a_size, b_size, c_size, run_item, gemm_eval, get_workgroup_cluster,
}
use sycl_blas.Gemm.Batches.{rounds, batch_loop-rounds, step_pos}
use sycl_blas.Gemm.Product.{c_entry, gemm_value, result_lem}
use sycl_blas.Gemm.Rounds.{written, same_write, spread}

pub leb→lt : (a b : ℕ) → leb a b ≡ false → b < a
leb→lt a b h = ground arith

pub positive_left : (m n k : ℕ) → k < m * n → 0 < m
positive_left zero n k h = absurd (omega arith)
positive_left (suc m) n k h = omega arith

module _ {ℓ} {A : Type ℓ} (g : Gemm A) where
  -- The first matrix of the batch of the item's work group, and the item's place in the cluster.
  abbrev pub first_batch : ℕ → ℕ
  first_batch i = i / g.wg_size / get_workgroup_cluster g

  abbrev pub item_place : ℕ → ℕ
  item_place i = i / g.wg_size % get_workgroup_cluster g * g.wg_size + i % g.wg_size

module _ {ℓ} {A : Type ℓ} (s : Scalar A) (g : Gemm A) where
  -- A round that writes is one for a matrix of the batch.
  rounds_only :
      (fuel w d left a b c : ℕ) (st : Store A) (t : ℕ) (x : Write A)
      → w < left
      → get_elem? (rounds s g fuel w d left a b c st) t ≡ some x
      → (w + t * d < left)
        × (some (
              written s g
                (a + t * (a_size g * d))
                (b + t * (b_size g * d))
                (c + t * (c_size g * d))
                st)
            ≡ some x)
  unfolding rounds get_elem?
  rounds_only zero w d left a b c st t x h e = cc (e)
  rounds_only (suc fuel) w d left a b c st zero x h e =
      (omega arith, same_write s g st (omega arith) (omega arith) (omega arith) ∙ e)
  rounds_only (suc fuel) w d left a b c st (suc t) x h e = elim (Bool-cases (ltb w (left - d))) [
    | inl more ↦
        let later =
          rounds_only fuel w d (left - d) (a + a_size g * d) (b + b_size g * d) (c + c_size g * d)
            st t x (ltb→lt w (left - d) more) (sym (go more) ∙ e) in
        (
          (let l = later.0 in omega arith),
          same_write s g st (omega arith) (omega arith) (omega arith) ∙ later.1,
        )
    | inr done ↦ cc (sym (stop done) ∙ e)
  ]
    where
      go :
          ltb w (left - d) ≡ true
          → get_elem? (rounds s g (suc fuel) w d left a b c st) (suc t)
            ≡ get_elem?
                (rounds s g fuel w d
                  (left - d)
                  (a + a_size g * d)
                  (b + b_size g * d)
                  (c + c_size g * d)
                  st)
                t
      go more = rw more

      stop :
          ltb w (left - d) ≡ false
          → get_elem? (rounds s g (suc fuel) w d left a b c st) (suc t) ≡ none
      stop done = rw done

  -- The write of an item for an entry of a matrix of the batch.
  abbrev pub entry_write : (exact : IsExact s) → Store A → ℕ → ℕ → ℕ → Write A
  entry_write exact st batch row col = record {
    name = g.c_.data_.name;
    address = g.c_.disp +ℤ pos (c_entry g batch row col);
    value = gemm_value exact g st batch row col;
  }

  run_item_only :
      (exact : IsExact s) (w d item : ℕ) (st : Store A) (t : ℕ) (x : Write A)
      → g.a_.data_.name ≢ g.c_.data_.name
      → g.b_.data_.name ≢ g.c_.data_.name
      → 0 < c_size g * d
      → w < g.batch_size
      → get_elem? (run_item s g w d item st) t ≡ some x
      → (w + t * d < g.batch_size)
        × (some (entry_write exact st (w + t * d) (item % m_ g) (item / m_ g)) ≡ some x)
  unfolding run_item
  run_item_only exact w d item st t x other_a other_b far h e =
      let round = rounds_only g.batch_size w d g.batch_size _ _ _ st t x h (
        ap (λ ws. get_elem? ws t)
          (sym (batch_loop-rounds s g other_a other_b g.batch_size w d g.batch_size _ _ _ st far))
        ∙ e) in
      (
        round.0,
        ap
              (λ v. some (record {
                name = g.c_.data_.name;
                address = g.c_.disp +ℤ pos (c_entry g (w + t * d) (item % m_ g) (item / m_ g));
                value = v;
              }))
              (sym (result_lem exact g (w + t * d) (item % m_ g) (item / m_ g) st))
            ∙ same_write s g st (sym (spread w t d (a_size g) _ _ refl))
                (sym (spread w t d (b_size g) _ _ refl)) (sym (spread w t d (c_size g) _ _ refl))
            ∙ round.1,
      )

  -- What an item writes in a round, by its index.
  pub gemm_eval_round :
      (exact : IsExact s) (groups i : ℕ) (st : Store A) (t : ℕ) (x : Write A)
      → g.a_.data_.name ≢ g.c_.data_.name
      → g.b_.data_.name ≢ g.c_.data_.name
      → m_ g ≤ g.c_.leading
      → 0 < groups / get_workgroup_cluster g
      → get_elem? (gemm_eval s g groups i st) t ≡ some x
      → (first_batch g i + t * (groups / get_workgroup_cluster g) < g.batch_size)
        × (item_place g i < m_ g * n_ g)
        × (some (
              entry_write exact st
                (first_batch g i + t * (groups / get_workgroup_cluster g))
                (item_place g i % m_ g)
                (item_place g i / m_ g))
            ≡ some x)
  unfolding gemm_eval get_elem?
  gemm_eval_round exact groups i st t x other_a other_b wide stride e =
      elim (Bool-cases (leb g.batch_size w)) [
        | inl idle ↦ cc (sym (no_batch idle) ∙ e)
        | inr busy ↦ elim (Bool-cases (leb (m_ g * n_ g) item)) [
          | inl beyond ↦ cc (sym (no_entry busy beyond) ∙ e)
          | inr inside ↦
              let round =
                run_item_only exact w (groups / get_workgroup_cluster g) item st t x other_a other_b
                  (step_pos g item (groups / get_workgroup_cluster g) wide
                    (leb→lt (m_ g * n_ g) item inside) stride)
                  (leb→lt g.batch_size w busy) (sym (some_entry busy inside) ∙ e) in
              (round.0, leb→lt (m_ g * n_ g) item inside, round.1)
        ]
      ]
    where
      w : ℕ
      w = first_batch g i

      item : ℕ
      item = item_place g i

      no_batch : leb g.batch_size w ≡ true → get_elem? (gemm_eval s g groups i st) t ≡ none
      no_batch idle = rw idle

      no_entry :
          leb g.batch_size w ≡ false
          → leb (m_ g * n_ g) item ≡ true
          → get_elem? (gemm_eval s g groups i st) t ≡ none
      no_entry busy beyond = rw (busy, beyond)

      some_entry :
          leb g.batch_size w ≡ false
          → leb (m_ g * n_ g) item ≡ false
          → get_elem? (gemm_eval s g groups i st) t
            ≡ get_elem? (run_item s g w (groups / get_workgroup_cluster g) item st) t
      some_entry busy inside = rw (busy, inside)

  -- On every grid with a whole cluster of work groups, an item writes nothing but entries of the
  -- matrices of the batch in C, each with the entry of the product of the memory before, with exact
  -- arithmetic, where A and B are in other buffers than C and the leading dimension of C is at least the
  -- number of its rows.
  pub gemm_eval_only :
      (exact : IsExact s) (groups i : ℕ) (st : Store A) (t : ℕ) (x : Write A)
      → g.a_.data_.name ≢ g.c_.data_.name
      → g.b_.data_.name ≢ g.c_.data_.name
      → m_ g ≤ g.c_.leading
      → 0 < groups / get_workgroup_cluster g
      → get_elem? (gemm_eval s g groups i st) t ≡ some x
      → (batch : ℕ) × (row : ℕ) × (col : ℕ) × (batch < g.batch_size)
        × (row < m_ g)
        × (col < n_ g)
        × (some (record {
          name = g.c_.data_.name;
          address = g.c_.disp +ℤ pos (c_entry g batch row col);
          value = gemm_value exact g st batch row col;
        })
            ≡ some x)
  gemm_eval_only exact groups i st t x other_a other_b wide stride e =
      let round = gemm_eval_round exact groups i st t x other_a other_b wide stride e in
      let rows = positive_left (m_ g) (n_ g) (item_place g i) round.1 in
      (
        first_batch g i + t * (groups / get_workgroup_cluster g),
        item_place g i % m_ g,
        item_place g i / m_ g,
        round.0,
        mod-lt (item_place g i) rows,
        (div-lt_iff_lt-mul rows).1 (omega (arith, round.1)),
        round.2,
      )
