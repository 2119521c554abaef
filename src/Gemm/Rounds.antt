-- ===== src/Gemm/Rounds.antt =====
-- The rounds of a work group of the reference kernel: the matrices of the batch that it takes.
use native.Mathlib.Nat.{mod-add-div'}
use mathlib.Core.Path.{ap₂}
use sycl_blas.Base.{
  ℕ, zero, suc, ◌+◌, ◌-◌, ◌*◌, ◌/◌, ◌%◌, ◌<◌, ◌≤◌, ◌≡◌, ◌≢◌, Option, some, ap, ◌∙◌, arith, leb,
  false, lt→ltb, if◌then◌else◌,
}
use sycl_blas.Base.Division.{split_div, split_mod}
use sycl_blas.Base.Int.{pos, ◌+ℤ◌}
use sycl_blas.Base.Scalar.{Scalar, IsExact}
use sycl_blas.Views.{Store}
use sycl_blas.Kernel.{Write}
use sycl_blas.Kernel.Values.{get_elem?}
use sycl_blas.Gemm.{Gemm, m_, a_size, b_size, c_size, result, batch_loop, run_item}
use sycl_blas.Gemm.Batches.{rounds, batch_loop-rounds}
use sycl_blas.Gemm.Product.{c_entry, gemm_value, result_lem}

pub gt→leb : (a b : ℕ) → b < a → leb a b ≡ false
gt→leb a b h = ground arith

pub spread : (w t r z x batch : ℕ) → w + t * r ≡ batch → w * z + x + t * (z * r) ≡ batch * z + x
spread w t r z x batch e =
    let first : w * z + x + t * (z * r) ≡ (w + t * r) * z + x = omega arith in
    first ∙ ap (λ k. k * z + x) e

module _ {ℓ} {A : Type ℓ} (s : Scalar A) (g : Gemm A) where
  -- The write of a round.
  abbrev pub written : ℕ → ℕ → ℕ → Store A → Write A
  written a b c st = record {
    name = g.c_.data_.name;
    address = g.c_.disp +ℤ pos c;
    value = result s g a b c st;
  }

  pub same_write :
      (st : Store A) {a a' b b' c c' : ℕ}
      → a ≡ a'
      → b ≡ b'
      → c ≡ c'
      → some (written a b c st) ≡ some (written a' b' c' st)
  same_write st {a} {a'} {b} {b'} {c} {c'} p q r =
      ap (λ t. some (written t b c st)) p
      ∙ ap (λ t. some (written a' t c st)) q
      ∙ ap (λ t. some (written a' b' t st)) r

  -- A work group takes every matrix from its first one on, `batch_stride` apart.
  rounds_lem :
      (fuel wg_batch_id batch_stride left a b c : ℕ) (st : Store A) (t : ℕ)
      → 0 < batch_stride
      → left ≤ fuel
      → wg_batch_id + t * batch_stride < left
      → get_elem? (rounds s g fuel wg_batch_id batch_stride left a b c st) t
        ≡ some (
            written
              (a + t * (a_size g * batch_stride))
              (b + t * (b_size g * batch_stride))
              (c + t * (c_size g * batch_stride))
              st)
  unfolding rounds get_elem?
  rounds_lem zero w d left a b c st t pd enough h = absurd (omega arith)
  rounds_lem (suc fuel) w d left a b c st zero pd enough h =
      same_write st (omega arith) (omega arith) (omega arith)
  rounds_lem (suc fuel) w d left a b c st (suc t) pd enough h =
      rw (lt→ltb w (left - d) (omega arith)) (
        rounds_lem fuel w d (left - d) (a + a_size g * d) (b + b_size g * d) (c + c_size g * d) st t
          pd (omega arith) (omega arith)
        ∙ same_write st (omega arith) (omega arith) (omega arith))

  -- The round of an item that takes a given matrix writes the entry of the product.
  pub run_item_lem :
      (exact : IsExact s) (repeats batch row col : ℕ) (st : Store A)
      → g.a_.data_.name ≢ g.c_.data_.name
      → g.b_.data_.name ≢ g.c_.data_.name
      → 0 < c_size g * repeats
      → 0 < repeats
      → batch < g.batch_size
      → row < m_ g
      → get_elem? (run_item s g (batch % repeats) repeats (row + col * m_ g) st) (batch / repeats)
        ≡ some (record {
          name = g.c_.data_.name;
          address = g.c_.disp +ℤ pos (c_entry g batch row col);
          value = gemm_value exact g st batch row col;
        })
  unfolding run_item
  run_item_lem exact repeats batch row col st other_a other_b far hp hb hr =
      ap₂ at_entry (split_mod col row (m_ g) hr) (split_div col row (m_ g) hr)
      ∙ ap (λ ws. get_elem? ws t)
          (batch_loop-rounds s g other_a other_b g.batch_size w repeats g.batch_size _ _ _ st far)
      ∙ rounds_lem g.batch_size w repeats g.batch_size _ _ _ st t hp (omega arith) (omega arith)
      ∙ same_write st (spread w t repeats (a_size g) _ batch batch_eq)
          (spread w t repeats (b_size g) _ batch batch_eq)
          (spread w t repeats (c_size g) _ batch batch_eq)
      ∙ ap
          (λ v. some (record {
            name = g.c_.data_.name;
            address = g.c_.disp +ℤ pos (c_entry g batch row col);
            value = v;
          }))
          (result_lem exact g batch row col st)
    where
      w : ℕ
      w = batch % repeats

      t : ℕ
      t = batch / repeats

      batch_eq : w + t * repeats ≡ batch
      batch_eq = mod-add-div' batch repeats

      at_entry : ℕ → ℕ → Option (Write A)
      at_entry x y =
          get_elem?
            (batch_loop s g g.batch_size w repeats g.batch_size
              (w * a_size g + x * (if g.trans_a then g.a_.leading else 1))
              (w * b_size g + y * (if g.trans_b then 1 else g.b_.leading))
              (w * c_size g + (x + y * g.c_.leading)) st)
            t
