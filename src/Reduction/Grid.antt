-- ===== src/Reduction/Grid.antt =====
-- The loop across the grid of `AssignReduction::eval` (src/operations/blas1_trees.hpp): which operands
-- an item takes, and that the items of all groups together take each operand once.
use native.Mathlib.Nat.{le-mul_of_pos_right, mul-pos}
use mathlib.Core.Path.{subst, ap₂}
use sycl_blas.Base.{
  ℕ, zero, suc, ◌+◌, ◌*◌, ltb, if◌then◌else◌, ◌<◌, ◌≤◌, ◌≡◌, sym, ap, ◌∙◌, arith, inl, inr, lt→ltb,
  le→ltb, ltb→lt, ltb→le, Bool-cases,
}
use sycl_blas.Base.Scalar.{Monoid}
use sycl_blas.Base.Sums.{
  sum, sum-add, sum-op, sum_comm, sum-mul, sum-unit, sum_congr, sum_extend, op-unit,
}
use sycl_blas.Reduction.{accumulate, grid_loop, item_value}
use sycl_blas.Reduction.Block.{IsReduction}

module _ {ℓ} {M : Type ℓ} (m : Monoid M) (h : ℕ → M) (n : ℕ) where
  -- The operands, and the unit beyond them.
  abbrev pub padded : ℕ → M
  padded k = if ltb k n then h k else m.unit

  pub padded_inside : (k : ℕ) → k < n → padded k ≡ h k
  padded_inside k q = rw (lt→ltb k n q)

  pub padded_outside : (k : ℕ) → n ≤ k → padded k ≡ m.unit
  padded_outside k q = rw (le→ltb k n q)

  -- What `rounds` rounds of an item from `k` on take: two operands in each.
  abbrev pub taken : ℕ → ℕ → ℕ → ℕ → M
  taken local_size stride k rounds =
      sum m rounds (λ t. m.op (padded (k + t * stride)) (padded (k + t * stride + local_size)))

  taken_shift :
      (local_size stride k rounds : ℕ)
      → taken local_size stride k (suc rounds)
        ≡ m.op
            (m.op (padded k) (padded (k + local_size)))
            (taken local_size stride (k + stride) rounds)
  unfolding sum
  taken_shift local_size stride k rounds =
      ap₂ m.op
        (ap₂ m.op (ap padded {x = k + 0 * stride} {y = k} (omega arith))
          (ap padded {x = k + 0 * stride + local_size} {y = k + local_size} (omega arith)))
        (sum_congr m rounds _ _ (λ t _.
          ap₂ m.op (ap padded {x = k + suc t * stride} {y = k + stride + t * stride} (omega arith))
            (ap padded {x = k + suc t * stride + local_size}
              {y = k + stride + t * stride + local_size} (omega arith))))

  taken_outside :
      (local_size stride k rounds : ℕ) → n ≤ k → taken local_size stride k rounds ≡ m.unit
  taken_outside local_size stride k rounds q =
      sum_congr m rounds _ (λ _. m.unit)
        (λ t _.
          ap₂ m.op (padded_outside (k + t * stride) (omega arith))
            (padded_outside (k + t * stride + local_size) (omega arith))
          ∙ m.unit-op m.unit)
      ∙ sum-unit m rounds

  -- All items of all groups together take each operand once.
  pub taken_all :
      (local_size groups : ℕ)
      → 0 < local_size
      → 0 < groups
      → sum m groups (λ g.
        sum m local_size
          (λ l. taken local_size (2 * (groups * local_size)) (2 * g * local_size + l) n))
        ≡ sum m n h
  taken_all local_size groups some_items some_groups =
      sum_congr m groups _ _ (λ g _. sum_comm m local_size n _)
      ∙ sum_comm m groups n _
      ∙ sum_congr m n _ _ (λ t _.
        sum_congr m groups _ _ (λ g _. one_group t g)
        ∙ sym (
            sum-mul m groups (local_size + local_size)
              (λ u. padded (t * (groups * (local_size + local_size)) + u))))
      ∙ sym (sum-mul m n (groups * (local_size + local_size)) padded)
      ∙ sum_extend m n (n * (groups * (local_size + local_size))) padded enough padded_outside
      ∙ sum_congr m n padded h padded_inside
    where
      enough : n ≤ n * (groups * (local_size + local_size))
      enough =
          le-mul_of_pos_right {m = groups * (local_size + local_size)} n
            (mul-pos {m = groups} {n = local_size + local_size} some_groups (omega arith))

      one_group :
          (t g : ℕ)
          → sum m local_size (λ l.
            m.op
              (padded (2 * g * local_size + l + t * (2 * (groups * local_size))))
              (padded (2 * g * local_size + l + t * (2 * (groups * local_size)) + local_size)))
            ≡ sum m (local_size + local_size) (λ j.
              padded
                (t * (groups * (local_size + local_size)) + (g * (local_size + local_size) + j)))
      one_group t g =
          sum_congr m local_size _ _ (λ l _.
            ap₂ m.op
              (ap padded {x = 2 * g * local_size + l + t * (2 * (groups * local_size))}
                {y = t * (groups * (local_size + local_size)) + (g * (local_size + local_size) + l)}
                (omega arith))
              (ap padded {x = 2 * g * local_size + l + t * (2 * (groups * local_size)) + local_size}
                {y = t * (groups * (local_size + local_size))
                  + (g * (local_size + local_size) + (local_size + l))}
                (omega arith)))
          ∙ sum-op m local_size _ _
          ∙ sym (sum-add m local_size local_size _)

module _ {ℓ ℓ' κ} {M : Type ℓ} {V : Type ℓ'} {m : Monoid M} {op : V → V → V} {init : V}
    {Leaf Acc : M → V → Type κ} (r : IsReduction m op init Leaf Acc) (h : ℕ → M) (rhs : ℕ → V)
    (n : ℕ) (leaves : (k : ℕ) → k < n → Leaf (h k) (rhs k)) where
  accumulate_lem :
      (local_size k : ℕ) {a : M} {val : V}
      → k < n
      → Acc a val
      → Acc
          (m.op a (m.op (padded m h n k) (padded m h n (k + local_size))))
          (accumulate op rhs n local_size k val)
  unfolding accumulate
  accumulate_lem local_size k {a} {val} q acc = elim (Bool-cases (ltb (k + local_size) n)) [
    | inl inside ↦ rw inside (
        subst (λ b. Acc b (op (op val (rhs k)) (rhs (k + local_size))))
          (m.op_assoc a (h k) (h (k + local_size))
            ∙ ap (m.op a) (ap (λ b. m.op b (h (k + local_size))) (sym (padded_inside m h n k q))))
          (r.step (r.step acc (leaves k q)) (leaves (k + local_size) (ltb→lt _ _ inside))))
    | inr outside ↦ rw outside (
        subst (λ b. Acc b (op val (rhs k)))
          (ap (m.op a) (sym (padded_inside m h n k q) ∙ sym (op-unit m _)))
          (r.step acc (leaves k q)))
  ]

  grid_loop_lem :
      (local_size global_size rounds k : ℕ) {a : M} {val : V}
      → Acc a val
      → Acc
          (m.op a (taken m h n local_size (2 * global_size) k rounds))
          (grid_loop op rhs n local_size global_size rounds k val)
  unfolding grid_loop sum
  grid_loop_lem local_size global_size zero k {a} {val} acc =
      subst (λ b. Acc b val) (sym (op-unit m a)) acc
  grid_loop_lem local_size global_size (suc rounds) k {a} {val} acc = elim (Bool-cases (ltb k n)) [
    | inl inside ↦
        rw (inside, grid_loop)
          (subst
            (λ b. Acc b (
              grid_loop op rhs n local_size global_size rounds (k + 2 * global_size)
                (accumulate op rhs n local_size k val)))
            (m.op_assoc a _ _
              ∙ ap (m.op a) (sym (taken_shift m h n local_size (2 * global_size) k rounds)))
            (grid_loop_lem local_size global_size rounds (k + 2 * global_size)
              (accumulate_lem local_size k (ltb→lt k n inside) acc)))
    | inr outside ↦
        rw (outside, grid_loop)
          (subst (λ b. Acc b val)
            (sym (op-unit m a)
              ∙ ap (m.op a) (
                  sym (
                    taken_outside m h n local_size (2 * global_size) k (suc rounds)
                      (ltb→le k n outside))))
            acc)
  ]

  -- The value of an item stands for all that it takes.
  pub item_value_lem :
      (local_size global_size group_id local_id : ℕ)
      → Acc
          (taken m h n local_size (2 * global_size) (2 * group_id * local_size + local_id) n)
          (item_value op init rhs n local_size global_size group_id local_id)
  unfolding item_value
  item_value_lem local_size global_size group_id local_id =
      subst (λ b. Acc b (item_value op init rhs n local_size global_size group_id local_id))
        (m.unit-op _)
        (grid_loop_lem local_size global_size n (2 * group_id * local_size + local_id) r.start)
