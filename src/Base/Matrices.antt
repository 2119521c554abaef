-- ===== src/Base/Matrices.antt =====
-- Products of finite matrices over exact arithmetic.
use sycl_blas.Base.{
  ℕ, zero, suc, ◌+◌, ◌-◌, ◌<◌, ◌≤◌, ◌≡◌, ◌≢◌, inl, inr, refl, sym, ap, ◌∙◌, arith, ◌==◌, ==_iff,
  Bool-cases, if◌then◌else◌,
}
use sycl_blas.Base.Scalar.{Scalar, IsExact, sum_monoid, add-zero, mul-zero}
use sycl_blas.Base.Sums.{sum, sum_congr, sum-unit, sum-add, sum_comm, op-unit}

-- The entries of a matrix, by row and column.
abbrev pub Entries {ℓ} : Type ℓ → Type ℓ
Entries A = ℕ → ℕ → A

module _ {ℓ} {A : Type ℓ} {s : Scalar A} (exact : IsExact s) where
  -- The sum of the terms below `n`.
  abbrev pub total : ℕ → (ℕ → A) → A
  total n f = sum (sum_monoid exact) n f

  pub total_congr : (n : ℕ) (f g : ℕ → A) → ((k : ℕ) → k < n → f k ≡ g k) → total n f ≡ total n g
  total_congr = sum_congr (sum_monoid exact)

  pub total_zero : (n : ℕ) (f : ℕ → A) → ((k : ℕ) → k < n → f k ≡ s.zero) → total n f ≡ s.zero
  total_zero n f h = total_congr n f (λ _. s.zero) h ∙ sum-unit (sum_monoid exact) n

  pub total_last : (n : ℕ) (f : ℕ → A) → total (n + 1) f ≡ s.add (total n f) (f n)
  unfolding sum
  total_last n f =
      sum-add (sum_monoid exact) n 1 f
      ∙ ap (s.add (total n f))
          (op-unit (sum_monoid exact) _ ∙ ap f {x = n + 0} {y = n} (omega arith))

  -- Terms that are zero from `n` on do not count.
  pub total_cut :
      (n size : ℕ) (f : ℕ → A)
      → n ≤ size
      → ((k : ℕ) → n ≤ k → k < size → f k ≡ s.zero)
      → total size f ≡ total n f
  total_cut n size f h z =
      ap (λ k. total k f) {x = size} {y = n + (size - n)} (omega arith)
      ∙ sum-add (sum_monoid exact) n (size - n) f
      ∙ ap (s.add (total n f))
          (total_zero (size - n) _ (λ k hk. z (n + k) (omega arith) (omega arith)))
      ∙ add-zero exact _

  pub mul-total : (x : A) (n : ℕ) (f : ℕ → A) → s.mul x (total n f) ≡ total n (λ k. s.mul x (f k))
  unfolding sum
  mul-total x zero f = mul-zero exact x
  mul-total x (suc n) f = exact.mul-add x _ _ ∙ ap (s.add (s.mul x (f 0))) (mul-total x n _)

  pub total-mul : (x : A) (n : ℕ) (f : ℕ → A) → s.mul (total n f) x ≡ total n (λ k. s.mul (f k) x)
  total-mul x n f =
      exact.mul_comm _ x ∙ mul-total x n f ∙ total_congr n _ _ (λ k _. exact.mul_comm x (f k))

  abbrev pub identity : Entries A
  identity i j = if i == j then s.one else s.zero

  pub identity_same : (i : ℕ) → identity i i ≡ s.one
  identity_same i = rw (==_iff i i).1 refl

  pub identity_other : (i j : ℕ) → i ≢ j → identity i j ≡ s.zero
  identity_other i j ne = elim (Bool-cases (i == j)) [
    | inl e ↦ absurd (ne ((==_iff i j).0 e))
    | inr e ↦ rw e
  ]

  abbrev pub product : ℕ → Entries A → Entries A → Entries A
  product n x y i j = total n (λ k. s.mul (x i k) (y k j))

  -- A sum with one term.
  pub total_one : (n j : ℕ) (f : ℕ → A) → j < n → ((k : ℕ) → k ≢ j → f k ≡ s.zero) → total n f ≡ f j
  total_one n j f h z =
      total_cut (j + 1) n f (omega arith) (λ k lo hi. z k (omega arith))
      ∙ total_last j f
      ∙ ap (λ t. s.add t (f j)) (total_zero j f (λ k hk. z k (omega arith)))
      ∙ exact.zero-add _

  pub total-identity :
      (n j : ℕ) (f : ℕ → A) → j < n → total n (λ k. s.mul (f k) (identity k j)) ≡ f j
  total-identity n j f h =
      total_one n j _ h (λ k ne. ap (s.mul (f k)) (identity_other k j ne) ∙ mul-zero exact _)
      ∙ ap (s.mul (f j)) (identity_same j)
      ∙ exact.mul_comm _ _
      ∙ exact.one-mul _

  pub identity-total :
      (n i : ℕ) (f : ℕ → A) → i < n → total n (λ k. s.mul (identity i k) (f k)) ≡ f i
  identity-total n i f h =
      total_one n i _ h
        (λ k ne. ap (λ t. s.mul t (f k)) (identity_other i k (λ e. ne (sym e))) ∙ exact.zero-mul _)
      ∙ ap (λ t. s.mul t (f i)) (identity_same i)
      ∙ exact.one-mul _

  -- A product of three factors, summed in either order.
  pub product_assoc :
      (n m : ℕ) (x : ℕ → A) (y : Entries A) (z : ℕ → A)
      → total n (λ k. s.mul (x k) (total m (λ l. s.mul (y k l) (z l))))
        ≡ total m (λ l. s.mul (total n (λ k. s.mul (x k) (y k l))) (z l))
  product_assoc n m x y z =
      total_congr n _ _ (λ k _.
        mul-total (x k) m _ ∙ total_congr m _ _ (λ l _. sym (exact.mul_assoc (x k) (y k l) (z l))))
      ∙ sum_comm (sum_monoid exact) n m (λ k l. s.mul (s.mul (x k) (y k l)) (z l))
      ∙ total_congr m _ _ (λ l _. sym (total-mul (z l) n (λ k. s.mul (x k) (y k l))))

  -- A matrix with an inverse on each side has one inverse.
  pub inverse_comm :
      (n : ℕ) (x y z : Entries A)
      → ((i j : ℕ) → i < n → j < n → product n x y i j ≡ identity i j)
      → ((i j : ℕ) → i < n → j < n → product n y z i j ≡ identity i j)
      → (i j : ℕ) → i < n
      → j < n
      → product n z y i j ≡ identity i j
  inverse_comm n x y z xy yz i j hi hj =
      total_congr n _ _ (λ k hk. ap (λ t. s.mul t (y k j)) (sym (same k hk))) ∙ xy i j hi hj
    where
      same : (k : ℕ) → k < n → x i k ≡ z i k
      same k hk =
          sym (total-identity n k (x i) hk)
          ∙ total_congr n _ _ (λ l hl. ap (s.mul (x i l)) (sym (yz l k hl hk)))
          ∙ product_assoc n n (x i) y (λ l. z l k)
          ∙ total_congr n _ _ (λ l hl. ap (λ t. s.mul t (z l k)) (xy i l hi hl))
          ∙ identity-total n i (λ l. z l k) hi
