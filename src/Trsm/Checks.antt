-- ===== src/Trsm/Checks.antt =====
-- The checks of `_trsm`: which arguments it accepts, and what it throws.
use sycl_blas.Base.{
  ℕ, ◌+◌, ◌<◌, ◌≤◌, ◌≡◌, Bool-cases, ◌⊎◌, inl, inr, arith, ◌==◌, throw, invalid_argument, Bool,
  false, not, ◌&&◌, ◌||◌, Result,
}
use sycl_blas.Base.Scalar.{Scalar}
use sycl_blas.Container.{BufferIterator}
use sycl_blas.Views.{Store}
use sycl_blas.Executor.{Executor}
use sycl_blas.Gemm.Call.{GemmCall}
use sycl_blas.Gemm.Interface.{to_lower}
use sycl_blas.Trsm.{system_of, solve_system, trsm}

-- Either of two letters, in either case.
abbrev pub IsEither : ℕ → ℕ → ℕ → Type 0
IsEither a b ch = ((ch + 32 ≡ a) ⊎ (ch ≡ a)) ⊎ ((ch + 32 ≡ b) ⊎ (ch ≡ b))

abbrev pub IsSizes : ℕ → ℕ → ℕ → ℕ → Type 0
IsSizes m n lda ldb = (0 < m) × (0 < n) × (0 < lda) × (0 < ldb)

abbrev AreLetters : ℕ → ℕ → Type 0
AreLetters a b = (97 ≤ a) × (a ≤ 122) × (97 ≤ b) × (b ≤ 122)

neither : ℕ → ℕ → ℕ → Bool
neither a b ch = not (to_lower ch == a) && not (to_lower ch == b)

IsEither-neither : (a b ch : ℕ) → AreLetters a b → IsEither a b ch → neither a b ch ≡ false
unfolding neither to_lower
IsEither-neither a b ch r h = ground arith

neither-IsEither : (a b ch : ℕ) → AreLetters a b → neither a b ch ≡ false → IsEither a b ch
unfolding neither to_lower
neither-IsEither a b ch r h = ground arith

has_zero : ℕ → ℕ → ℕ → ℕ → Bool
has_zero m n lda ldb = m == 0 || n == 0 || lda == 0 || ldb == 0

IsSizes-has_zero : (m n lda ldb : ℕ) → IsSizes m n lda ldb → has_zero m n lda ldb ≡ false
unfolding has_zero
IsSizes-has_zero m n lda ldb h = ground arith

has_zero-IsSizes : (m n lda ldb : ℕ) → has_zero m n lda ldb ≡ false → IsSizes m n lda ldb
unfolding has_zero
has_zero-IsSizes m n lda ldb h = ground arith

module _ {ℓ} {A : Type ℓ} (s : Scalar A) (ex : Executor)
    (gemm : GemmCall A → Store A → Result (Store A)) (side uplo trans diag m n : ℕ) (alpha : A)
    (a : BufferIterator) (lda : ℕ) (b : BufferIterator) (ldb inv_a x : ℕ) (st : Store A) where
  abbrev call : Result (Store A)
  call = trsm s ex gemm side uplo trans diag m n alpha a lda b ldb inv_a x st

  -- What a call comes to, by the first argument that is not valid.
  pub data Outcome : Result (Store A) → Type ℓ where
    bad_size :
        ¬ IsSizes m n lda ldb → Outcome (throw (invalid_argument "invalid matrix size argument"))
    bad_side :
        IsSizes m n lda ldb
        → ¬ IsEither 108 114 side
        → Outcome (throw (invalid_argument "invalid Side argument"))
    bad_triangle :
        IsSizes m n lda ldb
        → IsEither 108 114 side
        → ¬ IsEither 117 108 uplo
        → Outcome (throw (invalid_argument "invalid Triangle argument"))
    bad_transpose :
        IsSizes m n lda ldb
        → IsEither 108 114 side
        → IsEither 117 108 uplo
        → ¬ IsEither 110 116 trans
        → Outcome (throw (invalid_argument "invalid Transpose argument"))
    bad_diagonal :
        IsSizes m n lda ldb
        → IsEither 108 114 side
        → IsEither 117 108 uplo
        → IsEither 110 116 trans
        → ¬ IsEither 117 110 diag
        → Outcome (throw (invalid_argument "invalid Diagonal argument"))
    accepted :
        IsSizes m n lda ldb
        → IsEither 108 114 side
        → IsEither 117 108 uplo
        → IsEither 110 116 trans
        → IsEither 117 110 diag
        → Outcome (
            solve_system s ex gemm
              (system_of
                (to_lower side)
                (to_lower uplo)
                (to_lower trans)
                (to_lower diag)
                m
                n
                alpha
                a
                lda
                b
                ldb
                inv_a
                x)
              st)

  -- `_trsm` throws for a size of zero, then for a side but l and r, then for a triangle but u and l,
  -- then for a transpose but n and t, then for a diagonal but u and n, each letter in either case and
  -- with its own message, and solves the system if all are valid.
  pub trsm_checks_lem : Outcome call
  unfolding trsm neither has_zero
  trsm_checks_lem =
      let sides : AreLetters 108 114 = (omega arith, omega arith, omega arith, omega arith) in
      let triangles : AreLetters 117 108 = (omega arith, omega arith, omega arith, omega arith) in
      let transposes : AreLetters 110 116 = (omega arith, omega arith, omega arith, omega arith) in
      let diagonals : AreLetters 117 110 = (omega arith, omega arith, omega arith, omega arith) in
      elim (Bool-cases (has_zero m n lda ldb)) [
        | inl z ↦ rw z (bad_size (λ h. cc (z, IsSizes-has_zero m n lda ldb h)))
        | inr e0 ↦
            let sizes = has_zero-IsSizes m n lda ldb e0 in
            elim (Bool-cases (neither 108 114 side)) [
              | inl z ↦
                  rw (e0, z) (bad_side sizes (λ h. cc (z, IsEither-neither 108 114 side sides h)))
              | inr e1 ↦
                  let side_ok = neither-IsEither 108 114 side sides e1 in
                  elim (Bool-cases (neither 117 108 uplo)) [
                    | inl z ↦
                        rw (e0, e1, z)
                          (bad_triangle sizes side_ok
                            (λ h. cc (z, IsEither-neither 117 108 uplo triangles h)))
                    | inr e2 ↦
                        let uplo_ok = neither-IsEither 117 108 uplo triangles e2 in
                        elim (Bool-cases (neither 110 116 trans)) [
                          | inl z ↦
                              rw (e0, e1, e2, z)
                                (bad_transpose sizes side_ok uplo_ok
                                  (λ h. cc (z, IsEither-neither 110 116 trans transposes h)))
                          | inr e3 ↦
                              let trans_ok = neither-IsEither 110 116 trans transposes e3 in
                              elim (Bool-cases (neither 117 110 diag)) [
                                | inl z ↦
                                    rw (e0, e1, e2, e3, z)
                                      (bad_diagonal sizes side_ok uplo_ok trans_ok
                                        (λ h. cc (z, IsEither-neither 117 110 diag diagonals h)))
                                | inr e4 ↦
                                    rw (e0, e1, e2, e3, e4)
                                      (accepted sizes side_ok uplo_ok trans_ok
                                        (neither-IsEither 117 110 diag diagonals e4))
                              ]
                        ]
                  ]
            ]
      ]
