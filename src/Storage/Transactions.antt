-- ===== src/Storage/Transactions.antt =====
-- internal/storage/storage.go and internal/storage/sqlite/store.go: `WithinTx`, which is
-- `WithinWorkspaceTx` of the store. What a transaction has written is seen by the function that it
-- runs, and is undone where the function, or the commit, fails.
use app_gocms.Prelude.{◌≡◌, Result, ok, err, Error, Exec, arith}

-- Whether a transaction can be begun, and whether its commit succeeds.
pub record Transactions (S : Type 0) : Type 0 where
  pub begin : S → Result (Unit {0})
  pub commit : S → Result (Unit {0})

module _ {S : Type 0} (tx : Transactions S) where
  -- The end of a transaction that began at `before`.
  commit_or_roll_back {ℓ} : {A : Type ℓ} → S → Result A × S → Result A × S
  commit_or_roll_back before (err e, s) = (err e, before)
  commit_or_roll_back before (ok a, s) = elim (tx.commit s) [
    | err e ↦ (err e, before)
    | ok _ ↦ (ok a, s)
  ]

  unfoldable pub within_tx : {A : Type 0} → Exec S A → Exec S A
  unfolding commit_or_roll_back
  within_tx fn s = elim (tx.begin s) [ err e ↦ (err e, s) | ok _ ↦ commit_or_roll_back s (fn s) ]

  -- What is left of a transaction that failed.
  pub rolled_back :
      {A : Type 0} (fn : Exec S A) (s : S) (e : Error)
      → (within_tx fn s).0 ≡ err e
      → (within_tx fn s).1 ≡ s
  unfolding within_tx
  rolled_back fn s e h = ground arith

  -- What a transaction that succeeded has done.
  pub committed :
      {A : Type 0} (fn : Exec S A) (s s' : S) (a : A)
      → within_tx fn s ≡ (ok a, s')
      → (tx.begin s ≡ ok tt) × (fn s ≡ (ok a, s')) × (tx.commit s' ≡ ok tt)
  unfolding within_tx
  committed fn s s' a h = ground arith

  -- A transaction in which nothing fails.
  pub within_tx_ok :
      {A : Type 0} (fn : Exec S A) (s s' : S) (a : A)
      → tx.begin s ≡ ok tt
      → fn s ≡ (ok a, s')
      → tx.commit s' ≡ ok tt
      → within_tx fn s ≡ (ok a, s')
  unfolding within_tx
  within_tx_ok fn s s' a begun ran done = ground arith
