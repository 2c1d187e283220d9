-- ===== src/Database/Transactions.antt =====
-- What database/sql promises of a transaction, for the statements `Op` that are executed in it and the
-- errors `X` that these may have.
use deskaone_sdk.Shared.{◌≡◌, ◌⊎◌, Option, none, some, Result, ok, err}
use deskaone_sdk.Database.{DatabaseError}

-- `contents` is what is committed, `pending` what an open transaction would commit, and `Applies` what a
-- statement does. A commit that fails may have been carried out or not; a rollback ends the transaction.
pub record Transactional {S Op X : Type 0} (begin commit : S → Result DatabaseError (Unit {0}) × S)
    (rollback : S → S) (execute : Op → S → Result X (Unit {0}) × S) (C : Type 0) : Type 1 where
  pub contents : S → C
  pub pending : S → Option C
  pub Applies : Op → C → C → Type 0
  pub begin_ok :
      (s : S)
      → (begin s).0 ≡ ok tt
      → (contents (begin s).1 ≡ contents s) × (pending (begin s).1 ≡ some (contents s))
  pub begin_err :
      (s : S) (x : DatabaseError)
      → (begin s).0 ≡ err x
      → (contents (begin s).1 ≡ contents s) × (pending (begin s).1 ≡ pending s)
  pub executes :
      (op : Op) (s : S) (c : C)
      → (execute op s).0 ≡ ok tt
      → pending s ≡ some c
      → (next : C) × Applies op c next × (pending (execute op s).1 ≡ some next)
  pub keeps : (op : Op) (s : S) → contents (execute op s).1 ≡ contents s
  pub rolls_back : (s : S) → (contents (rollback s) ≡ contents s) × (pending (rollback s) ≡ none)
  pub commit_ok :
      (s : S) (c : C)
      → (commit s).0 ≡ ok tt
      → pending s ≡ some c
      → (contents (commit s).1 ≡ c) × (pending (commit s).1 ≡ none)
  pub commit_err :
      (s : S) (c : C) (x : DatabaseError)
      → (commit s).0 ≡ err x
      → pending s ≡ some c
      → (pending (commit s).1 ≡ none)
        × ((contents (commit s).1 ≡ contents s) ⊎ (contents (commit s).1 ≡ c))
