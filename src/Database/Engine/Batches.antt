-- ===== src/Database/Engine/Batches.antt =====
-- A batch is one atomic step: all entities are written, or nothing is, and no transaction stays open.
use deskaone_sdk.Shared.{ℕ, ◌≡◌, ◌⊎◌, refl, ap, ◌∙◌, arith, Bool, ==_iff}
use deskaone_sdk.Shared.{List, [], ◌∷◌, length, Result, ok, err, Result-cases, inl, inr, Bool-cases}
use deskaone_sdk.Shared.{◌==◌, none, some}
use deskaone_sdk.Database.{DatabaseError, Dialect}
use deskaone_sdk.Database.Transactions.{Transactional}
use deskaone_sdk.Database.Engine.{
  InsertType, EngineSpec, DriverOf, EngineState, notify_write, validate_table_and_columns,
  insert_query, checked_values, exec_all, or_rollback, committed, transaction, save_batch,
  upsert_batch, validate_upsert, upsert_query,
}

-- A driver with the promises of transactions; to prepare a statement changes no row.
pub record BatchLaws {E Value S : Type 0} (driver : DriverOf E Value S) (C : Type 0) : Type 1 where
  pub tx :
      Transactional driver.begin driver.commit driver.rollback
        (λ (op : List ℕ × List Value). driver.exec_prepared op.0 op.1)
        C
  pub prepares :
      (q : List ℕ) (s : S)
      → (tx.contents (driver.prepare q s).1 ≡ tx.contents s)
        × (tx.pending (driver.prepare q s).1 ≡ tx.pending s)

module _ {E K Value S C : Type 0} (wide : ℕ → Bool) (spec : EngineSpec E K Value) (d : Dialect)
    (driver : DriverOf E Value S) (laws : BatchLaws driver C) where
  -- `t` is `c` behind the statement `q` for each entity, once and in order, with a value for each column.
  abbrev pub Inserted : List ℕ → List E → C → C → Type 0
  Inserted q [] c t = c ≡ t
  Inserted q (e ∷ entities) c t =
      (length (spec.values e) ≡ length spec.columns)
      × (mid : C) × laws.tx.Applies (q, spec.values e) c mid
      × Inserted q entities mid t

  -- What a call on the state `s` may do: a success has written all of `entities`; an error has changed
  -- nothing, unless it is that of a commit, which may have written all of them.
  abbrev pub Wrote : (List ℕ → Type 0) → List E → S → Result DatabaseError (Unit {0}) × S → Type 0
  Wrote Uses entities s (ok u, t) =
      (q : List ℕ) × Uses q × Inserted q entities (laws.tx.contents s) (laws.tx.contents t)
  Wrote Uses entities s (err x, t) =
      (laws.tx.contents t ≡ laws.tx.contents s)
      ⊎ ((before : S) × (driver.commit before ≡ (err x, t))
          × (q : List ℕ) × Uses q
          × Inserted q entities (laws.tx.contents s) (laws.tx.contents t))

  abbrev pub Atomic :
      (List ℕ → Type 0) → List E → S → Result DatabaseError (Unit {0}) × EngineState S → Type 0
  Atomic Uses entities s (r, t) = (laws.tx.pending t.db ≡ none) × Wrote Uses entities s (r, t.db)

  checked_values-ok :
      (e : E) (vals : List Value)
      → checked_values wide spec d driver e ≡ ok vals
      → (length (spec.values e) ≡ length spec.columns) × (spec.values e ≡ vals)
  unfolding checked_values
  checked_values-ok e vals h = elim (Bool-cases (length (spec.values e) == length spec.columns)) [
    | inl same ↦
        (let h' = rw same at h in
          ((==_iff (length (spec.values e)) (length spec.columns)).0 same, cc))
    | inr other ↦ absurd (let h' = rw other at h in ground arith)
  ]

  -- The loop in the transaction, from the state `s` with the pending contents `c`.
  abbrev Loop : List ℕ → List E → C → C → Result DatabaseError (Unit {0}) × S → Type 0
  Loop q entities old c (ok u, t) =
      (laws.tx.contents t ≡ old)
      × (next : C) × (laws.tx.pending t ≡ some next)
      × Inserted q entities c next
  Loop q entities old c (err x, t) = (laws.tx.contents t ≡ old) × (laws.tx.pending t ≡ none)

  undone-Loop :
      (q : List ℕ) (entities : List E) (c : C) (s : S) (x : DatabaseError)
      → Loop q entities (laws.tx.contents s) c (err x, driver.rollback s)
  undone-Loop q entities c s x = laws.tx.rolls_back s

  cons-Loop :
      (q : List ℕ) (e : E) (entities : List E) (old c mid : C)
      (r : Result DatabaseError (Unit {0}) × S)
      → length (spec.values e) ≡ length spec.columns
      → laws.tx.Applies (q, spec.values e) c mid
      → Loop q entities old mid r
      → Loop q (e ∷ entities) old c r
  cons-Loop q e entities old c mid (ok u, t) size ran h =
      let (same, next, p, rest) = h in (same, next, p, (size, mid, ran, rest))
  cons-Loop q e entities old c mid (err x, t) size ran h = h

  exec_all-Loop :
      (q : List ℕ) (entities : List E) (s : S) (c : C)
      → laws.tx.pending s ≡ some c
      → Loop q entities (laws.tx.contents s) c (exec_all wide spec d driver q entities s)
  unfolding exec_all or_rollback
  exec_all-Loop q [] s c h = (refl, c, h, refl)
  exec_all-Loop q (e ∷ entities) s c h = elim (Result-cases (checked_values wide spec d driver e)) [
    | inr (x, bad) ↦ rw bad (undone-Loop q (e ∷ entities) c s x)
    | inl (vals, good) ↦
        (let (size, same) = checked_values-ok e vals good in
          let next = (driver.exec_prepared q vals s).1 in
          let kept = laws.tx.keeps (q, vals) s in
          elim (Result-cases (driver.exec_prepared q vals s).0) [
            | inr (x, bad) ↦
                rw (good, bad) (let (back, none') = laws.tx.rolls_back next in (back ∙ kept, none'))
            | inl (u, ran) ↦
                rw (good, ran)
                  (let (mid, applied, p) = laws.tx.executes (q, vals) s c ran h in
                    let rest = exec_all-Loop q entities next mid p in
                    cons-Loop q e entities (laws.tx.contents s) c mid
                      (exec_all wide spec d driver q entities next) size (rw same applied)
                      (rw kept at rest))
          ])
  ]

  -- The states of a call that ends with no open transaction.
  abbrev Ends : (List ℕ → Type 0) → List E → S → Result DatabaseError (Unit {0}) × S → Type 0
  Ends Uses entities s (r, t) = (laws.tx.pending t ≡ none) × Wrote Uses entities s (r, t)

  commit-Ends :
      (Uses : List ℕ → Type 0) (q : List ℕ) (entities : List E) (s t : S) (next : C)
      → Uses q
      → laws.tx.contents t ≡ laws.tx.contents s
      → laws.tx.pending t ≡ some next
      → Inserted q entities (laws.tx.contents s) next
      → Ends Uses entities s (driver.commit t)
  commit-Ends Uses q entities s t next uses same p rows =
      let last = (driver.commit t).1 in
      elim (Result-cases (driver.commit t).0) [
        | inl (u, done) ↦
            (let (is, none') = laws.tx.commit_ok t next done p in
              rw done (none', (q, uses, rw is rows)))
        | inr (x, bad) ↦
            (let (none', which) = laws.tx.commit_err t next x bad p in
              rw bad (
                none',
                elim which [
                  | inl old ↦ inl (old ∙ same)
                  | inr new ↦ inr (t, ap (λ y. (y, last)) bad, q, uses, rw new rows)
                ],
              ))
      ]

  committed-Ends :
      (Uses : List ℕ → Type 0) (q : List ℕ) (entities : List E) (s : S)
      (r : Result DatabaseError (Unit {0}) × S)
      → Uses q
      → Loop q entities (laws.tx.contents s) (laws.tx.contents s) r
      → Ends Uses entities s (committed wide spec d driver r)
  committed-Ends Uses q entities s (ok u, t) uses h =
      let (same, next, p, rows) = h in commit-Ends Uses q entities s t next uses same p rows
  committed-Ends Uses q entities s (err x, t) uses h = (h.1, inl h.0)

  transaction-Ends :
      (Uses : List ℕ → Type 0) (q : List ℕ) (entities : List E) (s : S)
      → laws.tx.pending s ≡ none
      → Uses q
      → Ends Uses entities s (transaction wide spec d driver q entities s)
  unfolding transaction or_rollback
  transaction-Ends Uses q entities s idle uses =
      let open' = (driver.begin s).1 in
      elim (Result-cases (driver.begin s).0) [
        | inr (x, bad) ↦ (let (same, p) = laws.tx.begin_err s x bad in rw bad (p ∙ idle, inl same))
        | inl (u, begun') ↦
            (let (same, p) = laws.tx.begin_ok s begun' in
              let ready = (driver.prepare q open').1 in
              let (same', p') = laws.prepares q open' in
              elim (Result-cases (driver.prepare q open').0) [
                | inr (x, bad) ↦
                    rw (begun', bad)
                      (let (back, none') = laws.tx.rolls_back ready in
                        (none', inl (back ∙ same' ∙ same)))
                | inl (v, prepared) ↦
                    rw (begun', prepared)
                      (let rows = exec_all-Loop q entities ready (laws.tx.contents s) (p' ∙ p) in
                        committed-Ends Uses q entities s
                          (exec_all wide spec d driver q entities ready) uses
                          (rw (same' ∙ same) at rows))
              ])
      ]

  -- SaveBatch of some entities on a database with no open transaction leaves none open, and is atomic:
  -- where it succeeds, the statement of its mode has been executed once for each entity, in order, with a
  -- value for each column; where it fails, at whatever step, nothing has changed, unless it was the commit
  -- that failed, behind which all of them may have been.
  pub save_batch-Atomic :
      (e : E) (entities : List E) (mode : InsertType) (s : EngineState S)
      → laws.tx.pending s.db ≡ none
      → Atomic
          (λ q. insert_query wide spec d driver mode [] ≡ ok q)
          (e ∷ entities)
          s.db
          (save_batch wide spec d driver (e ∷ entities) mode s)
  unfolding save_batch notify_write
  save_batch-Atomic e entities mode s idle =
      elim (Result-cases (validate_table_and_columns wide spec d driver [])) [
        | inr (x, bad) ↦ rw bad (idle, inl refl)
        | inl (u, good) ↦ rw good (elim (Result-cases (insert_query wide spec d driver mode [])) [
          | inr (x, bad) ↦ rw bad (idle, inl refl)
          | inl (q, made) ↦
              rw made (transaction-Ends (λ q'. ok q ≡ ok q') q (e ∷ entities) s.db idle refl)
        ])
      ]

  -- UpsertBatch of some entities on a database with no open transaction leaves none open, and is atomic:
  -- where it succeeds, the upsert statement of the engine has been executed once for each entity, in
  -- order, with a value for each column; where it fails, at whatever step, nothing has changed, unless it
  -- was the commit that failed, behind which all of them may have been.
  pub upsert_batch-Atomic :
      (e : E) (entities : List E) (updates : List (List ℕ)) (s : EngineState S)
      → laws.tx.pending s.db ≡ none
      → Atomic
          (λ q. upsert_query wide spec d driver updates ≡ q)
          (e ∷ entities)
          s.db
          (upsert_batch wide spec d driver (e ∷ entities) updates s)
  unfolding upsert_batch notify_write
  upsert_batch-Atomic e entities updates s idle =
      elim (Result-cases (validate_upsert wide spec d driver updates)) [
        | inr (x, bad) ↦ rw bad (idle, inl refl)
        | inl (u, good) ↦ rw good (
            transaction-Ends (λ q. upsert_query wide spec d driver updates ≡ q)
              (upsert_query wide spec d driver updates) (e ∷ entities) s.db idle refl)
      ]
