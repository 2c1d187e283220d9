-- ===== src/Database/Engine.antt =====
-- database/base_engine.go: the writes and reads of an engine on one table.
pub mod Queries
pub mod Batches
use Prim.Native.String.{String}
use deskaone_sdk.Shared.{ℕ, zero, suc, ◌+◌, Bool, true, false, not, ◌&&◌, ◌||◌}
use deskaone_sdk.Shared.{Option, none, some, Result, ok, err, List, [], ◌∷◌, ◌++◌, map, length}
use deskaone_sdk.Shared.{◌==◌, if◌then◌else◌}
use deskaone_sdk.Shared.Int.{ℤ}
use deskaone_sdk.Shared.Text.{codes}
use deskaone_sdk.Shared.Words.{join}
use deskaone_sdk.Database.{
  DatabaseError, Dialect, sqlite, postgres, wrong_count, no_conflict_columns, no_update_columns,
  replace_without_conflict, no_keyset, invalid_mode, placeholder, validate_identifier, quote_ident,
  joined_quoted_idents, insert, insert_ignore, insert_replace, upsert,
}

-- `InserType`, with `plain` for every other text.
pub data InsertType : Type 0 where
  replace ignore mode_upsert plain : InsertType

pub data PaginationMode : Type 0 where
  offset keyset other : PaginationMode

-- `EngineSpec`: the table, and how entities and keys become values.
pub record EngineSpec (E K Value : Type 0) : Type 0 where
  pub table : List ℕ
  pub columns : List (List ℕ)
  pub values : E → List Value
  pub conflict_columns : List (List ℕ)
  pub key_columns : List (List ℕ)
  pub key_args : K → List Value
  pub int_primary_key : Option (List ℕ)

-- database/sql with its driver, on states `S` of the database and its transaction, which may be open.
-- What a query gives are the entities of its rows, as FromRow reads them, until they end or fail.
-- `exec` is a statement outside a transaction; the other calls begin one, work in it and end it. To close
-- a statement that was prepared in a transaction changes nothing: the end of the transaction closes it.
pub record DriverOf (E Value S : Type 0) : Type 0 where
  pub exec : List ℕ → List Value → S → Result DatabaseError S
  pub query : List ℕ → List Value → S → Result DatabaseError (List (Result DatabaseError E))
  pub count : List ℕ → S → Result DatabaseError ℤ
  pub begin : S → Result DatabaseError (Unit {0}) × S
  pub prepare : List ℕ → S → Result DatabaseError (Unit {0}) × S
  pub exec_prepared : List ℕ → List Value → S → Result DatabaseError (Unit {0}) × S
  pub rollback : S → S
  pub commit : S → Result DatabaseError (Unit {0}) × S
  pub int_value : ℤ → Value

-- The database, and how often `notifyWrite` has been called.
pub record EngineState (S : Type 0) : Type 0 where
  pub db : S
  pub writes : ℕ

abbrev pub and_then :
    {A B : Type 0} → Result DatabaseError A → (A → Result DatabaseError B) → Result DatabaseError B
and_then (ok a) f = f a
and_then (err e) f = err e

unfoldable pub notify_write : {S : Type 0} → EngineState S → EngineState S
notify_write s = record s { writes = s.writes + 1 }

module _ (wide : ℕ → Bool) where
  unfoldable pub validate_identifiers : List (List ℕ) → Result DatabaseError (Unit {0})
  validate_identifiers [] = ok tt
  validate_identifiers (name ∷ names) =
      and_then (validate_identifier wide name) (λ u. validate_identifiers names)

  -- The loop of `whereKeyFor`.
  unfoldable pub key_conditions : Dialect → List (List ℕ) → ℕ → List (List ℕ)
  key_conditions d [] start = []
  key_conditions d (c ∷ cols) start =
      (quote_ident wide c ++ (codes " = " ++ placeholder d start))
      ∷ key_conditions d cols (start + 1)

  unfoldable pub where_key_for : Dialect → List (List ℕ) → ℕ → List ℕ
  where_key_for d cols start = join (codes " AND ") (key_conditions d cols start)

module _ {E K Value S : Type 0} (wide : ℕ → Bool) (spec : EngineSpec E K Value) (d : Dialect)
    (driver : DriverOf E Value S) where
  unfoldable pub validate_table_and_columns : List (List ℕ) → Result DatabaseError (Unit {0})
  validate_table_and_columns extra =
      and_then (validate_identifier wide spec.table)
        (λ u. validate_identifiers wide (spec.columns ++ extra))

  abbrev pub or_all : List (List ℕ) → List (List ℕ)
  or_all [] = spec.columns
  or_all (c ∷ cols) = c ∷ cols

  abbrev pub with_conflicts : List (List ℕ) → DatabaseError → List ℕ → Result DatabaseError (List ℕ)
  with_conflicts [] e q = err e
  with_conflicts (c ∷ cols) e q = ok q

  abbrev pub replace_query : Dialect → Result DatabaseError (List ℕ)
  replace_query sqlite =
      ok (insert_replace wide sqlite spec.table spec.columns spec.conflict_columns)
  replace_query postgres =
      with_conflicts spec.conflict_columns replace_without_conflict
        (insert_replace wide postgres spec.table spec.columns spec.conflict_columns)

  unfoldable pub insert_query : InsertType → List (List ℕ) → Result DatabaseError (List ℕ)
  insert_query ignore updates =
      ok (insert_ignore wide d spec.table spec.columns spec.conflict_columns)
  insert_query replace updates = replace_query d
  insert_query mode_upsert updates =
      with_conflicts spec.conflict_columns no_conflict_columns
        (upsert wide d spec.table spec.columns spec.conflict_columns (or_all updates))
  insert_query plain updates = ok (insert wide d spec.table spec.columns)

  -- The values of an entity, as many as there are columns.
  unfoldable pub checked_values : E → Result DatabaseError (List Value)
  checked_values entity =
      let vals = spec.values entity in
      if length vals == length spec.columns
      then ok vals
      else err (wrong_count (length vals) (length spec.columns))

  -- The result of a call with the state it leaves: the new database, or the old one.
  abbrev pub stored :
      EngineState S → Result DatabaseError S → Result DatabaseError (Unit {0}) × EngineState S
  stored s (ok db) = (ok tt, record s { db = db })
  stored s (err e) = (err e, s)

  abbrev pub guarded :
      {A : Type 0}
      → Result DatabaseError A
      → EngineState S
      → (A → Result DatabaseError (Unit {0}) × EngineState S)
      → Result DatabaseError (Unit {0}) × EngineState S
  guarded (ok a) s f = f a
  guarded (err e) s f = (err e, s)

  unfoldable pub save :
      E → InsertType → EngineState S → Result DatabaseError (Unit {0}) × EngineState S
  save entity mode s = guarded (validate_table_and_columns []) s (λ u.
      let t = notify_write s in
      guarded (checked_values entity) t
        (λ vals. guarded (insert_query mode []) t (λ q. stored t (driver.exec q vals t.db))))

  -- A call in a transaction, which is rolled back where the call fails.
  unfoldable pub or_rollback :
      Result DatabaseError (Unit {0}) × S
      → (S → Result DatabaseError (Unit {0}) × S)
      → Result DatabaseError (Unit {0}) × S
  or_rollback (ok u, db) next = next db
  or_rollback (err e, db) next = (err e, driver.rollback db)

  abbrev pub exec_row :
      List ℕ
      → Result DatabaseError (List Value)
      → S
      → (S → Result DatabaseError (Unit {0}) × S)
      → Result DatabaseError (Unit {0}) × S
  exec_row q (err e) db next = (err e, driver.rollback db)
  exec_row q (ok vals) db next = or_rollback (driver.exec_prepared q vals db) next

  -- The loop over the entities of a batch, in the transaction.
  unfoldable pub exec_all : List ℕ → List E → S → Result DatabaseError (Unit {0}) × S
  exec_all q [] db = (ok tt, db)
  exec_all q (e ∷ entities) db = exec_row q (checked_values e) db (λ next. exec_all q entities next)

  abbrev pub committed : Result DatabaseError (Unit {0}) × S → Result DatabaseError (Unit {0}) × S
  committed (ok u, db) = driver.commit db
  committed (err e, db) = (err e, db)

  abbrev pub begun :
      Result DatabaseError (Unit {0}) × S
      → (S → Result DatabaseError (Unit {0}) × S)
      → Result DatabaseError (Unit {0}) × S
  begun (ok u, db) next = next db
  begun (err e, db) next = (err e, db)

  -- From Begin to Commit, the statement executed for each entity.
  unfoldable pub transaction : List ℕ → List E → S → Result DatabaseError (Unit {0}) × S
  transaction q entities db = begun (driver.begin db) (λ open'.
      or_rollback (driver.prepare q open') (λ ready. committed (exec_all q entities ready)))

  abbrev pub with_db :
      EngineState S
      → Result DatabaseError (Unit {0}) × S
      → Result DatabaseError (Unit {0}) × EngineState S
  with_db s (r, db) = (r, record s { db = db })

  unfoldable pub save_batch :
      List E → InsertType → EngineState S → Result DatabaseError (Unit {0}) × EngineState S
  save_batch [] mode s = (ok tt, s)
  save_batch (e ∷ entities) mode s = guarded (validate_table_and_columns []) s (λ u.
      let t = notify_write s in
      guarded (insert_query mode []) t (λ q. with_db t (transaction q (e ∷ entities) t.db)))

  abbrev some_columns : List (List ℕ) → DatabaseError → Result DatabaseError (Unit {0})
  some_columns [] e = err e
  some_columns (c ∷ cols) e = ok tt

  -- The checks in front of `Upsert` and `UpsertBatch`.
  unfoldable pub validate_upsert : List (List ℕ) → Result DatabaseError (Unit {0})
  validate_upsert updates = and_then (validate_table_and_columns updates) (λ u.
      and_then (some_columns spec.conflict_columns no_conflict_columns) (λ v.
        and_then (some_columns updates no_update_columns)
          (λ w. validate_identifiers wide spec.conflict_columns)))

  abbrev pub upsert_query : List (List ℕ) → List ℕ
  upsert_query updates = upsert wide d spec.table spec.columns spec.conflict_columns updates

  unfoldable pub upsert_one :
      E → List (List ℕ) → EngineState S → Result DatabaseError (Unit {0}) × EngineState S
  upsert_one entity updates s = guarded (validate_upsert updates) s (λ u.
      let t = notify_write s in
      guarded (checked_values entity) t
        (λ vals. stored t (driver.exec (upsert_query updates) vals t.db)))

  unfoldable pub upsert_batch :
      List E → List (List ℕ) → EngineState S → Result DatabaseError (Unit {0}) × EngineState S
  upsert_batch [] updates s = (ok tt, s)
  upsert_batch (e ∷ entities) updates s = guarded (validate_upsert updates) s (λ u.
      let t = notify_write s in with_db t (transaction (upsert_query updates) (e ∷ entities) t.db))
