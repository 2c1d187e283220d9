-- ===== src/Database/Tests.antt =====
-- The database on small inputs: a table of two columns, whose rows are kept with their statement.
use deskaone_sdk.Shared.{
  ℕ, ◌+◌, ◌≡◌, refl, false, Bool, some, none, Option, ltb, arith, map_ok, Result-cases, inl, inr,
  ◌⊎◌,
}
use deskaone_sdk.Shared.{List, [], ◌∷◌, ◌++◌, length, Result, ok, err, if◌then◌else◌}
use deskaone_sdk.Shared.Int.{pos}
use deskaone_sdk.Shared.Text.{codes, itoa, digits, has_prefix, has_suffix}
use deskaone_sdk.Shared.Text.{trim_space, trim_front, trim_back, space_size}
use deskaone_sdk.Shared.Words.{join, split_from}
use deskaone_sdk.Database.{
  DatabaseError, sqlite, postgres, driver_error, placeholder, placeholder_list, placeholders,
  is_word, all_words, validate_identifier, quote_ident, joined_quoted_idents, insert_sql, insert,
  upsert, conflict_target, update_assignments, assignment,
}
use deskaone_sdk.Database.Transactions.{Transactional}
use deskaone_sdk.Database.Shapes.{erase}
use deskaone_sdk.Database.Engine.{
  EngineSpec, DriverOf, EngineState, mode_upsert, plain, insert_query, validate_identifiers,
  validate_table_and_columns, save_batch, upsert_batch, upsert_query, where_key_for, key_conditions,
}
use deskaone_sdk.Database.Engine.Queries.{insert_query-shape, query_shape}
use deskaone_sdk.Database.Engine.Batches.{BatchLaws, Atomic, save_batch-Atomic, upsert_batch-Atomic}
use deskaone_sdk.Database.Opening.{
  Server, migrate, load_sql_files, script_files, script_lines, script_line,
}
use deskaone_sdk.Database.Opening.Migrations.{Outcome, migrate-Outcome}

abbrev ascii : ℕ → Bool
ascii r = false

abbrev users : EngineSpec (ℕ × ℕ) ℕ ℕ
users = record {
  table = codes "users";
  columns = codes "id" ∷ codes "age" ∷ [];
  values = λ e. e.0 ∷ e.1 ∷ [];
  conflict_columns = codes "id" ∷ [];
  key_columns = codes "id" ∷ [];
  key_args = λ k. k ∷ [];
  int_primary_key = some (codes "id");
}

-- A driver that refuses a row whose first value is 9 or more.
abbrev run : List ℕ → List (List ℕ) → Result DatabaseError (List (List ℕ))
run [] db = ok db
run (v ∷ vals) db =
    if ltb v 9 then ok (db ++ ((v ∷ vals) ∷ [])) else err (driver_error (codes "full"))

-- The rows, and those of an open transaction.
abbrev Rows : Type 0
Rows = List (List ℕ) × Option (List (List ℕ))

abbrev run_outside : List ℕ → Rows → Result DatabaseError Rows
run_outside vals (rows, open') = map_ok (λ next. (next, open')) (run vals rows)

abbrev ran : Rows → Result DatabaseError (List (List ℕ)) → Result DatabaseError (Unit {0}) × Rows
ran (rows, open') (ok next) = (ok tt, (rows, some next))
ran s (err e) = (err e, s)

abbrev run_inside : List ℕ → Rows → Result DatabaseError (Unit {0}) × Rows
run_inside vals (rows, none) = (err (driver_error (codes "no transaction")), (rows, none))
run_inside vals (rows, some open') = ran (rows, some open') (run vals open')

abbrev commit : Rows → Result DatabaseError (Unit {0}) × Rows
commit (rows, none) = (err (driver_error (codes "no transaction")), (rows, none))
commit (rows, some next) = (ok tt, (next, none))

abbrev memory : DriverOf (ℕ × ℕ) ℕ Rows
memory = record {
  exec = λ q vals db. run_outside vals db;
  query = λ q vals db. ok [];
  count = λ q db. ok (pos (length db.0));
  begin = λ db. (ok tt, (db.0, some db.0));
  prepare = λ q db. (ok tt, db);
  exec_prepared = λ q vals db. run_inside vals db;
  rollback = λ db. (db.0, none);
  commit = commit;
  int_value = λ n. 0;
}

run_inside-run :
    (vals : List ℕ) (s : Rows) (c : List (List ℕ))
    → (run_inside vals s).0 ≡ ok tt
    → s.1 ≡ some c
    → (next : List (List ℕ)) × (run vals c ≡ ok next) × ((run_inside vals s).1.1 ≡ some next)
run_inside-run vals (rows, none) c h e = absurd (ground arith)
run_inside-run vals (rows, some open') c h e =
    let same : open' ≡ c = cc in
    elim (Result-cases (run vals open')) [
      | inl (next, q) ↦ (next, rw same at q, rw q refl)
      | inr (x, q) ↦ absurd (let h' = rw q at h in ground arith)
    ]

run_inside_rows : (vals : List ℕ) (s : Rows) → (run_inside vals s).1.0 ≡ s.0
run_inside_rows vals (rows, none) = refl
run_inside_rows vals (rows, some open') = elim (Result-cases (run vals open')) [
  | inl (next, q) ↦ rw q refl
  | inr (x, q) ↦ rw q refl
]

commit_committed : (s : Rows) (c : List (List ℕ)) → s.1 ≡ some c → commit s ≡ (ok tt, (c, none))
commit_committed (rows, none) c e = absurd (ground arith)
commit_committed (rows, some next) c e = let same : next ≡ c = cc in rw same refl

never_begins : (s : Rows) (x : DatabaseError) → (memory.begin s).0 ≡ err x → some s.0 ≡ s.1
never_begins s x h = absurd (ground arith)

never_fails :
    (s : Rows) (c : List (List ℕ)) (x : DatabaseError)
    → (commit s).0 ≡ err x
    → s.1 ≡ some c
    → ((commit s).1.1 ≡ none) × (((commit s).1.0 ≡ s.0) ⊎ ((commit s).1.0 ≡ c))
never_fails s c x h e = absurd (let h' = rw (commit_committed s c e) at h in ground arith)

abbrev memory_laws : BatchLaws memory (List (List ℕ))
memory_laws = record {
  tx = record {
    contents = λ s. s.0;
    pending = λ s. s.1;
    Applies = λ op c next. run op.1 c ≡ ok next;
    begin_ok = λ s h. (refl, refl);
    begin_err = λ s x h. (refl, never_begins s x h);
    executes = λ op s c h e. run_inside-run op.1 s c h e;
    keeps = λ op s. run_inside_rows op.1 s;
    rolls_back = λ s. (refl, refl);
    commit_ok = λ s c h e. rw (commit_committed s c e) (refl, refl);
    commit_err = λ s c x h e. never_fails s c x h e;
  };
  prepares = λ q s. (refl, refl);
}

upsert_text :
    upsert ascii postgres (codes "users") users.columns users.conflict_columns (codes "age" ∷ [])
    ≡ codes
        "INSERT INTO \"users\" (\"id\", \"age\") VALUES ($1, $2) ON CONFLICT (\"id\") DO UPDATE SET \"age\" = EXCLUDED.\"age\""
unfolding upsert insert insert_sql quote_ident validate_identifier all_words is_word
    joined_quoted_idents join placeholders placeholder_list placeholder itoa digits conflict_target
    update_assignments assignment
upsert_text = refl

keys_text :
    where_key_for ascii sqlite (codes "a" ∷ codes "b" ∷ []) 1 ≡ codes "\"a\" = ? AND \"b\" = ?"
unfolding where_key_for key_conditions quote_ident validate_identifier all_words is_word join
    placeholder
keys_text = refl

-- A statement keeps its semicolon: the buffer ends with a space when the semicolon is to be cut off.
script_keeps_semicolon :
    load_sql_files (ok (codes "-- users\nCREATE TABLE a\n (x);\nDROP b\n") ∷ [])
    ≡ ok (codes "CREATE TABLE a (x);" ∷ codes "DROP b" ∷ [])
unfolding load_sql_files script_files script_lines script_line split_from has_prefix has_suffix
    trim_space trim_front trim_back space_size
script_keeps_semicolon = refl

insert_query-shape_example :
    erase false
      (upsert ascii sqlite (codes "users") users.columns users.conflict_columns (codes "age" ∷ []))
    ≡ query_shape mode_upsert sqlite 2 1 1
unfolding validate_table_and_columns validate_identifiers validate_identifier all_words is_word
    insert_query
insert_query-shape_example =
    insert_query-shape ascii users sqlite memory mode_upsert (codes "age" ∷ [])
      (upsert ascii sqlite (codes "users") users.columns users.conflict_columns (codes "age" ∷ []))
      refl refl refl refl

abbrev empty : EngineState Rows
empty = record { db = ([], none); writes = 0 }

save_batch-Atomic_example :
    Atomic ascii users sqlite memory memory_laws
      (λ q. insert_query ascii users sqlite memory plain [] ≡ ok q)
      ((1, 30) ∷ (9, 40) ∷ [])
      ([], none)
      (save_batch ascii users sqlite memory ((1, 30) ∷ (9, 40) ∷ []) plain empty)
save_batch-Atomic_example =
    save_batch-Atomic ascii users sqlite memory memory_laws (1, 30) ((9, 40) ∷ []) plain empty refl

upsert_batch-Atomic_example :
    Atomic ascii users sqlite memory memory_laws
      (λ q. upsert_query ascii users sqlite memory (codes "age" ∷ []) ≡ q)
      ((1, 30) ∷ [])
      ([], none)
      (upsert_batch ascii users sqlite memory ((1, 30) ∷ []) (codes "age" ∷ []) empty)
upsert_batch-Atomic_example =
    upsert_batch-Atomic ascii users sqlite memory memory_laws (1, 30) [] (codes "age" ∷ []) empty
      refl

-- A server that counts the scripts, of which there may be two; in a transaction it counts for itself.
abbrev counting : ℕ → Result (List ℕ) ℕ
counting n = if ltb n 2 then ok (n + 1) else err (codes "full")

abbrev Counter : Type 0
Counter = ℕ × Option ℕ

abbrev counted : Counter → Result (List ℕ) ℕ → Result (List ℕ) (Unit {0}) × Counter
counted (n, k) (ok m) = (ok tt, (n, some m))
counted s (err e) = (err e, s)

abbrev count_inside : Counter → Result (List ℕ) (Unit {0}) × Counter
count_inside (n, none) = (err (codes "no transaction"), (n, none))
count_inside (n, some k) = counted (n, some k) (counting k)

abbrev commit_count : Counter → Result DatabaseError (Unit {0}) × Counter
commit_count (n, none) = (err (driver_error (codes "no transaction")), (n, none))
commit_count (n, some k) = (ok tt, (k, none))

abbrev counter : Server Counter
counter = record {
  drivers = codes "sqlite" ∷ [];
  dir_of = λ s. s;
  mkdir_all = λ s. ok tt;
  open_dsn = λ d s. ok (0, none);
  exec = λ m s. map_ok (λ n. (n, s.1)) (counting s.0);
  begin = λ s. (ok tt, (s.0, some s.0));
  exec_in = λ m s. count_inside s;
  rollback = λ s. (s.0, none);
  commit = commit_count;
  driver_text = driver_error;
}

count_inside-counting :
    (s : Counter) (c : ℕ)
    → (count_inside s).0 ≡ ok tt
    → s.1 ≡ some c
    → (next : ℕ) × (counting c ≡ ok next) × ((count_inside s).1.1 ≡ some next)
count_inside-counting (n, none) c h e = absurd (ground arith)
count_inside-counting (n, some k) c h e =
    let same : k ≡ c = cc in
    elim (Result-cases (counting k)) [
      | inl (next, q) ↦ (next, rw same at q, rw q refl)
      | inr (x, q) ↦ absurd (let h' = rw q at h in ground arith)
    ]

count_inside_number : (s : Counter) → (count_inside s).1.0 ≡ s.0
count_inside_number (n, none) = refl
count_inside_number (n, some k) = elim (Result-cases (counting k)) [
  | inl (next, q) ↦ rw q refl
  | inr (x, q) ↦ rw q refl
]

commit_count_committed : (s : Counter) (c : ℕ) → s.1 ≡ some c → commit_count s ≡ (ok tt, (c, none))
commit_count_committed (n, none) c e = absurd (ground arith)
commit_count_committed (n, some k) c e = let same : k ≡ c = cc in rw same refl

begin_count_never : (s : Counter) (x : DatabaseError) → (counter.begin s).0 ≡ err x → some s.0 ≡ s.1
begin_count_never s x h = absurd (ground arith)

commit_count_never :
    (s : Counter) (c : ℕ) (x : DatabaseError)
    → (commit_count s).0 ≡ err x
    → s.1 ≡ some c
    → ((commit_count s).1.1 ≡ none) × (((commit_count s).1.0 ≡ s.0) ⊎ ((commit_count s).1.0 ≡ c))
commit_count_never s c x h e =
    absurd (let h' = rw (commit_count_committed s c e) at h in ground arith)

abbrev counter_laws : Transactional counter.begin counter.commit counter.rollback counter.exec_in ℕ
counter_laws = record {
  contents = λ s. s.0;
  pending = λ s. s.1;
  Applies = λ m c next. counting c ≡ ok next;
  begin_ok = λ s h. (refl, refl);
  begin_err = λ s x h. (refl, begin_count_never s x h);
  executes = λ m s c h e. count_inside-counting s c h e;
  keeps = λ m s. count_inside_number s;
  rolls_back = λ s. (refl, refl);
  commit_ok = λ s c h e. rw (commit_count_committed s c e) (refl, refl);
  commit_err = λ s c x h e. commit_count_never s c x h e;
}

migrate-Outcome_example :
    Outcome counter counter_laws
      (codes "a" ∷ codes "b" ∷ codes "c" ∷ [])
      (0, none)
      (migrate counter (codes "a" ∷ codes "b" ∷ codes "c" ∷ []) (0, none))
migrate-Outcome_example =
    migrate-Outcome counter counter_laws (codes "a") (codes "b" ∷ codes "c" ∷ []) (0, none) refl
