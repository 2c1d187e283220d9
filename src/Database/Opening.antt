-- ===== src/Database/Opening.antt =====
-- database/engine.go, migration.go and scheduler.go: opening a database, the migrations, script files,
-- and the maintenance of SQLite.
pub mod Migrations
use Prim.Native.String.{String}
use deskaone_sdk.Shared.{ℕ, zero, suc, ◌+◌, ◌-◌, ◌*◌, Bool, true, false, not, ◌&&◌, ◌||◌}
use deskaone_sdk.Shared.{
  Option, none, some, Result, ok, err, List, [], ◌∷◌, ◌++◌, length, take, map_ok,
}
use deskaone_sdk.Shared.{◌==◌, if◌then◌else◌, ltb}
use deskaone_sdk.Shared.Int.{ℤ, pos, ltb_ℤ}
use deskaone_sdk.Shared.Text.{codes, text_eq, is_empty_text, trim_space, has_prefix, has_suffix}
use deskaone_sdk.Shared.Words.{split}
use deskaone_sdk.Database.{
  DatabaseError, Dialect, empty_driver, empty_dsn, not_registered, empty_path, no_migrations,
  failed_migration, dialect_for_driver, driver_name, init_statements, supports_maintenance,
}
use deskaone_sdk.Database.Engine.{and_then}

pub record Config : Type 0 where
  pub driver : List ℕ
  pub dsn : List ℕ
  pub auto_migrate : Bool
  pub migrations : List (List ℕ)
  pub enable_maintenance : Bool

-- The lines of `loadSQLFiles`: comments and blank lines are dropped, the others are joined up to one
-- that ends with a semicolon. The state is the statements so far, and what is in the buffer.
abbrev pub Script : Type 0
Script = List (List ℕ) × List ℕ

-- `strings.TrimSuffix(buf, ";")`.
abbrev trim_suffix : List ℕ → List ℕ
trim_suffix s = if has_suffix (codes ";") s then take (length s - 1) s else s

unfoldable pub script_line : Script → List ℕ → Script
script_line (out, buf) line =
    let text = trim_space line in
    let more = buf ++ (text ++ codes " ") in
    if is_empty_text text || has_prefix (codes "--") text
    then (out, buf)
    else if has_suffix (codes ";") text
    then (out ++ (trim_space (trim_suffix more) ∷ []), [])
    else (out, more)

unfoldable pub script_lines : Script → List (List ℕ) → Script
script_lines s [] = s
script_lines s (line ∷ lines) = script_lines (script_line s line) lines

-- The loop over the files, each with its text or the error that reading it gives.
unfoldable pub script_files :
    Script → List (Result DatabaseError (List ℕ)) → Result DatabaseError Script
script_files s [] = ok s
script_files s (file ∷ files) =
    and_then file (λ text. script_files (script_lines s (split (codes "\n") text)) files)

abbrev flushed : Script → List (List ℕ)
flushed (out, []) = out
flushed (out, b ∷ buf) = out ++ (trim_space (b ∷ buf) ∷ [])

unfoldable pub load_sql_files :
    List (Result DatabaseError (List ℕ)) → Result DatabaseError (List (List ℕ))
load_sql_files files = map_ok flushed (script_files ([], []) files)

-- How `startWithPath` chooses the statements.
abbrev chosen :
    List (Result DatabaseError (List ℕ)) → List (List ℕ) → Result DatabaseError (List (List ℕ))
chosen [] [] = err no_migrations
chosen [] (t ∷ table) = ok (t ∷ table)
chosen (f ∷ files) table = load_sql_files (f ∷ files)

unfoldable pub start_config :
    List ℕ → List (Result DatabaseError (List ℕ)) → List (List ℕ) → Result DatabaseError Config
start_config path files table =
    if is_empty_text (trim_space path)
    then err empty_path
    else map_ok
        (λ migrations. record {
          driver = codes "sqlite";
          dsn = trim_space path;
          auto_migrate = true;
          migrations = migrations;
          enable_maintenance = true;
        })
        (chosen files table)

-- The server as the engine uses it, on states `S` of the database and its transaction, which may be open:
-- statements outside a transaction, its beginning, statements in it, and its two ends; the registered
-- drivers, filepath.Dir and os.MkdirAll.
pub record Server (S : Type 0) : Type 0 where
  pub drivers : List (List ℕ)
  pub dir_of : List ℕ → List ℕ
  pub mkdir_all : List ℕ → Result DatabaseError (Unit {0})
  pub open_dsn : List ℕ → List ℕ → Result DatabaseError S
  pub exec : List ℕ → S → Result (List ℕ) S
  pub begin : S → Result DatabaseError (Unit {0}) × S
  pub exec_in : List ℕ → S → Result (List ℕ) (Unit {0}) × S
  pub rollback : S → S
  pub commit : S → Result DatabaseError (Unit {0}) × S
  pub driver_text : List ℕ → DatabaseError

module _ {S : Type 0} (server : Server S) where
  -- A statement of `Migrate`, numbered `i`: where it fails, the transaction is rolled back.
  unfoldable pub numbered :
      ℕ
      → Result (List ℕ) (Unit {0}) × S
      → (S → Result DatabaseError (Unit {0}) × S)
      → Result DatabaseError (Unit {0}) × S
  numbered i (ok u, db) next = next db
  numbered i (err e, db) next = (err (failed_migration i e), server.rollback db)

  -- The loop of `Migrate` in its transaction, from statement `i` on.
  unfoldable pub run_migrations : ℕ → List (List ℕ) → S → Result DatabaseError (Unit {0}) × S
  run_migrations i [] db = (ok tt, db)
  run_migrations i (m ∷ ms) db =
      numbered i (server.exec_in m db) (λ next. run_migrations (i + 1) ms next)

  abbrev pub if_ok :
      Result DatabaseError (Unit {0}) × S
      → (S → Result DatabaseError (Unit {0}) × S)
      → Result DatabaseError (Unit {0}) × S
  if_ok (ok u, db) next = next db
  if_ok (err e, db) next = (err e, db)

  unfoldable pub migrate : List (List ℕ) → S → Result DatabaseError (Unit {0}) × S
  migrate [] db = (ok tt, db)
  migrate (m ∷ ms) db =
      if_ok (server.begin db) (λ open'. if_ok (run_migrations 0 (m ∷ ms) open') server.commit)

  -- The loop of `Init`.
  unfoldable pub init : List (List ℕ) → S → Result DatabaseError S
  init [] db = ok db
  init (stmt ∷ stmts) db = elim (server.exec stmt db) [
    | ok next ↦ init stmts next
    | err e ↦ err (server.driver_text e)
  ]

  -- An engine: its dialect, the database, and whether the scheduler runs.
  pub record Opened : Type 0 where
    pub dialect : Dialect
    pub db : S
    pub scheduled : Bool

  unfoldable pub ensure_sqlite_parent_dir : List ℕ → Result DatabaseError (Unit {0})
  ensure_sqlite_parent_dir dsn =
      let dir = server.dir_of dsn in
      if text_eq dsn (codes ":memory:") || has_prefix (codes "file:") dsn
      then ok tt
      else if text_eq dir (codes ".") || is_empty_text dir
      then ok tt
      else server.mkdir_all dir

  -- The loop of `isSQLDriverRegistered`.
  unfoldable pub is_one_of : List (List ℕ) → List ℕ → Bool
  is_one_of [] name = false
  is_one_of (registered ∷ names) name = text_eq registered name || is_one_of names name

  abbrev parent : Dialect → List ℕ → Result DatabaseError (Unit {0})
  parent Dialect.sqlite dsn = ensure_sqlite_parent_dir dsn
  parent Dialect.postgres dsn = ok tt

  abbrev is_registered : Dialect → Result DatabaseError (Unit {0})
  is_registered d = if is_one_of server.drivers (driver_name d) then ok tt else err not_registered

  abbrev migrated : Bool → List (List ℕ) → S → Result DatabaseError S
  migrated true ms db = let (r, next) = migrate ms db in map_ok (λ u. next) r
  migrated false ms db = ok db

  unfoldable pub open_database : Config → Result DatabaseError Opened
  open_database config =
      if is_empty_text config.driver
      then err empty_driver
      else if is_empty_text (trim_space config.dsn)
      then err empty_dsn
      else and_then (dialect_for_driver config.driver) (λ d. and_then (parent d config.dsn) (λ u.
        and_then (is_registered d) (λ v.
          and_then (server.open_dsn (driver_name d) config.dsn) (λ db.
            and_then (init (init_statements d) db) (λ ready.
              map_ok
                (λ last. record {
                  dialect = d;
                  db = last;
                  scheduled = config.enable_maintenance && supports_maintenance d;
                })
                (migrated config.auto_migrate config.migrations ready))))))

-- `isWriteHot`: the last write, if there was one, and the time now and the cooldown, in one unit.
unfoldable pub is_write_hot : Option ℕ → ℕ → ℕ → Bool
is_write_hot none now cooldown = false
is_write_hot (some written) now cooldown = ltb (now - written) cooldown

-- A tick of one of the three tickers of the scheduler, and what it runs.
pub data Tick : Type 0 where
  checkpoint truncate vacuum : Tick

pub data Work : Type 0 where
  run : List ℕ → Work
  -- VACUUM, behind a checkpoint, where the share of free pages is a quarter at least.
  maybe_vacuum : Work

abbrev work_of : Tick → Work
work_of checkpoint = run (codes "PRAGMA wal_checkpoint(PASSIVE);")
work_of truncate = run (codes "PRAGMA wal_checkpoint(TRUNCATE);")
work_of vacuum = maybe_vacuum

abbrev pub quiet_seconds : ℕ
quiet_seconds = 30

-- A round of the scheduler's loop, at the time `now`.
unfoldable pub on_tick : Option ℕ → ℕ → Tick → Option Work
on_tick written now tick =
    if is_write_hot written now quiet_seconds then none else some (work_of tick)

-- Whether `maybeVacuum` runs VACUUM at the threshold 0.25, which the quotient of two floats reaches
-- where that of the counts does, as long as they are below 2 ^ 53.
unfoldable pub needs_vacuum : ℕ → ℕ → Bool
needs_vacuum page_count free = not (page_count == 0) && not (ltb (free * 4) page_count)
