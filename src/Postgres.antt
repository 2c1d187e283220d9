-- ===== src/Postgres.antt =====
-- database/postgres/postgres.go: the reading of migration files and their application. The driver
-- and the server are the state of the database and the outcome of each script.
pub mod Sorting
pub mod Reading
pub mod Applying
pub mod Quoting
mod Tests
use Prim.Native.String.{String}
use mathlib.Core.List.{reverse}
use deskaone_sdk.Shared.{ℕ, zero, suc, ◌+◌, Bool, true, false, not, ◌||◌, Option, none, some}
use deskaone_sdk.Shared.{
  List, [], ◌∷◌, ◌++◌, Result, ok, err, leb, ltb, ◌==◌, if◌then◌else◌, take, drop, map_ok,
}
use deskaone_sdk.Shared.Int.{ℤ, pos, negsuc, ltb_ℤ}
use deskaone_sdk.Shared.Text.{codes, text_eq, index_of, has_suffix, is_empty_text}
use deskaone_sdk.Shared.Words.{atoi}

pub record Config : Type 0 where
  pub host : List ℕ
  pub port : ℤ
  pub user : List ℕ
  pub password : List ℕ
  pub database : List ℕ
  pub admin_database : List ℕ
  pub ssl_mode : List ℕ
  pub auto_create_database : Bool
  pub auto_migrate : Bool
  pub max_conns : ℤ
  pub min_conns : ℤ

abbrev or_default : List ℕ → List ℕ → List ℕ
or_default [] d = d
or_default (b ∷ s) d = b ∷ s

abbrev port_or_default : ℤ → ℤ
port_or_default (pos n) = if n == 0 then pos 5432 else pos n
port_or_default (negsuc n) = negsuc n

pub normalize_config : Config → Config
normalize_config c = record c {
  host = or_default c.host (codes "127.0.0.1");
  port = port_or_default c.port;
  admin_database = or_default c.admin_database (codes "postgres");
  ssl_mode = or_default c.ssl_mode (codes "disable");
}

-- `strings.ReplaceAll(name, "\"", "\"\"")`.
pub double_quotes : List ℕ → List ℕ
double_quotes [] = []
double_quotes (b ∷ s) = let rest = double_quotes s in if b == b'"' then b ∷ b ∷ rest else b ∷ rest

pub quote_ident : List ℕ → List ℕ
quote_ident name = b'"' ∷ double_quotes name ++ (b'"' ∷ [])

pub record Migration : Type 0 where
  pub version : ℕ
  pub name : List ℕ
  pub path : List ℕ
  pub sql : List ℕ
  pub checksum : List ℕ

pub data PostgresError : Type 0 where
  bad_prefix bad_number unreadable_directory : PostgresError
  duplicate_version : ℕ → List ℕ → List ℕ → PostgresError
  unreadable_file : List ℕ → PostgresError
  checksum_mismatch : Migration → List ℕ → List ℕ → PostgresError
  failed_script : Migration → PostgresError

-- `version <= 0` is refused, so a version is a positive number.
abbrev pub positive_version : Option ℤ → Result PostgresError ℕ
positive_version (some (pos (suc n))) = ok (suc n)
positive_version (some (pos zero)) = err bad_number
positive_version (some (negsuc n)) = err bad_number
positive_version none = err bad_number

-- The text before the underscore; `strings.Cut` finds none where there is no underscore.
abbrev pub version_of_prefix : List ℕ → Option ℕ → Result PostgresError ℕ
version_of_prefix name none = err bad_prefix
version_of_prefix name (some zero) = err bad_prefix
version_of_prefix name (some (suc i)) = positive_version (atoi (take (suc i) name))

pub parse_migration_version : List ℕ → Result PostgresError ℕ
parse_migration_version name = version_of_prefix name (index_of (b'_' ∷ []) name)

-- The inner loop of `sortMigrations`, from the sorted part's end: it is given reversed.
pub insert_back : Migration → List Migration → List Migration
insert_back m [] = m ∷ []
insert_back m (l ∷ rest) =
    let moved = insert_back m rest in if ltb m.version l.version then l ∷ moved else m ∷ l ∷ rest

-- The outer loop, with the sorted part reversed.
pub sort_onto : List Migration → List Migration → List Migration
sort_onto done [] = done
sort_onto done (m ∷ rest) = sort_onto (insert_back m done) rest

pub sort_migrations : List Migration → List Migration
sort_migrations ms = reverse (sort_onto [] ms)

-- A directory entry; `content` is what reading the file gives, if it can be read.
pub record Entry : Type 0 where
  pub name : List ℕ
  pub is_dir : Bool
  pub content : Option (List ℕ)

-- The files that are migrations.
pub is_sql_file : Entry → Bool
is_sql_file e = not (e.is_dir || not (has_suffix (codes ".sql") e.name))

-- `seen[version]`.
abbrev pub name_of_version : List (ℕ × List ℕ) → ℕ → Option (List ℕ)
name_of_version [] v = none
name_of_version ((w, name) ∷ seen) v = if w == v then some name else name_of_version seen v

abbrev pub and_then : {E A B : Type 0} → Result E A → (A → Result E B) → Result E B
and_then (ok a) f = f a
and_then (err e) f = err e

abbrev pub not_seen : ℕ → List ℕ → Option (List ℕ) → Result PostgresError (Unit {0})
not_seen version name none = ok tt
not_seen version name (some old) = err (duplicate_version version old name)

abbrev pub file_content : List ℕ → Option (List ℕ) → Result PostgresError (List ℕ)
file_content path none = err (unreadable_file path)
file_content path (some sql) = ok sql

-- `checksum` stands for the hexadecimal SHA-256 sum, `join_path` for path.Join with the directory.
module _ (checksum join_path : List ℕ → List ℕ) where
  pub read_entry : List (ℕ × List ℕ) → Entry → Result PostgresError Migration
  read_entry seen e = and_then (parse_migration_version e.name) λ version.
      and_then (not_seen version e.name (name_of_version seen version)) λ u.
        and_then (file_content (join_path e.name) e.content) λ sql. ok (record {
          version = version;
          name = e.name;
          path = join_path e.name;
          sql = sql;
          checksum = checksum sql;
        })

  -- The loop of `readMigrations`.
  pub read_entries : List (ℕ × List ℕ) → List Entry → Result PostgresError (List Migration)
  read_entries seen [] = ok []
  read_entries seen (e ∷ es) =
      let skipped = read_entries seen es in
      let taken : Result PostgresError (List Migration) =
        and_then (read_entry seen e)
          λ m. map_ok (λ ms. m ∷ ms) (read_entries ((m.version, e.name) ∷ seen) es) in
      if is_sql_file e then taken else skipped

  pub read_migrations : Option (List Entry) → Result PostgresError (List Migration)
  read_migrations none = err unreadable_directory
  read_migrations (some entries) = map_ok sort_migrations (read_entries [] entries)

-- A row of schema_migrations, and the database: its rows, and the scripts that were committed.
pub record Row : Type 0 where
  pub version : ℕ
  pub name : List ℕ
  pub checksum : List ℕ

pub record Database : Type 0 where
  pub applied : List Row
  pub executed : List (List ℕ)

abbrev pub row_of_version : List Row → ℕ → Option Row
row_of_version [] v = none
row_of_version (r ∷ rows) v = if r.version == v then some r else row_of_version rows v

pub check_applied_migration : Migration → Row → Result PostgresError (Unit {0})
check_applied_migration m r =
    if not (text_eq r.checksum m.checksum)
    then err (checksum_mismatch m r.name r.checksum)
    else ok tt

-- `applyMigration`: script and row are one transaction. `succeeds` says whether the server runs and
-- commits it; where it does not, nothing of it stays.
pub apply_migration :
    (Migration → Bool) → Migration → Database → Result PostgresError (Unit {0}) × Database
apply_migration succeeds m db =
    if succeeds m
    then (
      ok tt,
      record {
        applied =
            db.applied
            ++ (record { version = m.version; name = m.name; checksum = m.checksum } ∷ []);
        executed = db.executed ++ (m.sql ∷ []);
      },
    )
    else (err (failed_script m), db)

-- One migration: what is recorded is checked, what is not is applied.
pub migrate_one :
    (Migration → Bool) → Migration → Database → Result PostgresError (Unit {0}) × Database
migrate_one succeeds m db = elim (row_of_version db.applied m.version) [
  | some r ↦ (check_applied_migration m r, db)
  | none ↦ apply_migration succeeds m db
]

abbrev pub continue_if_ok :
    Result PostgresError (Unit {0}) × Database
    → (Database → Result PostgresError (Unit {0}) × Database)
    → Result PostgresError (Unit {0}) × Database
continue_if_ok (ok u, db) f = f db
continue_if_ok (err e, db) f = (err e, db)

-- The loop of `Migrate`.
pub migrate :
    (Migration → Bool) → List Migration → Database → Result PostgresError (Unit {0}) × Database
migrate succeeds [] db = (ok tt, db)
migrate succeeds (m ∷ ms) db =
    continue_if_ok (migrate_one succeeds m db) (λ next. migrate succeeds ms next)
