-- ===== src/Postgres/Tests.antt =====
-- Migrations and identifiers on small inputs.
use mathlib.Core.Option
use mathlib.Core.List.{Perm}
use deskaone_sdk.Shared.{
  ℕ, ◌≡◌, refl, true, false, Bool, some, List, [], ◌∷◌, ◌++◌, ok, err, All, arith,
}
use deskaone_sdk.Shared.Text.{codes, index_of, has_prefix, has_suffix}
use deskaone_sdk.Shared.Words.{atoi, parse_digits}
use deskaone_sdk.Postgres.{Migration, Entry, Row, Database, bad_number, is_sql_file}
use deskaone_sdk.Postgres.{parse_migration_version, read_migrations, read_entries, read_entry}
use deskaone_sdk.Postgres.{sort_migrations, sort_onto, insert_back, migrate, migrate_one}
use deskaone_sdk.Postgres.{apply_migration, quote_ident, double_quotes}
use deskaone_sdk.Postgres.Sorting.{IsSorted, sort_migrations-IsSorted}
use deskaone_sdk.Postgres.Reading.{IsDistinct, names, sql_names, read_migrations_complete}
use deskaone_sdk.Postgres.Applying.{IsRecorded, Extends, migrate-IsRecorded}
use deskaone_sdk.Postgres.Quoting.{read_quoted, read_quoted-quote_ident}

version : parse_migration_version (codes "010_ten.sql") ≡ ok 10
unfolding parse_migration_version index_of has_prefix atoi parse_digits Option.bind
version = refl

no_version : parse_migration_version (codes "000_zero.sql") ≡ err bad_number
unfolding parse_migration_version index_of has_prefix atoi parse_digits Option.bind
no_version = refl

quoted :
    quote_ident (codes "app" ++ (b'"' ∷ codes "db"))
    ≡ b'"' ∷ codes "app" ++ (b'"' ∷ b'"' ∷ codes "db" ++ (b'"' ∷ []))
unfolding quote_ident double_quotes
quoted = refl

read_quoted-quote_ident_example :
    read_quoted (quote_ident (codes "a" ++ (b'"' ∷ [])) ++ codes ";")
    ≡ some (codes "a" ++ (b'"' ∷ []), codes ";")
read_quoted-quote_ident_example =
    read_quoted-quote_ident (codes "a" ++ (b'"' ∷ [])) (codes ";") (ground arith)

abbrev migration : ℕ → List ℕ → Migration
migration version name = record {
  version = version;
  name = name;
  path = name;
  sql = codes "SELECT 1";
  checksum = codes "SELECT 1";
}

abbrev file : List ℕ → Entry
file name = record { name = name; is_dir = false; content = some (codes "SELECT 1") }

abbrev same : List ℕ → List ℕ
same s = s

abbrev directory : List Entry
directory = file (codes "10_b.sql") ∷ file (codes "2_a.sql") ∷ file (codes "readme.txt") ∷ []

abbrev in_order : List Migration
in_order = migration 2 (codes "2_a.sql") ∷ migration 10 (codes "10_b.sql") ∷ []

read : read_migrations same same (some directory) ≡ ok in_order
unfolding read_migrations read_entries read_entry is_sql_file has_suffix has_prefix index_of atoi
    parse_digits parse_migration_version sort_migrations sort_onto insert_back Option.bind
read = refl

read_migrations_complete_example :
    IsSorted in_order
    × ((us : List Migration) × Perm in_order us × IsDistinct us × (names us ≡ sql_names directory))
read_migrations_complete_example = read_migrations_complete same same directory in_order read

sort_migrations-IsSorted_example :
    IsSorted (sort_migrations in_order) × Perm (sort_migrations in_order) in_order
sort_migrations-IsSorted_example = sort_migrations-IsSorted in_order

abbrev empty : Database
empty = record { applied = []; executed = [] }

abbrev all_succeed : Migration → Bool
all_succeed m = true

abbrev row : ℕ → List ℕ → Row
row version name = record { version = version; name = name; checksum = codes "SELECT 1" }

abbrev migrated : Database
migrated = record {
  applied = row 2 (codes "2_a.sql") ∷ row 10 (codes "10_b.sql") ∷ [];
  executed = codes "SELECT 1" ∷ codes "SELECT 1" ∷ [];
}

run : migrate all_succeed in_order empty ≡ (ok tt, migrated)
unfolding migrate migrate_one apply_migration
run = refl

migrate-IsRecorded_example :
    All (IsRecorded migrated) in_order
    × Extends empty migrated
    × (migrate all_succeed in_order migrated ≡ (ok tt, migrated))
migrate-IsRecorded_example = migrate-IsRecorded all_succeed in_order empty migrated run
