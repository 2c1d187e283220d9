-- ===== src/Database.antt =====
-- database/dialect.go, sqlite.go, postgres.go: identifiers and the statements of the two dialects. Texts
-- are lists of runes here, as a range loop over a string gives them; a name that is accepted has no
-- byte that is no rune.
pub mod Transactions
pub mod Engine
pub mod Shapes
pub mod Statements
pub mod Reads
pub mod Opening
mod Tests
use Prim.Native.String.{String}
use deskaone_sdk.Shared.{ℕ, zero, suc, ◌+◌, Bool, true, false, ◌&&◌, ◌||◌, Result, ok, err}
use deskaone_sdk.Shared.{List, [], ◌∷◌, ◌++◌, map, length, leb, ◌==◌, if◌then◌else◌}
use deskaone_sdk.Shared.Text.{codes, itoa, text_eq, is_empty_text}
use deskaone_sdk.Shared.Words.{join}

pub data DatabaseError : Type 0 where
  empty_driver empty_dsn : DatabaseError
  unsupported_driver invalid_identifier : List ℕ → DatabaseError
  -- Values and columns differ in number.
  wrong_count : ℕ → ℕ → DatabaseError
  no_conflict_columns no_update_columns replace_without_conflict : DatabaseError
  no_keyset invalid_mode empty_path no_migrations not_registered : DatabaseError
  failed_migration : ℕ → List ℕ → DatabaseError
  -- An error of the driver, the server or the disk, by its text.
  driver_error : List ℕ → DatabaseError

-- The types that implement the interface `Dialect`.
pub data Dialect : Type 0 where
  sqlite postgres : Dialect

unfoldable pub driver_name : Dialect → List ℕ
driver_name sqlite = codes "sqlite"
driver_name postgres = codes "postgres"

pub dialect_for_driver : List ℕ → Result DatabaseError Dialect
dialect_for_driver driver =
    if text_eq driver (codes "sqlite")
    then ok sqlite
    else if text_eq driver (codes "postgres")
    then ok postgres
    else if is_empty_text driver
    then err empty_driver
    else err (unsupported_driver driver)

unfoldable pub supports_maintenance : Dialect → Bool
supports_maintenance sqlite = true
supports_maintenance postgres = false

-- The statements of `Init`.
unfoldable pub init_statements : Dialect → List (List ℕ)
init_statements sqlite =
    codes "PRAGMA journal_mode = WAL;"
    ∷ codes "PRAGMA synchronous = NORMAL;"
    ∷ codes "PRAGMA foreign_keys = ON;"
    ∷ []
init_statements postgres = []

unfoldable pub placeholder : Dialect → ℕ → List ℕ
placeholder sqlite index = codes "?"
placeholder postgres index = b'$' ∷ itoa index

-- The loop of `placeholdersFor`.
unfoldable pub placeholder_list : Dialect → ℕ → ℕ → List (List ℕ)
placeholder_list d zero start = []
placeholder_list d (suc n) start = placeholder d start ∷ placeholder_list d n (start + 1)

unfoldable pub placeholders : Dialect → ℕ → ℕ → List ℕ
placeholders d n start = join (codes ", ") (placeholder_list d n start)

-- `wide` says of a rune outside ASCII whether unicode.IsLetter or unicode.IsDigit holds.
module _ (wide : ℕ → Bool) where
  unfoldable pub is_word : ℕ → Bool
  is_word r =
      r == b'_'
      || ((leb b'a' r && leb r b'z')
          || ((leb b'A' r && leb r b'Z') || ((leb b'0' r && leb r b'9') || (leb 128 r && wide r))))

  -- The loop of `validateIdentifier`.
  unfoldable pub all_words : List ℕ → Bool
  all_words [] = true
  all_words (r ∷ name) = is_word r && all_words name

  unfoldable pub validate_identifier : List ℕ → Result DatabaseError (Unit {0})
  validate_identifier [] = err (invalid_identifier [])
  validate_identifier (r ∷ name) =
      if all_words (r ∷ name) then ok tt else err (invalid_identifier (r ∷ name))

  abbrev quoted : List ℕ → Result DatabaseError (Unit {0}) → List ℕ
  quoted name (ok u) = b'"' ∷ (name ++ (b'"' ∷ []))
  quoted name (err e) = []

  unfoldable pub quote_ident : List ℕ → List ℕ
  quote_ident name = quoted name (validate_identifier name)

  unfoldable pub joined_quoted_idents : List (List ℕ) → List ℕ
  joined_quoted_idents names = join (codes ", ") (map quote_ident names)

  unfoldable pub insert_sql : Dialect → List ℕ → List ℕ → List (List ℕ) → List ℕ
  insert_sql d verb table cols =
      verb
      ++ (codes " INTO "
          ++ (quote_ident table
              ++ (codes " ("
                  ++ (joined_quoted_idents cols
                      ++ (codes ") VALUES (" ++ (placeholders d (length cols) 1 ++ codes ")"))))))

  unfoldable pub conflict_target : List (List ℕ) → List ℕ
  conflict_target [] = []
  conflict_target (c ∷ cols) = codes "(" ++ (joined_quoted_idents (c ∷ cols) ++ codes ")")

  unfoldable pub assignment : List ℕ → List ℕ
  assignment col = quote_ident col ++ (codes " = EXCLUDED." ++ quote_ident col)

  unfoldable pub update_assignments : List (List ℕ) → List ℕ
  update_assignments cols = join (codes ", ") (map assignment cols)

  unfoldable pub insert : Dialect → List ℕ → List (List ℕ) → List ℕ
  insert d table cols = insert_sql d (codes "INSERT") table cols

  -- The same in both dialects.
  unfoldable pub upsert : Dialect → List ℕ → List (List ℕ) → List (List ℕ) → List (List ℕ) → List ℕ
  upsert d table cols conflicts updates =
      insert d table cols
      ++ (codes " ON CONFLICT "
          ++ (conflict_target conflicts ++ (codes " DO UPDATE SET " ++ update_assignments updates)))

  unfoldable pub insert_ignore : Dialect → List ℕ → List (List ℕ) → List (List ℕ) → List ℕ
  insert_ignore sqlite table cols conflicts =
      insert_sql sqlite (codes "INSERT OR IGNORE") table cols
  insert_ignore postgres table cols [] =
      insert postgres table cols ++ codes " ON CONFLICT DO NOTHING"
  insert_ignore postgres table cols (c ∷ conflicts) =
      insert postgres table cols
      ++ (codes " ON CONFLICT " ++ (conflict_target (c ∷ conflicts) ++ codes " DO NOTHING"))

  unfoldable pub insert_replace : Dialect → List ℕ → List (List ℕ) → List (List ℕ) → List ℕ
  insert_replace sqlite table cols conflicts =
      insert_sql sqlite (codes "INSERT OR REPLACE") table cols
  insert_replace postgres table cols conflicts = upsert postgres table cols conflicts cols
