-- ===== src/Database/Reads.antt =====
-- database/base_engine.go: the reads and the removals of an engine.
use deskaone_sdk.Shared.{ℕ, Bool, true, false}
use deskaone_sdk.Shared.{Option, none, some, Result, ok, err, List, [], ◌∷◌, ◌++◌, map_ok}
use deskaone_sdk.Shared.Int.{ℤ}
use deskaone_sdk.Shared.Text.{codes}
use deskaone_sdk.Database.{
  DatabaseError, Dialect, no_keyset, invalid_mode, placeholder, validate_identifier, quote_ident,
  joined_quoted_idents,
}
use deskaone_sdk.Database.Engine.{
  EngineSpec, DriverOf, EngineState, PaginationMode, offset, keyset, other, and_then, notify_write,
  where_key_for, validate_table_and_columns, stored, guarded,
}

module _ {E K Value S : Type 0} (wide : ℕ → Bool) (spec : EngineSpec E K Value) (d : Dialect)
    (driver : DriverOf E Value S) where
  abbrev columns_or_all : List (List ℕ) → List ℕ
  columns_or_all [] = codes "*"
  columns_or_all (c ∷ cols) = joined_quoted_idents wide (c ∷ cols)

  unfoldable pub select_columns : List ℕ
  select_columns = columns_or_all spec.columns

  unfoldable pub select_from : List ℕ
  select_from =
      codes "SELECT " ++ (select_columns ++ (codes " FROM " ++ quote_ident wide spec.table))

  unfoldable pub find_query : List ℕ
  find_query =
      select_from
      ++ (codes " WHERE " ++ (where_key_for wide d spec.key_columns 1 ++ codes " LIMIT 1"))

  -- The first row, if there is one: `FromRow` decides about it alone.
  abbrev first_row : List (Result DatabaseError E) → Result DatabaseError (Option E)
  first_row [] = ok none
  first_row (r ∷ rows) = map_ok some r

  unfoldable pub find : K → S → Result DatabaseError (Option E)
  find key db =
      and_then (validate_table_and_columns wide spec d driver spec.key_columns)
        (λ u. and_then (driver.query find_query (spec.key_args key) db) first_row)

  -- The loop over the rows; the first error ends it.
  unfoldable pub all_rows : List (Result DatabaseError E) → Result DatabaseError (List E)
  all_rows [] = ok []
  all_rows (r ∷ rows) = and_then r (λ e. map_ok (λ es. e ∷ es) (all_rows rows))

  unfoldable pub offset_query : List ℕ
  offset_query =
      select_from ++ (codes " LIMIT " ++ (placeholder d 1 ++ (codes " OFFSET " ++ placeholder d 2)))

  unfoldable pub keyset_query : List ℕ → List ℕ
  keyset_query pk =
      codes "\n"
      ++ (select_from
          ++ (codes "\nWHERE "
              ++ (quote_ident wide pk
                  ++ (codes " > "
                      ++ (placeholder d 1
                          ++ (codes "\nORDER BY "
                              ++ (quote_ident wide pk
                                  ++ (codes "\nLIMIT " ++ (placeholder d 2 ++ codes "\n")))))))))

  abbrev load_after : Option (List ℕ) → Option ℤ → ℤ → S → Result DatabaseError (List E)
  load_after none last limit db = err no_keyset
  load_after (some pk) none limit db = err no_keyset
  load_after (some pk) (some last) limit db = and_then (validate_identifier wide pk) (λ u.
      and_then
        (driver.query (keyset_query pk) (driver.int_value last ∷ driver.int_value limit ∷ []) db)
        all_rows)

  abbrev load_in : PaginationMode → ℤ → ℤ → Option ℤ → S → Result DatabaseError (List E)
  load_in offset limit start last db =
      and_then (driver.query offset_query (driver.int_value limit ∷ driver.int_value start ∷ []) db)
        all_rows
  load_in keyset limit start last db = load_after spec.int_primary_key last limit db
  load_in other limit start last db = err invalid_mode

  unfoldable pub load : PaginationMode → ℤ → ℤ → Option ℤ → S → Result DatabaseError (List E)
  load mode limit start last db =
      and_then (validate_table_and_columns wide spec d driver [])
        (λ u. load_in mode limit start last db)

  unfoldable pub delete_query : List ℕ
  delete_query =
      codes "DELETE FROM "
      ++ (quote_ident wide spec.table
          ++ (codes " WHERE " ++ where_key_for wide d spec.key_columns 1))

  unfoldable pub delete : K → EngineState S → Result DatabaseError (Unit {0}) × EngineState S
  delete key s =
      guarded wide spec d driver (validate_table_and_columns wide spec d driver spec.key_columns) s
        (λ u.
          let t = notify_write s in
          stored wide spec d driver t (driver.exec delete_query (spec.key_args key) t.db))

  unfoldable pub delete_all_query : List ℕ
  delete_all_query = codes "DELETE FROM " ++ quote_ident wide spec.table

  unfoldable pub delete_all : EngineState S → Result DatabaseError (Unit {0}) × EngineState S
  delete_all s =
      guarded wide spec d driver (validate_table_and_columns wide spec d driver []) s (λ u.
        let t = notify_write s in
        stored wide spec d driver t (driver.exec delete_all_query [] t.db))

  unfoldable pub count_query : List ℕ
  count_query = codes "SELECT COUNT(*) FROM " ++ quote_ident wide spec.table

  unfoldable pub count : S → Result DatabaseError ℤ
  count db =
      and_then (validate_table_and_columns wide spec d driver []) (λ u. driver.count count_query db)

  -- The row is an integer, of which only matters whether it is there.
  unfoldable pub is_empty_query : List ℕ
  is_empty_query = codes "SELECT 1 FROM " ++ (quote_ident wide spec.table ++ codes " LIMIT 1")

  abbrev has_none : Option (Result DatabaseError ℤ) → Result DatabaseError Bool
  has_none none = ok true
  has_none (some (ok n)) = ok false
  has_none (some (err e)) = err e

  -- `first` gives the first row of a query of one number, if there is one.
  unfoldable pub is_empty_fast :
      (List ℕ → S → Option (Result DatabaseError ℤ)) → S → Result DatabaseError Bool
  is_empty_fast first db =
      and_then (validate_table_and_columns wide spec d driver [])
        (λ u. has_none (first is_empty_query db))
