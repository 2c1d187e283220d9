-- ===== src/Postgres/Applying.antt =====
-- Migrate records what it applies, and a second run changes nothing.
use deskaone_sdk.Shared.{ℕ, ◌≡◌, refl, ap, ◌∙◌, sym, arith, Bool, true, inl, inr}
use deskaone_sdk.Shared.{none, some, Option-cases, List, [], ◌∷◌, ◌++◌, Result, ok, err, All}
use deskaone_sdk.Shared.Text.{text_eq, text_eq_refl, text_eq→eq}
use deskaone_sdk.Postgres.{Migration, Row, Database, PostgresError, row_of_version, migrate}
use deskaone_sdk.Postgres.{migrate_one, apply_migration, check_applied_migration, continue_if_ok}

-- The version of a migration is recorded, with the checksum of its script.
abbrev pub IsRecorded : Database → Migration → Type 0
IsRecorded db m =
    (r : Row) × (row_of_version db.applied m.version ≡ some r) × (r.checksum ≡ m.checksum)

row_of_version-append :
    (rows more : List Row) (v : ℕ) (r : Row)
    → row_of_version rows v ≡ some r
    → row_of_version (rows ++ more) v ≡ some r
row_of_version-append [] more v r h = absurd (ground arith)
row_of_version-append (x ∷ rows) more v r h = ground (arith, row_of_version-append rows more v r)

row_of_version-new :
    (rows : List Row) (r : Row)
    → row_of_version rows r.version ≡ none
    → row_of_version (rows ++ (r ∷ [])) r.version ≡ some r
row_of_version-new [] r h = ground arith
row_of_version-new (x ∷ rows) r h = ground (arith, row_of_version-new rows r)

-- Rows stay.
abbrev pub Extends : Database → Database → Type 0
Extends s t =
    (v : ℕ) (r : Row) → row_of_version s.applied v ≡ some r → row_of_version t.applied v ≡ some r

module _ (succeeds : Migration → Bool) where
  migrate_one-Extends : (m : Migration) (s : Database) → Extends s (migrate_one succeeds m s).1
  unfolding migrate_one apply_migration
  migrate_one-Extends m s v r h = ground (
    arith,
    row_of_version-append s.applied
        (record { version = m.version; name = m.name; checksum = m.checksum } ∷ []) v r,
  )

  migrate-Extends : (ms : List Migration) (s : Database) → Extends s (migrate succeeds ms s).1
  unfolding migrate
  migrate-Extends [] s v r h = h
  migrate-Extends (m ∷ ms) s v r h =
      ground
        (arith, migrate_one-Extends m s v r h, migrate-Extends ms (migrate_one succeeds m s).1 v r)

  migrate_one-IsRecorded :
      (m : Migration) (s t : Database) → migrate_one succeeds m s ≡ (ok tt, t) → IsRecorded t m
  unfolding migrate_one apply_migration check_applied_migration
  migrate_one-IsRecorded m s t h = elim (Option-cases (row_of_version s.applied m.version)) [
    | inl e ↦
        (let new : Row = record { version = m.version; name = m.name; checksum = m.checksum } in
          (new, ground (arith, row_of_version-new s.applied new), refl))
    | inr (r, e) ↦ (r, ground arith, ground (arith, text_eq→eq r.checksum m.checksum))
  ]

  both_ok :
      (r : Result PostgresError (Unit {0}) × Database)
      (f : Database → Result PostgresError (Unit {0}) × Database) (t : Database)
      → continue_if_ok r f ≡ (ok tt, t)
      → (r ≡ (ok tt, r.1)) × (f r.1 ≡ (ok tt, t))
  both_ok (ok tt, s) f t h = (refl, h)
  both_ok (err e, s) f t h = absurd (ground arith)

  All-IsRecorded :
      (ms : List Migration) (s t : Database)
      → migrate succeeds ms s ≡ (ok tt, t)
      → All (IsRecorded t) ms
  unfolding migrate
  All-IsRecorded [] s t h = tt
  All-IsRecorded (m ∷ ms) s t h =
      let one = migrate_one succeeds m s in
      let (first, rest) = both_ok one (λ next. migrate succeeds ms next) t h in
      let (r, at, same) = migrate_one-IsRecorded m s one.1 first in
      let kept = migrate-Extends ms one.1 m.version r at in
      (
        (
          r,
          ap
                (λ (q : Result PostgresError (Unit {0}) × Database).
                  row_of_version q.1.applied m.version)
                (sym rest)
              ∙ kept,
          same,
        ),
        All-IsRecorded ms one.1 t rest,
      )

  checked_again :
      (m : Migration) (t : Database) → IsRecorded t m → migrate_one succeeds m t ≡ (ok tt, t)
  unfolding migrate_one check_applied_migration
  checked_again m t (r, at, same) =
      let equal : text_eq r.checksum m.checksum ≡ true =
        ap (text_eq r.checksum) (sym same) ∙ text_eq_refl r.checksum in
      ground arith

  rerun :
      (ms : List Migration) (t : Database)
      → All (IsRecorded t) ms
      → migrate succeeds ms t ≡ (ok tt, t)
  unfolding migrate
  rerun [] t h = refl
  rerun (m ∷ ms) t h =
      ap (λ r. continue_if_ok r (λ next. migrate succeeds ms next)) (checked_again m t h.0)
      ∙ rerun ms t h.1

  -- A run of Migrate that succeeds has recorded every migration, with the checksum of its script, has
  -- kept every row that was there, and a second run succeeds and changes nothing.
  pub migrate-IsRecorded :
      (ms : List Migration) (s t : Database)
      → migrate succeeds ms s ≡ (ok tt, t)
      → All (IsRecorded t) ms × Extends s t × (migrate succeeds ms t ≡ (ok tt, t))
  migrate-IsRecorded ms s t h =
      let recorded = All-IsRecorded ms s t h in
      (
        recorded,
        λ v r at.
            ap (λ (q : Result PostgresError (Unit {0}) × Database). row_of_version q.1.applied v)
              (sym h)
            ∙ migrate-Extends ms s v r at,
        rerun ms t recorded,
      )
