-- ===== src/Postgres/Reading.antt =====
-- readMigrations takes every migration file once, and no version twice.
use mathlib.Core.List.{Perm}
use mathlib.Core.Path.{subst}
use deskaone_sdk.Shared.{
  ℕ, ◌≡◌, ◌≢◌, refl, ap, ap₂, sym, ◌∙◌, arith, true, Bool-cases, inl, inr, if◌then◌else◌,
}
use deskaone_sdk.Shared.{Option, none, some, List, [], ◌∷◌, Result, ok, err, map_ok, All}
use deskaone_sdk.Postgres.{Migration, Entry, PostgresError, is_sql_file, name_of_version, and_then}
use deskaone_sdk.Postgres.{not_seen, file_content, read_entry, read_entries, read_migrations}
use deskaone_sdk.Postgres.{sort_migrations, parse_migration_version}
use deskaone_sdk.Postgres.Sorting.{IsSorted, sort_migrations-IsSorted}

-- No two migrations have one version.
abbrev pub IsDistinct : List Migration → Type 0
IsDistinct [] = Unit {0}
IsDistinct (m ∷ ms) = All (λ k. k.version ≢ m.version) ms × IsDistinct ms

-- The names of the migration files, in the order of the directory.
abbrev pub sql_names : List Entry → List (List ℕ)
sql_names [] = []
sql_names (e ∷ es) = if is_sql_file e then e.name ∷ sql_names es else sql_names es

abbrev pub names : List Migration → List (List ℕ)
names [] = []
names (m ∷ ms) = m.name ∷ names ms

module _ {E A B : Type 0} where
  and_then_ok :
      (r : Result E A) (f : A → Result E B) (b : B)
      → and_then r f ≡ ok b
      → (a : A) × (r ≡ ok a) × (f a ≡ ok b)
  and_then_ok (ok a) f b h = (a, refl, h)
  and_then_ok (err e) f b h = absurd (ground arith)

  map_ok_ok :
      (f : A → B) (r : Result E A) (b : B) → map_ok f r ≡ ok b → (a : A) × (r ≡ ok a) × (f a ≡ b)
  map_ok_ok f (ok a) b h = (a, refl, cc)
  map_ok_ok f (err e) b h = absurd (ground arith)

ok_injective : (a b : Migration) → ◌≡◌ {A = Result PostgresError Migration} (ok a) (ok b) → a ≡ b
ok_injective a b h = cc

not_seen_ok :
    (v : ℕ) (name : List ℕ) (o : Option (List ℕ)) (u : Unit {0})
    → not_seen v name o ≡ ok u
    → o ≡ none
not_seen_ok v name none u h = refl
not_seen_ok v name (some old) u h = absurd (ground arith)

-- Versions that were not seen before.
abbrev New : List (ℕ × List ℕ) → Migration → Type 0
New seen m = name_of_version seen m.version ≡ none

abbrev Fresh : List (ℕ × List ℕ) → List Entry → List Migration → Type 0
Fresh seen es ms = All (New seen) ms × IsDistinct ms × (names ms ≡ sql_names es)

forget :
    (v : ℕ) (name : List ℕ) (seen : List (ℕ × List ℕ)) (ms : List Migration)
    → All (New ((v, name) ∷ seen)) ms
    → All (New seen) ms × All (λ k. k.version ≢ v) ms
forget v name seen [] h = (tt, tt)
forget v name seen (m ∷ ms) h =
    let (a, b) = forget v name seen ms h.1 in
    let (c, d) : (name_of_version seen m.version ≡ none) × (m.version ≢ v) =
      (ground arith, ground arith) in
    ((c, a), (d, b))

module _ (checksum join_path : List ℕ → List ℕ) where
  -- What a migration that was read has of its file.
  read_entry_ok :
      (seen : List (ℕ × List ℕ)) (e : Entry) (m : Migration)
      → read_entry checksum join_path seen e ≡ ok m
      → New seen m × (m.name ≡ e.name)
  unfolding read_entry
  read_entry_ok seen e m h =
      let (version, p, h1) = and_then_ok (parse_migration_version e.name) _ m h in
      let (u, q, h2) =
        and_then_ok (not_seen version e.name (name_of_version seen version)) _ m h1 in
      let (sql, r, h3) = and_then_ok (file_content (join_path e.name) e.content) _ m h2 in
      let unseen = not_seen_ok version e.name (name_of_version seen version) u q in
      let same = ok_injective _ m h3 in
      (
        ap (λ (k : Migration). name_of_version seen k.version) (sym same) ∙ unseen,
        sym (ap (λ (k : Migration). k.name) same),
      )

  -- One file more in front.
  taken :
      (seen : List (ℕ × List ℕ)) (e : Entry) (es : List Entry) (m : Migration)
      (rest : List Migration)
      → is_sql_file e ≡ true
      → New seen m × (m.name ≡ e.name)
      → Fresh ((m.version, e.name) ∷ seen) es rest
      → Fresh seen (e ∷ es) (m ∷ rest)
  taken seen e es m rest sql (new, name) (fresh, distinct, same) =
      let (a, b) = forget m.version e.name seen rest fresh in
      ((new, a), (b, distinct), rw sql (ap₂ ◌∷◌ name same))

  read_entries-Fresh :
      (seen : List (ℕ × List ℕ)) (es : List Entry) (ms : List Migration)
      → read_entries checksum join_path seen es ≡ ok ms
      → Fresh seen es ms
  unfolding read_entries
  read_entries-Fresh seen [] [] h = (tt, tt, refl)
  read_entries-Fresh seen [] (m ∷ ms) h = absurd (ground arith)
  read_entries-Fresh seen (e ∷ es) ms h = elim (Bool-cases (is_sql_file e)) [
    | inl sql ↦
        (let (m, p, h1) = and_then_ok (read_entry checksum join_path seen e) _ ms (rw sql at h) in
          let (rest, q, same) = map_ok_ok (λ k. m ∷ k) _ ms h1 in
          let ih = read_entries-Fresh ((m.version, e.name) ∷ seen) es rest q in
          subst (Fresh seen (e ∷ es)) same
            (taken seen e es m rest sql (read_entry_ok seen e m p) ih))
    | inr other ↦ rw other (read_entries-Fresh seen es ms (rw other at h))
  ]

  -- What readMigrations returns is in the order of the versions; it holds, in some order, one
  -- migration for each file of the directory whose name ends in .sql, with that name, and no version
  -- twice.
  pub read_migrations_complete :
      (es : List Entry) (ms : List Migration)
      → read_migrations checksum join_path (some es) ≡ ok ms
      → IsSorted ms
        × ((us : List Migration) × Perm ms us × IsDistinct us × (names us ≡ sql_names es))
  unfolding read_migrations
  read_migrations_complete es ms h =
      let (us, p, same) = map_ok_ok sort_migrations (read_entries checksum join_path [] es) ms h in
      let (sorted, perm) = sort_migrations-IsSorted us in
      let (new, distinct, all) = read_entries-Fresh [] es us p in
      (subst IsSorted same sorted, (us, subst (λ k. Perm k us) same perm, distinct, all))
