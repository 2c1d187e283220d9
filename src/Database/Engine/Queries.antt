-- ===== src/Database/Engine/Queries.antt =====
-- The statements that an engine makes for its writes.
use deskaone_sdk.Shared.{ℕ, zero, suc, ◌≡◌, sym, ap, ◌∙◌, arith, false, Bool}
use deskaone_sdk.Shared.{List, [], ◌∷◌, ◌++◌, length, All, append-nil, ok, Result-cases, inl, inr}
use deskaone_sdk.Shared.Text.{codes}
use mathlib.Core.Path.{subst}
use deskaone_sdk.Database.{
  DatabaseError, Dialect, sqlite, postgres, validate_identifier, upsert, insert, insert_ignore,
  insert_replace, no_conflict_columns, replace_without_conflict,
}
use deskaone_sdk.Database.Shapes.{erase, Erases, IsValid}
use deskaone_sdk.Database.Statements.{
  insert_shape, upsert_shape, ignore_shape, replace_shape, Erases-insert, Erases-upsert,
  Erases-insert_ignore, Erases-insert_replace,
}
use deskaone_sdk.Database.Engine.{
  InsertType, replace, ignore, mode_upsert, plain, EngineSpec, DriverOf, validate_identifiers,
  validate_table_and_columns, insert_query, with_conflicts, or_all, replace_query,
}

All-IsValid :
    (wide : ℕ → Bool) (names : List (List ℕ))
    → validate_identifiers wide names ≡ ok tt
    → All (IsValid wide) names
unfolding validate_identifiers
All-IsValid wide [] h = tt
All-IsValid wide (name ∷ names) h = elim (Result-cases (validate_identifier wide name)) [
  | inl (u, e) ↦ (e, All-IsValid wide names (rw e at h))
  | inr (x, e) ↦ absurd (let bad = rw e at h in ground arith)
]

-- The shape of the statement of each mode, for `n` columns, `k` conflict columns and `m` update columns;
-- without update columns all are updated.
abbrev updated : ℕ → ℕ → ℕ
updated n zero = n
updated n (suc m) = suc m

abbrev pub query_shape : InsertType → Dialect → ℕ → ℕ → ℕ → List ℕ
query_shape ignore d n k m = ignore_shape d n k
query_shape replace d n k m = replace_shape d n k
query_shape mode_upsert d n k m = upsert_shape d n k (updated n m)
query_shape plain d n k m = insert_shape d (codes "INSERT") n

whole : (s t : List ℕ) → Erases s t → erase false s ≡ t
unfolding erase
whole s t h = ap (erase false) (sym (append-nil s)) ∙ h.apply [] ∙ append-nil t

module _ {E K Value S : Type 0} (wide : ℕ → Bool) (spec : EngineSpec E K Value) (d : Dialect)
    (driver : DriverOf E Value S) where
  IsValid-parts :
      (extra : List (List ℕ))
      → validate_table_and_columns wide spec d driver extra ≡ ok tt
      → IsValid wide spec.table × All (IsValid wide) (spec.columns ++ extra)
  unfolding validate_table_and_columns
  IsValid-parts extra h = elim (Result-cases (validate_identifier wide spec.table)) [
    | inl (u, e) ↦ (e, All-IsValid wide (spec.columns ++ extra) (rw e at h))
    | inr (x, e) ↦ absurd (let bad = rw e at h in ground arith)
  ]

  IsValid-columns :
      validate_table_and_columns wide spec d driver [] ≡ ok tt → All (IsValid wide) spec.columns
  IsValid-columns h = subst (All (IsValid wide)) (append-nil spec.columns) (IsValid-parts [] h).1

  with_conflicts-ok :
      (conflicts : List (List ℕ)) (x : DatabaseError) (q q' : List ℕ)
      → with_conflicts wide spec d driver conflicts x q ≡ ok q'
      → q ≡ q'
  with_conflicts-ok [] x q q' e = absurd (ground arith)
  with_conflicts-ok (c ∷ conflicts) x q q' e = cc

  Erases-upserted :
      (updates : List (List ℕ))
      → validate_table_and_columns wide spec d driver [] ≡ ok tt
      → All (IsValid wide) spec.conflict_columns
      → All (IsValid wide) updates
      → Erases
          (upsert wide d spec.table spec.columns spec.conflict_columns
            (or_all wide spec d driver updates))
          (upsert_shape d
            (length spec.columns)
            (length spec.conflict_columns)
            (updated (length spec.columns) (length updates)))
  Erases-upserted [] h hk hu =
      Erases-upsert wide d spec.table spec.columns spec.conflict_columns spec.columns
        (IsValid-parts [] h).0 (IsValid-columns h) hk (IsValid-columns h)
  Erases-upserted (c ∷ updates) h hk hu =
      Erases-upsert wide d spec.table spec.columns spec.conflict_columns (c ∷ updates)
        (IsValid-parts [] h).0 (IsValid-columns h) hk hu

  replaced :
      (dialect : Dialect) (q : List ℕ)
      → replace_query wide spec d driver dialect ≡ ok q
      → insert_replace wide dialect spec.table spec.columns spec.conflict_columns ≡ q
  replaced sqlite q e = cc
  replaced postgres q e =
      with_conflicts-ok spec.conflict_columns replace_without_conflict
        (insert_replace wide postgres spec.table spec.columns spec.conflict_columns) q e

  -- A statement of any mode says the same whatever its names are: with what stands between quotes left
  -- out, it is the fixed text of its mode for so many columns, with a placeholder for each column. The
  -- table, the columns, the conflict columns and the update columns have passed the validation.
  pub insert_query-shape :
      (mode : InsertType) (updates : List (List ℕ)) (q : List ℕ)
      → validate_table_and_columns wide spec d driver [] ≡ ok tt
      → validate_identifiers wide spec.conflict_columns ≡ ok tt
      → validate_identifiers wide updates ≡ ok tt
      → insert_query wide spec d driver mode updates ≡ ok q
      → erase false q
        ≡ query_shape mode d (length spec.columns) (length spec.conflict_columns) (length updates)
  unfolding insert_query
  insert_query-shape ignore updates q h hk hu e =
      let same : insert_ignore wide d spec.table spec.columns spec.conflict_columns ≡ q = cc in
      ap (erase false) (sym same)
      ∙ whole _ _ (
          Erases-insert_ignore wide d spec.table spec.columns spec.conflict_columns
            (IsValid-parts [] h).0 (IsValid-columns h) (All-IsValid wide spec.conflict_columns hk))
  insert_query-shape replace updates q h hk hu e =
      ap (erase false) (sym (replaced d q e))
      ∙ whole _ _ (
          Erases-insert_replace wide d spec.table spec.columns spec.conflict_columns
            (IsValid-parts [] h).0 (IsValid-columns h) (All-IsValid wide spec.conflict_columns hk))
  insert_query-shape mode_upsert updates q h hk hu e =
      ap (erase false) (
        sym (
          with_conflicts-ok spec.conflict_columns no_conflict_columns
            (upsert wide d spec.table spec.columns spec.conflict_columns
              (or_all wide spec d driver updates))
            q e))
      ∙ whole _ _ (
          Erases-upserted updates h (All-IsValid wide spec.conflict_columns hk)
            (All-IsValid wide updates hu))
  insert_query-shape plain updates q h hk hu e =
      let same : insert wide d spec.table spec.columns ≡ q = cc in
      ap (erase false) (sym same)
      ∙ whole _ _
          (Erases-insert wide d spec.table spec.columns (IsValid-parts [] h).0 (IsValid-columns h))
