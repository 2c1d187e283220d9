-- ===== src/Database/Statements.antt =====
-- The shape of each statement: what it says, without its names.
use deskaone_sdk.Shared.{ℕ, zero, suc, ◌+◌, ◌%◌, ◌/◌, ◌≡◌, refl, arith, Bool, false}
use deskaone_sdk.Shared.{◌||◌, List, [], ◌∷◌, ◌++◌, length, replicate, All}
use deskaone_sdk.Shared.{ltb, Bool-cases, inl, inr}
use deskaone_sdk.Shared.Text.{codes, contains_byte, itoa, digits}
use deskaone_sdk.Shared.Words.{join}
use deskaone_sdk.Database.{
  Dialect, sqlite, postgres, placeholder, placeholder_list, placeholders, quote_ident,
  joined_quoted_idents, insert_sql, conflict_target, assignment, update_assignments, insert, upsert,
  insert_ignore, insert_replace,
}
use deskaone_sdk.Database.Shapes.{
  Erases, Erases-append, Erases-plain, two_quotes, IsValid, Erases-quote_ident, Erases-join,
}

contains_byte-append :
    (x : ℕ) (s t : List ℕ) → contains_byte x (s ++ t) ≡ (contains_byte x s || contains_byte x t)
unfolding contains_byte
contains_byte-append x [] t = refl
contains_byte-append x (b ∷ s) t = ground (arith, contains_byte-append x s t)

digits-plain : (fuel n : ℕ) → contains_byte b'"' (digits fuel n) ≡ false
unfolding digits contains_byte
digits-plain zero n = refl
digits-plain (suc fuel) n = elim (Bool-cases (ltb n 10)) [
  | inl small ↦ rw small (ground arith)
  | inr large ↦
      rw
        (
          large,
          contains_byte-append b'"' (digits fuel (n / 10)) ((48 + n % 10) ∷ []),
          digits-plain fuel (n / 10),
        )
        (ground arith)
]

placeholder-plain : (d : Dialect) (i : ℕ) → contains_byte b'"' (placeholder d i) ≡ false
unfolding placeholder contains_byte itoa
placeholder-plain sqlite i = refl
placeholder-plain postgres i = rw (digits-plain 20 i) refl

placeholders-plain :
    (d : Dialect) (n start : ℕ) → contains_byte b'"' (placeholders d n start) ≡ false
unfolding placeholders placeholder_list join contains_byte
placeholders-plain d zero start = refl
placeholders-plain d (suc zero) start = placeholder-plain d start
placeholders-plain d (suc (suc n)) start =
    rw
      (
        contains_byte-append b'"' (placeholder d start)
            (codes ", " ++ placeholders d (suc n) (start + 1)),
        placeholder-plain d start,
        contains_byte-append b'"' (codes ", ") (placeholders d (suc n) (start + 1)),
        placeholders-plain d (suc n) (start + 1),
      )
      refl

-- `n` names in a list.
abbrev pub names_shape : ℕ → List ℕ
names_shape n = join (codes ", ") (replicate n two_quotes)

abbrev pub insert_shape : Dialect → List ℕ → ℕ → List ℕ
insert_shape d verb n =
    verb
    ++ (codes " INTO "
        ++ (two_quotes
            ++ (codes " ("
                ++ (names_shape n ++ (codes ") VALUES (" ++ (placeholders d n 1 ++ codes ")"))))))

abbrev pub target_shape : ℕ → List ℕ
target_shape zero = []
target_shape (suc k) = codes "(" ++ (names_shape (suc k) ++ codes ")")

abbrev pub assignment_shape : List ℕ
assignment_shape = two_quotes ++ (codes " = EXCLUDED." ++ two_quotes)

abbrev pub upsert_shape : Dialect → ℕ → ℕ → ℕ → List ℕ
upsert_shape d n k m =
    insert_shape d (codes "INSERT") n
    ++ (codes " ON CONFLICT "
        ++ (target_shape k
            ++ (codes " DO UPDATE SET " ++ join (codes ", ") (replicate m assignment_shape))))

abbrev pub ignore_shape : Dialect → ℕ → ℕ → List ℕ
ignore_shape sqlite n k = insert_shape sqlite (codes "INSERT OR IGNORE") n
ignore_shape postgres n zero =
    insert_shape postgres (codes "INSERT") n ++ codes " ON CONFLICT DO NOTHING"
ignore_shape postgres n (suc k) =
    insert_shape postgres (codes "INSERT") n
    ++ (codes " ON CONFLICT " ++ (target_shape (suc k) ++ codes " DO NOTHING"))

abbrev pub replace_shape : Dialect → ℕ → ℕ → List ℕ
replace_shape sqlite n k = insert_shape sqlite (codes "INSERT OR REPLACE") n
replace_shape postgres n k = upsert_shape postgres n k n

module _ (wide : ℕ → Bool) where
  Erases-names :
      (names : List (List ℕ))
      → All (IsValid wide) names
      → Erases (joined_quoted_idents wide names) (names_shape (length names))
  unfolding joined_quoted_idents contains_byte
  Erases-names names v =
      Erases-join wide (quote_ident wide) two_quotes (codes ", ") names
        (Erases-plain (codes ", ") refl) (Erases-quote_ident wide) v

  pub Erases-insert_sql :
      (d : Dialect) (verb table : List ℕ) (cols : List (List ℕ))
      → contains_byte b'"' verb ≡ false
      → IsValid wide table
      → All (IsValid wide) cols
      → Erases (insert_sql wide d verb table cols) (insert_shape d verb (length cols))
  unfolding insert_sql contains_byte
  Erases-insert_sql d verb table cols hv ht hc = Erases-append _ _ _ _ (Erases-plain verb hv) (
      Erases-append _ _ _ _ (Erases-plain (codes " INTO ") refl) (
        Erases-append _ _ _ _ (Erases-quote_ident wide table ht) (
          Erases-append _ _ _ _ (Erases-plain (codes " (") refl) (
            Erases-append _ _ _ _ (Erases-names cols hc) (
              Erases-append _ _ _ _ (Erases-plain (codes ") VALUES (") refl) (
                Erases-append _ _ _ _
                  (Erases-plain (placeholders d (length cols) 1)
                    (placeholders-plain d (length cols) 1))
                  (Erases-plain (codes ")") refl)))))))

  Erases-conflict_target :
      (cols : List (List ℕ))
      → All (IsValid wide) cols
      → Erases (conflict_target wide cols) (target_shape (length cols))
  unfolding conflict_target contains_byte
  Erases-conflict_target [] v = Erases-plain [] refl
  Erases-conflict_target (c ∷ cols) v =
      Erases-append _ _ _ _ (Erases-plain (codes "(") refl)
        (Erases-append _ _ _ _ (Erases-names (c ∷ cols) v) (Erases-plain (codes ")") refl))

  Erases-assignment :
      (col : List ℕ) → IsValid wide col → Erases (assignment wide col) assignment_shape
  unfolding assignment contains_byte
  Erases-assignment col v = Erases-append _ _ _ _ (Erases-quote_ident wide col v) (
      Erases-append _ _ _ _ (Erases-plain (codes " = EXCLUDED.") refl)
        (Erases-quote_ident wide col v))

  Erases-update_assignments :
      (cols : List (List ℕ))
      → All (IsValid wide) cols
      → Erases
          (update_assignments wide cols)
          (join (codes ", ") (replicate (length cols) assignment_shape))
  unfolding update_assignments contains_byte
  Erases-update_assignments cols v =
      Erases-join wide (assignment wide) assignment_shape (codes ", ") cols
        (Erases-plain (codes ", ") refl) Erases-assignment v

  pub Erases-insert :
      (d : Dialect) (table : List ℕ) (cols : List (List ℕ))
      → IsValid wide table
      → All (IsValid wide) cols
      → Erases (insert wide d table cols) (insert_shape d (codes "INSERT") (length cols))
  unfolding insert contains_byte
  Erases-insert d table cols ht hc = Erases-insert_sql d (codes "INSERT") table cols refl ht hc

  pub Erases-upsert :
      (d : Dialect) (table : List ℕ) (cols conflicts updates : List (List ℕ))
      → IsValid wide table
      → All (IsValid wide) cols
      → All (IsValid wide) conflicts
      → All (IsValid wide) updates
      → Erases
          (upsert wide d table cols conflicts updates)
          (upsert_shape d (length cols) (length conflicts) (length updates))
  unfolding upsert contains_byte
  Erases-upsert d table cols conflicts updates ht hc hk hu =
      Erases-append _ _ _ _ (Erases-insert d table cols ht hc) (
        Erases-append _ _ _ _ (Erases-plain (codes " ON CONFLICT ") refl) (
          Erases-append _ _ _ _ (Erases-conflict_target conflicts hk) (
            Erases-append _ _ _ _ (Erases-plain (codes " DO UPDATE SET ") refl)
              (Erases-update_assignments updates hu))))

  pub Erases-insert_ignore :
      (d : Dialect) (table : List ℕ) (cols conflicts : List (List ℕ))
      → IsValid wide table
      → All (IsValid wide) cols
      → All (IsValid wide) conflicts
      → Erases
          (insert_ignore wide d table cols conflicts)
          (ignore_shape d (length cols) (length conflicts))
  unfolding insert_ignore contains_byte
  Erases-insert_ignore sqlite table cols conflicts ht hc hk =
      Erases-insert_sql sqlite (codes "INSERT OR IGNORE") table cols refl ht hc
  Erases-insert_ignore postgres table cols [] ht hc hk =
      Erases-append _ _ _ _ (Erases-insert postgres table cols ht hc)
        (Erases-plain (codes " ON CONFLICT DO NOTHING") refl)
  Erases-insert_ignore postgres table cols (c ∷ conflicts) ht hc hk =
      Erases-append _ _ _ _ (Erases-insert postgres table cols ht hc) (
        Erases-append _ _ _ _ (Erases-plain (codes " ON CONFLICT ") refl) (
          Erases-append _ _ _ _ (Erases-conflict_target (c ∷ conflicts) hk)
            (Erases-plain (codes " DO NOTHING") refl)))

  pub Erases-insert_replace :
      (d : Dialect) (table : List ℕ) (cols conflicts : List (List ℕ))
      → IsValid wide table
      → All (IsValid wide) cols
      → All (IsValid wide) conflicts
      → Erases
          (insert_replace wide d table cols conflicts)
          (replace_shape d (length cols) (length conflicts))
  unfolding insert_replace contains_byte
  Erases-insert_replace sqlite table cols conflicts ht hc hk =
      Erases-insert_sql sqlite (codes "INSERT OR REPLACE") table cols refl ht hc
  Erases-insert_replace postgres table cols conflicts ht hc hk =
      Erases-upsert postgres table cols conflicts cols ht hc hk hc
