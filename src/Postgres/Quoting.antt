-- ===== src/Postgres/Quoting.antt =====
-- A quoted identifier is read back as the name, whatever the name holds.
use deskaone_sdk.Shared.{
  ℕ, ◌≡◌, ◌≢◌, refl, ap, ◌∙◌, arith, append_assoc, Bool-cases, inl, inr, ◌==◌, if◌then◌else◌,
}
use deskaone_sdk.Shared.{Option, none, some, List, [], ◌∷◌, ◌++◌}
use deskaone_sdk.Postgres.{double_quotes, quote_ident}

abbrev with_byte : ℕ → Option (List ℕ × List ℕ) → Option (List ℕ × List ℕ)
with_byte b none = none
with_byte b (some (name, rest)) = some (b ∷ name, rest)

-- An identifier in SQL up to its closing quote, and the text behind it: a quote that is doubled is
-- part of the name.
pub until_quote : List ℕ → Option (List ℕ × List ℕ)
until_quote [] = none
until_quote (b ∷ []) = if b == b'"' then some ([], []) else none
until_quote (b ∷ c ∷ s) =
    let doubled = with_byte b'"' (until_quote s) in
    let next = with_byte b (until_quote (c ∷ s)) in
    if b == b'"' then (if c == b'"' then doubled else some ([], c ∷ s)) else next

pub read_quoted : List ℕ → Option (List ℕ × List ℕ)
read_quoted [] = none
read_quoted (b ∷ s) = if b == b'"' then until_quote s else none

-- A text that does not go on with a quote.
abbrev pub IsEnd : List ℕ → Type 0
IsEnd [] = Unit {0}
IsEnd (b ∷ s) = b ≢ b'"'

until_quote-other :
    (b : ℕ) (s : List ℕ) → b ≢ b'"' → until_quote (b ∷ s) ≡ with_byte b (until_quote s)
unfolding until_quote
until_quote-other b [] h = ground arith
until_quote-other b (c ∷ s) h = ground arith

closing_last : until_quote (b'"' ∷ []) ≡ some ([], [])
unfolding until_quote
closing_last = refl

closing : (c : ℕ) (s : List ℕ) → c ≢ b'"' → until_quote (b'"' ∷ c ∷ s) ≡ some ([], c ∷ s)
unfolding until_quote
closing c s h = ground arith

doubled :
    (b c : ℕ) (s : List ℕ)
    → b ≡ b'"'
    → c ≡ b'"'
    → until_quote (b ∷ c ∷ s) ≡ with_byte b (until_quote s)
unfolding until_quote
doubled b c s h k = ground arith

until_quote-double_quotes :
    (name rest : List ℕ)
    → IsEnd rest
    → until_quote (double_quotes name ++ (b'"' ∷ rest)) ≡ some (name, rest)
unfolding double_quotes
until_quote-double_quotes [] [] h = closing_last
until_quote-double_quotes [] (c ∷ s) h = closing c s h
until_quote-double_quotes (b ∷ name) rest h = elim (Bool-cases (b == b'"')) [
  | inl e ↦
      (let quote : b ≡ b'"' = ground arith in
        rw e (
          doubled b b (double_quotes name ++ (b'"' ∷ rest)) quote quote
          ∙ ap (with_byte b) (until_quote-double_quotes name rest h)))
  | inr e ↦ rw e (
      until_quote-other b (double_quotes name ++ (b'"' ∷ rest)) (ground arith)
      ∙ ap (with_byte b) (until_quote-double_quotes name rest h))
]

-- SQL reads a quoted identifier as exactly the name, and what follows it as what followed: no name
-- ends the identifier early. What follows does not begin with a quote.
pub read_quoted-quote_ident :
    (name rest : List ℕ) → IsEnd rest → read_quoted (quote_ident name ++ rest) ≡ some (name, rest)
unfolding read_quoted quote_ident
read_quoted-quote_ident name rest h =
    ap until_quote (append_assoc (double_quotes name) (b'"' ∷ []) rest)
    ∙ until_quote-double_quotes name rest h
