-- ===== src/Database/Shapes.antt =====
-- The statements as they are without the names in them: no name changes what a statement says.
use deskaone_sdk.Shared.{ℕ, ◌≡◌, refl, sym, ap, ◌∙◌, arith, Bool, true, false, not}
use deskaone_sdk.Shared.{List, [], ◌∷◌, ◌++◌, map, length, replicate, All, append_assoc}
use deskaone_sdk.Shared.{◌==◌, if◌then◌else◌, ok}
use deskaone_sdk.Shared.Text.{contains_byte}
use deskaone_sdk.Shared.Words.{join}
use deskaone_sdk.Database.{is_word, all_words, validate_identifier, quote_ident}

-- A text with what stands between double quotes left out.
unfoldable pub erase : Bool → List ℕ → List ℕ
erase inside [] = []
erase inside (b ∷ s) =
    let same = erase inside s in
    let flipped = erase (not inside) s in
    if b == b'"' then b ∷ flipped else if inside then same else b ∷ same

-- Wherever `s` stands outside quotes, `t` is left of it.
pub record Erases (s t : List ℕ) : Type 0 where
  pub apply : (rest : List ℕ) → erase false (s ++ rest) ≡ t ++ erase false rest

pub Erases-append : (s s' t t' : List ℕ) → Erases s t → Erases s' t' → Erases (s ++ s') (t ++ t')
Erases-append s s' t t' h h' = record {
  apply = λ rest.
      ap (erase false) (append_assoc s s' rest)
      ∙ h.apply (s' ++ rest)
      ∙ ap (λ x. t ++ x) (h'.apply rest)
      ∙ sym (append_assoc t t' (erase false rest));
}

erase-plain :
    (s rest : List ℕ)
    → contains_byte b'"' s ≡ false
    → erase false (s ++ rest) ≡ s ++ erase false rest
unfolding erase contains_byte
erase-plain [] rest h = refl
erase-plain (b ∷ s) rest h = ground (arith, erase-plain s rest)

pub Erases-plain : (s : List ℕ) → contains_byte b'"' s ≡ false → Erases s s
Erases-plain s h = record { apply = λ rest. erase-plain s rest h }

abbrev pub two_quotes : List ℕ
two_quotes = b'"' ∷ b'"' ∷ []

module _ (wide : ℕ → Bool) where
  erase-name :
      (name rest : List ℕ)
      → all_words wide name ≡ true
      → erase true (name ++ (b'"' ∷ rest)) ≡ b'"' ∷ erase false rest
  unfolding erase all_words is_word
  erase-name [] rest h = refl
  erase-name (b ∷ name) rest h = ground (arith, erase-name name rest)

  abbrev pub IsValid : List ℕ → Type 0
  IsValid name = validate_identifier wide name ≡ ok tt

  all_words-valid : (name : List ℕ) → IsValid name → all_words wide name ≡ true
  unfolding validate_identifier
  all_words-valid [] h = absurd (ground arith)
  all_words-valid (b ∷ name) h = ground arith

  pub Erases-quote_ident :
      (name : List ℕ) → IsValid name → Erases (quote_ident wide name) two_quotes
  unfolding quote_ident erase
  Erases-quote_ident name h = record {
    apply = λ rest. rw h (
        ap (λ s. b'"' ∷ erase true s) (append_assoc name (b'"' ∷ []) rest)
        ∙ ap (λ s. b'"' ∷ s) (erase-name name rest (all_words-valid name h)));
  }

  -- A list of parts, each of which leaves the same.
  pub Erases-join :
      (part : List ℕ → List ℕ) (shape : List ℕ) (sep : List ℕ) (names : List (List ℕ))
      → Erases sep sep
      → ((name : List ℕ) → IsValid name → Erases (part name) shape)
      → All IsValid names
      → Erases (join sep (map part names)) (join sep (replicate (length names) shape))
  unfolding join
  Erases-join part shape sep [] es h v = record { apply = λ rest. refl }
  Erases-join part shape sep (n ∷ []) es h v = h n v.0
  Erases-join part shape sep (n ∷ m ∷ names) es h v =
      Erases-append (part n) (sep ++ join sep (map part (m ∷ names))) shape
        (sep ++ join sep (replicate (length (m ∷ names)) shape)) (h n v.0)
        (Erases-append sep (join sep (map part (m ∷ names))) sep
          (join sep (replicate (length (m ∷ names)) shape)) es
          (Erases-join part shape sep (m ∷ names) es h v.1))
