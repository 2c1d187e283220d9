-- ===== src/Shared/Text.antt =====
-- Go strings as byte lists: literals, equality, and the functions of `strings` that the packages use.
use Prim.Native.Char.{code}
use Prim.Native.String.{String}
use mathlib.Core.List.{reverse}
use deskaone_sdk.Shared.{ℕ, zero, suc, ◌+◌, ◌-◌, ◌%◌, ◌/◌, Bool, true, false, ◌&&◌, ◌||◌}
use mathlib.Core.Option
use deskaone_sdk.Shared.{Option, none, some, List, [], ◌∷◌, ◌++◌, ltb, leb, ◌==◌, if◌then◌else◌}
use deskaone_sdk.Shared.{◌≡◌, ◌≢◌, refl, arith}

-- The bytes of an ASCII literal.
abbrev pub codes : String → List ℕ
codes String.[] = []
codes (String.◌∷◌ c s) = code c ∷ codes s

-- `a == b` of two strings.
unfoldable pub text_eq : List ℕ → List ℕ → Bool
text_eq [] [] = true
text_eq [] (b ∷ bs) = false
text_eq (a ∷ as') [] = false
text_eq (a ∷ as') (b ∷ bs) = (a == b) && text_eq as' bs

unfoldable pub has_prefix : List ℕ → List ℕ → Bool
has_prefix [] s = true
has_prefix (p ∷ ps) [] = false
has_prefix (p ∷ ps) (b ∷ bs) = (p == b) && has_prefix ps bs

-- `strings.Contains(s, string(b))` of one byte.
unfoldable pub contains_byte : ℕ → List ℕ → Bool
contains_byte x [] = false
contains_byte x (b ∷ bs) = (b == x) || contains_byte x bs

abbrev pub is_empty_text : List ℕ → Bool
is_empty_text [] = true
is_empty_text (b ∷ bs) = false

-- How many bytes the white space character at the front has, by unicode.IsSpace; 0 where there is
-- none.
abbrev ascii_space : ℕ → Bool
ascii_space b = (leb 9 b && leb b 13) || b == 32

abbrev general_space : ℕ → Bool
general_space b = (leb 0x80 b && leb b 0x8A) || (b == 0xA8 || (b == 0xA9 || b == 0xAF))

unfoldable pub space_size : List ℕ → ℕ
space_size [] = 0
space_size (a ∷ []) = if ascii_space a then 1 else 0
space_size (a ∷ b ∷ []) =
    if ascii_space a then 1 else if a == 0xC2 && (b == 0x85 || b == 0xA0) then 2 else 0
space_size (a ∷ b ∷ c ∷ s) =
    if ascii_space a
    then 1
    else if a == 0xC2 && (b == 0x85 || b == 0xA0)
    then 2
    else if (a == 0xE2 && (b == 0x80 && general_space c)) || (a == 0xE2 && (b == 0x81 && c == 0x9F))
    then 3
    else if (a == 0xE1 && (b == 0x9A && c == 0x80)) || (a == 0xE3 && (b == 0x80 && c == 0x80))
    then 3
    else 0

-- The text behind `n` bytes and the white space that follows.
unfoldable pub trim_front : ℕ → List ℕ → List ℕ
trim_front n [] = []
trim_front (suc n) (b ∷ s) = trim_front n s
trim_front zero (b ∷ s) =
    let rest = trim_front (space_size (b ∷ s) - 1) s in
    if space_size (b ∷ s) == 0 then b ∷ s else rest

-- The same from the end: the text and its white space are given reversed.
abbrev last_space_size : List ℕ → ℕ
last_space_size [] = 0
last_space_size (c ∷ []) = space_size (c ∷ [])
last_space_size (c ∷ b ∷ []) =
    if ascii_space c then 1 else if space_size (b ∷ c ∷ []) == 2 then 2 else 0
last_space_size (c ∷ b ∷ a ∷ s) =
    if ascii_space c
    then 1
    else if space_size (b ∷ c ∷ []) == 2
    then 2
    else if space_size (a ∷ b ∷ c ∷ []) == 3
    then 3
    else 0

unfoldable pub trim_back : ℕ → List ℕ → List ℕ
trim_back n [] = []
trim_back (suc n) (b ∷ s) = trim_back n s
trim_back zero (b ∷ s) =
    let rest = trim_back (last_space_size (b ∷ s) - 1) s in
    if last_space_size (b ∷ s) == 0 then b ∷ s else rest

-- `strings.TrimSpace`.
unfoldable pub trim_space : List ℕ → List ℕ
trim_space s = reverse (trim_back 0 (reverse (trim_front 0 s)))

-- `strings.ToLower`, as far as ASCII: the letters A to Z, and the two other characters whose lower
-- case is an ASCII letter (U+0130 and U+212A). The bytes of all others stay, so the result is an
-- ASCII text exactly where that of Go is the same text. The first argument counts bytes to skip.
abbrev pub lower_ascii : ℕ → ℕ
lower_ascii a = if leb b'A' a && leb a b'Z' then a + 32 else a

unfoldable pub lower_from : ℕ → List ℕ → List ℕ
lower_from n [] = []
lower_from (suc n) (a ∷ s) = lower_from n s
lower_from zero (a ∷ s) =
    let rest = lower_from 0 s in
    let behind_two = lower_from 1 s in
    let behind_three = lower_from 2 s in
    if has_prefix (0xC4 ∷ 0xB0 ∷ []) (a ∷ s)
    then b'i' ∷ behind_two
    else if has_prefix (0xE2 ∷ 0x84 ∷ 0xAA ∷ []) (a ∷ s)
    then b'k' ∷ behind_three
    else lower_ascii a ∷ rest

unfoldable pub to_lower : List ℕ → List ℕ
to_lower s = lower_from 0 s

-- `strings.ToUpper`, as far as ASCII: the letters a to z, and the two other characters whose upper
-- case is an ASCII letter (U+017F and U+0131). The bytes of all others stay.
abbrev pub upper_ascii : ℕ → ℕ
upper_ascii a = if leb b'a' a && leb a b'z' then a - 32 else a

unfoldable pub upper_from : ℕ → List ℕ → List ℕ
upper_from n [] = []
upper_from (suc n) (a ∷ s) = upper_from n s
upper_from zero (a ∷ s) =
    let rest = upper_from 0 s in
    let behind_two = upper_from 1 s in
    if has_prefix (0xC5 ∷ 0xBF ∷ []) (a ∷ s)
    then b'S' ∷ behind_two
    else if has_prefix (0xC4 ∷ 0xB1 ∷ []) (a ∷ s)
    then b'I' ∷ behind_two
    else upper_ascii a ∷ rest

unfoldable pub to_upper : List ℕ → List ℕ
to_upper s = upper_from 0 s

-- `strconv.Itoa` of a number that is not negative; `fuel` bounds the digits.
unfoldable pub digits : ℕ → ℕ → List ℕ
digits zero n = []
digits (suc fuel) n =
    let rest = digits fuel (n / 10) in
    if ltb n 10 then (48 + n) ∷ [] else rest ++ ((48 + n % 10) ∷ [])

unfoldable pub itoa : ℕ → List ℕ
itoa n = digits 20 n

-- `strings.HasSuffix(s, p)`.
unfoldable pub has_suffix : List ℕ → List ℕ → Bool
has_suffix p s = has_prefix (reverse p) (reverse s)

-- `strings.Index(s, sep)`.
unfoldable pub index_of : List ℕ → List ℕ → Option ℕ
index_of sep [] = if is_empty_text sep then some 0 else none
index_of sep (b ∷ s) =
    let rest = Option.map suc (index_of sep s) in if has_prefix sep (b ∷ s) then some 0 else rest

pub text_eq_refl : (s : List ℕ) → text_eq s s ≡ true
unfolding text_eq
text_eq_refl [] = refl
text_eq_refl (b ∷ s) = ground (arith, text_eq_refl s)

pub text_eq→eq : (s t : List ℕ) → text_eq s t ≡ true → s ≡ t
unfolding text_eq
text_eq→eq [] [] h = refl
text_eq→eq [] (b ∷ t) h = cc
text_eq→eq (a ∷ s) [] h = cc
text_eq→eq (a ∷ s) (b ∷ t) h = ground (arith, text_eq→eq s t)

pub is_empty_text-nonempty : (s : List ℕ) → s ≢ [] → is_empty_text s ≡ false
is_empty_text-nonempty [] h = absurd (h refl)
is_empty_text-nonempty (b ∷ s) h = refl
