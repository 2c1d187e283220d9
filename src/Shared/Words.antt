-- ===== src/Shared/Words.antt =====
-- Splitting, numbers and the comparison of texts, as `strings`, `strconv` and `base64` have them.
use mathlib.Core.Option
use deskaone_sdk.Shared.{ℕ, zero, suc, ◌+◌, ◌-◌, ◌*◌, ◌%◌, ◌/◌, ◌^◌, Bool, ◌&&◌}
use deskaone_sdk.Shared.{Option, none, some, List, [], ◌∷◌, ◌++◌, ltb, leb, ◌==◌, if◌then◌else◌}
use deskaone_sdk.Shared.{length}
use deskaone_sdk.Shared.Int.{ℤ, pos, negsuc}
use deskaone_sdk.Shared.Text.{text_eq, has_prefix, space_size, lower_ascii}

abbrev cons_head : ℕ → List (List ℕ) → List (List ℕ)
cons_head b [] = (b ∷ []) ∷ []
cons_head b (w ∷ ws) = (b ∷ w) ∷ ws

-- `strings.Split(s, sep)` behind `n` bytes to skip, for a separator that is not empty.
unfoldable pub split_from : List ℕ → ℕ → List ℕ → List (List ℕ)
split_from sep n [] = [] ∷ []
split_from sep (suc n) (b ∷ s) = split_from sep n s
split_from sep zero (b ∷ s) =
    let behind = split_from sep (length sep - 1) s in
    let rest = split_from sep 0 s in
    if has_prefix sep (b ∷ s) then [] ∷ behind else cons_head b rest

abbrev pub split : List ℕ → List ℕ → List (List ℕ)
split sep s = split_from sep 0 s

-- `strings.Join`.
unfoldable pub join : List ℕ → List (List ℕ) → List ℕ
join sep [] = []
join sep (w ∷ []) = w
join sep (w ∷ v ∷ ws) = w ++ (sep ++ join sep (v ∷ ws))

abbrev emit : List ℕ → List (List ℕ) → List (List ℕ)
emit [] ws = ws
emit (b ∷ w) ws = (b ∷ w) ∷ ws

-- `strings.Fields` behind `n` bytes to skip and the word `cur`.
unfoldable pub fields_from : ℕ → List ℕ → List ℕ → List (List ℕ)
fields_from n cur [] = emit cur []
fields_from (suc n) cur (b ∷ s) = fields_from n cur s
fields_from zero cur (b ∷ s) =
    let longer = fields_from 0 (cur ++ (b ∷ [])) s in
    let behind = fields_from (space_size (b ∷ s) - 1) [] s in
    if space_size (b ∷ s) == 0 then longer else emit cur behind

abbrev pub fields : List ℕ → List (List ℕ)
fields s = fields_from 0 [] s

unfoldable pub parse_digits : ℕ → List ℕ → Option ℕ
parse_digits acc [] = some acc
parse_digits acc (b ∷ s) =
    let rest = parse_digits (acc * 10 + (b - 48)) s in
    if leb b'0' b && leb b b'9' then rest else none

-- A decimal that is not empty.
abbrev pub parse_decimal : List ℕ → Option ℕ
parse_decimal [] = none
parse_decimal (b ∷ s) = parse_digits 0 (b ∷ s)

abbrev pub positive : ℕ → Option ℤ
positive n = if ltb n (2 ^ 63) then some (pos n) else none

abbrev pub negative : ℕ → Option ℤ
negative zero = some (pos 0)
negative (suc n) = if ltb n (2 ^ 63) then some (negsuc n) else none

-- `strconv.Atoi`, and `strconv.ParseInt(s, 10, 64)`, which is the same function of the text.
unfoldable pub atoi : List ℕ → Option ℤ
atoi [] = none
atoi (b ∷ s) =
    if b == b'-'
    then Option.bind (parse_decimal s) negative
    else if b == b'+'
    then Option.bind (parse_decimal s) positive
    else Option.bind (parse_decimal (b ∷ s)) positive

-- The case folding of `strings.EqualFold`, as far as ASCII: U+212A folds to k and U+017F to s.
unfoldable pub fold_from : ℕ → List ℕ → List ℕ
fold_from n [] = []
fold_from (suc n) (a ∷ s) = fold_from n s
fold_from zero (a ∷ s) =
    let rest = fold_from 0 s in
    let behind_two = fold_from 1 s in
    let behind_three = fold_from 2 s in
    if has_prefix (0xC5 ∷ 0xBF ∷ []) (a ∷ s)
    then b's' ∷ behind_two
    else if has_prefix (0xE2 ∷ 0x84 ∷ 0xAA ∷ []) (a ∷ s)
    then b'k' ∷ behind_three
    else lower_ascii a ∷ rest

-- `strings.EqualFold(s, t)`, where one of the texts is ASCII.
unfoldable pub equal_fold : List ℕ → List ℕ → Bool
equal_fold s t = text_eq (fold_from 0 s) (fold_from 0 t)

-- `base64.StdEncoding.EncodeToString`.
abbrev base64_digit : ℕ → ℕ
base64_digit n =
    if ltb n 26
    then b'A' + n
    else if ltb n 52
    then b'a' + (n - 26)
    else if ltb n 62
    then b'0' + (n - 52)
    else if n == 62
    then b'+'
    else b'/'

unfoldable pub base64 : List ℕ → List ℕ
base64 [] = []
base64 (a ∷ []) = base64_digit (a / 4) ∷ base64_digit (a % 4 * 16) ∷ b'=' ∷ b'=' ∷ []
base64 (a ∷ b ∷ []) =
    base64_digit (a / 4)
    ∷ base64_digit (a % 4 * 16 + b / 16)
    ∷ base64_digit (b % 16 * 4)
    ∷ b'='
    ∷ []
base64 (a ∷ b ∷ c ∷ s) =
    base64_digit (a / 4)
    ∷ base64_digit (a % 4 * 16 + b / 16)
    ∷ base64_digit (b % 16 * 4 + c / 64)
    ∷ base64_digit (c % 64)
    ∷ base64 s
