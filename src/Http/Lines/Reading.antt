-- ===== src/Http/Lines/Reading.antt =====
-- Lines that end with CRLF, as they are read.
use mathlib.Core.List.{reverse, reverse-append, reverse-reverse}
use deskaone_sdk.Shared.{ℕ, ◌≡◌, refl, ap, ◌∙◌, arith}
use deskaone_sdk.Shared.{true, false, ◌||◌, List, [], ◌∷◌, ◌++◌, All}
use deskaone_sdk.Shared.{some, ok, err, ◌==◌, if◌then◌else◌}
use deskaone_sdk.Shared.{All-append}
use deskaone_sdk.Wire.{Conn, IoError}
use deskaone_sdk.Http.Lines.{cut_line, drop_breaks, trim_breaks, read_http_line, line_of}

abbrev IsBreak : ℕ → Type 0
IsBreak b = ((b == b'\r') || (b == b'\n')) ≡ true

-- A text with no line break in it.
abbrev pub IsPlain : List ℕ → Type 0
IsPlain s = All (λ b. ((b == b'\r') || (b == b'\n')) ≡ false) s

IsPlain-reverse : (s : List ℕ) → IsPlain s → IsPlain (reverse s)
IsPlain-reverse [] h = tt
IsPlain-reverse (b ∷ s) h =
    rw (reverse-append (b ∷ []) s)
      (All-append _ (reverse s) (b ∷ []) (IsPlain-reverse s h.1) (h.0, tt))

drop_breaks-plain : (s : List ℕ) → IsPlain s → drop_breaks s ≡ s
unfolding drop_breaks
drop_breaks-plain [] h = refl
drop_breaks-plain (b ∷ s) h = rw (h.0) refl

trim_breaks-plain : (s : List ℕ) → IsPlain s → trim_breaks (s ++ (b'\r' ∷ [])) ≡ s
unfolding trim_breaks drop_breaks
trim_breaks-plain s h =
    rw (reverse-append s (b'\r' ∷ []), drop_breaks-plain (reverse s) (IsPlain-reverse s h))
      (reverse-reverse s)

cut_line-plain :
    (s rest : List ℕ)
    → IsPlain s
    → cut_line (s ++ (b'\r' ∷ b'\n' ∷ rest)) ≡ some (s ++ (b'\r' ∷ []), rest)
unfolding cut_line
cut_line-plain [] rest h = refl
cut_line-plain (b ∷ s) rest h = ground (arith, cut_line-plain s rest h.1)

-- A line that ends with CRLF is read without it.
pub read_http_line-plain :
    (line rest : List ℕ) (c : Conn)
    → IsPlain line
    → c.is_closed ≡ false
    → c.input ≡ line ++ (b'\r' ∷ b'\n' ∷ rest)
    → read_http_line c ≡ (ok line, record c { input = rest })
unfolding read_http_line
read_http_line-plain line rest c plain open' e =
    ap (λ b. if b then (err IoError.closed, c) else line_of (cut_line c.input) c) open'
    ∙ ap (λ o. line_of o c) (ap cut_line e ∙ cut_line-plain line rest plain)
    ∙ ap (λ l. (ok l, record c { input = rest })) (trim_breaks-plain line plain)

-- At the end of the input there is the error of the connection.
pub read_http_line-end :
    (c : Conn)
    → c.is_closed ≡ false
    → c.input ≡ []
    → read_http_line c ≡ (err c.at_end, record c { input = [] })
unfolding read_http_line cut_line
read_http_line-end c open' e =
    ap (λ b. if b then (err IoError.closed, c) else line_of (cut_line c.input) c) open'
    ∙ ap (λ s. line_of (cut_line s) c) e
