-- ===== src/Http/Lines.antt =====
-- network/http_client.go: the lines of an answer. A bufio.Reader on a connection is the connection
-- itself here, with the bytes that are still to be given out and the sizes in which single reads
-- give them; what it has read ahead does not show.
pub mod Reading
pub mod Block
use Prim.Native.String.{String}
use deskaone_sdk.Shared.{ℕ, zero, suc, ◌||◌, List, [], ◌∷◌, ◌++◌, length, take, drop, Bool}
use deskaone_sdk.Shared.{Option, none, some, Result, ok, err, ◌==◌, if◌then◌else◌}
use mathlib.Core.Option
use mathlib.Core.List.{reverse}
use deskaone_sdk.Shared.Int.{ℤ}
use deskaone_sdk.Shared.Text.{codes, text_eq, trim_space, index_of, is_empty_text}
use deskaone_sdk.Shared.Words.{fields, atoi}
use deskaone_sdk.Wire.{Conn, IoError, Exec, after, ◌>>=◌, pure, fail, io}
use deskaone_sdk.Http.{
  Headers, HttpError, invalid_status_line, invalid_status_code, unfinished, io_error,
}

-- The bytes in front of the first line feed, and those behind it.
abbrev prepend : ℕ → Option (List ℕ × List ℕ) → Option (List ℕ × List ℕ)
prepend b none = none
prepend b (some (line, rest)) = some (b ∷ line, rest)

unfoldable pub cut_line : List ℕ → Option (List ℕ × List ℕ)
cut_line [] = none
cut_line (b ∷ s) = let more = cut_line s in if b == b'\n' then some ([], s) else prepend b more

-- `strings.TrimRight(line, "\r\n")`.
unfoldable pub drop_breaks : List ℕ → List ℕ
drop_breaks [] = []
drop_breaks (b ∷ s) =
    let rest = drop_breaks s in if (b == b'\r') || (b == b'\n') then rest else b ∷ s

unfoldable pub trim_breaks : List ℕ → List ℕ
trim_breaks s = reverse (drop_breaks (reverse s))

abbrev pub line_of : Option (List ℕ × List ℕ) → Conn → Result IoError (List ℕ) × Conn
line_of none c = (err c.at_end, record c { input = [] })
line_of (some (line, rest)) c = (ok (trim_breaks line), record c { input = rest })

-- The line feed itself is trimmed too, so it is left out at once.
unfoldable pub read_http_line : Exec IoError (List ℕ)
read_http_line c = if c.is_closed then (err IoError.closed, c) else line_of (cut_line c.input) c

abbrev pub code_of_words : List ℕ → List (List ℕ) → Result HttpError ℤ
code_of_words line [] = err (invalid_status_line line)
code_of_words line (w ∷ []) = err (invalid_status_line line)
code_of_words line (w ∷ v ∷ ws) = elim (atoi v) [
  | none ↦ err (invalid_status_code v)
  | some code ↦ ok code
]

unfoldable pub parse_http_status_code : List ℕ → Result HttpError ℤ
parse_http_status_code line = code_of_words line (fields line)

-- `headers[key] = old + ", " + value`, or the value alone for a new name.
unfoldable pub add_header : List ℕ → List ℕ → Headers → Headers
add_header key value [] = (key, value) ∷ []
add_header key value ((k, old) ∷ headers) =
    let rest = add_header key value headers in
    if text_eq k key then (k, old ++ (codes ", " ++ value)) ∷ headers else (k, old) ∷ rest

-- What a header line adds; a line with no name before its colon is passed over.
abbrev pub header_at : List ℕ → Option ℕ → Headers → Headers
header_at line none headers = headers
header_at line (some zero) headers = headers
header_at line (some (suc i)) headers =
    add_header (trim_space (take (suc i) line)) (trim_space (drop (suc (suc i)) line)) headers

unfoldable pub header_line : List ℕ → Headers → Headers
header_line line headers = header_at line (index_of (b':' ∷ []) line) headers

-- The loop of `readHTTPHeaders`. A line takes at least its line feed.
unfoldable pub read_header_lines : ℕ → Headers → Exec HttpError Headers
read_header_lines zero headers = fail unfinished
read_header_lines (suc fuel) headers = do
  line ← io io_error read_http_line
  if is_empty_text line then pure headers else read_header_lines fuel (header_line line headers)

unfoldable pub read_http_headers : Exec HttpError Headers
read_http_headers c = read_header_lines (suc (length c.input)) [] c
