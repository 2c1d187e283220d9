-- ===== src/Http/Lines/Block.antt =====
-- Header lines up to the empty line, as they are read.
use deskaone_sdk.Shared.{ℕ, zero, suc, ◌≤◌, ◌≡◌, refl, ap, arith, length-append}
use deskaone_sdk.Shared.{false, List, [], ◌∷◌, ◌++◌, All, length, ok}
use deskaone_sdk.Shared.Text.{is_empty_text}
use deskaone_sdk.Wire.{Conn}
use deskaone_sdk.Http.{Headers}
use deskaone_sdk.Http.Lines.{read_header_lines, read_http_headers, header_line}
use deskaone_sdk.Http.Lines.Reading.{IsPlain, read_http_line-plain}

abbrev pub IsHeaderLine : List ℕ → Type 0
IsHeaderLine line = IsPlain line × (is_empty_text line ≡ false)

-- Each line with its CRLF, then the empty line, then `rest`.
abbrev pub block : List (List ℕ) → List ℕ → List ℕ
block [] rest = b'\r' ∷ b'\n' ∷ rest
block (line ∷ lines) rest = line ++ (b'\r' ∷ b'\n' ∷ block lines rest)

abbrev pub add_lines : List (List ℕ) → Headers → Headers
add_lines [] headers = headers
add_lines (line ∷ lines) headers = add_lines lines (header_line line headers)

length-block : (lines : List (List ℕ)) (rest : List ℕ) → length lines ≤ length (block lines rest)
length-block [] rest = omega arith
length-block (line ∷ lines) rest =
    omega (arith, length-block lines rest, length-append line (b'\r' ∷ b'\n' ∷ block lines rest))

read_header_lines-block :
    (lines : List (List ℕ)) (rest : List ℕ) (fuel : ℕ) (headers : Headers) (c : Conn)
    → All IsHeaderLine lines
    → length lines ≤ fuel
    → c.is_closed ≡ false
    → c.input ≡ block lines rest
    → read_header_lines (suc fuel) headers c
      ≡ (ok (add_lines lines headers), record c { input = rest })
unfolding read_header_lines
read_header_lines-block [] rest fuel headers c all le open' e =
    rw (read_http_line-plain [] rest c tt open' e) refl
read_header_lines-block (line ∷ lines) rest zero headers c all le open' e = ground (arith, le)
read_header_lines-block (line ∷ lines) rest (suc fuel) headers c all le open' e =
    rw (read_http_line-plain line (block lines rest) c (all.0.0) open' e, all.0.1)
      (read_header_lines-block lines rest fuel (header_line line headers)
        (record c { input = block lines rest }) (all.1) (omega (arith, le)) open' refl)

pub read_http_headers-block :
    (lines : List (List ℕ)) (rest : List ℕ) (c : Conn)
    → All IsHeaderLine lines
    → c.is_closed ≡ false
    → c.input ≡ block lines rest
    → read_http_headers c ≡ (ok (add_lines lines []), record c { input = rest })
unfolding read_http_headers
read_http_headers-block lines rest c all open' e =
    read_header_lines-block lines rest (length c.input) [] c all
      (omega (arith, ap length e, length-block lines rest)) open' e
