-- ===== src/Http/Body.antt =====
-- network/http_client.go: the readers of a body. A read returns bytes and an error, which may come
-- together; buffers are not empty.
pub mod Chunks
pub mod Trailers
use Prim.Native.String.{String}
use deskaone_sdk.Shared.{ℕ, zero, suc, ◌+◌, ◌-◌, ◌*◌, ◌<◌, min, ◌&&◌, ◌||◌, Bool, true, false, not}
use deskaone_sdk.Shared.{List, [], ◌∷◌, ◌++◌, length, take, drop, leb, ltb}
use deskaone_sdk.Shared.{Option, none, some, Result, ok, err, ◌==◌, if◌then◌else◌}
use mathlib.Core.Option
use deskaone_sdk.Shared.Int.{ℤ, pos, negsuc}
use deskaone_sdk.Shared.Text.{codes, text_eq, trim_space, to_lower, index_of, is_empty_text}
use deskaone_sdk.Shared.Words.{atoi, positive, negative}
use deskaone_sdk.Wire.{Conn, IoError, Exec, after, ◌>>=◌, pure, fail, io, read_some, read_full}
use deskaone_sdk.Http.{Headers, HttpError, invalid_content_length, invalid_chunk_size}
use deskaone_sdk.Http.{
  negative_chunk_size, invalid_chunk_delimiter, unfinished, io_error, get_header,
}
use deskaone_sdk.Http.Lines.{read_http_line}

abbrev hex_value : ℕ → Option ℕ
hex_value b =
    if leb b'0' b && leb b b'9'
    then some (b - 48)
    else if leb b'a' b && leb b b'f'
    then some (b - 87)
    else if leb b'A' b && leb b b'F'
    then some (b - 55)
    else none

unfoldable pub hex_digits : ℕ → List ℕ → Option ℕ
hex_digits acc [] = some acc
hex_digits acc (b ∷ s) = Option.bind (hex_value b) (λ d. hex_digits (acc * 16 + d) s)

abbrev hex_number : List ℕ → Option ℕ
hex_number [] = none
hex_number (b ∷ s) = hex_digits 0 (b ∷ s)

-- `strconv.ParseInt(s, 16, 64)`.
unfoldable pub parse_hex : List ℕ → Option ℤ
parse_hex [] = none
parse_hex (b ∷ s) =
    if b == b'-'
    then Option.bind (hex_number s) negative
    else if b == b'+'
    then Option.bind (hex_number s) positive
    else Option.bind (hex_number (b ∷ s)) positive

pub record ChunkedBodyReader : Type 0 where
  pub current_remaining : ℕ
  pub done : Bool

-- The bytes of a read, and the error that came with them.
pub record Outcome : Type 0 where
  pub bytes : List ℕ
  pub error : Option HttpError

abbrev pub failed : HttpError → Outcome
failed e = record { bytes = []; error = some e }

abbrev pub at_eof : Outcome
at_eof = failed (io_error IoError.eof)

-- The text in front of a semicolon, trimmed.
unfoldable pub size_text : List ℕ → List ℕ
size_text line =
    trim_space (elim (index_of (b';' ∷ []) line) [ none ↦ line | some i ↦ take i line ])

-- The loop over the trailer lines behind the last chunk.
unfoldable pub read_trailers : ℕ → Exec HttpError (Unit {0})
read_trailers zero = fail unfinished
read_trailers (suc fuel) = do
  line ← io io_error read_http_line
  if is_empty_text line then pure tt else read_trailers fuel

-- The delimiter behind a chunk whose last bytes are `bytes`.
abbrev pub check_delimiter : List ℕ → Result IoError (List ℕ) → Outcome
check_delimiter bytes (err e) = record { bytes = bytes; error = some (io_error e) }
check_delimiter bytes (ok crlf) =
    if text_eq crlf (b'\r' ∷ b'\n' ∷ [])
    then record { bytes = bytes; error = none }
    else record { bytes = bytes; error = some invalid_chunk_delimiter }

-- The part of `Read` behind the loop, where the chunk has bytes left.
abbrev pub behind_data :
    ChunkedBodyReader → Result IoError (List ℕ) × Conn → Outcome × ChunkedBodyReader × Conn
behind_data r (err e, c) = (failed (io_error e), r, c)
behind_data r (ok bytes, c) =
    let r' : ChunkedBodyReader = record r {
      current_remaining = r.current_remaining - length bytes;
    } in
    let (end, d) = read_full 2 c in
    if r'.current_remaining == 0
    then (check_delimiter bytes end, r', d)
    else (record { bytes = bytes; error = none }, r', c)

unfoldable pub read_data : ℕ → ChunkedBodyReader → Conn → Outcome × ChunkedBodyReader × Conn
read_data n r c = behind_data r (read_some (min n r.current_remaining) c)

abbrev pub end_of_body :
    ChunkedBodyReader → Result HttpError (Unit {0}) × Conn → Outcome × ChunkedBodyReader × Conn
end_of_body r (err e, c) = (failed e, r, c)
end_of_body r (ok u, c) = (at_eof, record r { done = true }, c)

-- What a size does; the loop of `Read` ends with its first round, since a size is refused, the end,
-- or positive.
abbrev pub start_chunk :
    List ℕ → Option ℤ → ℕ → ChunkedBodyReader → Conn → Outcome × ChunkedBodyReader × Conn
start_chunk text none n r c = (failed (invalid_chunk_size text), r, c)
start_chunk text (some (negsuc k)) n r c = (failed negative_chunk_size, r, c)
start_chunk text (some (pos zero)) n r c = end_of_body r (read_trailers (suc (length c.input)) c)
start_chunk text (some (pos (suc k))) n r c = read_data n (record r { current_remaining = suc k }) c

abbrev pub next_chunk :
    ℕ → ChunkedBodyReader → Result IoError (List ℕ) × Conn → Outcome × ChunkedBodyReader × Conn
next_chunk n r (err e, c) = (failed (io_error e), r, c)
next_chunk n r (ok line, c) = start_chunk (size_text line) (parse_hex (size_text line)) n r c

-- `chunkedBodyReader.Read` into a buffer of `n` bytes.
unfoldable pub read_chunked : ℕ → ChunkedBodyReader → Conn → Outcome × ChunkedBodyReader × Conn
read_chunked n r c =
    if r.done
    then (at_eof, r, c)
    else if r.current_remaining == 0
    then next_chunk n r (read_http_line c)
    else read_data n r c

-- The readers that `buildHTTPBodyReader` chooses from: io.LimitReader on the connection with what it
-- has left, an empty bytes.Reader, or the connection itself.
pub data RawBody : Type 0 where
  chunked : ChunkedBodyReader → RawBody
  limited : ℕ → RawBody
  empty direct : RawBody

abbrev body_of_length : List ℕ → Option ℤ → Result HttpError RawBody
body_of_length text none = err (invalid_content_length text)
body_of_length text (some (negsuc n)) = ok empty
body_of_length text (some (pos zero)) = ok empty
body_of_length text (some (pos (suc n))) = ok (limited (suc n))

unfoldable pub build_http_body_reader : Headers → Result HttpError RawBody
build_http_body_reader headers =
    let coding = to_lower (get_header headers (codes "Transfer-Encoding")) in
    let text = get_header headers (codes "Content-Length") in
    elim (index_of (codes "chunked") coding) [
      | some i ↦ ok (chunked (record { current_remaining = 0; done = false }))
      | none ↦
          if is_empty_text text then ok direct else body_of_length text (atoi (trim_space text))
    ]

abbrev pub of_direct : Result IoError (List ℕ) → Outcome
of_direct (ok bytes) = record { bytes = bytes; error = none }
of_direct (err e) = failed (io_error e)

abbrev pub of_limited : ℕ → Result IoError (List ℕ) × Conn → Outcome × RawBody × Conn
of_limited left (ok bytes, c) =
    (record { bytes = bytes; error = none }, limited (left - length bytes), c)
of_limited left (err e, c) = (failed (io_error e), limited left, c)

abbrev pub of_chunked : Outcome × ChunkedBodyReader × Conn → Outcome × RawBody × Conn
of_chunked (o, r, c) = (o, chunked r, c)

-- `Read` of each reader into a buffer of `n` bytes.
unfoldable pub read_raw : ℕ → RawBody → Conn → Outcome × RawBody × Conn
read_raw n empty c = (at_eof, empty, c)
read_raw n direct c = let (r, d) = read_some n c in (of_direct r, direct, d)
read_raw n (limited zero) c = (at_eof, limited zero, c)
read_raw n (limited (suc left)) c = of_limited (suc left) (read_some (min n (suc left)) c)
read_raw n (chunked r) c = of_chunked (read_chunked n r c)

-- `io.ReadAll`: reads until the end or an error. The sizes of its buffers are those of a list that
-- goes on as long as the fuel does; a clean end is no error.
abbrev is_eof : HttpError → Bool
is_eof (io_error IoError.eof) = true
is_eof e = false

abbrev pub read_more :
    {R : Type 0}
    → List ℕ
    → Outcome × R
    → (List ℕ → R → Result HttpError (List ℕ) × R)
    → Result HttpError (List ℕ) × R
read_more got (o, r) rest = elim o.error [
  | none ↦ rest (got ++ o.bytes) r
  | some e ↦ (if is_eof e then ok (got ++ o.bytes) else err e, r)
]

unfoldable pub read_all :
    {R : Type 0} → (ℕ → R → Outcome × R) → ℕ → (ℕ → ℕ) → List ℕ → R → Result HttpError (List ℕ) × R
read_all read zero sizes got r = (err unfinished, r)
read_all read (suc fuel) sizes got r =
    read_more got (read (suc (sizes fuel)) r) (λ more s. read_all read fuel sizes more s)
