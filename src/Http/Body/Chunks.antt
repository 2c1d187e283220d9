-- ===== src/Http/Body/Chunks.antt =====
-- Bodies in chunks: what a peer sends, and what reading it in any pieces gives.
use deskaone_sdk.Shared.{ℕ, suc, ◌+◌, ◌-◌, ◌≤◌, ◌≡◌, ◌≢◌, refl, ap, ap₂, ◌∙◌, arith, min}
use deskaone_sdk.Shared.{false, List, [], ◌∷◌, ◌++◌, length, take, drop}
use deskaone_sdk.Shared.{none, some, ok, ◌==◌}
use deskaone_sdk.Shared.{take-append_le, drop-append_le, length-drop, length-take}
use deskaone_sdk.Shared.Int.{pos}
use deskaone_sdk.Shared.Text.{text_eq}
use deskaone_sdk.Wire.{Conn, read_some, next_cut, later_cuts}
use deskaone_sdk.Wire.Laws.{read_full_prefix}
use deskaone_sdk.Http.Lines.Reading.{IsPlain, read_http_line-plain}
use deskaone_sdk.Http.Body.{
  ChunkedBodyReader, Outcome, size_text, parse_hex, read_data, behind_data, read_chunked,
  start_chunk, next_chunk, read_raw, of_chunked, chunked,
}

-- A chunk: its size line, without the line's end, and its bytes.
pub record Chunk : Type 0 where
  pub line : List ℕ
  pub bytes : List ℕ

-- The line is plain and gives the number of the bytes, of which there are some.
pub record IsChunk (chunk : Chunk) : Type 0 where
  pub plain : IsPlain chunk.line
  pub size : parse_hex (size_text chunk.line) ≡ some (pos (length chunk.bytes))
  pub nonempty : chunk.bytes ≢ []

-- The chunks as they are sent, with `tail` behind them.
abbrev pub chunks_text : List Chunk → List ℕ → List ℕ
chunks_text [] tail = tail
chunks_text (chunk ∷ chunks) tail =
    chunk.line ++ (b'\r' ∷ b'\n' ∷ (chunk.bytes ++ (b'\r' ∷ b'\n' ∷ chunks_text chunks tail)))

abbrev pub chunks_body : List Chunk → List ℕ
chunks_body [] = []
chunks_body (chunk ∷ chunks) = chunk.bytes ++ chunks_body chunks

-- The input where `rest` of the chunk that is being read is still to come.
abbrev pub pending : List ℕ → List ℕ → List ℕ
pending [] behind = behind
pending (b ∷ rest) behind = (b ∷ rest) ++ (b'\r' ∷ b'\n' ∷ behind)

abbrev pub reader : ℕ → ChunkedBodyReader
reader left = record { current_remaining = left; done = false }

abbrev pub at : Conn → List ℕ → List ℕ → Conn
at c input cuts = record c { input = input; cuts = cuts }

abbrev pub got : List ℕ → Outcome
got bytes = record { bytes = bytes; error = none }

suc-ne_zero : (n : ℕ) → (suc n == 0) ≡ false
suc-ne_zero n = ground arith

module _ (c : Conn) (open' : c.is_closed ≡ false) where
  -- Behind a read that leaves `rest` of the chunk.
  behind-pending :
      (bytes rest behind cuts : List ℕ) (m : ℕ)
      → m ≡ length bytes + length rest
      → behind_data (reader m) (ok bytes, at c (rest ++ (b'\r' ∷ b'\n' ∷ behind)) cuts)
        ≡ (got bytes, reader (length rest), at c (pending rest behind) cuts)
  unfolding text_eq
  behind-pending bytes [] behind cuts m e =
      let d = at c (b'\r' ∷ b'\n' ∷ behind) cuts in
      let zero' : m - length bytes ≡ 0 = omega (arith, e) in
      rw (zero', read_full_prefix (b'\r' ∷ b'\n' ∷ []) behind 2 d open' refl refl) refl
  behind-pending bytes (b ∷ rest) behind cuts m e =
      let more : m - length bytes ≡ suc (length rest) = omega (arith, e) in
      rw (more, suc-ne_zero (length rest)) refl

  next_cut-suc :
      (cuts : List ℕ) (n : ℕ) → (k : ℕ) × (next_cut cuts (suc n) ≡ suc k) × (suc k ≤ suc n)
  next_cut-suc [] n = (n, refl, omega arith)
  next_cut-suc (cut ∷ cuts) n = (min cut n, omega arith, omega arith)

  read_some-cut :
      (m k b : ℕ) (s cuts : List ℕ)
      → next_cut cuts m ≡ suc k
      → read_some m (at c (b ∷ s) cuts)
        ≡ (ok (take (suc k) (b ∷ s)), at c (drop (suc k) (b ∷ s)) (later_cuts cuts))
  unfolding read_some
  read_some-cut m k b s cuts e = rw (open', e) refl

  -- A read inside a chunk takes at least one byte of it, and the delimiter with the last.
  pub read_data-pending :
      (n b : ℕ) (rest behind cuts : List ℕ)
      → (k : ℕ) × (suc k ≤ length (b ∷ rest))
        × (read_data (suc n) (reader (length (b ∷ rest))) (at c (pending (b ∷ rest) behind) cuts)
            ≡ (
              got (take (suc k) (b ∷ rest)),
              reader (length (drop (suc k) (b ∷ rest))),
              at c (pending (drop (suc k) (b ∷ rest)) behind) (later_cuts cuts),
            ))
  unfolding read_data
  read_data-pending n b rest behind cuts =
      let (k, e, le) = next_cut-suc cuts (min n (length rest)) in
      let small : suc k ≤ length (b ∷ rest) = omega (arith, le) in
      let size : min (suc n) (length (b ∷ rest)) ≡ suc (min n (length rest)) = omega arith in
      let all = b ∷ rest in
      let input = b'\r' ∷ b'\n' ∷ behind in
      let cut : next_cut cuts (min (suc n) (length all)) ≡ suc k = ap (next_cut cuts) size ∙ e in
      let sizes : length all ≡ length (take (suc k) all) + length (drop (suc k) all) =
        omega (arith, length-take (suc k) all, length-drop (suc k) all) in
      (
        k,
        small,
        ap (behind_data (reader (length all))) (
              read_some-cut (min (suc n) (length all)) k b (rest ++ input) cuts cut
              ∙ ap₂ (λ x y. (ok x, at c y (later_cuts cuts)))
                  (take-append_le (suc k) all input small) (drop-append_le (suc k) all input small))
            ∙ behind-pending (take (suc k) all) (drop (suc k) all) behind (later_cuts cuts)
                (length all) sizes,
      )

  pub read_chunked-inside :
      (n k : ℕ) (d : Conn) → read_chunked n (reader (suc k)) d ≡ read_data n (reader (suc k)) d
  unfolding read_chunked
  read_chunked-inside n k d = rw (suc-ne_zero k) refl

  -- A read between two chunks takes the size line, and then reads in the chunk.
  pub read_chunked-next :
      (n b : ℕ) (chunk : Chunk) (chunks : List Chunk) (tail cuts rest : List ℕ)
      → IsChunk chunk
      → chunk.bytes ≡ b ∷ rest
      → read_chunked n (reader 0) (at c (chunks_text (chunk ∷ chunks) tail) cuts)
        ≡ read_data n
            (reader (length (b ∷ rest)))
            (at c (pending (b ∷ rest) (chunks_text chunks tail)) cuts)
  unfolding read_chunked
  read_chunked-next n b chunk chunks tail cuts rest h e =
      let behind = chunk.bytes ++ (b'\r' ∷ b'\n' ∷ chunks_text chunks tail) in
      ap (next_chunk n (reader 0)) (
        read_http_line-plain chunk.line behind (at c (chunk.line ++ (b'\r' ∷ b'\n' ∷ behind)) cuts)
          h.plain open' refl)
      ∙ ap (λ o. start_chunk (size_text chunk.line) o n (reader 0) (at c behind cuts)) h.size
      ∙ ap
          (λ s.
            start_chunk (size_text chunk.line) (some (pos (length s))) n (reader 0)
              (at c (s ++ (b'\r' ∷ b'\n' ∷ chunks_text chunks tail)) cuts))
          e

pub read_raw-chunked :
    (n : ℕ) (r : ChunkedBodyReader) (c : Conn)
    → read_raw n (chunked r) c ≡ of_chunked (read_chunked n r c)
unfolding read_raw
read_raw-chunked n r c = refl

pub cons_of_nonempty : (s : List ℕ) → s ≢ [] → (b : ℕ) × (rest : List ℕ) × (s ≡ b ∷ rest)
cons_of_nonempty [] h = absurd (h refl)
cons_of_nonempty (b ∷ rest) h = (b, rest, refl)
