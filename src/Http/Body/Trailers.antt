-- ===== src/Http/Body/Trailers.antt =====
-- The end of a body in chunks: the last chunk with its trailers, or a connection that ends before.
use deskaone_sdk.Shared.{ℕ, zero, suc, ◌<◌, ◌≡◌, ◌≢◌, refl, ap, ◌∙◌, arith}
use deskaone_sdk.Shared.{false, List, [], ◌∷◌, ◌++◌, length, All, length-append}
use deskaone_sdk.Shared.{some, ok, err}
use deskaone_sdk.Shared.Int.{pos}
use deskaone_sdk.Shared.Text.{is_empty_text-nonempty}
use deskaone_sdk.Wire.{Conn, IoError}
use deskaone_sdk.Http.Lines.Reading.{IsPlain, read_http_line-plain, read_http_line-end}
use deskaone_sdk.Http.Body.{
  size_text, parse_hex, read_chunked, start_chunk, next_chunk, read_trailers, end_of_body, at_eof,
}
use deskaone_sdk.Http.Body.Chunks.{reader, at}

-- A trailer: a line that is plain and not empty.
abbrev pub IsTrailer : List ℕ → Type 0
IsTrailer line = IsPlain line × (line ≢ [])

-- The trailers as they are sent, with the empty line and what comes behind it.
abbrev pub trailers_text : List (List ℕ) → List ℕ → List ℕ
trailers_text [] behind = b'\r' ∷ b'\n' ∷ behind
trailers_text (line ∷ lines) behind = line ++ (b'\r' ∷ b'\n' ∷ trailers_text lines behind)

trailers_enough :
    (lines : List (List ℕ)) (behind : List ℕ) → length lines < length (trailers_text lines behind)
trailers_enough [] behind = omega arith
trailers_enough (line ∷ lines) behind = omega (
  arith,
  trailers_enough lines behind,
  length-append line (b'\r' ∷ b'\n' ∷ trailers_text lines behind),
)

module _ (c : Conn) (open' : c.is_closed ≡ false) where
  read_trailers-end :
      (fuel : ℕ) (lines : List (List ℕ)) (behind cuts : List ℕ)
      → All IsTrailer lines
      → length lines < fuel
      → read_trailers fuel (at c (trailers_text lines behind) cuts) ≡ (ok tt, at c behind cuts)
  unfolding read_trailers
  read_trailers-end zero lines behind cuts h enough = absurd (omega arith)
  read_trailers-end (suc fuel) [] behind cuts h enough =
      rw (read_http_line-plain [] behind (at c (b'\r' ∷ b'\n' ∷ behind) cuts) tt open' refl) refl
  read_trailers-end (suc fuel) (line ∷ lines) behind cuts h enough =
      rw
        (
          read_http_line-plain line (trailers_text lines behind)
              (at c (trailers_text (line ∷ lines) behind) cuts) h.0.0 open' refl,
          is_empty_text-nonempty line h.0.1,
        )
        (read_trailers-end fuel lines behind cuts h.1 (omega arith))

  -- The chunk of size zero, with any trailers, ends the body.
  pub read_chunked-last :
      (n : ℕ) (last : List ℕ) (lines : List (List ℕ)) (behind cuts : List ℕ)
      → IsPlain last
      → parse_hex (size_text last) ≡ some (pos 0)
      → All IsTrailer lines
      → (read_chunked n
          (reader 0)
          (at c (last ++ (b'\r' ∷ b'\n' ∷ trailers_text lines behind)) cuts)).0
        ≡ at_eof
  unfolding read_chunked
  read_chunked-last n last lines behind cuts plain size h =
      let text = trailers_text lines behind in
      ap (λ p. (next_chunk n (reader 0) p).0)
        (read_http_line-plain last text (at c (last ++ (b'\r' ∷ b'\n' ∷ text)) cuts) plain open'
          refl)
      ∙ ap (λ o. (start_chunk (size_text last) o n (reader 0) (at c text cuts)).0) size
      ∙ ap (λ p. (end_of_body (reader 0) p).0)
          (read_trailers-end (suc (length text)) lines behind cuts h
            (omega (arith, trailers_enough lines behind)))

  -- A connection that ends in front of a size line ends the body as well.
  pub read_chunked-cut :
      (n : ℕ) (cuts : List ℕ)
      → c.at_end ≡ IoError.eof
      → (read_chunked n (reader 0) (at c [] cuts)).0 ≡ at_eof
  unfolding read_chunked
  read_chunked-cut n cuts e =
      ap (λ p. (next_chunk n (reader 0) p).0) (read_http_line-end (at c [] cuts) open' refl)
      ∙ ap (λ x. (next_chunk n (reader 0) (err x, at c [] cuts)).0) e
