-- ===== src/Http/Client/Bodies.antt =====
-- The body of a response that comes in chunks.
use deskaone_sdk.Shared.{ℕ, zero, suc, ◌≤◌, ◌<◌, ◌≡◌, sym, ap, ◌∙◌, arith}
use deskaone_sdk.Shared.{false, List, [], ◌∷◌, ◌++◌, length, take, drop, All, map_ok}
use deskaone_sdk.Shared.{Option, none, some, Result, ok}
use deskaone_sdk.Shared.{length-append, length-drop, take-append-drop, append_assoc, append-nil}
use deskaone_sdk.Shared.Int.{ℤ, pos}
use deskaone_sdk.Wire.{Conn, IoError, later_cuts}
use deskaone_sdk.Http.{HttpError, HttpResponse}
use deskaone_sdk.Http.Body.{
  ChunkedBodyReader, Outcome, RawBody, chunked, read_chunked, read_data, at_eof, read_all,
  read_more,
}
use deskaone_sdk.Http.Body.Chunks.{
  Chunk, IsChunk, chunks_text, chunks_body, pending, reader, at, got, read_data-pending,
  read_chunked-next, read_chunked-inside, cons_of_nonempty, read_raw-chunked,
}
use deskaone_sdk.Http.Body.{size_text, parse_hex}
use deskaone_sdk.Http.Lines.Reading.{IsPlain}
use deskaone_sdk.Http.Body.Trailers.{IsTrailer, trailers_text, read_chunked-last, read_chunked-cut}
use deskaone_sdk.Http.Exchange.{HttpClient, Outside, Body, HttpStreamResponse}
use deskaone_sdk.Http.Client.{Network, read_limited, read_body, read_response, limit_of}

-- At `tail` a reader that is between two chunks ends, whatever is read.
abbrev pub Ends : Conn → List ℕ → Type 0
Ends c tail = (n : ℕ) (cuts : List ℕ) → (read_chunked n (reader 0) (at c tail cuts)).0 ≡ at_eof

module _ {W D : Type 0} (o : Outside W D) (sizes : ℕ → ℕ) (rounds : ℕ) where
  abbrev pub in_chunks : ChunkedBodyReader → Body D
  in_chunks r = record { raw = chunked r; decoder = none }

  -- The state of the loop of ReadAll, without a limit.
  abbrev state : ChunkedBodyReader → Conn → Option ℕ × (Body D × Conn)
  state r c = (none, (in_chunks r, c))

  abbrev lifted : Outcome × ChunkedBodyReader × Conn → Outcome × (Option ℕ × (Body D × Conn))
  lifted (out, r, c) = (out, state r c)

  read_limited-chunked :
      (n : ℕ) (r : ChunkedBodyReader) (c : Conn)
      → read_limited o sizes rounds n (state r c) ≡ lifted (read_chunked n r c)
  unfolding read_limited read_body
  read_limited-chunked n r c =
      ap
        (λ (p : Outcome × RawBody × Conn).
          (p.0, (none, (record { raw = p.1; decoder = none }, p.2))))
        (read_raw-chunked n r c)

  abbrev loop : ℕ → List ℕ → ChunkedBodyReader → Conn → Result HttpError (List ℕ)
  loop fuel acc r c = (read_all (read_limited o sizes rounds) fuel sizes acc (state r c)).0

  abbrev rest_of :
      ℕ
      → List ℕ
      → Option ℕ × (Body D × Conn)
      → Result HttpError (List ℕ) × (Option ℕ × (Body D × Conn))
  rest_of fuel more s = read_all (read_limited o sizes rounds) fuel sizes more s

  -- A round that ends the body.
  loop-eof :
      (fuel : ℕ) (acc : List ℕ) (r : ChunkedBodyReader) (c : Conn)
      → (read_chunked (suc (sizes fuel)) r c).0 ≡ at_eof
      → loop (suc fuel) acc r c ≡ ok acc
  unfolding read_all
  loop-eof fuel acc r c e =
      let n = suc (sizes fuel) in
      let (out, r', c') = read_chunked n r c in
      ap (λ x. (read_more acc x (rest_of fuel)).0) (read_limited-chunked n r c)
      ∙ ap (λ x. (read_more acc (x, state r' c') (rest_of fuel)).0) e
      ∙ ap ok (append-nil acc)

  -- A round that reads bytes.
  loop-got :
      (fuel : ℕ) (acc bytes : List ℕ) (r r' : ChunkedBodyReader) (c c' : Conn)
      → read_chunked (suc (sizes fuel)) r c ≡ (got bytes, r', c')
      → loop (suc fuel) acc r c ≡ loop fuel (acc ++ bytes) r' c'
  unfolding read_all
  loop-got fuel acc bytes r r' c c' e =
      let n = suc (sizes fuel) in
      ap (λ x. (read_more acc x (rest_of fuel)).0) (read_limited-chunked n r c)
      ∙ ap (λ p. (read_more acc (lifted p) (rest_of fuel)).0) e

  module _ (c : Conn) (open' : c.is_closed ≡ false) (tail : List ℕ) (ends : Ends c tail) where
    -- A round inside a chunk, whichever state it was reached from.
    loop-data :
        (fuel b : ℕ) (rest acc : List ℕ) (chunks : List Chunk) (r : ChunkedBodyReader) (d : Conn)
        (cuts : List ℕ)
        → read_chunked (suc (sizes fuel)) r d
          ≡ read_data
              (suc (sizes fuel))
              (reader (length (b ∷ rest)))
              (at c (pending (b ∷ rest) (chunks_text chunks tail)) cuts)
        → ((more left later : List ℕ)
            → length left ≤ length rest
            → loop fuel
                (acc ++ more)
                (reader (length left))
                (at c (pending left (chunks_text chunks tail)) later)
              ≡ ok ((acc ++ more) ++ (left ++ chunks_body chunks)))
        → loop (suc fuel) acc r d ≡ ok (acc ++ ((b ∷ rest) ++ chunks_body chunks))
    loop-data fuel b rest acc chunks r d cuts e ih =
        let all = b ∷ rest in
        let (k, small, step) =
          read_data-pending c open' (sizes fuel) b rest (chunks_text chunks tail) cuts in
        let front = take (suc k) all in
        let back = drop (suc k) all in
        loop-got fuel acc front r (reader (length back)) d _ (e ∙ step)
        ∙ ih front back (later_cuts cuts) (omega (arith, length-drop (suc k) all))
        ∙ ap ok (
            append_assoc acc front (back ++ chunks_body chunks)
            ∙ ap (λ s. acc ++ s)
                (sym (append_assoc front back (chunks_body chunks))
                  ∙ ap (λ s. s ++ chunks_body chunks) (take-append-drop (suc k) all)))

    loop-chunks :
        (fuel : ℕ) (chunks : List Chunk) (rest acc cuts : List ℕ)
        → All IsChunk chunks
        → length (rest ++ chunks_body chunks) < fuel
        → loop fuel acc (reader (length rest)) (at c (pending rest (chunks_text chunks tail)) cuts)
          ≡ ok (acc ++ (rest ++ chunks_body chunks))
    loop-chunks zero chunks rest acc cuts h enough = absurd (omega arith)
    loop-chunks (suc fuel) chunks (b ∷ rest) acc cuts h enough =
        let d = at c (pending (b ∷ rest) (chunks_text chunks tail)) cuts in
        let total = length-append rest (chunks_body chunks) in
        loop-data fuel b rest acc chunks (reader (length (b ∷ rest))) d cuts
          (read_chunked-inside c open' (suc (sizes fuel)) (length rest) d)
          (λ more left later le.
            loop-chunks fuel chunks left (acc ++ more) later h
              (omega (arith, enough, le, total, length-append left (chunks_body chunks))))
    loop-chunks (suc fuel) [] [] acc cuts h enough =
        loop-eof fuel acc (reader 0) (at c tail cuts) (ends (suc (sizes fuel)) cuts)
        ∙ ap ok (sym (append-nil acc))
    loop-chunks (suc fuel) (chunk ∷ chunks) [] acc cuts h enough =
        let (b, rest, e) = cons_of_nonempty chunk.bytes h.0.nonempty in
        let d = at c (chunks_text (chunk ∷ chunks) tail) cuts in
        let total = length-append chunk.bytes (chunks_body chunks) in
        let size = ap (λ (s : List ℕ). length s) e in
        loop-data fuel b rest acc chunks (reader 0) d cuts
          (read_chunked-next c open' (suc (sizes fuel)) b chunk chunks tail cuts rest h.0 e)
          (λ more left later le.
            loop-chunks fuel chunks left (acc ++ more) later h.1
              (omega (arith, enough, le, total, size, length-append left (chunks_body chunks))))
        ∙ ap (λ s. ok (acc ++ (s ++ chunks_body chunks))) (sym e)

    -- What reading the body to its end gives.
    response-chunks :
        (client : HttpClient) (res : HttpStreamResponse D) (net : Network W) (chunks : List Chunk)
        → client.max_body_size ≡ pos 0
        → res.body ≡ in_chunks (reader 0)
        → res.client.conn ≡ record c { input = chunks_text chunks tail }
        → All IsChunk chunks
        → length (chunks_body chunks) < rounds
        → (read_response o sizes rounds client res net).0
          ≡ ok (record {
            status_code = res.status_code;
            status = res.status;
            headers = res.headers;
            body = chunks_body chunks;
          })
    unfolding read_response
    response-chunks client res net chunks limit body conn h enough =
        let loop_of = λ (m : ℤ) (b : Body D) (d : Conn).
          (read_all (read_limited o sizes rounds) rounds sizes []
            (limit_of o sizes rounds m, (b, d))).0 in
        let respond = λ (r : Result HttpError (List ℕ)).
          map_ok
            (λ bytes.
              let response : HttpResponse = record {
                status_code = res.status_code;
                status = res.status;
                headers = res.headers;
                body = bytes;
              } in
              response)
            r in
        ap (λ m. respond (loop_of m res.body res.client.conn)) limit
        ∙ ap (λ b. respond (loop_of (pos 0) b res.client.conn)) body
        ∙ ap (λ d. respond (loop_of (pos 0) (in_chunks (reader 0)) d)) conn
        ∙ ap respond (loop-chunks rounds chunks [] [] c.cuts h enough)

  -- What a client without a limit returns for an answer with the chunks `chunks`.
  abbrev pub Returns : HttpClient → HttpStreamResponse D → Network W → List ℕ → Type 0
  Returns client res net bytes =
      (read_response o sizes rounds client res net).0
      ≡ ok (record {
        status_code = res.status_code;
        status = res.status;
        headers = res.headers;
        body = bytes;
      })

  -- An answer in chunks is returned with exactly the bytes of its chunks, in their order, whatever the
  -- sizes of the buffers and in whatever pieces the connection delivers it; extensions of size lines,
  -- trailers and bytes behind the body do not show. The client has no limit, the connection is open,
  -- and the reads that ReadAll is given are more than the body has bytes.
  pub read_response-chunks :
      (client : HttpClient) (res : HttpStreamResponse D) (net : Network W) (chunks : List Chunk)
      (last behind : List ℕ) (trailers : List (List ℕ))
      → client.max_body_size ≡ pos 0
      → res.body ≡ in_chunks (reader 0)
      → res.client.conn.is_closed ≡ false
      → res.client.conn.input
        ≡ chunks_text chunks (last ++ (b'\r' ∷ b'\n' ∷ trailers_text trailers behind))
      → All IsChunk chunks
      → IsPlain last
      → parse_hex (size_text last) ≡ some (pos 0)
      → All IsTrailer trailers
      → length (chunks_body chunks) < rounds
      → Returns client res net (chunks_body chunks)
  read_response-chunks client res net chunks last behind trailers limit body open' input h plain
        size t enough =
      let c = res.client.conn in
      response-chunks c open' (last ++ (b'\r' ∷ b'\n' ∷ trailers_text trailers behind))
        (λ n cuts. read_chunked-last c open' n last trailers behind cuts plain size t) client res
        net chunks limit body (ap (λ s. record c { input = s }) input) h enough

  -- Where the connection ends between two chunks, in front of the size line of the next, the answer is
  -- returned without an error, as if the chunks that came were all. The client has no limit, the
  -- connection is open, and the reads that ReadAll is given are more than the bytes that came.
  pub read_response_truncated :
      (client : HttpClient) (res : HttpStreamResponse D) (net : Network W) (chunks : List Chunk)
      → client.max_body_size ≡ pos 0
      → res.body ≡ in_chunks (reader 0)
      → res.client.conn.is_closed ≡ false
      → res.client.conn.at_end ≡ IoError.eof
      → res.client.conn.input ≡ chunks_text chunks []
      → All IsChunk chunks
      → length (chunks_body chunks) < rounds
      → Returns client res net (chunks_body chunks)
  read_response_truncated client res net chunks limit body open' end input h enough =
      let c = res.client.conn in
      response-chunks c open' [] (λ n cuts. read_chunked-cut c open' n cuts end) client res net
        chunks limit body (ap (λ s. record c { input = s }) input) h enough
