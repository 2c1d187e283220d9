-- ===== src/Http/Exchange/Alive.antt =====
-- A client whose request was written stays open for its answer.
use deskaone_sdk.Shared.{ℕ, ◌≡◌, ◌≢◌, ◌⊎◌, refl, ◌∙◌, arith, Bool, true, false, inl, inr}
use deskaone_sdk.Shared.{List, [], Result, ok, err, Result-cases}
use deskaone_sdk.Wire.{Conn, set_read_deadline}
use deskaone_sdk.Http.Lines.{read_http_line, parse_http_status_code, read_http_headers}
use deskaone_sdk.Tcp.{TcpClient, TcpError, write_full}
use deskaone_sdk.Tcp.Writes.{Alive, Alive-write_full}
use deskaone_sdk.Http.{Headers, HttpError}
use deskaone_sdk.Http.Body.{RawBody, build_http_body_reader}
use deskaone_sdk.Http.Exchange.{
  HttpClient, Outside, Act, ◌>>◌, after, arm, unpacked, wrap_decompress_reader, opened_gzip,
  translated, line_error, lines_of, answer_head, exchange, Answer,
}

-- A call that leaves the flag of the client as it is.
abbrev Keeps : {A : Type 0} → Act TcpClient A → Type 0
Keeps m = (c : TcpClient) → (m c).1.is_closed ≡ c.is_closed

module _ {W D : Type 0} (o : Outside W D) where
  Keeps-opened_gzip :
      (raw : RawBody) (c : TcpClient) (r : Result HttpError D × (RawBody × Conn))
      → (opened_gzip o raw c r).1.is_closed ≡ c.is_closed
  Keeps-opened_gzip raw c (err e, (b, d)) = refl
  Keeps-opened_gzip raw c (ok z, (b, d)) = refl

  Keeps-unpacked :
      (unpack : Bool) (headers : Headers) (raw : RawBody) → Keeps (unpacked o unpack headers raw)
  unfolding wrap_decompress_reader
  Keeps-unpacked false headers raw c = refl
  Keeps-unpacked true headers raw c =
      ground (arith, Keeps-opened_gzip raw c (o.open_gzip (raw, c.conn)))

  -- The head of the answer from its status line on.
  Keeps-lines : (c : HttpClient) → Keeps (lines_of o c)
  unfolding lines_of
  Keeps-lines c t = elim (Result-cases (line_error (read_http_line t.conn)).0) [
    | inr (e, q) ↦ rw q refl
    | inl (line, q) ↦ rw q (elim (Result-cases (parse_http_status_code line)) [
      | inr (e, q') ↦ rw q' refl
      | inl (code, q') ↦
          (let d = (line_error (read_http_line t.conn)).1 in
            rw q' (elim (Result-cases (read_http_headers d).0) [
              | inr (e, h) ↦ rw h refl
              | inl (headers, h) ↦ rw h (elim (Result-cases (build_http_body_reader headers)) [
                | inr (e, b) ↦ rw b refl
                | inl (raw, b) ↦
                    (let last : TcpClient = record t { conn = (read_http_headers d).1 } in
                      let kept = Keeps-unpacked c.auto_decompress headers raw last in
                      rw b (elim (Result-cases (unpacked o c.auto_decompress headers raw last).0) [
                        | inr (e, u) ↦ rw (u, after) kept
                        | inl (body, u) ↦ rw (u, after) kept
                      ]))
              ])
            ]))
    ])
  ]

  Keeps-armed : (armed : Bool) (c : HttpClient) → Keeps (arm armed >> lines_of o c)
  Keeps-armed true c t = Keeps-lines c (record t { conn = set_read_deadline true t.conn })
  Keeps-armed false c t = Keeps-lines c t

  Keeps-answer_head : (c : HttpClient) → Keeps (answer_head o c)
  unfolding answer_head
  Keeps-answer_head c = Keeps-armed c.has_timeout c

  -- How an exchange leaves the client: open, or as a write of the request that failed has left it.
  abbrev pub Left : List ℕ → TcpClient → TcpClient → Type 0
  Left request c t = (t.is_closed ≡ false) ⊎ ((e : TcpError) × (write_full request c ≡ (err e, t)))

  abbrev pub Exchanged : List ℕ → TcpClient → Result HttpError (Answer D) × TcpClient → Type 0
  Exchanged request c (ok a, t) = t.is_closed ≡ false
  Exchanged request c (err e, t) = Left request c t

  either :
      (request : List ℕ) (c t : TcpClient) (r : Result HttpError (Answer D))
      → t.is_closed ≡ false
      → Exchanged request c (r, t)
  either request c t (ok a) h = h
  either request c t (err e) h = inl h

  behind_write :
      (c : HttpClient) (request : List ℕ) (client : TcpClient)
      (p : Result TcpError (Unit {0}) × TcpClient)
      → write_full request client ≡ p
      → Alive p
      → Exchanged request client (after (translated p) (λ u. answer_head o c))
  behind_write c request client (err x, t) e h = inr (x, e)
  behind_write c request client (ok u, t) e h =
      either request client (answer_head o c t).1 (answer_head o c t).0 (Keeps-answer_head c t ∙ h)

  -- Behind an answer the client is open, and behind an error as well, unless the request could not be
  -- written.
  pub exchange-Exchanged :
      (c : HttpClient) (request : List ℕ) (client : TcpClient)
      → request ≢ []
      → Exchanged request client (exchange o c request client)
  unfolding exchange
  exchange-Exchanged c request client some' =
      behind_write c request client (write_full request client) refl
        (Alive-write_full request client some')
