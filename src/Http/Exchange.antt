-- ===== src/Http/Exchange.antt =====
-- network/http_client.go: one request and its answer on a connection, from `doStreamOnce`.
pub mod Alive
use deskaone_sdk.Shared.{ℕ, Bool, true, false}
use deskaone_sdk.Shared.{List}
use deskaone_sdk.Shared.{Option, none, some, Result, ok, err, if◌then◌else◌}
use deskaone_sdk.Shared.Int.{ℤ}
use deskaone_sdk.Shared.Text.{codes, text_eq, trim_space, to_lower}
use deskaone_sdk.Wire.{Conn, IoError, Exec, set_read_deadline}
use deskaone_sdk.Tcp.{TcpClient, TcpError, write_full}
use deskaone_sdk.Tcp
use deskaone_sdk.Http.{
  Headers, HttpError, client_closed, short_write, unfinished, io_error, get_header,
}
use deskaone_sdk.Http.Lines.{read_http_line, parse_http_status_code, read_http_headers}
use deskaone_sdk.Http.Body.{Outcome, RawBody, build_http_body_reader}
use deskaone_sdk.Http.Requests.{Url}

pub record HttpClient : Type 0 where
  pub has_timeout : Bool
  pub has_picker : Bool
  pub user_agent : List ℕ
  pub max_redirects : ℤ
  pub max_retries : ℤ
  pub has_retry_delay : Bool
  pub auto_decompress : Bool
  pub max_body_size : ℤ
  pub has_debug : Bool

pub record HttpDebugInfo : Type 0 where
  pub method : List ℕ
  pub url : List ℕ
  pub proxy_used : Bool
  pub status_code : ℤ
  pub error : Option HttpError
  pub attempt : ℕ

-- What the client uses of other packages. `W` is the state of the network and the clock, and `D` that
-- of a decompressor: net/url, dialling, the wait between two attempts (with the error of a context that
-- is cancelled), and compress/gzip and compress/flate on a reader.
pub record Outside (W D : Type 0) : Type 0 where
  pub parse_url : List ℕ → Result (List ℕ) Url
  pub resolve_reference : Url → Url → List ℕ
  pub quote : List ℕ → List ℕ
  pub dial : List ℕ → ℤ → Bool → W → Result HttpError TcpClient × W
  pub wait : W → Option HttpError × W
  pub open_gzip : RawBody × Conn → Result HttpError D × (RawBody × Conn)
  pub open_deflate : D
  pub decode : ℕ → D → RawBody × Conn → Outcome × D × (RawBody × Conn)

abbrev of_tcp : TcpError → HttpError
of_tcp Tcp.client_closed = client_closed
of_tcp Tcp.short_write = short_write
of_tcp Tcp.unfinished = unfinished
of_tcp (Tcp.io_error e) = io_error e

-- Calls in a chain, on any state.
abbrev pub Act : Type 0 → Type 0 → Type 0
Act S A = S → Result HttpError A × S

abbrev after : {S A B : Type 0} → Result HttpError A × S → (A → Act S B) → Result HttpError B × S
after (ok a, s) f = f a s
after (err e, s) f = (err e, s)

infixl 5 ◌>>=◌ ◌>>◌
abbrev pub ◌>>=◌ : {S A B : Type 0} → Act S A → (A → Act S B) → Act S B
◌>>=◌ m f s = after (m s) f

abbrev pub ◌>>◌ : {S B : Type 0} → Act S (Unit {0}) → Act S B → Act S B
m >> k = m >>= λ _. k

abbrev pub give : {S A : Type 0} → Result HttpError A → Act S A
give r s = (r, s)

abbrev pub translated :
    {A : Type 0} → Result TcpError A × TcpClient → Result HttpError A × TcpClient
translated (ok a, c) = (ok a, c)
translated (err e, c) = (err (of_tcp e), c)

abbrev pub on_tcp : {A : Type 0} → (TcpClient → Result TcpError A × TcpClient) → Act TcpClient A
on_tcp f c = translated (f c)

-- A call of the reader on the client's connection.
abbrev pub on_conn : {A : Type 0} → Exec HttpError A → Act TcpClient A
on_conn m c = let (r, d) = m c.conn in (r, record c { conn = d })

abbrev pub line_error : Result IoError (List ℕ) × Conn → Result HttpError (List ℕ) × Conn
line_error (ok line, c) = (ok line, c)
line_error (err e, c) = (err (io_error e), c)

-- The body of an answer: its reader, and the decompressor on it, if there is one.
pub record Body (D : Type 0) : Type 0 where
  pub raw : RawBody
  pub decoder : Option D

pub record HttpStreamResponse (D : Type 0) : Type 0 where
  pub status_code : ℤ
  pub status : List ℕ
  pub headers : Headers
  pub body : Body D
  pub client : TcpClient

pub record Answer (D : Type 0) : Type 0 where
  pub status_code : ℤ
  pub status : List ℕ
  pub headers : Headers
  pub body : Body D

-- `if c.Timeout > 0 { client.conn.SetReadDeadline(...) }`.
abbrev pub arm : Bool → Act TcpClient (Unit {0})
arm armed c = (ok tt, if armed then record c { conn = set_read_deadline true c.conn } else c)

module _ {W D : Type 0} (o : Outside W D) where
  abbrev pub opened_gzip :
      RawBody
      → TcpClient
      → Result HttpError D × (RawBody × Conn)
      → Result HttpError (Body D) × TcpClient
  opened_gzip raw c (err e, (r, d)) = (err e, record c { conn = d })
  opened_gzip raw c (ok z, (r, d)) =
      (ok (record { raw = r; decoder = some z }), record c { conn = d })

  unfoldable pub wrap_decompress_reader : Headers → RawBody → Act TcpClient (Body D)
  wrap_decompress_reader headers raw c =
      let encoding = to_lower (trim_space (get_header headers (codes "Content-Encoding"))) in
      if text_eq encoding (codes "gzip")
      then opened_gzip raw c (o.open_gzip (raw, c.conn))
      else if text_eq encoding (codes "deflate")
      then (ok (record { raw = raw; decoder = some o.open_deflate }), c)
      else (ok (record { raw = raw; decoder = none }), c)

  abbrev pub unpacked : Bool → Headers → RawBody → Act TcpClient (Body D)
  unpacked true headers raw = wrap_decompress_reader headers raw
  unpacked false headers raw = give (ok (record { raw = raw; decoder = none }))

  -- The part of `doStreamOnce` behind the request: the head of the answer, with its deadline in front.
  unfoldable pub lines_of : HttpClient → Act TcpClient (Answer D)
  lines_of c = do
    line ← on_conn (λ d. line_error (read_http_line d))
    code ← give (parse_http_status_code line)
    headers ← on_conn read_http_headers
    raw ← give (build_http_body_reader headers)
    body ← unpacked c.auto_decompress headers raw
    give (ok (record { status_code = code; status = line; headers = headers; body = body }))

  unfoldable pub answer_head : HttpClient → Act TcpClient (Answer D)
  answer_head c = arm c.has_timeout >> lines_of c

  -- The part between dialling and the result: the request, and the head of the answer.
  unfoldable pub exchange : HttpClient → List ℕ → Act TcpClient (Answer D)
  exchange c request = on_tcp (write_full request) >> answer_head c
