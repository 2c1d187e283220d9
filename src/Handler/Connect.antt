-- ===== src/Handler/Connect.antt =====
-- network/handler/http_handler.go: the CONNECT request, and the reader of the proxy's answer.
pub mod Headers
pub mod Tunnel
mod Tests
use Prim.Native.String.{String}
use mathlib.Core.Option
use deskaone_sdk.Shared.{ℕ, zero, suc, ◌+◌, ◌*◌, Bool, true, false, ◌&&◌, ◌||◌, not, map}
use deskaone_sdk.Shared.{Option, none, some, List, [], ◌∷◌, ◌++◌, length, get_elem?, take, drop}
use deskaone_sdk.Shared.{if◌then◌else◌, Result, ok, err, ltb, ◌==◌}
use deskaone_sdk.Shared.Int.{ℤ, pos, negsuc, ltb_ℤ}
use deskaone_sdk.Shared.Text.{
  trim_space, is_empty_text, codes, to_lower, has_prefix, text_eq, index_of,
}
use deskaone_sdk.Shared.Words.{split, join, fields, atoi, equal_fold, base64}
use deskaone_sdk.Wire.{Conn, IoError, timeout, Exec, after, ◌>>=◌, ◌>>◌, pure, fail, reject_if, io}
use deskaone_sdk.Wire.{modify, read_some, write, set_read_deadline, set_write_deadline}
use deskaone_sdk.Proxy.{ProxyConfig, bad_port, itoa_int, join_host_port, is_blank}
use deskaone_sdk.Handler.{on_connection, require}

pub data ConnectError : Type 0 where
  nil_connection nil_config empty_host invalid_port header_too_large header_timeout : ConnectError
  -- The loop has not ended: never with the fuel that the handler gives.
  unfinished : ConnectError
  -- The status, the value of Proxy-Authenticate, and the answer as it is quoted.
  refused : ℤ → List ℕ → List ℕ → ConnectError
  io_error : IoError → ConnectError

abbrev pub crlf : List ℕ
crlf = b'\r' ∷ b'\n' ∷ []

abbrev pub delimiter : List ℕ
delimiter = b'\r' ∷ b'\n' ∷ b'\r' ∷ b'\n' ∷ []

abbrev pub max_http_header_size : ℕ
max_http_header_size = 32 * 1024

-- A connection with the bytes that were read ahead of it, and its Read: those bytes first.
pub record PreReadConn : Type 0 where
  pub pre : List ℕ
  pub conn : Conn

pub pre_read : ℕ → PreReadConn → Result IoError (List ℕ) × PreReadConn
pre_read n p =
    if is_empty_text p.pre
    then (let (r, d) = read_some n p.conn in (r, record p { conn = d }))
    else (ok (take n p.pre), record p { pre = drop n p.pre })

-- The value of Proxy-Authorization, where the configuration has both parts.
pub authorization : Option (List ℕ) → Option (List ℕ) → List ℕ
authorization (some user) (some word) =
    codes "Proxy-Authorization: Basic " ++ (base64 (user ++ (b':' ∷ word)) ++ crlf)
authorization none word = []
authorization (some user) none = []

pub connect_request : ProxyConfig → List ℕ → List ℕ
connect_request config target =
    codes "CONNECT "
    ++ (target
        ++ (codes " HTTP/1.1"
            ++ (crlf
                ++ (codes "Host: "
                    ++ (target
                        ++ (crlf
                            ++ (codes "User-Agent: DesKaOne/0.0.1"
                                ++ (crlf
                                    ++ (codes "Proxy-Connection: Keep-Alive"
                                        ++ (crlf
                                            ++ (authorization config.username config.password
                                                ++ crlf)))))))))))

-- `if !deadline.IsZero() { conn.SetReadDeadline(deadline) }`.
abbrev pub arm_read : Bool → Exec ConnectError (Unit {0})
arm_read true = modify (set_read_deadline true)
arm_read false = pure tt

abbrev pub read_error : IoError → ConnectError
read_error timeout = header_timeout
read_error IoError.eof = io_error IoError.eof
read_error IoError.unexpected_eof = io_error IoError.unexpected_eof
read_error IoError.reset = io_error IoError.reset
read_error IoError.closed = io_error IoError.closed
read_error IoError.short_write = io_error IoError.short_write

-- What a round of the loop does with the bytes read so far: an error, the header with what follows
-- it, or another round.
abbrev pub header_or :
    Exec ConnectError (List ℕ × List ℕ) → List ℕ → Option ℕ → Exec ConnectError (List ℕ × List ℕ)
header_or rest buf none = rest
header_or rest buf (some i) = pure (take (i + 4) buf, drop (i + 4) buf)

-- The loop of `readHeaders`. A read takes at least one byte, so one more round than the input has
-- bytes always ends it.
pub read_headers : ℕ → Bool → List ℕ → Exec ConnectError (List ℕ × List ℕ)
read_headers zero armed buf = fail unfinished
read_headers (suc fuel) armed buf = do
  arm_read armed
  chunk ← io read_error (read_some 1024)
  reject_if (ltb max_http_header_size (length (buf ++ chunk))) header_too_large
  header_or (read_headers fuel armed (buf ++ chunk)) (buf ++ chunk)
      (index_of delimiter (buf ++ chunk))

-- The second word of the status line.
abbrev pub status_of_words : List (List ℕ) → ℤ
status_of_words [] = negsuc 0
status_of_words (w ∷ []) = negsuc 0
status_of_words (w ∷ v ∷ ws) = elim (atoi v) [ none ↦ negsuc 0 | some n ↦ n ]

pub status_line : List ℕ → List ℕ
status_line headers = elim (index_of crlf headers) [ none ↦ headers | some n ↦ take n headers ]

pub parse_status_code : List ℕ → ℤ
parse_status_code headers = status_of_words (fields (status_line headers))

-- The value of a line whose name is `name`; `i > 0` is the place of its colon.
abbrev pub header_value : List ℕ → List ℕ → List ℕ → Option ℕ → List ℕ
header_value name line rest none = rest
header_value name line rest (some zero) = rest
header_value name line rest (some (suc i)) =
    if equal_fold (trim_space (take (suc i) line)) name
    then trim_space (drop (suc (suc i)) line)
    else rest

-- The loop of `findHeader` over the lines.
pub find_in_lines : List ℕ → List (List ℕ) → List ℕ
find_in_lines name [] = []
find_in_lines name (line ∷ lines) =
    let rest = find_in_lines name lines in header_value name line rest (index_of (b':' ∷ []) line)

pub find_header : List ℕ → List ℕ → List ℕ
find_header headers name = find_in_lines name (split crlf headers)

abbrev pub redact : List ℕ → List ℕ
redact line =
    if has_prefix (codes "proxy-authorization:") (to_lower line)
    then codes "Proxy-Authorization: [redacted]"
    else if has_prefix (codes "authorization:") (to_lower line)
    then codes "Authorization: [redacted]"
    else line

pub sanitize_header_for_error : List ℕ → List ℕ
sanitize_header_for_error headers =
    let msg =
      if ltb 1024 (length headers) then take 1024 headers ++ codes "...[truncated]" else headers in
    trim_space (join crlf (map redact (split crlf msg)))

abbrev pub is_ok_code : ℤ → Bool
is_ok_code (pos n) = n == 200
is_ok_code (negsuc n) = false

-- The part of `HttpHandlerConn` behind the reading of the answer.
pub judge : List ℕ × List ℕ → Conn → Result ConnectError PreReadConn × Conn
judge (headers, leftover) c =
    if is_ok_code (parse_status_code headers)
    then (ok (record { pre = leftover; conn = c }), c)
    else (
      err (
          refused (parse_status_code headers) (find_header headers (codes "Proxy-Authenticate"))
            (sanitize_header_for_error headers)),
      c,
    )

-- `defer`-less clean-up: the deadline is cleared whether or not the call failed.
abbrev pub finally_clear : {A : Type 0} → (Conn → Conn) → Exec ConnectError A → Exec ConnectError A
finally_clear clear m c = let (r, d) = m c in (r, clear d)

-- `if timeout > 0 { conn.SetWriteDeadline(...) }`.
abbrev pub arm_write : Bool → Exec ConnectError (Unit {0})
arm_write true = modify (set_write_deadline true)
arm_write false = pure tt

-- `HttpHandlerConn` on a connection and a configuration; the result holds the bytes that the
-- returned connection gives before those of `conn`. `fuel` is for the loop of `readHeaders`.
pub handshake : ℕ → Bool → ProxyConfig → List ℕ → ℤ → Exec ConnectError PreReadConn
handshake fuel armed config host port = do
  reject_if (is_blank host) empty_host
  reject_if (bad_port port) invalid_port
  arm_write armed
  n ←
      finally_clear (set_write_deadline false)
        (io io_error (write (connect_request config (join_host_port host (itoa_int port)))))
  answer ← finally_clear (set_read_deadline false) (read_headers fuel armed [])
  judge answer

pub http_handler_conn :
    Option Conn
    → Option ProxyConfig
    → List ℕ
    → ℤ
    → Bool
    → Result ConnectError PreReadConn × Option Conn
http_handler_conn conn config host port armed =
    on_connection nil_connection
      (λ c.
        (require nil_config config >>= λ p. handshake (suc (length c.input)) armed p host port) c)
      conn
