-- ===== src/Handler/Connect/Tests.antt =====
-- The handshake with an HTTP proxy on small inputs.
use mathlib.Core.Option
use deskaone_sdk.Shared.{ℕ, ◌≡◌, refl, true, false, some, List, [], ◌∷◌, ◌++◌, Result, ok, arith}
use deskaone_sdk.Shared.{take, length, ◌≤◌, ◌≢◌}
use deskaone_sdk.Shared.Int.{pos}
use deskaone_sdk.Shared.Text.{
  codes, trim_space, trim_front, trim_back, space_size, index_of, has_prefix, text_eq, itoa, digits,
  contains_byte,
}
use deskaone_sdk.Shared.Words.{
  base64, split_from, fields_from, atoi, parse_digits, equal_fold, fold_from,
}
use deskaone_sdk.Wire.{Conn, IoError}
use deskaone_sdk.Proxy.{ProxyConfig, http, join_host_port, itoa_int}
use deskaone_sdk.Handler.Connect.{
  PreReadConn, pre_read, ConnectError, http_handler_conn, connect_request,
}
use deskaone_sdk.Handler.Connect.{
  authorization, crlf, parse_status_code, status_line, find_header, find_in_lines,
}
use deskaone_sdk.Handler.Connect.Tunnel.{Verdict, http_handler_conn-answers, pre_read-front}

abbrev config : ProxyConfig
config = record {
  kind = http;
  host = codes "proxy";
  port = pos 8080;
  username = some (codes "u");
  password = some (codes "pw");
}

credentials : base64 (codes "u:pw") ≡ codes "dTpwdw=="
unfolding base64
credentials = refl

abbrev granted : List ℕ
granted = codes "HTTP/1.1 200 OK" ++ (b'\r' ∷ b'\n' ∷ b'\r' ∷ b'\n' ∷ codes "hi")

abbrev refusal : List ℕ
refusal =
    codes "HTTP/1.1 407 Auth" ++ (crlf ++ (codes "proxy-authenticate:  Basic" ++ (crlf ++ crlf)))

refusal_code : parse_status_code refusal ≡ pos 407
unfolding parse_status_code status_line index_of has_prefix fields_from space_size atoi parse_digits
    Option.bind
refusal_code = refl

refusal_scheme : find_header refusal (codes "Proxy-Authenticate") ≡ codes "Basic"
unfolding find_header find_in_lines split_from index_of has_prefix equal_fold fold_from text_eq
    trim_space trim_front trim_back space_size
refusal_scheme = refl

-- The reads are cut after four bytes, then after one.
abbrev proxied : Conn
proxied = record {
  input = granted;
  cuts = 3 ∷ 0 ∷ [];
  at_end = IoError.eof;
  sent = [];
  room = 1000;
  read_deadline = false;
  write_deadline = false;
  is_closed = false;
}

abbrev host : List ℕ
host = codes "a.io"

named : trim_space host ≢ []
unfolding trim_space trim_front trim_back space_size
named = ground arith

fits : length (connect_request config (join_host_port host (itoa_int (pos 80)))) ≤ 1000
unfolding connect_request authorization join_host_port itoa digits base64 contains_byte
fits = omega arith

http_handler_conn-answers_example :
    (r : Result ConnectError PreReadConn) × (left : List ℕ) × (d : Conn) × (http_handler_conn
        (some proxied)
        (some config)
        host
        (pos 80)
        true
      ≡ (r, some d))
    × Verdict (take 19 granted) left d r
    × (left ++ d.input ≡ codes "hi")
    × (d.sent ≡ connect_request config (join_host_port host (itoa_int (pos 80))))
    × (d.read_deadline ≡ false)
    × (d.write_deadline ≡ false)
unfolding index_of has_prefix
http_handler_conn-answers_example =
    http_handler_conn-answers config host (pos 80) true 15 proxied refl named (omega arith)
      (omega arith) fits refl (omega arith)

abbrev ahead : PreReadConn
ahead = record { pre = 1 ∷ 2 ∷ []; conn = proxied }

abbrev behind : PreReadConn
behind = record { pre = 2 ∷ []; conn = proxied }

read_ahead : pre_read 1 ahead ≡ (ok (1 ∷ []), behind)
unfolding pre_read
read_ahead = refl

pre_read-front_example : (1 ∷ []) ++ ((2 ∷ []) ++ granted) ≡ (1 ∷ 2 ∷ []) ++ granted
pre_read-front_example = pre_read-front 1 ahead behind (1 ∷ []) read_ahead
