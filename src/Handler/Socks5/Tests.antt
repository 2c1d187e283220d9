-- ===== src/Handler/Socks5/Tests.antt =====
-- The handshake on small inputs.
use deskaone_sdk.Shared.{ℕ, ◌≡◌, refl, false, some, List, [], ◌∷◌, ok, err, arith}
use deskaone_sdk.Shared.Int.{pos}
use deskaone_sdk.Shared.Text.{codes, trim_space, trim_front, trim_back, space_size}
use deskaone_sdk.Wire.{Conn, IoError, write, read_full}
use deskaone_sdk.Wire.Laws.{advance}
use deskaone_sdk.Proxy.{ProxyConfig, socks5}
use deskaone_sdk.Handler.{on_connection}
use deskaone_sdk.Handler.Socks5.{socks5_handler_conn, handshake, credentials, auth_request}
use deskaone_sdk.Handler.Socks5.{both, methods, negotiate, authenticate_if}
use deskaone_sdk.Handler.Socks5.{connect_failed, read_reply, reply_error}
use deskaone_sdk.Handler.Socks5.Requests.{domain}
use deskaone_sdk.Handler.Socks5.Connect.{by_password, transcript, socks5_handler_conn-granted}

abbrev config : ProxyConfig
config = record {
  kind = socks5;
  host = codes "proxy";
  port = pos 1080;
  username = some (codes "u");
  password = some (codes "pw");
}

abbrev proxied : List ℕ → Conn
proxied input = record {
  input = input;
  cuts = [];
  at_end = IoError.eof;
  sent = [];
  room = 100;
  read_deadline = false;
  write_deadline = false;
  is_closed = false;
}

abbrev host : List ℕ
host = codes " a.io "

trimmed : trim_space host ≡ codes "a.io"
unfolding trim_space trim_front trim_back space_size
trimmed = refl

abbrev granted : List ℕ
granted = 5 ∷ 2 ∷ 1 ∷ 0 ∷ 5 ∷ 0 ∷ 0 ∷ 3 ∷ 1 ∷ 65 ∷ 0 ∷ 80 ∷ 7 ∷ 7 ∷ []

-- A proxy that reports a refused connection.
refused :
    (socks5_handler_conn
      (some (proxied (5 ∷ 0 ∷ 5 ∷ 5 ∷ 0 ∷ 1 ∷ [])))
      (some config)
      host
      (pos 80)).0
    ≡ err (connect_failed (codes "connection refused"))
unfolding socks5_handler_conn on_connection handshake both methods negotiate authenticate_if
    read_reply reply_error write read_full trim_space trim_front trim_back space_size
refused = refl

socks5_handler_conn-granted_example :
    socks5_handler_conn (some (proxied granted)) (some config) host (pos 80) ≡ (
      ok tt,
      some (
          advance
            (transcript
              (credentials config)
              (auth_request (codes "u") (codes "pw"))
              (trim_space host)
              (pos 80))
            (7 ∷ 7 ∷ [])
            (proxied granted)),
    )
unfolding both trim_space trim_front trim_back space_size
socks5_handler_conn-granted_example =
    socks5_handler_conn-granted config host (pos 80) 2 3 (auth_request (codes "u") (codes "pw"))
      (1 ∷ 0 ∷ []) (1 ∷ 65 ∷ 0 ∷ 80 ∷ []) (7 ∷ 7 ∷ []) (proxied granted) refl (ground arith)
      (omega arith) (omega arith) (omega arith) (omega arith)
      (by_password (codes "u") (codes "pw") _ refl refl) (domain 1 (65 ∷ 0 ∷ 80 ∷ []) refl)
      (omega arith) refl
