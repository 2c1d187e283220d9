-- ===== src/Handler/Socks4/Tests.antt =====
-- The requests and the handshake on small inputs.
use deskaone_sdk.Shared.{ℕ, ◌≡◌, refl, false, Option, none, some, List, [], ◌∷◌, ok, err, arith}
use deskaone_sdk.Shared.Int.{pos}
use deskaone_sdk.Shared.Text.{codes, trim_space, trim_front, trim_back, space_size, contains_byte}
use deskaone_sdk.Wire.{Conn, IoError, write, read_full}
use deskaone_sdk.Wire.Laws.{advance}
use deskaone_sdk.Proxy.{ProxyConfig, socks4}
use deskaone_sdk.Handler.{on_connection}
use deskaone_sdk.Handler.Socks4.{socks4_handler_conn, handshake, connect_request, destination}
use deskaone_sdk.Handler.Socks4.{connect_failed, read_reply, reply_error}
use deskaone_sdk.Handler.Socks4.Connect.{
  parse_request, parse_request-connect_request, socks4_handler_conn-granted,
}

abbrev config : ProxyConfig
config = record {
  kind = socks4;
  host = codes "proxy";
  port = pos 1080;
  username = some (codes "u");
  password = none;
}

abbrev proxied : List ℕ → Conn
proxied input = record {
  input = input;
  cuts = [];
  at_end = IoError.eof;
  sent = [];
  room = 100;
  read_deadline = false;
  write_deadline = false;
  is_closed = false;
}

-- No host is an address here.
abbrev no_address : List ℕ → Option (List ℕ)
no_address s = none

abbrev granted : List ℕ
granted = 0 ∷ 0x5A ∷ 1 ∷ 2 ∷ 3 ∷ 4 ∷ 5 ∷ 6 ∷ 9 ∷ []

rejected :
    (socks4_handler_conn no_address
      (some (proxied (0 ∷ 0x5B ∷ 0 ∷ 0 ∷ 0 ∷ 0 ∷ 0 ∷ 0 ∷ [])))
      (some config)
      (codes "a.io")
      (pos 80)).0
    ≡ err (connect_failed (codes "request rejected or failed"))
unfolding socks4_handler_conn on_connection handshake read_reply reply_error write read_full
    trim_space trim_front trim_back space_size contains_byte connect_request destination
rejected = refl

parse_request-connect_request_example :
    parse_request
      (connect_request (some (10 ∷ 0 ∷ 0 ∷ 1 ∷ [])) (codes "u") (codes "10.0.0.1") (pos 80))
    ≡ some (record { port = 80; address = 10 ∷ 0 ∷ 0 ∷ 1 ∷ []; user = codes "u"; name = none })
unfolding contains_byte
parse_request-connect_request_example =
    parse_request-connect_request (some (10 ∷ 0 ∷ 0 ∷ 1 ∷ [])) (codes "u") (codes "10.0.0.1") 80
      refl refl (omega arith) (omega arith, refl)

socks4_handler_conn-granted_example :
    socks4_handler_conn no_address (some (proxied granted)) (some config) (codes "a.io") (pos 80)
    ≡ (
      ok tt,
      some (
          advance
            (connect_request none (codes "u") (trim_space (codes "a.io")) (pos 80))
            (9 ∷ [])
            (proxied granted)),
    )
unfolding contains_byte trim_space trim_front trim_back space_size connect_request destination
socks4_handler_conn-granted_example =
    socks4_handler_conn-granted no_address config (codes "a.io") (pos 80)
      (1 ∷ 2 ∷ 3 ∷ 4 ∷ 5 ∷ 6 ∷ []) (9 ∷ []) (proxied granted) refl (ground arith) (omega arith)
      (omega arith) refl refl (omega arith) refl refl
