-- ===== src/WebSocket/Handshake/Tests.antt =====
-- The handshake of the sample key of RFC 6455, with its digest.
use deskaone_sdk.Shared.{ℕ, ◌≡◌, refl, arith, true, false, List, [], ◌∷◌, ◌++◌, ok, some}
use deskaone_sdk.Shared.{if◌then◌else◌}
use deskaone_sdk.Shared.Int.{pos}
use deskaone_sdk.Shared.Text.{
  codes, text_eq, has_prefix, trim_space, trim_front, trim_back, space_size, to_lower, lower_from,
}
use deskaone_sdk.Shared.Words.{base64, equal_fold, fold_from, fields_from, atoi, parse_digits}
use deskaone_sdk.Wire.{IoError}
use deskaone_sdk.Tcp.{TcpClient, write_full, write_loop, write}
use deskaone_sdk.Wire
use deskaone_sdk.Http.{names, has_header}
use deskaone_sdk.Http.Requests.{Url, write_headers}
use deskaone_sdk.Http.Lines.{parse_http_status_code}
use mathlib.Core.Option.{bind}
use deskaone_sdk.WebSocket.Handshake.{
  WebSocketConfig, compute_web_socket_accept, handshake, handshake_request, port_of,
  write_ws_header_if_missing, default_web_socket_port,
}
use deskaone_sdk.WebSocket.Handshake.Accepted.{verdict, handshake_upgrade}

abbrev nonce : List ℕ
nonce = codes "the sample nonce"

-- crypto/sha1 on the one text that is asked for.
abbrev sha1 : List ℕ → List ℕ
sha1 text =
    if text_eq text (codes "dGhlIHNhbXBsZSBub25jZQ==258EAFA5-E914-47DA-95CA-C5AB0DC85B11")
    then 0xb3 ∷ 0x7a ∷ 0x4f ∷ 0x2c ∷ 0xc0 ∷ 0x62 ∷ 0x4f ∷ 0x16 ∷ 0x90 ∷ 0xf6 ∷ 0x46 ∷ 0x06 ∷ 0xcf
      ∷ 0x38 ∷ 0x59 ∷ 0x45 ∷ 0xb2 ∷ 0xbe ∷ 0xc4 ∷ 0xea ∷ []
    else []

abbrev accept : List ℕ
accept = codes "s3pPLMBiTxaQ9kYGzzhZRbK+xOo="

sample_accept : compute_web_socket_accept sha1 (base64 nonce) ≡ accept
unfolding compute_web_socket_accept base64 text_eq
sample_accept = refl

abbrev url : Url
url = record {
  scheme = codes "ws";
  hostname = codes "h";
  port = codes "";
  host = codes "h";
  request_uri = codes "/chat";
}

abbrev conf : WebSocketConfig
conf = record {
  has_timeout = true;
  headers = (codes "Origin", codes "http://h") ∷ [];
  user_agent = codes "x";
  compress = false;
  protocols = [];
  has_ping_interval = false;
  max_payload_size = pos 0;
  read_timeout = pos 0;
  disable_auto_pong = false;
}

abbrev connection : List ℕ → List ℕ → ℕ → TcpClient
connection input sent room = record {
  conn = record {
    input = input;
    cuts = [];
    at_end = IoError.eof;
    sent = sent;
    room = room;
    read_deadline = false;
    write_deadline = false;
    is_closed = false;
  };
  has_timeout = false;
  is_closed = false;
}

request_of_sample :
    handshake_request (base64 nonce) url conf
    ≡ codes
        "GET /chat HTTP/1.1\r\nHost: h\r\nUpgrade: websocket\r\nConnection: Upgrade\r\nSec-WebSocket-Key: dGhlIHNhbXBsZSBub25jZQ==\r\nSec-WebSocket-Version: 13\r\nUser-Agent: x\r\nOrigin: http://h\r\n\r\n"
unfolding handshake_request write_ws_header_if_missing has_header names base64 write_headers
    trim_space trim_front trim_back space_size equal_fold fold_from text_eq has_prefix
request_of_sample = refl

port_of_sample : port_of url ≡ ok (pos 80)
unfolding port_of default_web_socket_port to_lower lower_from text_eq has_prefix
port_of_sample = refl

abbrev answer : List ℕ
answer =
    codes
      "HTTP/1.1 101 Switching Protocols\r\nUpgrade: websocket\r\nConnection: Upgrade\r\nSec-WebSocket-Accept: s3pPLMBiTxaQ9kYGzzhZRbK+xOo=\r\n\r\n"
    ++ (0x81 ∷ 0x01 ∷ b'a' ∷ [])

abbrev request : List ℕ
request = handshake_request (base64 nonce) url conf

-- The frame behind the answer stays for the reader of frames.
handshake_upgrade_example :
    (let (r, next) = handshake sha1 (some nonce) url conf (connection answer [] 200) in
      (r ≡ verdict sha1 (base64 nonce) accept) × (next.conn.input ≡ 0x81 ∷ 0x01 ∷ b'a' ∷ []))
unfolding handshake_request write_ws_header_if_missing has_header names base64 write_headers
    trim_space trim_front trim_back space_size equal_fold fold_from write_full write_loop write
    Wire.write parse_http_status_code fields_from atoi parse_digits bind text_eq has_prefix
handshake_upgrade_example =
    handshake_upgrade sha1 nonce url conf (connection answer [] 200)
      (write_full request (connection answer [] 200)).1 (codes "HTTP/1.1 101 Switching Protocols")
      accept (0x81 ∷ 0x01 ∷ b'a' ∷ []) refl refl refl (ground arith) refl (ground arith) refl
