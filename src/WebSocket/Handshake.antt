-- ===== src/WebSocket/Handshake.antt =====
-- network/websocket_client.go: the opening handshake, and the constructor from the URL on. The reader
-- that it leaves to the client is the connection with what is still to come.
pub mod Accepted
mod Tests
use Prim.Native.String.{String}
use deskaone_sdk.Shared.{ℕ, zero, suc, ◌+◌, ◌*◌, Bool, true, false, not, ◌&&◌, ◌||◌}
use deskaone_sdk.Shared.{
  Option, none, some, List, [], ◌∷◌, ◌++◌, Result, ok, err, ◌==◌, if◌then◌else◌,
}
use deskaone_sdk.Shared.Int.{ℤ, pos, negsuc, ltb_ℤ}
use deskaone_sdk.Shared.Text.{codes, text_eq, trim_space, to_lower, is_empty_text, index_of}
use deskaone_sdk.Shared.Words.{atoi, base64, equal_fold, join}
use deskaone_sdk.Wire.{Conn, IoError, set_read_deadline}
use deskaone_sdk.Tcp.{TcpClient, TcpError, write_full}
use deskaone_sdk.Tcp
use deskaone_sdk.Http.{Headers, HttpError, get_header, has_header}
use deskaone_sdk.Http
use deskaone_sdk.Http.Lines.{read_http_line, read_http_headers, parse_http_status_code}
use deskaone_sdk.Http.Requests.{Url, default_http_user_agent, write_headers}
use deskaone_sdk.WebSocket.Client.{WebSocketClient}

-- `WebSocketConfig`; times are whether they are positive, but for the read timeout, where zero counts.
pub record WebSocketConfig : Type 0 where
  pub has_timeout : Bool
  pub headers : Headers
  pub user_agent : List ℕ
  pub compress : Bool
  pub protocols : List (List ℕ)
  pub has_ping_interval : Bool
  pub max_payload_size : ℤ
  pub read_timeout : ℤ
  pub disable_auto_pong : Bool

pub data HandshakeError : Type 0 where
  -- From the parser of the URL, the key, dialling, or the text of the answer.
  bad_url unsupported_scheme invalid_port : List ℕ → HandshakeError
  empty_host no_key : HandshakeError
  dial_failed : HttpError → HandshakeError
  tcp_error : TcpError → HandshakeError
  answer_error : HttpError → HandshakeError
  -- The status with the Location of the answer.
  upgrade_failed : ℤ → List ℕ → HandshakeError
  invalid_upgrade invalid_connection : List ℕ → HandshakeError
  invalid_accept : HandshakeError

abbrev pub websocket_guid : List ℕ
websocket_guid = codes "258EAFA5-E914-47DA-95CA-C5AB0DC85B11"

unfoldable pub default_web_socket_port : List ℕ → ℤ
default_web_socket_port scheme = if text_eq (to_lower scheme) (codes "wss") then pos 443 else pos 80

unfoldable pub write_ws_header_if_missing : Headers → List ℕ → List ℕ → List ℕ
write_ws_header_if_missing headers key value =
    if has_header headers key then [] else key ++ (codes ": " ++ (value ++ (b'\r' ∷ b'\n' ∷ [])))

abbrev or_else : List ℕ → List ℕ → List ℕ
or_else [] d = d
or_else (b ∷ s) d = b ∷ s

abbrev protocols_header : Headers → List (List ℕ) → List ℕ
protocols_header headers [] = []
protocols_header headers (p ∷ ps) =
    write_ws_header_if_missing headers (codes "Sec-WebSocket-Protocol") (join (codes ", ") (p ∷ ps))

-- The text that the handshake sends with the key `key`.
unfoldable pub handshake_request : List ℕ → Url → WebSocketConfig → List ℕ
handshake_request key u conf =
    let header = write_ws_header_if_missing conf.headers in
    let crlf : List ℕ = b'\r' ∷ b'\n' ∷ [] in
    codes "GET "
    ++ (or_else u.request_uri (codes "/")
        ++ (codes " HTTP/1.1"
            ++ (crlf
                ++ (header (codes "Host") (or_else u.host u.hostname)
                    ++ (header (codes "Upgrade") (codes "websocket")
                        ++ (header (codes "Connection") (codes "Upgrade")
                            ++ (header (codes "Sec-WebSocket-Key") key
                                ++ (header (codes "Sec-WebSocket-Version") (codes "13")
                                    ++ (header (codes "User-Agent")
                                          (or_else conf.user_agent default_http_user_agent)
                                        ++ ((if conf.compress
                                              then header (codes "Sec-WebSocket-Extensions") (
                                                  codes
                                                    "permessage-deflate; client_max_window_bits")
                                              else [])
                                            ++ (protocols_header conf.headers conf.protocols
                                                ++ (write_headers conf.headers ++ crlf))))))))))))

abbrev contains : List ℕ → List ℕ → Bool
contains s sub = elim (index_of sub s) [ none ↦ false | some i ↦ true ]

unfoldable pub port_of : Url → Result HandshakeError ℤ
port_of u =
    if is_empty_text u.port
    then ok (default_web_socket_port u.scheme)
    else elim (atoi u.port) [ none ↦ err (invalid_port u.port) | some port ↦ ok port ]

-- `sha1` is the digest of crypto/sha1.
module _ (sha1 : List ℕ → List ℕ) where
  unfoldable pub compute_web_socket_accept : List ℕ → List ℕ
  compute_web_socket_accept key = base64 (sha1 (key ++ websocket_guid))

  -- The checks of the headers of an answer with the status 101.
  unfoldable pub check_headers : List ℕ → Headers → Result HandshakeError (Unit {0})
  check_headers key headers =
      let upgrade = get_header headers (codes "Upgrade") in
      let connection = to_lower (get_header headers (codes "Connection")) in
      let accept = trim_space (get_header headers (codes "Sec-WebSocket-Accept")) in
      if not (equal_fold upgrade (codes "websocket"))
      then err (invalid_upgrade upgrade)
      else if not (contains connection (codes "upgrade"))
      then err (invalid_connection connection)
      else if not (text_eq accept (compute_web_socket_accept key))
      then err invalid_accept
      else ok tt

  -- The headers of an answer that refuses, where they can be read: an error gives none.
  abbrev location_of : Result HttpError Headers → List ℕ
  location_of (ok headers) = get_header headers (codes "Location")
  location_of (err e) = []

  abbrev checked :
      List ℕ → Result HttpError Headers × Conn → Result HandshakeError (Unit {0}) × Conn
  checked key (err e, c) = (err (answer_error e), c)
  checked key (ok headers, c) = (check_headers key headers, c)

  abbrev refused : ℤ → Result HttpError Headers × Conn → Result HandshakeError (Unit {0}) × Conn
  refused code (r, c) = (err (upgrade_failed code (location_of r)), c)

  abbrev is_101 : ℤ → Bool
  is_101 (pos n) = n == 101
  is_101 (negsuc n) = false

  abbrev with_code : List ℕ → Conn → Result HttpError ℤ → Result HandshakeError (Unit {0}) × Conn
  with_code key c (err e) = (err (answer_error e), c)
  with_code key c (ok code) =
      if is_101 code then checked key (read_http_headers c) else refused code (read_http_headers c)

  abbrev with_line :
      List ℕ → Result IoError (List ℕ) × Conn → Result HandshakeError (Unit {0}) × Conn
  with_line key (err e, c) = (err (answer_error (Http.io_error e)), c)
  with_line key (ok line, c) = with_code key c (parse_http_status_code line)

  -- The reading of the answer.
  unfoldable pub read_answer : List ℕ → Conn → Result HandshakeError (Unit {0}) × Conn
  read_answer key c = with_line key (read_http_line c)

  -- The deadlines round it.
  abbrev armed_read :
      Bool
      → (Conn → Result HandshakeError (Unit {0}) × Conn)
      → TcpClient
      → Result HandshakeError (Unit {0}) × TcpClient
  armed_read false m t = let (r, c) = m t.conn in (r, record t { conn = c })
  armed_read true m t =
      let (r, c) = m (set_read_deadline true t.conn) in
      (r, record t { conn = set_read_deadline false c })

  abbrev answered :
      List ℕ
      → Bool
      → Result TcpError (Unit {0}) × TcpClient
      → Result HandshakeError (Unit {0}) × TcpClient
  answered key has_timeout (err e, t) = (err (tcp_error e), t)
  answered key has_timeout (ok u, t) = armed_read has_timeout (read_answer key) t

  -- `handshake`, with the sixteen random bytes behind the key, if crypto/rand gives them.
  abbrev handshake_with :
      Option (List ℕ)
      → Url
      → WebSocketConfig
      → TcpClient
      → Result HandshakeError (Unit {0}) × TcpClient
  handshake_with none u conf t = (err no_key, t)
  handshake_with (some bytes) u conf t =
      answered (base64 bytes) conf.has_timeout
        (write_full (handshake_request (base64 bytes) u conf) t)

  unfoldable pub handshake :
      Option (List ℕ)
      → Url
      → WebSocketConfig
      → TcpClient
      → Result HandshakeError (Unit {0}) × TcpClient
  handshake bytes u conf t = handshake_with bytes u conf t

  -- The client behind the handshake. A failure closes the connection, which is returned as well.
  abbrev opened :
      WebSocketConfig
      → List (List ℕ)
      → Result HandshakeError (Unit {0}) × TcpClient
      → Result HandshakeError WebSocketClient × Option TcpClient
  opened conf keys (err e, t) = (err e, some (Tcp.close t))
  opened conf keys (ok u, t) = (
    ok (record {
      tcp = t;
      has_timeout = conf.has_timeout;
      has_read_timeout =
          ltb_ℤ (pos 0) conf.read_timeout
          || (not (ltb_ℤ conf.read_timeout (pos 0)) && conf.has_ping_interval);
      is_closed = false;
      max_payload_size =
          if ltb_ℤ (pos 0) conf.max_payload_size
          then conf.max_payload_size
          else pos (16 * 1024 * 1024);
      disable_auto_pong = conf.disable_auto_pong;
      keys = keys;
    }),
    none,
  )

  abbrev dialled :
      Option (List ℕ)
      → Url
      → WebSocketConfig
      → List (List ℕ)
      → Result HttpError TcpClient
      → Result HandshakeError WebSocketClient × Option TcpClient
  dialled bytes u conf keys (err e) = (err (dial_failed e), none)
  dialled bytes u conf keys (ok t) = opened conf keys (handshake bytes u conf t)

  abbrev with_port :
      Option (List ℕ)
      → Url
      → WebSocketConfig
      → List (List ℕ)
      → (List ℕ → ℤ → Bool → Result HttpError TcpClient)
      → Result HandshakeError ℤ
      → Result HandshakeError WebSocketClient × Option TcpClient
  with_port bytes u conf keys dial (err e) = (err e, none)
  with_port bytes u conf keys dial (ok port) =
      dialled bytes u conf keys (dial u.hostname port (text_eq u.scheme (codes "wss")))

  abbrev with_url :
      Option (List ℕ)
      → WebSocketConfig
      → List (List ℕ)
      → (List ℕ → ℤ → Bool → Result HttpError TcpClient)
      → Result (List ℕ) Url
      → Result HandshakeError WebSocketClient × Option TcpClient
  with_url bytes conf keys dial (err e) = (err (bad_url e), none)
  with_url bytes conf keys dial (ok u) =
      if not (text_eq u.scheme (codes "ws") || text_eq u.scheme (codes "wss"))
      then (err (unsupported_scheme u.scheme), none)
      else if is_empty_text u.hostname
      then (err empty_host, none)
      else with_port bytes u conf keys dial (port_of u)

  -- `NewWebSocketClient` up to StartPing, with url.Parse and dialling; the second part is a connection
  -- that was closed on the way.
  unfoldable pub new_web_socket_client :
      (List ℕ → Result (List ℕ) Url)
      → (List ℕ → ℤ → Bool → Result HttpError TcpClient)
      → Option (List ℕ)
      → List (List ℕ)
      → List ℕ
      → WebSocketConfig
      → Result HandshakeError WebSocketClient × Option TcpClient
  new_web_socket_client parse_url dial bytes keys raw_url conf =
      with_url bytes conf keys dial (parse_url (trim_space raw_url))
