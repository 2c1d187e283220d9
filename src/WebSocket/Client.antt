-- ===== src/WebSocket/Client.antt =====
-- network/websocket_client.go: the client behind its handshake, whose `tcp` is never nil. What the
-- buffered reader holds and what the connection has still to give is one input here. `keys` are the
-- masking keys that crypto/rand gives, one a frame.
pub mod Ends
pub mod Messages
pub mod Whole
pub mod Closing
mod Tests
use Prim.Native.String.{String}
use deskaone_sdk.Shared.{
  ℕ, zero, suc, ◌+◌, ◌%◌, ◌^◌, Bool, true, false, not, ◌||◌, Option, none, some,
}
use deskaone_sdk.Shared.{
  List, [], ◌∷◌, ◌++◌, Result, ok, err, length, leb, ltb, ◌==◌, if◌then◌else◌,
}
use deskaone_sdk.Shared.Int.{ℤ, pos, ltb_ℤ}
use deskaone_sdk.Shared.Text.{codes}
use deskaone_sdk.Wire.{Conn, IoError, set_read_deadline, set_write_deadline}
use deskaone_sdk.Tcp
use deskaone_sdk.Tcp.{TcpClient, TcpError}
use deskaone_sdk.WebSocket.Frame.{
  WebsocketFrame, FrameError, build_client_frame, read_frame_with_limit,
}
use deskaone_sdk.WebSocket.Frame.{parse_close_payload, close_payload, op_continuation, op_text}
use deskaone_sdk.WebSocket.Frame.{op_binary, op_close, op_ping, op_pong}

pub data WsError : Type 0 where
  client_closed control_too_large fragments_too_large unexpected_continuation : WsError
  unfinished : WsError
  unsupported_opcode : ℕ → WsError
  tcp_error : TcpError → WsError
  frame_error : FrameError → WsError

pub record WebSocketClient : Type 0 where
  pub tcp : TcpClient
  pub has_timeout : Bool
  pub has_read_timeout : Bool
  pub is_closed : Bool
  pub max_payload_size : ℤ
  pub disable_auto_pong : Bool
  pub keys : List (List ℕ)

abbrev pub next_key : List (List ℕ) → Option (List ℕ)
next_key [] = none
next_key (k ∷ ks) = some k

abbrev pub later_keys : List (List ℕ) → List (List ℕ)
later_keys [] = []
later_keys (k ∷ ks) = ks

-- A change of the connection.
abbrev pub on_conn : (Conn → Conn) → WebSocketClient → WebSocketClient
on_conn f c = record c { tcp = record c.tcp { conn = f c.tcp.conn } }

-- `if c.timeout > 0 { ... }` with its clean-up, and the same for the reads.
abbrev pub write_deadline : Bool → Bool → Conn → Conn
write_deadline true armed d = set_write_deadline armed d
write_deadline false armed d = d

abbrev pub read_deadline : Bool → Bool → Conn → Conn
read_deadline true armed d = set_read_deadline armed d
read_deadline false armed d = d

abbrev pub sent_by :
    WebSocketClient
    → Result TcpError (Unit {0}) × TcpClient
    → Result WsError (Unit {0}) × WebSocketClient
sent_by c (ok u, t) = (ok u, record c { tcp = t })
sent_by c (err e, t) = (err (tcp_error e), record c { tcp = t })

-- The frame that was built is sent.
abbrev pub send_built :
    Result FrameError (List ℕ) → WebSocketClient → Result WsError (Unit {0}) × WebSocketClient
send_built (err e) c = (err (frame_error e), c)
send_built (ok frame) c = sent_by c (Tcp.write_full frame c.tcp)

-- `writeFrameLocked`.
pub write_frame_locked : ℕ → List ℕ → WebSocketClient → Result WsError (Unit {0}) × WebSocketClient
write_frame_locked opcode payload c =
    let armed = on_conn (write_deadline c.has_timeout true) c in
    let (r, d) =
      send_built (build_client_frame opcode payload (next_key c.keys))
        (record armed { keys = later_keys c.keys }) in
    (r, on_conn (write_deadline c.has_timeout false) d)

pub write_frame : ℕ → List ℕ → WebSocketClient → Result WsError (Unit {0}) × WebSocketClient
write_frame opcode payload c =
    if c.is_closed then (err client_closed, c) else write_frame_locked opcode payload c

pub send_text : List ℕ → WebSocketClient → Result WsError (Unit {0}) × WebSocketClient
send_text text c = write_frame op_text text c

pub send_binary : List ℕ → WebSocketClient → Result WsError (Unit {0}) × WebSocketClient
send_binary bytes c = write_frame op_binary bytes c

pub ping : List ℕ → WebSocketClient → Result WsError (Unit {0}) × WebSocketClient
ping bytes c =
    if ltb 125 (length bytes) then (err control_too_large, c) else write_frame op_ping bytes c

pub pong : List ℕ → WebSocketClient → Result WsError (Unit {0}) × WebSocketClient
pong bytes c =
    if ltb 125 (length bytes) then (err control_too_large, c) else write_frame op_pong bytes c

pub write_close_frame : ℕ → List ℕ → WebSocketClient → Result WsError (Unit {0}) × WebSocketClient
write_close_frame code reason c = write_frame_locked op_close (close_payload code reason) c

pub close : WebSocketClient → WebSocketClient
close c =
    if c.is_closed
    then c
    else (let (r, d) =
          write_close_frame 1000 (codes "normal closure") (record c { is_closed = true }) in
        record d { tcp = Tcp.close d.tcp })

-- What ReadMessage returns: a message, a message with the error that tells of the close, or an
-- error.
pub data Outcome : Type 0 where
  message : ℕ → List ℕ → Outcome
  closing : List ℕ → ℕ → List ℕ → Outcome
  failed : WsError → Outcome

-- The message under way: its opcode, 0 where there is none, and its payload so far.
pub record Fragments : Type 0 where
  pub opcode : ℕ
  pub payload : List ℕ

-- `int64(len(fragmentedPayload)) > c.maxPayloadSize`.
abbrev pub too_large : WebSocketClient → List ℕ → Bool
too_large c payload = ltb_ℤ c.max_payload_size (pos (length payload))

-- A fragment that ends no message: the loop goes on with it.
abbrev pub keep :
    (Fragments → WebSocketClient → Outcome × WebSocketClient)
    → Fragments
    → WebSocketClient
    → Outcome × WebSocketClient
keep next frags c =
    if too_large c frags.payload then (failed fragments_too_large, c) else next frags c

pub continue_message :
    (Fragments → WebSocketClient → Outcome × WebSocketClient)
    → Fragments
    → WebsocketFrame
    → WebSocketClient
    → Outcome × WebSocketClient
continue_message next frags frame c =
    let whole = record frags { payload = frags.payload ++ frame.payload } in
    if frags.opcode == 0
    then (failed unexpected_continuation, c)
    else if too_large c whole.payload
    then (failed fragments_too_large, c)
    else if frame.fin
    then (message frags.opcode whole.payload, c)
    else next whole c

pub answer_ping : WebsocketFrame → WebSocketClient → WebSocketClient
answer_ping frame c = if c.disable_auto_pong then c else (pong frame.payload c).1

pub answer_close : WebsocketFrame → WebSocketClient → Outcome × WebSocketClient
answer_close frame c =
    let (code, reason) = parse_close_payload frame.payload in
    let (r, d) = write_close_frame code reason c in
    (closing frame.payload code reason, record d { is_closed = true })

-- The `switch frame.Opcode`; `next` is the next round of the loop.
pub handle_frame :
    (Fragments → WebSocketClient → Outcome × WebSocketClient)
    → Fragments
    → WebsocketFrame
    → WebSocketClient
    → Outcome × WebSocketClient
handle_frame next frags frame c =
    if frame.opcode == op_ping
    then next frags (answer_ping frame c)
    else if frame.opcode == op_pong
    then (message op_pong frame.payload, c)
    else if frame.opcode == op_close
    then answer_close frame c
    else if (frame.opcode == op_text) || (frame.opcode == op_binary)
    then (if frame.fin
        then (message frame.opcode frame.payload, c)
        else keep next (record { opcode = frame.opcode; payload = frags.payload ++ frame.payload })
            c)
    else if frame.opcode == op_continuation
    then continue_message next frags frame c
    else (failed (unsupported_opcode frame.opcode), c)

-- What a round does with the result of reading a frame.
abbrev pub handle_result :
    (Fragments → WebSocketClient → Outcome × WebSocketClient)
    → Fragments
    → WebSocketClient
    → Result FrameError WebsocketFrame × Conn
    → Outcome × WebSocketClient
handle_result next frags c (err e, d) = (
  failed (frame_error e),
  record (on_conn (λ old. read_deadline c.has_read_timeout false d) c) { is_closed = true },
)
handle_result next frags c (ok frame, d) =
    handle_frame next frags frame (on_conn (λ old. read_deadline c.has_read_timeout false d) c)

-- The loop of ReadMessage. A frame has at least two bytes, so a round for each byte of the input and
-- one more end it.
pub read_loop : ℕ → Fragments → WebSocketClient → Outcome × WebSocketClient
read_loop zero frags c = (failed unfinished, c)
read_loop (suc fuel) frags c =
    handle_result (read_loop fuel) frags c
      (read_frame_with_limit c.max_payload_size (read_deadline c.has_read_timeout true c.tcp.conn))

abbrev pub no_fragments : Fragments
no_fragments = record { opcode = 0; payload = [] }

pub read_message : WebSocketClient → Outcome × WebSocketClient
read_message c =
    if c.is_closed
    then (failed client_closed, c)
    else read_loop (suc (length c.tcp.conn.input)) no_fragments c
