-- ===== src/WebSocket/Listen.antt =====
-- network/websocket_client.go: the loops that run behind a client, Listen and StartPing, and the JSON
-- messages. The goroutine that waits for the end of the context may close the client before any call
-- of ReadMessage; the list of Booleans says before which it does.
pub mod Delivered
mod Tests
use deskaone_sdk.Shared.{
  ℕ, zero, suc, Bool, true, false, Option, none, some, List, [], ◌∷◌, ◌++◌, Result, ok, err, ◌||◌,
}
use deskaone_sdk.Shared.{length, take, ltb, ◌==◌, if◌then◌else◌, not}
use deskaone_sdk.Wire.{IoError}
use deskaone_sdk.WebSocket.Frame.{op_text, op_binary, io_error}
use deskaone_sdk.WebSocket.Client.{
  WebSocketClient, WsError, Outcome, message, closing, failed, unfinished, frame_error,
  read_message, send_text, ping,
}
use deskaone_sdk.WebSocket.Client

-- Which of the three callbacks are set.
pub record Callbacks : Type 0 where
  pub on_message : Bool
  pub on_error : Bool
  pub on_done : Bool

-- The calls of the callbacks, in their order.
pub data Event : Type 0 where
  delivered : ℕ → List ℕ → Event
  reported : WsError → Event
  done : Event

abbrev pub call : Bool → Event → List Event → List Event
call true event events = event ∷ events
call false event events = events

abbrev is_eof : WsError → Bool
is_eof (frame_error (io_error IoError.eof)) = true
is_eof _ = false

-- A round of the loop with what ReadMessage returns; `next` is the next round.
abbrev pub handle_outcome :
    Callbacks
    → (WebSocketClient → List Event × WebSocketClient)
    → Outcome × WebSocketClient
    → List Event × WebSocketClient
handle_outcome on next (message opcode bytes, c) =
    let (events, d) = next c in (call on.on_message (delivered opcode bytes) events, d)
handle_outcome on next (closing bytes code reason, c) = ([], c)
handle_outcome on next (failed e, c) =
    (if is_eof e then [] else call on.on_error (reported e) [], c)

abbrev pub cancel : List Bool → WebSocketClient → WebSocketClient
cancel [] c = c
cancel (true ∷ bs) c = Client.close c
cancel (false ∷ bs) c = c

abbrev pub later : List Bool → List Bool
later [] = []
later (b ∷ bs) = bs

unfoldable pub listen_loop :
    ℕ → Callbacks → List Bool → WebSocketClient → List Event × WebSocketClient
listen_loop zero on cancelled c = (reported unfinished ∷ [], c)
listen_loop (suc fuel) on cancelled c =
    handle_outcome on (listen_loop fuel on (later cancelled)) (read_message (cancel cancelled c))

-- `Listen`, its goroutine run to the end. A message takes bytes of the input, so a round for each byte
-- and one more end the loop.
unfoldable pub listen : Callbacks → List Bool → WebSocketClient → List Event × WebSocketClient
listen on cancelled c =
    let (events, d) = listen_loop (suc (length c.tcp.conn.input)) on cancelled c in
    (events ++ call on.on_done done [], Client.close d)

-- The goroutine of StartPing: a tick of the timer, or the end of the context.
pub data Tick : Type 0 where
  tick context_done : Tick

-- A ping that fails closes the client and ends the loop.
abbrev pinged :
    (WebSocketClient → WebSocketClient)
    → Result WsError (Unit {0}) × WebSocketClient
    → WebSocketClient
pinged next (ok u, c) = next c
pinged next (err e, c) = Client.close c

unfoldable pub ping_loop : List ℕ → List Tick → WebSocketClient → WebSocketClient
ping_loop payload [] c = c
ping_loop payload (context_done ∷ ticks) c = Client.close c
ping_loop payload (tick ∷ ticks) c =
    if c.is_closed then c else pinged (ping_loop payload ticks) (ping payload c)

-- `StartPing`, with whether the interval is positive.
unfoldable pub start_ping : Bool → List ℕ → List Tick → WebSocketClient → WebSocketClient
start_ping positive payload ticks c =
    let cut = if ltb 125 (length payload) then take 125 payload else payload in
    if not positive then c else ping_loop cut ticks c

pub data JsonError (E : Type 0) : Type 0 where
  json_error : E → JsonError E
  ws_error : WsError → JsonError E
  -- ReadMessage returned the message with the error that tells of the close.
  close_error : ℕ → List ℕ → JsonError E
  not_json_compatible : ℕ → JsonError E

-- encoding/json on the values of a type `V`, with errors in `E`.
module _ {V E : Type 0} (marshal : V → Result E (List ℕ)) (unmarshal : List ℕ → Result E V) where
  abbrev json_sent :
      Result WsError (Unit {0}) × WebSocketClient
      → Result (JsonError E) (Unit {0}) × WebSocketClient
  json_sent (ok u, c) = (ok u, c)
  json_sent (err e, c) = (err (ws_error e), c)

  abbrev send_marshalled :
      Result E (List ℕ) → WebSocketClient → Result (JsonError E) (Unit {0}) × WebSocketClient
  send_marshalled (err e) c = (err (json_error e), c)
  send_marshalled (ok text) c = json_sent (send_text text c)

  unfoldable pub send_json : V → WebSocketClient → Result (JsonError E) (Unit {0}) × WebSocketClient
  send_json v c = send_marshalled (marshal v) c

  abbrev value_of : Result E V → Result (JsonError E) V
  value_of (ok v) = ok v
  value_of (err e) = err (json_error e)

  abbrev json_of : Outcome × WebSocketClient → Result (JsonError E) V × WebSocketClient
  json_of (failed e, c) = (err (ws_error e), c)
  json_of (closing bytes code reason, c) = (err (close_error code reason), c)
  json_of (message opcode bytes, c) =
      if (opcode == op_text) || (opcode == op_binary)
      then (value_of (unmarshal bytes), c)
      else (err (not_json_compatible opcode), c)

  unfoldable pub read_json : WebSocketClient → Result (JsonError E) V × WebSocketClient
  read_json c = json_of (read_message c)
