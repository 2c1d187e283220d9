-- ===== src/WebSocket/Listen/Delivered.antt =====
-- What Listen makes of the messages of a server.
use deskaone_sdk.Shared.{ℕ, zero, suc, ◌≤◌, ◌<◌, ◌≡◌, ap, ◌∙◌, arith}
use deskaone_sdk.Shared.{true, ◌⊎◌, false, List, [], ◌∷◌, ◌++◌, length, All}
use deskaone_sdk.Shared.{length-append}
use deskaone_sdk.Wire.{IoError}
use deskaone_sdk.WebSocket.Frame.{io_error}
use deskaone_sdk.WebSocket.Frame.Lengths.{Within}
use deskaone_sdk.WebSocket.Frame.Server.{server_frame}
use deskaone_sdk.WebSocket.Client.{
  WebSocketClient, Outcome, closing, failed, frame_error, read_message,
}
use deskaone_sdk.WebSocket.Client.Closing.{close_closed}
use deskaone_sdk.WebSocket.Client.Messages.{
  Fits, joined, behind, behind_input, behind_closed, behind_at_end,
}
use deskaone_sdk.WebSocket.Client.Whole.{
  frames_with, read_message-frames_with, read_message-closing, read_message-end,
}
use deskaone_sdk.WebSocket.Listen.{
  Callbacks, Event, delivered, done, listen, listen_loop, handle_outcome,
}

-- A text or binary message as a server sends it: the payloads of its frames, the last one apart.
pub record Sent : Type 0 where
  pub opcode : ℕ
  pub pieces : List (List ℕ)
  pub last : List ℕ

abbrev pub bytes : Sent → List ℕ
bytes m = joined m.pieces m.last

abbrev pub IsSent : WebSocketClient → Sent → Type 0
IsSent c m = ((m.opcode ≡ 1) ⊎ (m.opcode ≡ 2)) × Fits c (bytes m)

-- How the server ends: it cuts the connection, or sends a close frame (and anything behind it).
pub data Ending : Type 0 where
  cut : Ending
  close_frame : List ℕ → List ℕ → Ending

abbrev pub ending_frames : Ending → List ℕ
ending_frames cut = []
ending_frames (close_frame payload rest) = server_frame true 8 payload ++ rest

abbrev pub IsEnding : WebSocketClient → Ending → Type 0
IsEnding c cut = c.tcp.conn.at_end ≡ IoError.eof
IsEnding c (close_frame payload rest) = Within c.max_payload_size (length payload)

abbrev pub frames : List Sent → Ending → List ℕ
frames [] ending = ending_frames ending
frames (m ∷ ms) ending = frames_with m.opcode m.pieces m.last ++ frames ms ending

abbrev pub deliveries : List Sent → List Event
deliveries [] = []
deliveries (m ∷ ms) = delivered m.opcode (bytes m) ∷ deliveries ms

abbrev pub all_set : Callbacks
all_set = record { on_message = true; on_error = true; on_done = true }

module _ (next : WebSocketClient → List Event × WebSocketClient) where
  handle_outcome_cut :
      (r : Outcome × WebSocketClient)
      → r.0 ≡ failed (frame_error (io_error IoError.eof))
      → (handle_outcome all_set next r).0 ≡ []
  handle_outcome_cut (o, c) h = ap (λ p. (handle_outcome all_set next (p, c)).0) h

  handle_outcome_close :
      (payload reason : List ℕ) (code : ℕ) (r : Outcome × WebSocketClient)
      → r.0 ≡ closing payload code reason
      → (handle_outcome all_set next r).0 ≡ []
  handle_outcome_close payload reason code (o, c) h =
      ap (λ p. (handle_outcome all_set next (p, c)).0) h

IsEnding-behind :
    (ending : Ending) (rest : List ℕ) (c : WebSocketClient)
    → IsEnding c ending
    → IsEnding (behind rest c) ending
IsEnding-behind cut rest c h = behind_at_end rest c ∙ h
IsEnding-behind (close_frame payload tail) rest c h = h

listen_loop_ending :
    (ending : Ending) (fuel : ℕ) (c : WebSocketClient)
    → IsEnding c ending
    → c.is_closed ≡ false
    → c.tcp.conn.is_closed ≡ false
    → c.tcp.conn.input ≡ ending_frames ending
    → (listen_loop (suc fuel) all_set [] c).0 ≡ []
unfolding listen_loop
listen_loop_ending cut fuel c h up open' e =
    handle_outcome_cut _ (read_message c)
      (read_message-end c up open' e ∙ ap (λ a. failed (frame_error (io_error a))) h)
listen_loop_ending (close_frame payload rest) fuel c h up open' e =
    handle_outcome_close _ payload _ _ (read_message c)
      (read_message-closing payload rest c h up open' e)

All-IsSent-behind :
    (ms : List Sent) (rest : List ℕ) (c : WebSocketClient)
    → All (IsSent c) ms
    → All (IsSent (behind rest c)) ms
All-IsSent-behind [] rest c h = tt
All-IsSent-behind (m ∷ ms) rest c h = (h.0, All-IsSent-behind ms rest c h.1)

listen_loop-deliveries :
    (ms : List Sent) (ending : Ending) (fuel : ℕ) (c : WebSocketClient)
    → All (IsSent c) ms
    → IsEnding c ending
    → c.is_closed ≡ false
    → c.tcp.conn.is_closed ≡ false
    → c.tcp.conn.input ≡ frames ms ending
    → length ms ≤ fuel
    → (listen_loop (suc fuel) all_set [] c).0 ≡ deliveries ms
unfolding listen_loop
listen_loop-deliveries [] ending fuel c sent h up open' e enough =
    listen_loop_ending ending fuel c h up open' e
listen_loop-deliveries (m ∷ ms) ending zero c sent h up open' e enough = ground (arith, enough)
listen_loop-deliveries (m ∷ ms) ending (suc fuel) c sent h up open' e enough =
    let rest = frames ms ending in
    ap (λ r. (handle_outcome all_set (listen_loop (suc fuel) all_set []) r).0)
      (read_message-frames_with m.opcode m.pieces m.last rest c (sent.0.0) (sent.0.1) up open' e)
    ∙ ap (λ es. delivered m.opcode (bytes m) ∷ es)
        (listen_loop-deliveries ms ending fuel (behind rest c) (All-IsSent-behind ms rest c sent.1)
          (IsEnding-behind ending rest c h) up (behind_closed rest c open') (behind_input rest c)
          (omega (arith, enough)))

length-frames_with :
    (opcode : ℕ) (ps : List (List ℕ)) (last : List ℕ) → 0 < length (frames_with opcode ps last)
length-frames_with opcode [] last = omega arith
length-frames_with opcode (p ∷ ps) last = omega arith

length-frames : (ms : List Sent) (ending : Ending) → length ms ≤ length (frames ms ending)
length-frames [] ending = omega arith
length-frames (m ∷ ms) ending = omega (
  arith,
  length-append (frames_with m.opcode m.pieces m.last) (frames ms ending),
  length-frames_with m.opcode m.pieces m.last,
  length-frames ms ending,
)

-- Listen with all callbacks set and a context that does not end, on an open client with an open
-- connection whose server sends text and binary messages, each in as many frames as it likes and
-- within the client's limit and an int64, and then cuts the connection or sends a close frame: the
-- calls are one of onMessage for each message, whole and in order, then onDone, and none of onError;
-- and the client is closed.
pub listen-deliveries :
    (ms : List Sent) (ending : Ending) (c : WebSocketClient)
    → All (IsSent c) ms
    → IsEnding c ending
    → c.is_closed ≡ false
    → c.tcp.conn.is_closed ≡ false
    → c.tcp.conn.input ≡ frames ms ending
    → ((listen all_set [] c).0 ≡ deliveries ms ++ (done ∷ []))
      × ((listen all_set [] c).1.is_closed ≡ true)
unfolding listen
listen-deliveries ms ending c sent h up open' e = (
  ap (λ es. es ++ (done ∷ []))
      (listen_loop-deliveries ms ending (length c.tcp.conn.input) c sent h up open' e
        (omega (arith, ap length e, length-frames ms ending))),
  close_closed _,
)
