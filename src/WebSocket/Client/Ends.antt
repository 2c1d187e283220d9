-- ===== src/WebSocket/Client/Ends.antt =====
-- ReadMessage ends on an input that ends.
use deskaone_sdk.Shared.{ℕ, zero, suc, ◌<◌, ◌≡◌, ◌≢◌, refl, ap, ◌∙◌, arith}
use deskaone_sdk.Shared.{Bool, true, false, List, ◌++◌, Result, ok, err, length}
use deskaone_sdk.Wire.{Conn}
use deskaone_sdk.Tcp
use deskaone_sdk.Tcp.{TcpClient, TcpError}
use deskaone_sdk.Tcp.Writes.{write_full_input}
use deskaone_sdk.WebSocket.Frame.{
  WebsocketFrame, FrameError, read_frame_with_limit, build_client_frame,
}
use deskaone_sdk.WebSocket.Frame.Consumes.{read_frame-takes}
use deskaone_sdk.WebSocket.Client.{WebSocketClient, Outcome, failed, unfinished}
use deskaone_sdk.WebSocket.Client.{Fragments, on_conn, write_deadline, read_deadline, send_built}
use deskaone_sdk.WebSocket.Client.{sent_by, next_key, write_frame_locked, write_frame}
use deskaone_sdk.WebSocket.Client.{pong, answer_ping, answer_close, continue_message}
use deskaone_sdk.WebSocket.Client.{
  handle_frame, handle_result, read_loop, read_message, no_fragments,
}

-- The bytes that the client has still to read.
abbrev to_read : WebSocketClient → List ℕ
to_read c = c.tcp.conn.input

write_deadline_input : (has armed : Bool) (d : Conn) → (write_deadline has armed d).input ≡ d.input
write_deadline_input true armed d = refl
write_deadline_input false armed d = refl

pub read_deadline_input :
    (has armed : Bool) (d : Conn) → (read_deadline has armed d).input ≡ d.input
read_deadline_input true armed d = refl
read_deadline_input false armed d = refl

sent_by_input :
    (c : WebSocketClient) (r : Result TcpError (Unit {0}) × TcpClient)
    → to_read (sent_by c r).1 ≡ r.1.conn.input
sent_by_input c (ok u, t) = refl
sent_by_input c (err e, t) = refl

send_built_input :
    (r : Result FrameError (List ℕ)) (c : WebSocketClient) → to_read (send_built r c).1 ≡ to_read c
send_built_input (err e) c = refl
send_built_input (ok frame) c =
    sent_by_input c (Tcp.write_full frame c.tcp) ∙ write_full_input frame c.tcp

write_frame_input :
    (opcode : ℕ) (payload : List ℕ) (c : WebSocketClient)
    → to_read (write_frame_locked opcode payload c).1 ≡ to_read c
unfolding write_frame_locked
write_frame_input opcode payload c =
    write_deadline_input c.has_timeout false _
    ∙ send_built_input (build_client_frame opcode payload (next_key c.keys)) _
    ∙ write_deadline_input c.has_timeout true c.tcp.conn

answer_ping_input :
    (frame : WebsocketFrame) (c : WebSocketClient) → to_read (answer_ping frame c) ≡ to_read c
unfolding answer_ping pong write_frame
answer_ping_input frame c = ground (arith, write_frame_input 0xA frame.payload c)

abbrev is_unfinished : Outcome → Bool
is_unfinished (failed unfinished) = true
is_unfinished _ = false

module _ (next : Fragments → WebSocketClient → Outcome × WebSocketClient) (frags : Fragments)
    (frame : WebsocketFrame) (c : WebSocketClient)
    (later : (f : Fragments) (d : WebSocketClient)
      → to_read d ≡ to_read c
      → is_unfinished (next f d).0 ≡ false) where
  continue_ends : is_unfinished (continue_message next frags frame c).0 ≡ false
  unfolding continue_message
  continue_ends =
      ground (arith, later (record frags { payload = frags.payload ++ frame.payload }) c refl)

  handle_frame_ends : is_unfinished (handle_frame next frags frame c).0 ≡ false
  unfolding handle_frame answer_close
  handle_frame_ends = ground (
    arith,
    continue_ends,
    later frags (answer_ping frame c) (answer_ping_input frame c),
    later (record { opcode = frame.opcode; payload = frags.payload ++ frame.payload }) c refl,
  )

-- One round: the result of reading a frame, whose rest of the input is short enough for the rounds
-- that follow.
round_ends :
    (fuel : ℕ) (frags : Fragments) (c : WebSocketClient)
    (r : Result FrameError WebsocketFrame × Conn)
    → ((frame : WebsocketFrame) (d : Conn) → r ≡ (ok frame, d) → length d.input < fuel)
    → ((f : Fragments) (d : WebSocketClient)
        → length (to_read d) < fuel
        → is_unfinished (read_loop fuel f d).0 ≡ false)
    → is_unfinished (handle_result (read_loop fuel) frags c r).0 ≡ false
round_ends fuel frags c (err e, d) shorter later = refl
round_ends fuel frags c (ok frame, d) shorter later =
    let c1 = on_conn (λ old. read_deadline c.has_read_timeout false d) c in
    let same = ap (λ (k : List ℕ). length k) (read_deadline_input c.has_read_timeout false d) in
    handle_frame_ends (read_loop fuel) frags frame c1 (λ f d' e.
      later f d' (omega (arith, ap (λ (k : List ℕ). length k) e, same, shorter frame d refl)))

read_loop_ends :
    (fuel : ℕ) (frags : Fragments) (c : WebSocketClient)
    → length (to_read c) < fuel
    → is_unfinished (read_loop fuel frags c).0 ≡ false
unfolding read_loop
read_loop_ends zero frags c h = absurd (omega arith)
read_loop_ends (suc fuel) frags c h =
    let d0 = read_deadline c.has_read_timeout true c.tcp.conn in
    let same =
      ap (λ (k : List ℕ). length k) (read_deadline_input c.has_read_timeout true c.tcp.conn) in
    round_ends fuel frags c (read_frame_with_limit c.max_payload_size d0)
      (λ frame d e. omega (arith, read_frame-takes c.max_payload_size d0 d frame e, same))
      (λ f d small. read_loop_ends fuel f d small)

read_message_finished : (c : WebSocketClient) → is_unfinished (read_message c).0 ≡ false
unfolding read_message
read_message_finished c =
    ground (arith, read_loop_ends (suc (length (to_read c))) no_fragments c (omega arith))

-- Where the peer sends finitely many bytes, of whatever kind, and then nothing more than the error that
-- ends the input, ReadMessage returns: its loop has at most one round more than there are bytes.
pub read_message-ends : (c : WebSocketClient) → (read_message c).0 ≢ failed unfinished
read_message-ends c h =
    let both = ap is_unfinished h in absurd (ground (arith, read_message_finished c))
