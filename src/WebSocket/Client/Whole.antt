-- ===== src/WebSocket/Client/Whole.antt =====
-- What ReadMessage returns on a whole message, on a close frame, and at the end of the input.
use deskaone_sdk.Shared.{ℕ, ◌<◌, ◌≡◌, refl, ap, ◌∙◌, arith}
use deskaone_sdk.Shared.{true, false, ◌⊎◌, inr, List, [], ◌∷◌, ◌++◌, length, append_assoc}
use deskaone_sdk.Shared.{Result, err, ok, take, drop, leb, if◌then◌else◌}
use deskaone_sdk.Shared.Int.{ℤ}
use deskaone_sdk.Wire.{Conn, IoError, closed, read_full, short_read}
use deskaone_sdk.WebSocket.Frame.{io_error, read_frame_with_limit, parse_close_payload}
use deskaone_sdk.WebSocket.Frame.Lengths.{Within}
use deskaone_sdk.WebSocket.Frame.Server.{server_frame, unmasked}
use deskaone_sdk.WebSocket.Client.{
  WebSocketClient, Outcome, message, closing, failed, frame_error, Fragments, read_deadline,
  handle_frame, handle_result, answer_close, read_loop, read_message, no_fragments,
}
use deskaone_sdk.WebSocket.Client.Ends.{read_deadline_input}
use deskaone_sdk.WebSocket.Client.Messages.{
  Fits, joined, continuations, behind, round, open_client, read_message-fragments,
  read_deadline_closed, read_deadline_at_end,
}

-- The frames of a message: the payloads of all but the last frame, and of the last one.
abbrev pub frames_with : ℕ → List (List ℕ) → List ℕ → List ℕ
frames_with opcode [] last = server_frame true opcode last
frames_with opcode (p ∷ ps) last = server_frame false opcode p ++ continuations ps last

module _ (next : Fragments → WebSocketClient → Outcome × WebSocketClient) (payload : List ℕ)
    (c : WebSocketClient) where
  handle_single :
      (opcode : ℕ)
      → (opcode ≡ 1) ⊎ (opcode ≡ 2)
      → handle_frame next no_fragments (unmasked true opcode payload) c
        ≡ (message opcode payload, c)
  unfolding handle_frame
  handle_single opcode kind = ground arith

  handle_close :
      (handle_frame next no_fragments (unmasked true 8 payload) c).0
      ≡ closing payload (parse_close_payload payload).0 (parse_close_payload payload).1
  unfolding handle_frame answer_close
  handle_close = refl

pub read_message-frames_with :
    (opcode : ℕ) (pieces : List (List ℕ)) (last rest : List ℕ) (c : WebSocketClient)
    → (opcode ≡ 1) ⊎ (opcode ≡ 2)
    → Fits c (joined pieces last)
    → c.is_closed ≡ false
    → c.tcp.conn.is_closed ≡ false
    → c.tcp.conn.input ≡ frames_with opcode pieces last ++ rest
    → read_message c ≡ (message opcode (joined pieces last), behind rest c)
read_message-frames_with opcode [] last rest c kind fits up open' e =
    let fuel = length c.tcp.conn.input in
    let small : opcode < 16 = ground arith in
    open_client c up
    ∙ round fuel no_fragments c true opcode last rest small (omega arith, inr (omega arith)) open' e
    ∙ handle_single (read_loop fuel) last (behind rest c) opcode kind
read_message-frames_with opcode (p ∷ ps) last rest c kind fits up open' e =
    read_message-fragments opcode p last rest ps c kind fits up open'
      (e ∙ append_assoc (server_frame false opcode p) (continuations ps last) rest)

pub read_message-closing :
    (payload rest : List ℕ) (c : WebSocketClient)
    → Within c.max_payload_size (length payload)
    → c.is_closed ≡ false
    → c.tcp.conn.is_closed ≡ false
    → c.tcp.conn.input ≡ server_frame true 8 payload ++ rest
    → (read_message c).0
      ≡ closing payload (parse_close_payload payload).0 (parse_close_payload payload).1
read_message-closing payload rest c fits up open' e =
    let fuel = length c.tcp.conn.input in
    ap (λ (r : Outcome × WebSocketClient). r.0)
      (open_client c up ∙ round fuel no_fragments c true 8 payload rest (omega arith) fits open' e)
    ∙ handle_close (read_loop fuel) payload (behind rest c)

read_full-end :
    (c : Conn)
    → c.is_closed ≡ false
    → c.input ≡ []
    → read_full 2 c ≡ (err c.at_end, record c { input = [] })
unfolding read_full
read_full-end c open' e =
    ap
      (λ b.
        if b
        then (err closed, c)
        else if leb 2 (length c.input)
        then (ok (take 2 c.input), record c { input = drop 2 c.input })
        else (err (short_read c.input c.at_end), record c { input = [] }))
      open'
    ∙ ap {B = Result IoError (List ℕ) × Conn}
        (λ (i : List ℕ).
          if leb 2 (length i)
          then (ok (take 2 i), record c { input = drop 2 i })
          else (err (short_read i c.at_end), record c { input = [] }))
        e

read_frame-end :
    (limit : ℤ) (c : Conn)
    → c.is_closed ≡ false
    → c.input ≡ []
    → read_frame_with_limit limit c ≡ (err (io_error c.at_end), record c { input = [] })
unfolding read_frame_with_limit
read_frame-end limit c open' e = rw (read_full-end c open' e) refl

pub read_message-end :
    (c : WebSocketClient)
    → c.is_closed ≡ false
    → c.tcp.conn.is_closed ≡ false
    → c.tcp.conn.input ≡ []
    → (read_message c).0 ≡ failed (frame_error (io_error c.tcp.conn.at_end))
unfolding read_loop
read_message-end c up open' e =
    let d = read_deadline c.has_read_timeout true c.tcp.conn in
    ap (λ (r : Outcome × WebSocketClient). r.0)
      (open_client c up
        ∙ ap (handle_result (read_loop (length c.tcp.conn.input)) no_fragments c) (
            read_frame-end c.max_payload_size d
              (read_deadline_closed c.has_read_timeout true c.tcp.conn ∙ open')
              (read_deadline_input c.has_read_timeout true c.tcp.conn ∙ e)))
    ∙ ap (λ a. failed (frame_error (io_error a)))
        (read_deadline_at_end c.has_read_timeout true c.tcp.conn)
