-- ===== src/WebSocket/Listen/Tests.antt =====
-- The loops behind a client, on small inputs.
use deskaone_sdk.Shared.{ℕ, ◌≡◌, refl, arith, inl, inr, true, false, List, [], ◌∷◌, ◌++◌}
use deskaone_sdk.Shared.Int.{pos}
use deskaone_sdk.Wire.{IoError}
use deskaone_sdk.WebSocket.Client.{WebSocketClient}
use deskaone_sdk.WebSocket.Client.Messages.{continuations}
use deskaone_sdk.WebSocket.Listen.{listen, done, start_ping, ping_loop, tick, context_done}
use deskaone_sdk.WebSocket.Listen.Delivered.{
  Sent, close_frame, all_set, deliveries, listen-deliveries,
}

abbrev client : List ℕ → WebSocketClient
client input = record {
  tcp = record {
    conn = record {
      input = input;
      cuts = [];
      at_end = IoError.eof;
      sent = [];
      room = 100;
      read_deadline = false;
      write_deadline = false;
      is_closed = false;
    };
    has_timeout = false;
    is_closed = false;
  };
  has_timeout = false;
  has_read_timeout = false;
  is_closed = false;
  max_payload_size = pos 16;
  disable_auto_pong = false;
  keys = (1 ∷ 2 ∷ 3 ∷ 4 ∷ []) ∷ (1 ∷ 2 ∷ 3 ∷ 4 ∷ []) ∷ [];
}

-- A text in two frames, a binary message in one.
abbrev messages : List Sent
messages =
    record { opcode = 1; pieces = (b'h' ∷ []) ∷ []; last = b'i' ∷ [] }
    ∷ record { opcode = 2; pieces = []; last = 7 ∷ [] }
    ∷ []

abbrev input : List ℕ
input = 0x01 ∷ 1 ∷ b'h' ∷ 0x80 ∷ 1 ∷ b'i' ∷ 0x82 ∷ 1 ∷ 7 ∷ 0x88 ∷ 2 ∷ 3 ∷ 0xE8 ∷ []

listen-deliveries_example :
    ((listen all_set [] (client input)).0 ≡ deliveries messages ++ (done ∷ []))
    × ((listen all_set [] (client input)).1.is_closed ≡ true)
unfolding continuations
listen-deliveries_example =
    listen-deliveries messages (close_frame (3 ∷ 0xE8 ∷ []) []) (client input)
      ((inl refl, (omega arith, omega arith)), ((inr refl, (omega arith, omega arith)), tt))
      (omega arith, inr (omega arith)) refl refl refl

-- After the end of the context there is no further ping.
pings_end :
    start_ping true (b'p' ∷ []) (context_done ∷ tick ∷ []) (client [])
    ≡ start_ping true (b'p' ∷ []) (context_done ∷ []) (client [])
unfolding start_ping ping_loop
pings_end = refl
