-- ===== src/WebSocket/Client/Tests.antt =====
-- Messages on small inputs.
use deskaone_sdk.Shared.{
  inl, arith, ℕ, ◌≤◌, ◌<◌, ◌≡◌, ◌≢◌, ◌⊎◌, refl, true, false, List, [], ◌∷◌, ok, err,
}
use deskaone_sdk.Shared.Int.{pos}
use deskaone_sdk.Wire.{IoError, reset}
use deskaone_sdk.Tcp.{TcpClient, write_full, io_error}
use deskaone_sdk.Tcp.Writes.{sent, broken, write_full-all_or_error}
use deskaone_sdk.WebSocket.Client.{WebSocketClient, read_message}
use deskaone_sdk.WebSocket.Client.{failed, unfinished, message}
use deskaone_sdk.WebSocket.Client.Messages.{behind, read_message-fragments, continuations}
use deskaone_sdk.WebSocket.Client.Ends.{read_message-ends}

abbrev tcp : List ℕ → TcpClient
tcp input = record {
  conn = record {
    input = input;
    cuts = [];
    at_end = IoError.eof;
    sent = [];
    room = 10;
    read_deadline = false;
    write_deadline = false;
    is_closed = false;
  };
  has_timeout = true;
  is_closed = false;
}

abbrev client : List ℕ → WebSocketClient
client input = record {
  tcp = tcp input;
  has_timeout = false;
  has_read_timeout = true;
  is_closed = false;
  max_payload_size = pos 16;
  disable_auto_pong = false;
  keys = [];
}

-- A ping, the two fragments of a text, and a byte behind them.
abbrev fragments : List ℕ
fragments = 0x89 ∷ 0 ∷ 0x01 ∷ 1 ∷ b'h' ∷ 0x80 ∷ 1 ∷ b'i' ∷ 7 ∷ []

read_message-ends_example : (read_message (client fragments)).0 ≢ failed unfinished
read_message-ends_example = read_message-ends (client fragments)

-- The same without the ping.
abbrev only_fragments : List ℕ
only_fragments = 0x01 ∷ 1 ∷ b'h' ∷ 0x80 ∷ 1 ∷ b'i' ∷ 7 ∷ []

read_message-fragments_example :
    read_message (client only_fragments)
    ≡ (message 1 (b'h' ∷ b'i' ∷ []), behind (7 ∷ []) (client only_fragments))
unfolding continuations
read_message-fragments_example =
    read_message-fragments 1 (b'h' ∷ []) (b'i' ∷ []) (7 ∷ []) [] (client only_fragments) (inl refl)
      (omega arith, omega arith) refl refl refl

write_full-all_or_error_example :
    ((3 ≤ 10) × (write_full (1 ∷ 2 ∷ 3 ∷ []) (tcp []) ≡ (ok tt, sent (1 ∷ 2 ∷ 3 ∷ []) (tcp []))))
    ⊎ ((10 < 3)
        × (write_full (1 ∷ 2 ∷ 3 ∷ []) (tcp [])
            ≡ (err (io_error reset), broken (1 ∷ 2 ∷ 3 ∷ []) (tcp []))))
write_full-all_or_error_example =
    write_full-all_or_error (1 ∷ 2 ∷ 3 ∷ []) (tcp []) (record { client = refl; conn = refl })
