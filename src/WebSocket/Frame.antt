-- ===== src/WebSocket/Frame.antt =====
-- network/websocket_client.go: one frame, built by the client and read from the peer.
pub mod Lengths
pub mod RoundTrip
pub mod Consumes
pub mod Server
mod Tests
use Prim.Native.Nat.{bit_and, bit_or, bit_xor}
use deskaone_sdk.Shared.{
  ℕ, zero, suc, ◌+◌, ◌-◌, ◌%◌, ◌^◌, Bool, true, false, ◌&&◌, not, List, [], ◌∷◌, ◌++◌,
}
use deskaone_sdk.Shared.{
  Option, none, some, Result, ok, err, length, get_or, take, drop, leb, ltb, ◌==◌,
}
use deskaone_sdk.Shared.{if◌then◌else◌}
use deskaone_sdk.Shared.Int.{ℤ, pos, pos_part, ltb_ℤ}
use deskaone_sdk.Shared.Bytes.{be_bytes, be_value}
use deskaone_sdk.Wire.{IoError, Exec, ◌>>=◌, ◌>>◌, pure, fail, reject_if, io, read_full}

abbrev pub op_continuation : ℕ
op_continuation = 0x0

abbrev pub op_text : ℕ
op_text = 0x1

abbrev pub op_binary : ℕ
op_binary = 0x2

abbrev pub op_close : ℕ
op_close = 0x8

abbrev pub op_ping : ℕ
op_ping = 0x9

abbrev pub op_pong : ℕ
op_pong = 0xA

pub data FrameError : Type 0 where
  io_error : IoError → FrameError
  payload_too_large no_random : FrameError

pub record WebsocketFrame : Type 0 where
  pub fin : Bool
  pub opcode : ℕ
  pub masked : Bool
  pub payload : List ℕ

-- `payload[i] ^= maskKey[i%4]` from index `i` on.
pub mask_from : ℕ → List ℕ → List ℕ → List ℕ
mask_from i key [] = []
mask_from i key (b ∷ bs) = bit_xor b (get_or key (i % 4) 0) ∷ mask_from (i + 1) key bs

-- The second byte of the header and the extended length.
pub length_header : ℕ → List ℕ
length_header n =
    if leb n 125
    then bit_or 0x80 (n % 256) ∷ []
    else if leb n 65535
    then bit_or 0x80 126 ∷ be_bytes 2 (n % 2 ^ 16)
    else bit_or 0x80 127 ∷ be_bytes 8 (n % 2 ^ 64)

-- `buildClientWebSocketFrame`; `key` is what rand.Read puts into `maskKey`, if it succeeds.
pub build_client_frame : ℕ → List ℕ → Option (List ℕ) → Result FrameError (List ℕ)
build_client_frame opcode payload none = err no_random
build_client_frame opcode payload (some key) = ok (
    bit_or 0x80 (bit_and opcode 0x0F) ∷ length_header (length payload)
    ++ (key ++ mask_from 0 key payload))

-- The `switch payloadLen`: a length of 126 or 127 stands for the two or eight bytes behind it.
pub read_length : ℕ → Exec FrameError ℕ
read_length n =
    if n == 126
    then (do ext ← io io_error (read_full 2); pure (be_value ext))
    else if n == 127
    then (do ext ← io io_error (read_full 8); pure (be_value ext))
    else pure n

abbrev pub no_key : List ℕ
no_key = 0 ∷ 0 ∷ 0 ∷ 0 ∷ []

abbrev pub read_mask_key : Bool → Exec FrameError (List ℕ)
read_mask_key true = io io_error (read_full 4)
read_mask_key false = pure no_key

abbrev pub read_payload : ℕ → Exec FrameError (List ℕ)
read_payload n = if ltb 0 n then io io_error (read_full n) else pure []

-- `int64Max`.
abbrev pub int64_max : ℕ
int64_max = 2 ^ 63 - 1

-- `readWebSocketFrameWithLimit`, once the two header bytes are read.
pub read_frame_body : ℤ → ℕ → ℕ → Exec FrameError WebsocketFrame
read_frame_body limit first second = do
  let masked = not (bit_and second 0x80 == 0)
  size ← read_length (bit_and second 0x7F)
  reject_if (ltb_ℤ (pos 0) limit && ltb (pos_part limit) size) payload_too_large
  reject_if (ltb int64_max size) payload_too_large
  key ← read_mask_key masked
  payload ← read_payload size
  pure (record {
    fin = not (bit_and first 0x80 == 0);
    opcode = bit_and first 0x0F;
    masked = masked;
    payload = if masked then mask_from 0 key payload else payload;
  })

unfoldable pub read_frame_with_limit : ℤ → Exec FrameError WebsocketFrame
read_frame_with_limit limit = do
  header ← io io_error (read_full 2)
  read_frame_body limit (get_or header 0 0) (get_or header 1 0)

-- `parseWebSocketClosePayload`: the code, 1000 where there is none, and the reason.
pub parse_close_payload : List ℕ → ℕ × List ℕ
parse_close_payload payload =
    if ltb (length payload) 2 then (1000, []) else (be_value (take 2 payload), drop 2 payload)

-- The payload that `writeCloseFrame` sends; the code is a uint16.
pub close_payload : ℕ → List ℕ → List ℕ
close_payload code reason = be_bytes 2 (code % 2 ^ 16) ++ reason
