-- ===== src/WebSocket/Frame/Tests.antt =====
-- Frames on small inputs, and the theorems at concrete frames.
use deskaone_sdk.Shared.{ℕ, ◌≡◌, refl, true, false, List, [], ◌∷◌, ◌++◌, some, ok, err, arith}
use deskaone_sdk.Shared.Int.{pos}
use deskaone_sdk.Wire.{Conn, IoError, read_full}
use deskaone_sdk.WebSocket.Frame.{
  build_client_frame, read_frame_with_limit, read_frame_body, read_length,
}
use deskaone_sdk.WebSocket.Frame.{mask_from, length_header, payload_too_large}
use deskaone_sdk.WebSocket.Frame.RoundTrip.{final_frame, read_frame-build}

abbrev key : List ℕ
key = 1 ∷ 2 ∷ 3 ∷ 4 ∷ []

abbrev receiving : List ℕ → Conn
receiving input = record {
  input = input;
  cuts = [];
  at_end = IoError.eof;
  sent = [];
  room = 100;
  read_deadline = false;
  write_deadline = false;
  is_closed = false;
}

abbrev hello_frame : List ℕ
hello_frame = 0x81 ∷ 0x82 ∷ 1 ∷ 2 ∷ 3 ∷ 4 ∷ 105 ∷ 107 ∷ []

build_hello : build_client_frame 1 (104 ∷ 105 ∷ []) (some key) ≡ ok hello_frame
unfolding build_client_frame length_header mask_from
build_hello = refl

-- A server frame has no mask.
read_unmasked : read_frame_with_limit (pos 16) (receiving (0x81 ∷ 0x01 ∷ 65 ∷ 66 ∷ [])) ≡ (
  ok (record { fin = true; opcode = 1; masked = false; payload = 65 ∷ [] }),
  receiving (66 ∷ []),
)
unfolding read_frame_with_limit read_frame_body read_length read_full mask_from
read_unmasked = refl

read_over_limit :
    read_frame_with_limit (pos 16) (receiving (0x81 ∷ 17 ∷ []))
    ≡ (err payload_too_large, receiving [])
unfolding read_frame_with_limit read_frame_body read_length read_full mask_from
read_over_limit = refl

read_frame-build_example :
    read_frame_with_limit (pos 16) (receiving (hello_frame ++ (7 ∷ [])))
    ≡ (ok (final_frame 1 (104 ∷ 105 ∷ [])), receiving (7 ∷ []))
read_frame-build_example =
    read_frame-build (pos 16) 1 (104 ∷ 105 ∷ []) key hello_frame (7 ∷ [])
      (receiving (hello_frame ++ (7 ∷ []))) (omega arith) (omega arith) (omega arith) refl
      (omega arith) build_hello refl refl
