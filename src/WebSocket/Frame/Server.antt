-- ===== src/WebSocket/Frame/Server.antt =====
-- Frames as a server sends them, without a mask, and the reader on them.
use Prim.Native.Nat.{bit_and}
use deskaone_sdk.Shared.{ℕ, ◌+◌, ◌<◌, ◌≡◌, refl, ap, ap₂, ◌∙◌, arith}
use deskaone_sdk.Shared.{
  Bool, true, false, not, ◌&&◌, List, [], ◌∷◌, ◌++◌, ok, length, get_or, append_assoc, ◌==◌, ltb,
  le→ltb,
}
use deskaone_sdk.Shared.Int.{ℤ, pos, pos_part, ltb_ℤ}
use deskaone_sdk.Shared.Bits.{bit_and_nibble, bit_and_seven, bit_and_top}
use deskaone_sdk.Wire.{Conn, after, wrap_error}
use deskaone_sdk.Wire.Laws.{read_full_prefix}
use deskaone_sdk.WebSocket.Frame.{
  WebsocketFrame, io_error, int64_max, read_frame_body, read_frame_with_limit,
}
use deskaone_sdk.WebSocket.Frame.{read_length, read_payload}
use deskaone_sdk.WebSocket.Frame.Lengths.{marker, extension, Within, Within-test, marker-le}
use deskaone_sdk.WebSocket.Frame.Lengths.{read_length-extension, read_payload_prefix}

abbrev pub fin_bit : Bool → ℕ
fin_bit true = 128
fin_bit false = 0

-- The bytes of a frame, by RFC 6455.
abbrev pub server_frame : Bool → ℕ → List ℕ → List ℕ
server_frame fin opcode payload =
    (fin_bit fin + opcode) ∷ marker (length payload) ∷ extension (length payload) ++ payload

abbrev pub unmasked : Bool → ℕ → List ℕ → WebsocketFrame
unmasked fin opcode payload = record {
  fin = fin;
  opcode = opcode;
  masked = false;
  payload = payload;
}

first_byte :
    (fin : Bool) (opcode : ℕ)
    → opcode < 16
    → (not (bit_and (fin_bit fin + opcode) 0x80 == 0) ≡ fin)
      × (bit_and (fin_bit fin + opcode) 0x0F ≡ opcode)
first_byte true opcode h =
    let top : bit_and (128 + opcode) 0x80 ≡ 128 =
      bit_and_top (128 + opcode) (omega arith) ∙ omega arith in
    (ap (λ k. not (k == 0)) top, bit_and_nibble (128 + opcode) (omega arith) ∙ omega arith)
first_byte false opcode h =
    let top : bit_and (0 + opcode) 0x80 ≡ 0 =
      bit_and_top (0 + opcode) (omega arith) ∙ omega arith in
    (ap (λ k. not (k == 0)) top, bit_and_nibble (0 + opcode) (omega arith) ∙ omega arith)

second_byte : (n : ℕ) → (bit_and (marker n) 0x80 ≡ 0) × (bit_and (marker n) 0x7F ≡ marker n)
second_byte n =
    let small = marker-le n in
    (
      bit_and_top (marker n) (omega arith) ∙ omega arith,
      bit_and_seven (marker n) (omega arith) ∙ omega arith,
    )

body_of_steps :
    (limit : ℤ) (first second n : ℕ) (chunk : List ℕ) (c c1 c2 : Conn)
    → bit_and second 0x80 ≡ 0
    → read_length (bit_and second 0x7F) c ≡ (ok n, c1)
    → (ltb_ℤ (pos 0) limit && ltb (pos_part limit) n) ≡ false
    → ltb int64_max n ≡ false
    → read_payload n c1 ≡ (ok chunk, c2)
    → read_frame_body limit first second c
      ≡ (ok (unmasked (not (bit_and first 0x80 == 0)) (bit_and first 0x0F) chunk), c2)
unfolding read_frame_body
body_of_steps limit first second n chunk c c1 c2 top size under max p =
    rw (top, size) (rw (under, max) (rw p refl))

-- A frame of a server at the front of the input is read as what it is, and taken from the input.
pub read_frame-server_frame :
    (limit : ℤ) (fin : Bool) (opcode : ℕ) (payload rest : List ℕ) (c : Conn)
    → opcode < 16
    → Within limit (length payload)
    → c.is_closed ≡ false
    → c.input ≡ server_frame fin opcode payload ++ rest
    → read_frame_with_limit limit c ≡ (ok (unmasked fin opcode payload), record c { input = rest })
unfolding read_frame_with_limit
read_frame-server_frame limit fin opcode payload rest c ho fits open' e =
    let n = length payload in
    let first = fin_bit fin + opcode in
    let (top, low) = first_byte fin opcode ho in
    let (plain, seven) = second_byte n in
    let c1 = record c { input = extension n ++ (payload ++ rest) } in
    let c2 = record c { input = payload ++ rest } in
    let layout : c.input ≡ first ∷ marker n ∷ extension n ++ (payload ++ rest) =
      e ∙ ap (λ k. first ∷ marker n ∷ k) (append_assoc (extension n) payload rest) in
    let header = read_full_prefix (first ∷ marker n ∷ []) c1.input 2 c open' layout refl in
    ap
      (λ k.
        after (wrap_error io_error k) (λ h. read_frame_body limit (get_or h 0 0) (get_or h 1 0)))
      header
    ∙ body_of_steps limit first (marker n) n payload c1 c2 (record c { input = rest }) plain
        (ap (λ k. read_length k c1) seven ∙ read_length-extension n _ c1 fits.0 open' refl)
        (Within-test limit n fits) (le→ltb int64_max n fits.0)
        (read_payload_prefix payload rest c2 open' refl)
    ∙ ap₂ (λ f o. (ok (unmasked f o payload), record c { input = rest })) top low
