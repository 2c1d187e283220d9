-- ===== src/WebSocket/Frame/RoundTrip.antt =====
-- A frame that the client builds is the frame that the reader reads.
use Prim.Native.Nat.{bit_and, bit_or}
use deskaone_sdk.Shared.{ℕ, zero, suc, ◌+◌, ◌%◌, ◌≤◌, ◌<◌, ◌≡◌, refl, sym, ap, ap₂, ◌∙◌}
use deskaone_sdk.Shared.{
  true, false, not, ◌&&◌, List, [], ◌∷◌, ◌++◌, some, ok, length, get_or, All, arith,
}
use deskaone_sdk.Shared.{append_assoc, ◌==◌, ltb, le→ltb}
use deskaone_sdk.Shared.Int.{ℤ, pos, pos_part, ltb_ℤ}
use deskaone_sdk.Shared.Bytes.{IsByte}
use deskaone_sdk.Shared.Bits.{bit_and_nibble, bit_and_top, bit_or_top, bit_xor_twice}
use deskaone_sdk.Wire.{after, wrap_error, Conn, read_full}
use deskaone_sdk.Wire.Laws.{read_full_prefix}
use deskaone_sdk.WebSocket.Frame.{WebsocketFrame, io_error, mask_from, length_header, int64_max}
use deskaone_sdk.WebSocket.Frame.{
  build_client_frame, read_length, read_frame_body, read_frame_with_limit, read_payload,
}
use deskaone_sdk.WebSocket.Frame.Lengths.{
  marker, extension, length_header_lem, read_length-extension, Within, Within-test, marker_bits,
  read_payload_prefix,
}

get_or-IsByte : (key : List ℕ) (i : ℕ) → All IsByte key → get_or key i 0 < 256
get_or-IsByte [] i h = omega arith
get_or-IsByte (k ∷ ks) zero h = h.0
get_or-IsByte (k ∷ ks) (suc i) h = get_or-IsByte ks i h.1

pub length-mask_from : (i : ℕ) (key bs : List ℕ) → length (mask_from i key bs) ≡ length bs
unfolding mask_from
length-mask_from i key [] = refl
length-mask_from i key (b ∷ bs) = ap suc (length-mask_from (i + 1) key bs)

-- Masking twice with the same key gives the payload back.
pub mask_from_twice :
    (i : ℕ) (key bs : List ℕ)
    → All IsByte key
    → All IsByte bs
    → mask_from i key (mask_from i key bs) ≡ bs
unfolding mask_from
mask_from_twice i key [] hk h = refl
mask_from_twice i key (b ∷ bs) hk h =
    ap₂ ◌∷◌ (bit_xor_twice b _ h.0 (get_or-IsByte key (i % 4) hk))
      (mask_from_twice (i + 1) key bs hk h.1)

abbrev masked_frame : ℕ → List ℕ → WebsocketFrame
masked_frame first payload = record {
  fin = not (bit_and first 0x80 == 0);
  opcode = bit_and first 0x0F;
  masked = true;
  payload = payload;
}

-- The body of a masked frame from its steps.
body_of_steps :
    (limit : ℤ) (first second n : ℕ) (key chunk : List ℕ) (c c1 c2 c3 : Conn)
    → bit_and second 0x80 ≡ 128
    → read_length (bit_and second 0x7F) c ≡ (ok n, c1)
    → (ltb_ℤ (pos 0) limit && ltb (pos_part limit) n) ≡ false
    → ltb int64_max n ≡ false
    → read_full 4 c1 ≡ (ok key, c2)
    → read_payload n c2 ≡ (ok chunk, c3)
    → read_frame_body limit first second c ≡ (ok (masked_frame first (mask_from 0 key chunk)), c3)
unfolding read_frame_body
body_of_steps limit first second n key chunk c c1 c2 c3 top size under max k p =
    rw (top, size) (rw (under, max) (rw k (rw p)))

-- The body of a masked frame behind its header.
read_frame_body-masked :
    (limit : ℤ) (first : ℕ) (key payload rest : List ℕ) (c : Conn)
    → c.is_closed ≡ false
    → length key ≡ 4
    → All IsByte key
    → All IsByte payload
    → Within limit (length payload)
    → c.input ≡ extension (length payload) ++ (key ++ (mask_from 0 key payload ++ rest))
    → read_frame_body limit first (128 + marker (length payload)) c
      ≡ (ok (masked_frame first payload), record c { input = rest })
unfolding read_frame_body
read_frame_body-masked limit first key payload rest c open' len hk hp fits e =
    let n = length payload in
    let chunk = mask_from 0 key payload in
    let (top, seven) = marker_bits n in
    let c1 = record c { input = key ++ (chunk ++ rest) } in
    let c2 = record c { input = chunk ++ rest } in
    body_of_steps limit first (128 + marker n) n key chunk c c1 c2 (record c { input = rest }) top
      (ap (λ k. read_length k c) seven ∙ read_length-extension n _ c fits.0 open' e)
      (Within-test limit n fits) (le→ltb int64_max n fits.0)
      (read_full_prefix key (chunk ++ rest) 4 c1 open' refl len)
      (ap (λ k. read_payload k c2) (sym (length-mask_from 0 key payload))
        ∙ read_payload_prefix chunk rest c2 open' refl)
    ∙ ap (λ k. (ok (masked_frame first k), record c { input = rest }))
        (mask_from_twice 0 key payload hk hp)

first_bits :
    (opcode : ℕ)
    → opcode < 256
    → (bit_and (bit_or 0x80 (bit_and opcode 0x0F)) 0x80 ≡ 128)
      × (bit_and (bit_or 0x80 (bit_and opcode 0x0F)) 0x0F ≡ opcode % 16)
first_bits opcode h =
    let low = bit_and_nibble opcode h in
    let first : bit_or 0x80 (bit_and opcode 0x0F) ≡ 128 + opcode % 16 =
      ap (bit_or 0x80) low ∙ bit_or_top (opcode % 16) (omega arith) in
    (
      ap (λ k. bit_and k 0x80) first ∙ bit_and_top _ (omega arith) ∙ omega arith,
      ap (λ k. bit_and k 0x0F) first ∙ bit_and_nibble _ (omega arith) ∙ omega arith,
    )

-- The built frame with what follows it, split where the reader splits it.
frame_layout :
    (first : ℕ) (key payload rest : List ℕ)
    → length payload ≤ int64_max
    → (first ∷ length_header (length payload) ++ (key ++ mask_from 0 key payload)) ++ rest
      ≡ first ∷ (128 + marker (length payload)) ∷ extension (length payload)
        ++ (key ++ (mask_from 0 key payload ++ rest))
frame_layout first key payload rest h =
    let n = length payload in
    let chunk = mask_from 0 key payload in
    ap (λ k. (first ∷ k ++ (key ++ chunk)) ++ rest) (length_header_lem n h)
    ∙ ap (λ k. first ∷ (128 + marker n) ∷ k)
        (append_assoc (extension n) (key ++ chunk) rest
          ∙ ap (λ k. extension n ++ k) (append_assoc key chunk rest))

-- The frame that the reader has to return.
abbrev pub final_frame : ℕ → List ℕ → WebsocketFrame
final_frame opcode payload = record {
  fin = true;
  opcode = opcode % 16;
  masked = true;
  payload = payload;
}

-- A frame built for any opcode byte, payload and masking key, at the front of the input of an open
-- connection, is read back as a final masked frame with the opcode's low four bits and the payload,
-- and exactly the frame is taken from the input. The payload has to respect the reader's limit, if
-- it has a positive one, and an int64.
pub read_frame-build :
    (limit : ℤ) (opcode : ℕ) (payload key frame rest : List ℕ) (c : Conn)
    → opcode < 256
    → All IsByte payload
    → All IsByte key
    → length key ≡ 4
    → Within limit (length payload)
    → build_client_frame opcode payload (some key) ≡ ok frame
    → c.is_closed ≡ false
    → c.input ≡ frame ++ rest
    → read_frame_with_limit limit c ≡ (ok (final_frame opcode payload), record c { input = rest })
unfolding read_frame_with_limit build_client_frame
read_frame-build limit opcode payload key frame rest c ho hp hk len fits built open' e =
    let n = length payload in
    let chunk = mask_from 0 key payload in
    let first = bit_or 0x80 (bit_and opcode 0x0F) in
    let (fin, low) = first_bits opcode ho in
    let c1 = record c { input = extension n ++ (key ++ (chunk ++ rest)) } in
    let whole : first ∷ length_header n ++ (key ++ chunk) ≡ frame = cc in
    let header =
      read_full_prefix (first ∷ (128 + marker n) ∷ []) c1.input 2 c open'
        (e ∙ ap (λ k. k ++ rest) (sym whole) ∙ frame_layout first key payload rest fits.0) refl in
    ap
      (λ k.
        after (wrap_error io_error k) (λ h. read_frame_body limit (get_or h 0 0) (get_or h 1 0)))
      header
    ∙ read_frame_body-masked limit first key payload rest c1 open' len hk hp fits refl
    ∙ ap₂
        (λ f o. (
          ok (record { fin = not (f == 0); opcode = o; masked = true; payload = payload }),
          record c { input = rest },
        ))
        fin low
