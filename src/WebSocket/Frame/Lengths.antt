-- ===== src/WebSocket/Frame/Lengths.antt =====
-- The lengths in a frame: how they are written, and how the reader takes them.
use Prim.Native.Nat.{bit_and, bit_or}
use deskaone_sdk.Shared.{ℕ, ◌+◌, ◌^◌, ◌≤◌, ◌<◌, ◌≡◌, refl, ap, ◌∙◌}
use deskaone_sdk.Shared.{false, ◌&&◌, ◌⊎◌, List, [], ◌∷◌, ◌++◌, ok, length, arith}
use deskaone_sdk.Shared.{ltb, leb, if◌then◌else◌, le→leb, lt→leb, lt→ltb}
use native.Mathlib.Decide.{dec_le}
use deskaone_sdk.Shared.Int.{ℤ, pos, pos_part, ltb_ℤ, ◌≤ℤ◌}
use deskaone_sdk.Shared.Bytes.{be_bytes, be_value, length-be_bytes, be_value-be_bytes}
use deskaone_sdk.Shared.Bits.{bit_and_seven, bit_and_top, bit_or_top}
use deskaone_sdk.Wire.{after, pure, wrap_error, Conn, io, read_full}
use deskaone_sdk.Wire.Laws.{read_full_prefix}
use deskaone_sdk.WebSocket.Frame.{io_error, length_header, int64_max}
use deskaone_sdk.WebSocket.Frame.{read_length, read_payload}

-- The header of a payload of `n` bytes: its marker, and the bytes of the extended length.
abbrev pub marker : ℕ → ℕ
marker n = if leb n 125 then n else if leb n 65535 then 126 else 127

abbrev pub extension : ℕ → List ℕ
extension n = if leb n 125 then [] else if leb n 65535 then be_bytes 2 n else be_bytes 8 n

pub length_header_lem : (n : ℕ) → n ≤ int64_max → length_header n ≡ (128 + marker n) ∷ extension n
unfolding length_header
length_header_lem n h = elim (dec_le n 125) [
  | yes small ↦
      rw (le→leb n 125 small)
        (ap (λ k. k ∷ []) (ap (bit_or 0x80) (omega arith) ∙ bit_or_top n (omega arith)))
  | no more ↦ elim (dec_le n 65535) [
    | yes medium ↦
        rw (lt→leb n 125 (omega arith), le→leb n 65535 medium)
          (ap (λ k. 254 ∷ be_bytes 2 k) (omega arith))
    | no large ↦
        rw (lt→leb n 125 (omega arith), lt→leb n 65535 (omega arith))
          (ap (λ k. 255 ∷ be_bytes 8 k) (omega arith))
  ]
]

-- The extended length of two or eight bytes, read as a number.
pub read_extension :
    (k n : ℕ) (rest : List ℕ) (c : Conn)
    → n < 256 ^ k
    → c.is_closed ≡ false
    → c.input ≡ be_bytes k n ++ rest
    → after (io io_error (read_full k) c) (λ ext. pure (be_value ext))
      ≡ (ok n, record c { input = rest })
read_extension k n rest c h open' e =
    ap (λ r. after (wrap_error io_error r) (λ ext. pure (be_value ext)))
      (read_full_prefix (be_bytes k n) rest k c open' e (length-be_bytes k n))
    ∙ ap (λ v. (ok v, record c { input = rest })) (be_value-be_bytes k n h)

pub read_length-extension :
    (n : ℕ) (rest : List ℕ) (c : Conn)
    → n ≤ int64_max
    → c.is_closed ≡ false
    → c.input ≡ extension n ++ rest
    → read_length (marker n) c ≡ (ok n, record c { input = rest })
unfolding read_length
read_length-extension n rest c h open' e = elim (dec_le n 125) [
  | yes small ↦ ground (arith, e)
  | no more ↦ elim (dec_le n 65535) [
    | yes medium ↦ ground (arith, read_extension 2 n rest c)
    | no large ↦ ground (arith, read_extension 8 n rest c)
  ]
]

-- The limits that a payload of `n` bytes has to respect: that of the client, if it has one.
abbrev pub Within : ℤ → ℕ → Type 0
Within limit n = (n ≤ int64_max) × ((limit ≤ℤ pos 0) ⊎ (pos n ≤ℤ limit))

pub Within-test :
    (limit : ℤ) (n : ℕ) → Within limit n → (ltb_ℤ (pos 0) limit && ltb (pos_part limit) n) ≡ false
Within-test limit n h = ground arith

pub marker-le : (n : ℕ) → marker n ≤ 127
marker-le n = ground arith

pub marker_bits :
    (n : ℕ) → (bit_and (128 + marker n) 0x80 ≡ 128) × (bit_and (128 + marker n) 0x7F ≡ marker n)
marker_bits n =
    let small = marker-le n in
    (
      bit_and_top (128 + marker n) (omega arith) ∙ omega arith,
      bit_and_seven (128 + marker n) (omega arith) ∙ omega arith,
    )

pub read_payload_prefix :
    (chunk rest : List ℕ) (c : Conn)
    → c.is_closed ≡ false
    → c.input ≡ chunk ++ rest
    → read_payload (length chunk) c ≡ (ok chunk, record c { input = rest })
read_payload_prefix [] rest c open' e = ap (λ k. (ok [], record c { input = k })) e
read_payload_prefix (b ∷ bs) rest c open' e =
    rw (lt→ltb 0 (length (b ∷ bs)) (omega arith))
      (ap (wrap_error io_error) (read_full_prefix (b ∷ bs) rest _ c open' e refl))
