-- ===== src/WebSocket/Frame/Consumes.antt =====
-- Every frame that is read takes bytes from the input.
use deskaone_sdk.Shared.{ℕ, ◌≤◌, ◌<◌, ◌≡◌, refl, ap, arith}
use deskaone_sdk.Shared.{
  ltb, ◌==◌, ◌&&◌, not, if◌then◌else◌, Bool, true, false, List, Result, ok, err, length,
  length-drop,
}
use Prim.Native.Nat.{bit_and}
use deskaone_sdk.Shared.Int.{ℤ, pos, pos_part, ltb_ℤ}
use deskaone_sdk.Shared.Bytes.{be_value}
use deskaone_sdk.Wire.{
  Conn, Exec, after, io, wrap_error, read_full, pure, reject_if, IoError, ◌>>=◌,
}
use deskaone_sdk.WebSocket.Frame.{WebsocketFrame, FrameError, io_error, read_frame_with_limit}
use deskaone_sdk.WebSocket.Frame.{
  read_frame_body, read_length, read_mask_key, read_payload, no_key, int64_max, mask_from,
  payload_too_large,
}

-- A function on a connection never gives input back.
record Takes {E A : Type 0} (m : Exec E A) : Type 0 where
  at : (c : Conn) → length (m c).1.input ≤ length c.input

after-Takes :
    {E A B : Type 0} (r : Result E A × Conn) (f : A → Exec E B) (n : ℕ)
    → length r.1.input ≤ n
    → ((a : A) → Takes (f a))
    → length (after r f).1.input ≤ n
after-Takes (ok a, d) f n h t = omega (arith, (t a).at d)
after-Takes (err e, d) f n h t = h

bind-Takes :
    {E A B : Type 0} (m : Exec E A) (f : A → Exec E B)
    → Takes m
    → ((a : A) → Takes (f a))
    → Takes (m >>= f)
bind-Takes m f tm tf = record { at = λ c. after-Takes (m c) f (length c.input) (tm.at c) tf }

read_full-Takes : (n : ℕ) → Takes (read_full n)
unfolding read_full
read_full-Takes n = record { at = λ c. ground (arith, length-drop n c.input) }

wrap-Takes :
    {E A : Type 0} (w : IoError → E) (r : Result IoError A × Conn)
    → length (wrap_error w r).1.input ≤ length r.1.input
wrap-Takes w (ok a, d) = omega arith
wrap-Takes w (err e, d) = omega arith

io-Takes : (n : ℕ) → Takes (io io_error (read_full n))
io-Takes n = record {
  at = λ c.
      let wrapped = wrap-Takes io_error (read_full n c) in
      omega (arith, wrapped, (read_full-Takes n).at c);
}

pure-Takes : {A : Type 0} (a : A) → Takes (pure {E = FrameError} a)
pure-Takes a = record { at = λ c. omega arith }

reject_if-Takes : (b : Bool) (e : FrameError) → Takes (reject_if b e)
reject_if-Takes true e = record { at = λ c. omega arith }
reject_if-Takes false e = record { at = λ c. omega arith }

read_number-Takes : (k : ℕ) → Takes (io io_error (read_full k) >>= λ ext. pure (be_value ext))
read_number-Takes k =
    bind-Takes _ (λ ext. pure (be_value ext)) (io-Takes k) (λ ext. pure-Takes (be_value ext))

read_length-Takes : (n : ℕ) → Takes (read_length n)
unfolding read_length
read_length-Takes n = record {
  at = λ c. ground (arith, (read_number-Takes 2).at c, (read_number-Takes 8).at c);
}

read_mask_key-Takes : (masked : Bool) → Takes (read_mask_key masked)
read_mask_key-Takes true = io-Takes 4
read_mask_key-Takes false = pure-Takes no_key

read_payload-Takes : (n : ℕ) → Takes (read_payload n)
read_payload-Takes n = record { at = λ c. ground (arith, (io-Takes n).at c) }

read_frame_end-Takes :
    (n : ℕ) (f : List ℕ → WebsocketFrame) → Takes (read_payload n >>= λ payload. pure (f payload))
read_frame_end-Takes n f =
    bind-Takes _ (λ payload. pure (f payload)) (read_payload-Takes n)
      (λ payload. pure-Takes (f payload))

read_frame_body-Takes : (limit : ℤ) (first second : ℕ) → Takes (read_frame_body limit first second)
unfolding read_frame_body
read_frame_body-Takes limit first second =
    let masked = not (bit_and second 0x80 == 0) in
    bind-Takes (read_length (bit_and second 0x7F)) _ (read_length-Takes _) (λ size.
      bind-Takes (reject_if (ltb_ℤ (pos 0) limit && ltb (pos_part limit) size) payload_too_large) _
        (reject_if-Takes (ltb_ℤ (pos 0) limit && ltb (pos_part limit) size) payload_too_large)
        (λ u.
          bind-Takes (reject_if (ltb int64_max size) payload_too_large) _
            (reject_if-Takes (ltb int64_max size) payload_too_large)
            (λ v. bind-Takes (read_mask_key masked) _ (read_mask_key-Takes masked) (λ key.
              read_frame_end-Takes size (λ payload. record {
                fin = not (bit_and first 0x80 == 0);
                opcode = bit_and first 0x0F;
                masked = masked;
                payload = if masked then mask_from 0 key payload else payload;
              })))))

-- Two bytes at least are read where a header is read.
header_taken :
    (c d : Conn) (bs : List ℕ) → read_full 2 c ≡ (ok bs, d) → length d.input < length c.input
unfolding read_full
header_taken c d bs h = ground (arith, length-drop 2 c.input)

behind_header :
    (r : Result IoError (List ℕ) × Conn) (f : List ℕ → Exec FrameError WebsocketFrame) (n : ℕ)
    (frame : WebsocketFrame) (d : Conn)
    → ((bs : List ℕ) (d' : Conn) → r ≡ (ok bs, d') → length d'.input < n)
    → ((bs : List ℕ) → Takes (f bs))
    → after (wrap_error io_error r) f ≡ (ok frame, d)
    → length d.input < n
behind_header (ok bs, d') f n frame d header taken h = omega (
  arith,
  header bs d' refl,
  (taken bs).at d',
  ap (λ (k : Result FrameError WebsocketFrame × Conn). length k.1.input) h,
)
behind_header (err e, d') f n frame d header taken h = absurd (ground (arith, h))

-- A frame that is read takes something from the input.
pub read_frame-takes :
    (limit : ℤ) (c d : Conn) (frame : WebsocketFrame)
    → read_frame_with_limit limit c ≡ (ok frame, d)
    → length d.input < length c.input
unfolding read_frame_with_limit
read_frame-takes limit c d frame h =
    behind_header (read_full 2 c) _ (length c.input) frame d (λ bs d' e. header_taken c d' bs e)
      (λ bs. read_frame_body-Takes limit _ _) h
