-- ===== src/Stream/Moves.antt =====
-- What the reads and seeks change: the position only.

use deskaone_sdk.Shared.{ℕ, ◌+◌, ◌≤◌, ◌≡◌, refl, ap, ◌∙◌, arith, false}
use deskaone_sdk.Shared.{none, List, Result, ok, err, inl, inr}
use deskaone_sdk.Shared.{get_or, Option-cases, Bool-cases, ◌||◌}
use deskaone_sdk.Shared.Int.{ℤ, pos, pos_part, ltb_ℤ}
use deskaone_sdk.Stream.{NetworkStream, StreamError, SeekOrigin, begin, current, end, other, Read}
use deskaone_sdk.Stream.{read_fixed, ensure_readable, max_frame_size}
use deskaone_sdk.Stream.{read_byte, read_bool, read_int16, read_int32, read_int64, read_float32}
use deskaone_sdk.Stream.{read_float64, read_text, read_string}
use deskaone_sdk.Stream
use deskaone_sdk.Stream.Contents.{IsValid}
use deskaone_sdk.Stream.Values.{Value, Kind, read_value, then_read}

abbrev pub keep_state : NetworkStream → Result StreamError NetworkStream → NetworkStream
keep_state s (ok t) = t
keep_state s (err e) = s

-- A state that differs from `s` at most in its position, which is inside the contents.
abbrev pub Moved : NetworkStream → NetworkStream → Type 0
Moved s t = (q : ℕ) × (q ≤ s.length) × (t ≡ record s { position = q })

moved_to-IsValid :
    (q : ℕ) (s : NetworkStream) → IsValid s → q ≤ s.length → IsValid (record s { position = q })
moved_to-IsValid q s v h = record {
  in_length = h;
  in_buffer = v.in_buffer;
  nonempty = v.nonempty;
  small = v.small;
  all_bytes = v.all_bytes;
}

pub Moved-IsValid :
    (s t : NetworkStream) → IsValid s → Moved s t → IsValid t × (t.length ≡ s.length)
Moved-IsValid s t v (q, h, e) = rw e (moved_to-IsValid q s v h, refl)

pub Moved-refl : (s : NetworkStream) → IsValid s → Moved s s
Moved-refl s v = (s.position, v.in_length, refl)

Moved-trans : (s t u : NetworkStream) → Moved s t → Moved t u → Moved s u
Moved-trans s t u (p, h, e) (q, h', e') = (
  q,
  omega (arith, ap (λ (r : NetworkStream). r.length) e),
  e' ∙ ap (λ (r : NetworkStream). record r { position = q }) e,
)

ensure_readable-none :
    (n : ℕ) (s : NetworkStream) → ensure_readable (pos n) s ≡ none → s.position + n ≤ s.length
unfolding ensure_readable
ensure_readable-none n s h = ground arith

read_fixed-Moved :
    {A : Type 0} (n : ℕ) (decode : List ℕ → A) (s : NetworkStream)
    → IsValid s
    → Moved s (read_fixed n decode s).1
unfolding read_fixed
read_fixed-Moved n decode s v = elim (Option-cases (ensure_readable (pos n) s)) [
  | inl e ↦ rw (e, read_fixed) (s.position + n, ensure_readable-none n s e, refl)
  | inr (x, e) ↦ rw (e, read_fixed) (Moved-refl s v)
]

pub read_bytes-Moved : (n : ℤ) (s : NetworkStream) → IsValid s → Moved s (Stream.read_bytes n s).1
unfolding Stream.read_bytes
read_bytes-Moved n s v = elim (Bool-cases (ltb_ℤ n (pos 0) || ltb_ℤ (pos max_frame_size) n)) [
  | inl e ↦ rw e (Moved-refl s v)
  | inr e ↦ rw e (read_fixed-Moved (pos_part n) (λ bs. bs) s v)
]

read_text-Moved :
    (r : Result StreamError ℤ) (s : NetworkStream) → IsValid s → Moved s (read_text r s).1
unfolding read_text
read_text-Moved (err e) s v = Moved-refl s v
read_text-Moved (ok n) s v = elim (Bool-cases (ltb_ℤ n (pos 0) || ltb_ℤ (pos max_frame_size) n)) [
  | inl e ↦ rw e (Moved-refl s v)
  | inr e ↦ rw e (read_bytes-Moved n s v)
]

read_string-Moved : (s : NetworkStream) → IsValid s → Moved s (read_string s).1
unfolding read_string read_int32
read_string-Moved s v =
    let first = read_fixed-Moved 4 _ s v in
    let t = (read_int32 s).1 in
    Moved-trans s t _ first (read_text-Moved (read_int32 s).0 t (Moved-IsValid s t v first).0)

then_read-Moved :
    {A B : Type 0} (r : Result StreamError A × NetworkStream) (f : A → B) (s : NetworkStream)
    → Moved s r.1
    → Moved s (then_read r (λ a t. (ok (f a), t))).1
then_read-Moved (ok a, t) f s m = m
then_read-Moved (err e, t) f s m = m

-- Every read leaves the contents alone, whether it succeeds or fails.
pub read_value-Moved : (k : Kind) (s : NetworkStream) → IsValid s → Moved s (read_value k s).1
unfolding read_value read_byte read_bool read_int16 read_int32 read_int64 read_float32 read_float64
read_value-Moved Kind.byte s v = then_read-Moved _ _ s (read_fixed-Moved 1 _ s v)
read_value-Moved Kind.bool s v =
    then_read-Moved (read_bool s) Value.bool s (read_fixed-Moved 1 (λ bs. get_or bs 0 0) s v)
read_value-Moved Kind.int16 s v = then_read-Moved _ _ s (read_fixed-Moved 2 _ s v)
read_value-Moved Kind.int32 s v = then_read-Moved _ _ s (read_fixed-Moved 4 _ s v)
read_value-Moved Kind.int64 s v = then_read-Moved _ _ s (read_fixed-Moved 8 _ s v)
read_value-Moved Kind.float32 s v = then_read-Moved _ _ s (read_fixed-Moved 4 _ s v)
read_value-Moved Kind.float64 s v = then_read-Moved _ _ s (read_fixed-Moved 8 _ s v)
read_value-Moved (Kind.raw n) s v = then_read-Moved _ _ s (read_bytes-Moved (pos n) s v)
read_value-Moved Kind.text s v = then_read-Moved _ _ s (read_string-Moved s v)

inside_of_test : (p : ℤ) (n : ℕ) → (ltb_ℤ p (pos 0) || ltb_ℤ (pos n) p) ≡ false → pos_part p ≤ n
inside_of_test p n h = ground arith

pub set_position-Moved :
    (p : ℤ) (s : NetworkStream) → IsValid s → Moved s (keep_state s (Stream.set_position p s))
unfolding Stream.set_position
set_position-Moved p s v = elim (Bool-cases (ltb_ℤ p (pos 0) || ltb_ℤ (pos s.length) p)) [
  | inl e ↦ rw e (Moved-refl s v)
  | inr e ↦ rw e (pos_part p, inside_of_test p s.length e, refl)
]

pub seek-Moved :
    (offset : ℤ) (origin : SeekOrigin) (s : NetworkStream)
    → IsValid s
    → Moved s (keep_state s (Stream.seek offset origin s))
unfolding Stream.seek
seek-Moved offset begin s v = set_position-Moved _ s v
seek-Moved offset current s v = set_position-Moved _ s v
seek-Moved offset end s v = set_position-Moved _ s v
seek-Moved offset other s v = Moved-refl s v
