-- ===== src/Stream.antt =====
-- network/network_stream.go: a byte buffer with a position, read and written by fixed-size values.
-- The children prove what the operations do. The channels of Add and Listen are not here.
pub mod Capacity
pub mod Contents
pub mod Append
pub mod Reads
pub mod Seek
pub mod Values
pub mod Moves
pub mod Runs
mod Tests
use mathlib.Core.Option
use deskaone_sdk.Shared.{ℕ, zero, suc, ◌+◌, ◌-◌, ◌*◌, ◌%◌, ◌^◌, Bool, true, false, ◌||◌, not}
use deskaone_sdk.Shared.{Option, none, some, List, [], ◌∷◌, ltb, leb, ◌==◌, if◌then◌else◌}
use deskaone_sdk.Shared.{
  length, get_or, take, drop, replicate, copy, copy_at, Result, ok, err, map_ok,
}
use deskaone_sdk.Shared.Int.{ℤ, pos, negsuc, pos_part, ◌+ℤ◌, ltb_ℤ, to_word, of_word, wrap_int}
use deskaone_sdk.Shared.Bytes.{le_bytes, le_value}

pub data StreamError : Type 0 where
  position_out_of_bounds invalid_seek_origin invalid_read_size : StreamError
  not_enough_data string_length_overflow : StreamError

-- `position` and `length` are ints that no operation makes negative.
pub record NetworkStream : Type 0 where
  pub buffer : List ℕ
  pub position : ℕ
  pub length : ℕ

abbrev pub default_buffer_size : ℕ
default_buffer_size = 32 * 1024

abbrev pub max_frame_size : ℕ
max_frame_size = 256 * 1024

pub new_network_stream : ℤ → NetworkStream
new_network_stream capacity =
    let size = if ltb_ℤ (pos 0) capacity then pos_part capacity else default_buffer_size in
    record { buffer = replicate size 0; position = 0; length = 0 }

pub new_stream_from_bytes : List ℕ → NetworkStream
new_stream_from_bytes chunk =
    let buf = copy (replicate (length chunk) 0) chunk in
    record { buffer = buf; position = 0; length = length buf }

pub bytes : NetworkStream → List ℕ
bytes s = take s.length s.buffer

pub remaining : NetworkStream → ℤ
unfolding ◌+ℤ◌
remaining s =
    if leb s.position s.length
    then pos (s.length - s.position)
    else negsuc (s.position - s.length - 1)

pub reset : NetworkStream → NetworkStream
reset s = record s { position = 0; length = 0 }

-- `a < b` of two ints given by their 64-bit patterns.
abbrev pub int_lt : ℕ → ℕ → Bool
int_lt a b = ltb ((a + 2 ^ 63) % 2 ^ 64) ((b + 2 ^ 63) % 2 ^ 64)

-- `for n < required { n *= 2 }` on an int; `none` is a loop that is still running when the fuel
-- has run out.
pub grow : ℕ → ℕ → ℕ → Option ℕ
grow zero n required = none
grow (suc fuel) n required =
    let rest = grow fuel (n * 2 % 2 ^ 64) required in if int_lt n required then rest else some n

-- 64 rounds reach any size below 2 ^ 62 from one byte, so a loop that outlasts them never ends.
abbrev pub grow_fuel : ℕ
grow_fuel = 64

pub ensure_capacity : ℕ → NetworkStream → Option NetworkStream
ensure_capacity required s =
    if leb required (length s.buffer)
    then some s
    else Option.map (λ n. record s { buffer = copy (replicate n 0) s.buffer })
        (grow grow_fuel (length s.buffer * 2 % 2 ^ 64) required)

-- `copy(s.buffer[s.length:], data)` and the new length.
abbrev pub put_at_end : List ℕ → NetworkStream → NetworkStream
put_at_end chunk s = record s {
  buffer = copy_at s.length s.buffer chunk;
  length = s.length + length chunk;
}

pub append : List ℕ → NetworkStream → Option NetworkStream
append chunk s = Option.map (put_at_end chunk) (ensure_capacity (s.length + length chunk) s)

pub set_position : ℤ → NetworkStream → Result StreamError NetworkStream
set_position p s =
    if ltb_ℤ p (pos 0) || ltb_ℤ (pos s.length) p
    then err position_out_of_bounds
    else ok (record s { position = pos_part p })

-- `SeekOrigin` is an int: `other` stands for the values that the switch does not name.
pub data SeekOrigin : Type 0 where
  begin current end other : SeekOrigin

pub seek : ℤ → SeekOrigin → NetworkStream → Result StreamError NetworkStream
seek offset begin s = set_position offset s
seek offset current s = set_position (wrap_int (pos s.position +ℤ offset)) s
seek offset end s = set_position (wrap_int (pos s.length +ℤ offset)) s
seek offset other s = err invalid_seek_origin

-- The guard of the reads: the error, if there is one.
pub ensure_readable : ℤ → NetworkStream → Option StreamError
ensure_readable n s =
    if ltb_ℤ n (pos 0) || ltb_ℤ (pos max_frame_size) n
    then some invalid_read_size
    else if ltb s.length (s.position + pos_part n)
    then some not_enough_data
    else none

abbrev pub Read : Type 0 → Type 0
Read A = NetworkStream → Result StreamError A × NetworkStream

-- What the reads of fixed size share: the guard, `s.buffer[s.position:][:n]` decoded, and
-- `s.position += n`.
pub read_fixed : {A : Type 0} → ℕ → (List ℕ → A) → Read A
read_fixed n decode s = elim (ensure_readable (pos n) s) [
  | some e ↦ (err e, s)
  | none ↦ (ok (decode (take n (drop s.position s.buffer))), record s { position = s.position + n })
]

pub read_byte : Read ℕ
read_byte = read_fixed 1 (λ bs. get_or bs 0 0)

-- The method returns `b != 0` beside the error of ReadByte.
pub read_bool : Read Bool
read_bool s = let (r, t) = read_byte s in (map_ok (λ b. not (b == 0)) r, t)

pub read_int16 : Read ℤ
read_int16 = read_fixed 2 (λ bs. of_word (2 ^ 15) (le_value bs))

pub read_int32 : Read ℤ
read_int32 = read_fixed 4 (λ bs. of_word (2 ^ 31) (le_value bs))

pub read_int64 : Read ℤ
read_int64 = read_fixed 8 (λ bs. of_word (2 ^ 63) (le_value bs))

-- A float is its bit pattern.
pub read_float32 : Read ℕ
read_float32 = read_fixed 4 le_value

pub read_float64 : Read ℕ
read_float64 = read_fixed 8 le_value

pub read_double : Read ℕ
read_double s = read_float64 s

pub read_bytes : ℤ → Read (List ℕ)
read_bytes n s =
    if ltb_ℤ n (pos 0) || ltb_ℤ (pos max_frame_size) n
    then (err invalid_read_size, s)
    else read_fixed (pos_part n) (λ bs. bs) s

-- The rest of ReadString, once the length is read.
read_text : Result StreamError ℤ → Read (List ℕ)
read_text (err e) s = (err e, s)
read_text (ok n) s =
    if ltb_ℤ n (pos 0) || ltb_ℤ (pos max_frame_size) n
    then (err string_length_overflow, s)
    else read_bytes n s

pub read_string : Read (List ℕ)
read_string s = let (r, t) = read_int32 s in read_text r t

-- What the writes share: the bytes go to `s.buffer[s.position:]`, the position moves behind them,
-- and the length follows where the position passes it.
abbrev pub put_at_position : List ℕ → NetworkStream → NetworkStream
put_at_position chunk s =
    let p = s.position + length chunk in
    record s {
      buffer = copy_at s.position s.buffer chunk;
      position = p;
      length = if ltb s.length p then p else s.length;
    }

-- A write has no error of its own; `none` is a capacity loop that does not end.
abbrev pub Write : Type 0
Write = NetworkStream → Option NetworkStream

pub store : List ℕ → Write
unfolding ensure_capacity
store chunk s = Option.map (put_at_position chunk) (ensure_capacity (s.position + length chunk) s)

pub write_byte : ℕ → Write
write_byte v = store (v ∷ [])

pub write_bool : Bool → Write
write_bool v = if v then write_byte 1 else write_byte 0

pub write_int16 : ℤ → Write
write_int16 v = store (le_bytes 2 (to_word (2 ^ 15) v))

pub write_int32 : ℤ → Write
write_int32 v = store (le_bytes 4 (to_word (2 ^ 31) v))

pub write_int64 : ℤ → Write
write_int64 v = store (le_bytes 8 (to_word (2 ^ 63) v))

pub write_float32 : ℕ → Write
write_float32 v = store (le_bytes 4 v)

pub write_float64 : ℕ → Write
write_float64 v = store (le_bytes 8 v)

pub write_double : ℕ → Write
write_double v = write_float64 v

pub write_bytes : List ℕ → Write
write_bytes chunk = store chunk

-- `int32(len(data))` drops the high bits of the length.
pub write_string : List ℕ → Write
write_string text s =
    Option.bind (write_int32 (of_word (2 ^ 31) (length text % 2 ^ 32)) s) (write_bytes text)
