-- ===== src/Stream/Values.antt =====
-- A client of network/network_stream.go: typed values written and read one after the other, and
-- their wire format.
pub mod Writes
pub mod Reads
pub mod RoundTrip
use mathlib.Core.Option
use deskaone_sdk.Shared.{
  ℕ, suc, ◌<◌, ◌≤◌, ◌^◌, Bool, true, false, Option, some, List, [], ◌∷◌, ◌++◌,
}
use deskaone_sdk.Shared.{All, Result, ok, err, length}
use deskaone_sdk.Shared.Int.{ℤ, pos, IsSigned, to_word}
use deskaone_sdk.Shared.Bytes.{IsByte, le_bytes}
use deskaone_sdk.Stream.{
  NetworkStream, StreamError, Read, Write, max_frame_size, read_byte, read_bool,
}
use deskaone_sdk.Stream.{read_int16, read_int32, read_int64, read_float32, read_float64, read_bytes}
use deskaone_sdk.Stream.{read_string, write_byte, write_bool, write_int16, write_int32, write_int64}
use deskaone_sdk.Stream.{write_float32, write_float64, write_bytes, write_string}

-- A value with the type it is written as.
pub data Value : Type 0 where
  byte : ℕ → Value
  bool : Bool → Value
  int16 : ℤ → Value
  int32 : ℤ → Value
  int64 : ℤ → Value
  float32 : ℕ → Value
  float64 : ℕ → Value
  raw : List ℕ → Value
  text : List ℕ → Value

-- What a reader has to know of a value: its type, and of raw bytes how many there are.
pub data Kind : Type 0 where
  byte bool int16 int32 int64 float32 float64 text : Kind
  raw : ℕ → Kind

abbrev pub kind : Value → Kind
kind (Value.byte v) = Kind.byte
kind (Value.bool v) = Kind.bool
kind (Value.int16 v) = Kind.int16
kind (Value.int32 v) = Kind.int32
kind (Value.int64 v) = Kind.int64
kind (Value.float32 v) = Kind.float32
kind (Value.float64 v) = Kind.float64
kind (Value.raw v) = Kind.raw (length v)
kind (Value.text v) = Kind.text

-- The values that the Go types hold, in blocks not beyond what the reads accept.
abbrev pub Fits : Value → Type 0
Fits (Value.byte v) = v < 256
Fits (Value.bool v) = Unit {0}
Fits (Value.int16 v) = IsSigned (2 ^ 15) v
Fits (Value.int32 v) = IsSigned (2 ^ 31) v
Fits (Value.int64 v) = IsSigned (2 ^ 63) v
Fits (Value.float32 v) = v < 2 ^ 32
Fits (Value.float64 v) = v < 2 ^ 64
Fits (Value.raw v) = (length v ≤ max_frame_size) × All IsByte v
Fits (Value.text v) = (length v ≤ max_frame_size) × All IsByte v

-- The wire format: little endian, two's complement, a text behind its length in four bytes.
abbrev pub encode : Value → List ℕ
encode (Value.byte v) = v ∷ []
encode (Value.bool true) = 1 ∷ []
encode (Value.bool false) = 0 ∷ []
encode (Value.int16 v) = le_bytes 2 (to_word (2 ^ 15) v)
encode (Value.int32 v) = le_bytes 4 (to_word (2 ^ 31) v)
encode (Value.int64 v) = le_bytes 8 (to_word (2 ^ 63) v)
encode (Value.float32 v) = le_bytes 4 v
encode (Value.float64 v) = le_bytes 8 v
encode (Value.raw v) = v
encode (Value.text v) = le_bytes 4 (length v) ++ v

abbrev pub encode_all : List Value → List ℕ
encode_all [] = []
encode_all (v ∷ vs) = encode v ++ encode_all vs

unfoldable pub write_value : Value → Write
write_value (Value.byte v) = write_byte v
write_value (Value.bool v) = write_bool v
write_value (Value.int16 v) = write_int16 v
write_value (Value.int32 v) = write_int32 v
write_value (Value.int64 v) = write_int64 v
write_value (Value.float32 v) = write_float32 v
write_value (Value.float64 v) = write_float64 v
write_value (Value.raw v) = write_bytes v
write_value (Value.text v) = write_string v

unfoldable pub write_all : List Value → Write
write_all [] s = some s
write_all (v ∷ vs) s = Option.bind (write_value v s) (write_all vs)

-- Reads one behind the other, the first failure ending them.
abbrev pub then_read :
    {A B : Type 0}
    → Result StreamError A × NetworkStream
    → (A → Read B)
    → Result StreamError B × NetworkStream
then_read (ok a, s) f = f a s
then_read (err e, s) f = (err e, s)

abbrev pub read_as : {A : Type 0} → (A → Value) → Read A → Read Value
read_as f m s = then_read (m s) (λ a t. (ok (f a), t))

unfoldable pub read_value : Kind → Read Value
read_value Kind.byte = read_as Value.byte read_byte
read_value Kind.bool = read_as Value.bool read_bool
read_value Kind.int16 = read_as Value.int16 read_int16
read_value Kind.int32 = read_as Value.int32 read_int32
read_value Kind.int64 = read_as Value.int64 read_int64
read_value Kind.float32 = read_as Value.float32 read_float32
read_value Kind.float64 = read_as Value.float64 read_float64
read_value (Kind.raw n) = read_as Value.raw (read_bytes (pos n))
read_value Kind.text = read_as Value.text read_string

unfoldable pub read_all : List Kind → Read (List Value)
read_all [] s = (ok [], s)
read_all (k ∷ ks) s =
    then_read (read_value k s) (λ v t. then_read (read_all ks t) (λ vs u. (ok (v ∷ vs), u)))
