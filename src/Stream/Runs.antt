-- ===== src/Stream/Runs.antt =====
-- Any sequence of calls on a stream keeps it well formed, and every call returns.
use mathlib.Core.Option
use deskaone_sdk.Shared.{ℕ, ◌+◌, ◌≤◌, ◌<◌, ◌≡◌, refl, ap, arith}
use deskaone_sdk.Shared.{Option, some, List, [], ◌∷◌, length, length-append, All}
use deskaone_sdk.Shared.Int.{ℤ}
use deskaone_sdk.Shared.Bytes.{IsByte}
use deskaone_sdk.Stream.{NetworkStream, StreamError, SeekOrigin, begin, current, end, other, Read}
use deskaone_sdk.Stream.{read_fixed, ensure_readable, max_frame_size}
use deskaone_sdk.Stream.{read_byte, read_bool, read_int16, read_int32, read_int64, read_float32}
use deskaone_sdk.Stream.{read_float64, read_text, read_string}
use deskaone_sdk.Stream
use deskaone_sdk.Stream.Contents.{IsValid, length-bytes, size_limit}
use deskaone_sdk.Stream.Append.{append-bytes}
use deskaone_sdk.Stream.Values.{Value, Kind, Fits, encode, write_value, read_value}
use deskaone_sdk.Stream.Values.Writes.{write_value-Writes}
use deskaone_sdk.Stream.Moves.{keep_state, Moved, Moved-IsValid, read_value-Moved, read_bytes-Moved}
use deskaone_sdk.Stream.Moves.{set_position-Moved, seek-Moved}

-- One call; a write carries the value to write, a read what to read.
pub data Call : Type 0 where
  append : List ℕ → Call
  write : Value → Call
  read : Kind → Call
  read_bytes : ℤ → Call
  set_position : ℤ → Call
  seek : ℤ → SeekOrigin → Call
  reset : Call

-- The state that a call leaves; `none` is a call that does not return.
pub step : Call → NetworkStream → Option NetworkStream
step (Call.append chunk) s = Stream.append chunk s
step (Call.write v) s = write_value v s
step (Call.read k) s = some (read_value k s).1
step (Call.read_bytes n) s = some (Stream.read_bytes n s).1
step (Call.set_position p) s = some (keep_state s (Stream.set_position p s))
step (Call.seek offset origin) s = some (keep_state s (Stream.seek offset origin s))
step Call.reset s = some (Stream.reset s)

-- What a call can add to the length, and what it may be given.
abbrev pub adds : Call → ℕ
adds (Call.append chunk) = length chunk
adds (Call.write v) = length (encode v)
adds _ = 0

abbrev pub Takes : Call → Type 0
Takes (Call.append chunk) = All IsByte chunk
Takes (Call.write v) = Fits v
Takes _ = Unit {0}

pub run : List Call → NetworkStream → Option NetworkStream
run [] s = some s
run (c ∷ cs) s = Option.bind (step c s) (run cs)

abbrev pub adds_all : List Call → ℕ
adds_all [] = 0
adds_all (c ∷ cs) = adds c + adds_all cs

-- What a call on a valid stream promises.
abbrev Steps : Call → NetworkStream → Type 0
Steps c s = (t : NetworkStream) × (step c s ≡ some t) × IsValid t × (t.length ≤ s.length + adds c)

Moved-Steps :
    (s t : NetworkStream)
    → IsValid s
    → Moved s t
    → (u : NetworkStream) × (some t ≡ some u) × IsValid u × (u.length ≤ s.length + 0)
Moved-Steps s t v m = let (v', e) = Moved-IsValid s t v m in (t, refl, v', omega arith)

step-Steps :
    (c : Call) (s : NetworkStream)
    → IsValid s
    → Takes c
    → s.length + adds c < size_limit
    → Steps c s
unfolding step Stream.reset
step-Steps (Call.append chunk) s v h small =
    let (t, e, v', contents, same) = append-bytes chunk s v h small in
    let sizes = length-append (Stream.bytes s) chunk in
    let total = ap (λ (k : List ℕ). length k) contents in
    (t, e, v', omega (arith, total, sizes, length-bytes s v, length-bytes t v'))
step-Steps (Call.write x) s v h small =
    let (t, e, st) = write_value-Writes x s v h (omega (arith, v.in_length)) in
    (t, e, st.valid, omega (arith, st.grown, v.in_length))
step-Steps (Call.read k) s v h small = Moved-Steps s _ v (read_value-Moved k s v)
step-Steps (Call.read_bytes n) s v h small = Moved-Steps s _ v (read_bytes-Moved n s v)
step-Steps (Call.set_position p) s v h small = Moved-Steps s _ v (set_position-Moved p s v)
step-Steps (Call.seek offset origin) s v h small = Moved-Steps s _ v (seek-Moved offset origin s v)
step-Steps Call.reset s v h small = (
  Stream.reset s,
  refl,
  record {
    in_length = omega arith;
    in_buffer = omega arith;
    nonempty = v.nonempty;
    small = v.small;
    all_bytes = v.all_bytes;
  },
  omega arith,
)

-- On a valid stream every call of any sequence returns, and the stream is valid behind it, as long
-- as the length of the stream and the sizes of all that is appended and written stay below
-- `size_limit` together, and each call is given what it takes: bytes to append, and values to write
-- that fit their types, a text or a block at most 256 KiB of them.
pub run-IsValid :
    (cs : List Call) (s : NetworkStream)
    → IsValid s
    → All Takes cs
    → s.length + adds_all cs < size_limit
    → (t : NetworkStream) × (run cs s ≡ some t) × IsValid t
unfolding run Option.bind
run-IsValid [] s v h small = (s, refl, v)
run-IsValid (c ∷ cs) s v h small =
    let (t, e, v', len) = step-Steps c s v h.0 (omega arith) in
    let (u, e', v'') = run-IsValid cs t v' h.1 (omega arith) in (u, rw e e', v'')
