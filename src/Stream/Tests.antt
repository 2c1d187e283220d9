-- ===== src/Stream/Tests.antt =====
-- Runs of the stream on small inputs, and the theorems at concrete streams.

use deskaone_sdk.Shared.{◌-◌, ◌^◌, ◌≡◌, refl, none, some, List, [], ◌∷◌, ◌++◌}
use deskaone_sdk.Shared.{length, ◌+◌, ◌*◌, ◌%◌}
use deskaone_sdk.Shared.{true, ok, err, map, arith}
use deskaone_sdk.Shared.Int.{pos, negsuc, to_word, of_word, wrap_int, ◌+ℤ◌}
use deskaone_sdk.Stream.{NetworkStream, begin, current, end, bytes, append, store, set_position}
use deskaone_sdk.Stream.{seek, grow, ensure_capacity, new_stream_from_bytes, write_int16}
use deskaone_sdk.Stream.{read_string, read_int32, read_text, read_fixed, read_bytes}
use deskaone_sdk.Stream.{ensure_readable, not_enough_data, position_out_of_bounds}
use deskaone_sdk.Stream.Contents.{IsValid, Stored, store-Stored}
use deskaone_sdk.Stream.Append.{append-bytes, append_stuck}
use deskaone_sdk.Stream.Seek.{SeekContract, target, seek-SeekContract}
use deskaone_sdk.Stream.Values.{Value, kind, write_all, read_all}
use deskaone_sdk.Stream.Values.RoundTrip.{read_all-write_all}
use deskaone_sdk.Stream.Runs.{Call, run, run-IsValid}

abbrev fresh : NetworkStream
fresh = record { buffer = 0 ∷ 0 ∷ []; position = 0; length = 0 }

abbrev half_read : NetworkStream
half_read = record { buffer = 7 ∷ 8 ∷ 9 ∷ 0 ∷ []; position = 1; length = 3 }

fresh-IsValid : IsValid fresh
fresh-IsValid = omega arith

half_read-IsValid : IsValid half_read
half_read-IsValid = omega arith

write_negative :
    write_int16 (negsuc 1) fresh
    ≡ some (record { buffer = 0xfe ∷ 0xff ∷ []; position = 2; length = 2 })
unfolding write_int16 store ensure_capacity to_word
write_negative = refl

append_grows :
    append (1 ∷ 2 ∷ 3 ∷ []) half_read
    ≡ some (record { buffer = 7 ∷ 8 ∷ 9 ∷ 1 ∷ 2 ∷ 3 ∷ 0 ∷ 0 ∷ []; position = 1; length = 6 })
unfolding append ensure_capacity grow
append_grows = refl

-- The length is taken even where the text behind it is missing.
read_string_cut :
    read_string (record { buffer = 2 ∷ 0 ∷ 0 ∷ 0 ∷ 5 ∷ []; position = 0; length = 5 })
    ≡ (err not_enough_data, record { buffer = 2 ∷ 0 ∷ 0 ∷ 0 ∷ 5 ∷ []; position = 4; length = 5 })
unfolding read_string read_int32 read_text read_fixed ensure_readable of_word read_bytes
read_string_cut = refl

-- An offset that makes the sum wrap is out of bounds.
seek_wraps : seek (pos (2 ^ 63 - 1)) current half_read ≡ err position_out_of_bounds
unfolding seek set_position wrap_int to_word of_word ◌+ℤ◌
seek_wraps = refl

abbrev values : List Value
values = Value.int16 (negsuc 1) ∷ Value.text (104 ∷ 105 ∷ []) ∷ Value.bool true ∷ []

read_all-write_all_example :
    (t u : NetworkStream) × (write_all values half_read ≡ some t)
    × (set_position (pos 1) t ≡ ok u)
    × (read_all (map kind values) u ≡ (ok values, t))
read_all-write_all_example =
    read_all-write_all values half_read half_read-IsValid (omega arith) (omega arith)

store-Stored_example :
    (t : NetworkStream) × (store (1 ∷ []) half_read ≡ some t) × Stored (1 ∷ []) half_read t
store-Stored_example = store-Stored (1 ∷ []) half_read half_read-IsValid (omega arith) (omega arith)

append-bytes_example :
    (t : NetworkStream) × (append (1 ∷ 2 ∷ []) half_read ≡ some t)
    × IsValid t
    × (bytes t ≡ bytes half_read ++ (1 ∷ 2 ∷ []))
    × (t.position ≡ 1)
append-bytes_example =
    append-bytes (1 ∷ 2 ∷ []) half_read half_read-IsValid (omega arith) (omega arith)

append_stuck_example :
    (let s = new_stream_from_bytes [] in
      (append (1 ∷ []) s ≡ none) × (grow 1000 (length s.buffer * 2 % 2 ^ 64) (s.length + 1) ≡ none))
append_stuck_example = append_stuck 1000 (1 ∷ []) (omega arith) (omega arith)

seek-SeekContract_example :
    SeekContract (target (negsuc 0) end half_read) half_read (seek (negsuc 0) end half_read)
seek-SeekContract_example =
    seek-SeekContract (negsuc 0) end half_read half_read-IsValid (omega arith)

abbrev calls : List Call
calls =
    Call.append (5 ∷ 6 ∷ [])
    ∷ Call.seek (pos 2) begin
    ∷ Call.write (Value.byte 9)
    ∷ Call.read_bytes (pos 4)
    ∷ Call.reset
    ∷ []

run-IsValid_example : (t : NetworkStream) × (run calls half_read ≡ some t) × IsValid t
run-IsValid_example = run-IsValid calls half_read half_read-IsValid (omega arith) (omega arith)
