-- ===== src/Stream/Append.antt =====
-- Append, and the constructors of a stream.
use mathlib.Core.Option
use deskaone_sdk.Shared.{ℕ, zero, ◌+◌, ◌*◌, ◌≤◌, ◌<◌, ◌≡◌, refl, ap, ◌∙◌, arith}
use deskaone_sdk.Shared.{none, some, List, [], ◌++◌, length, take, drop, copy, All}
use deskaone_sdk.Shared.{
  copy_at, copy_at-eq, length-copy_at, copy-eq, take-append_le, take-append_ge,
}
use deskaone_sdk.Shared.{append-nil, length-take, length-append, length-replicate}
use deskaone_sdk.Shared.{replicate, take-all, drop-all, All-append}
use deskaone_sdk.Shared.Bytes.{IsByte}
use deskaone_sdk.Stream.{NetworkStream, bytes, append, put_at_end, new_stream_from_bytes}
use deskaone_sdk.Shared.{◌%◌, ◌*◌, ◌^◌}
use deskaone_sdk.Stream.{grow}
use deskaone_sdk.Stream.Capacity.{grow_stuck, ensure_capacity_total, ensure_capacity_stuck}
use deskaone_sdk.Stream.Contents.{IsValid, All-copy_at, size_limit}

-- The bytes up to the end of a copy to `l`.
take-copy_at_end :
    (l : ℕ) (buf chunk : List ℕ)
    → l + length chunk ≤ length buf
    → take (l + length chunk) (copy_at l buf chunk) ≡ take l buf ++ chunk
take-copy_at_end l buf chunk room =
    let behind = drop (l + length chunk) buf in
    let front : length (take l buf) ≡ l = omega (arith, length-take l buf) in
    ap (take (l + length chunk)) (copy_at-eq l buf chunk room)
    ∙ take-append_ge (l + length chunk) (take l buf) (chunk ++ behind) (omega arith)
    ∙ ap (λ k. take l buf ++ k)
        (take-append_le _ chunk behind (omega arith) ∙ take-all _ chunk (omega arith))

-- `append` ends on a valid stream: the contents grow by exactly `chunk`, the position stays, and
-- the stream stays valid.
pub append-bytes :
    (chunk : List ℕ) (s : NetworkStream)
    → IsValid s
    → All IsByte chunk
    → s.length + length chunk < size_limit
    → (t : NetworkStream) × (append chunk s ≡ some t)
      × IsValid t
      × (bytes t ≡ bytes s ++ chunk)
      × (t.position ≡ s.position)
unfolding append bytes
append-bytes chunk s v hc small =
    let required = s.length + length chunk in
    let (more, e, enough, cap, hm) =
      ensure_capacity_total required s v.nonempty v.small (omega arith) in
    let buf = s.buffer ++ more in
    let u : NetworkStream = record s { buffer = buf } in
    let len : length buf ≡ length s.buffer + length more = length-append s.buffer more in
    let len' = length-copy_at s.length buf chunk in
    (
      put_at_end chunk u,
      ap (Option.map (put_at_end chunk)) e,
      record {
        in_length = omega arith;
        in_buffer = omega arith;
        nonempty = omega arith;
        small = omega arith;
        all_bytes =
            All-copy_at s.length buf chunk (omega arith)
              (All-append IsByte s.buffer more v.all_bytes hm) hc;
      },
      take-copy_at_end s.length buf chunk (omega arith)
          ∙ ap (λ k. k ++ chunk) (take-append_le s.length s.buffer more v.in_buffer),
      refl,
    )

copy-fresh : (chunk : List ℕ) → copy (replicate (length chunk) 0) chunk ≡ chunk
copy-fresh chunk =
    let len : length (replicate (length chunk) (zero)) ≡ length chunk =
      length-replicate (length chunk) zero in
    copy-eq (replicate (length chunk) 0) chunk (omega arith)
    ∙ ap (λ k. chunk ++ k) (drop-all (length chunk) _ (omega arith))
    ∙ append-nil chunk

-- A stream made of bytes holds them, at position 0.
pub bytes-new_stream_from_bytes : (chunk : List ℕ) → bytes (new_stream_from_bytes chunk) ≡ chunk
unfolding bytes new_stream_from_bytes
bytes-new_stream_from_bytes chunk =
    rw (copy-fresh chunk) (take-all (length chunk) chunk (omega arith))

-- A stream made of no bytes has an empty buffer, from which the loop that doubles it never ends: to
-- append any bytes, one at least, does not return, and that is not for want of rounds, since no number
-- of rounds ends the loop.
pub append_stuck :
    (fuel : ℕ) (chunk : List ℕ)
    → 0 < length chunk
    → length chunk < 2 * size_limit
    → (let s = new_stream_from_bytes [] in
        (append chunk s ≡ none)
        × (grow fuel (length s.buffer * 2 % 2 ^ 64) (s.length + length chunk) ≡ none))
unfolding append new_stream_from_bytes
append_stuck fuel chunk ne small = (
  ap (Option.map (put_at_end chunk)) (
      ensure_capacity_stuck _ (record { buffer = []; position = 0; length = 0 }) refl (omega arith)
        (omega arith)),
  grow_stuck fuel (0 + length chunk) (omega arith) (omega arith),
)
