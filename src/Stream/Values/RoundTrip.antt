-- ===== src/Stream/Values/RoundTrip.antt =====
-- Values written to a stream, and read back from where the writing began.
use deskaone_sdk.Shared.{ℕ, ◌+◌, ◌<◌, ◌≡◌, sym, ap, ◌∙◌, some, List, length, All, ok, map, arith}
use deskaone_sdk.Shared.{drop_at, length-take, drop, take}
use deskaone_sdk.Shared.Int.{pos}
use deskaone_sdk.Stream.{NetworkStream, set_position, bytes}
use deskaone_sdk.Stream.Contents.{IsValid, Stored, length-bytes, size_limit}
use deskaone_sdk.Stream.Seek.{set_position_inside}
use deskaone_sdk.Stream.Values.{Value, Fits, kind, encode_all, write_all, read_all}
use deskaone_sdk.Stream.Values.Writes.{write_all-Writes}
use deskaone_sdk.Stream.Values.Reads.{Next, read_all-Next}

abbrev rewind : NetworkStream → NetworkStream → NetworkStream
rewind s t = record t { position = s.position }

rewind-IsValid :
    {chunk : List ℕ} (s t : NetworkStream) → IsValid s → Stored chunk s t → IsValid (rewind s t)
rewind-IsValid s t v st = record {
  in_length = omega (arith, v.in_length, st.grown);
  in_buffer = st.valid.in_buffer;
  nonempty = st.valid.nonempty;
  small = st.valid.small;
  all_bytes = st.valid.all_bytes;
}

-- What was written stands next where the writing began.
rewind-Next :
    (chunk : List ℕ) (s t : NetworkStream)
    → IsValid s
    → Stored chunk s t
    → Next chunk (drop (s.position + length chunk) (bytes s)) (rewind s t)
unfolding bytes
rewind-Next chunk s t v st =
    ap (drop s.position) st.contents
    ∙ drop_at s.position (take s.position (bytes s)) _
        (omega (arith, length-take s.position (bytes s), length-bytes s v, v.in_length))

-- On a valid stream, values of any types that fit their types are written (the capacity loop ends);
-- the position may then be set back to where it was; and reading the same types from there gives
-- exactly the values, and leaves the stream as the writes left it.
pub read_all-write_all :
    (vs : List Value) (s : NetworkStream)
    → IsValid s
    → All Fits vs
    → s.position + length (encode_all vs) < size_limit
    → (t u : NetworkStream) × (write_all vs s ≡ some t)
      × (set_position (pos s.position) t ≡ ok u)
      × (read_all (map kind vs) u ≡ (ok vs, t))
read_all-write_all vs s valid fits small =
    let (t, written, st) = write_all-Writes vs s valid fits small in
    let u = rewind s t in
    let n = length (encode_all vs) in
    let behind = drop (s.position + n) (bytes s) in
    let valid' = rewind-IsValid s t valid st in
    (
      t,
      u,
      written,
      set_position_inside s.position t (omega (arith, st.grown, valid.in_length)),
      read_all-Next vs behind u valid' fits (rewind-Next (encode_all vs) s t valid st)
          ∙ ap (λ k. (ok vs, record t { position = k })) (sym st.moved),
    )
