-- ===== src/Stream/Contents.antt =====
-- What the writes and reads do to the bytes that a stream holds.
use Prim.Native.Nat.{max}
use mathlib.Core.Option
use mathlib.Core.Path.{◌≡⟨◌⟩◌, ◌∎}
use deskaone_sdk.Shared.{ℕ, ◌+◌, ◌-◌, ◌*◌, ◌^◌, ◌≤◌, ◌<◌, ◌≡◌, refl, ap, ◌∙◌, arith}
use deskaone_sdk.Shared.{some, List, ◌++◌, length, take, drop, copy_at, All}
use deskaone_sdk.Shared.{copy_at-eq, length-copy_at, take-append_le, take-append_ge}
use deskaone_sdk.Shared.{
  drop-take, take-take_le, length-take, length-append, All-append, All-take, All-drop,
}
use deskaone_sdk.Shared.Bytes.{IsByte}
use deskaone_sdk.Stream.{NetworkStream, bytes, store, put_at_position}
use deskaone_sdk.Stream.Capacity.{max_size, ensure_capacity_total}

-- The position is inside the contents, these inside a buffer of bytes that can grow.
pub record IsValid (s : NetworkStream) : Type 0 where
  pub in_length : s.position ≤ s.length
  pub in_buffer : s.length ≤ length s.buffer
  pub nonempty : 0 < length s.buffer
  pub small : length s.buffer < max_size
  pub all_bytes : All IsByte s.buffer

pub length-bytes : (s : NetworkStream) → IsValid s → length (bytes s) ≡ s.length
unfolding bytes
length-bytes s v = omega (arith, length-take s.length s.buffer, v.in_buffer)

-- `chunk` laid over `content` at `p`, going on past its end.
abbrev pub overlay : ℕ → List ℕ → List ℕ → List ℕ
overlay p chunk content = take p content ++ (chunk ++ drop (p + length chunk) content)

-- The first `l` bytes, after a write at `p`, where `l` is not cut short by the write.
take-copy_at :
    (p l n : ℕ) (buf chunk : List ℕ)
    → n ≡ max l (p + length chunk)
    → p ≤ l
    → l ≤ length buf
    → p + length chunk ≤ length buf
    → take n (copy_at p buf chunk) ≡ overlay p chunk (take l buf)
take-copy_at p l n buf chunk e hp hl hb =
    let front : length (take p buf) ≡ p = omega (arith, length-take p buf) in
    let behind = drop (p + length chunk) buf in
    let left : n - length (take p buf) - length chunk ≡ l - (p + length chunk) = omega arith in
    take n (copy_at p buf chunk)
    ≡⟨ ap (take n) (copy_at-eq p buf chunk hb) ⟩ take n (take p buf ++ (chunk ++ behind))
    ≡⟨ take-append_ge n (take p buf) (chunk ++ behind) (omega arith) ⟩
      take p buf ++ take (n - length (take p buf)) (chunk ++ behind)
    ≡⟨ ap (λ k. take p buf ++ k) (take-append_ge _ chunk behind (omega arith)) ⟩
      take p buf ++ (chunk ++ take (n - length (take p buf) - length chunk) behind)
    ≡⟨ ap (λ k. take p buf ++ (chunk ++ take k behind)) left ⟩
      take p buf ++ (chunk ++ take (l - (p + length chunk)) behind)
    ≡⟨ (rw (take-take_le p l buf hp, drop-take (p + length chunk) l buf)) ⟩
      overlay p chunk (take l buf) ∎

-- A write of `chunk` at the position: the state behind it.
pub record Stored (chunk : List ℕ) (s t : NetworkStream) : Type 0 where
  pub valid : IsValid t
  pub moved : t.position ≡ s.position + length chunk
  pub grown : t.length ≡ max s.length (s.position + length chunk)
  pub contents : bytes t ≡ overlay s.position chunk (bytes s)
  pub capacity : length t.buffer ≤ max (length s.buffer) (2 * (s.position + length chunk))

length-put_at_position :
    (chunk : List ℕ) (s : NetworkStream)
    → (put_at_position chunk s).length ≡ max s.length (s.position + length chunk)
length-put_at_position chunk s = ground arith

pub All-copy_at :
    (p : ℕ) (buf chunk : List ℕ)
    → p + length chunk ≤ length buf
    → All IsByte buf
    → All IsByte chunk
    → All IsByte (copy_at p buf chunk)
All-copy_at p buf chunk room hb hc = rw (copy_at-eq p buf chunk room) (
    All-append IsByte (take p buf) _ (All-take IsByte p buf hb)
      (All-append IsByte chunk _ hc (All-drop IsByte (p + length chunk) buf hb)))

-- The write, once the buffer has been extended by `more`.
put-Stored :
    (chunk more : List ℕ) (s : NetworkStream)
    → IsValid s
    → All IsByte chunk
    → All IsByte more
    → s.position + length chunk ≤ length s.buffer + length more
    → length s.buffer + length more < max_size
    → length s.buffer + length more ≤ max (length s.buffer) (2 * (s.position + length chunk))
    → Stored chunk s (put_at_position chunk (record s { buffer = s.buffer ++ more }))
unfolding bytes
put-Stored chunk more s v hc hm room small cap =
    let buf = s.buffer ++ more in
    let u : NetworkStream = record s { buffer = buf } in
    let t = put_at_position chunk u in
    let len : length buf ≡ length s.buffer + length more = length-append s.buffer more in
    let len' : length (copy_at s.position buf chunk) ≡ length buf =
      length-copy_at s.position buf chunk in
    let grown = length-put_at_position chunk u in
    record {
      valid = record {
        in_length = omega (arith, grown);
        in_buffer = omega (arith, grown);
        nonempty = omega arith;
        small = omega arith;
        all_bytes =
            All-copy_at s.position buf chunk (omega arith)
              (All-append IsByte s.buffer more v.all_bytes hm) hc;
      };
      moved = refl;
      grown = grown;
      contents =
          take-copy_at s.position s.length t.length buf chunk grown v.in_length (omega arith)
            (omega arith)
          ∙ ap (overlay s.position chunk) (take-append_le s.length s.buffer more v.in_buffer);
      capacity = omega arith;
    }

-- The total size that a stream is used up to in the theorems: far above any memory.
abbrev pub size_limit : ℕ
size_limit = 2 ^ 60

-- On a valid stream, whose buffer is therefore not empty, a write of bytes that ends below `size_limit`
-- returns, and lays its bytes over the contents at the position.
pub store-Stored :
    (chunk : List ℕ) (s : NetworkStream)
    → IsValid s
    → All IsByte chunk
    → s.position + length chunk < size_limit
    → (t : NetworkStream) × (store chunk s ≡ some t) × Stored chunk s t
unfolding store
store-Stored chunk s v hc small =
    let required = s.position + length chunk in
    let (more, e, enough, cap, hm) =
      ensure_capacity_total required s v.nonempty v.small (omega arith) in
    (
      put_at_position chunk (record s { buffer = s.buffer ++ more }),
      ap (Option.map (put_at_position chunk)) e,
      put-Stored chunk more s v hc hm enough (omega arith) cap,
    )
