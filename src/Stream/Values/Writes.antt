-- ===== src/Stream/Values/Writes.antt =====
-- Each typed write lays the wire format of its value over the contents.
use mathlib.Core.Option
use deskaone_sdk.Shared.{ℕ, ◌+◌, ◌%◌, ◌^◌, ◌≤◌, ◌<◌, ◌≡◌, refl, sym, ap, ◌∙◌, arith}
use deskaone_sdk.Shared.{
  true, false, some, List, [], ◌∷◌, ◌++◌, length, take, drop, All, append_assoc,
}
use deskaone_sdk.Shared.{length-append, drop-drop}
use deskaone_sdk.Shared.{length-take}
use deskaone_sdk.Shared.Int.{to_word, of_word, to_word-of_word}
use deskaone_sdk.Shared.Bytes.{IsByte, le_bytes, le_bytes-IsByte}
use deskaone_sdk.Shared.{take_at, drop_at, take-append-drop}
use mathlib.Core.Path.{ap₂}
use deskaone_sdk.Stream.{
  Write, max_frame_size, NetworkStream, bytes, write_byte, write_bool, write_int16, write_int32,
}
use deskaone_sdk.Stream.{write_int64, write_float32, write_float64, write_bytes, write_string}
use deskaone_sdk.Stream.Contents.{IsValid, Stored, length-bytes, overlay, store-Stored, size_limit}
use deskaone_sdk.Stream.Values.{Value, Fits, encode, encode_all, write_value, write_all}

-- Two writes in a row are one write of both chunks.
overlay-overlay :
    (p : ℕ) (a b content : List ℕ)
    → p ≤ length content
    → overlay (p + length a) b (overlay p a content) ≡ overlay p (a ++ b) content
overlay-overlay p a b content h =
    let front = take p content in
    let rest = drop (p + length a) content in
    let front_len : length (front ++ a) ≡ p + length a =
      omega (arith, length-append front a, length-take p content) in
    let regroup : overlay p a content ≡ (front ++ a) ++ rest = sym (append_assoc front a rest) in
    let taken : take (p + length a) (overlay p a content) ≡ front ++ a =
      ap (take (p + length a)) regroup ∙ take_at _ (front ++ a) rest front_len in
    let dropped : drop (p + length a + length b) (overlay p a content)
        ≡ drop (p + length a + length b) content =
      sym (drop-drop (length b) (p + length a) (overlay p a content))
      ∙ ap (drop (length b))
          (ap (drop (p + length a)) regroup ∙ drop_at _ (front ++ a) rest front_len)
      ∙ drop-drop (length b) (p + length a) content in
    let total : p + length a + length b ≡ p + length (a ++ b) = omega (arith, length-append a b) in
    ap₂ (λ x y. x ++ (b ++ y)) taken (dropped ∙ ap (λ k. drop k content) total)
    ∙ append_assoc front a (b ++ drop (p + length (a ++ b)) content)
    ∙ ap (λ k. front ++ k) (sym (append_assoc a b (drop (p + length (a ++ b)) content)))

Stored-trans :
    {a b : List ℕ} {s t u : NetworkStream}
    → IsValid s
    → Stored a s t
    → Stored b t u
    → Stored (a ++ b) s u
Stored-trans {a} {b} {s} {t} {u} v st tu = record {
  valid = tu.valid;
  moved = omega (arith, length-append a b, st.moved, tu.moved);
  grown = omega (arith, length-append a b, st.grown, tu.grown, st.moved);
  contents =
      tu.contents
      ∙ ap₂ (λ p c. overlay p b c) st.moved st.contents
      ∙ overlay-overlay s.position a b (bytes s) (omega (arith, length-bytes s v, v.in_length));
  capacity = omega (arith, length-append a b, st.capacity, tu.capacity, st.moved);
}

Stored-nil : (s : NetworkStream) → IsValid s → Stored [] s s
Stored-nil s v = record {
  valid = v;
  moved = omega arith;
  grown = omega (arith, v.in_length);
  contents =
      sym (take-append-drop s.position (bytes s))
      ∙ ap (λ k. take s.position (bytes s) ++ drop k (bytes s)) (omega arith);
  capacity = omega arith;
}

-- What a write of `chunk` at `s` promises.
abbrev pub Writes : List ℕ → Write → NetworkStream → Type 0
Writes chunk w s = (t : NetworkStream) × (w s ≡ some t) × Stored chunk s t

-- A write behind a write.
bind-Writes :
    (a b : List ℕ) (w x : Write) (s : NetworkStream)
    → IsValid s
    → Writes a w s
    → ((t : NetworkStream) → Stored a s t → Writes b x t)
    → Writes (a ++ b) (λ r. Option.bind (w r) x) s
unfolding Option.bind
bind-Writes a b w x s v (t, e, st) next =
    let (u, e', tu) = next t st in (u, rw e e', Stored-trans v st tu)

-- The length of a text that can be read back is its own 32-bit pattern.
text_length : (n : ℕ) → n ≤ max_frame_size → to_word (2 ^ 31) (of_word (2 ^ 31) (n % 2 ^ 32)) ≡ n
text_length n h = to_word-of_word (2 ^ 31) (n % 2 ^ 32) (omega arith) ∙ omega arith

write_string-Writes :
    (v : List ℕ) (s : NetworkStream)
    → IsValid s
    → length v ≤ max_frame_size
    → All IsByte v
    → s.position + (4 + length v) < size_limit
    → Writes (le_bytes 4 (length v) ++ v) (write_string v) s
unfolding write_string write_int32 write_bytes
write_string-Writes v s ok short hv small =
    bind-Writes (le_bytes 4 (length v)) v (write_int32 (of_word (2 ^ 31) (length v % 2 ^ 32)))
      (write_bytes v) s ok
      (rw (text_length (length v) short) (store-Stored _ s ok (le_bytes-IsByte 4 _) (omega arith)))
      (λ t st. store-Stored v t st.valid hv (omega (arith, st.moved)))

pub write_value-Writes :
    (v : Value) (s : NetworkStream)
    → IsValid s
    → Fits v
    → s.position + length (encode v) < size_limit
    → Writes (encode v) (write_value v) s
unfolding write_value write_byte write_bool write_int16 write_int32 write_int64 write_float32
    write_float64 write_bytes
write_value-Writes (Value.byte v) s ok fits small = store-Stored _ s ok (fits, tt) small
write_value-Writes (Value.bool true) s ok fits small = store-Stored _ s ok (omega arith) small
write_value-Writes (Value.bool false) s ok fits small = store-Stored _ s ok (omega arith) small
write_value-Writes (Value.int16 v) s ok fits small = store-Stored _ s ok (le_bytes-IsByte 2 _) small
write_value-Writes (Value.int32 v) s ok fits small = store-Stored _ s ok (le_bytes-IsByte 4 _) small
write_value-Writes (Value.int64 v) s ok fits small = store-Stored _ s ok (le_bytes-IsByte 8 _) small
write_value-Writes (Value.float32 v) s ok fits small =
    store-Stored _ s ok (le_bytes-IsByte 4 v) small
write_value-Writes (Value.float64 v) s ok fits small =
    store-Stored _ s ok (le_bytes-IsByte 8 v) small
write_value-Writes (Value.raw v) s ok fits small = store-Stored v s ok fits.1 small
write_value-Writes (Value.text v) s ok fits small =
    write_string-Writes v s ok fits.0 fits.1 (omega arith)

-- Any sequence of typed writes ends, and lays the wire format of the values over the contents.
pub write_all-Writes :
    (vs : List Value) (s : NetworkStream)
    → IsValid s
    → All Fits vs
    → s.position + length (encode_all vs) < size_limit
    → Writes (encode_all vs) (write_all vs) s
unfolding write_all
write_all-Writes [] s ok fits small = (s, refl, Stored-nil s ok)
write_all-Writes (v ∷ vs) s ok fits small =
    let len = length-append (encode v) (encode_all vs) in
    bind-Writes (encode v) (encode_all vs) (write_value v) (write_all vs) s ok
      (write_value-Writes v s ok fits.0 (omega (arith, len)))
      (λ t st. write_all-Writes vs t st.valid fits.1 (omega (arith, len, st.moved)))
