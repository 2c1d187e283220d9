-- ===== src/Stream/Values/Reads.antt =====
-- Each typed read takes the wire format of its value from the front of what is left.
use deskaone_sdk.Shared.{ℕ, ◌+◌, ◌^◌, ◌≤◌, ◌<◌, ◌≡◌, refl, sym, ap, ◌∙◌, arith}
use deskaone_sdk.Shared.{
  Bool, true, false, List, [], ◌∷◌, ◌++◌, length, take, drop, All, append_assoc,
}
use deskaone_sdk.Shared.{ok, length-append, length-drop, take_at, drop_at, drop-drop, map}
use deskaone_sdk.Shared.Int.{ℤ, pos, IsSigned, to_word_lt, to_word, of_word, of_word-to_word}
use deskaone_sdk.Shared.Bytes.{le_bytes, le_value, le_value-le_bytes}
use deskaone_sdk.Stream.{NetworkStream, max_frame_size, bytes, read_fixed, read_byte, read_bool}
use deskaone_sdk.Stream.{read_int16, read_int32, read_int64, read_float32, read_float64, read_bytes}
use deskaone_sdk.Stream.{read_string, read_text}
use deskaone_sdk.Stream.Contents.{IsValid, length-bytes}
use deskaone_sdk.Stream.Reads.{read_fixed_enough}
use deskaone_sdk.Stream.Values.{
  Value, kind, Fits, encode, encode_all, read_value, read_all, then_read,
}
use deskaone_sdk.Stream.Values.{read_as}
use mathlib.Core.Path.{ap₂}

-- `chunk` stands next in the contents, with `rest` behind it.
abbrev pub Next : List ℕ → List ℕ → NetworkStream → Type 0
Next chunk rest s = drop s.position (bytes s) ≡ chunk ++ rest

abbrev pub moved_by : ℕ → NetworkStream → NetworkStream
moved_by n s = record s { position = s.position + n }

Next-fits :
    (chunk rest : List ℕ) (s : NetworkStream)
    → IsValid s
    → Next chunk rest s
    → s.position + length chunk ≤ s.length
Next-fits chunk rest s v h = omega (
  arith,
  ap (λ (k : List ℕ). length k) h,
  length-append chunk rest,
  length-drop s.position (bytes s),
  length-bytes s v,
  v.in_length,
)

-- Behind a chunk that was read the rest is next, in a valid stream.
moved-IsValid :
    (n : ℕ) (s : NetworkStream) → IsValid s → s.position + n ≤ s.length → IsValid (moved_by n s)
moved-IsValid n s v h = record {
  in_length = h;
  in_buffer = v.in_buffer;
  nonempty = v.nonempty;
  small = v.small;
  all_bytes = v.all_bytes;
}

moved-Next :
    (chunk rest : List ℕ) (s : NetworkStream)
    → Next chunk rest s
    → drop (s.position + length chunk) (bytes (moved_by (length chunk) s)) ≡ rest
unfolding bytes
moved-Next chunk rest s h =
    sym (drop-drop (length chunk) s.position _)
    ∙ ap (drop (length chunk)) h
    ∙ drop_at (length chunk) chunk rest refl

read_fixed-Next :
    {A : Type 0} (n : ℕ) (decode : List ℕ → A) (chunk rest : List ℕ) (s : NetworkStream)
    → IsValid s
    → n ≤ max_frame_size
    → length chunk ≡ n
    → Next chunk rest s
    → read_fixed n decode s ≡ (ok (decode chunk), moved_by n s)
read_fixed-Next n decode chunk rest s v hn e h =
    read_fixed_enough n decode s hn (omega (arith, Next-fits chunk rest s v h))
    ∙ ap (λ k. (ok (decode k), moved_by n s)) (ap (take n) h ∙ take_at n chunk rest e)

-- What a read promises where the wire format of `v` is next.
abbrev pub ReadsBack : Value → NetworkStream → Type 0
ReadsBack v s = read_value (kind v) s ≡ (ok v, moved_by (length (encode v)) s)

-- A number written with a sign and read from its pattern.
signed_back :
    (k half : ℕ) (v : ℤ)
    → half + half ≡ 256 ^ k
    → 0 < half
    → IsSigned half v
    → of_word half (le_value (le_bytes k (to_word half v))) ≡ v
signed_back k half v e h fits =
    ap (of_word half) (le_value-le_bytes k _ (omega (arith, to_word_lt half v h)))
    ∙ of_word-to_word half v h fits

-- A read of fixed size, whose result is handed on as a value.
fixed_back :
    {A : Type 0} (n : ℕ) (decode : List ℕ → A) (f : A → Value) (v : Value) (rest : List ℕ)
    (s : NetworkStream)
    → IsValid s
    → n ≤ max_frame_size
    → length (encode v) ≡ n
    → f (decode (encode v)) ≡ v
    → Next (encode v) rest s
    → read_as f (read_fixed n decode) s ≡ (ok v, moved_by (length (encode v)) s)
fixed_back n decode f v rest s valid hn len e h =
    ap (λ k. then_read k (λ a t. (ok (f a), t)))
      (read_fixed-Next n decode (encode v) rest s valid hn len h)
    ∙ ap₂ (λ x k. (ok x, moved_by k s)) e (sym len)

bytes_back :
    (v rest : List ℕ) (s : NetworkStream)
    → IsValid s
    → length v ≤ max_frame_size
    → Next v rest s
    → read_bytes (pos (length v)) s ≡ (ok v, moved_by (length v) s)
unfolding read_bytes
bytes_back v rest s valid short h =
    ground (arith, read_fixed-Next (length v) (λ (bs : List ℕ). bs) v rest s valid short refl h)

text_back :
    (v rest : List ℕ) (s : NetworkStream)
    → IsValid s
    → length v ≤ max_frame_size
    → Next v rest s
    → read_text (ok (pos (length v))) s ≡ (ok v, moved_by (length v) s)
unfolding read_text
text_back v rest s valid short h = ground (arith, bytes_back v rest s valid short h)

length_back : (n : ℕ) → n ≤ max_frame_size → of_word (2 ^ 31) (le_value (le_bytes 4 n)) ≡ pos n
unfolding of_word
length_back n h = ground (arith, le_value-le_bytes 4 n (omega arith))

string_back :
    (v rest : List ℕ) (s : NetworkStream)
    → IsValid s
    → length v ≤ max_frame_size
    → Next (le_bytes 4 (length v) ++ v) rest s
    → read_string s ≡ (ok v, moved_by (4 + length v) s)
unfolding read_string read_int32
string_back v rest s valid short h =
    let head = le_bytes 4 (length v) in
    let h' : Next head (v ++ rest) s = h in
    let room = Next-fits head (v ++ rest) s valid h' in
    let t = moved_by 4 s in
    let first =
      read_fixed-Next 4 (λ bs. of_word (2 ^ 31) (le_value bs)) head (v ++ rest) s valid
        (omega arith) refl h' in
    let valid' = moved-IsValid 4 s valid room in
    ap (λ k. read_text k.0 k.1) first
    ∙ ap (λ k. read_text (ok k) t) (length_back (length v) short)
    ∙ text_back v rest t valid' short (moved-Next head (v ++ rest) s h')
    ∙ ap (λ k. (ok v, record s { position = k })) (omega arith)

bool_back :
    (b : Bool) (rest : List ℕ) (s : NetworkStream)
    → IsValid s
    → Next (encode (Value.bool b)) rest s
    → ReadsBack (Value.bool b) s
unfolding read_value read_bool read_byte
bool_back true rest s valid h = rw (read_fixed-Next 1 _ (1 ∷ []) rest s valid (omega arith) refl h)
bool_back false rest s valid h = rw (read_fixed-Next 1 _ (0 ∷ []) rest s valid (omega arith) refl h)

pub read_value-Next :
    (v : Value) (rest : List ℕ) (s : NetworkStream)
    → IsValid s
    → Fits v
    → Next (encode v) rest s
    → ReadsBack v s
unfolding read_value read_byte read_int16 read_int32 read_int64 read_float32 read_float64
read_value-Next (Value.byte v) rest s valid fits h =
    fixed_back 1 _ Value.byte (Value.byte v) rest s valid (omega arith) refl refl h
read_value-Next (Value.bool b) rest s valid fits h = bool_back b rest s valid h
read_value-Next (Value.int16 v) rest s valid fits h =
    fixed_back 2 _ Value.int16 (Value.int16 v) rest s valid (omega arith) refl
      (ap Value.int16 (signed_back 2 (2 ^ 15) v refl (omega arith) fits)) h
read_value-Next (Value.int32 v) rest s valid fits h =
    fixed_back 4 _ Value.int32 (Value.int32 v) rest s valid (omega arith) refl
      (ap Value.int32 (signed_back 4 (2 ^ 31) v refl (omega arith) fits)) h
read_value-Next (Value.int64 v) rest s valid fits h =
    fixed_back 8 _ Value.int64 (Value.int64 v) rest s valid (omega arith) refl
      (ap Value.int64 (signed_back 8 (2 ^ 63) v refl (omega arith) fits)) h
read_value-Next (Value.float32 v) rest s valid fits h =
    fixed_back 4 _ Value.float32 (Value.float32 v) rest s valid (omega arith) refl
      (ap Value.float32 (le_value-le_bytes 4 v fits)) h
read_value-Next (Value.float64 v) rest s valid fits h =
    fixed_back 8 _ Value.float64 (Value.float64 v) rest s valid (omega arith) refl
      (ap Value.float64 (le_value-le_bytes 8 v fits)) h
read_value-Next (Value.raw v) rest s valid fits h =
    ap (λ k. then_read k (λ a t. (ok (Value.raw a), t))) (bytes_back v rest s valid fits.0 h)
read_value-Next (Value.text v) rest s valid fits h =
    ap (λ k. then_read k (λ a t. (ok (Value.text a), t))) (string_back v rest s valid fits.0 h)
    ∙ ap (λ k. (ok (Value.text v), record s { position = s.position + k })) (omega arith)

-- Where the wire formats of some values stand next, reading them by their types gives the values.
pub read_all-Next :
    (vs : List Value) (rest : List ℕ) (s : NetworkStream)
    → IsValid s
    → All Fits vs
    → Next (encode_all vs) rest s
    → read_all (map kind vs) s ≡ (ok vs, moved_by (length (encode_all vs)) s)
unfolding read_all
read_all-Next [] rest s valid fits h = ap (λ k. (ok [], record s { position = k })) (omega arith)
read_all-Next (v ∷ vs) rest s valid fits h =
    let chunk = encode v in
    let h' : Next chunk (encode_all vs ++ rest) s = h ∙ append_assoc chunk (encode_all vs) rest in
    let t = moved_by (length chunk) s in
    let valid' = moved-IsValid (length chunk) s valid (Next-fits chunk _ s valid h') in
    let total : s.position + length chunk + length (encode_all vs)
        ≡ s.position + length (encode_all (v ∷ vs)) =
      omega (arith, length-append chunk (encode_all vs)) in
    ap (λ k. then_read k (λ x t. then_read (read_all (map kind vs) t) (λ xs u. (ok (x ∷ xs), u))))
      (read_value-Next v (encode_all vs ++ rest) s valid fits.0 h')
    ∙ ap (λ k. then_read k (λ xs u. (ok (v ∷ xs), u)))
        (read_all-Next vs rest t valid' fits.1 (moved-Next chunk _ s h'))
    ∙ ap (λ k. (ok (v ∷ vs), record s { position = k })) total
