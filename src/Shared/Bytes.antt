-- ===== src/Shared/Bytes.antt =====
-- Bytes, and the fixed-width integers of encoding/binary in both byte orders.
use deskaone_sdk.Shared.{ℕ, zero, suc, ◌+◌, ◌*◌, ◌/◌, ◌%◌, ◌^◌, ◌<◌, ◌≡◌, refl, ap, arith}
use deskaone_sdk.Shared.{List, [], ◌∷◌, ◌++◌, length, length-append, All, All-append}
use native.Mathlib.Nat.{pow-suc}

abbrev pub IsByte : ℕ → Type 0
IsByte b = b < 256

-- `binary.LittleEndian.PutUint16`, `32` and `64`: the `k` low bytes, lowest first.
abbrev pub le_bytes : ℕ → ℕ → List ℕ
le_bytes zero v = []
le_bytes (suc k) v = v % 256 ∷ le_bytes k (v / 256)

-- `binary.LittleEndian.Uint16`, `32` and `64`.
abbrev pub le_value : List ℕ → ℕ
le_value [] = 0
le_value (b ∷ bs) = b + 256 * le_value bs

-- `binary.BigEndian.PutUint16`, `32` and `64`.
abbrev pub be_bytes : ℕ → ℕ → List ℕ
be_bytes zero v = []
be_bytes (suc k) v = be_bytes k (v / 256) ++ (v % 256 ∷ [])

-- `binary.BigEndian.Uint16`, `32` and `64`, read from the front with what came before.
abbrev pub be_value_from : ℕ → List ℕ → ℕ
be_value_from acc [] = acc
be_value_from acc (b ∷ bs) = be_value_from (acc * 256 + b) bs

abbrev pub be_value : List ℕ → ℕ
be_value bs = be_value_from 0 bs

pub length-le_bytes : (k v : ℕ) → length (le_bytes k v) ≡ k
length-le_bytes zero v = refl
length-le_bytes (suc k) v = ap suc (length-le_bytes k (v / 256))

pub le_value-le_bytes : (k v : ℕ) → v < 256 ^ k → le_value (le_bytes k v) ≡ v
le_value-le_bytes zero v h = omega arith
le_value-le_bytes (suc k) v h =
    omega (arith, pow-suc 256 k, le_value-le_bytes k (v / 256) (omega (arith, pow-suc 256 k)))

pub le_bytes-IsByte : (k v : ℕ) → All IsByte (le_bytes k v)
le_bytes-IsByte zero v = tt
le_bytes-IsByte (suc k) v = (omega arith, le_bytes-IsByte k (v / 256))

pub le_value_lt : (bs : List ℕ) → All IsByte bs → le_value bs < 256 ^ length bs
le_value_lt [] h = omega arith
le_value_lt (b ∷ bs) h = omega (arith, pow-suc 256 (length bs), le_value_lt bs h.1, h.0)

pub length-be_bytes : (k v : ℕ) → length (be_bytes k v) ≡ k
length-be_bytes zero v = refl
length-be_bytes (suc k) v =
    omega (arith, length-append (be_bytes k (v / 256)) (v % 256 ∷ []), length-be_bytes k (v / 256))

be_value_from-append :
    (acc : ℕ) (xs ys : List ℕ)
    → be_value_from acc (xs ++ ys) ≡ be_value_from (be_value_from acc xs) ys
be_value_from-append acc [] ys = refl
be_value_from-append acc (x ∷ xs) ys = be_value_from-append (acc * 256 + x) xs ys

pub be_value-be_bytes : (k v : ℕ) → v < 256 ^ k → be_value (be_bytes k v) ≡ v
be_value-be_bytes zero v h = omega arith
be_value-be_bytes (suc k) v h =
    rw (be_value_from-append 0 (be_bytes k (v / 256)) (v % 256 ∷ []))
      (omega (arith, be_value-be_bytes k (v / 256) (omega (arith, pow-suc 256 k))))

pub be_bytes-IsByte : (k v : ℕ) → All IsByte (be_bytes k v)
be_bytes-IsByte zero v = tt
be_bytes-IsByte (suc k) v =
    All-append IsByte (be_bytes k (v / 256)) _ (be_bytes-IsByte k (v / 256)) (omega arith)
