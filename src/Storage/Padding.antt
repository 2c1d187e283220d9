-- ===== src/Storage/Padding.antt =====
-- The padding is taken off again.
use deskaone_sdk.Shared.{ℕ, zero, suc, ◌+◌, ◌-◌, ◌%◌, ◌≤◌, ◌<◌, ◌≡◌, refl, ap, ◌∙◌, arith, true}
use deskaone_sdk.Shared.{List, [], ◌∷◌, ◌++◌, ok, length, replicate, get_or}
use deskaone_sdk.Shared.{length-append, length-replicate, take_at, drop_at}
use native.Mathlib.Nat.{suc-add}
use deskaone_sdk.Storage.{pkcs7_pad, pkcs7_unpad, all_equal, block_size}

all_equal-replicate : (p n : ℕ) → all_equal p (replicate n p) ≡ true
unfolding all_equal
all_equal-replicate p zero = refl
all_equal-replicate p (suc n) = ground (arith, all_equal-replicate p n)

last-replicate : (p n : ℕ) → get_or (replicate (suc n) p) n 0 ≡ p
last-replicate p zero = refl
last-replicate p (suc n) = last-replicate p n

get_or-append : (xs ys : List ℕ) (k : ℕ) → get_or (xs ++ ys) (length xs + k) 0 ≡ get_or ys k 0
get_or-append [] ys k = ap (λ i. get_or ys i 0) (omega arith)
get_or-append (x ∷ xs) ys k =
    ap (λ i. get_or (x ∷ xs ++ ys) i 0) (suc-add (length xs) k) ∙ get_or-append xs ys k

-- A text that ends in `p` bytes of the value `p`.
unpad-padded :
    (b : List ℕ) (p : ℕ)
    → 0 < p
    → p ≤ 16
    → (length b + p) % 16 ≡ 0
    → pkcs7_unpad (b ++ replicate p p) 16 ≡ ok b
unfolding pkcs7_unpad
unpad-padded b zero h hp full = absurd (omega arith)
unpad-padded b (suc k) h hp full =
    let padded = b ++ replicate (suc k) (suc k) in
    let len : length padded ≡ length b + suc k =
      length-append b (replicate (suc k) (suc k))
      ∙ ap (λ n. length b + n) (length-replicate (suc k) (suc k)) in
    let last : get_or padded (length padded - 1) 0 ≡ suc k =
      ap (λ i. get_or padded i 0) (omega (arith, len))
      ∙ get_or-append b (replicate (suc k) (suc k)) k
      ∙ last-replicate (suc k) k in
    let cut : length b ≡ length padded - suc k = omega (arith, len) in
    let front = take_at (length padded - suc k) b (replicate (suc k) (suc k)) cut in
    let back = drop_at (length padded - suc k) b (replicate (suc k) (suc k)) cut in
    let same = ap (all_equal (suc k)) back ∙ all_equal-replicate (suc k) (suc k) in
    rw last (rw same (rw front (ground (arith, len))))

-- Padding to full blocks and taking the padding off gives the text back.
pub pkcs7_unpad-pad : (b : List ℕ) → pkcs7_unpad (pkcs7_pad b block_size) block_size ≡ ok b
unfolding pkcs7_pad
pkcs7_unpad-pad b =
    ap (λ q. pkcs7_unpad (b ++ replicate (16 - length b % 16) q) 16) (omega arith)
    ∙ unpad-padded b (16 - length b % 16) (omega arith) (omega arith) (omega arith)

pub length-pkcs7_pad : (b : List ℕ) → length (pkcs7_pad b block_size) % block_size ≡ 0
unfolding pkcs7_pad
length-pkcs7_pad b =
    let p = 16 - length b % 16 in
    omega (arith, length-append b (replicate p (p % 256)), length-replicate p (p % 256))

pub pkcs7_pad_nonempty : (b : List ℕ) → 0 < length (pkcs7_pad b block_size)
unfolding pkcs7_pad
pkcs7_pad_nonempty b =
    let p = 16 - length b % 16 in
    omega (arith, length-append b (replicate p (p % 256)), length-replicate p (p % 256))
