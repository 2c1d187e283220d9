-- ===== src/Shared/Int.antt =====
-- Go's signed integers: a mathematical integer, and the two's complement pattern of a width.
use deskaone_sdk.Shared.{ℕ, suc, ◌+◌, ◌-◌, ◌%◌, ◌^◌, ◌≤◌, ◌<◌, ◌≡◌, Bool, arith}
use deskaone_sdk.Shared.{ltb, leb, if◌then◌else◌}
use native.Mathlib.Nat.{mod-eq_of_lt}

-- `negsuc n` is -(n + 1).
pub data ℤ : Type 0 where
  pos : ℕ → ℤ
  negsuc : ℕ → ℤ

abbrev pub pos_part : ℤ → ℕ
pos_part (pos n) = n
pos_part (negsuc n) = 0

abbrev pub neg_part : ℤ → ℕ
neg_part (pos n) = 0
neg_part (negsuc n) = suc n

-- a - b, as an integer.
abbrev pub sub_ℕ : ℕ → ℕ → ℤ
sub_ℕ a b = if leb b a then pos (a - b) else negsuc (b - a - 1)

infixl 65 ◌+ℤ◌
unfoldable pub ◌+ℤ◌ : ℤ → ℤ → ℤ
a +ℤ b = sub_ℕ (pos_part a + pos_part b) (neg_part a + neg_part b)

infix 50 ◌≤ℤ◌
abbrev pub ◌≤ℤ◌ : ℤ → ℤ → Type 0
a ≤ℤ b = pos_part a + neg_part b ≤ pos_part b + neg_part a

abbrev pub ltb_ℤ : ℤ → ℤ → Bool
ltb_ℤ a b = ltb (pos_part a + neg_part b) (pos_part b + neg_part a)

-- Whether an integer is a value of the signed type with `half` = 2 ^ (w - 1).
abbrev pub IsSigned : ℕ → ℤ → Type 0
IsSigned half z = (pos_part z < half) × (neg_part z ≤ half)

-- `uint(z)` at the modulus `2 * half`: the bit pattern of a signed value.
unfoldable pub to_word : ℕ → ℤ → ℕ
to_word half (pos n) = n % (half + half)
to_word half (negsuc n) = half + half - 1 - n % (half + half)

-- `int(u)`: the signed value of a bit pattern.
unfoldable pub of_word : ℕ → ℕ → ℤ
of_word half u = if ltb u half then pos u else negsuc (half + half - 1 - u)

-- The result of an operation on `int`, brought back to 64 bits.
unfoldable pub wrap_int : ℤ → ℤ
unfolding to_word of_word
wrap_int z = of_word (2 ^ 63) (to_word (2 ^ 63) z)

pub of_word-to_word :
    (half : ℕ) (z : ℤ) → 0 < half → IsSigned half z → of_word half (to_word half z) ≡ z
unfolding of_word to_word
of_word-to_word half (pos n) h s = grind (arith, mod-eq_of_lt)
of_word-to_word half (negsuc n) h s = grind (arith, mod-eq_of_lt)

pub to_word-of_word : (half u : ℕ) → u < half + half → to_word half (of_word half u) ≡ u
unfolding of_word to_word
to_word-of_word half u h = grind (arith, mod-eq_of_lt)

pub to_word_lt : (half : ℕ) (z : ℤ) → 0 < half → to_word half z < half + half
unfolding to_word
to_word_lt half (pos n) h = omega arith
to_word_lt half (negsuc n) h = omega arith

pub of_word-IsSigned : (half u : ℕ) → u < half + half → IsSigned half (of_word half u)
unfolding of_word
of_word-IsSigned half u h = ground arith
