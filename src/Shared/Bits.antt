-- ===== src/Shared/Bits.antt =====
-- Masks and exclusive or on one byte, as tables that evaluation checks.
use Prim.Native.Nat.{bit_and, bit_or, bit_xor}
use deskaone_sdk.Shared.{ℕ, zero, suc, ◌+◌, ◌*◌, ◌/◌, ◌%◌, ◌<◌, ◌≡◌, refl, Bool, true, ◌&&◌}
use deskaone_sdk.Shared.{arith, ltb, ◌==◌, ==_iff}

-- Whether a test passes for each number under a bound, and what that says of one of them.
passes_under : (ℕ → Bool) → ℕ → Bool
passes_under test zero = true
passes_under test (suc bound) = passes_under test bound && test bound

passes_under-entry :
    (test : ℕ → Bool) (bound i : ℕ) → i < bound → passes_under test bound ≡ true → test i ≡ true
unfolding passes_under
passes_under-entry test zero i below table = elim below [ ]
passes_under-entry test (suc bound) i below table = ground (arith, passes_under-entry test bound i)

-- Two functions that a table finds equal.
table_eq :
    (f g : ℕ → ℕ) (bound i : ℕ)
    → passes_under (λ k. f k == g k) bound ≡ true
    → i < bound
    → f i ≡ g i
table_eq f g bound i table below =
    (==_iff _ _).0 (passes_under-entry (λ k. f k == g k) bound i below table)

pub bit_and_nibble : (b : ℕ) → b < 256 → bit_and b 0x0f ≡ b % 16
unfolding passes_under
bit_and_nibble b = table_eq (λ x. bit_and x 0x0f) (λ x. x % 16) 256 b refl

pub bit_and_seven : (b : ℕ) → b < 256 → bit_and b 0x7f ≡ b % 128
unfolding passes_under
bit_and_seven b = table_eq (λ x. bit_and x 0x7f) (λ x. x % 128) 256 b refl

pub bit_and_top : (b : ℕ) → b < 256 → bit_and b 0x80 ≡ b / 128 * 128
unfolding passes_under
bit_and_top b = table_eq (λ x. bit_and x 0x80) (λ x. x / 128 * 128) 256 b refl

pub bit_or_top : (b : ℕ) → b < 128 → bit_or 0x80 b ≡ 128 + b
unfolding passes_under
bit_or_top b = table_eq (λ x. bit_or 0x80 x) (λ x. 128 + x) 128 b refl

abbrev xor_laws : ℕ → ℕ → Bool
xor_laws k x = (bit_xor (bit_xor x k) k == x) && ltb (bit_xor x k) 256

xor_table : passes_under (λ k. passes_under (xor_laws k) 256) 256 ≡ true
unfolding passes_under
xor_table = refl

xor_entry : (x k : ℕ) → x < 256 → k < 256 → xor_laws k x ≡ true
xor_entry x k hx hk =
    passes_under-entry (xor_laws k) 256 x hx
      (passes_under-entry (λ j. passes_under (xor_laws j) 256) 256 k hk xor_table)

-- Exclusive or by one byte is undone by doing it again, and gives a byte.
pub bit_xor_twice : (x k : ℕ) → x < 256 → k < 256 → bit_xor (bit_xor x k) k ≡ x
bit_xor_twice x k hx hk = ground (arith, xor_entry x k hx hk)

pub bit_xor_lt : (x k : ℕ) → x < 256 → k < 256 → bit_xor x k < 256
bit_xor_lt x k hx hk = ground (arith, xor_entry x k hx hk)
