-- ===== src/Stream/Capacity.antt =====
-- ensureCapacity: when its doubling loop ends, and what it leaves.
use Prim.Native.Nat.{max}
use native.Mathlib.Nat.{pow-suc, mod-eq_of_lt}
use native.Mathlib.Decide.{dec_lt}
use deskaone_sdk.Shared.{◌∙◌, ℕ, zero, suc, ◌+◌, ◌-◌, ◌*◌, ◌^◌, ◌≤◌, ◌<◌, ◌≡◌, refl, ap, arith}
use deskaone_sdk.Shared.{none, some, List, [], ◌++◌, length, replicate, copy, copy-eq}
use deskaone_sdk.Shared.{All, append-nil, drop-replicate, length-replicate, le→leb, ltb}
use deskaone_sdk.Shared.Bytes.{IsByte}
use deskaone_sdk.Stream.{NetworkStream, int_lt, grow, ensure_capacity}

-- Sizes that stay clear of the sign bit of an int when they are doubled.
abbrev pub max_size : ℕ
max_size = 2 ^ 62

-- Below the sign bit the patterns compare as numbers.
int_lt_small : (a b : ℕ) → a < 2 ^ 63 → b < 2 ^ 63 → int_lt a b ≡ ltb a b
int_lt_small a b ha hb = ground (arith, mod-eq_of_lt {n = a + 2 ^ 63} {m = 2 ^ 64})

grow_stop : (f n required : ℕ) → n < 2 ^ 63 → required ≤ n → grow (suc f) n required ≡ some n
unfolding grow
grow_stop f n required hn h = ground (arith, int_lt_small n required)

grow_more :
    (f n required : ℕ)
    → required ≤ max_size
    → n < required
    → grow (suc f) n required ≡ grow f (n * 2) required
unfolding grow
grow_more f n required hr h = ground (arith, int_lt_small n required)

-- With `required ≤ n * 2 ^ f` the loop ends within `f` doublings, at a size that is enough and
-- less than twice what is required.
pub grow_total :
    (f n required : ℕ)
    → n < 2 * required
    → required ≤ max_size
    → required ≤ n * 2 ^ f
    → (m : ℕ) × (grow (suc f) n required ≡ some m) × (required ≤ m) × (n ≤ m) × (m < 2 * required)
grow_total zero n required hn hr h =
    (n, grow_stop 0 n required (omega arith) (omega arith), omega arith, omega arith, hn)
grow_total (suc f) n required hn hr h = elim (dec_lt n required) [
  | yes more ↦
      let reach : required ≤ n * 2 * 2 ^ f = omega (arith, ap (λ (t : ℕ). n * t) (pow-suc 2 f)) in
      let (m, e, enough, bigger, below) = grow_total f (n * 2) required (omega arith) hr reach in
      (m, grow_more (suc f) n required hr more ∙ e, enough, omega arith, below)
  | no fits ↦
      (n, grow_stop (suc f) n required (omega arith) (omega arith), omega arith, omega arith, hn)
]

-- From an empty buffer the loop doubles nothing for ever.
pub grow_stuck :
    (fuel required : ℕ) → 0 < required → required < 2 ^ 63 → grow fuel 0 required ≡ none
unfolding grow
grow_stuck zero required h hr = refl
grow_stuck (suc fuel) required h hr = ground (arith, grow_stuck fuel required)

zeros-IsByte : (n : ℕ) → All IsByte (replicate n 0)
zeros-IsByte zero = tt
zeros-IsByte (suc n) = (omega arith, zeros-IsByte n)

-- A grown buffer is the old one with zeros behind it.
copy-zeros :
    (m : ℕ) (xs : List ℕ)
    → length xs ≤ m
    → copy (replicate m 0) xs ≡ xs ++ replicate (m - length xs) 0
copy-zeros m xs h =
    copy-eq (replicate m 0) xs (omega (arith, length-replicate m (zero)))
    ∙ ap (λ k. xs ++ k) (drop-replicate (length xs) m 0)

ensure_capacity_room :
    (required : ℕ) (s : NetworkStream)
    → required ≤ length s.buffer
    → ensure_capacity required s ≡ some s
unfolding ensure_capacity
ensure_capacity_room required s h = rw (le→leb required (length s.buffer) h)

ensure_capacity_grown :
    (required m : ℕ) (s : NetworkStream)
    → length s.buffer < max_size
    → length s.buffer < required
    → grow 64 (length s.buffer * 2) required ≡ some m
    → length s.buffer ≤ m
    → ensure_capacity required s
      ≡ some (record s { buffer = s.buffer ++ replicate (m - length s.buffer) 0 })
unfolding ensure_capacity
ensure_capacity_grown required m s small h e hm = ground (
  arith,
  e,
  copy-zeros m s.buffer,
  mod-eq_of_lt {n = length s.buffer * 2} {m = 2 ^ 64} (omega arith),
)

-- A buffer of one byte at least is grown to hold `required`, and to less than twice that: the old
-- bytes stay in front, and nothing else changes.
pub ensure_capacity_total :
    (required : ℕ) (s : NetworkStream)
    → 0 < length s.buffer
    → length s.buffer < max_size
    → required ≤ max_size
    → (more : List ℕ) × (ensure_capacity required s ≡ some (record s { buffer = s.buffer ++ more }))
      × (required ≤ length s.buffer + length more)
      × (length s.buffer + length more ≤ max (length s.buffer) (2 * required))
      × All IsByte more
ensure_capacity_total required s ne small hr = elim (dec_lt (length s.buffer) required) [
  | yes more ↦
      let n = length s.buffer * 2 in
      let (m, e, enough, bigger, below) = grow_total 63 n required (omega arith) hr (omega arith) in
      let zeros = length-replicate (m - length s.buffer) (zero) in
      (
        replicate (m - length s.buffer) 0,
        ensure_capacity_grown required m s small more e (omega arith),
        omega (arith, zeros),
        omega (arith, zeros),
        zeros-IsByte (m - length s.buffer),
      )
  | no fits ↦ (
    [],
    rw append-nil (ensure_capacity_room required s (omega arith)),
    omega arith,
    omega arith,
    tt,
  )
]

-- From an empty buffer, as NewStreamFromBytes makes it of no bytes, no room is ever made.
pub ensure_capacity_stuck :
    (required : ℕ) (s : NetworkStream)
    → s.buffer ≡ []
    → 0 < required
    → required < 2 ^ 63
    → ensure_capacity required s ≡ none
unfolding ensure_capacity
ensure_capacity_stuck required s e h hr =
    ground (arith, ap (λ (b : List ℕ). length b) e, grow_stuck 64 required h hr)
