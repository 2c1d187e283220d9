-- ===== src/Stream/Seek.antt =====
-- SetPosition and Seek.
use deskaone_sdk.Shared.{ℕ, ◌^◌, ◌≤◌, ◌<◌, ◌≡◌, refl, Option, none, some, ok, err, ◌⊎◌, arith}
use deskaone_sdk.Shared.Int.{ℤ, pos, negsuc, pos_part, ◌+ℤ◌, ◌≤ℤ◌, IsSigned, wrap_int}
use deskaone_sdk.Stream.{NetworkStream, SeekOrigin, begin, current, end, other, set_position, seek}
use deskaone_sdk.Shared.{Result}
use deskaone_sdk.Stream.{StreamError, position_out_of_bounds, invalid_seek_origin}
use deskaone_sdk.Stream.Contents.{IsValid}
use deskaone_sdk.Stream.Capacity.{max_size}

pub set_position_inside :
    (p : ℕ) (s : NetworkStream)
    → p ≤ s.length
    → set_position (pos p) s ≡ ok (record s { position = p })
unfolding set_position
set_position_inside p s h = ground arith

-- The place that a seek names, as an exact integer.
abbrev pub target : ℤ → SeekOrigin → NetworkStream → Option ℤ
target offset begin s = some offset
target offset current s = some (pos s.position +ℤ offset)
target offset end s = some (pos s.length +ℤ offset)
target offset other s = none

-- What the contract of Seek says of a result: the place if it is inside the contents, else an error
-- that says why.
abbrev pub SeekContract : Option ℤ → NetworkStream → Result StreamError NetworkStream → Type 0
SeekContract none s r = r ≡ err invalid_seek_origin
SeekContract (some p) s r =
    ((pos 0 ≤ℤ p) × (p ≤ℤ pos s.length) × (r ≡ ok (record s { position = pos_part p })))
    ⊎ (((¬ (pos 0 ≤ℤ p)) ⊎ (¬ (p ≤ℤ pos s.length))) × (r ≡ err position_out_of_bounds))

set_position-SeekContract : (p : ℤ) (s : NetworkStream) → SeekContract (some p) s (set_position p s)
unfolding set_position
set_position-SeekContract p s = ground arith

-- Within the sizes of a valid stream the sum that Seek takes may wrap, and then is as far out of
-- bounds as the exact sum.
wrapped-SeekContract :
    (base : ℕ) (offset : ℤ) (s : NetworkStream)
    → base ≤ s.length
    → s.length < max_size
    → IsSigned (2 ^ 63) offset
    → SeekContract (some (pos base +ℤ offset)) s (set_position (wrap_int (pos base +ℤ offset)) s)
unfolding set_position wrap_int ◌+ℤ◌
wrapped-SeekContract base (pos n) s hb hl fits = ground arith
wrapped-SeekContract base (negsuc n) s hb hl fits = ground arith

-- Seek goes to the exact place if that is inside the contents, and otherwise reports the reason and
-- has no new state, for every offset that an int holds, those for which the sum wraps included.
pub seek-SeekContract :
    (offset : ℤ) (origin : SeekOrigin) (s : NetworkStream)
    → IsValid s
    → IsSigned (2 ^ 63) offset
    → SeekContract (target offset origin s) s (seek offset origin s)
unfolding seek
seek-SeekContract offset begin s v fits = set_position-SeekContract offset s
seek-SeekContract offset current s v fits =
    wrapped-SeekContract s.position offset s v.in_length (omega (arith, v.small, v.in_buffer)) fits
seek-SeekContract offset end s v fits =
    wrapped-SeekContract s.length offset s (omega arith) (omega (arith, v.small, v.in_buffer)) fits
seek-SeekContract offset other s v fits = refl
