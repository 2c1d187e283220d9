-- ===== src/Stream/Reads.antt =====
-- The reads of fixed size, against the contents of the stream.
use deskaone_sdk.Shared.{ℕ, ◌+◌, ◌-◌, ◌≤◌, ◌<◌, ◌≡◌, ap, ◌∙◌, arith}
use deskaone_sdk.Shared.{List, take, drop, ok, err}
use deskaone_sdk.Shared.{drop-take, take-take_le}
use deskaone_sdk.Stream.{NetworkStream, bytes, max_frame_size, ensure_readable, read_fixed}
use deskaone_sdk.Stream.{not_enough_data}

-- The bytes under the position are contents, not what an earlier use left in the buffer.
window-bytes :
    (p n l : ℕ) (buf : List ℕ) → p + n ≤ l → take n (drop p (take l buf)) ≡ take n (drop p buf)
window-bytes p n l buf h =
    ap (take n) (drop-take p l buf) ∙ take-take_le n (l - p) (drop p buf) (omega arith)

-- With enough contents behind the position, a read decodes the next `n` of them and moves past
-- them.
pub read_fixed_enough :
    {A : Type 0} (n : ℕ) (decode : List ℕ → A) (s : NetworkStream)
    → n ≤ max_frame_size
    → s.position + n ≤ s.length
    → read_fixed n decode s
      ≡ (ok (decode (take n (drop s.position (bytes s)))), record s { position = s.position + n })
unfolding read_fixed ensure_readable bytes
read_fixed_enough n decode s hn h = ground (arith, window-bytes s.position n s.length s.buffer h)

-- Otherwise it fails and changes nothing.
pub read_fixed_short :
    {A : Type 0} (n : ℕ) (decode : List ℕ → A) (s : NetworkStream)
    → n ≤ max_frame_size
    → s.length < s.position + n
    → read_fixed n decode s ≡ (err not_enough_data, s)
unfolding read_fixed ensure_readable
read_fixed_short n decode s hn h = ground arith
