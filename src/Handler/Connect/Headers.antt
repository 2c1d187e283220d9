-- ===== src/Handler/Connect/Headers.antt =====
-- The answer of the proxy is found, however the network cuts it, and nothing behind it is lost.
use deskaone_sdk.Shared.{ℕ, zero, suc, ◌+◌, ◌≤◌, ◌<◌, ◌≡◌, refl, ap, ◌∙◌, sym, arith}
use deskaone_sdk.Shared.{Bool, true, false, le→ltb, inl, inr, none, some, List, [], ◌∷◌, ◌++◌, ok}
use deskaone_sdk.Shared.{length, take, drop, length-append, append_assoc, Option-cases}
use deskaone_sdk.Shared.{length-take, length-drop, take-append-drop, take-append_le, drop-append_le}
use deskaone_sdk.Shared.Text.{index_of}
use deskaone_sdk.Shared.Search.{index_of-inside, index_of-append, index_of-prefix}
use deskaone_sdk.Wire.{Conn, read_some, next_cut, later_cuts, is_empty}
use deskaone_sdk.Handler.Connect.{read_headers, delimiter, max_http_header_size, header_or}

-- What reading leaves alone.
pub record SameWrites (c d : Conn) : Type 0 where
  pub sent : d.sent ≡ c.sent
  pub room : d.room ≡ c.room
  pub still_open : d.is_closed ≡ c.is_closed
  pub write_deadline : d.write_deadline ≡ c.write_deadline

next_cut_bounds : (cuts : List ℕ) (n : ℕ) → 0 < n → (0 < next_cut cuts n) × (next_cut cuts n ≤ n)
next_cut_bounds [] n h = omega arith
next_cut_bounds (k ∷ cuts) n h = omega arith

nonempty : (s : List ℕ) → 0 < length s → is_empty s ≡ false
nonempty [] h = absurd (omega arith)
nonempty (b ∷ s) h = refl

-- A read of an open connection that has input.
read_some_lem :
    (n : ℕ) (c : Conn)
    → c.is_closed ≡ false
    → 0 < length c.input
    → read_some n c ≡ (
      ok (take (next_cut c.cuts n) c.input),
      record c { input = drop (next_cut c.cuts n) c.input; cuts = later_cuts c.cuts },
    )
unfolding read_some
read_some_lem n c open' some' = ground (arith, nonempty c.input)

module _ (buf input : List ℕ) (i : ℕ) (whole : index_of delimiter (buf ++ input) ≡ some i)
    (fresh : index_of delimiter buf ≡ none) where
  -- The delimiter ends behind what was read so far, so something is still to come.
  ends_later : length buf < i + 4
  ends_later = ground (arith, index_of-prefix delimiter buf input i whole)

  input_left : 0 < length input
  input_left =
      omega (arith, ends_later, length-append buf input, index_of-inside delimiter _ i whole)

-- The connection behind one round, and what the round has read.
abbrev armed_deadline : Bool → Bool → Bool
armed_deadline true r = true
armed_deadline false r = r

abbrev after_round : Bool → Conn → Conn
after_round armed c = record c {
  input = drop (next_cut c.cuts 1024) c.input;
  cuts = later_cuts c.cuts;
  read_deadline = armed_deadline armed c.read_deadline;
}

abbrev chunk : Conn → List ℕ
chunk c = take (next_cut c.cuts 1024) c.input

seam :
    (buf : List ℕ) (c : Conn)
    → (buf ++ chunk c) ++ drop (next_cut c.cuts 1024) c.input ≡ buf ++ c.input
seam buf c =
    append_assoc buf (chunk c) (drop (next_cut c.cuts 1024) c.input)
    ∙ ap (λ s. buf ++ s) (take-append-drop (next_cut c.cuts 1024) c.input)

-- One round, while the bytes do not exceed the limit.
round :
    (fuel : ℕ) (armed : Bool) (buf : List ℕ) (c : Conn)
    → c.is_closed ≡ false
    → 0 < length c.input
    → length (buf ++ chunk c) ≤ max_http_header_size
    → read_headers (suc fuel) armed buf c
      ≡ header_or
          (read_headers fuel armed (buf ++ chunk c))
          (buf ++ chunk c)
          (index_of delimiter (buf ++ chunk c))
          (after_round armed c)
unfolding read_headers
round fuel true buf c open' some' small =
    rw (read_some_lem 1024 (record c { read_deadline = true }) open' some', le→ltb _ _ small) refl
round fuel false buf c open' some' small =
    rw (read_some_lem 1024 c open' some', le→ltb _ _ small) refl

-- The header up to the delimiter, with what the client has read behind it: this and what is still
-- to come are what followed the header.
pub record Delivered (fuel : ℕ) (armed : Bool) (buf : List ℕ) (i : ℕ) (c : Conn) : Type 0 where
  pub left : List ℕ
  pub behind : Conn
  pub result : read_headers fuel armed buf c ≡ (ok (take (i + 4) (buf ++ c.input), left), behind)
  pub nothing_lost : left ++ behind.input ≡ drop (i + 4) (buf ++ c.input)
  pub writes : SameWrites c behind

-- Reading from what one round has left, with the round before it.
later_round :
    (fuel : ℕ) (armed : Bool) (buf : List ℕ) (i : ℕ) (c : Conn)
    → read_headers (suc fuel) armed buf c
      ≡ read_headers fuel armed (buf ++ chunk c) (after_round armed c)
    → Delivered fuel armed (buf ++ chunk c) i (after_round armed c)
    → Delivered (suc fuel) armed buf i c
later_round fuel armed buf i c step d =
    let same = seam buf c in
    record {
      left = d.left;
      behind = d.behind;
      result = step ∙ d.result ∙ ap (λ s. (ok (take (i + 4) s, d.left), d.behind)) same;
      nothing_lost = d.nothing_lost ∙ ap (drop (i + 4)) same;
      writes = record {
        sent = d.writes.sent;
        room = d.writes.room;
        still_open = d.writes.still_open;
        write_deadline = d.writes.write_deadline;
      };
    }

-- The round in which the delimiter is complete.
last_round :
    (fuel : ℕ) (armed : Bool) (buf : List ℕ) (i : ℕ) (c : Conn)
    → read_headers (suc fuel) armed buf c
      ≡ (ok (take (i + 4) (buf ++ chunk c), drop (i + 4) (buf ++ chunk c)), after_round armed c)
    → i + 4 ≤ length (buf ++ chunk c)
    → Delivered (suc fuel) armed buf i c
last_round fuel armed buf i c step inside =
    let k = next_cut c.cuts 1024 in
    let now = buf ++ chunk c in
    let same = seam buf c in
    record {
      left = drop (i + 4) now;
      behind = after_round armed c;
      result =
          step
          ∙ ap (λ s. (ok (s, drop (i + 4) now), after_round armed c))
              (sym (take-append_le (i + 4) now (drop k c.input) inside) ∙ ap (take (i + 4)) same);
      nothing_lost =
          sym (drop-append_le (i + 4) now (drop k c.input) inside) ∙ ap (drop (i + 4)) same;
      writes = record { sent = refl; room = refl; still_open = refl; write_deadline = refl };
    }

-- The loop ends, with the header up to the delimiter and what was read behind it, however the reads
-- are cut, with a round for each byte of the input and one more. The connection is open, the
-- delimiter is in what is still to come, with less than 31,742 bytes before it, and not complete in
-- what was read before.
pub read_headers-Delivered :
    (fuel : ℕ) (armed : Bool) (buf : List ℕ) (i : ℕ) (c : Conn)
    → c.is_closed ≡ false
    → length c.input < fuel
    → index_of delimiter (buf ++ c.input) ≡ some i
    → index_of delimiter buf ≡ none
    → i + 1027 ≤ max_http_header_size
    → Delivered fuel armed buf i c
read_headers-Delivered zero armed buf i c open' enough whole fresh small = absurd (omega arith)
read_headers-Delivered (suc fuel) armed buf i c open' enough whole fresh small =
    let k = next_cut c.cuts 1024 in
    let now = buf ++ chunk c in
    let later = ends_later buf c.input i whole fresh in
    let some' = input_left buf c.input i whole fresh in
    let bounds = next_cut_bounds c.cuts 1024 (omega arith) in
    let len = length-append buf (chunk c) in
    let size = length-take k c.input in
    let step = round fuel armed buf c open' some' (omega (arith, later, bounds, len, size)) in
    let same = seam buf c in
    let found = ap (index_of delimiter) same ∙ whole in
    elim (Option-cases (index_of delimiter now)) [
      | inl none' ↦
          (let ih =
              read_headers-Delivered fuel armed now i (after_round armed c) open'
                (omega (arith, length-drop k c.input, bounds)) found none' small in
            later_round fuel armed buf i c
              (step
                ∙ ap (λ o. header_or (read_headers fuel armed now) now o (after_round armed c))
                    none')
              ih)
      | inr (j, at) ↦
          (let place : j ≡ i =
              ground (arith, index_of-append delimiter now (drop k c.input) j at) in
            let at' = at ∙ ap some place in
            last_round fuel armed buf i c
              (step
                ∙ ap (λ o. header_or (read_headers fuel armed now) now o (after_round armed c)) at')
              (index_of-inside delimiter now i at'))
    ]
