-- ===== src/Wire/Laws.antt =====
-- What the reads and writes of a connection do to its bytes.
use deskaone_sdk.Shared.{ℕ, ◌-◌, ◌≤◌, ◌<◌, ◌≡◌, ap, ap₂, append_assoc, ◌∙◌, false, List, [], ◌++◌}
use deskaone_sdk.Shared.{ok, err, length, take, drop, length-append, take_at, drop_at, arith}
use deskaone_sdk.Wire.{Conn, read_full, write, short_read}

-- A connection behind the sending of `out`, with `rest` still to come.
abbrev pub advance : List ℕ → List ℕ → Conn → Conn
advance out rest c = record c { input = rest; sent = c.sent ++ out; room = c.room - length out }

pub advance-advance :
    (a b q rest : List ℕ) (c : Conn) → advance b rest (advance a q c) ≡ advance (a ++ b) rest c
advance-advance a b q rest c =
    ap₂ (λ s r. record c { input = rest; sent = s; room = r }) (append_assoc c.sent a b)
      (omega (arith, length-append a b))

pub read_full_prefix :
    (chunk rest : List ℕ) (n : ℕ) (c : Conn)
    → c.is_closed ≡ false
    → c.input ≡ chunk ++ rest
    → length chunk ≡ n
    → read_full n c ≡ (ok chunk, record c { input = rest })
unfolding read_full
read_full_prefix chunk rest n c open' e len = ground (
  arith,
  ap (λ (k : List ℕ). length k) e,
  length-append chunk rest,
  ap (take n) e ∙ take_at n chunk rest len,
  ap (drop n) e ∙ drop_at n chunk rest len,
)

pub read_full_short :
    (n : ℕ) (c : Conn)
    → c.is_closed ≡ false
    → length c.input < n
    → read_full n c ≡ (err (short_read c.input c.at_end), record c { input = [] })
unfolding read_full
read_full_short n c open' h = ground arith

pub write_fits :
    (b : List ℕ) (c : Conn)
    → c.is_closed ≡ false
    → length b ≤ c.room
    → write b c ≡ (ok (length b), record c { sent = c.sent ++ b; room = c.room - length b })
unfolding write
write_fits b c open' h = ground arith
