-- ===== src/Wire.antt =====
-- The standard library's connection as the network package uses it (net.Conn, io.ReadFull), and
-- functions that read and write one and may fail. The peer is the data of the connection: what it
-- sends, how it ends, how much it accepts.
pub mod Laws
use deskaone_sdk.Shared.{ℕ, zero, suc, ◌+◌, ◌-◌, min, Bool, true, false, List, [], ◌∷◌, ◌++◌}
use deskaone_sdk.Shared.{Result, ok, err, length, take, drop, leb, ltb, if◌then◌else◌}

pub data IoError : Type 0 where
  eof unexpected_eof timeout reset closed short_write : IoError

-- `input` is what the peer has still to send before the read error `at_end`; `cuts` are the sizes
-- in which single reads deliver it (one byte more each). Writes fail beyond `room` bytes. The flags
-- say whether a deadline is set.
pub record Conn : Type 0 where
  pub input : List ℕ
  pub cuts : List ℕ
  pub at_end : IoError
  pub sent : List ℕ
  pub room : ℕ
  pub read_deadline : Bool
  pub write_deadline : Bool
  pub is_closed : Bool

-- A function on a connection that returns a value or an error, and the connection either way.
abbrev pub Exec : Type 0 → Type 0 → Type 0
Exec E A = Conn → Result E A × Conn

abbrev pub after : {E A B : Type 0} → Result E A × Conn → (A → Exec E B) → Result E B × Conn
after (ok a, c) f = f a c
after (err e, c) f = (err e, c)

infixl 5 ◌>>=◌ ◌>>◌
abbrev pub ◌>>=◌ : {E A B : Type 0} → Exec E A → (A → Exec E B) → Exec E B
◌>>=◌ m f c = after (m c) f

abbrev pub ◌>>◌ : {E B : Type 0} → Exec E (Unit {0}) → Exec E B → Exec E B
m >> k = m >>= λ _. k

abbrev pub pure : {E A : Type 0} → A → Exec E A
pure a c = (ok a, c)

abbrev pub fail : {E A : Type 0} → E → Exec E A
fail e c = (err e, c)

-- `if bad { return err }`.
abbrev pub reject_if : {E : Type 0} → Bool → E → Exec E (Unit {0})
reject_if true e = fail e
reject_if false e = pure tt

abbrev pub modify : {E : Type 0} → (Conn → Conn) → Exec E (Unit {0})
modify f c = (ok tt, f c)

-- The error of an input or output call, wrapped as the caller returns it.
abbrev pub wrap_error : {E A : Type 0} → (IoError → E) → Result IoError A × Conn → Result E A × Conn
wrap_error w (ok a, c) = (ok a, c)
wrap_error w (err e, c) = (err (w e), c)

abbrev pub io : {E A : Type 0} → (IoError → E) → Exec IoError A → Exec E A
io w m c = wrap_error w (m c)

-- `io.ReadFull` on an input that ends early: a clean end in the middle of the read is unexpected.
abbrev pub short_read : List ℕ → IoError → IoError
short_read [] e = e
short_read (b ∷ bs) IoError.eof = unexpected_eof
short_read (b ∷ bs) e = e

-- `io.ReadFull(conn, buf)` with `len(buf) == n`.
unfoldable pub read_full : ℕ → Exec IoError (List ℕ)
read_full n c =
    if c.is_closed
    then (err closed, c)
    else if leb n (length c.input)
    then (ok (take n c.input), record c { input = drop n c.input })
    else (err (short_read c.input c.at_end), record c { input = [] })

abbrev pub next_cut : List ℕ → ℕ → ℕ
next_cut [] n = n
next_cut (cut ∷ cuts) n = min (suc cut) n

abbrev pub later_cuts : List ℕ → List ℕ
later_cuts [] = []
later_cuts (cut ∷ cuts) = cuts

abbrev pub is_empty : {A : Type 0} → List A → Bool
is_empty [] = true
is_empty (x ∷ xs) = false

-- `conn.Read(buf)` with `len(buf) == n > 0`: at least one byte, or the error at the end.
unfoldable pub read_some : ℕ → Exec IoError (List ℕ)
read_some n c =
    let k = next_cut c.cuts n in
    if c.is_closed
    then (err closed, c)
    else if is_empty c.input
    then (err c.at_end, c)
    else (ok (take k c.input), record c { input = drop k c.input; cuts = later_cuts c.cuts })

-- `conn.Write(b)`: all of `b`, whose length is returned, or an error behind the part that the peer took.
unfoldable pub write : List ℕ → Exec IoError ℕ
write b c =
    if c.is_closed
    then (err closed, c)
    else if leb (length b) c.room
    then (ok (length b), record c { sent = c.sent ++ b; room = c.room - length b })
    else (err reset, record c { sent = c.sent ++ take c.room b; room = 0 })

unfoldable pub close : Conn → Conn
close c = record c { is_closed = true }

-- `SetReadDeadline` and `SetWriteDeadline`: a time, or the zero time that clears it.
abbrev pub set_read_deadline : Bool → Conn → Conn
set_read_deadline armed c = record c { read_deadline = armed }

abbrev pub set_write_deadline : Bool → Conn → Conn
set_write_deadline armed c = record c { write_deadline = armed }
