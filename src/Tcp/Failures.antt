-- ===== src/Tcp/Failures.antt =====
-- What closing does behind a call that failed.
use deskaone_sdk.Shared.{ℕ, ◌≡◌, refl, sym, ap, ◌∙◌, true, false, List, Result, ok, err}
use deskaone_sdk.Shared.{if◌then◌else◌, arith}
use deskaone_sdk.Tcp.{TcpClient, TcpError, write, close, checked, client_closed}
use deskaone_sdk.Wire.{read_some, is_empty}
use deskaone_sdk.Wire

-- Close closes the connection of an open client.
pub close_open : (c : TcpClient) → c.is_closed ≡ false → (close c).conn.is_closed ≡ true
unfolding close Wire.close
close_open c e = ground arith

-- An error of the connection gives the client up, and Close then does nothing.
close-checked :
    {A : Type 0} (c : TcpClient) (p : Result Wire.IoError A × Wire.Conn) (e : TcpError)
    → (checked c p).0 ≡ err e
    → close (checked c p).1 ≡ (checked c p).1
unfolding close
close-checked c (ok a, d) e h = absurd (ground arith)
close-checked c (err x, d) e h = refl

write_keeps : (b : List ℕ) (d : Wire.Conn) → (Wire.write b d).1.is_closed ≡ d.is_closed
unfolding Wire.write
write_keeps b d = ground arith

kept :
    {A : Type 0} (c : TcpClient) (p : Result Wire.IoError A × Wire.Conn)
    → (checked c p).1.conn.is_closed ≡ p.1.is_closed
kept c (ok a, d) = refl
kept c (err x, d) = refl

write_open :
    (c : TcpClient) (b : List ℕ) → c.is_closed ≡ false → write b c ≡ checked c (Wire.write b c.conn)
unfolding write
write_open c b e = ap (λ x. if x then (err client_closed, c) else checked c (Wire.write b c.conn)) e

-- Close closes the connection of a client that is open; but behind a write that has failed on it Close
-- leaves the connection open.
pub close_failed_write :
    (c : TcpClient) (b : List ℕ) (e : TcpError)
    → c.is_closed ≡ false
    → c.conn.is_closed ≡ false
    → (write b c).0 ≡ err e
    → ((close c).conn.is_closed ≡ true) × ((close (write b c).1).conn.is_closed ≡ false)
unfolding close Wire.close
close_failed_write c b e open' conn failed =
    let p = Wire.write b c.conn in
    let same = write_open c b open' in
    (
      ground arith,
      ap (λ q. (close q.1).conn.is_closed) same
          ∙ ap (λ d. d.conn.is_closed) (close-checked c p e (sym (ap (λ q. q.0) same) ∙ failed))
          ∙ kept c p
          ∙ write_keeps b c.conn
          ∙ conn,
    )
