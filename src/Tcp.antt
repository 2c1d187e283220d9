-- ===== src/Tcp.antt =====
-- network/tcp_client.go: a connection with the flag that says that it is given up. A client that a
-- constructor returns has a connection, so `conn` is no pointer here, nor is the client.
pub mod Writes
pub mod Failures
mod Tests
use deskaone_sdk.Shared.{ℕ, zero, suc, Bool, true, false, not, Option, none, some, List, [], ◌∷◌}
use deskaone_sdk.Shared.{Result, ok, err, length, drop, replicate, ◌==◌, leb, if◌then◌else◌, ltb}
use deskaone_sdk.Shared.Int.{ℤ, pos, pos_part, ltb_ℤ}
use deskaone_sdk.Wire.{Conn, IoError, Exec, read_some, read_full, set_read_deadline}
use deskaone_sdk.Wire

pub data TcpError : Type 0 where
  client_closed short_write unfinished : TcpError
  io_error : IoError → TcpError

pub record TcpClient : Type 0 where
  pub conn : Conn
  pub has_timeout : Bool
  pub is_closed : Bool

-- `Close`; closing a connection is taken to succeed.
pub close : TcpClient → TcpClient
close c = if c.is_closed then c else record c { is_closed = true; conn = Wire.close c.conn }

-- The result of a call on the connection: an error gives the client up.
abbrev pub checked :
    {A : Type 0} → TcpClient → Result IoError A × Conn → Result TcpError A × TcpClient
checked c (ok a, d) = (ok a, record c { conn = d })
checked c (err e, d) = (err (io_error e), record c { conn = d; is_closed = true })

unfoldable pub write : List ℕ → TcpClient → Result TcpError ℕ × TcpClient
write b c = if c.is_closed then (err client_closed, c) else checked c (Wire.write b c.conn)

-- What the loop of `WriteFull` does with the result of one write, and the rest of the loop.
abbrev pub write_more :
    (ℕ → TcpClient → Result TcpError (Unit {0}) × TcpClient)
    → Result TcpError ℕ × TcpClient
    → Result TcpError (Unit {0}) × TcpClient
write_more rest (err e, c) = (err e, c)
write_more rest (ok zero, c) = (err short_write, c)
write_more rest (ok (suc n), c) = rest (suc n) c

-- A round writes at least one byte, so a round for each byte and one more end the loop.
unfoldable pub write_loop : ℕ → List ℕ → TcpClient → Result TcpError (Unit {0}) × TcpClient
write_loop zero b c = (err unfinished, c)
write_loop (suc fuel) [] c = (ok tt, c)
write_loop (suc fuel) (x ∷ b) c =
    write_more (λ n d. write_loop fuel (drop n (x ∷ b)) d) (write (x ∷ b) c)

unfoldable pub write_full : List ℕ → TcpClient → Result TcpError (Unit {0}) × TcpClient
write_full b c = write_loop (suc (length b)) b c

-- `Read` into a buffer of `n` bytes.
pub read : ℕ → TcpClient → Result TcpError (List ℕ) × TcpClient
read n c = if c.is_closed then (err client_closed, c) else checked c (read_some n c.conn)

-- The deadlines round the read of `ReadFull`.
abbrev pub arm_read : Bool → Conn → Conn
arm_read true c = set_read_deadline true c
arm_read false c = c

abbrev pub disarm_read :
    {A : Type 0} → Bool → Result TcpError A × TcpClient → Result TcpError A × TcpClient
disarm_read true (r, c) = (r, record c { conn = set_read_deadline false c.conn })
disarm_read false (r, c) = (r, c)

pub read_exactly : ℤ → TcpClient → Result TcpError (List ℕ) × TcpClient
read_exactly n c =
    if c.is_closed
    then (err client_closed, c)
    else if not (ltb_ℤ (pos 0) n)
    then (ok [], c)
    else disarm_read c.has_timeout
        (checked c (read_full (pos_part n) (arm_read c.has_timeout c.conn)))
