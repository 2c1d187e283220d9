-- ===== src/Tcp/Writes.antt =====
-- WriteFull: it ends, and it sends all or gives the client up.
use deskaone_sdk.Shared.{
  ℕ, zero, suc, ◌-◌, ◌≤◌, ◌<◌, ◌≡◌, refl, ap, ◌∙◌, arith, true, false, Bool, ◌≢◌,
}
use deskaone_sdk.Shared.{
  ◌⊎◌, Result, inl, inr, List, [], ◌∷◌, ◌++◌, ok, err, length, take, drop, append-nil, drop-all,
}
use deskaone_sdk.Shared.{if◌then◌else◌}
use native.Mathlib.Decide.{dec_le}
use deskaone_sdk.Wire.{Conn, reset}
use deskaone_sdk.Wire
use deskaone_sdk.Wire.Laws.{write_fits}
use deskaone_sdk.Tcp.{
  TcpClient, TcpError, io_error, client_closed, checked, write_more, write, write_loop, write_full,
}

-- A client that can send.
pub record IsOpen (c : TcpClient) : Type 0 where
  pub client : c.is_closed ≡ false
  pub conn : c.conn.is_closed ≡ false

-- The client behind the sending of `b`.
abbrev pub sent : List ℕ → TcpClient → TcpClient
sent b c = record c {
  conn = record c.conn { sent = c.conn.sent ++ b; room = c.conn.room - length b };
}

-- The client whose peer took only a part of `b`.
abbrev pub broken : List ℕ → TcpClient → TcpClient
broken b c = record c {
  conn = record c.conn { sent = c.conn.sent ++ take c.conn.room b; room = 0 };
  is_closed = true;
}

write_fits_client :
    (b : List ℕ) (c : TcpClient)
    → IsOpen c
    → length b ≤ c.conn.room
    → write b c ≡ (ok (length b), sent b c)
unfolding write
write_fits_client b c o fits =
    ap (λ k. if k then (err client_closed, c) else checked c (Wire.write b c.conn)) o.client
    ∙ ap (checked c) (write_fits b c.conn o.conn fits)

write_over :
    (b : List ℕ) (c : TcpClient)
    → IsOpen c
    → c.conn.room < length b
    → write b c ≡ (err (io_error reset), broken b c)
unfolding write Wire.write
write_over b c o over = ground (arith, o.client, o.conn)

-- A write that fits, as the whole of WriteFull.
pub write_full-fits :
    (b : List ℕ) (c : TcpClient)
    → IsOpen c
    → length b ≤ c.conn.room
    → write_full b c ≡ (ok tt, sent b c)
unfolding write_full write_loop
write_full-fits [] c o fits = ground (arith, append-nil c.conn.sent)
write_full-fits (x ∷ b) c o fits =
    ap (write_more (λ n d. write_loop (length (x ∷ b)) (drop n (x ∷ b)) d))
      (write_fits_client (x ∷ b) c o fits)
    ∙ ap (λ l. write_loop (suc (length b)) l (sent (x ∷ b) c)) (drop-all (length b) b (omega arith))

-- On an open client WriteFull ends: it has sent all of `b` and the client stays open, or the peer
-- did not take all of it, the error is reported and the client is given up.
pub write_full-all_or_error :
    (b : List ℕ) (c : TcpClient)
    → IsOpen c
    → ((length b ≤ c.conn.room) × (write_full b c ≡ (ok tt, sent b c)))
      ⊎ ((c.conn.room < length b) × (write_full b c ≡ (err (io_error reset), broken b c)))
unfolding write_full write_loop
write_full-all_or_error [] c o = inl (omega arith, write_full-fits [] c o (omega arith))
write_full-all_or_error (x ∷ b) c o = elim (dec_le (length (x ∷ b)) c.conn.room) [
  | yes fits ↦ inl (fits, write_full-fits (x ∷ b) c o fits)
  | no over ↦ inr (
    omega arith,
    ap (write_more (λ n d. write_loop (length (x ∷ b)) (drop n (x ∷ b)) d))
        (write_over (x ∷ b) c o (omega arith)),
  )
]

write_input : (b : List ℕ) (c : TcpClient) → (write b c).1.conn.input ≡ c.conn.input
unfolding write Wire.write
write_input b c = ground arith

write_more_input :
    (rest : ℕ → TcpClient → Result TcpError (Unit {0}) × TcpClient)
    (r : Result TcpError ℕ × TcpClient) (input : List ℕ)
    → r.1.conn.input ≡ input
    → ((n : ℕ) (d : TcpClient) → (rest n d).1.conn.input ≡ d.conn.input)
    → (write_more rest r).1.conn.input ≡ input
write_more_input rest (err e, c) input h k = h
write_more_input rest (ok zero, c) input h k = h
write_more_input rest (ok (suc n), c) input h k = k (suc n) c ∙ h

write_loop_input :
    (fuel : ℕ) (b : List ℕ) (c : TcpClient) → (write_loop fuel b c).1.conn.input ≡ c.conn.input
unfolding write_loop
write_loop_input zero b c = refl
write_loop_input (suc fuel) [] c = refl
write_loop_input (suc fuel) (x ∷ b) c =
    write_more_input (λ n d. write_loop fuel (drop n (x ∷ b)) d) (write (x ∷ b) c) c.conn.input
      (write_input (x ∷ b) c) (λ n d. write_loop_input fuel (drop n (x ∷ b)) d)

-- Writing leaves what is still to be read.
pub write_full_input : (b : List ℕ) (c : TcpClient) → (write_full b c).1.conn.input ≡ c.conn.input
unfolding write_full
write_full_input b c = write_loop_input (suc (length b)) b c

-- A call that succeeds has left the client open.
abbrev pub Alive : {A : Type 0} → Result TcpError A × TcpClient → Type 0
Alive (ok a, c) = c.is_closed ≡ false
Alive (err e, c) = Unit {0}

Alive-checked :
    {A : Type 0} (c : TcpClient) (r : Result Wire.IoError A × Wire.Conn)
    → c.is_closed ≡ false
    → Alive (checked c r)
Alive-checked c (ok a, d) h = h
Alive-checked c (err e, d) h = tt

Alive-write : (b : List ℕ) (c : TcpClient) → Alive (write b c)
unfolding write
Alive-write b c = by_flag c.is_closed refl
  where
    by_flag :
        (closed : Bool)
        → c.is_closed ≡ closed
        → Alive (if closed then (err client_closed, c) else checked c (Wire.write b c.conn))
    by_flag true e = tt
    by_flag false e = Alive-checked c (Wire.write b c.conn) e

Alive-write_more :
    (rest : ℕ → TcpClient → Result TcpError (Unit {0}) × TcpClient)
    (r : Result TcpError ℕ × TcpClient)
    → Alive r
    → ((n : ℕ) (d : TcpClient) → d.is_closed ≡ false → Alive (rest n d))
    → Alive (write_more rest r)
Alive-write_more rest (err e, c) h k = tt
Alive-write_more rest (ok zero, c) h k = tt
Alive-write_more rest (ok (suc n), c) h k = k (suc n) c h

Alive-write_loop :
    (fuel : ℕ) (b : List ℕ) (c : TcpClient) → c.is_closed ≡ false → Alive (write_loop fuel b c)
unfolding write_loop
Alive-write_loop zero b c h = tt
Alive-write_loop (suc fuel) [] c h = h
Alive-write_loop (suc fuel) (x ∷ b) c h =
    Alive-write_more (λ n d. write_loop fuel (drop n (x ∷ b)) d) (write (x ∷ b) c)
      (Alive-write (x ∷ b) c) (λ n d. Alive-write_loop fuel (drop n (x ∷ b)) d)

-- WriteFull of at least one byte succeeds only on an open client, and leaves it open.
pub Alive-write_full : (b : List ℕ) (c : TcpClient) → b ≢ [] → Alive (write_full b c)
unfolding write_full write_loop
Alive-write_full [] c h = absurd (h refl)
Alive-write_full (x ∷ b) c h =
    Alive-write_more (λ n d. write_loop (suc (length b)) (drop n (x ∷ b)) d) (write (x ∷ b) c)
      (Alive-write (x ∷ b) c) (λ n d. Alive-write_loop (suc (length b)) (drop n (x ∷ b)) d)
