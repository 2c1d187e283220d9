-- ===== src/Handler/Socks5/Requests.antt =====
-- The three exchanges with a proxy that answers as the protocol says.
use deskaone_sdk.Shared.{ℕ, ◌+◌, ◌-◌, ◌%◌, ◌≤◌, ◌≡◌, refl, arith}
use deskaone_sdk.Shared.{false, ◌⊎◌, some, List, [], ◌∷◌, ◌++◌, ok}
use deskaone_sdk.Shared.{length}
use deskaone_sdk.Wire.{Conn, read_full}
use deskaone_sdk.Wire.Laws.{advance, read_full_prefix, write_fits}
use deskaone_sdk.Handler.Socks5.{negotiate, authenticate, auth_request, address_length, read_reply}

abbrev pub greeting : List ℕ → List ℕ
greeting offered = 0x05 ∷ (length offered % 256) ∷ offered

pub negotiate-granted :
    (offered rest : List ℕ) (method : ℕ) (c : Conn)
    → c.is_closed ≡ false
    → length (greeting offered) ≤ c.room
    → (method ≡ 0) ⊎ (method ≡ 2)
    → c.input ≡ 0x05 ∷ method ∷ rest
    → negotiate offered c ≡ (ok method, advance (greeting offered) rest c)
unfolding negotiate
negotiate-granted offered rest method c open' room known e =
    let c1 = record c {
      sent = c.sent ++ greeting offered;
      room = c.room - length (greeting offered);
    } in
    rw (write_fits (greeting offered) c open' room)
      (rw (read_full_prefix (0x05 ∷ method ∷ []) rest 2 c1 open' e refl) (ground arith))

pub authenticate-granted :
    (user word rest : List ℕ) (c : Conn)
    → c.is_closed ≡ false
    → length (auth_request user word) ≤ c.room
    → c.input ≡ 0x01 ∷ 0x00 ∷ rest
    → authenticate (some (user, word)) c ≡ (ok tt, advance (auth_request user word) rest c)
unfolding authenticate
authenticate-granted user word rest c open' room e =
    let out = auth_request user word in
    let c1 = record c { sent = c.sent ++ out; room = c.room - length out } in
    rw (write_fits out c open' room)
      (rw (read_full_prefix (0x01 ∷ 0x00 ∷ []) rest 2 c1 open' e refl) refl)

-- The bound address and port of a reply, behind the byte that gives their type.
pub data Bound : ℕ → List ℕ → Type 0 where
  ipv4 : (b : List ℕ) → length b ≡ 6 → Bound 0x01 b
  ipv6 : (b : List ℕ) → length b ≡ 18 → Bound 0x04 b
  domain : (n : ℕ) (b : List ℕ) → length b ≡ n + 2 → Bound 0x03 (n ∷ b)

module _ (bound rest : List ℕ) (c : Conn) (open' : c.is_closed ≡ false) where
  -- The first four bytes of a reply that grants the request.
  head :
      (kind : ℕ)
      → c.input ≡ 0x05 ∷ 0x00 ∷ 0x00 ∷ kind ∷ bound ++ rest
      → read_full 4 c ≡ (ok (0x05 ∷ 0x00 ∷ 0x00 ∷ kind ∷ []), record c { input = bound ++ rest })
  head kind e = read_full_prefix (0x05 ∷ 0x00 ∷ 0x00 ∷ kind ∷ []) (bound ++ rest) 4 c open' e refl

  tail :
      (n : ℕ)
      → length bound ≡ n
      → read_full n (record c { input = bound ++ rest }) ≡ (ok bound, record c { input = rest })
  tail n len = read_full_prefix bound rest n (record c { input = bound ++ rest }) open' refl len

-- A reply that grants the request is taken from the input to its end, whatever kind of address it
-- has.
pub read_reply-granted :
    (kind : ℕ) (bound rest : List ℕ) (c : Conn)
    → c.is_closed ≡ false
    → Bound kind bound
    → c.input ≡ 0x05 ∷ 0x00 ∷ 0x00 ∷ kind ∷ bound ++ rest
    → read_reply c ≡ (ok tt, record c { input = rest })
unfolding read_reply address_length
read_reply-granted kind bound rest c open' (ipv4 b len) e =
    rw (head b rest c open' kind e) (rw (tail b rest c open' 6 len) refl)
read_reply-granted kind bound rest c open' (ipv6 b len) e =
    rw (head b rest c open' kind e) (rw (tail b rest c open' 18 len) refl)
read_reply-granted kind bound rest c open' (domain n b len) e =
    let c1 = record c { input = bound ++ rest } in
    rw (head bound rest c open' kind e) (
      rw (read_full_prefix (n ∷ []) (b ++ rest) 1 c1 open' refl refl)
        (rw (tail b rest c open' (n + 2) len) refl))
