-- ===== src/Handler/Socks4/Connect.antt =====
-- What a SOCKS4a proxy reads in the request, and the handshake with a proxy that grants it.
use mathlib.Core.Option
use deskaone_sdk.Shared.{ℕ, zero, suc, ◌-◌, ◌^◌, ◌≤◌, ◌<◌, ◌≡◌, ◌≢◌, refl, ap, arith}
use deskaone_sdk.Shared.{
  Bool, true, false, ◌==◌, if◌then◌else◌, Option, none, some, List, [], ◌∷◌, ◌++◌, ok,
}
use deskaone_sdk.Shared.{length, take, drop}
use deskaone_sdk.Shared.Int.{ℤ, pos, ◌≤ℤ◌, to_word}
use deskaone_sdk.Shared.Bytes.{be_value}
use deskaone_sdk.Shared.Text.{trim_space, is_empty_text, is_empty_text-nonempty, contains_byte}
use deskaone_sdk.Wire.{Conn}
use deskaone_sdk.Wire.Laws.{advance, read_full_prefix, write_fits}
use deskaone_sdk.Proxy.{ProxyConfig, bad_port}
use deskaone_sdk.Handler.{on_connection}
use deskaone_sdk.Handler.Socks4.{connect_request, destination, read_reply, user_id}
use deskaone_sdk.Handler.Socks4.{handshake, socks4_handler_conn}

-- A text up to its null byte, and what follows.
pub until_null : List ℕ → Option (List ℕ × List ℕ)
until_null [] = none
until_null (zero ∷ s) = some ([], s)
until_null (suc b ∷ s) = Option.map (λ (t, rest). (suc b ∷ t, rest)) (until_null s)

-- A request as the SOCKS4a protocol describes it: a name follows the user where the address is
-- 0.0.0.x with x not 0.
pub record Request : Type 0 where
  pub port : ℕ
  pub address : List ℕ
  pub user : List ℕ
  pub name : Option (List ℕ)

abbrev pub names_host : List ℕ → Bool
names_host (zero ∷ zero ∷ zero ∷ suc x ∷ []) = true
names_host _ = false

pub end_of_request : ℕ → List ℕ → List ℕ → Bool → List ℕ → Option Request
end_of_request port address user false [] =
    some (record { port = port; address = address; user = user; name = none })
end_of_request port address user false (b ∷ s) = none
end_of_request port address user true s = Option.bind (until_null s) λ (name, rest).
    (if is_empty_text rest
      then some (record { port = port; address = address; user = user; name = some name })
      else none)

pub parse_request : List ℕ → Option Request
parse_request s =
    if be_value (take 2 s) == 0x0401
    then (Option.bind (until_null (drop 8 s)) λ (user, rest).
        end_of_request (be_value (take 2 (drop 2 s))) (take 4 (drop 4 s)) user
          (names_host (take 4 (drop 4 s))) rest)
    else none

until_null-append :
    (s rest : List ℕ) → contains_byte 0 s ≡ false → until_null (s ++ (0 ∷ rest)) ≡ some (s, rest)
unfolding until_null contains_byte
until_null-append [] rest h = refl
until_null-append (zero ∷ s) rest h = ground arith
until_null-append (suc b ∷ s) rest h =
    ap (Option.map (λ (t, r). (suc b ∷ t, r))) (until_null-append s rest (ground arith))

-- The address that a request carries.
abbrev pub address_of : Option (List ℕ) → List ℕ
address_of none = 0 ∷ 0 ∷ 0 ∷ 1 ∷ []
address_of (some ip4) = ip4

abbrev pub name_of : Option (List ℕ) → List ℕ → Option (List ℕ)
name_of none host = some host
name_of (some ip4) host = none

-- Four bytes that are not an address 0.0.0.x, which a SOCKS4a proxy takes for a name's sign.
abbrev pub IsPlain : Option (List ℕ) → Type 0
IsPlain none = Unit {0}
IsPlain (some ip4) = (length ip4 ≡ 4) × (names_host ip4 ≡ false)

abbrev read_as : ℕ → List ℕ → List ℕ → Option (List ℕ) → Option Request
read_as port address user name =
    some (record { port = port; address = address; user = user; name = name })

-- A proxy that follows SOCKS4a reads in the request exactly the port, the address or the name, and
-- the user id that were given: no text can be taken for the end of another. The texts hold no null
-- byte, the port fits 16 bits, and an address is not of the form 0.0.0.x.
pub parse_request-connect_request :
    (ip4 : Option (List ℕ)) (user host : List ℕ) (port : ℕ)
    → contains_byte 0 user ≡ false
    → contains_byte 0 host ≡ false
    → port < 2 ^ 16
    → IsPlain ip4
    → parse_request (connect_request ip4 user host (pos port))
      ≡ some
          (record { port = port; address = address_of ip4; user = user; name = name_of ip4 host })
unfolding parse_request connect_request destination end_of_request to_word Option.bind
parse_request-connect_request none user host port hu hh hp plain =
    rw (until_null-append user (host ++ (0 ∷ [])) hu) (
      rw (until_null-append host [] hh)
        (ap (λ p. read_as p (0 ∷ 0 ∷ 0 ∷ 1 ∷ []) user (some host)) (omega arith)))
parse_request-connect_request (some (a ∷ b ∷ c ∷ d ∷ [])) user host port hu hh hp plain =
    rw (until_null-append user [] hu)
      (rw plain.1 (ap (λ p. read_as p (a ∷ b ∷ c ∷ d ∷ []) user none) (omega arith)))
parse_request-connect_request (some []) user host port hu hh hp plain = absurd (omega arith)
parse_request-connect_request (some (a ∷ [])) user host port hu hh hp plain = absurd (omega arith)
parse_request-connect_request (some (a ∷ b ∷ [])) user host port hu hh hp plain =
    absurd (omega arith)
parse_request-connect_request (some (a ∷ b ∷ c ∷ [])) user host port hu hh hp plain =
    absurd (omega arith)
parse_request-connect_request (some (a ∷ b ∷ c ∷ d ∷ e ∷ s)) user host port hu hh hp plain =
    absurd (omega arith)

-- Against a proxy that grants the request, the handler succeeds, having sent the request for the
-- trimmed host and the port, and takes exactly the eight bytes of the answer from the input. The
-- host is not blank, neither it nor the user holds a null byte, and the port is from 1 to 65535.
pub socks4_handler_conn-granted :
    (to_ip4 : List ℕ → Option (List ℕ)) (config : ProxyConfig) (host : List ℕ) (port : ℤ)
    (ignored rest : List ℕ) (c : Conn)
    → c.is_closed ≡ false
    → trim_space host ≢ []
    → pos 1 ≤ℤ port
    → port ≤ℤ pos 65535
    → contains_byte 0 (user_id config.username) ≡ false
    → contains_byte 0 (trim_space host) ≡ false
    → length (
        connect_request (to_ip4 (trim_space host)) (user_id config.username) (trim_space host) port)
      ≤ c.room
    → length ignored ≡ 6
    → c.input ≡ 0x00 ∷ 0x5A ∷ ignored ++ rest
    → socks4_handler_conn to_ip4 (some c) (some config) host port ≡ (
      ok tt,
      some (
          advance
            (connect_request
              (to_ip4 (trim_space host))
              (user_id config.username)
              (trim_space host)
              port)
            rest
            c),
    )
unfolding socks4_handler_conn on_connection handshake read_reply
socks4_handler_conn-granted to_ip4 config host port ignored rest c open' named low high hu hh room
      six e =
    let request =
      connect_request (to_ip4 (trim_space host)) (user_id config.username) (trim_space host) port in
    let c1 = record c { sent = c.sent ++ request; room = c.room - length request } in
    let wanted : bad_port port ≡ false = ground arith in
    rw (is_empty_text-nonempty (trim_space host) named, wanted, hu, hh)
      (rw (write_fits request c open' room)
        (rw (read_full_prefix (0x00 ∷ 0x5A ∷ ignored) rest 8 c1 open' e (omega arith)) refl))
