-- ===== src/Handler/Socks5/Connect.antt =====
-- The whole handshake, against a proxy that grants the request.
use mathlib.Core.Path.{subst}
use deskaone_sdk.Shared.{ℕ, ◌-◌, ◌≤◌, ◌≡◌, ◌≢◌, refl, ap, ◌∙◌, arith}
use deskaone_sdk.Shared.{
  false, ltb, ◌==◌, ◌⊎◌, inl, inr, Option, none, some, List, [], ◌∷◌, ◌++◌, ok,
}
use deskaone_sdk.Shared.{length, length-append, append-nil}
use deskaone_sdk.Shared.Int.{ℤ, pos, ◌≤ℤ◌}
use deskaone_sdk.Shared.Text.{trim_space, is_empty_text-nonempty}
use deskaone_sdk.Wire.{Conn}
use deskaone_sdk.Wire.Laws.{advance, advance-advance, write_fits}
use deskaone_sdk.Proxy.{ProxyConfig, bad_port}
use deskaone_sdk.Handler.{on_connection}
use deskaone_sdk.Handler.Socks5.{credentials, methods, handshake, socks5_handler_conn}
use deskaone_sdk.Handler.Socks5.{auth_request, authenticate_if, connect_request}
use deskaone_sdk.Handler.Socks5.Requests.{greeting, Bound}
use deskaone_sdk.Handler.Socks5.Requests.{
  negotiate-granted, authenticate-granted, read_reply-granted,
}

-- Credentials of at most 255 bytes each, or none.
abbrev pub Short : Option (List ℕ × List ℕ) → Type 0
Short none = Unit {0}
Short (some (user, word)) = (length user ≤ 255) × (length word ≤ 255)

abbrev pub offered : Option (List ℕ × List ℕ) → List ℕ
offered none = 0x00 ∷ []
offered (some (user, word)) = 0x00 ∷ 0x02 ∷ []

-- How a proxy authenticates: the method that it selects, what the client then sends, and what the
-- proxy answers to that.
pub data Auth (creds : Option (List ℕ × List ℕ)) : ℕ → List ℕ → List ℕ → Type 0 where
  open_proxy : Auth creds 0x00 [] []
  by_password :
      (user word : List ℕ) (sent : List ℕ)
      → creds ≡ some (user, word)
      → sent ≡ auth_request user word
      → Auth creds 0x02 sent (0x01 ∷ 0x00 ∷ [])

methods-offered :
    (creds : Option (List ℕ × List ℕ)) (c : Conn)
    → Short creds
    → methods creds c ≡ (ok (offered creds), c)
unfolding methods
methods-offered none c h = refl
methods-offered (some (user, word)) c h = ground arith

authenticate_if-granted :
    (creds : Option (List ℕ × List ℕ)) (method : ℕ) (sent answer rest : List ℕ) (c : Conn)
    → c.is_closed ≡ false
    → Auth creds method sent answer
    → length sent ≤ c.room
    → c.input ≡ answer ++ rest
    → authenticate_if (method == 0x02) creds c ≡ (ok tt, advance sent rest c)
unfolding authenticate_if
authenticate_if-granted creds method sent answer rest c open' open_proxy room e =
    ground (arith, append-nil c.sent)
authenticate_if-granted creds method sent answer rest c open' (by_password user word s known same)
      room e =
    rw (known, same)
      (authenticate-granted user word rest c open' (subst (λ k. length k ≤ c.room) same room) e)

selected :
    {creds : Option (List ℕ × List ℕ)} {method : ℕ} {sent answer : List ℕ}
    → Auth creds method sent answer
    → (method ≡ 0) ⊎ (method ≡ 2)
selected open_proxy = inl refl
selected (by_password user word s known same) = inr refl

-- What the client sends in a whole handshake.
abbrev pub transcript : Option (List ℕ × List ℕ) → List ℕ → List ℕ → ℤ → List ℕ
transcript creds auth host port = (greeting (offered creds) ++ auth) ++ connect_request host port

-- Against a proxy that selects a method the client can serve, accepts its credentials and grants the
-- request, the handler succeeds: the client has sent the greeting, the credentials where they were
-- asked for, and the request for the trimmed host and the port, and exactly the proxy's answers are
-- taken from the input, so that all that follows them is left for the user of the tunnel. The host
-- is not blank and has at most 255 bytes, as have the credentials, the port is from 1 to 65535.
pub socks5_handler_conn-granted :
    (config : ProxyConfig) (host : List ℕ) (port : ℤ) (method kind : ℕ)
    (auth answer bound rest : List ℕ) (c : Conn)
    → c.is_closed ≡ false
    → trim_space host ≢ []
    → length (trim_space host) ≤ 255
    → pos 1 ≤ℤ port
    → port ≤ℤ pos 65535
    → Short (credentials config)
    → Auth (credentials config) method auth answer
    → Bound kind bound
    → length (transcript (credentials config) auth (trim_space host) port) ≤ c.room
    → c.input ≡ 0x05 ∷ method ∷ answer ++ (0x05 ∷ 0x00 ∷ 0x00 ∷ kind ∷ bound ++ rest)
    → socks5_handler_conn (some c) (some config) host port
      ≡ (ok tt, some (advance (transcript (credentials config) auth (trim_space host) port) rest c))
unfolding socks5_handler_conn on_connection handshake
socks5_handler_conn-granted config host port method kind auth answer bound rest c open' named short
      low high sc a w room e =
    let creds = credentials config in
    let hello = greeting (offered creds) in
    let request = connect_request (trim_space host) port in
    let c1 = advance hello (answer ++ (0x05 ∷ 0x00 ∷ 0x00 ∷ kind ∷ bound ++ rest)) c in
    let c2 = advance auth (0x05 ∷ 0x00 ∷ 0x00 ∷ kind ∷ bound ++ rest) c1 in
    let c3 = record c2 { sent = c2.sent ++ request; room = c2.room - length request } in
    let size = length-append (hello ++ auth) request in
    let size' = length-append hello auth in
    let wanted : bad_port port ≡ false = ground arith in
    let fits : ltb 255 (length (trim_space host)) ≡ false = ground arith in
    let n1 =
      negotiate-granted (offered creds) _ method c open' (omega (arith, size, size')) (selected a)
        e in
    let n2 =
      authenticate_if-granted creds method auth answer _ c1 open' a (omega (arith, size, size'))
        refl in
    let n3 = write_fits request c2 open' (omega (arith, size, size')) in
    let n4 = read_reply-granted kind bound rest c3 open' w refl in
    let whole =
      ap (advance request rest) (advance-advance hello auth c1.input [] c)
      ∙ advance-advance (hello ++ auth) request [] rest c in
    rw (is_empty_text-nonempty (trim_space host) named, fits, wanted)
      (rw (methods-offered creds c sc)
        (rw n1 (rw n2 (rw n3 (rw n4 (ap (λ (d : Conn). (ok tt, some d)) whole))))))
