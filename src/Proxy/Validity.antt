-- ===== src/Proxy/Validity.antt =====
-- Which configurations are valid, and what the constructor makes.
use mathlib.Core.Option
use deskaone_sdk.Shared.{◌∷◌, ℕ, ◌≡◌, ◌≢◌, ◌↔◌, ◌⊎◌, refl, ap, ◌∙◌, arith, sym, ◌++◌, if◌then◌else◌}
use deskaone_sdk.Shared.{true, false, not, Option, none, some, List, []}
use deskaone_sdk.Shared.Int.{ℤ, pos, ◌≤ℤ◌}
use deskaone_sdk.Shared.Text.{trim_space, is_empty_text, codes}
use deskaone_sdk.Proxy.{ProxyType, http, https, socks4, socks5, unknown, ProxyConfig}
use deskaone_sdk.Proxy.{is_valid, new_proxy_config, credentials_are_valid, type_is_valid}
use deskaone_sdk.Proxy.{is_blank, bad_port, type_text}
use deskaone_sdk.Proxy.{masked_text, masked_credentials, address}

-- A kind that a constant names.
abbrev pub IsKnown : ProxyType → Type 0
IsKnown kind = (kind ≡ http) ⊎ ((kind ≡ https) ⊎ ((kind ≡ socks4) ⊎ (kind ≡ socks5)))

-- Both of user name and password, none of them blank, or neither.
abbrev pub Credentials : Option (List ℕ) → Option (List ℕ) → Type 0
Credentials none none = Unit {0}
Credentials (some user) (some word) = (trim_space user ≢ []) × (trim_space word ≢ [])
Credentials none (some word) = ⊥
Credentials (some user) none = ⊥

-- The rules of IsValid: the kind is one of the four, there is a host and a port from 1 to 65535, and a
-- user name comes with a password, for every kind.
pub record IsComplete (c : ProxyConfig) : Type 0 where
  pub known : IsKnown c.kind
  pub has_host : trim_space c.host ≢ []
  pub above : pos 1 ≤ℤ c.port
  pub below : c.port ≤ℤ pos 65535
  pub credentials : Credentials c.username c.password

blank : (t : List ℕ) → (is_empty_text t ≡ true) ↔ (t ≡ [])
blank [] = ground arith
blank (b ∷ t) = ground arith

is_blank_iff : (s : List ℕ) → (is_blank s ≡ true) ↔ (trim_space s ≡ [])
is_blank_iff s = blank (trim_space s)

credentials_iff :
    (user word : Option (List ℕ)) → (credentials_are_valid user word ≡ true) ↔ Credentials user word
unfolding credentials_are_valid
credentials_iff none none = ground arith
credentials_iff none (some w) = ground arith
credentials_iff (some u) none = ground arith
credentials_iff (some u) (some w) = ground (arith, is_blank_iff u, is_blank_iff w)

type_is_valid_iff : (kind : ProxyType) → (type_is_valid kind ≡ true) ↔ IsKnown kind
unfolding type_is_valid
type_is_valid_iff http = ground arith
type_is_valid_iff https = ground arith
type_is_valid_iff socks4 = ground arith
type_is_valid_iff socks5 = ground arith
type_is_valid_iff (unknown s) = ground arith

bad_port_iff : (port : ℤ) → (bad_port port ≡ false) ↔ ((pos 1 ≤ℤ port) × (port ≤ℤ pos 65535))
bad_port_iff port = ground arith

-- The four tests of IsValid.
tests :
    (c : ProxyConfig)
    → is_valid c ≡ true
    → (type_is_valid c.kind ≡ true)
      × (is_blank c.host ≡ false)
      × (bad_port c.port ≡ false)
      × (credentials_are_valid c.username c.password ≡ true)
unfolding is_valid
tests c h = ground arith

complete : (c : ProxyConfig) → is_valid c ≡ true → IsComplete c
complete c h =
    let (known, filled, inside, both) = tests c h in
    let (above, below) = (bad_port_iff c.port).0 inside in
    record {
      known = (type_is_valid_iff c.kind).0 known;
      has_host = ground (arith, is_blank_iff c.host);
      above = above;
      below = below;
      credentials = (credentials_iff c.username c.password).0 both;
    }

accepted : (c : ProxyConfig) → IsComplete c → is_valid c ≡ true
unfolding is_valid
accepted c u =
    let filled : is_blank c.host ≡ false = ground (arith, is_blank_iff c.host) in
    rw ((type_is_valid_iff c.kind).1 u.known, filled, (bad_port_iff c.port).1 (u.above, u.below))
      ((credentials_iff c.username c.password).1 u.credentials)

-- IsValid accepts exactly the configurations with a known kind, a host that is not blank, a port from
-- 1 to 65535, and both of user name and password, neither of them blank, or none of the two. So no kind
-- may have a user name alone, socks4 included.
pub is_valid_iff : (c : ProxyConfig) → (is_valid c ≡ true) ↔ IsComplete c
unfolding is_valid
is_valid_iff c = (λ h. complete c h, λ u. accepted c u)

accepted_config :
    (made c : ProxyConfig)
    → (if not (is_valid made) then none else some made) ≡ some c
    → IsComplete c × (made ≡ c)
accepted_config made c h =
    let both : (is_valid made ≡ true) × (made ≡ c) = ground arith in
    (complete c (ap is_valid (sym both.1) ∙ both.0), both.1)

-- The constructor returns a configuration only if IsValid's rules hold of it, and then with the kind and port that
-- were given, and with host and credentials trimmed.
pub new_proxy_config-IsComplete :
    (kind : ProxyType) (host : List ℕ) (port : ℤ) (user word : Option (List ℕ)) (c : ProxyConfig)
    → new_proxy_config kind host port user word ≡ some c
    → IsComplete c
      × (c.kind ≡ kind)
      × (c.port ≡ port)
      × (c.host ≡ trim_space host)
      × (c.username ≡ Option.map trim_space user)
      × (c.password ≡ Option.map trim_space word)
unfolding new_proxy_config
new_proxy_config-IsComplete kind host port user word c h =
    let made : ProxyConfig = record {
      kind = kind;
      host = trim_space host;
      port = port;
      username = Option.map trim_space user;
      password = Option.map trim_space word;
    } in
    let (valid, same) = accepted_config made c h in
    (
      valid,
      sym (ap (λ (d : ProxyConfig). d.kind) same),
      sym (ap (λ (d : ProxyConfig). d.port) same),
      sym (ap (λ (d : ProxyConfig). d.host) same),
      sym (ap (λ (d : ProxyConfig). d.username) same),
      sym (ap (λ (d : ProxyConfig). d.password) same),
    )

same_credentials :
    (user : Option (List ℕ)) (w1 w2 : List ℕ)
    → masked_credentials user (some w1) ≡ masked_credentials user (some w2)
unfolding masked_credentials
same_credentials none w1 w2 = refl
same_credentials (some u) w1 w2 = refl

-- What String prints tells nothing of the password: two configurations that differ in the password
-- alone print the same.
pub masked_text-password :
    (c : ProxyConfig) (w1 w2 : List ℕ)
    → masked_text (record c { password = some w1 }) ≡ masked_text (record c { password = some w2 })
unfolding masked_text address
masked_text-password c w1 w2 =
    ap (λ k. type_text c.kind ++ (codes "://" ++ (k ++ address c)))
      (same_credentials c.username w1 w2)
