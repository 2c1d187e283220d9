-- ===== src/Proxy.antt =====
-- proxy/proxy_type.go and proxy/proxy_config.go: the kinds of proxies, and their configurations.
pub mod Validity
pub mod Picker
mod Tests
use Prim.Native.String.{String}
use mathlib.Core.Option
use deskaone_sdk.Shared.{ℕ, zero, suc, ◌+◌, Bool, true, false, ◌&&◌, ◌||◌, not}
use deskaone_sdk.Shared.{Option, none, some, List, [], ◌∷◌, ◌++◌, Result, ok, err}
use deskaone_sdk.Shared.{ltb, leb, if◌then◌else◌}
use deskaone_sdk.Shared.Int.{ℤ, pos, negsuc, pos_part, ltb_ℤ}
use deskaone_sdk.Shared.Text.{
  codes, text_eq, trim_space, to_lower, is_empty_text, itoa, contains_byte,
}

-- A `ProxyType` is a string: `unknown` stands for those that no constant names.
pub data ProxyType : Type 0 where
  http https socks4 socks5 : ProxyType
  unknown : List ℕ → ProxyType

pub type_text : ProxyType → List ℕ
type_text http = codes "http"
type_text https = codes "https"
type_text socks4 = codes "socks4"
type_text socks5 = codes "socks5"
type_text (unknown s) = s

pub type_is_valid : ProxyType → Bool
type_is_valid http = true
type_is_valid https = true
type_is_valid socks4 = true
type_is_valid socks5 = true
type_is_valid (unknown s) = false

abbrev pub ConfigError : Type 0
ConfigError = List ℕ

-- `ProxyTypeFromString`; its error carries the text that was given.
pub type_of_lower : List ℕ → Option ProxyType
type_of_lower s =
    if text_eq s (codes "http")
    then some http
    else if text_eq s (codes "https")
    then some https
    else if text_eq s (codes "s4") || (text_eq s (codes "sock4") || text_eq s (codes "socks4"))
    then some socks4
    else if text_eq s (codes "s5") || (text_eq s (codes "sock5") || text_eq s (codes "socks5"))
    then some socks5
    else none

pub type_from_text : List ℕ → Option ProxyType
type_from_text s = type_of_lower (to_lower (trim_space s))

pub record ProxyConfig : Type 0 where
  pub kind : ProxyType
  pub host : List ℕ
  pub port : ℤ
  pub username : Option (List ℕ)
  pub password : Option (List ℕ)

-- `port <= 0 || port > 65535`.
abbrev pub bad_port : ℤ → Bool
bad_port port = not (ltb_ℤ (pos 0) port) || ltb_ℤ (pos 65535) port

abbrev pub is_blank : List ℕ → Bool
is_blank s = is_empty_text (trim_space s)

-- The last two tests of IsValid: both of user name and password, or neither, and not blank.
pub credentials_are_valid : Option (List ℕ) → Option (List ℕ) → Bool
credentials_are_valid none none = true
credentials_are_valid (some user) none = false
credentials_are_valid none (some word) = false
credentials_are_valid (some user) (some word) = not (is_blank user || is_blank word)

pub is_valid : ProxyConfig → Bool
is_valid c =
    if not (type_is_valid c.kind)
    then false
    else if is_blank c.host
    then false
    else if bad_port c.port
    then false
    else credentials_are_valid c.username c.password

pub new_proxy_config :
    ProxyType → List ℕ → ℤ → Option (List ℕ) → Option (List ℕ) → Option ProxyConfig
new_proxy_config kind host port username password =
    let config : ProxyConfig = record {
      kind = kind;
      host = trim_space host;
      port = port;
      username = Option.map trim_space username;
      password = Option.map trim_space password;
    } in
    if not (is_valid config) then none else some config

-- `strconv.Itoa`.
abbrev pub itoa_int : ℤ → List ℕ
itoa_int (pos n) = itoa n
itoa_int (negsuc n) = b'-' ∷ itoa (n + 1)

-- `net.JoinHostPort`: a host with a colon is set in brackets.
unfoldable pub join_host_port : List ℕ → List ℕ → List ℕ
join_host_port host port =
    if contains_byte b':' host then b'[' ∷ host ++ (b']' ∷ b':' ∷ port) else host ++ (b':' ∷ port)

pub address : ProxyConfig → List ℕ
address c = join_host_port c.host (itoa_int c.port)

-- The part of a printed configuration before the address.
pub masked_credentials : Option (List ℕ) → Option (List ℕ) → List ℕ
masked_credentials (some user) (some word) = user ++ codes ":***@"
masked_credentials none word = []
masked_credentials (some user) none = []

pub url_credentials : Option (List ℕ) → Option (List ℕ) → List ℕ
url_credentials (some user) (some word) = user ++ (b':' ∷ word ++ (b'@' ∷ []))
url_credentials none word = []
url_credentials (some user) none = []

-- `String`, for logs.
pub masked_text : ProxyConfig → List ℕ
masked_text c =
    type_text c.kind ++ (codes "://" ++ (masked_credentials c.username c.password ++ address c))

-- `URLString`.
pub url_text : ProxyConfig → List ℕ
url_text c =
    type_text c.kind ++ (codes "://" ++ (url_credentials c.username c.password ++ address c))
