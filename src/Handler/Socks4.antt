-- ===== src/Handler/Socks4.antt =====
-- network/handler/socks4_handler.go. `to_ip4` stands for `net.ParseIP(host).To4()`: the four bytes
-- of a host that is written as an IPv4 address.
pub mod Connect
mod Tests
use Prim.Native.String.{String}
use deskaone_sdk.Shared.{ℕ, ◌+◌, ◌%◌, ◌^◌, Bool, true, false, ◌&&◌, ◌||◌, not}
use deskaone_sdk.Shared.{Option, none, some, List, [], ◌∷◌, ◌++◌, length, get_or, ltb, ◌==◌}
use deskaone_sdk.Shared.{if◌then◌else◌, Result}
use deskaone_sdk.Shared.Int.{ℤ, pos, pos_part, to_word}
use deskaone_sdk.Shared.Bytes.{be_bytes}
use deskaone_sdk.Shared.Text.{trim_space, is_empty_text, contains_byte, codes, itoa}
use deskaone_sdk.Wire.{Conn, IoError, Exec, ◌>>=◌, ◌>>◌, pure, reject_if, io, read_full, write}
use deskaone_sdk.Proxy.{ProxyConfig, bad_port}
use deskaone_sdk.Handler.{on_connection, require}

pub data Socks4Error : Type 0 where
  nil_connection nil_config empty_host invalid_port user_has_null host_has_null : Socks4Error
  invalid_response_version : ℕ → Socks4Error
  connect_failed : List ℕ → Socks4Error
  io_error : IoError → Socks4Error

abbrev pub user_id : Option (List ℕ) → List ℕ
user_id none = []
user_id (some user) = user

-- What follows the port: the address and the user, or for SOCKS4a the address 0.0.0.1, the user and
-- the name.
pub destination : Option (List ℕ) → List ℕ → List ℕ → List ℕ
destination (some ip4) user host = ip4 ++ (user ++ (0x00 ∷ []))
destination none user host = 0x00 ∷ 0x00 ∷ 0x00 ∷ 0x01 ∷ user ++ (0x00 ∷ host ++ (0x00 ∷ []))

pub connect_request : Option (List ℕ) → List ℕ → List ℕ → ℤ → List ℕ
connect_request ip4 user host port =
    0x04 ∷ 0x01 ∷ be_bytes 2 (to_word (2 ^ 63) port % 2 ^ 16) ++ destination ip4 user host

-- `socks4ReplyError`.
pub reply_error : ℕ → List ℕ
reply_error code =
    if code == 0x5B
    then codes "request rejected or failed"
    else if code == 0x5C
    then codes "request failed because client is not running identd"
    else if code == 0x5D
    then codes "request failed because client identd could not confirm userid"
    else codes "unknown error code " ++ itoa code

-- The reply of eight bytes.
pub read_reply : Exec Socks4Error (Unit {0})
read_reply = do
  resp ← io io_error (read_full 8)
  reject_if (not (get_or resp 0 0 == 0x00)) (invalid_response_version (get_or resp 0 0))
  reject_if (not (get_or resp 1 0 == 0x5A)) (connect_failed (reply_error (get_or resp 1 0)))

module _ (to_ip4 : List ℕ → Option (List ℕ)) where
  -- `Socks4HandlerConn` on a connection and a configuration.
  pub handshake : ProxyConfig → List ℕ → ℤ → Exec Socks4Error (Unit {0})
  handshake config host_text port = do
    let host = trim_space host_text
    reject_if (is_empty_text host) empty_host
    reject_if (bad_port port) invalid_port
    let user = user_id config.username
    reject_if (contains_byte 0 user) user_has_null
    reject_if (contains_byte 0 host) host_has_null
    n ← io io_error (write (connect_request (to_ip4 host) user host port))
    read_reply

  pub socks4_handler_conn :
      Option Conn → Option ProxyConfig → List ℕ → ℤ → Result Socks4Error (Unit {0}) × Option Conn
  socks4_handler_conn conn config host port =
      on_connection nil_connection (require nil_config config >>= λ c. handshake c host port) conn
