-- ===== src/Handler/Socks5.antt =====
-- network/handler/socks5_handler.go.
pub mod Requests
pub mod Connect
mod Tests
use deskaone_sdk.Shared.{ℕ, ◌+◌, ◌%◌, ◌^◌, Bool, true, false, ◌&&◌, ◌||◌, not}
use deskaone_sdk.Shared.{Option, none, some, List, [], ◌∷◌, ◌++◌, length, get_or, ltb, ◌==◌}
use deskaone_sdk.Shared.{if◌then◌else◌, Result}
use deskaone_sdk.Shared.Int.{ℤ, pos, pos_part, to_word}
use deskaone_sdk.Shared.Bytes.{be_bytes}
use deskaone_sdk.Shared.Text.{trim_space, is_empty_text, codes, itoa}
use deskaone_sdk.Wire.{
  Conn, IoError, Exec, ◌>>=◌, ◌>>◌, pure, fail, reject_if, io, read_full, write,
}
use deskaone_sdk.Proxy.{ProxyConfig, bad_port}
use deskaone_sdk.Handler.{on_connection, require}

-- The errors of the handler; those that quote a byte carry it.
pub data Socks5Error : Type 0 where
  nil_connection nil_config empty_host host_too_long invalid_port : Socks5Error
  username_too_long password_too_long method_rejected credentials_missing auth_failed : Socks5Error
  invalid_version unsupported_method invalid_response_version : ℕ → Socks5Error
  invalid_reserved unsupported_address_type : ℕ → Socks5Error
  connect_failed : List ℕ → Socks5Error
  io_error : IoError → Socks5Error

pub both : Option (List ℕ) → Option (List ℕ) → Option (List ℕ × List ℕ)
both none word = none
both (some user) none = none
both (some user) (some word) = some (user, word)

-- User name and password, where the configuration has both.
abbrev pub credentials : ProxyConfig → Option (List ℕ × List ℕ)
credentials c = both c.username c.password

-- The methods that are offered: none, and user name with password where these are known and fit.
pub methods : Option (List ℕ × List ℕ) → Exec Socks5Error (List ℕ)
methods none = pure (0x00 ∷ [])
methods (some (user, word)) = do
  reject_if (ltb 255 (length user)) username_too_long
  reject_if (ltb 255 (length word)) password_too_long
  pure (0x00 ∷ 0x02 ∷ [])

-- The method negotiation: the method that the proxy selects.
pub negotiate : List ℕ → Exec Socks5Error ℕ
negotiate offered = do
  n ← io io_error (write (0x05 ∷ (length offered % 256) ∷ offered))
  resp ← io io_error (read_full 2)
  reject_if (not (get_or resp 0 0 == 0x05)) (invalid_version (get_or resp 0 0))
  reject_if (get_or resp 1 0 == 0xFF) method_rejected
  reject_if (not (get_or resp 1 0 == 0x00) && not (get_or resp 1 0 == 0x02))
      (unsupported_method (get_or resp 1 0))
  pure (get_or resp 1 0)

abbrev pub auth_request : List ℕ → List ℕ → List ℕ
auth_request user word = 0x01 ∷ (length user % 256) ∷ user ++ ((length word % 256) ∷ word)

-- The sub-negotiation of user name and password.
pub authenticate : Option (List ℕ × List ℕ) → Exec Socks5Error (Unit {0})
authenticate none = fail credentials_missing
authenticate (some (user, word)) = do
  n ← io io_error (write (auth_request user word))
  auth ← io io_error (read_full 2)
  reject_if (not (get_or auth 0 0 == 0x01) || not (get_or auth 1 0 == 0x00)) auth_failed

pub authenticate_if : Bool → Option (List ℕ × List ℕ) → Exec Socks5Error (Unit {0})
authenticate_if true creds = authenticate creds
authenticate_if false creds = pure tt

-- VER, CMD, RSV, ATYP, DST.ADDR, DST.PORT.
abbrev pub connect_request : List ℕ → ℤ → List ℕ
connect_request host port =
    0x05 ∷ 0x01 ∷ 0x00 ∷ 0x03 ∷ (length host % 256) ∷ host
    ++ be_bytes 2 (to_word (2 ^ 63) port % 2 ^ 16)

-- The length of the bound address, by its type.
pub address_length : ℕ → Exec Socks5Error ℕ
address_length kind =
    if kind == 0x01
    then pure 4
    else if kind == 0x04
    then pure 16
    else if kind == 0x03
    then (do l ← io io_error (read_full 1); pure (get_or l 0 0))
    else fail (unsupported_address_type kind)

-- `socks5ReplyError`.
pub reply_error : ℕ → List ℕ
reply_error code =
    if code == 0x01
    then codes "general SOCKS server failure"
    else if code == 0x02
    then codes "connection not allowed by ruleset"
    else if code == 0x03
    then codes "network unreachable"
    else if code == 0x04
    then codes "host unreachable"
    else if code == 0x05
    then codes "connection refused"
    else if code == 0x06
    then codes "TTL expired"
    else if code == 0x07
    then codes "command not supported"
    else if code == 0x08
    then codes "address type not supported"
    else codes "unknown error code " ++ itoa code

-- The reply to the request, read to its end.
pub read_reply : Exec Socks5Error (Unit {0})
read_reply = do
  head ← io io_error (read_full 4)
  reject_if (not (get_or head 0 0 == 0x05)) (invalid_response_version (get_or head 0 0))
  reject_if (not (get_or head 1 0 == 0x00)) (connect_failed (reply_error (get_or head 1 0)))
  reject_if (not (get_or head 2 0 == 0x00)) (invalid_reserved (get_or head 2 0))
  skip ← address_length (get_or head 3 0)
  bound ← io io_error (read_full (skip + 2))
  pure tt

-- `Socks5HandlerConn` on a connection and a configuration.
pub handshake : ProxyConfig → List ℕ → ℤ → Exec Socks5Error (Unit {0})
handshake config host_text port = do
  let host = trim_space host_text
  reject_if (is_empty_text host) empty_host
  reject_if (ltb 255 (length host)) host_too_long
  reject_if (bad_port port) invalid_port
  offered ← methods (credentials config)
  method ← negotiate offered
  authenticate_if (method == 0x02) (credentials config)
  n ← io io_error (write (connect_request host port))
  read_reply

pub socks5_handler_conn :
    Option Conn → Option ProxyConfig → List ℕ → ℤ → Result Socks5Error (Unit {0}) × Option Conn
socks5_handler_conn conn config host port =
    on_connection nil_connection (require nil_config config >>= λ c. handshake c host port) conn
