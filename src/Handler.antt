-- ===== src/Handler.antt =====
-- network/handler: the client sides of the proxy protocols, over a connection to the proxy.
pub mod Socks5
pub mod Socks4
pub mod Connect
use deskaone_sdk.Shared.{ℕ, Bool, Option, none, some, Result, ok, err}
use deskaone_sdk.Wire.{Conn, IoError, Exec, pure, fail}

-- A handler on a pointer to a connection: the `conn == nil` guard.
unfoldable pub on_connection :
    {E A : Type 0} → E → Exec E A → Option Conn → Result E A × Option Conn
on_connection e m none = (err e, none)
on_connection e m (some c) = let (r, d) = m c in (r, some d)

-- A value behind a pointer that may be nil.
abbrev pub require : {E A : Type 0} → E → Option A → Exec E A
require e none = fail e
require e (some a) = pure a
