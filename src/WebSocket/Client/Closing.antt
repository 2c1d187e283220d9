-- ===== src/WebSocket/Client/Closing.antt =====
-- A client that was closed stays closed.
use deskaone_sdk.Shared.{ℕ, ◌≡◌, refl, true, List, Result, ok, err, arith}
use deskaone_sdk.Shared.Text.{codes}
use deskaone_sdk.Tcp.{TcpClient, TcpError}
use deskaone_sdk.Tcp
use deskaone_sdk.WebSocket.Frame.{FrameError}
use deskaone_sdk.WebSocket.Client.{
  WebSocketClient, send_built, sent_by, write_frame_locked, write_close_frame, close,
}

send_built_closed :
    (r : Result FrameError (List ℕ)) (c : WebSocketClient)
    → (send_built r c).1.is_closed ≡ c.is_closed
send_built_closed (err e) c = refl
send_built_closed (ok frame) c = sent_by_closed (Tcp.write_full frame c.tcp)
  where
    sent_by_closed :
        (r : Result TcpError (Unit {0}) × TcpClient) → (sent_by c r).1.is_closed ≡ c.is_closed
    sent_by_closed (ok u, t) = refl
    sent_by_closed (err e, t) = refl

write_close_frame_closed :
    (code : ℕ) (reason : List ℕ) (c : WebSocketClient)
    → (write_close_frame code reason c).1.is_closed ≡ c.is_closed
unfolding write_close_frame write_frame_locked
write_close_frame_closed code reason c = send_built_closed _ _

pub close_closed : (c : WebSocketClient) → (close c).is_closed ≡ true
unfolding close
close_closed c =
    ground (
      arith,
      write_close_frame_closed 1000 (codes "normal closure") (record c { is_closed = true }),
    )
