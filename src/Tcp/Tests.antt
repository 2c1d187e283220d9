-- ===== src/Tcp/Tests.antt =====
-- A connection that takes two bytes.
use deskaone_sdk.Shared.{◌≡◌, refl, true, false, [], ◌∷◌}
use deskaone_sdk.Wire.{IoError}
use deskaone_sdk.Wire
use deskaone_sdk.Tcp.{TcpClient, write, close, io_error}
use deskaone_sdk.Tcp.Failures.{close_failed_write}

abbrev narrow : TcpClient
narrow = record {
  conn = record {
    input = [];
    cuts = [];
    at_end = IoError.eof;
    sent = [];
    room = 2;
    read_deadline = false;
    write_deadline = false;
    is_closed = false;
  };
  has_timeout = false;
  is_closed = false;
}

close_failed_write_example :
    ((close narrow).conn.is_closed ≡ true)
    × ((close (write (1 ∷ 2 ∷ 3 ∷ []) narrow).1).conn.is_closed ≡ false)
unfolding write Wire.write
close_failed_write_example =
    close_failed_write narrow (1 ∷ 2 ∷ 3 ∷ []) (io_error IoError.reset) refl refl refl
