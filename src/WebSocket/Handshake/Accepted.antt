-- ===== src/WebSocket/Handshake/Accepted.antt =====
-- The answers to the handshake: what is read of them, and which are taken.
use mathlib.Core.List.{reverse}
use deskaone_sdk.Shared.{ℕ, ◌≡◌, refl, ap, ◌∙◌, arith}
use deskaone_sdk.Shared.{Bool, true, false, not, some, List, [], ◌∷◌, ◌++◌, All}
use deskaone_sdk.Shared.{Result, ok, err, if◌then◌else◌}
use deskaone_sdk.Shared.Int.{pos}
use deskaone_sdk.Shared.Text.{
  codes, text_eq, trim_space, trim_front, trim_back, space_size, index_of, has_prefix, to_lower,
  lower_from,
}
use deskaone_sdk.Shared.Words.{base64, equal_fold, fold_from}
use deskaone_sdk.Wire.{Conn, set_read_deadline}
use deskaone_sdk.Tcp.{TcpClient, write_full}
use deskaone_sdk.Http.{get_header, names}
use deskaone_sdk.Http.Lines.{parse_http_status_code, header_line, add_header}
use deskaone_sdk.Http.Lines.Reading.{IsPlain, read_http_line-plain}
use deskaone_sdk.Http.Lines.Block.{IsHeaderLine, block, add_lines, read_http_headers-block}
use deskaone_sdk.Http.Requests.{Url}
use deskaone_sdk.WebSocket.Handshake.{
  WebSocketConfig, HandshakeError, invalid_accept, compute_web_socket_accept, check_headers,
  read_answer, handshake, handshake_request, with_line, with_code, checked, armed_read,
}

-- The header lines of an answer that upgrades, with the text of its Sec-WebSocket-Accept.
abbrev pub upgrade_lines : List ℕ → List (List ℕ)
upgrade_lines accept =
    codes "Upgrade: websocket"
    ∷ codes "Connection: Upgrade"
    ∷ (codes "Sec-WebSocket-Accept: " ++ accept)
    ∷ []

IsHeaderLine-upgrade_lines :
    (accept : List ℕ) → IsPlain accept → All IsHeaderLine (upgrade_lines accept)
IsHeaderLine-upgrade_lines accept plain = ground arith

trim_front-space : (s : List ℕ) → trim_front 0 (b' ' ∷ s) ≡ trim_front 0 s
unfolding trim_front space_size
trim_front-space [] = refl
trim_front-space (b ∷ []) = refl
trim_front-space (b ∷ c ∷ s) = refl

trim_space-space : (s : List ℕ) → trim_space (b' ' ∷ s) ≡ trim_space s
unfolding trim_space
trim_space-space s = ap (λ t. reverse (trim_back 0 (reverse t))) (trim_front-space s)

if_not : {A : Type 0} → (b : Bool) (x y : A) → (if not b then x else y) ≡ (if b then y else x)
if_not true x y = refl
if_not false x y = refl

module _ (sha1 : List ℕ → List ℕ) where
  -- What the handshake says of that text.
  abbrev pub verdict : List ℕ → List ℕ → Result HandshakeError (Unit {0})
  verdict key accept =
      if text_eq accept (compute_web_socket_accept sha1 key) then ok tt else err invalid_accept

  check_headers-upgrade_lines :
      (key accept : List ℕ)
      → trim_space accept ≡ accept
      → check_headers sha1 key (add_lines (upgrade_lines accept) []) ≡ verdict key accept
  unfolding check_headers header_line add_header index_of has_prefix trim_space trim_front trim_back
      space_size text_eq get_header names equal_fold fold_from to_lower lower_from
  check_headers-upgrade_lines key accept trimmed =
      let expected = compute_web_socket_accept sha1 key in
      ap (λ a. if not (text_eq a expected) then err invalid_accept else ok tt)
        (ap trim_space (trim_space-space accept ∙ trimmed) ∙ trimmed)
      ∙ if_not (text_eq accept expected) (err invalid_accept) (ok tt)

  read_answer_upgrade :
      (key status accept frames : List ℕ) (c : Conn)
      → IsPlain status
      → parse_http_status_code status ≡ ok (pos 101)
      → IsPlain accept
      → trim_space accept ≡ accept
      → c.is_closed ≡ false
      → c.input ≡ status ++ (b'\r' ∷ b'\n' ∷ block (upgrade_lines accept) frames)
      → read_answer sha1 key c ≡ (verdict key accept, record c { input = frames })
  unfolding read_answer
  read_answer_upgrade key status accept frames c plain code plain' trimmed open' e =
      let rest = block (upgrade_lines accept) frames in
      let behind : Conn = record c { input = rest } in
      ap (with_line sha1 key) (read_http_line-plain status rest c plain open' e)
      ∙ ap (with_code sha1 key behind) code
      ∙ ap (checked sha1 key) (
          read_http_headers-block (upgrade_lines accept) frames behind
            (IsHeaderLine-upgrade_lines accept plain') open' refl)
      ∙ ap (λ r. (r, record c { input = frames })) (check_headers-upgrade_lines key accept trimmed)

  armed_read-read_answer :
      (armed : Bool) (key status accept frames : List ℕ) (t : TcpClient)
      → IsPlain status
      → parse_http_status_code status ≡ ok (pos 101)
      → IsPlain accept
      → trim_space accept ≡ accept
      → t.conn.is_closed ≡ false
      → t.conn.input ≡ status ++ (b'\r' ∷ b'\n' ∷ block (upgrade_lines accept) frames)
      → (let (r, next) = armed_read sha1 armed (read_answer sha1 key) t in
          (r ≡ verdict key accept) × (next.conn.input ≡ frames))
  armed_read-read_answer true key status accept frames t plain code plain' trimmed open' e =
      let c = set_read_deadline true t.conn in
      rw (read_answer_upgrade key status accept frames c plain code plain' trimmed open' e)
        (refl, refl)
  armed_read-read_answer false key status accept frames t plain code plain' trimmed open' e =
      rw (read_answer_upgrade key status accept frames t.conn plain code plain' trimmed open' e)
        (refl, refl)

  -- The handshake with an answer whose status line says 101 and whose header lines are
  -- `Upgrade: websocket`, `Connection: Upgrade` and `Sec-WebSocket-Accept: ` with any text, in this
  -- order, and behind whose empty line `frames` follow. If the request can be written, the connection is
  -- open then, the status line and the accept text have no line break and the accept text has no white
  -- space round it, the handshake succeeds exactly where the accept text is base64 of the digest of the
  -- key with the GUID, and fails with the accept error otherwise; either way what is left to read is
  -- `frames`, to the byte.
  pub handshake_upgrade :
      (bytes : List ℕ) (u : Url) (conf : WebSocketConfig) (t written : TcpClient)
      (status accept frames : List ℕ)
      → write_full (handshake_request (base64 bytes) u conf) t ≡ (ok tt, written)
      → written.conn.is_closed ≡ false
      → written.conn.input ≡ status ++ (b'\r' ∷ b'\n' ∷ block (upgrade_lines accept) frames)
      → IsPlain status
      → parse_http_status_code status ≡ ok (pos 101)
      → IsPlain accept
      → trim_space accept ≡ accept
      → (let (r, next) = handshake sha1 (some bytes) u conf t in
          (r ≡ verdict (base64 bytes) accept) × (next.conn.input ≡ frames))
  unfolding handshake
  handshake_upgrade bytes u conf t written status accept frames w open' e plain code plain'
        trimmed =
      rw w (
        armed_read-read_answer conf.has_timeout (base64 bytes) status accept frames written plain
          code plain' trimmed open' e)
