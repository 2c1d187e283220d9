-- ===== src/Handler/Connect/Tunnel.antt =====
-- The whole handshake with an HTTP proxy, and reading through the connection that it returns.
use deskaone_sdk.Shared.{ℕ, suc, ◌+◌, ◌-◌, ◌≤◌, ◌≡◌, ◌≢◌, refl, ap, ap₂, ◌∙◌, sym, arith}
use deskaone_sdk.Shared.{
  Bool, true, false, ◌⊎◌, ◌↔◌, inl, inr, none, some, List, [], ◌∷◌, ◌++◌, Result, ok, err,
  Bool-cases,
}
use deskaone_sdk.Shared.{length, take, drop, take-append-drop, append_assoc}
use deskaone_sdk.Shared.Int.{ℤ, pos, negsuc, ◌≤ℤ◌}
use deskaone_sdk.Shared.Text.{index_of, trim_space, is_empty_text, is_empty_text-nonempty, codes}
use deskaone_sdk.Wire.{Conn, IoError, read_some, next_cut}
use deskaone_sdk.Wire.Laws.{write_fits}
use deskaone_sdk.Proxy.{ProxyConfig, join_host_port, itoa_int, bad_port}
use deskaone_sdk.Handler.{on_connection}
use deskaone_sdk.Handler.Connect.{PreReadConn, pre_read, ConnectError, refused, connect_request}
use deskaone_sdk.Handler.Connect.{delimiter, max_http_header_size, parse_status_code, find_header}
use deskaone_sdk.Handler.Connect.{sanitize_header_for_error, judge, handshake, http_handler_conn}
use deskaone_sdk.Handler.Connect.{read_headers, is_ok_code}
use deskaone_sdk.Handler.Connect.Headers.{read_headers-Delivered}

no_bytes : (s : List ℕ) → is_empty_text s ≡ true → s ≡ []
no_bytes [] e = refl
no_bytes (b ∷ s) e = cc

parts :
    (k : List ℕ) (r q : PreReadConn) (chunk : List ℕ)
    → ◌≡◌ {A = Result IoError (List ℕ) × PreReadConn} (ok k, r) (ok chunk, q)
    → (k ≡ chunk) × (r ≡ q)
parts k r q chunk h = (cc, cc)

-- A read through the returned connection takes its bytes from the front of what was read ahead and
-- what is still to come, and leaves the rest.
pub pre_read-front :
    (n : ℕ) (p q : PreReadConn) (chunk : List ℕ)
    → pre_read n p ≡ (ok chunk, q)
    → chunk ++ (q.pre ++ q.conn.input) ≡ p.pre ++ p.conn.input
unfolding pre_read read_some
pre_read-front n p q chunk h = elim (Bool-cases (is_empty_text p.pre)) [
  | inl e ↦ ground (arith, no_bytes p.pre, take-append-drop (next_cut p.conn.cuts n) p.conn.input)
  | inr e ↦
      (let taken = parts (take n p.pre) (record p { pre = drop n p.pre }) q chunk (rw e at h) in
        ap₂ (λ k (r : PreReadConn). k ++ (r.pre ++ r.conn.input)) (sym taken.0) (sym taken.1)
        ∙ sym (append_assoc (take n p.pre) (drop n p.pre) p.conn.input)
        ∙ ap (λ k. k ++ p.conn.input) (take-append-drop n p.pre))
]

-- What the handler makes of a header with the status `code`.
abbrev pub Verdict : List ℕ → List ℕ → Conn → Result ConnectError PreReadConn → Type 0
Verdict header left d r =
    ((parse_status_code header ≡ pos 200) × (r ≡ ok (record { pre = left; conn = d })))
    ⊎ ((parse_status_code header ≢ pos 200)
        × (r
            ≡ err (
                refused (parse_status_code header) (find_header header (codes "Proxy-Authenticate"))
                  (sanitize_header_for_error header))))

is_ok_code_iff : (z : ℤ) → (is_ok_code z ≡ true) ↔ (z ≡ pos 200)
is_ok_code_iff (pos n) = ground arith
is_ok_code_iff (negsuc n) = ground arith

-- The connection once the request is sent.
abbrev requested : ProxyConfig → List ℕ → ℤ → Conn → Conn
requested config host port c =
    let request = connect_request config (join_host_port host (itoa_int port)) in
    record c { sent = c.sent ++ request; room = c.room - length request; write_deadline = false }

judge-Verdict : (header left : List ℕ) (d : Conn) → Verdict header left d (judge (header, left) d).0
unfolding judge
judge-Verdict header left d = elim (Bool-cases (is_ok_code (parse_status_code header))) [
  | inl e ↦ rw e (inl ((is_ok_code_iff (parse_status_code header)).0 e, refl))
  | inr e ↦ rw e (inr (ground (arith, is_ok_code_iff (parse_status_code header)), refl))
]

judge_conn : (header left : List ℕ) (d : Conn) → (judge (header, left) d).1 ≡ d
unfolding judge
judge_conn header left d = ground arith

nothing_yet : index_of delimiter [] ≡ none
unfolding index_of
nothing_yet = refl

-- The steps of the handshake, with the answer that its loop gives.
steps :
    (fuel : ℕ) (armed : Bool) (config : ProxyConfig) (host : List ℕ) (port : ℤ)
    (header left : List ℕ) (c d : Conn)
    → c.is_closed ≡ false
    → trim_space host ≢ []
    → bad_port port ≡ false
    → length (connect_request config (join_host_port host (itoa_int port))) ≤ c.room
    → read_headers fuel armed [] (requested config host port c) ≡ (ok (header, left), d)
    → handshake fuel armed config host port c ≡ (
      (judge (header, left) (record d { read_deadline = false })).0,
      record d { read_deadline = false },
    )
unfolding handshake
steps fuel true config host port header left c d open' named wanted room got =
    let request = connect_request config (join_host_port host (itoa_int port)) in
    rw (is_empty_text-nonempty (trim_space host) named, wanted)
      (rw (write_fits request (record c { write_deadline = true }) open' room) (
        rw got (
          ap (λ e. ((judge (header, left) (record d { read_deadline = false })).0, e))
            (judge_conn header left _))))
steps fuel false config host port header left c d open' named wanted room got =
    let request = connect_request config (join_host_port host (itoa_int port)) in
    rw (is_empty_text-nonempty (trim_space host) named, wanted)
      (rw (write_fits request c open' room) (
        rw got (
          ap (λ e. ((judge (header, left) (record d { read_deadline = false })).0, e))
            (judge_conn header left _))))

-- The handshake behind a request that is sent whole: it answers, with the verdict on the header that
-- ends at the first blank line of the proxy's answer. A connection is returned exactly for the status
-- 200; the bytes that were read behind the header and those still to come are then what followed the
-- header, however the network has cut it. The request is all that was sent, and no deadline is left
-- set. The host is not blank, the port is from 1 to 65535, and the blank line comes within the first
-- 31,745 bytes.
pub http_handler_conn-answers :
    (config : ProxyConfig) (host : List ℕ) (port : ℤ) (armed : Bool) (i : ℕ) (c : Conn)
    → c.is_closed ≡ false
    → trim_space host ≢ []
    → pos 1 ≤ℤ port
    → port ≤ℤ pos 65535
    → length (connect_request config (join_host_port host (itoa_int port))) ≤ c.room
    → index_of delimiter c.input ≡ some i
    → i + 1027 ≤ max_http_header_size
    → (r : Result ConnectError PreReadConn) × (left : List ℕ) × (d : Conn) × (http_handler_conn
          (some c)
          (some config)
          host
          port
          armed
        ≡ (r, some d))
      × Verdict (take (i + 4) c.input) left d r
      × (left ++ d.input ≡ drop (i + 4) c.input)
      × (d.sent ≡ c.sent ++ connect_request config (join_host_port host (itoa_int port)))
      × (d.read_deadline ≡ false)
      × (d.write_deadline ≡ false)
unfolding http_handler_conn on_connection handshake
http_handler_conn-answers config host port armed i c open' named low high room whole small =
    let wanted : bad_port port ≡ false = ground arith in
    let got =
      read_headers-Delivered (suc (length c.input)) armed [] i (requested config host port c) open'
        (omega arith) whole nothing_yet small in
    let d : Conn = record (got.behind) { read_deadline = false } in
    let header = take (i + 4) c.input in
    let whole_run =
      steps (suc (length c.input)) armed config host port header got.left c got.behind open' named
        wanted room got.result in
    (
      (judge (header, got.left) d).0,
      got.left,
      d,
      ap (λ r. (r.0, some r.1)) whole_run,
      judge-Verdict header got.left d,
      got.nothing_lost,
      got.writes.sent,
      refl,
      got.writes.write_deadline,
    )
