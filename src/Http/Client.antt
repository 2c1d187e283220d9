-- ===== src/Http/Client.antt =====
-- network/http_client.go: one exchange from dialling to closing, the redirects, and the attempts.
-- The clients that Close was called on are kept in a list, as that call leaves them, and those that
-- were dialled are counted. Close does nothing on a client that a failed write has marked as closed.
pub mod Closing
pub mod Following
pub mod Bodies
use Prim.Native.String.{String}
use deskaone_sdk.Shared.{ℕ, zero, suc, ◌+◌, ◌-◌, min, Bool, true, false, not, ◌&&◌, ◌||◌}
use deskaone_sdk.Shared.{List, [], ◌∷◌, ◌++◌, length, ltb, map_ok}
use deskaone_sdk.Shared.{Option, none, some, Result, ok, err, ◌==◌, if◌then◌else◌}
use deskaone_sdk.Shared.Int.{ℤ, pos, negsuc, pos_part, ltb_ℤ}
use deskaone_sdk.Shared.Text.{codes, text_eq, trim_space, to_upper, is_empty_text}
use deskaone_sdk.Shared.Words.{atoi}
use deskaone_sdk.Wire.{Conn, set_read_deadline}
use deskaone_sdk.Tcp.{TcpClient}
use deskaone_sdk.Tcp
use deskaone_sdk.Http.{
  Headers, HttpRequest, HttpResponse, HttpError, unsupported_scheme, empty_host, invalid_port,
  bad_url, too_many_redirects, nil_client, nil_request, get_header, default_port_by_scheme,
  is_redirect_status, next_redirect_request, is_retryable_http_error,
}
use deskaone_sdk.Http.Body.{Outcome, RawBody, read_raw, at_eof, read_all}
use deskaone_sdk.Http.Requests.{Url, build_raw_http_request}
use deskaone_sdk.Http.Exchange.{
  HttpClient, HttpDebugInfo, Outside, Body, Answer, HttpStreamResponse, exchange, Act, ◌>>=◌, ◌>>◌,
  give,
}

pub record Network (W : Type 0) : Type 0 where
  pub world : W
  pub dialled : ℕ
  pub given_up : List TcpClient
  pub debugged : List HttpDebugInfo

unfoldable pub port_of : Url → Result HttpError ℤ
port_of u =
    if is_empty_text u.port
    then ok (default_port_by_scheme u.scheme)
    else elim (atoi u.port) [ none ↦ err (invalid_port u.port) | some port ↦ ok port ]

abbrev method_of : List ℕ → List ℕ
method_of [] = codes "GET"
method_of (b ∷ s) = b ∷ s

abbrev reject_if : {S : Type 0} → Bool → HttpError → Act S (Unit {0})
reject_if true e s = (err e, s)
reject_if false e s = (ok tt, s)

abbrev url_of : Result (List ℕ) Url → Result HttpError Url
url_of (ok u) = ok u
url_of (err e) = err (bad_url e)

-- `Close` of the body: the deadline is cleared, and the connection closed.
unfoldable pub close_body : Bool → TcpClient → TcpClient
close_body has_timeout c =
    Tcp.close (if has_timeout then record c { conn = set_read_deadline false c.conn } else c)

-- The sizes of the buffers of io.ReadAll, and how many reads it is given.
module _ {W D : Type 0} (o : Outside W D) (sizes : ℕ → ℕ) (rounds : ℕ) where
  abbrev dialled_client :
      Network W → Result HttpError TcpClient × W → Result HttpError TcpClient × Network W
  dialled_client net (ok c, w) = (ok c, record net { world = w; dialled = suc net.dialled })
  dialled_client net (err e, w) = (err e, record net { world = w })

  abbrev dial : List ℕ → ℤ → Bool → Act (Network W) TcpClient
  dial host port is_tls net = dialled_client net (o.dial host port is_tls net.world)

  -- A failure closes the connection.
  abbrev pub settle :
      Result HttpError (Answer D) × TcpClient → Act (Network W) (HttpStreamResponse D)
  settle (err e, c) net = (err e, record net { given_up = net.given_up ++ (Tcp.close c ∷ []) })
  settle (ok a, c) net = (
    ok (record {
      status_code = a.status_code;
      status = a.status;
      headers = a.headers;
      body = a.body;
      client = c;
    }),
    net,
  )

  abbrev request_text : HttpClient → Url → HttpRequest → List ℕ
  request_text c u req =
      build_raw_http_request (method_of (to_upper (trim_space req.method))) u req.headers req.body
        c.user_agent c.auto_decompress

  unfoldable pub do_stream_once : HttpClient → HttpRequest → Act (Network W) (HttpStreamResponse D)
  do_stream_once c req = do
    u ← give (url_of (o.parse_url (trim_space req.url)))
    reject_if (not (text_eq u.scheme (codes "http") || text_eq u.scheme (codes "https")))
        (unsupported_scheme u.scheme)
    reject_if (is_empty_text u.hostname) empty_host
    port ← give (port_of u)
    client ← dial u.hostname port (text_eq u.scheme (codes "https"))
    settle (exchange o c (request_text c u req) client)

  -- A read of the body, through the decompressor where there is one.
  abbrev decoded : Body D → Outcome × D × (RawBody × Conn) → Outcome × (Body D × Conn)
  decoded b (out, z, (raw, d)) = (out, (record b { raw = raw; decoder = some z }, d))

  abbrev plain : Body D → Outcome × RawBody × Conn → Outcome × (Body D × Conn)
  plain b (out, raw, d) = (out, (record b { raw = raw }, d))

  abbrev read_through : Option D → ℕ → Body D → Conn → Outcome × (Body D × Conn)
  read_through none n b d = plain b (read_raw n b.raw d)
  read_through (some z) n b d = decoded b (o.decode n z (b.raw, d))

  unfoldable pub read_body : ℕ → Body D × Conn → Outcome × (Body D × Conn)
  read_body n (b, d) = read_through b.decoder n b d

  -- `io.LimitReader` over the body, where the size has a limit; `none` is no limit.
  abbrev limited : ℕ → Outcome × (Body D × Conn) → Outcome × (Option ℕ × (Body D × Conn))
  limited left (out, s) = (out, (some (left - length out.bytes), s))

  unfoldable pub read_limited :
      ℕ → Option ℕ × (Body D × Conn) → Outcome × (Option ℕ × (Body D × Conn))
  read_limited n (none, s) = let (out, t) = read_body n s in (out, (none, t))
  read_limited n (some zero, s) = (at_eof, (some 0, s))
  read_limited n (some (suc left), s) = limited (suc left) (read_body (min n (suc left)) s)

  abbrev pub limit_of : ℤ → Option ℕ
  limit_of (pos zero) = none
  limit_of (pos (suc n)) = some (suc n)
  limit_of (negsuc n) = none

  -- The body is closed whether or not it could be read.
  abbrev finish :
      HttpClient
      → HttpStreamResponse D
      → Result HttpError (List ℕ) × (Option ℕ × (Body D × Conn))
      → Act (Network W) HttpResponse
  finish c res (body, (left, (b, d))) net = (
    map_ok
        (λ bytes. record {
          status_code = res.status_code;
          status = res.status;
          headers = res.headers;
          body = bytes;
        })
        body,
    record net {
      given_up = net.given_up ++ (close_body c.has_timeout (record res.client { conn = d }) ∷ []);
    },
  )

  unfoldable pub read_response : HttpClient → HttpStreamResponse D → Act (Network W) HttpResponse
  read_response c res = finish c res (
      read_all read_limited rounds sizes [] (limit_of c.max_body_size, (res.body, res.client.conn)))

  unfoldable pub do_once : HttpClient → HttpRequest → Act (Network W) HttpResponse
  do_once c req = do res ← do_stream_once c req; read_response c res

  abbrev resolved : Result (List ℕ) Url → Result (List ℕ) Url → Result HttpError (List ℕ)
  resolved (err e) next = err (bad_url e)
  resolved (ok base) (err e) = err (bad_url e)
  resolved (ok base) (ok next) = ok (o.resolve_reference base next)

  unfoldable pub resolve_redirect_url : List ℕ → List ℕ → Result HttpError (List ℕ)
  resolve_redirect_url current location =
      resolved (o.parse_url current) (o.parse_url (trim_space location))

  -- Whether an answer is returned: it is no redirect, or does not say where to.
  unfoldable pub is_final : ℤ → Headers → Bool
  is_final code headers =
      not (is_redirect_status code) || is_empty_text (get_header headers (codes "Location"))

  -- The loop of `doWithRedirects`; the number counts the rounds that are left.
  unfoldable pub follow : HttpClient → ℕ → HttpRequest → Act (Network W) HttpResponse
  follow c zero req = give (err too_many_redirects)
  follow c (suc left) req = do
    res ← do_once c req
    if is_final res.status_code res.headers then give (ok res) else do
      next_url ← give (resolve_redirect_url req.url (get_header res.headers (codes "Location")))
      follow c left (next_redirect_request req next_url res.status_code)

  unfoldable pub do_with_redirects : HttpClient → HttpRequest → Act (Network W) HttpResponse
  do_with_redirects c req = follow c (suc (pos_part c.max_redirects)) req

  abbrev close_stream : HttpClient → HttpStreamResponse D → Act (Network W) (Unit {0})
  close_stream c res net =
      (ok tt, record net { given_up = net.given_up ++ (close_body c.has_timeout res.client ∷ []) })

  -- The loop of `doStreamWithRedirects`: an answer that is not returned is closed.
  unfoldable pub follow_stream :
      HttpClient → ℕ → HttpRequest → Act (Network W) (HttpStreamResponse D)
  follow_stream c zero req = give (err too_many_redirects)
  follow_stream c (suc left) req = do
    res ← do_stream_once c req
    if is_final res.status_code res.headers then give (ok res) else do
      close_stream c res
      next_url ← give (resolve_redirect_url req.url (get_header res.headers (codes "Location")))
      follow_stream c left (next_redirect_request req next_url res.status_code)

  unfoldable pub do_stream_with_redirects :
      HttpClient → HttpRequest → Act (Network W) (HttpStreamResponse D)
  do_stream_with_redirects c req = follow_stream c (suc (pos_part c.max_redirects)) req
