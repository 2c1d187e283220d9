-- ===== src/Http/Client/Closing.antt =====
-- Clients that are dialled: how many, and how often Close is called, and what it does.
use deskaone_sdk.Shared.{ℕ, zero, suc, ◌+◌, ◌≤◌, ◌≡◌, refl, arith, not, ◌||◌}
use deskaone_sdk.Shared.{List, [], ◌∷◌, ◌++◌, length, length-append, Bool-cases, inl, inr}
use deskaone_sdk.Shared.{Result, ok, err, Result-cases}
use deskaone_sdk.Http.{HttpRequest, HttpError, get_header, next_redirect_request}
use deskaone_sdk.Tcp.{TcpClient, TcpError, close, write_full}
use deskaone_sdk.Tcp.Failures.{close_open}
use deskaone_sdk.Wire.{set_read_deadline}
use deskaone_sdk.Http.Exchange.Alive.{Left, Exchanged, exchange-Exchanged}
use deskaone_sdk.Http.Requests.{build_raw_http_request-ne}
use deskaone_sdk.Shared.{
  All, All-append, append-nil, append_assoc, sym, ap, Bool, true, false, ◌⊎◌, ◌≢◌,
}
use deskaone_sdk.Http.Exchange.{HttpClient, Outside, Answer, HttpStreamResponse, exchange}
use deskaone_sdk.Http.Client.{
  Network, do_stream_once, do_once, read_response, follow, follow_stream, settle, url_of, port_of,
  dialled_client, request_text, resolve_redirect_url, is_final, close_body,
}
use deskaone_sdk.Shared.{◌∙◌}
use deskaone_sdk.Http.Exchange.{Act, ◌>>=◌}
use deskaone_sdk.Shared.Text.{trim_space, codes, text_eq, is_empty_text}

abbrev pub held : {A : Type 0} → Result HttpError A → ℕ
held (ok a) = 1
held (err e) = 0

-- The client as Close leaves it behind a write of a request that failed.
pub record Unsent (t : TcpClient) : Type 0 where
  pub request : List ℕ
  pub client : TcpClient
  pub before : TcpClient
  pub error : TcpError
  pub failed : write_full request client ≡ (err error, before)
  pub is : t ≡ close before

-- What Close has made of a client: its connection is closed, unless the request could not be written.
abbrev pub Shut : TcpClient → Type 0
Shut t = (t.conn.is_closed ≡ true) ⊎ Unsent t

-- Behind a call, Close was called as often as a client was dialled since `net`, but for `n` that the
-- caller holds; at most `most` were dialled; the debug function was not called. `new` are the clients
-- that Close was called on.
pub record Accounts {W : Type 0} (net : Network W) (n most : ℕ) (next : Network W) : Type 0 where
  pub new : List TcpClient
  pub added : next.given_up ≡ net.given_up ++ new
  pub shut : All Shut new
  pub balanced : length new + n + net.dialled ≡ next.dialled
  pub within : next.dialled ≤ net.dialled + most
  pub silent : next.debugged ≡ net.debugged

abbrev Open : {D : Type 0} → Result HttpError (HttpStreamResponse D) → Type 0
Open (ok res) = res.client.is_closed ≡ false
Open (err e) = Unit {0}

Shut-close_body :
    (has_timeout : Bool) (c : TcpClient) → c.is_closed ≡ false → Shut (close_body has_timeout c)
unfolding close_body
Shut-close_body true c h = inl (close_open (record c { conn = set_read_deadline false c.conn }) h)
Shut-close_body false c h = inl (close_open c h)

module _ {W D : Type 0} (o : Outside W D) (sizes : ℕ → ℕ) (rounds : ℕ) where
  Shut-settle : (request : List ℕ) (client c : TcpClient) → Left o request client c → Shut (close c)
  Shut-settle request client c (inl open') = inl (close_open c open')
  Shut-settle request client c (inr (e, failed)) = inr (record {
    request = request;
    client = client;
    before = c;
    error = e;
    failed = failed;
    is = refl;
  })

  settle-Accounts :
      (request : List ℕ) (client : TcpClient) (r : Result HttpError (Answer D)) (c : TcpClient)
      (before : Network W) (w : W)
      → Exchanged o request client (r, c)
      → (let (s, next) =
            settle o sizes rounds
              (r, c)
              (record before { world = w; dialled = suc before.dialled }) in
          Accounts before (held s) 1 next × Open s)
  settle-Accounts request client (ok a) c before w h = (
    record {
      new = [];
      added = sym (append-nil before.given_up);
      shut = tt;
      balanced = omega arith;
      within = omega arith;
      silent = refl;
    },
    h,
  )
  settle-Accounts request client (err x) c before w h = (
    record {
      new = close c ∷ [];
      added = refl;
      shut = (Shut-settle request client c h, tt);
      balanced = omega arith;
      within = omega arith;
      silent = refl;
    },
    tt,
  )

  -- A call that does nothing but fail.
  nothing-Accounts : (net : Network W) (most : ℕ) → Accounts net 0 most net
  nothing-Accounts net most = record {
    new = [];
    added = sym (append-nil net.given_up);
    shut = tt;
    balanced = omega arith;
    within = omega arith;
    silent = refl;
  }

  -- What follows the dialling.
  abbrev with_client :
      HttpClient → List ℕ → Result HttpError TcpClient × W → Act (Network W) (HttpStreamResponse D)
  with_client c request r =
      (λ net. dialled_client o sizes rounds net r)
      >>= (λ client. settle o sizes rounds (exchange o c request client))

  dialled-Accounts :
      (c : HttpClient) (request : List ℕ) (net : Network W) (r : Result HttpError TcpClient × W)
      → request ≢ []
      → Accounts net (held (with_client c request r net).0) 1 (with_client c request r net).1
        × Open (with_client c request r net).0
  dialled-Accounts c request net (ok client, w) some' =
      let (r, d) = exchange o c request client in
      settle-Accounts request client r d net w (exchange-Exchanged o c request client some')
  dialled-Accounts c request net (err e, w) some' = (
    record {
      new = [];
      added = sym (append-nil net.given_up);
      shut = tt;
      balanced = omega arith;
      within = omega arith;
      silent = refl;
    },
    tt,
  )

  do_stream_once-Accounts :
      (c : HttpClient) (req : HttpRequest) (net : Network W)
      → Accounts net
          (held (do_stream_once o sizes rounds c req net).0)
          1
          (do_stream_once o sizes rounds c req net).1
        × Open (do_stream_once o sizes rounds c req net).0
  unfolding do_stream_once
  do_stream_once-Accounts c req net =
      elim (Result-cases (url_of (o.parse_url (trim_space req.url)))) [
        | inr (e, q) ↦ rw q (nothing-Accounts net 1, tt)
        | inl (u, q) ↦
            rw q
              (elim (Bool-cases
                (not (text_eq u.scheme (codes "http") || text_eq u.scheme (codes "https")))) [
                  | inl bad ↦ rw bad (nothing-Accounts net 1, tt)
                  | inr good ↦ rw good (elim (Bool-cases (is_empty_text u.hostname)) [
                    | inl none' ↦ rw none' (nothing-Accounts net 1, tt)
                    | inr some' ↦ rw some' (elim (Result-cases (port_of u)) [
                      | inr (e, q') ↦ rw q' (nothing-Accounts net 1, tt)
                      | inl (port, q') ↦ rw q' (
                          dialled-Accounts c (request_text o sizes rounds c u req) net
                            (o.dial u.hostname port (text_eq u.scheme (codes "https")) net.world)
                            (build_raw_http_request-ne _ u req.headers req.body c.user_agent
                              c.auto_decompress))
                    ])
                  ])
                ])
      ]

  -- Two calls in a row.
  then-Accounts :
      (net next last : Network W) (n m most : ℕ)
      → Accounts net 0 n next
      → Accounts next m most last
      → Accounts net m (n + most) last
  then-Accounts net next last n m most h k = record {
    new = h.new ++ k.new;
    added = k.added ∙ ap (λ l. l ++ k.new) h.added ∙ append_assoc net.given_up h.new k.new;
    shut = All-append Shut h.new k.new h.shut k.shut;
    balanced = omega (arith, h.balanced, k.balanced, length-append h.new k.new);
    within = omega (arith, h.within, k.within);
    silent = k.silent ∙ h.silent;
  }

  more-Accounts :
      (net next : Network W) (n m : ℕ)
      → Accounts net n m next
      → (k : ℕ) → m ≤ k
      → Accounts net n k next
  more-Accounts net next n m h k le = record {
    new = h.new;
    added = h.added;
    shut = h.shut;
    balanced = h.balanced;
    within = omega (arith, h.within);
    silent = h.silent;
  }

  closed-Accounts :
      (net next : Network W) (d : TcpClient) (most : ℕ)
      → Accounts net 1 most next
      → Shut d
      → Accounts net 0 most (record next { given_up = next.given_up ++ (d ∷ []) })
  closed-Accounts net next d most h shut = record {
    new = h.new ++ (d ∷ []);
    added = ap (λ l. l ++ (d ∷ [])) h.added ∙ append_assoc net.given_up h.new (d ∷ []);
    shut = All-append Shut h.new (d ∷ []) h.shut (shut, tt);
    balanced = omega (arith, h.balanced, length-append h.new (d ∷ []));
    within = h.within;
    silent = h.silent;
  }

  do_once-Accounts :
      (c : HttpClient) (req : HttpRequest) (net : Network W)
      → Accounts net 0 1 (do_once o sizes rounds c req net).1
  unfolding do_once read_response
  do_once-Accounts c req net =
      let (r, next) = do_stream_once o sizes rounds c req net in
      let h : Accounts net (held r) 1 next = (do_stream_once-Accounts c req net).0 in
      let o' : Open r = (do_stream_once-Accounts c req net).1 in
      elim (Result-cases r) [
        | inl (res, q) ↦ rw q (
            closed-Accounts net next _ 1 (rw q at h) (Shut-close_body c.has_timeout _ (rw q at o')))
        | inr (e, q) ↦ rw q (rw q at h)
      ]

  pub follow-Accounts :
      (c : HttpClient) (n : ℕ) (req : HttpRequest) (net : Network W)
      → Accounts net 0 n (follow o sizes rounds c n req net).1
  unfolding follow
  follow-Accounts c zero req net = nothing-Accounts net 0
  follow-Accounts c (suc left) req net =
      let (r, next) = do_once o sizes rounds c req net in
      let h : Accounts net 0 1 next = do_once-Accounts c req net in
      elim (Result-cases r) [
        | inr (e, q) ↦ rw q (more-Accounts net next 0 1 h (suc left) (omega arith))
        | inl (res, q) ↦
            rw q (elim (Bool-cases (is_final o sizes rounds res.status_code res.headers)) [
              | inl final ↦ rw final (more-Accounts net next 0 1 h (suc left) (omega arith))
              | inr moved ↦
                  rw moved
                    (elim (Result-cases (
                      resolve_redirect_url o sizes rounds req.url
                        (get_header res.headers (codes "Location")))) [
                          | inr (e, q') ↦
                              rw q' (more-Accounts net next 0 1 h (suc left) (omega arith))
                          | inl (url, q') ↦ rw q' (
                              let rest =
                                follow o sizes rounds c left
                                  (next_redirect_request req url res.status_code) next in
                              more-Accounts net rest.1 0 (1 + left)
                                (then-Accounts net next rest.1 1 0 left h (
                                  follow-Accounts c left
                                    (next_redirect_request req url res.status_code) next))
                                (suc left) (omega arith))
                        ])
            ])
      ]

  pub follow_stream-Accounts :
      (c : HttpClient) (n : ℕ) (req : HttpRequest) (net : Network W)
      → Accounts net
          (held (follow_stream o sizes rounds c n req net).0)
          n
          (follow_stream o sizes rounds c n req net).1
  unfolding follow_stream
  follow_stream-Accounts c zero req net = nothing-Accounts net 0
  follow_stream-Accounts c (suc left) req net =
      let (r, next) = do_stream_once o sizes rounds c req net in
      let h : Accounts net (held r) 1 next = (do_stream_once-Accounts c req net).0 in
      let o' : Open r = (do_stream_once-Accounts c req net).1 in
      elim (Result-cases r) [
        | inr (e, q) ↦ rw q (more-Accounts net next 0 1 (rw q at h) (suc left) (omega arith))
        | inl (res, q) ↦
            rw q (elim (Bool-cases (is_final o sizes rounds res.status_code res.headers)) [
              | inl final ↦
                  rw final (more-Accounts net next 1 1 (rw q at h) (suc left) (omega arith))
              | inr moved ↦ rw moved (
                  let d = close_body c.has_timeout res.client in
                  let shut : Network W = record next { given_up = next.given_up ++ (d ∷ []) } in
                  let h' : Accounts net 0 1 shut =
                    closed-Accounts net next d 1 (rw q at h)
                      (Shut-close_body c.has_timeout res.client (rw q at o')) in
                  elim (Result-cases (
                    resolve_redirect_url o sizes rounds req.url
                      (get_header res.headers (codes "Location")))) [
                        | inr (e, q') ↦
                            rw q' (more-Accounts net shut 0 1 h' (suc left) (omega arith))
                        | inl (url, q') ↦ rw q' (
                            let (s, last) =
                              follow_stream o sizes rounds c left
                                (next_redirect_request req url res.status_code) shut in
                            more-Accounts net last (held s) (1 + left)
                              (then-Accounts net shut last 1 (held s) left h' (
                                follow_stream-Accounts c left
                                  (next_redirect_request req url res.status_code) shut))
                              (suc left) (omega arith))
                      ])
            ])
      ]
