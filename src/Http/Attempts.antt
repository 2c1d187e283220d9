-- ===== src/Http/Attempts.antt =====
-- network/http_client.go: the attempts of Do and DoStream, the calls for each method, and the defaults.
pub mod Counts
pub mod Trace
pub mod Final
pub mod Nothing
use Prim.Native.String.{String}
use deskaone_sdk.Shared.{ℕ, zero, suc, ◌+◌, Bool, true, false, not, ◌&&◌}
use deskaone_sdk.Shared.{List, [], ◌∷◌, ◌++◌, map_ok, if◌then◌else◌}
use deskaone_sdk.Shared.{Option, none, some, Result, ok, err}
use deskaone_sdk.Shared.Int.{ℤ, pos, negsuc, ltb_ℤ}
use deskaone_sdk.Shared.Text.{codes}
use deskaone_sdk.Http.{
  Headers, HttpRequest, HttpResponse, HttpError, nil_client, nil_request, is_retryable_http_error,
}
use deskaone_sdk.Http.Requests.{default_http_user_agent}
use deskaone_sdk.Http.Exchange.{HttpClient, HttpDebugInfo, HttpStreamResponse, Outside, Act}
use deskaone_sdk.Http.Client.{Network, do_with_redirects, do_stream_with_redirects}

-- How many rounds a loop `for i := 0; i <= n; i++` has.
abbrev pub rounds_up_to : ℤ → ℕ
rounds_up_to (pos n) = suc n
rounds_up_to (negsuc n) = 0

-- What Go calls `(res, nil)` with a response or with nil, or `(nil, err)`.
abbrev last_result : {A : Type 0} → Option HttpError → Result HttpError (Option A)
last_result none = ok none
last_result (some e) = err e

module _ {W D A : Type 0} (o : Outside W D) (status_of : A → ℤ) (c : HttpClient) (req : HttpRequest)
    (run : Act (Network W) A) where
  abbrev code_of : Result HttpError A → ℤ
  code_of (ok res) = status_of res
  code_of (err e) = pos 0

  abbrev error_of : Result HttpError A → Option HttpError
  error_of (ok res) = none
  error_of (err e) = some e

  -- What the debug function is told, its time left out; attempts are counted from 1.
  abbrev pub debug_info : ℕ → Result HttpError A → HttpDebugInfo
  debug_info attempt r = record {
    method = req.method;
    url = req.url;
    proxy_used = c.has_picker;
    status_code = code_of r;
    error = error_of r;
    attempt = attempt + 1;
  }

  abbrev pub debug : ℕ → Result HttpError A → Network W → Network W
  debug attempt r net =
      if c.has_debug
      then record net { debugged = net.debugged ++ (debug_info attempt r ∷ []) }
      else net

  -- The `select` between the context and the delay, which is not waited for after the last attempt.
  abbrev waited : Option HttpError × W → Network W → Option HttpError × Network W
  waited (r, w) net = (r, record net { world = w })

  abbrev pub pause : ℕ → Network W → Option HttpError × Network W
  pause attempt net =
      if ltb_ℤ (pos attempt) c.max_retries && c.has_retry_delay
      then waited (o.wait net.world) net
      else (none, net)

  abbrev pub unless_cancelled :
      Option HttpError × Network W
      → (Network W → Result HttpError (Option A) × Network W)
      → Result HttpError (Option A) × Network W
  unless_cancelled (none, net) next = next net
  unless_cancelled (some e, net) next = (err e, net)

  -- What an attempt with the result `r` is followed by.
  abbrev pub judge :
      ℕ
      → Result HttpError A × Network W
      → (HttpError → Network W → Result HttpError (Option A) × Network W)
      → Result HttpError (Option A) × Network W
  judge attempt (ok res, net) next = (ok (some res), debug attempt (ok res) net)
  judge attempt (err e, net) next =
      if not (is_retryable_http_error o.quote e)
      then (err e, debug attempt (err e) net)
      else unless_cancelled (pause attempt (debug attempt (err e) net)) (next e)

  -- The loop over the attempts, with the rounds that are left, the number of the attempt and the last
  -- error.
  unfoldable pub attempts :
      ℕ → ℕ → Option HttpError → Network W → Result HttpError (Option A) × Network W
  attempts zero attempt last net = (last_result last, net)
  attempts (suc left) attempt last net =
      judge attempt (run net) (λ e next. attempts left (attempt + 1) (some e) next)

  unfoldable pub all_attempts : Network W → Result HttpError (Option A) × Network W
  all_attempts net = attempts (rounds_up_to c.max_retries) 0 none net

module _ {W D : Type 0} (o : Outside W D) (sizes : ℕ → ℕ) (rounds : ℕ) where
  abbrev pub response_code : HttpResponse → ℤ
  response_code res = res.status_code

  abbrev stream_code : HttpStreamResponse D → ℤ
  stream_code res = res.status_code

  -- `Do`, on a client and a request that may be nil.
  unfoldable pub do_request :
      Option HttpClient
      → Option HttpRequest
      → Network W
      → Result HttpError (Option HttpResponse) × Network W
  do_request none req net = (err nil_client, net)
  do_request (some c) none net = (err nil_request, net)
  do_request (some c) (some req) net =
      all_attempts o response_code c req (do_with_redirects o sizes rounds c req) net

  unfoldable pub do_stream :
      Option HttpClient
      → Option HttpRequest
      → Network W
      → Result HttpError (Option (HttpStreamResponse D)) × Network W
  do_stream none req net = (err nil_client, net)
  do_stream (some c) none net = (err nil_request, net)
  do_stream (some c) (some req) net =
      all_attempts o stream_code c req (do_stream_with_redirects o sizes rounds c req) net

  pub get :
      Option HttpClient
      → List ℕ
      → Headers
      → Network W
      → Result HttpError (Option HttpResponse) × Network W
  get c url headers net =
      do_request c (some (record { method = codes "GET"; url = url; headers = headers; body = [] }))
        net

  pub delete :
      Option HttpClient
      → List ℕ
      → Headers
      → Network W
      → Result HttpError (Option HttpResponse) × Network W
  delete c url headers net =
      do_request c
        (some (record { method = codes "DELETE"; url = url; headers = headers; body = [] })) net

  pub post :
      Option HttpClient
      → List ℕ
      → Headers
      → List ℕ
      → Network W
      → Result HttpError (Option HttpResponse) × Network W
  post c url headers body net =
      do_request c
        (some (record { method = codes "POST"; url = url; headers = headers; body = body })) net

  pub put :
      Option HttpClient
      → List ℕ
      → Headers
      → List ℕ
      → Network W
      → Result HttpError (Option HttpResponse) × Network W
  put c url headers body net =
      do_request c
        (some (record { method = codes "PUT"; url = url; headers = headers; body = body })) net

-- `NewHTTPClient`, of a timeout and a picker that may be missing.
pub new_http_client : Bool → Bool → HttpClient
new_http_client has_timeout has_picker = record {
  has_timeout = has_timeout;
  has_picker = has_picker;
  user_agent = default_http_user_agent;
  max_redirects = pos 5;
  max_retries = pos 0;
  has_retry_delay = true;
  auto_decompress = true;
  max_body_size = pos 0;
  has_debug = false;
}
