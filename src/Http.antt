-- ===== src/Http.antt =====
-- network/http_client.go: requests, headers, and the request behind a redirect. A map of headers is
-- the list of its entries, in the order in which the range loops meet them, which Go leaves open.
pub mod Lines
pub mod Body
pub mod Requests
pub mod Exchange
pub mod Client
pub mod Attempts
pub mod Redirects
mod Tests
use Prim.Native.String.{String}
use deskaone_sdk.Shared.{ℕ, zero, suc, ◌+◌, ◌-◌, Bool, true, false, ◌&&◌, ◌||◌, not}
use deskaone_sdk.Shared.{List, [], ◌∷◌, ◌++◌, ltb, ◌==◌, if◌then◌else◌, Result, ok, err}
use deskaone_sdk.Shared.Int.{ℤ, pos, negsuc}
use deskaone_sdk.Shared.Text.{codes, text_eq, trim_space, to_upper, to_lower, index_of}
use deskaone_sdk.Shared.Words.{equal_fold}
use deskaone_sdk.Wire.{IoError}
use deskaone_sdk.Wire
use deskaone_sdk.Shared.{Option, none, some}

abbrev pub Headers : Type 0
Headers = List (List ℕ × List ℕ)

pub record HttpRequest : Type 0 where
  pub method : List ℕ
  pub url : List ℕ
  pub headers : Headers
  pub body : List ℕ

pub record HttpResponse : Type 0 where
  pub status_code : ℤ
  pub status : List ℕ
  pub headers : Headers
  pub body : List ℕ

-- The errors, with the texts that their messages hold. A dialling error is a timeout or not.
pub data HttpError : Type 0 where
  nil_client nil_request too_many_redirects empty_host client_closed short_write : HttpError
  negative_chunk_size invalid_chunk_delimiter : HttpError
  -- A loop has not ended: never with the fuel that the code's translation gives.
  unfinished : HttpError
  bad_url unsupported_scheme invalid_port invalid_status_line invalid_status_code :
      List ℕ → HttpError
  invalid_content_length invalid_chunk_size decoder_error context_error : List ℕ → HttpError
  dial_error : Bool → List ℕ → HttpError
  io_error : IoError → HttpError

-- The loops over a map of headers. A name matches by `strings.EqualFold` of its trimmed text.
unfoldable pub names : List ℕ → List ℕ → Bool
names key k = equal_fold (trim_space k) key

unfoldable pub has_header : Headers → List ℕ → Bool
has_header [] key = false
has_header ((k, v) ∷ headers) key = names key k || has_header headers key

unfoldable pub get_header : Headers → List ℕ → List ℕ
get_header [] key = []
get_header ((k, v) ∷ headers) key =
    let rest = get_header headers key in if names key k then v else rest

pub remove_header : Headers → List ℕ → Headers
remove_header [] key = []
remove_header ((k, v) ∷ headers) key =
    let rest = remove_header headers key in if names key k then rest else (k, v) ∷ rest

abbrev is_one_of : List ℕ → ℕ → Bool
is_one_of [] n = false
is_one_of (m ∷ ms) n = n == m || is_one_of ms n

pub is_redirect_status : ℤ → Bool
is_redirect_status (pos n) = is_one_of (301 ∷ 302 ∷ 303 ∷ 307 ∷ 308 ∷ []) n
is_redirect_status (negsuc n) = false

-- `statusCode == 303 || ((statusCode == 301 || statusCode == 302) && method == "POST")`.
pub turns_into_get : ℤ → List ℕ → Bool
turns_into_get (pos n) method =
    n == 303 || ((n == 301 || n == 302) && text_eq (to_upper (trim_space method)) (codes "POST"))
turns_into_get (negsuc n) method = false

pub without_body : HttpRequest → HttpRequest
without_body req = record req {
  method = codes "GET";
  body = [];
  headers =
      remove_header (remove_header req.headers (codes "Content-Length")) (codes "Content-Type");
}

-- `nextRedirectRequest`; it works on a copy, so the request itself is left alone.
pub next_redirect_request : HttpRequest → List ℕ → ℤ → HttpRequest
next_redirect_request req next_url code =
    let moved : HttpRequest = record req { url = next_url } in
    let next = if turns_into_get code req.method then without_body moved else moved in
    record next { headers = remove_header next.headers (codes "Host") }

pub default_port_by_scheme : List ℕ → ℤ
default_port_by_scheme scheme =
    if text_eq (to_lower scheme) (codes "https") then pos 443 else pos 80

abbrev contains : List ℕ → List ℕ → Bool
contains s sub = elim (index_of sub s) [ none ↦ false | some i ↦ true ]

-- The part of `isRetryableHTTPError` that reads the message.
pub is_retryable_message : List ℕ → Bool
is_retryable_message text =
    let msg = to_lower text in
    contains msg (codes "connection reset")
    || (contains msg (codes "connection refused")
        || (contains msg (codes "timeout")
            || (contains msg (codes "temporary")
                || (contains msg (codes "broken pipe")
                    || (contains msg (codes "proxy refused")
                        || contains msg (codes "socks connect failed"))))))

-- The messages of the standard library's errors.
abbrev io_text : IoError → List ℕ
io_text IoError.eof = codes "EOF"
io_text IoError.unexpected_eof = codes "unexpected EOF"
io_text IoError.timeout = codes "i/o timeout"
io_text IoError.reset = codes "connection reset by peer"
io_text IoError.closed = codes "use of closed network connection"
io_text IoError.short_write = codes "short write"

-- `err.Error()`; `quote` is strconv.Quote, by which %q prints a text.
module _ (quote : List ℕ → List ℕ) where
  pub error_text : HttpError → List ℕ
  error_text nil_client = codes "nil HTTPClient"
  error_text nil_request = codes "nil HTTP request"
  error_text too_many_redirects = codes "too many redirects"
  error_text empty_host = codes "empty URL host"
  error_text client_closed = codes "tcp client closed"
  error_text short_write = codes "short write"
  error_text negative_chunk_size = codes "invalid negative chunk size"
  error_text invalid_chunk_delimiter = codes "invalid chunk delimiter"
  error_text unfinished = []
  error_text (bad_url e) = e
  error_text (unsupported_scheme s) = codes "unsupported URL scheme: " ++ s
  error_text (invalid_port s) = codes "invalid URL port: " ++ s
  error_text (invalid_status_line s) = codes "invalid HTTP status line: " ++ quote s
  error_text (invalid_status_code s) = codes "invalid HTTP status code: " ++ quote s
  error_text (invalid_content_length s) = codes "invalid Content-Length: " ++ s
  error_text (invalid_chunk_size s) = codes "invalid chunk size: " ++ quote s
  error_text (decoder_error e) = e
  error_text (context_error e) = e
  error_text (dial_error is_timeout e) = e
  error_text (io_error e) = io_text e

  -- `err == io.EOF`, or a net.Error that is a timeout.
  abbrev ends_or_times_out : HttpError → Bool
  ends_or_times_out (io_error IoError.eof) = true
  ends_or_times_out (io_error IoError.timeout) = true
  ends_or_times_out (dial_error is_timeout e) = is_timeout
  ends_or_times_out e = false

  pub is_retryable_http_error : HttpError → Bool
  is_retryable_http_error e = ends_or_times_out e || is_retryable_message (error_text e)
