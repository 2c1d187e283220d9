-- ===== src/Http/Requests.antt =====
-- network/http_client.go: the text of a request, from `buildRawHTTPRequest`.
use deskaone_sdk.Shared.{◌≢◌, ℕ, Bool}
use deskaone_sdk.Shared.{List, [], ◌∷◌, ◌++◌, length}
use deskaone_sdk.Shared.{if◌then◌else◌}
use deskaone_sdk.Shared.Text.{codes, trim_space, is_empty_text, itoa}
use deskaone_sdk.Http.{Headers, has_header}
use deskaone_sdk.Http.Body.{}

-- What `url.Parse` gives: the scheme, Host, and what Hostname, Port and RequestURI return.
pub record Url : Type 0 where
  pub scheme : List ℕ
  pub host : List ℕ
  pub hostname : List ℕ
  pub port : List ℕ
  pub request_uri : List ℕ

abbrev pub default_http_user_agent : List ℕ
default_http_user_agent = codes "DesKaOne/0.0.1"

abbrev pub crlf : List ℕ
crlf = b'\r' ∷ b'\n' ∷ []

abbrev pub header_text : List ℕ → List ℕ → List ℕ
header_text key value = key ++ (codes ": " ++ (value ++ crlf))

unfoldable pub write_header_if_missing : Headers → List ℕ → List ℕ → List ℕ
write_header_if_missing headers key value =
    if has_header headers key then [] else header_text key value

-- The loop that writes the headers of the request.
unfoldable pub write_headers : Headers → List ℕ
write_headers [] = []
write_headers ((k, v) ∷ headers) =
    let rest = write_headers headers in
    if is_empty_text (trim_space k) then rest else header_text (trim_space k) (trim_space v) ++ rest

abbrev or_else : List ℕ → List ℕ → List ℕ
or_else [] d = d
or_else (b ∷ s) d = b ∷ s

-- The lines that are written where the request has no header of their name.
unfoldable pub default_headers : Url → Headers → List ℕ → List ℕ → Bool → List ℕ
default_headers u headers body user_agent auto_decompress =
    write_header_if_missing headers (codes "Host") (or_else u.host u.hostname)
    ++ (write_header_if_missing headers (codes "User-Agent")
          (or_else user_agent default_http_user_agent)
        ++ (write_header_if_missing headers (codes "Accept") (codes "*/*")
            ++ (write_header_if_missing headers (codes "Connection") (codes "close")
                ++ ((if auto_decompress
                      then write_header_if_missing headers (codes "Accept-Encoding")
                          (codes "gzip, deflate")
                      else [])
                    ++ (if is_empty_text body
                        then []
                        else write_header_if_missing headers (codes "Content-Length")
                            (itoa (length body)))))))

unfoldable pub build_raw_http_request : List ℕ → Url → Headers → List ℕ → List ℕ → Bool → List ℕ
build_raw_http_request method u headers body user_agent auto_decompress =
    (method ++ (b' ' ∷ or_else u.request_uri (b'/' ∷ [])) ++ codes " HTTP/1.1")
    ++ (crlf
        ++ (default_headers u headers body user_agent auto_decompress
            ++ (write_headers headers ++ (crlf ++ body))))

pub build_raw_http_request-ne :
    (method : List ℕ) (u : Url) (headers : Headers) (body user_agent : List ℕ) (unpack : Bool)
    → build_raw_http_request method u headers body user_agent unpack ≢ []
unfolding build_raw_http_request
build_raw_http_request-ne [] u headers body user_agent unpack = λ e. cc
build_raw_http_request-ne (b ∷ s) u headers body user_agent unpack = λ e. cc
