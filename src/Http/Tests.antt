-- ===== src/Http/Tests.antt =====
-- The HTTP client on small inputs. A connection is what the peer sends; the network is the list of the
-- connections that dialling gives.
use deskaone_sdk.Shared.{ℕ, ◌*◌, ◌≡◌, ◌↔◌, ◌⊎◌, refl, true, false, arith}
use deskaone_sdk.Shared.{none, some, Result, ok, err, List, [], ◌∷◌, ◌++◌}
use deskaone_sdk.Shared.Int.{pos, ltb_ℤ}
use deskaone_sdk.Shared.Text.{codes, text_eq, trim_space, trim_front, trim_back, space_size}
use deskaone_sdk.Shared.Text.{
  itoa, digits, to_lower, lower_from, to_upper, upper_from, has_prefix, index_of,
}
use deskaone_sdk.Shared.Words.{equal_fold, fold_from, fields_from, atoi, parse_digits}
use mathlib.Core.Option.{bind}
use deskaone_sdk.Wire.{Conn, IoError, read_some, write}
use deskaone_sdk.Tcp.{TcpClient, write_full, write_loop}
use deskaone_sdk.Tcp
use deskaone_sdk.Http.{
  HttpRequest, HttpResponse, HttpError, dial_error, names, get_header, next_redirect_request,
  turns_into_get, without_body, remove_header, has_header, is_redirect_status,
}
use deskaone_sdk.Http.Lines.{
  parse_http_status_code, read_http_line, read_http_headers, read_header_lines, cut_line,
  trim_breaks, drop_breaks, add_header, header_line,
}
use deskaone_sdk.Http.Body.{
  read_all, read_raw, build_http_body_reader, parse_hex, hex_digits, size_text, failed,
}
use deskaone_sdk.Http.Requests.{
  build_raw_http_request, default_headers, write_header_if_missing, write_headers,
}
use deskaone_sdk.Http.Exchange.{
  exchange, answer_head, lines_of, wrap_decompress_reader, HttpClient, HttpStreamResponse, Outside,
}
use deskaone_sdk.Http.Client.{Network}
use deskaone_sdk.Http.Attempts.{do_request, response_code, all_attempts, attempts}
use deskaone_sdk.Http.Client.{
  do_with_redirects, follow, do_once, do_stream_once, read_response, read_limited, read_body,
  port_of, resolve_redirect_url, is_final,
}
use deskaone_sdk.Http.Attempts.Counts.{Counts}
use deskaone_sdk.Http.Attempts.Trace.{Reports, do_request-Reports}
use deskaone_sdk.Http.Attempts.Nothing.{do_request-none_iff}
use deskaone_sdk.Http.Attempts.Final.{do_request-final}
use deskaone_sdk.Http.Redirects.{BecomesGet, Redirected, next_redirect_request-Redirected}
use deskaone_sdk.Http.Body.Chunks.{Chunk, IsChunk, reader}
use deskaone_sdk.Http.Client.Bodies.{
  in_chunks, Returns, read_response-chunks, read_response_truncated,
}

third_word : parse_http_status_code (codes "HTTP/1.1 404 Not Found") ≡ ok (pos 404)
unfolding parse_http_status_code fields_from space_size atoi parse_digits bind
third_word = refl

same_header_twice :
    header_line (codes "Via: b") (header_line (codes "Via: a") [])
    ≡ (codes "Via", codes "a, b") ∷ []
unfolding header_line add_header index_of has_prefix trim_space trim_front trim_back space_size
    text_eq
same_header_twice = refl

size_with_extension : parse_hex (size_text (codes "1F ;name=x")) ≡ some (pos 31)
unfolding parse_hex size_text hex_digits index_of has_prefix trim_space trim_front trim_back
    space_size bind
size_with_extension = refl

abbrev posted : HttpRequest
posted = record {
  method = codes "post";
  url = codes "http://a/";
  headers =
      (codes "host", codes "a")
      ∷ (codes "content-type", codes "text/plain")
      ∷ (codes "Authorization", codes "secret")
      ∷ [];
  body = codes "x";
}

moved : next_redirect_request posted (codes "http://b/") (pos 302) ≡ record {
  method = codes "GET";
  url = codes "http://b/";
  headers = (codes "Authorization", codes "secret") ∷ [];
  body = [];
}
unfolding next_redirect_request turns_into_get without_body remove_header names equal_fold fold_from
    has_prefix text_eq trim_space trim_front trim_back space_size to_upper upper_from
moved = refl

next_redirect_request-Redirected_example :
    (BecomesGet (pos 302) posted.method
      × Redirected true posted
          (codes "http://b/")
          (codes "Authorization")
          (next_redirect_request posted (codes "http://b/") (pos 302)))
    ⊎ (¬ BecomesGet (pos 302) posted.method
        × Redirected false posted
            (codes "http://b/")
            (codes "Content-Type")
            (next_redirect_request posted (codes "http://b/") (pos 302)))
unfolding equal_fold fold_from has_prefix text_eq
next_redirect_request-Redirected_example =
    next_redirect_request-Redirected posted (codes "http://b/") (pos 302) (codes "Authorization")
      (codes "Content-Type") (refl, (refl, (refl, tt))) (refl, tt)

abbrev open_conn : List ℕ → Conn
open_conn input = record {
  input = input;
  cuts = 4 ∷ 0 ∷ 9 ∷ [];
  at_end = IoError.eof;
  sent = [];
  room = 4096;
  read_deadline = true;
  write_deadline = false;
  is_closed = false;
}

abbrev tcp : List ℕ → TcpClient
tcp input = record { conn = open_conn input; has_timeout = true; is_closed = false }

abbrev next_connection : List TcpClient → Result HttpError TcpClient × List TcpClient
next_connection [] = (err (dial_error true (codes "i/o timeout")), [])
next_connection (c ∷ cs) = (ok c, cs)

abbrev outside : Outside (List TcpClient) (Unit {0})
outside = record {
  parse_url = λ s. ok (record {
    scheme = codes "http";
    host = codes "a:80";
    hostname = codes "a";
    port = codes "80";
    request_uri = s;
  });
  resolve_reference = λ base next. next.request_uri;
  quote = λ s. b'"' ∷ s ++ (b'"' ∷ []);
  dial = λ host port is_tls cs. next_connection cs;
  wait = λ cs. (none, cs);
  open_gzip = λ s. (ok tt, s);
  open_deflate = tt;
  decode = λ n u s. (failed (dial_error false []), u, s);
}

abbrev sizes : ℕ → ℕ
sizes n = 2 * n

abbrev telling : HttpClient
telling = record {
  has_timeout = true;
  has_picker = false;
  user_agent = [];
  max_redirects = pos 3;
  max_retries = pos 2;
  has_retry_delay = true;
  auto_decompress = true;
  max_body_size = pos 0;
  has_debug = true;
}

abbrev answers : Network (List TcpClient)
answers = record {
  world =
      tcp (codes "HTTP/1.1 302 Found\r\nLocation: /x\r\n\r\n")
      ∷ tcp (codes "HTTP/1.1 200 OK\r\nContent-Length: 2\r\n\r\nhi")
      ∷ [];
  dialled = 0;
  given_up = [];
  debugged = [];
}

abbrev found : HttpResponse
found = record {
  status_code = pos 200;
  status = codes "HTTP/1.1 200 OK";
  headers = (codes "Content-Length", codes "2") ∷ [];
  body = codes "hi";
}

follows_redirect :
    (do_request outside sizes 64 (some telling) (some posted) answers).0 ≡ ok (some found)
unfolding do_request all_attempts attempts do_with_redirects follow do_once do_stream_once exchange
    read_response read_limited read_body port_of resolve_redirect_url is_final read_all read_raw
    wrap_decompress_reader read_some write_full write_loop read_http_line read_http_headers
    read_header_lines cut_line trim_breaks drop_breaks build_http_body_reader get_header names
    is_redirect_status parse_http_status_code fields_from space_size atoi parse_digits bind text_eq
    header_line add_header index_of has_prefix trim_space trim_front trim_back equal_fold fold_from
    to_lower lower_from next_redirect_request turns_into_get without_body remove_header to_upper
    upper_from write Tcp.write build_raw_http_request default_headers write_header_if_missing
    has_header itoa digits write_headers answer_head lines_of
follows_redirect = refl

do_request-final_example :
    (is_redirect_status found.status_code ≡ false)
    ⊎ (get_header found.headers (codes "Location") ≡ [])
do_request-final_example =
    do_request-final outside sizes 64 telling posted answers found follows_redirect

do_request-Reports_example :
    Reports outside
      (response_code outside sizes 64)
      telling
      posted
      (do_with_redirects outside sizes 64 telling posted)
      3
      0
      3
      answers
      (do_request outside sizes 64 (some telling) (some posted) answers)
do_request-Reports_example = do_request-Reports outside sizes 64 telling posted answers 2 refl refl

do_request-none_iff_example :
    ((do_request outside sizes 64 (some telling) (some posted) answers).0 ≡ ok none)
    ↔ (ltb_ℤ (pos 2) (pos 0) ≡ true)
do_request-none_iff_example = do_request-none_iff outside sizes 64 telling posted answers

abbrev chunk : List ℕ → List ℕ → Chunk
chunk line bytes = record { line = line; bytes = bytes }

abbrev two_chunks : List Chunk
two_chunks = chunk (codes "3;x=1") (codes "abc") ∷ chunk (codes "0b") (codes "hello world") ∷ []

first : IsChunk (chunk (codes "3;x=1") (codes "abc"))
unfolding parse_hex size_text hex_digits index_of has_prefix trim_space trim_front trim_back
    space_size bind
first = record { plain = ground arith; size = refl; nonempty = λ e. cc }

second : IsChunk (chunk (codes "0b") (codes "hello world"))
unfolding parse_hex size_text hex_digits index_of has_prefix trim_space trim_front trim_back
    space_size bind
second = record { plain = ground arith; size = refl; nonempty = λ e. cc }

abbrev streamed : List ℕ → HttpStreamResponse (Unit {0})
streamed input = record {
  status_code = pos 200;
  status = codes "HTTP/1.1 200 OK";
  headers = [];
  body = in_chunks outside sizes 64 (reader 0);
  client = tcp input;
}

read_response-chunks_example :
    Returns outside sizes 64 telling
      (streamed (codes "3;x=1\r\nabc\r\n0b\r\nhello world\r\n0\r\nEtag: 1\r\n\r\n"))
      answers
      (codes "abchello world")
unfolding parse_hex size_text hex_digits index_of has_prefix trim_space trim_front trim_back
    space_size bind
read_response-chunks_example =
    read_response-chunks outside sizes 64 telling
      (streamed (codes "3;x=1\r\nabc\r\n0b\r\nhello world\r\n0\r\nEtag: 1\r\n\r\n")) answers
      two_chunks (codes "0") [] (codes "Etag: 1" ∷ []) refl refl refl refl (first, (second, tt))
      (ground arith) refl ((ground arith, λ e. cc), tt) (omega arith)

read_response_truncated_example :
    Returns outside sizes 64 telling
      (streamed (codes "3;x=1\r\nabc\r\n0b\r\nhello world\r\n"))
      answers
      (codes "abchello world")
unfolding parse_hex size_text hex_digits index_of has_prefix trim_space trim_front trim_back
    space_size bind
read_response_truncated_example =
    read_response_truncated outside sizes 64 telling
      (streamed (codes "3;x=1\r\nabc\r\n0b\r\nhello world\r\n")) answers two_chunks refl refl refl
      refl refl (first, (second, tt)) (omega arith)
