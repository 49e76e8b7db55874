-- ===== src/Http/Tests.antt =====
-- Requests and buffers at concrete inputs.
pub mod Session
use teme_pcom.Prelude.{◌≢◌, Bytes, List, Option, [], arith, codes, none, refl, some, ◌++◌, ◌∷◌, ◌≡◌}
use teme_pcom.Prelude.{Bytes, List, Option, [], arith, codes, none, some, ◌∷◌, ◌≡◌}
use teme_pcom.Http.Requests.RoundTrip.{
  IsClean, IsText, read_request-compute_body_request, read_request-compute_plain_request,
}
use teme_pcom.Http.Requests.Framing.{read_request, Fits}
use teme_pcom.Http.Buffer.{tolower, agrees, find_from, Buffer, buffer_find, buffer_find_insensitive}
use teme_pcom.Http.Requests.{compute_body_request, compute_plain_request, joined}
use teme_pcom.Http.Buffer.First.{
  buffer_find_insensitive-FindsFirst, buffer_find-FindsFirst, FindsFirst,
}
use teme_pcom.Http.Requests.Decimal.{digits_from, print_decimal, strtol}
use teme_pcom.Http.Connection.{
  content_length_name, header_terminator, text, read_failed, gave, receive_from_server,
}
use teme_pcom.Http.Connection.Response.{receive_from_server-IsResponse, concat, IsResponse}
use teme_pcom.Http.Connection.Prefixes.{holding}

abbrev host : Bytes
host = codes "63.32.125.183"

abbrev url : Bytes
url = codes "/api/v1/tema/user/login"

abbrev content_type : Bytes
content_type = codes "application/json"

abbrev cookies : Option (List Bytes)
cookies = some (codes "session=1" ∷ [])

abbrev body_data : List Bytes
body_data = codes "{}" ∷ []

fields-IsClean :
    (method : Bytes) → method ≢ [] → IsText method → IsClean method host url none cookies none
fields-IsClean method he hm = record {
  has_method = he;
  method_clean = hm;
  host_clean = omega arith;
  url_clean = omega arith;
  query_clean = tt;
  cookies_clean = omega arith;
  token_clean = tt;
}

abbrev post_lines : List Bytes
post_lines =
    codes "POST /api/v1/tema/user/login HTTP/1.1"
    ∷ codes "Host: 63.32.125.183"
    ∷ codes "Content-Type: application/json"
    ∷ codes "Content-Length: 2"
    ∷ codes "Cookie: session=1"
    ∷ []

abbrev get_lines : List Bytes
get_lines =
    codes "GET /api/v1/tema/user/login HTTP/1.1"
    ∷ codes "Host: 63.32.125.183"
    ∷ codes "Cookie: session=1"
    ∷ []

post_lines-Fits : Fits post_lines (codes "{}")
post_lines-Fits = record {
  lines_fit = omega arith;
  body_fits = omega arith;
  request_fits = omega arith;
}

get_lines-Fits : Fits get_lines []
get_lines-Fits = record {
  lines_fit = omega arith;
  body_fits = omega arith;
  request_fits = omega arith;
}

read_request-compute_body_request_example :
    (request : Bytes) × (compute_body_request
        (codes "POST")
        host
        url
        none
        content_type
        body_data
        cookies
        none
      ≡ some request)
    × (read_request request ≡ some (post_lines, codes "{}"))
    × (strtol (codes "2") ≡ 2)
unfolding print_decimal digits_from
read_request-compute_body_request_example =
    read_request-compute_body_request (codes "POST") host url none content_type body_data cookies
      none (fields-IsClean (codes "POST") (λ e. cc) (omega arith)) (omega arith) (omega arith)
      post_lines-Fits

read_request-compute_plain_request_example :
    (request : Bytes) × (compute_plain_request (codes "GET") host url none cookies none
      ≡ some request)
    × (read_request request ≡ some (get_lines, []))
read_request-compute_plain_request_example =
    read_request-compute_plain_request (codes "GET") host url none cookies none
      (fields-IsClean (codes "GET") (λ e. cc) (omega arith)) get_lines-Fits

abbrev response : Buffer
response = record { contents = some (codes "HTTP/1.1 200 OK") }

buffer_find-FindsFirst_example : FindsFirst (λ c. c) response (codes "200") (some 9)
unfolding buffer_find find_from agrees
buffer_find-FindsFirst_example = buffer_find-FindsFirst response (codes "200")

-- A response in two chunks, the second of which begins inside the header.
abbrev first_chunk : Bytes
first_chunk = codes "HTTP/1.1 200 OK" ++ 13 ∷ 10 ∷ codes "content-length: 2" ++ 13 ∷ 10 ∷ []

abbrev second_chunk : Bytes
second_chunk = 13 ∷ 10 ∷ codes "hi"

abbrev both_chunks : List Bytes
both_chunks = first_chunk ∷ second_chunk ∷ []

both_chunks-IsResponse : IsResponse (concat both_chunks)
unfolding buffer_find buffer_find_insensitive find_from agrees tolower print_decimal digits_from
both_chunks-IsResponse = record {
  header_at = 34;
  name_at = 17;
  body_length = 2;
  others = 10 ∷ 13 ∷ 10 ∷ codes "hi";
  ends = buffer_find-FindsFirst (holding (concat both_chunks)) header_terminator;
  named = buffer_find_insensitive-FindsFirst (holding (concat both_chunks)) content_length_name;
  value = refl;
  inside = omega arith;
  whole = refl;
  sized = omega arith;
}

receive_from_server-IsResponse_example :
    receive_from_server (gave first_chunk ∷ gave second_chunk ∷ read_failed ∷ [])
    ≡ text (some (concat both_chunks ++ 0 ∷ [])) (read_failed ∷ [])
receive_from_server-IsResponse_example =
    receive_from_server-IsResponse both_chunks (read_failed ∷ []) ((λ e. cc), ((λ e. cc), tt))
      both_chunks-IsResponse
