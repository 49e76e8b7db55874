-- ===== src/Http/Requests.antt =====
-- Tema_3/requests.c, and compute_message of Tema_3/helpers.c: the text of the requests. A request
-- is `none` where a string does not fit in its array of LINELEN or BUFLEN bytes. Strings are the bytes
-- in front of their NUL. `cookies` is NULL at `none`, and else the first `cookies_count` strings; the
-- token is there if it exists. The sprintf that appends a field to the body's own buffer is taken to
-- append.
pub mod Decimal
pub mod Framing
pub mod Building
pub mod RoundTrip
use teme_pcom.Prelude.{
  if◌then◌else◌, ltb, ℕ, Bytes, List, Option, [], codes, length, none, some, ◌++◌, ◌+◌, ◌-◌, ◌/◌,
  ◌∷◌,
}
use teme_pcom.Http.Requests.Decimal.{print_decimal}

abbrev pub crlf : Bytes
crlf = 13 ∷ 10 ∷ []

unfoldable pub compute_message : Bytes → Bytes → Bytes
compute_message message line = message ++ line ++ crlf

-- The strings with a separator between them.
unfoldable pub joined : Bytes → List Bytes → Bytes
joined sep [] = []
joined sep (c ∷ []) = c
joined sep (c ∷ d ∷ cs) = c ++ sep ++ joined sep (d ∷ cs)

-- The request line: the method, the URL with the parameters behind a slash, the version.
unfoldable pub request_line : Bytes → Bytes → Option Bytes → Bytes
request_line method url none = method ++ codes " " ++ url ++ codes " HTTP/1.1"
request_line method url (some query_params) =
    method ++ codes " " ++ url ++ codes "/" ++ query_params ++ codes " HTTP/1.1"

unfoldable pub host_line : Bytes → Bytes
host_line host = codes "Host: " ++ host

-- LINELEN and BUFLEN, the sizes of the arrays
abbrev pub linelen : ℕ
linelen = 1000

abbrev pub buflen : ℕ
buflen = 4096

-- A string that is written to an array of `size` bytes, with its NUL; `none` is a write past the end.
unfoldable pub into : ℕ → Bytes → Option Bytes
into size s = if ltb (length s) size then some s else none

infixl 5 ◌>>=◌
abbrev pub ◌>>=◌ : Option Bytes → (Bytes → Option Bytes) → Option Bytes
none >>= f = none
some s >>= f = f s

-- sprintf (line, ...); compute_message (message, line);
unfoldable pub add_line : Bytes → Bytes → Option Bytes
add_line message line = do line ← into linelen line; into buflen (compute_message message line)

-- if (jwt_token_exists) ...
unfoldable pub add_token : Option Bytes → Bytes → Option Bytes
add_token none message = some message
add_token (some jwt_token) message = add_line message (codes "Authorization: Bearer " ++ jwt_token)

-- if (cookies != NULL) ...
unfoldable pub add_cookies : Option (List Bytes) → Bytes → Option Bytes
add_cookies none message = some message
add_cookies (some cookies) message =
    add_line message (codes "Cookie: " ++ joined (codes "; ") cookies)

-- What compute_get_request and compute_delete_request share, over the method.
unfoldable pub compute_plain_request :
    Bytes → Bytes → Bytes → Option Bytes → Option (List Bytes) → Option Bytes → Option Bytes
compute_plain_request method host url query_params cookies jwt_token = do
  message ← add_line [] (request_line method url query_params)
  message ← add_line message (host_line host)
  message ← add_token jwt_token message
  message ← add_cookies cookies message
  into buflen (compute_message message [])

unfoldable pub compute_get_request :
    Bytes → Bytes → Option Bytes → Option (List Bytes) → Option Bytes → Option Bytes
compute_get_request = compute_plain_request (codes "GET")

unfoldable pub compute_delete_request :
    Bytes → Bytes → Option Bytes → Option (List Bytes) → Option Bytes → Option Bytes
compute_delete_request = compute_plain_request (codes "DELETE")

-- What compute_post_request and compute_put_request share, over the method.
unfoldable pub compute_body_request :
    Bytes
    → Bytes
    → Bytes
    → Option Bytes
    → Bytes
    → List Bytes
    → Option (List Bytes)
    → Option Bytes
    → Option Bytes
compute_body_request method host url query_params content_type body_data cookies jwt_token = do
  message ← add_line [] (request_line method url query_params)
  message ← add_line message (host_line host)
  message ← add_line message (codes "Content-Type: " ++ content_type)
  body_data_buffer ← into linelen (joined (codes "&") body_data)
  message ← add_line message (codes "Content-Length: " ++ print_decimal (length body_data_buffer))
  message ← add_token jwt_token message
  message ← add_cookies cookies message
  message ← into buflen (compute_message message [])
  into buflen (message ++ body_data_buffer)

unfoldable pub compute_post_request :
    Bytes → Bytes → Bytes → List Bytes → Option (List Bytes) → Option Bytes → Option Bytes
compute_post_request host url = compute_body_request (codes "POST") host url none

unfoldable pub compute_put_request :
    Bytes
    → Bytes
    → Option Bytes
    → Bytes
    → List Bytes
    → Option (List Bytes)
    → Option Bytes
    → Option Bytes
compute_put_request = compute_body_request (codes "PUT")
