-- ===== src/Http/Commands/Account.antt =====
-- Tema_3/client.c: login_admin, logout_admin, login, get_access, logout and exit.
use teme_pcom.Prelude.{
  Bytes, Option, [], codes, drop, if◌then◌else◌, none, some, take, ◌++◌, ◌+◌, ◌∷◌,
}
use teme_pcom.Http.Session.{Action, ◌>>=◌, ◌>>◌, pure, gets, stop, exits, fault}
use teme_pcom.Http.Session.Actions.{
  print, ask, open_connection, close_connection, exchange, strstr, has, headers, set_cookie,
  set_token, free_cookies, free_held_cookies, free_token, Headers,
}
use teme_pcom.Http.Requests.{
  compute_get_request, compute_post_request, compute_delete_request, compute_put_request,
}
use teme_pcom.Http.Json.{Json}

abbrev pub host : Bytes
host = codes "63.32.125.183"

-- The requests with the session's headers.
abbrev pub get_message : Bytes → Option Bytes → Headers → Option Bytes
get_message url query_params h = compute_get_request host url query_params h.cookies h.jwt_token

abbrev pub post_message : Bytes → Bytes → Headers → Option Bytes
post_message url json_string h =
    compute_post_request host url (codes "application/json") (json_string ∷ []) h.cookies
      h.jwt_token

abbrev pub delete_message : Bytes → Option Bytes → Headers → Option Bytes
delete_message url query_params h =
    compute_delete_request host url query_params h.cookies h.jwt_token

abbrev pub put_message : Bytes → Bytes → Bytes → Headers → Option Bytes
put_message url query_params json_string h =
    compute_put_request host url (some query_params) (codes "application/json") (json_string ∷ [])
      h.cookies h.jwt_token

abbrev pub line_feed : Bytes
line_feed = 10 ∷ []

-- A line around a name: printf ("...%s...\n", name).
abbrev pub line_with : Bytes → Bytes → Bytes → Bytes
line_with before name after = before ++ name ++ after ++ line_feed

-- The cookie behind "Set-Cookie: ", up to a semicolon, and the response that is left: the
-- semicolon is overwritten by a NUL.
unfoldable pub cookie_of : Bytes → Option (Bytes × Bytes)
cookie_of response = elim (strstr response (codes "Set-Cookie: ")) [
  | none ↦ none
  | some at ↦
      let cookie = drop (at + 12) response in
      elim (strstr cookie (codes ";")) [
        | none ↦ some (cookie, response)
        | some end ↦ some (take end cookie, take (at + 12 + end) response)
      ]
]

-- if (cookie && cookies_exist == 0) ...; the response as it is then.
unfoldable pub keep_cookie : Bytes → Action Bytes
keep_cookie response = do
  exist ← gets (λ s. s.cookies_exist)
  if exist then pure response else elim (cookie_of response) [
    | none ↦ pure response
    | some (cookie, rest) ↦ do set_cookie cookie; pure rest
  ]

unfoldable pub login_admin_report : Bytes → Bytes → Bytes
login_admin_report username response =
    if has response (codes "200 OK")
    then line_with (codes "SUCCES: Login successful for admin ") username (codes ".")
    else if has response (codes "Already logged in")
    then line_with (codes "ERROR: Already logged in as admin ") username (codes ".")
    else line_with (codes "ERROR: Login failed for admin ") username (codes ".")

unfoldable pub login_report : Bytes → Bytes → Bytes
login_report username response =
    if has response (codes "200 OK")
    then line_with (codes "SUCCES: Login successful for user ") username (codes ".")
    else if has response (codes "User already logged in")
    then line_with (codes "ERROR: User ") username (codes " already logged in.")
    else line_with (codes "ERROR: Login failed for user ") username (codes ".")

-- The commands that are refused with a cookie.
unfoldable pub unless_logged_in : Action (Unit {0}) → Action (Unit {0})
unless_logged_in m = do
  exist ← gets (λ s. s.cookies_exist)
  if exist then print (codes "ERROR: Already logged in as another user." ++ line_feed) else m

-- basic_extract_json_response: the text from the first brace with a quote on.
unfoldable pub basic_extract_json_response : Bytes → Option Bytes
basic_extract_json_response response = elim (strstr response (b'{' ∷ b'"' ∷ [])) [
  | none ↦ none
  | some at ↦ some (drop at response)
]

-- logout_admin, whose token stays.
unfoldable pub logout_admin : Action (Unit {0})
logout_admin = do
  open_connection
  h ← headers
  response ← exchange (get_message (codes "/api/v1/tema/admin/logout") none h)
  (if has response (codes "200 OK")
      then (do print (codes "SUCCES: Logout successful for admin." ++ line_feed); free_cookies)
      else print (codes "ERROR: Logout failed for admin." ++ line_feed))
  close_connection

unfoldable pub logout : Action (Unit {0})
logout = do
  open_connection
  h ← headers
  response ← exchange (get_message (codes "/api/v1/tema/user/logout") none h)
  (if has response (codes "200 OK")
      then (do
        print (codes "SUCCES: Logout successful for user." ++ line_feed)
        free_cookies
        free_token)
      else print (codes "ERROR: Logout failed for user." ++ line_feed))
  close_connection

-- exit, which leaves the loop.
unfoldable pub exit : Action (Unit {0})
exit = do free_held_cookies; free_token; close_connection; stop exits

module _ {V D : Type 0} (json : Json V D) where
  -- A JSON object of two strings, or of three.
  abbrev pub object_2 : Bytes → Bytes → Bytes → Bytes → Bytes
  object_2 k v k' v' =
      json.to_string_pretty (json.set_string k' v' (json.set_string k v json.init_object))

  unfoldable pub login_admin : Action (Unit {0})
  login_admin = unless_logged_in (do
    username ← ask (codes "username=") 100
    password ← ask (codes "password=") 100
    open_connection
    h ← headers
    let body = object_2 (codes "username") username (codes "password") password
    response ← exchange (post_message (codes "/api/v1/tema/admin/login") body h)
    rest ← keep_cookie response
    print (login_admin_report username rest)
    close_connection)

  unfoldable pub login : Action (Unit {0})
  login = unless_logged_in (do
    admin_username ← ask (codes "admin_username=") 100
    username ← ask (codes "username=") 100
    password ← ask (codes "password=") 100
    open_connection
    h ← headers
    let object = json.set_string (codes "password") password (
        json.set_string (codes "username") username
          (json.set_string (codes "admin_username") admin_username json.init_object))
    let body = json.to_string_pretty object
    response ← exchange (post_message (codes "/api/v1/tema/user/login") body h)
    print (login_report username response)
    (if has response (codes "200 OK") then (do _ ← keep_cookie response; pure tt) else pure tt)
    close_connection)

  -- The token of the response; strlen of a NULL is a fault.
  unfoldable pub keep_token : Bytes → Action (Unit {0})
  keep_token response =
      elim (json.get_string (json.parse_string (basic_extract_json_response response))
        (codes "token")) [ none ↦ stop fault | some access ↦ set_token access ]

  unfoldable pub get_access : Action (Unit {0})
  get_access = do
    open_connection
    h ← headers
    response ← exchange (get_message (codes "/api/v1/tema/library/access") none h)
    (if has response (codes "200 OK")
        then (do print (codes "SUCCES: Access granted." ++ line_feed); keep_token response)
        else if has response (codes "401 UNAUTHORIZED")
        then print (codes "ERROR: User not logged in." ++ line_feed)
        else print (codes "ERROR: Failed to retrieve access." ++ line_feed))
    close_connection
