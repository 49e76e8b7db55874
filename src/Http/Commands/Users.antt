-- ===== src/Http/Commands/Users.antt =====
-- Tema_3/client.c: add_user, get_users and delete_user.
use teme_pcom.Prelude.{Bytes, List, Option, [], codes, if◌then◌else◌, none, some, ◌++◌, ◌∷◌}
use teme_pcom.Http.Session.{Action, ◌>>=◌, ◌>>◌}
use teme_pcom.Http.Session.Actions.{
  print, ask, open_connection, close_connection, exchange, has, headers,
}
use teme_pcom.Http.Commands.Account.{
  get_message, post_message, delete_message, object_2, line_feed, line_with,
  basic_extract_json_response,
}
use teme_pcom.Http.Json.{Json, Reals}
use teme_pcom.Http.Numbers.{print_int}

-- "%s", which prints NULL as glibc does.
abbrev pub shown : Option Bytes → Bytes
shown none = codes "(null)"
shown (some s) = s

abbrev pub admin_required : Bytes
admin_required = codes "ERROR: Admin privileges required." ++ line_feed

unfoldable pub add_user_report : Bytes → Bytes → Bytes
add_user_report username response =
    if has response (codes "201 CREATED")
    then line_with (codes "SUCCES: User ") username (codes " added successfully.")
    else if has response (codes "User already exists")
    then line_with (codes "ERROR: User ") username (codes " already exists.")
    else if has response (codes "Admin privileges required")
    then admin_required
    else line_with (codes "ERROR: Failed to add user ") username (codes ".")

unfoldable pub delete_user_report : Bytes → Bytes → Bytes
delete_user_report username response =
    if has response (codes "200 OK")
    then line_with (codes "SUCCES: User ") username (codes " deleted successfully.")
    else if has response (codes "403 FORBIDDEN")
    then admin_required
    else line_with (codes "ERROR: User ") username (codes " not found.")

unfoldable pub delete_user : Action (Unit {0})
delete_user = do
  open_connection
  username ← ask (codes "username=") 100
  h ← headers
  response ← exchange (delete_message (codes "/api/v1/tema/admin/users") (some username) h)
  print (delete_user_report username response)
  close_connection

module _ {V D : Type 0} (json : Json V D) (reals : Reals D) where
  -- The number of a field, as an int.
  abbrev pub int_field : V → Bytes → Bytes
  int_field object name = print_int (reals.int_of (json.get_number object name))

  abbrev pub string_field : V → Bytes → Bytes
  string_field object name = shown (json.get_string object name)

  -- The root object of a response.
  abbrev pub root_object : Bytes → V
  root_object response = json.parse_string (basic_extract_json_response response)

  unfoldable pub user_lines : List V → Bytes
  user_lines [] = []
  user_lines (user ∷ users) =
      codes "#"
      ++ int_field user (codes "id")
      ++ codes ": "
      ++ string_field user (codes "username")
      ++ codes ":"
      ++ string_field user (codes "password")
      ++ line_feed
      ++ user_lines users

  unfoldable pub get_users_report : Bytes → Bytes
  get_users_report response =
      if has response (codes "200 OK")
      then codes "SUCCES: Users retrieved successfully."
        ++ line_feed
        ++ user_lines (json.get_array (root_object response) (codes "users"))
      else if has response (codes "Admin privileges required")
      then admin_required
      else codes "ERROR: Failed to retrieve users." ++ line_feed

  unfoldable pub get_users : Action (Unit {0})
  get_users = do
    open_connection
    h ← headers
    response ← exchange (get_message (codes "/api/v1/tema/admin/users") none h)
    print (get_users_report response)
    close_connection

  unfoldable pub add_user : Action (Unit {0})
  add_user = do
    username ← ask (codes "username=") 100
    password ← ask (codes "password=") 100
    open_connection
    h ← headers
    let body = object_2 json (codes "username") username (codes "password") password
    response ← exchange (post_message (codes "/api/v1/tema/admin/users") body h)
    print (add_user_report username response)
    close_connection
