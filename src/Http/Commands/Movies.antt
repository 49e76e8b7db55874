-- ===== src/Http/Commands/Movies.antt =====
-- Tema_3/client.c: get_movies, get_movie and delete_movie.
use teme_pcom.Prelude.{Bytes, List, [], codes, if◌then◌else◌, none, some, ◌++◌, ◌∷◌}
use teme_pcom.Http.Session.{Action, ◌>>=◌, ◌>>◌}
use teme_pcom.Http.Session.Actions.{
  print, ask_int, open_connection, close_connection, exchange, has, headers,
}
use teme_pcom.Http.Commands.Account.{get_message, delete_message, line_feed, line_with}
use teme_pcom.Http.Commands.Users.{int_field, string_field, root_object}
use teme_pcom.Http.Json.{Json, Reals}
use teme_pcom.Http.Numbers.{print_int}

abbrev pub movies_url : Bytes
movies_url = codes "/api/v1/tema/library/movies"

abbrev pub not_logged_in : Bytes
not_logged_in = codes "ERROR: User not logged in." ++ line_feed

-- The three answers of most commands: the success, 401 UNAUTHORIZED, and the rest.
unfoldable pub report : Bytes → Bytes → Bytes → Bytes → Bytes
report success succeeded otherwise response =
    if has response success
    then succeeded
    else if has response (codes "401 UNAUTHORIZED")
    then not_logged_in
    else otherwise

unfoldable pub delete_movie : Action (Unit {0})
delete_movie = do
  open_connection
  id ← ask_int (codes "id=")
  h ← headers
  response ← exchange (delete_message movies_url (some (print_int id)) h)
  print (
      report (codes "200 OK")
        (line_with (codes "SUCCES: Movie with id ") (print_int id) (codes " deleted successfully."))
        (line_with (codes "ERROR: Failed to delete movie with id ") (print_int id) (codes "."))
        response)
  close_connection

module _ {V D : Type 0} (json : Json V D) (reals : Reals D) where
  -- "#%d: %s\n" for each object
  unfoldable pub title_lines : List V → Bytes
  title_lines [] = []
  title_lines (movie ∷ movies) =
      codes "#"
      ++ int_field json reals movie (codes "id")
      ++ codes ": "
      ++ string_field json reals movie (codes "title")
      ++ line_feed
      ++ title_lines movies

  unfoldable pub get_movies : Action (Unit {0})
  get_movies = do
    open_connection
    h ← headers
    response ← exchange (get_message movies_url none h)
    print (
        report (codes "200 OK")
          (codes "SUCCES: Movies retrieved successfully."
            ++ line_feed
            ++ title_lines (json.get_array (root_object json reals response) (codes "movies")))
          (codes "ERROR: Failed to retrieve movies." ++ line_feed) response)
    close_connection

  -- A line of the object: two blanks, the name in quotes, the value.
  abbrev pub entry : Bytes → Bytes → Bytes
  entry name value = codes "  " ++ b'"' ∷ name ++ b'"' ∷ codes ": " ++ value

  abbrev pub quoted : Bytes → Bytes
  quoted s = b'"' ∷ s ++ b'"' ∷ []

  unfoldable pub movie_text : V → Bytes
  movie_text movie =
      codes "{"
      ++ line_feed
      ++ entry (codes "id") (int_field json reals movie (codes "id"))
      ++ codes ","
      ++ line_feed
      ++ entry (codes "title") (quoted (string_field json reals movie (codes "title")))
      ++ codes ","
      ++ line_feed
      ++ entry (codes "year") (int_field json reals movie (codes "year"))
      ++ codes ","
      ++ line_feed
      ++ entry (codes "description") (quoted (string_field json reals movie (codes "description")))
      ++ codes ","
      ++ line_feed
      ++ entry (codes "rating") (quoted (string_field json reals movie (codes "rating")))
      ++ line_feed
      ++ codes "}"
      ++ line_feed

  unfoldable pub get_movie : Action (Unit {0})
  get_movie = do
    open_connection
    id ← ask_int (codes "id=")
    h ← headers
    response ← exchange (get_message movies_url (some (print_int id)) h)
    print (
        report (codes "200 OK") (movie_text (root_object json reals response))
          (line_with (codes "ERROR: Failed to retrieve movie with id ") (print_int id) (codes "."))
          response)
    close_connection
