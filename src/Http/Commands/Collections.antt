-- ===== src/Http/Commands/Collections.antt =====
-- Tema_3/client.c: the commands on collections. The stack is taken as large enough for the array of
-- the movies' ids; a negative length of it is a fault, and so is a use of the name once it is freed.
use teme_pcom.Prelude.{
  Bool, Bytes, List, [], codes, false, if◌then◌else◌, length, none, some, suc, true, zero, ℕ, ◌++◌,
  ◌+◌, ◌==◌, ◌||◌, ◌∷◌,
}
use teme_pcom.Http.Session.{pure, Action, ◌>>=◌, ◌>>◌, stop, fault}
use teme_pcom.Http.Session.Actions.{
  print, ask, ask_int, fgets, chomp, string_of, open_connection, close_connection, exchange, has,
  headers,
}
use teme_pcom.Http.Commands.Account.{
  get_message, post_message, delete_message, line_feed, line_with,
}
use teme_pcom.Http.Commands.Users.{string_field, root_object}
use teme_pcom.Http.Commands.Movies.{report, not_logged_in, title_lines}
use teme_pcom.Http.Commands.Forms.{long_of, is_invalid}
use teme_pcom.Http.Json.{Json, Reals}
use teme_pcom.Http.Numbers.{ℤ, pos, negsuc, print_int}

abbrev pub collections_url : Bytes
collections_url = codes "/api/v1/tema/library/collections"

-- "/api/v1/tema/library/collections/%d/movies"
abbrev pub collection_movies_url : ℤ → Bytes
collection_movies_url id = collections_url ++ codes "/" ++ print_int id ++ codes "/movies"

abbrev pub is_negative : ℤ → Bool
is_negative (pos n) = false
is_negative (negsuc n) = true

unfoldable pub delete_collection : Action (Unit {0})
delete_collection = do
  open_connection
  id ← ask_int (codes "id=")
  h ← headers
  response ← exchange (delete_message collections_url (some (print_int id)) h)
  print (
      report (codes "200 OK")
        (line_with (codes "SUCCES: Collection with id ") (print_int id)
          (codes " deleted successfully."))
        (line_with (codes "ERROR: Failed to delete collection with id ") (print_int id) (codes "."))
        response)
  close_connection

-- The socket stays open.
unfoldable pub delete_movie_from_collection : Action (Unit {0})
delete_movie_from_collection = do
  open_connection
  collection_id ← ask_int (codes "collection_id=")
  movie_id ← ask_int (codes "movie_id=")
  let url = collection_movies_url collection_id ++ codes "/" ++ print_int movie_id
  h ← headers
  response ← exchange (delete_message url none h)
  print (
      report (codes "200 OK")
        (codes "SUCCES: Movie with id "
          ++ print_int movie_id
          ++ line_with (codes " deleted from collection with id ") (print_int collection_id)
              (codes "."))
        (codes "ERROR: Failed to delete movie with id "
          ++ print_int movie_id
          ++ line_with (codes " from collection with id ") (print_int collection_id) (codes "."))
        response)

-- The ids, with n rounds left at index i: the array, and whether the name is freed already. An id
-- that is invalid frees the name and closes the socket, and the loop goes on.
unfoldable pub read_ids : ℕ → ℕ → Bytes → Bool → Action (List ℤ × Bool)
read_ids zero i buffer freed = pure ([], freed)
read_ids (suc n) i buffer freed = do
  print (codes "movie_id[" ++ print_int (pos i) ++ codes "]=")
  line ← fgets 100 buffer
  let (id, end) = long_of (string_of line)
  let invalid = is_invalid end (chomp line) || is_negative id
  (if invalid
      then (do
        print (codes "ERROR: Invalid movie id format." ++ line_feed)
        (if freed then stop fault else pure tt)
        close_connection)
      else pure tt)
  (ids, freed') ← read_ids n (i + 1) (chomp line) (freed || invalid)
  pure (id ∷ ids, freed')

module _ {V D : Type 0} (json : Json V D) (reals : Reals D) where
  unfoldable pub get_collections : Action (Unit {0})
  get_collections = do
    open_connection
    h ← headers
    response ← exchange (get_message collections_url none h)
    print (
        report (codes "200 OK")
          (codes "SUCCES: Collections retrieved successfully."
            ++ line_feed
            ++ title_lines json reals
                (json.get_array (root_object json reals response) (codes "collections")))
          (codes "ERROR: Failed to retrieve collections." ++ line_feed) response)
    close_connection

  unfoldable pub collection_text : V → Bytes
  collection_text object =
      codes "title: "
      ++ string_field json reals object (codes "title")
      ++ line_feed
      ++ codes "owner: "
      ++ string_field json reals object (codes "owner")
      ++ line_feed
      ++ title_lines json reals (json.get_array object (codes "movies"))

  unfoldable pub get_collection : Action (Unit {0})
  get_collection = do
    open_connection
    id ← ask_int (codes "id=")
    h ← headers
    response ← exchange (get_message collections_url (some (print_int id)) h)
    print (
        report (codes "200 OK")
          (codes "SUCCES: Collection retrieved successfully."
            ++ line_feed
            ++ collection_text (root_object json reals response))
          (line_with (codes "ERROR: Failed to retrieve collection with id ") (print_int id)
            (codes "."))
          response)
    close_connection

  -- The object of one id.
  abbrev pub id_body : ℤ → Bytes
  id_body id =
      json.to_string_pretty (json.set_number (codes "id") (reals.of_int id) json.init_object)

  -- A request for each movie, on the same socket; the number of those that were added.
  unfoldable pub add_each : ℤ → List ℤ → Action ℕ
  add_each id [] = pure 0
  add_each id (movie ∷ movies) = do
    h ← headers
    response ← exchange (post_message (collection_movies_url id) (id_body movie) h)
    cnt ← add_each id movies
    pure (if has response (codes "201 CREATED") then cnt + 1 else cnt)

  unfoldable pub created : Bytes → List ℤ → Bytes → Action (Unit {0})
  created name movies response =
      if has response (codes "201 CREATED")
      then (do
        let id = reals.int_of (json.get_number (root_object json reals response) (codes "id"))
        cnt ← add_each id movies
        print (
            if cnt == length movies
            then line_with (codes "SUCCES: Collection ") name (codes " added successfully.")
            else line_with (codes "ERROR: Collection ") name
                (codes " added, but not all movies were added.")))
      else if has response (codes "401 UNAUTHORIZED")
      then print not_logged_in
      else print (line_with (codes "ERROR: Failed to add collection ") name (codes "."))

  unfoldable pub send_collection : Bytes → List ℤ → Action (Unit {0})
  send_collection name movies = do
    h ← headers
    let body = json.to_string_pretty (json.set_string (codes "title") name json.init_object)
    response ← exchange (post_message collections_url body h)
    created name movies response
    close_connection

  -- The movies, behind a number of them that is valid.
  unfoldable pub add_movies : Bytes → ℤ → Bytes → Action (Unit {0})
  add_movies name (negsuc n) buffer = stop fault
  add_movies name (pos n) buffer = do
    (movies, freed) ← read_ids n 0 buffer false
    if freed then stop fault else send_collection name movies

  unfoldable pub add_collection : Action (Unit {0})
  add_collection = do
    open_connection
    name ← ask (codes "title=") 1000
    print (codes "num_movies=")
    line ← fgets 100 []
    let (num_movies, end) = long_of (string_of line)
    (if is_invalid end (chomp line)
        then (do
          print (codes "ERROR: Invalid number of movies format." ++ line_feed)
          close_connection)
        else add_movies name num_movies (chomp line))

  -- The socket stays open.
  unfoldable pub add_movie_to_collection : Action (Unit {0})
  add_movie_to_collection = do
    open_connection
    collection_id ← ask_int (codes "collection_id=")
    movie_id ← ask_int (codes "movie_id=")
    h ← headers
    response ← exchange (post_message (collection_movies_url collection_id) (id_body movie_id) h)
    print (
        report (codes "201 CREATED")
          (codes "SUCCES: Movie with id "
            ++ print_int movie_id
            ++ line_with (codes " added to collection with id ") (print_int collection_id)
                (codes "."))
          (codes "ERROR: Failed to add movie with id "
            ++ print_int movie_id
            ++ line_with (codes " to collection with id ") (print_int collection_id) (codes "."))
          response)
