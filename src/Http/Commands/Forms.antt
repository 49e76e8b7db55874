-- ===== src/Http/Commands/Forms.antt =====
-- Tema_3/client.c: add_movie and update_movie. Both read the year and the rating into one array,
-- and test where the year ended when the rating stands there.
use teme_pcom.Prelude.{
  Bool, Bytes, [], codes, get_or, if◌then◌else◌, length, none, not, some, ℕ, ◌++◌, ◌-◌, ◌==◌, ◌||◌,
}
use teme_pcom.Http.Session.{pure, Action, ◌>>=◌, ◌>>◌}
use teme_pcom.Http.Session.Actions.{
  print, ask, ask_int, fgets, chomp, string_of, skip_line, open_connection, close_connection,
  exchange, headers,
}
use teme_pcom.Http.Commands.Account.{post_message, put_message, line_feed, line_with}
use teme_pcom.Http.Commands.Movies.{movies_url, report}
use teme_pcom.Http.Json.{Json, Reals}
use teme_pcom.Http.Numbers.{ℤ, pos, print_int, strtol_end, to_int}

-- year = strtol (buffer, &endptr, 10), and endptr - buffer.
unfoldable pub long_of : Bytes → ℤ × ℕ
long_of line = elim (strtol_end line) [
  | none ↦ (pos 0, 0)
  | some (x, rest) ↦ (to_int x, length line - length rest)
]

-- endptr == buffer || *endptr != '\0', in the array as it is now.
unfoldable pub is_invalid : ℕ → Bytes → Bool
is_invalid end buffer = end == 0 || not (get_or buffer end 0 == 0)

-- What the two forms ask for: the title, the year with where it ended, the description, and the
-- array with the rating in it.
pub record Form : Type 0 where
  pub title : Bytes
  pub year : ℤ
  pub year_end : ℕ
  pub description : Bytes
  pub buffer : Bytes

unfoldable pub ask_form : Action Form
ask_form = do
  title ← ask (codes "title=") 100
  print (codes "year=")
  year_line ← fgets 100 []
  let (year, year_end) = long_of (string_of year_line)
  description ← ask (codes "description=") 100
  print (codes "rating=")
  rating_line ← fgets 100 (chomp year_line)
  pure (record {
    title = title;
    year = year;
    year_end = year_end;
    description = description;
    buffer = chomp rating_line;
  })

module _ {V D : Type 0} (json : Json V D) (reals : Reals D) where
  abbrev pub movie_body : Form → D → Bytes
  movie_body form rating = json.to_string_pretty (
      json.set_number (codes "rating") rating (
        json.set_string (codes "description") form.description (
          json.set_number (codes "year") (reals.of_int form.year)
            (json.set_string (codes "title") form.title json.init_object))))

  unfoldable pub send_movie : Form → Action (Unit {0})
  send_movie form = do
    h ← headers
    let body = movie_body form (reals.to_float (reals.atof (string_of form.buffer)))
    response ← exchange (post_message movies_url body h)
    print (
        report (codes "201 CREATED")
          (line_with (codes "SUCCES: Movie ") form.title (codes " added successfully."))
          (line_with (codes "ERROR: Failed to add movie ") form.title (codes ".")) response)
    close_connection

  unfoldable pub add_movie : Action (Unit {0})
  add_movie = do
    open_connection
    form ← ask_form
    (if is_invalid form.year_end form.buffer
        then (do print (codes "ERROR: Invalid year format." ++ line_feed); close_connection)
        else send_movie form)

  unfoldable pub send_update : ℤ → Form → Action (Unit {0})
  send_update id form = do
    h ← headers
    let body = movie_body form (reals.strtod (string_of form.buffer))
    response ← exchange (put_message movies_url (print_int id) body h)
    print (
        report (codes "200 OK")
          (line_with (codes "SUCCES: Movie with id ") (print_int id)
            (codes " updated successfully."))
          (line_with (codes "ERROR: Failed to update movie with id ") (print_int id) (codes "."))
          response)
    close_connection

  unfoldable pub update_movie : Action (Unit {0})
  update_movie = do
    open_connection
    id ← ask_int (codes "id=")
    skip_line
    form ← ask_form
    let rating = string_of form.buffer
    print (codes "rating=" ++ reals.print_double (reals.strtod rating) ++ line_feed)
    (if is_invalid (reals.strtod_length rating) form.buffer
        then (do print (codes "ERROR: Invalid rating format." ++ line_feed); close_connection)
        else if is_invalid form.year_end form.buffer
        then (do print (codes "ERROR: Invalid year format." ++ line_feed); close_connection)
        else send_update id form)
