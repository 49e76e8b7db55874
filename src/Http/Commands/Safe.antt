-- ===== src/Http/Commands/Safe.antt =====
-- The commands and the session's invariant.
use teme_pcom.Prelude.{codes, refl, refl, none, some, false, Bytes, ℕ, Bool}
use teme_pcom.Http.Session.{fault, stop, Action, ◌>>◌, pure, Ending}
use teme_pcom.Http.Session.Keeps.{
  Keeps-bind, Keeps-gets, Keeps-if, Keeps-pure, Keeps, keeps_rules, Keeps-stop,
}
use teme_pcom.Http.Session.Tidy.{Tidy}
use teme_pcom.Http.Session.Actions.{set_token, set_cookie}
use teme_pcom.Http.Session.Safe.{
  print-Keeps, fgets-Keeps, ask-Keeps, scanf-Keeps, skip_line-Keeps, open_connection-Keeps,
  close_connection-Keeps, exchange-Keeps,
}
use teme_pcom.Http.Session.Held.{
  set_token-Keeps, headers-Keeps, set_cookie-Keeps, free_token-Keeps, free_held_cookies-Keeps,
}
use teme_pcom.Http.Commands.Account.{
  login, keep_token, get_access, basic_extract_json_response, cookie_of, keep_cookie,
  unless_logged_in, login_admin, exit,
}
use teme_pcom.Http.Commands.Users.{add_user, get_users, delete_user}
use teme_pcom.Http.Commands.Movies.{get_movies, get_movie, delete_movie}
use teme_pcom.Http.Numbers.{ℤ}
use teme_pcom.Http.Json.{Json, Reals}
use teme_pcom.Http.Commands.Forms.{Form, send_movie, send_update, ask_form, add_movie, update_movie}

pub ruleset tidy_rules = (
  keeps_rules, print-Keeps, fgets-Keeps, ask-Keeps, scanf-Keeps, skip_line-Keeps,
  open_connection-Keeps, close_connection-Keeps, exchange-Keeps, headers-Keeps,
)

module _ {w : Bool} {n : ℕ} where
  keep_cookie-Keeps :
      {held : Bool} (response : Bytes) → Keeps w (Tidy held n) (keep_cookie response)
  unfolding keep_cookie
  keep_cookie-Keeps {held} response = Keeps-bind _ _ (Keeps-gets _) (λ exist.
      Keeps-if exist _ _ (Keeps-pure response)
        (elim (cookie_of response)
          as (λ found. Keeps w (Tidy held n) (elim found as (λ _. Action Bytes) [
            | none ↦ pure response
            | some (cookie, rest) ↦ do set_cookie cookie; pure rest
          ])) [
            | none ↦ Keeps-pure response
            | some (cookie, rest) ↦ Keeps-bind _ _ (set_cookie-Keeps cookie) (λ u. Keeps-pure rest)
          ]))

  unless_logged_in-Keeps :
      (m : Action (Unit {0}))
      → Keeps w (Tidy false n) m
      → Keeps w (Tidy false n) (unless_logged_in m)
  unfolding unless_logged_in
  unless_logged_in-Keeps m k =
      Keeps-bind _ _ (Keeps-gets _) (λ exist. Keeps-if exist _ _ (print-Keeps _) k)

  pub exit-Keeps : Keeps w (Tidy false n) exit
  unfolding exit
  exit-Keeps =
      search (tidy_rules, free_held_cookies-Keeps, free_token-Keeps, Keeps-stop Ending.exits refl)
        depth 16

  pub delete_user-Keeps : Keeps w (Tidy false n) delete_user
  unfolding delete_user
  delete_user-Keeps = search tidy_rules depth 20

  pub delete_movie-Keeps : Keeps w (Tidy false n) delete_movie
  unfolding delete_movie
  delete_movie-Keeps = search tidy_rules depth 20

  module _ {V D : Type 0} (json : Json V D) (reals : Reals D) where
    pub login_admin-Keeps : Keeps w (Tidy false n) (login_admin json)
    unfolding login_admin
    login_admin-Keeps = search (tidy_rules, unless_logged_in-Keeps, keep_cookie-Keeps) depth 24

    pub get_users-Keeps : Keeps w (Tidy false n) (get_users json reals)
    unfolding get_users
    get_users-Keeps = search tidy_rules depth 20

    pub add_user-Keeps : Keeps w (Tidy false n) (add_user json reals)
    unfolding add_user
    add_user-Keeps = search tidy_rules depth 20

    pub get_movies-Keeps : Keeps w (Tidy false n) (get_movies json reals)
    unfolding get_movies
    get_movies-Keeps = search tidy_rules depth 20

    pub get_movie-Keeps : Keeps w (Tidy false n) (get_movie json reals)
    unfolding get_movie
    get_movie-Keeps = search tidy_rules depth 20

    pub login-Keeps : Keeps w (Tidy false n) (login json)
    unfolding login
    login-Keeps = search (tidy_rules, unless_logged_in-Keeps, keep_cookie-Keeps) depth 30

    keep_token-Keeps : (response : Bytes) → Keeps w (Tidy false n) (keep_token json response)
    unfolding keep_token
    keep_token-Keeps response =
        elim (json.get_string (json.parse_string (basic_extract_json_response response))
            (codes "token"))
          as (λ token. Keeps w (Tidy false n) (elim token as (λ _. Action (Unit {0})) [
            | none ↦ stop fault
            | some access ↦ set_token access
          ])) [ none ↦ Keeps-stop fault refl | some access ↦ set_token-Keeps access ]

    pub get_access-Keeps : Keeps w (Tidy false n) (get_access json)
    unfolding get_access
    get_access-Keeps = search (tidy_rules, keep_token-Keeps) depth 24

    ask_form-Keeps : Keeps w (Tidy false n) ask_form
    unfolding ask_form
    ask_form-Keeps = search tidy_rules depth 20

    send_movie-Keeps : (form : Form) → Keeps w (Tidy false n) (send_movie json reals form)
    unfolding send_movie
    send_movie-Keeps form = search tidy_rules depth 20

    pub add_movie-Keeps : Keeps w (Tidy false n) (add_movie json reals)
    unfolding add_movie
    add_movie-Keeps = search (tidy_rules, ask_form-Keeps, send_movie-Keeps) depth 20

    send_update-Keeps :
        (id : ℤ) (form : Form) → Keeps w (Tidy false n) (send_update json reals id form)
    unfolding send_update
    send_update-Keeps id form = search tidy_rules depth 20

    pub update_movie-Keeps : Keeps w (Tidy false n) (update_movie json reals)
    unfolding update_movie
    update_movie-Keeps = search (tidy_rules, ask_form-Keeps, send_update-Keeps) depth 24
