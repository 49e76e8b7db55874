-- ===== src/Http/Commands.antt =====
-- Tema_3/client.c: main, over the commands in the modules below. Memory that only one command uses
-- is taken to be there; the session's two pointers are kept.
pub mod Account
pub mod Users
pub mod Movies
pub mod Forms
pub mod Collections
pub mod Safe
pub mod Round
pub mod Leaves
pub mod Loop
use teme_pcom.Prelude.{Bytes, codes, if◌then◌else◌, str_eq, suc, zero, ℕ}
use teme_pcom.Http.Session.{◌>>=◌, ◌>>◌, ok, Action, pure, gets, stop, out_of_fuel}
use teme_pcom.Http.Session.Actions.{fgets, chomp, string_of}
use teme_pcom.Http.Commands.Account.{login_admin, logout_admin, login, logout, get_access, exit}
use teme_pcom.Http.Commands.Users.{add_user, get_users, delete_user}
use teme_pcom.Http.Commands.Movies.{get_movies, get_movie, delete_movie}
use teme_pcom.Http.Commands.Forms.{add_movie, update_movie}
use teme_pcom.Http.Commands.Collections.{
  get_collections, get_collection, add_collection, delete_collection, add_movie_to_collection,
  delete_movie_from_collection,
}
use teme_pcom.Http.Json.{Json, Reals}

unfoldable pub set_command : Bytes → Action (Unit {0})
set_command line s = (ok tt, record s { command = line })

-- fgets (command, 100, stdin), without the newline. At the end of the input the array, and so the
-- command, is the one before.
unfoldable pub read_command : Action Bytes
read_command = do
  array ← gets (λ s. s.command)
  line ← fgets 100 array
  set_command (chomp line)
  pure (string_of line)

module _ {V D : Type 0} (json : Json V D) (reals : Reals D) where
  -- The chain of tests on the command; an unknown one does nothing.
  unfoldable pub dispatch : Bytes → Action (Unit {0})
  dispatch command =
      if str_eq command (codes "login_admin")
      then login_admin json
      else if str_eq command (codes "logout_admin")
      then logout_admin
      else if str_eq command (codes "add_user")
      then add_user json reals
      else if str_eq command (codes "get_users")
      then get_users json reals
      else if str_eq command (codes "delete_user")
      then delete_user
      else if str_eq command (codes "login")
      then login json
      else if str_eq command (codes "get_access")
      then get_access json
      else if str_eq command (codes "get_movies")
      then get_movies json reals
      else if str_eq command (codes "add_movie")
      then add_movie json reals
      else if str_eq command (codes "get_movie")
      then get_movie json reals
      else if str_eq command (codes "delete_movie")
      then delete_movie
      else if str_eq command (codes "update_movie")
      then update_movie json reals
      else if str_eq command (codes "logout")
      then logout
      else if str_eq command (codes "get_collections")
      then get_collections json reals
      else if str_eq command (codes "get_collection")
      then get_collection json reals
      else if str_eq command (codes "add_collection")
      then add_collection json reals
      else if str_eq command (codes "delete_collection")
      then delete_collection
      else if str_eq command (codes "add_movie_to_collection")
      then add_movie_to_collection json reals
      else if str_eq command (codes "delete_movie_from_collection")
      then delete_movie_from_collection
      else if str_eq command (codes "exit")
      then exit
      else pure tt

  -- One round of the loop, and the loop with fuel.
  unfoldable pub command_round : Action (Unit {0})
  command_round = do command ← read_command; dispatch command

  unfoldable pub run : ℕ → Action (Unit {0})
  run zero = stop out_of_fuel
  run (suc fuel) = do command_round; run fuel
