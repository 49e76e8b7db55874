-- ===== src/Http/Commands/Round.antt =====
-- The commands on collections, and one round of the loop, with the session's invariant.
use teme_pcom.Prelude.{List, ◌∷◌, [], refl, Bool, Bytes, true, false, zero, suc, ℕ}
use teme_pcom.Http.Session.{fault}
use teme_pcom.Http.Session.Keeps.{Keeps-bind, Keeps-pure, Keeps, Keeps-stop}
use teme_pcom.Http.Session.Tidy.{Tidy}
use teme_pcom.Http.Session.Safe.{exchange-Keeps}
use teme_pcom.Http.Session.Held.{headers-Keeps, free_token-Keeps, free_cookies-Keeps}
use teme_pcom.Http.Commands.Account.{logout, logout_admin}
use teme_pcom.Http.Commands.Collections.{
  read_ids, add_each, created, send_collection, add_movies, add_collection, delete_collection,
  delete_movie_from_collection, get_collection, get_collections, add_movie_to_collection,
}
use teme_pcom.Http.Commands.Safe.{tidy_rules}
use teme_pcom.Http.Json.{Json, Reals}
use teme_pcom.Http.Numbers.{ℤ, pos, negsuc}

module _ {w : Bool} {n : ℕ} where
  pub delete_collection-Keeps : Keeps w (Tidy false n) delete_collection
  unfolding delete_collection
  delete_collection-Keeps = search tidy_rules depth 20

  pub delete_movie_from_collection-Keeps : Keeps w (Tidy false n) delete_movie_from_collection
  unfolding delete_movie_from_collection
  delete_movie_from_collection-Keeps = search tidy_rules depth 20

  read_ids-Keeps :
      (k i : ℕ) (buffer : Bytes) (freed : Bool) → Keeps w (Tidy false n) (read_ids k i buffer freed)
  unfolding read_ids
  read_ids-Keeps zero i buffer freed = search tidy_rules
  read_ids-Keeps (suc k) i buffer freed =
      search (tidy_rules, read_ids-Keeps k, Keeps-stop fault refl) depth 24

  module _ {V D : Type 0} (json : Json V D) (reals : Reals D) where
    pub get_collections-Keeps : Keeps w (Tidy false n) (get_collections json reals)
    unfolding get_collections
    get_collections-Keeps = search tidy_rules depth 20

    pub get_collection-Keeps : Keeps w (Tidy false n) (get_collection json reals)
    unfolding get_collection
    get_collection-Keeps = search tidy_rules depth 20

    pub add_movie_to_collection-Keeps : Keeps w (Tidy false n) (add_movie_to_collection json reals)
    unfolding add_movie_to_collection
    add_movie_to_collection-Keeps = search tidy_rules depth 20

    add_each-Keeps :
        (id : ℤ) (movies : List ℤ) → Keeps w (Tidy false n) (add_each json reals id movies)
    unfolding add_each
    add_each-Keeps id [] = search tidy_rules
    add_each-Keeps id (movie ∷ movies) = Keeps-bind _ _ headers-Keeps (λ h.
        Keeps-bind _ _ (exchange-Keeps _)
          (λ response. Keeps-bind _ _ (add_each-Keeps id movies) (λ cnt. Keeps-pure _)))

    created-Keeps :
        (name : Bytes) (movies : List ℤ) (response : Bytes)
        → Keeps w (Tidy false n) (created json reals name movies response)
    unfolding created
    created-Keeps name movies response = search (tidy_rules, add_each-Keeps) depth 20

    send_collection-Keeps :
        (name : Bytes) (movies : List ℤ)
        → Keeps w (Tidy false n) (send_collection json reals name movies)
    unfolding send_collection
    send_collection-Keeps name movies = search (tidy_rules, created-Keeps) depth 20

    add_movies-Keeps :
        (name : Bytes) (k : ℤ) (buffer : Bytes)
        → Keeps w (Tidy false n) (add_movies json reals name k buffer)
    unfolding add_movies
    add_movies-Keeps name (negsuc k) buffer = Keeps-stop fault refl
    add_movies-Keeps name (pos k) buffer =
        search (tidy_rules, read_ids-Keeps, send_collection-Keeps, Keeps-stop fault refl) depth 20

    pub add_collection-Keeps : Keeps w (Tidy false n) (add_collection json reals)
    unfolding add_collection
    add_collection-Keeps = search (tidy_rules, add_movies-Keeps) depth 24

module _ {n : ℕ} where
  pub logout-Keeps : Keeps true (Tidy false n) logout
  unfolding logout
  logout-Keeps = search (tidy_rules, free_cookies-Keeps, free_token-Keeps) depth 24

  pub logout_admin-Keeps : Keeps true (Tidy false n) logout_admin
  unfolding logout_admin
  logout_admin-Keeps = search (tidy_rules, free_cookies-Keeps) depth 24
