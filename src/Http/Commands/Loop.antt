-- ===== src/Http/Commands/Loop.antt =====
-- The loop of main: its rounds keep the session's invariant, and end or read all of the input.
use teme_pcom.Prelude.{
  zero, [], ◌⊎◌, subst, sym, ◌≤◌, ◌≤◌, ◌∷◌, suc, drop, length, Bool-cases, inl, inr, ◌==◌, ap,
  arith, refl, Bool, Bytes, true, false, if◌then◌else◌, ℕ, ◌≡◌, codes, str_eq,
}
use teme_pcom.Http.Session.{Result, ok, ends, stop, ◌>>=◌, gets, Session, Action}
use teme_pcom.Http.Session.Keeps.{
  Leads, Leads-bind, Keeps-gets, Keeps, Keeps-pure, Keeps-bind, is_clean,
}
use teme_pcom.Http.Session.Tidy.{length-drop-le, Tidy, Untouched-Keeps}
use teme_pcom.Http.Session.Safe.{fgets-Keeps}
use teme_pcom.Http.Session.Actions.{string_of, fgets, fgets_from, line_at, chomp}
use teme_pcom.Http.Commands.{run, command_round, dispatch, set_command, read_command}
use teme_pcom.Http.Commands.Account.{logout, logout_admin}
use teme_pcom.Http.Commands.Safe.{
  exit-Keeps, delete_user-Keeps, delete_movie-Keeps, login_admin-Keeps, get_users-Keeps,
  add_user-Keeps, get_movies-Keeps, get_movie-Keeps, login-Keeps, get_access-Keeps, add_movie-Keeps,
  update_movie-Keeps,
}
use teme_pcom.Http.Commands.Round.{
  delete_collection-Keeps, delete_movie_from_collection-Keeps, get_collections-Keeps,
  get_collection-Keeps, add_movie_to_collection-Keeps, add_collection-Keeps, logout-Keeps,
  logout_admin-Keeps,
}
use teme_pcom.Http.Json.{Json, Reals}

case_if :
    {A : Type 0} {w : Bool} {P : Session → Type 0} {m k : Action A} (b : Bool)
    → (b ≡ true → Keeps w P m)
    → Keeps w P k
    → Keeps w P (if b then m else k)
case_if true km kk = km refl
case_if false km kk = kk

module _ {V D : Type 0} (json : Json V D) (reals : Reals D) where
  dispatch_over-Keeps :
      {w : Bool} {n : ℕ} (command : Bytes)
      → (str_eq command (codes "logout") ≡ true → Keeps w (Tidy false n) logout)
      → (str_eq command (codes "logout_admin") ≡ true → Keeps w (Tidy false n) logout_admin)
      → Keeps w (Tidy false n) (dispatch json reals command)
  unfolding dispatch
  dispatch_over-Keeps command f f_admin =
      case_if _ (λ _. login_admin-Keeps json reals)
        (case_if _ (f_admin) (
          case_if _ (λ _. add_user-Keeps json reals)
            (case_if _ (λ _. get_users-Keeps json reals)
              (case_if _ (λ _. delete_user-Keeps)
                (case_if _ (λ _. login-Keeps json reals)
                  (case_if _ (λ _. get_access-Keeps json reals)
                    (case_if _ (λ _. get_movies-Keeps json reals)
                      (case_if _ (λ _. add_movie-Keeps json reals)
                        (case_if _ (λ _. get_movie-Keeps json reals)
                          (case_if _ (λ _. delete_movie-Keeps)
                            (case_if _ (λ _. update_movie-Keeps json reals)
                              (case_if _ (f) (
                                case_if _ (λ _. get_collections-Keeps json reals)
                                  (case_if _ (λ _. get_collection-Keeps json reals)
                                    (case_if _ (λ _. add_collection-Keeps json reals)
                                      (case_if _ (λ _. delete_collection-Keeps)
                                        (case_if _ (λ _. add_movie_to_collection-Keeps json reals)
                                          (case_if _ (λ _. delete_movie_from_collection-Keeps)
                                            (case_if _ (λ _. exit-Keeps)
                                              (Keeps-pure tt))))))))))))))))))))

  -- Any command keeps the two pointers good where their flags are set, brings no input back, and
  -- comes to an end of its own, or uses a pointer that is not good.
  pub dispatch-Keeps :
      {n : ℕ} (command : Bytes) → Keeps true (Tidy false n) (dispatch json reals command)
  dispatch-Keeps command = dispatch_over-Keeps command (λ e. logout-Keeps) (λ e. logout_admin-Keeps)

  -- Any command but the two logouts keeps the two pointers good where their flags are set, and never
  -- uses one that is not, from every session where they are good.
  pub dispatch-Tidy :
      (n : ℕ) (command : Bytes) (s : Session)
      → str_eq command (codes "logout") ≡ false
      → str_eq command (codes "logout_admin") ≡ false
      → Tidy false n s
      → Tidy false n (dispatch json reals command s).1
        × (is_clean false (dispatch json reals command s).0 ≡ true)
  dispatch-Tidy n command s ne ne_admin h =
      (dispatch_over-Keeps command (λ e. absurd (cc)) (λ e. absurd (cc))).at s h

set_command-Keeps :
    {w held : Bool} {n : ℕ} (line : Bytes) → Keeps w (Tidy held n) (set_command line)
unfolding set_command
set_command-Keeps line = Untouched-Keeps (set_command line) (λ s. (
  record {
    cookies_same = refl;
    cookies_flag = refl;
    token_same = refl;
    token_flag = refl;
    shrinks = omega arith;
  },
  refl,
))

read_command-Keeps : {w held : Bool} {n : ℕ} → Keeps w (Tidy held n) read_command
unfolding read_command
read_command-Keeps = Keeps-bind _ _ (Keeps-gets _) (λ array.
    Keeps-bind _ _ (fgets-Keeps 100 array)
      (λ line. Keeps-bind _ _ (set_command-Keeps (chomp line)) (λ u. Keeps-pure _)))

length-line_at :
    (k d : ℕ) (rest : Bytes)
    → length (drop (length (line_at (suc k) (d ∷ rest))) (d ∷ rest)) ≤ length rest
unfolding line_at
length-line_at k d rest = elim (Bool-cases (d == 10)) [
  | inl e ↦ rw (line_at, e) (omega arith)
  | inr e ↦ rw (line_at, e) (length-drop-le (length (line_at k rest)) rest)
]

fgets-shorter :
    {w : Bool} {n d : ℕ} {rest : Bytes} (array : Bytes)
    → Leads w (λ s. Tidy false (suc n) s × (s.input ≡ d ∷ rest)) (Tidy false n) (fgets 100 array)
unfolding fgets fgets_from
fgets-shorter {w} {n} {d} {rest} array = record {
  at = λ s (h, e).
      subst (λ r. Tidy false n r.1 × (is_clean w r.0 ≡ true))
        (sym (ap (λ i. fgets_from i 100 array s) e))
        (
          record {
            cookies_held = h.cookies_held;
            token_held = h.token_held;
            held_cookie = h.held_cookie;
            left = omega (arith, length-line_at 98 d rest, h.left, ap length e);
          },
          refl,
        );
}

empty_of : (input : Bytes) → length input ≤ 0 → input ≡ []
empty_of [] h = refl
empty_of (c ∷ input) h = absurd (omega (arith, h))

-- An ending that is the program's own, or no input that is left.
abbrev IsRead : Result (Unit {0}) × Session → Type 0
IsRead r = (is_clean true r.0 ≡ true) ⊎ (r.1.input ≡ [])

-- A round that reads a command takes a byte of the input.
module _ {V D : Type 0} (json : Json V D) (reals : Reals D) where
  round-Keeps : {n : ℕ} → Keeps true (Tidy false n) (command_round json reals)
  unfolding command_round
  round-Keeps = Keeps-bind _ _ read_command-Keeps (λ command. dispatch-Keeps json reals command)

  round-shorter :
      (n d : ℕ) (rest : Bytes) (s : Session)
      → s.input ≡ d ∷ rest
      → Tidy false (suc n) s
      → Tidy false n (command_round json reals s).1
        × (is_clean true (command_round json reals s).0 ≡ true)
  unfolding command_round read_command gets ◌>>=◌
  round-shorter n d rest s e h =
      (Leads-bind _ (λ command. dispatch json reals command) (λ s h. h)
          (Leads-bind (fgets 100 s.command) _ (λ s h. h) (fgets-shorter s.command)
            (λ line.
              Keeps-bind _ _ (set_command-Keeps (chomp line)) (λ u. Keeps-pure (string_of line))))
          (λ command. dispatch-Keeps json reals command)).at
        s (h, e)

  round_then :
      (fuel n : ℕ) (r : Result (Unit {0})) (s : Session)
      → Tidy false n s × (is_clean true r ≡ true)
      → ((s : Session) → Tidy false n s → IsRead (run json reals fuel s))
      → IsRead (elim r as (λ _. Result (Unit {0}) × Session) [
        | ok u ↦ run json reals fuel s
        | ends e ↦ (ends e, s)
      ])
  round_then fuel n (ok u) s h f = f s h.0
  round_then fuel n (ends e) s h f = inl h.1

  run_at :
      (fuel n : ℕ) (input : Bytes) (s : Session)
      → s.input ≡ input
      → n ≤ fuel
      → Tidy false n s
      → IsRead (run json reals fuel s)
  unfolding run stop ◌>>=◌
  run_at zero n input s e le h = inr (empty_of s.input (omega (arith, le, h.left)))
  run_at (suc fuel) n [] s e le h =
      let (r, s') = command_round json reals s in
      let none_left : Tidy false 0 s = record {
        cookies_held = h.cookies_held;
        token_held = h.token_held;
        held_cookie = h.held_cookie;
        left = omega (arith, ap length e);
      } in
      round_then fuel 0 r s' (round-Keeps.at s none_left)
        (λ s k. run_at fuel 0 s.input s refl (omega arith) k)
  run_at (suc fuel) zero (d ∷ rest) s e le h = absurd (omega (arith, ap length e, h.left))
  run_at (suc fuel) (suc n) (d ∷ rest) s e le h =
      let (r, s') = command_round json reals s in
      round_then fuel n r s' (round-shorter n d rest s e h)
        (λ s k. run_at fuel n s.input s refl (omega (arith, le)) k)

  -- From a session whose pointers are good where their flags are set, a round of the loop for each
  -- byte of the input is enough for the program to end or wait by itself, or to have read all of
  -- its input.
  run-IsRead :
      (fuel : ℕ) (s : Session)
      → Tidy false (length s.input) s
      → length s.input ≤ fuel
      → IsRead (run json reals fuel s)
  run-IsRead fuel s h le = run_at fuel (length s.input) s.input s refl le h
