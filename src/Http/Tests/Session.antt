-- ===== src/Http/Tests/Session.antt =====
-- Runs of the commands of Tema_3/client.c, with JSON objects that are texts.
use teme_pcom.Prelude.{
  [], ◌∷◌, ◌++◌, Bytes, Option, arith, codes, false, true, length, none, refl, some, ℕ, ◌≡◌, ◌≤◌,
  str_eq,
}
use teme_pcom.Http.Session.{Session, wild}
use teme_pcom.Http.Session.Keeps.{is_clean}
use teme_pcom.Http.Session.Tidy.{Tidy}
use teme_pcom.Http.Commands.{dispatch, run}
use teme_pcom.Http.Commands.Leaves.{HasLeft, run-HasLeft}
use teme_pcom.Http.Session.{live, ends, exits}
use teme_pcom.Http.Commands.Loop.{dispatch-Tidy}
use teme_pcom.Http.Json.{Json, Reals}
use teme_pcom.Http.Numbers.{ℤ, pos, print_int}

abbrev text_or_empty : Option Bytes → Bytes
text_or_empty none = []
text_or_empty (some s) = s

abbrev texts : Json Bytes ℤ
texts = record {
  init_object = [];
  set_string = λ k v o. o ++ k ++ v;
  set_number = λ k d o. o ++ k ++ print_int d;
  to_string_pretty = λ o. o;
  parse_string = text_or_empty;
  get_string = λ o k. some o;
  get_number = λ o k. pos 0;
  get_array = λ o k. [];
}

abbrev ints : Reals ℤ
ints = record {
  of_int = λ x. x;
  int_of = λ x. x;
  to_float = λ x. x;
  atof = λ s. pos 0;
  strtod = λ s. pos 0;
  strtod_length = λ s. length s;
  print_double = print_int;
}

abbrev start : Session
start = record {
  input = codes "admin" ++ 10 ∷ codes "secret" ++ 10 ∷ codes "exit" ++ 10 ∷ [];
  printed = [];
  connections = record { opens = true; writes = []; reads = [] } ∷ [];
  sockfd = none;
  requests = [];
  command = [];
  cookies = wild;
  cookies_exist = false;
  acces_token = wild;
  acces_token_exist = false;
  unset_int = 7;
}

start-Tidy : (n : ℕ) → 18 ≤ n → Tidy false n start
start-Tidy n h = record {
  cookies_held = λ e. absurd (cc);
  token_held = λ e. absurd (cc);
  held_cookie = λ e. absurd (cc);
  left = omega (arith, h);
}

dispatch-Tidy_example :
    Tidy false 18 (dispatch texts ints (codes "login_admin") start).1
    × (is_clean false (dispatch texts ints (codes "login_admin") start).0 ≡ true)
unfolding str_eq
dispatch-Tidy_example =
    dispatch-Tidy texts ints 18 (codes "login_admin") start refl refl (start-Tidy 18 (omega arith))

-- A session with a cookie and no token, at the command exit.
abbrev leaving : Session
leaving = record start {
  input = codes "exit" ++ 10 ∷ codes "login";
  cookies = live (codes "session=1");
  cookies_exist = true;
}

run-HasLeft_example :
    (s' : Session) × (run texts ints 1 leaving ≡ (ends exits, s'))
    × HasLeft (codes "login") leaving s'
run-HasLeft_example =
    run-HasLeft texts ints 0 (codes "login") leaving refl (λ e. (codes "session=1", refl))
      (λ e. absurd (cc))
