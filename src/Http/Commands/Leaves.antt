-- ===== src/Http/Commands/Leaves.antt =====
-- The command exit, which frees what the session holds and leaves the loop of main.
use teme_pcom.Prelude.{
  ◌∙◌, ap, Bool, Bytes, codes, drop, false, none, refl, str_eq, suc, true, ℕ, ◌++◌, ◌∷◌, ◌≡◌,
}
use teme_pcom.Http.Session.{
  Ending, Result, Action, Session, Pointer, ok, ends, exits, live, wild, stop, ◌>>=◌, ◌>>◌, gets,
  pure,
}
use teme_pcom.Http.Session.Actions.{
  string_of, chomp, free_held_cookies, free_cookies, free_token, close_connection, fgets,
  fgets_from, line_at, strcspn,
}
use teme_pcom.Http.Session.Tidy.{IsHeld}
use teme_pcom.Http.Commands.{run, command_round, dispatch, set_command, read_command}
use teme_pcom.Http.Commands.Account.{exit}
use teme_pcom.Http.Json.{Json, Reals}

-- The session behind exit: nothing is held, what was held is freed, and the rest is as it was.
pub record HasLeft (rest : Bytes) (s s' : Session) : Type 0 where
  pub input_left : s'.input ≡ rest
  pub no_cookies : s'.cookies_exist ≡ false
  pub no_token : s'.acces_token_exist ≡ false
  pub cookies_freed : s.cookies_exist ≡ true → s'.cookies ≡ wild
  pub token_freed : s.acces_token_exist ≡ true → s'.acces_token ≡ wild
  pub closed : s'.sockfd ≡ none
  pub requests_same : s'.requests ≡ s.requests
  pub printed_same : s'.printed ≡ s.printed

left :
    (s : Session) {p p' q q' : Pointer} {b b' : Bool}
    → (b ≡ true → p' ≡ wild)
    → (b' ≡ true → q' ≡ wild)
    → HasLeft s.input
        (record s { cookies = p; cookies_exist = b; acces_token = q; acces_token_exist = b' })
        (record s {
          cookies = p';
          cookies_exist = false;
          acces_token = q';
          acces_token_exist = false;
          sockfd = none;
        })
left s f g = record {
  input_left = refl;
  no_cookies = refl;
  no_token = refl;
  cookies_freed = f;
  token_freed = g;
  closed = refl;
  requests_same = refl;
  printed_same = refl;
}

exit_from :
    (s : Session) (p : Pointer) (b : Bool) (q : Pointer) (b' : Bool)
    → IsHeld b p
    → IsHeld b' q
    → (s' : Session) × (exit
          (record s { cookies = p; cookies_exist = b; acces_token = q; acces_token_exist = b' })
        ≡ (ends exits, s'))
      × HasLeft s.input
          (record s { cookies = p; cookies_exist = b; acces_token = q; acces_token_exist = b' })
          s'
unfolding exit free_held_cookies free_cookies free_token close_connection stop ◌>>=◌
exit_from s wild true q b' h k = absurd (let (c, e) = h refl in cc)
exit_from s p b wild true h k = absurd (let (c, e) = k refl in cc)
exit_from s p false q false h k = (
  record s {
    cookies = p;
    cookies_exist = false;
    acces_token = q;
    acces_token_exist = false;
    sockfd = none;
  },
  refl,
  left s (λ e. absurd (cc)) (λ e. absurd (cc)),
)
exit_from s p false (live t) true h k = (
  record s {
    cookies = p;
    cookies_exist = false;
    acces_token = wild;
    acces_token_exist = false;
    sockfd = none;
  },
  refl,
  left s (λ e. absurd (cc)) (λ e. refl),
)
exit_from s (live c) true q false h k = (
  record s {
    cookies = wild;
    cookies_exist = false;
    acces_token = q;
    acces_token_exist = false;
    sockfd = none;
  },
  refl,
  left s (λ e. refl) (λ e. absurd (cc)),
)
exit_from s (live c) true (live t) true h k = (
  record s {
    cookies = wild;
    cookies_exist = false;
    acces_token = wild;
    acces_token_exist = false;
    sockfd = none;
  },
  refl,
  left s (λ e. refl) (λ e. refl),
)

module _ {A B : Type 0} where
  bind-ok :
      (m : Action A) (f : A → Action B) (s s' : Session) (a : A)
      → m s ≡ (ok a, s')
      → (m >>= f) s ≡ f a s'
  unfolding ◌>>=◌
  bind-ok m f s s' a e =
      ap (λ r. elim r.0 as (λ _. Result B × Session) [ ok a ↦ f a r.1 | ends e ↦ (ends e, r.1) ]) e

  bind-ends :
      (m : Action A) (f : A → Action B) (s s' : Session) (x : Ending)
      → m s ≡ (ends x, s')
      → (m >>= f) s ≡ (ends x, s')
  unfolding ◌>>=◌
  bind-ends m f s s' x e =
      ap (λ r. elim r.0 as (λ _. Result B × Session) [ ok a ↦ f a r.1 | ends e ↦ (ends e, r.1) ]) e

fgets_exit :
    (rest : Bytes) (s : Session)
    → s.input ≡ codes "exit" ++ 10 ∷ rest
    → fgets 100 s.command s
      ≡ (ok (codes "exit" ++ 10 ∷ 0 ∷ drop 6 s.command), record s { input = rest })
unfolding fgets fgets_from line_at
fgets_exit rest s e = ap (λ i. fgets_from i 100 s.command s) e

read_exit :
    (rest : Bytes) (s : Session)
    → s.input ≡ codes "exit" ++ 10 ∷ rest
    → read_command s ≡ (
      ok (codes "exit"),
      record s { input = rest; command = codes "exit" ++ 0 ∷ 0 ∷ drop 6 s.command },
    )
unfolding read_command strcspn set_command gets pure ◌>>=◌
read_exit rest s e =
    bind-ok (fgets 100 s.command) (λ line. set_command (chomp line) >> pure (string_of line)) s _ _
      (fgets_exit rest s e)

module _ {V D : Type 0} (json : Json V D) (reals : Reals D) where
  -- A line with the command exit, read where the flags of the two pointers tell the truth, ends the
  -- program: what is held is freed, the connection is closed, nothing more is sent or printed, and the
  -- input behind the line is not read.
  pub run-HasLeft :
      (fuel : ℕ) (rest : Bytes) (s : Session)
      → s.input ≡ codes "exit" ++ 10 ∷ rest
      → IsHeld s.cookies_exist s.cookies
      → IsHeld s.acces_token_exist s.acces_token
      → (s' : Session) × (run json reals (suc fuel) s ≡ (ends exits, s')) × HasLeft rest s s'
  unfolding run command_round dispatch str_eq
  run-HasLeft fuel rest s e h k =
      let read : Session = record s {
        input = rest;
        command = codes "exit" ++ 0 ∷ 0 ∷ drop 6 s.command;
      } in
      let (s', q, l) =
        exit_from read s.cookies s.cookies_exist s.acces_token s.acces_token_exist h k in
      (
        s',
        bind-ends (command_round json reals) _ s s' exits (
            bind-ok read_command (dispatch json reals) s read (codes "exit") (read_exit rest s e)
            ∙ q),
        record {
          input_left = l.input_left;
          no_cookies = l.no_cookies;
          no_token = l.no_token;
          cookies_freed = l.cookies_freed;
          token_freed = l.token_freed;
          closed = l.closed;
          requests_same = l.requests_same;
          printed_same = l.printed_same;
        },
      )
