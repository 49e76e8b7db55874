-- ===== src/Http/Session/Held.antt =====
-- The actions on the session's two pointers.
use teme_pcom.Prelude.{Bool, Bytes, Option, false, none, refl, some, true, ℕ, ◌≡◌}
use teme_pcom.Http.Session.{Session, Pointer, ok, wild, live, pure, ◌>>=◌}
use teme_pcom.Http.Session.Keeps.{Leads, Keeps, is_clean}
use teme_pcom.Http.Session.Tidy.{Tidy, IsHeld}
use teme_pcom.Http.Session.Actions.{
  free_held_cookies, free_cookies, free_token, headers_from, read_pointer, headers, Headers,
  cookie_list, set_cookie, set_token,
}

-- What is read where the flag is set.
unfoldable pub held_text : Bool → Pointer → Option Bytes
held_text false p = none
held_text true wild = none
held_text true (live c) = some c

abbrev pub headers_of : Session → Headers
headers_of s = record {
  cookies = some (cookie_list (held_text s.cookies_exist s.cookies));
  jwt_token = held_text s.acces_token_exist s.acces_token;
}

headers_from-held :
    (cookies : Pointer) (cookies_exist : Bool) (token : Pointer) (token_exist : Bool) (s : Session)
    → IsHeld cookies_exist cookies
    → IsHeld token_exist token
    → headers_from cookies cookies_exist token token_exist s ≡ (
      ok (record {
        cookies = some (cookie_list (held_text cookies_exist cookies));
        jwt_token = held_text token_exist token;
      }),
      s,
    )
unfolding headers_from read_pointer held_text pure ◌>>=◌
headers_from-held wild true q f s h k = absurd (let (c, e) = h refl in cc)
headers_from-held p b wild true s h k = absurd (let (c, e) = k refl in cc)
headers_from-held p false q false s h k = refl
headers_from-held p false (live t) true s h k = refl
headers_from-held (live c) true q false s h k = refl
headers_from-held (live c) true (live t) true s h k = refl

pub headers-held :
    (s : Session)
    → IsHeld s.cookies_exist s.cookies
    → IsHeld s.acces_token_exist s.acces_token
    → headers s ≡ (ok (headers_of s), s)
unfolding headers
headers-held s = headers_from-held s.cookies s.cookies_exist s.acces_token s.acces_token_exist s

module _ {n : ℕ} where
  pub headers-Keeps : {w held : Bool} → Keeps w (Tidy held n) headers
  headers-Keeps = record {
    at = λ s h. let e = headers-held s h.cookies_held h.token_held in rw e (h, refl);
  }

  pub set_cookie-Keeps : {w held : Bool} (c : Bytes) → Keeps w (Tidy held n) (set_cookie c)
  unfolding set_cookie
  set_cookie-Keeps c = record {
    at = λ s h. (
      record {
        cookies_held = λ e. (c, refl);
        token_held = h.token_held;
        held_cookie = λ e. refl;
        left = h.left;
      },
      refl,
    );
  }

  pub set_token-Keeps : {w held : Bool} (t : Bytes) → Keeps w (Tidy held n) (set_token t)
  unfolding set_token
  set_token-Keeps t = record {
    at = λ s h. (
      record {
        cookies_held = h.cookies_held;
        token_held = λ e. (t, refl);
        held_cookie = h.held_cookie;
        left = h.left;
      },
      refl,
    );
  }

  free_token_at-Tidy :
      {held : Bool} (w : Bool) (s : Session) (flag : Bool)
      → s.acces_token_exist ≡ flag
      → Tidy held n s
      → Tidy held n (free_token s).1 × (is_clean w (free_token s).0 ≡ true)
  unfolding free_token
  free_token_at-Tidy w s false e h =
      rw (free_token, e)
        (
          record {
            cookies_held = h.cookies_held;
            token_held = λ q. absurd (cc);
            held_cookie = h.held_cookie;
            left = h.left;
          },
          refl,
        )
  free_token_at-Tidy w s true e h =
      let (t, q) = h.token_held e in
      rw (free_token, e, q)
        (
          record {
            cookies_held = h.cookies_held;
            token_held = λ q. absurd (cc);
            held_cookie = h.held_cookie;
            left = h.left;
          },
          refl,
        )

  pub free_token-Keeps : {w held : Bool} → Keeps w (Tidy held n) free_token
  free_token-Keeps {w} = record { at = λ s h. free_token_at-Tidy w s s.acces_token_exist refl h }

module _ {n : ℕ} where
  -- A free of the cookies is good where they are held.
  pub free_cookies-Leads : Leads false (Tidy true n) (Tidy false n) free_cookies
  unfolding free_cookies
  free_cookies-Leads = record {
    at = λ s h.
        let (c, e) = h.cookies_held (h.held_cookie refl) in
        rw (free_cookies, e)
          (
            record {
              cookies_held = λ q. absurd (cc);
              token_held = h.token_held;
              held_cookie = λ q. absurd (cc);
              left = h.left;
            },
            refl,
          );
  }

  free_cookies_at-Tidy :
      (s : Session) (p : Pointer)
      → s.cookies ≡ p
      → Tidy false n s
      → Tidy false n (free_cookies s).1 × (is_clean true (free_cookies s).0 ≡ true)
  unfolding free_cookies
  free_cookies_at-Tidy s wild e h =
      rw (free_cookies, e)
        (
          record {
            cookies_held = λ q. let (c, e') = h.cookies_held q in absurd (cc);
            token_held = h.token_held;
            held_cookie = λ q. absurd (cc);
            left = h.left;
          },
          refl,
        )
  free_cookies_at-Tidy s (live c) e h =
      rw (free_cookies, e)
        (
          record {
            cookies_held = λ q. absurd (cc);
            token_held = h.token_held;
            held_cookie = λ q. absurd (cc);
            left = h.left;
          },
          refl,
        )

  pub free_cookies-Keeps : Keeps true (Tidy false n) free_cookies
  free_cookies-Keeps = record { at = λ s h. free_cookies_at-Tidy s s.cookies refl h }

  free_held_cookies_at-Tidy :
      (w : Bool) (s : Session) (flag : Bool)
      → s.cookies_exist ≡ flag
      → Tidy false n s
      → Tidy false n (free_held_cookies s).1 × (is_clean w (free_held_cookies s).0 ≡ true)
  unfolding free_held_cookies free_cookies
  free_held_cookies_at-Tidy w s false e h =
      rw (free_held_cookies, e)
        (
          record {
            cookies_held = λ q. absurd (cc);
            token_held = h.token_held;
            held_cookie = λ q. absurd (cc);
            left = h.left;
          },
          refl,
        )
  free_held_cookies_at-Tidy w s true e h =
      let (c, q) = h.cookies_held e in
      rw (free_held_cookies, e, free_cookies, q)
        (
          record {
            cookies_held = λ q. absurd (cc);
            token_held = h.token_held;
            held_cookie = λ q. absurd (cc);
            left = h.left;
          },
          refl,
        )

  pub free_held_cookies-Keeps : {w : Bool} → Keeps w (Tidy false n) free_held_cookies
  free_held_cookies-Keeps {w} = record {
    at = λ s h. free_held_cookies_at-Tidy w s s.cookies_exist refl h;
  }
