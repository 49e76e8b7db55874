-- ===== src/Http/Session/Tidy.antt =====
-- The session's invariant: the flags of the two pointers tell the truth, and no input comes back.
use teme_pcom.Prelude.{
  Bool, Bytes, Option-cases, [], arith, drop, false, inl, inr, length, some, suc, sym, true, zero,
  ℕ, ◌*◌, ◌+◌, ◌-◌, ◌∙◌, ◌∷◌, ◌≡◌, ◌≤◌,
}
use teme_pcom.Http.Session.{Session, Action, Pointer, live}
use teme_pcom.Http.Session.Keeps.{Keeps, is_clean}
use teme_pcom.Http.Session.Actions.{behind_newline}
use teme_pcom.Http.Numbers.{
  ℤ, scan_int, strtol_end, skip_spaces, behind_sign, signed_at, number_at, digits_at,
}

-- A pointer whose flag is set can be read.
abbrev pub IsHeld : Bool → Pointer → Type 0
IsHeld flag p = flag ≡ true → (c : Bytes) × (p ≡ live c)

-- Both pointers can be read where their flags say so, at most n bytes of input are left, and there
-- is a cookie if one is held.
pub record Tidy (held : Bool) (n : ℕ) (s : Session) : Type 0 where
  pub cookies_held : IsHeld s.cookies_exist s.cookies
  pub token_held : IsHeld s.acces_token_exist s.acces_token
  pub held_cookie : held ≡ true → s.cookies_exist ≡ true
  pub left : length s.input ≤ n

-- What an action does that leaves the pointers alone.
pub record Untouched (s s' : Session) : Type 0 where
  pub cookies_same : s'.cookies ≡ s.cookies
  pub cookies_flag : s'.cookies_exist ≡ s.cookies_exist
  pub token_same : s'.acces_token ≡ s.acces_token
  pub token_flag : s'.acces_token_exist ≡ s.acces_token_exist
  pub shrinks : length s'.input ≤ length s.input

abbrev pub untouched :
    {s s' : Session} {held : Bool} {n : ℕ} → Untouched s s' → Tidy held n s → Tidy held n s'
untouched u h = record {
  cookies_held =
      λ e. let (c, q) = h.cookies_held (sym u.cookies_flag ∙ e) in (c, u.cookies_same ∙ q);
  token_held = λ e. let (c, q) = h.token_held (sym u.token_flag ∙ e) in (c, u.token_same ∙ q);
  held_cookie = λ e. u.cookies_flag ∙ h.held_cookie e;
  left = omega (arith, u.shrinks, h.left);
}

-- An action that does so from every state.
pub Untouched-Keeps :
    {A : Type 0} {w held : Bool} {n : ℕ} (m : Action A)
    → ((s : Session) → Untouched s (m s).1 × (is_clean w (m s).0 ≡ true))
    → Keeps w (Tidy held n) m
Untouched-Keeps m u = record { at = λ s h. (untouched (u s).0 h, (u s).1) }

pub length-drop-le : (k : ℕ) (s : Bytes) → length (drop k s) ≤ length s
length-drop-le zero s = omega arith
length-drop-le (suc k) [] = omega arith
length-drop-le (suc k) (c ∷ s) = omega (arith, length-drop-le k s)

length-skip_spaces : (s : Bytes) → length (skip_spaces s) ≤ length s
unfolding skip_spaces
length-skip_spaces [] = omega arith
length-skip_spaces (c ∷ s) = ground (arith, length-skip_spaces s)

length-behind_sign : (s : Bytes) → length (behind_sign s) ≤ length s
unfolding behind_sign
length-behind_sign [] = omega arith
length-behind_sign (c ∷ s) = ground arith

length-digits_at : (n : ℕ) (s : Bytes) → length (digits_at n s).1 ≤ length s
unfolding digits_at
length-digits_at n [] = omega arith
length-digits_at n (c ∷ s) = ground (arith, length-digits_at (n * 10 + (c - b'0')) s)

length-number_at :
    (negative : Bool) (s rest : Bytes) (x : ℤ)
    → number_at negative s ≡ some (x, rest)
    → length rest ≤ length s
unfolding number_at
length-number_at negative [] rest x h = absurd (cc)
length-number_at negative (c ∷ s) rest x h = ground (arith, length-digits_at 0 (c ∷ s))

length-signed_at : (s rest : Bytes) (x : ℤ) → signed_at s ≡ some (x, rest) → length rest ≤ length s
unfolding signed_at
length-signed_at [] rest x h = absurd (cc)
length-signed_at (c ∷ s) rest x h = ground (
  arith,
  length-number_at true s rest x,
  length-number_at false s rest x,
  length-number_at false (c ∷ s) rest x,
)

pub length-scan_int : (input : Bytes) → length (scan_int input).1 ≤ length input
unfolding scan_int strtol_end
length-scan_int input = elim (Option-cases (signed_at (skip_spaces input))) [
  | inl e ↦
      rw (scan_int, strtol_end, e)
        (omega (arith, length-behind_sign (skip_spaces input), length-skip_spaces input))
  | inr ((x, rest), e) ↦
      rw (scan_int, strtol_end, e)
        (omega (arith, length-signed_at (skip_spaces input) rest x e, length-skip_spaces input))
]

pub behind_newline-shrinks :
    (s rest : Bytes) → behind_newline s ≡ some rest → length rest ≤ length s
unfolding behind_newline
behind_newline-shrinks [] rest h = absurd (cc)
behind_newline-shrinks (c ∷ s) rest h = ground (arith, behind_newline-shrinks s rest)
