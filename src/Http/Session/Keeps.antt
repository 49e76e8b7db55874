-- ===== src/Http/Session/Keeps.antt =====
-- Predicates of the session before and after an action: one rule for each way to build an action.
use teme_pcom.Prelude.{refl, Bool, false, if◌then◌else◌, true, ◌≡◌}
use teme_pcom.Http.Session.{
  Session, Result, Action, ok, ends, dangling, Ending, exits, waits, fault, out_of_fuel, pure, stop,
  gets, ◌>>=◌,
}

-- The endings that a program with enough fuel comes to; a wild pointer's is one of them or not.
abbrev pub is_clean_ending : Bool → Ending → Bool
is_clean_ending wild_too exits = true
is_clean_ending wild_too waits = true
is_clean_ending wild_too fault = true
is_clean_ending wild_too dangling = wild_too
is_clean_ending wild_too out_of_fuel = false

abbrev pub is_clean : {A : Type 0} → Bool → Result A → Bool
is_clean wild_too (ok a) = true
is_clean wild_too (ends e) = is_clean_ending wild_too e

-- From P the action comes to Q, however it ends, and it ends cleanly.
pub record Leads {A : Type 0} (wild_too : Bool) (P Q : Session → Type 0) (m : Action A)
    : Type 0 where
  pub at : (s : Session) → P s → Q (m s).1 × (is_clean wild_too (m s).0 ≡ true)

abbrev pub Keeps : {A : Type 0} → Bool → (Session → Type 0) → Action A → Type 0
Keeps wild_too P m = Leads wild_too P P m

module _ {A : Type 0} {w : Bool} {P : Session → Type 0} where
  pub Keeps-pure : (a : A) → Keeps w P (pure a)
  unfolding pure
  Keeps-pure a = record { at = λ s h. (h, refl) }

  pub Keeps-stop : (e : Ending) → is_clean_ending w e ≡ true → Keeps w P (stop {A = A} e)
  unfolding stop
  Keeps-stop e clean = record { at = λ s h. (h, clean) }

  pub Keeps-gets : (f : Session → A) → Keeps w P (gets f)
  unfolding gets
  Keeps-gets f = record { at = λ s h. (h, refl) }

  pub Keeps-if :
      (b : Bool) (m n : Action A) → Keeps w P m → Keeps w P n → Keeps w P (if b then m else n)
  Keeps-if true m n km kn = km
  Keeps-if false m n km kn = kn

module _ {A : Type 0} {w : Bool} {P Q : Session → Type 0} where
  pub Leads-if :
      (b : Bool) (m n : Action A) → Leads w P Q m → Leads w P Q n → Leads w P Q (if b then m else n)
  Leads-if true m n km kn = km
  Leads-if false m n km kn = kn

  pub Leads-weaken : (m : Action A) → ((s : Session) → P s → Q s) → Keeps w P m → Leads w P Q m
  Leads-weaken m f km = record { at = λ s h. let (q, c) = km.at s h in (f (m s).1 q, c) }

module _ {A B : Type 0} {w : Bool} {Q R : Session → Type 0} where
  after :
      (r : Result A) (s : Session) (f : A → Action B)
      → Q s × (is_clean w r ≡ true)
      → ((s : Session) → Q s → R s)
      → ((a : A) → Leads w Q R (f a))
      → R (elim r as (λ _. Result B × Session) [ ok a ↦ f a s | ends e ↦ (ends e, s) ]).1
        × (is_clean w
              (elim r as (λ _. Result B × Session) [ ok a ↦ f a s | ends e ↦ (ends e, s) ]).0
            ≡ true)
  after (ok a) s f h weaken kf = (kf a).at s h.0
  after (ends e) s f h weaken kf = (weaken s h.0, h.1)

module _ {A B : Type 0} {w : Bool} {P Q R : Session → Type 0} where
  -- What the first action comes to is enough where it is the last one.
  pub Leads-bind :
      (m : Action A) (f : A → Action B)
      → ((s : Session) → Q s → R s)
      → Leads w P Q m
      → ((a : A) → Leads w Q R (f a))
      → Leads w P R (m >>= f)
  unfolding ◌>>=◌
  Leads-bind m f weaken km kf = record {
    at = λ s h. let (r, s') = m s in after r s' f (km.at s h) weaken kf;
  }

module _ {A B : Type 0} {w : Bool} {P : Session → Type 0} where
  pub Keeps-bind :
      (m : Action A) (f : A → Action B)
      → Keeps w P m
      → ((a : A) → Keeps w P (f a))
      → Keeps w P (m >>= f)
  Keeps-bind m f = Leads-bind m f (λ s h. h)

pub ruleset keeps_rules = (Keeps-pure, Keeps-gets, Keeps-if, Keeps-bind)
