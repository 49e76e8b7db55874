-- ===== src/Broker/Wildcard/Exact.antt =====
-- Which topics a subscription with wildcards receives, level by level.
use teme_pcom.Prelude.{
  Bytes, str_eq, str_eq_iff, str_eq→eq, true, List, [], ◌∷◌, ◌≡◌, ◌≢◌, ◌↔◌, ◌⊎◌, inl, inr, refl,
  sym, ◌∙◌, arith, Bool-cases,
}
use teme_pcom.Broker.Wildcard.{star, plus, match_tokens, copied, check_topic_regexp}

-- What a wildcard means: `+` stands for one level, `*` for any run of levels, and the levels
-- behind a `*` still have to match.
pub data Levels : List Bytes → List Bytes → Type 0 where
  done : Levels [] []
  none_left : {r : Bytes} {ts rs : List Bytes} → r ≡ star → Levels ts rs → Levels ts (r ∷ rs)
  one_more :
      {t r : Bytes} {ts rs : List Bytes} → r ≡ star → Levels ts (r ∷ rs) → Levels (t ∷ ts) (r ∷ rs)
  any_one : {t r : Bytes} {ts rs : List Bytes} → r ≡ plus → Levels ts rs → Levels (t ∷ ts) (r ∷ rs)
  same : {t r : Bytes} {ts rs : List Bytes} → t ≡ r → Levels ts rs → Levels (t ∷ ts) (r ∷ rs)

pub match_tokens-star :
    (ts rs : List Bytes) (r : Bytes) → r ≡ star → match_tokens ts (r ∷ rs) ≡ true
unfolding match_tokens str_eq
match_tokens-star [] rs r h = rw h
match_tokens-star (t ∷ ts) rs r h = rw h

match_tokens-Levels : {ts rs : List Bytes} → Levels ts rs → match_tokens ts rs ≡ true
unfolding match_tokens
match_tokens-Levels done = refl
match_tokens-Levels {ts} (none_left {r} {rs} h d) = match_tokens-star ts rs r h
match_tokens-Levels (one_more {t} {r} {ts} {rs} h d) = match_tokens-star (t ∷ ts) rs r h
match_tokens-Levels (any_one {t} {r} h d) = ground (arith, match_tokens-Levels d, str_eq_iff r plus)
match_tokens-Levels (same {t} {r} h d) = ground (arith, match_tokens-Levels d, str_eq_iff t r)

-- A subscription receives every topic whose levels are what its wildcards stand for (of both the
-- first 100 bytes count).
check_topic_regexp-Levels :
    (topic regexp : Bytes)
    → Levels (copied topic) (copied regexp)
    → check_topic_regexp topic regexp ≡ true
unfolding check_topic_regexp
check_topic_regexp-Levels topic regexp d = ground (arith, match_tokens-Levels d)

-- `*` stands last, if at all.
abbrev pub StarIsLast : List Bytes → Type 0
StarIsLast [] = Unit {0}
StarIsLast (r ∷ []) = Unit {0}
StarIsLast (r ∷ s ∷ rs) = (r ≢ star) × StarIsLast (s ∷ rs)

StarIsLast-tail : (r : Bytes) (rs : List Bytes) → StarIsLast (r ∷ rs) → StarIsLast rs
StarIsLast-tail r [] h = tt
StarIsLast-tail r (s ∷ rs) h = h.1

-- A last `*` takes all the levels that are left.
Levels-all : (r : Bytes) (ts : List Bytes) → r ≡ star → Levels ts (r ∷ [])
Levels-all r [] h = none_left h done
Levels-all r (t ∷ ts) h = one_more h (Levels-all r ts h)

star_round : (r : Bytes) (ts rs : List Bytes) → StarIsLast (r ∷ rs) → r ≡ star → Levels ts (r ∷ rs)
star_round r ts [] l h = Levels-all r ts h
star_round r ts (s ∷ rs) l h = absurd (l.0 h)

-- What one round of the loop decides.
round_cases :
    (t r : Bytes) (ts rs : List Bytes)
    → match_tokens (t ∷ ts) (r ∷ rs) ≡ true
    → (r ≡ star) ⊎ (((r ≡ plus) ⊎ (t ≡ r)) × (match_tokens ts rs ≡ true))
unfolding match_tokens
round_cases t r ts rs h = ground (arith, str_eq→eq r star, str_eq→eq r plus, str_eq→eq t r)

Levels-match_tokens :
    (ts rs : List Bytes) → StarIsLast rs → match_tokens ts rs ≡ true → Levels ts rs
unfolding match_tokens
Levels-match_tokens [] [] l h = done
Levels-match_tokens (t ∷ ts) [] l h = absurd (ground arith)
Levels-match_tokens [] (r ∷ rs) l h = star_round r [] rs l (str_eq→eq r star h)
Levels-match_tokens (t ∷ ts) (r ∷ rs) l h = elim (round_cases t r ts rs h) [
  | inl e ↦ star_round r (t ∷ ts) rs l e
  | inr (inl e, m) ↦ any_one e (Levels-match_tokens ts rs (StarIsLast-tail r rs l) m)
  | inr (inr e, m) ↦ same e (Levels-match_tokens ts rs (StarIsLast-tail r rs l) m)
]

-- Where `*` stands last in the regexp, if at all, a topic is accepted exactly when it is the regexp
-- itself or its levels are what the wildcards stand for (of both the first 100 bytes count).
pub check_topic_regexp_iff :
    (topic regexp : Bytes)
    → StarIsLast (copied regexp)
    → (check_topic_regexp topic regexp ≡ true)
      ↔ ((topic ≡ regexp) ⊎ Levels (copied topic) (copied regexp))
unfolding check_topic_regexp
check_topic_regexp_iff topic regexp l = (sound, complete)
  where
    sound :
        check_topic_regexp topic regexp ≡ true
        → (topic ≡ regexp) ⊎ Levels (copied topic) (copied regexp)
    sound h = elim (Bool-cases (str_eq topic regexp)) [
      | inl e ↦ inl (str_eq→eq topic regexp e)
      | inr e ↦ inr (Levels-match_tokens (copied topic) (copied regexp) l (ground arith))
    ]

    complete :
        (topic ≡ regexp) ⊎ Levels (copied topic) (copied regexp)
        → check_topic_regexp topic regexp ≡ true
    complete (inl e) = ground (arith, str_eq_iff topic regexp)
    complete (inr d) = ground (arith, match_tokens-Levels d)

-- The last token, [] where there is none.
abbrev pub last_token : List Bytes → Bytes
last_token [] = []
last_token (t ∷ []) = t
last_token (t ∷ u ∷ ts) = last_token (u ∷ ts)

last_token-cons :
    (t : Bytes) (ts : List Bytes) → last_token ts ≢ [] → last_token (t ∷ ts) ≡ last_token ts
last_token-cons t [] h = absurd (h refl)
last_token-cons t (u ∷ ts) h = refl

Levels-nil : (ts : List Bytes) → Levels ts [] → ts ≡ []
Levels-nil [] d = refl
Levels-nil (t ∷ ts) d = elim d [ ]

-- A literal last token of the regexp is the last level of the topic.
Levels-last :
    {ts rs : List Bytes}
    → Levels ts rs
    → last_token rs ≢ star
    → last_token rs ≢ plus
    → last_token rs ≢ []
    → last_token ts ≡ last_token rs
Levels-last done hs hp hn = refl
Levels-last (none_left {rs = []} h d) hs hp hn = absurd (hs h)
Levels-last (none_left {rs = s ∷ rs} h d) hs hp hn = Levels-last d hs hp hn
Levels-last (one_more {t} {ts = ts} h d) hs hp hn =
    let ih = Levels-last d hs hp hn in last_token-cons t ts (λ e. hn (sym ih ∙ e)) ∙ ih
Levels-last (any_one {rs = []} h d) hs hp hn = absurd (hp h)
Levels-last (any_one {t} {ts = ts} {rs = s ∷ rs} h d) hs hp hn =
    let ih = Levels-last d hs hp hn in last_token-cons t ts (λ e. hn (sym ih ∙ e)) ∙ ih
Levels-last (same {ts = ts} {rs = []} h d) hs hp hn = rw (Levels-nil ts d) h
Levels-last (same {t} {ts = ts} {rs = s ∷ rs} h d) hs hp hn =
    let ih = Levels-last d hs hp hn in last_token-cons t ts (λ e. hn (sym ih ∙ e)) ∙ ih

-- A regexp that begins with `*` and ends in a literal token accepts also the topics that end in
-- another level, which its wildcards do not stand for.
pub check_topic_regexp-star_first :
    (topic regexp : Bytes) (rs : List Bytes)
    → copied regexp ≡ star ∷ rs
    → last_token rs ≢ star
    → last_token rs ≢ plus
    → last_token rs ≢ []
    → last_token (copied topic) ≢ last_token rs
    → (check_topic_regexp topic regexp ≡ true) × (¬ Levels (copied topic) (copied regexp))
unfolding check_topic_regexp
check_topic_regexp-star_first topic regexp rs e hs hp hn other =
    (ground (arith, match_tokens-star (copied topic) rs star refl), rw e no_match)
  where
    no_match : ¬ Levels (copied topic) (star ∷ rs)
    no_match d =
        let l = last_token-cons star rs hn in
        other (Levels-last d (rw l hs) (rw l hp) (rw l hn) ∙ l)
