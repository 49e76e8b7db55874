-- ===== src/Broker/Wildcard/Tokens.antt =====
-- The tokens of a topic and its levels.
use teme_pcom.Prelude.{
  All, Bytes, List, [], ap, append-nil, append_assoc, arith, length, refl, sym, take_all, ◌++◌, ◌∙◌,
  ◌∷◌, ◌≡◌, ◌≢◌, ◌≤◌,
}
use teme_pcom.Broker.Wildcard.{slash, flush, tokens_from, tokens, copied}

-- Levels with `/` between them.
unfoldable pub join_levels : List Bytes → Bytes
join_levels [] = []
join_levels (t ∷ []) = t
join_levels (t ∷ u ∷ ts) = t ++ slash ∷ join_levels (u ∷ ts)

-- A level has at least one byte and no `/`.
abbrev pub IsLevel : Bytes → Type 0
IsLevel t = (t ≢ []) × All (λ c. c ≢ slash) t

tokens_from-append :
    (token t s : Bytes)
    → All (λ c. c ≢ slash) t
    → tokens_from token (t ++ s) ≡ tokens_from (token ++ t) s
unfolding tokens_from
tokens_from-append token [] s h = rw append-nil
tokens_from-append token (c ∷ t) s h =
    ground (arith, tokens_from-append (token ++ c ∷ []) t s h.1, append_assoc token (c ∷ []) t)

flush-ne_nil : (t : Bytes) (rest : List Bytes) → t ≢ [] → flush t rest ≡ t ∷ rest
unfolding flush
flush-ne_nil [] rest h = absurd (h refl)
flush-ne_nil (c ∷ t) rest h = refl

tokens_from-slash : (t s : Bytes) → tokens_from t (slash ∷ s) ≡ flush t (tokens_from [] s)
unfolding tokens_from
tokens_from-slash t s = refl

tokens_from-join : (ts : List Bytes) → All IsLevel ts → tokens_from [] (join_levels ts) ≡ ts
unfolding join_levels tokens_from flush
tokens_from-join [] h = refl
tokens_from-join (t ∷ []) h =
    ap (tokens_from []) (sym (append-nil t))
    ∙ tokens_from-append [] t [] h.0.1
    ∙ flush-ne_nil t [] h.0.0
tokens_from-join (t ∷ u ∷ ts) h =
    tokens_from-append [] t (slash ∷ join_levels (u ∷ ts)) h.0.1
    ∙ tokens_from-slash t (join_levels (u ∷ ts))
    ∙ flush-ne_nil t _ h.0.0
    ∙ ap (◌∷◌ t) (tokens_from-join (u ∷ ts) h.1)

-- Splitting a topic that is built from levels, and is at most 100 bytes long, gives the levels.
pub copied-join_levels :
    (ts : List Bytes)
    → All IsLevel ts
    → length (join_levels ts) ≤ 100
    → copied (join_levels ts) ≡ ts
unfolding tokens
copied-join_levels ts h le = ap tokens (take_all 100 (join_levels ts) le) ∙ tokens_from-join ts h
