-- ===== src/Broker/Wildcard.antt =====
-- Tema_2/utils.c, check_topic_regexp: topics against subscriptions with `+` and `*`.
pub mod Exact
pub mod Tokens
use teme_pcom.Prelude.{
  ℕ, Bytes, codes, str_eq, ◌==◌, if◌then◌else◌, take, Bool, true, false, not, List, [], ◌∷◌, ◌++◌,
}

abbrev pub slash : ℕ
slash = b'/'

-- The two wildcard tokens.
abbrev pub star : Bytes
star = codes "*"

abbrev pub plus : Bytes
plus = codes "+"

-- A finished token; strtok_r never returns an empty one.
unfoldable pub flush : Bytes → List Bytes → List Bytes
flush [] rest = rest
flush (c ∷ token) rest = (c ∷ token) ∷ rest

-- The bytes of `s` are read with `token` as the token that is open.
unfoldable pub tokens_from : Bytes → Bytes → List Bytes
tokens_from token [] = flush token []
tokens_from token (c ∷ s) = elim (c == slash) [
  | true ↦ flush token (tokens_from [] s)
  | false ↦ tokens_from (token ++ c ∷ []) s
]

-- What successive calls of strtok_r (s, "/") return before NULL.
unfoldable pub tokens : Bytes → List Bytes
unfolding flush tokens_from
tokens s = tokens_from [] s

-- The `while (regexp_token)` loop and the final test, over the tokens that are left of the topic
-- and of the regexp. [] stands for a NULL token.
unfoldable pub match_tokens : List Bytes → List Bytes → Bool
match_tokens [] [] = true
match_tokens (t ∷ ts) [] = false
match_tokens [] (r ∷ rs) = str_eq r star
match_tokens (t ∷ ts) (r ∷ rs) =
    let rest = match_tokens ts rs in
    if str_eq r star
    then true
    else if str_eq r plus
    then rest
    else if not (str_eq t r)
    then false
    else rest

-- The copies hold the first 100 bytes (strncpy, then a NUL).
abbrev pub copied : Bytes → List Bytes
copied s = tokens (take 100 s)

unfoldable pub check_topic_regexp : Bytes → Bytes → Bool
check_topic_regexp topic regexp =
    if str_eq topic regexp then true else match_tokens (copied topic) (copied regexp)
