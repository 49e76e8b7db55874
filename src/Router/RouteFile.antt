-- ===== src/Router/RouteFile.antt =====
-- Tema_1/lib/lib.c: read_rtable, over the text of the file. The array of the routes is taken to be
-- as long as the file has lines.
pub mod Lines
pub mod RoundTrip
use teme_pcom.Prelude.{
  ==_iff, All, All-append, Bool, Bool-cases, Bytes, List, Option, Option-cases, [], any, any-append,
  any-at, any-find_index, any-found, ap, append-nil, append_assoc, ap₂, arith, c_string, codes,
  count, count-append, drop, drop-append, false, find_index, find_index-first, find_index-none,
  find_index-none-at, find_index-some, find_index_unique, get_elem?, get_elem?-lt,
  get_elem?-set-cases, get_elem?-set_ne, get_elem?-set_self, get_elem?-snoc, get_elem?-snoc-cases,
  get_elem?-snoc_lt, get_or, get_or-set_last, if◌then◌else◌, inl, inr, leb, leb→le, length,
  length-append, length-set, length-take, ltb, ltb→lt, lt→ltb, map, min, none, not, refl, replicate,
  set, set-set, set-snoc, some, str_eq, str_eq_iff, str_eq_refl, str_eq→eq, subst, suc, sym, take,
  take-append, take_all, tests, total, total-append, total-set, total-take_last, total_differ,
  total_same, total_zero, true, zero, ℕ, ◌%◌, ◌&&◌, ◌*◌, ◌++◌, ◌+◌, ◌-◌, ◌/◌, ◌<◌, ◌==◌, ◌^◌, ◌||◌,
  ◌↔◌, ◌∙◌, ◌∷◌, ◌≡◌, ◌≢◌, ◌≤◌, ◌⊎◌,
}
use teme_pcom.Http.Numbers.{ℤ, pos, negsuc, strtol_end, to_int}

-- A part in front of others, unless it is empty.
abbrev pub with_token : Bytes → List Bytes → List Bytes
with_token [] tokens = tokens
with_token (c ∷ token) tokens = (c ∷ token) ∷ tokens

-- The lines that fgets (line, 64, fp) gives: they end behind a newline, at 63 bytes, or at the end of
-- the file. `room` is what still fits, `line` what was read already.
unfoldable pub lines_from : ℕ → Bytes → Bytes → List Bytes
lines_from room line [] = with_token line []
lines_from room line (c ∷ file) =
    if c == 10 || leb room 1
    then (line ++ c ∷ []) ∷ lines_from 63 [] file
    else lines_from (room - 1) (line ++ c ∷ []) file

-- strtok (line, " ."): the parts without blanks and dots that are not empty.
abbrev pub is_separator : ℕ → Bool
is_separator c = c == b' ' || c == b'.'

unfoldable pub strtok_from : Bytes → Bytes → List Bytes
strtok_from token [] = with_token token []
strtok_from token (c ∷ line) =
    if is_separator c
    then with_token token (strtok_from [] line)
    else strtok_from (token ++ c ∷ []) line

unfoldable pub atoi : Bytes → ℤ
atoi s = elim (strtol_end s) [ none ↦ pos 0 | some (x, rest) ↦ to_int x ]

-- (unsigned char)
unfoldable pub low_byte : ℤ → ℕ
low_byte (pos n) = n % 2 ^ 8
low_byte (negsuc n) = 2 ^ 8 - 1 - n % 2 ^ 8

-- A struct route_table_entry as it lies in memory: the four bytes each of prefix, next_hop and mask,
-- and the interface.
pub record Row : Type 0 where
  pub addresses : Bytes
  pub interface : ℤ

-- The token at index i of a line.
unfoldable pub set_field : ℕ → Bytes → Row → Row
set_field i p row =
    if ltb i 12
    then record row { addresses = set row.addresses i (low_byte (atoi p)) }
    else if i == 12
    then record row { interface = atoi p }
    else row

unfoldable pub set_fields : ℕ → List Bytes → Row → Row
set_fields i [] row = row
set_fields i (p ∷ tokens) row = set_fields (i + 1) tokens (set_field i p row)

-- The rows from index j on, over what the array held.
unfoldable pub read_rows : (ℕ → Row) → ℕ → List Bytes → List Row
read_rows rtable j [] = []
read_rows rtable j (line ∷ lines) =
    set_fields 0 (strtok_from [] (c_string line)) (rtable j) ∷ read_rows rtable (j + 1) lines

unfoldable pub read_rtable : Bytes → (ℕ → Row) → List Row
read_rtable file rtable = read_rows rtable 0 (lines_from 63 [] file)
