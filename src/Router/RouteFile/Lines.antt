-- ===== src/Router/RouteFile/Lines.antt =====
-- A line of printed numbers, as fgets and strtok take it apart.
use teme_pcom.Prelude.{
  All, Bool-cases, Bytes, [], ap, append-nil, append_assoc, arith, c_string, false, inl, inr, leb,
  length, ltb, ltb→lt, lt→ltb, refl, suc, sym, true, zero, ℕ, ◌%◌, ◌++◌, ◌+◌, ◌-◌, ◌/◌, ◌<◌, ◌==◌,
  ◌∙◌, ◌∷◌, ◌≡◌, ◌≤◌,
}
use teme_pcom.Http.Requests.Decimal.{print_decimal, digits_from, is_digit}
use teme_pcom.Router.RouteFile.{lines_from, is_separator, with_token, strtok_from}

-- Bytes that end no line, no string and no token.
abbrev pub IsDigits : Bytes → Type 0
IsDigits = All (λ c. is_digit c ≡ true)

digits_from-IsDigits :
    (fuel n : ℕ) (rest : Bytes) → IsDigits rest → IsDigits (digits_from fuel n rest)
unfolding digits_from
digits_from-IsDigits zero n rest h = h
digits_from-IsDigits (suc fuel) n rest h = elim (Bool-cases (ltb n 10)) [
  | inl t ↦ let lt = ltb→lt n 10 t in rw t (ground (arith, lt), h)
  | inr f ↦ rw f (digits_from-IsDigits fuel (n / 10) ((b'0' + n % 10) ∷ rest) (ground arith, h))
]

pub print_decimal-IsDigits : (n : ℕ) → IsDigits (print_decimal n)
unfolding print_decimal
print_decimal-IsDigits n = digits_from-IsDigits (n + 1) n [] tt

length-one :
    (fuel n : ℕ) (rest : Bytes) → n < 10 → length (digits_from fuel n rest) ≤ 1 + length rest
unfolding digits_from
length-one zero n rest h = omega arith
length-one (suc fuel) n rest h = rw (lt→ltb n 10 h) (omega arith)

length-two :
    (fuel n : ℕ) (rest : Bytes) → n < 100 → length (digits_from fuel n rest) ≤ 2 + length rest
unfolding digits_from
length-two zero n rest h = omega arith
length-two (suc fuel) n rest h = elim (Bool-cases (ltb n 10)) [
  | inl t ↦ rw t (omega arith)
  | inr f ↦
      rw f (omega (arith, length-one fuel (n / 10) ((b'0' + n % 10) ∷ rest) (omega (arith, h))))
]

length-three :
    (fuel n : ℕ) (rest : Bytes) → n < 1000 → length (digits_from fuel n rest) ≤ 3 + length rest
unfolding digits_from
length-three zero n rest h = omega arith
length-three (suc fuel) n rest h = elim (Bool-cases (ltb n 10)) [
  | inl t ↦ rw t (omega arith)
  | inr f ↦
      rw f (omega (arith, length-two fuel (n / 10) ((b'0' + n % 10) ∷ rest) (omega (arith, h))))
]

pub length-print_decimal : (n : ℕ) → n < 1000 → length (print_decimal n) ≤ 3
unfolding print_decimal
length-print_decimal n h = length-three (n + 1) n [] h

-- A line with its newline is one call's.
pub lines_from-line :
    (room : ℕ) (read line rest : Bytes)
    → All (λ c. (c == 10) ≡ false) line
    → length line < room
    → lines_from room read (line ++ 10 ∷ rest) ≡ (read ++ (line ++ 10 ∷ [])) ∷ lines_from 63 [] rest
unfolding lines_from
lines_from-line room read [] rest h fits = refl
lines_from-line room read (c ∷ line) rest h fits =
    let wide : leb room 1 ≡ false = ground (arith, fits) in
    rw (h.0, wide)
      (lines_from-line (room - 1) (read ++ c ∷ []) line rest h.1 (omega (arith, fits))
        ∙ ap (λ l. l ∷ lines_from 63 [] rest) (append_assoc read (c ∷ []) (line ++ 10 ∷ [])))

pub c_string-same : (s : Bytes) → All (λ c. (c == 0) ≡ false) s → c_string s ≡ s
unfolding c_string
c_string-same [] h = refl
c_string-same (c ∷ s) h = rw h.0 (ap (◌∷◌ c) (c_string-same s h.1))

-- A word up to the separator behind it, and the word at the end of the line.
pub strtok_from-word :
    (token word rest : Bytes) (sep : ℕ)
    → All (λ c. is_separator c ≡ false) word
    → is_separator sep ≡ true
    → strtok_from token (word ++ sep ∷ rest) ≡ with_token (token ++ word) (strtok_from [] rest)
unfolding strtok_from
strtok_from-word token [] rest sep h s =
    rw s (ap (λ t. with_token t (strtok_from [] rest)) (sym (append-nil token)))
strtok_from-word token (c ∷ word) rest sep h s = rw h.0 (
    strtok_from-word (token ++ c ∷ []) word rest sep h.1 s
    ∙ ap (λ t. with_token t (strtok_from [] rest)) (append_assoc token (c ∷ []) word))

pub strtok_from-last :
    (token word : Bytes)
    → All (λ c. is_separator c ≡ false) word
    → strtok_from token word ≡ with_token (token ++ word) []
unfolding strtok_from
strtok_from-last token [] h = ap (λ t. with_token t []) (sym (append-nil token))
strtok_from-last token (c ∷ word) h = rw h.0 (
    strtok_from-last (token ++ c ∷ []) word h.1
    ∙ ap (λ t. with_token t []) (append_assoc token (c ∷ []) word))
