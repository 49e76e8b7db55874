-- ===== src/Http/Requests/Decimal.antt =====
-- The decimal digits that sprintf writes for %lu, and what strtol reads.
use teme_pcom.Prelude.{
  ◌++◌, refl, ap, inr, ◌∙◌, true, ◌≢◌, inl, arith, All, Bool-cases, ◌<◌, ◌≡◌, Bool, Bytes, [],
  if◌then◌else◌, leb, ltb, suc, zero, ℕ, ◌%◌, ◌&&◌, ◌*◌, ◌+◌, ◌-◌, ◌/◌, ◌∷◌,
}

-- The digits of n in front of `rest`, with fuel for n.
unfoldable pub digits_from : ℕ → ℕ → Bytes → Bytes
digits_from zero n rest = rest
digits_from (suc fuel) n rest =
    let more = digits_from fuel (n / 10) ((b'0' + n % 10) ∷ rest) in
    if ltb n 10 then (b'0' + n) ∷ rest else more

unfoldable pub print_decimal : ℕ → Bytes
print_decimal n = digits_from (n + 1) n []

abbrev pub is_digit : ℕ → Bool
is_digit c = leb b'0' c && leb c b'9'

-- Digits are read up to the first other byte.
unfoldable pub read_digits : ℕ → Bytes → ℕ
read_digits acc [] = acc
read_digits acc (c ∷ s) = if is_digit c then read_digits (acc * 10 + (c - b'0')) s else acc

-- strtol (s, NULL, 10), for a text that begins with a digit
unfoldable pub strtol : Bytes → ℕ
strtol s = read_digits 0 s

read_digits-cons :
    (acc d : ℕ) (s : Bytes)
    → d < 10
    → read_digits acc ((b'0' + d) ∷ s) ≡ read_digits (acc * 10 + d) s
unfolding read_digits
read_digits-cons acc d s h =
    let back : b'0' + d - b'0' ≡ d = omega arith in
    let test : is_digit (b'0' + d) ≡ true = ground arith in rw (test, back) refl

read_digits-digits_from :
    (fuel n : ℕ) (rest : Bytes)
    → n < fuel
    → read_digits 0 (digits_from fuel n rest) ≡ read_digits n rest
unfolding digits_from
read_digits-digits_from zero n rest h = absurd (omega arith)
read_digits-digits_from (suc fuel) n rest h = elim (Bool-cases (ltb n 10)) [
  | inl t ↦
      rw t (read_digits-cons 0 n rest (ground arith) ∙ ap (λ m. read_digits m rest) (omega arith))
  | inr f ↦ rw f (
      read_digits-digits_from fuel (n / 10) ((b'0' + n % 10) ∷ rest) (ground arith)
      ∙ read_digits-cons (n / 10) (n % 10) rest (omega arith)
      ∙ ap (λ m. read_digits m rest) (omega arith))
]

-- strtol reads back the number that %lu has written.
pub strtol-print_decimal : (n : ℕ) → strtol (print_decimal n) ≡ n
unfolding strtol print_decimal read_digits
strtol-print_decimal n = read_digits-digits_from (n + 1) n [] (omega arith)

pub digits_from-append :
    (fuel n : ℕ) (rest more : Bytes)
    → digits_from fuel n rest ++ more ≡ digits_from fuel n (rest ++ more)
unfolding digits_from
digits_from-append zero n rest more = refl
digits_from-append (suc fuel) n rest more = elim (Bool-cases (ltb n 10)) [
  | inl t ↦ rw t refl
  | inr f ↦ rw f (digits_from-append fuel (n / 10) ((b'0' + n % 10) ∷ rest) more)
]

-- Also in front of a carriage return.
pub strtol-print_decimal_cr : (n : ℕ) (left : Bytes) → strtol (print_decimal n ++ 13 ∷ left) ≡ n
unfolding strtol print_decimal read_digits
strtol-print_decimal_cr n left =
    ap (read_digits 0) (digits_from-append (n + 1) n [] (13 ∷ left))
    ∙ read_digits-digits_from (n + 1) n (13 ∷ left) (omega arith)

-- A printed number is made of digits.
abbrev pub NoCr : Bytes → Type 0
NoCr = All (λ c. c ≢ 13)

digits_from-NoCr : (fuel n : ℕ) (rest : Bytes) → NoCr rest → NoCr (digits_from fuel n rest)
unfolding digits_from
digits_from-NoCr zero n rest h = h
digits_from-NoCr (suc fuel) n rest h = elim (Bool-cases (ltb n 10)) [
  | inl t ↦ rw t (omega arith, h)
  | inr f ↦ rw f (digits_from-NoCr fuel (n / 10) ((b'0' + n % 10) ∷ rest) (omega arith, h))
]

pub print_decimal-NoCr : (n : ℕ) → NoCr (print_decimal n)
unfolding print_decimal
print_decimal-NoCr n = digits_from-NoCr (n + 1) n [] tt
