-- ===== src/Http/Numbers/Bounds.antt =====
-- Ints in their range.
use teme_pcom.Prelude.{
  ◌==◌, sym, Bool, some, ◌++◌, Bool-cases, Bytes, [], ap, arith, false, inl, inr, ltb, refl, suc,
  true, zero, ℕ, ◌%◌, ◌*◌, ◌+◌, ◌-◌, ◌/◌, ◌<◌, ◌^◌, ◌∙◌, ◌∷◌, ◌≡◌,
}
use teme_pcom.Http.Numbers.{
  is_space, skip_spaces, signed_at, print_int, number_at, strtol_end, clamp, ℤ, pos, negsuc, to_int,
  digits_at,
}
use teme_pcom.Http.Requests.Decimal.{digits_from-append, print_decimal, is_digit, digits_from}

-- -2^31 ≤ x < 2^31
abbrev pub IsInt : ℤ → Type 0
IsInt (pos n) = n < 2 ^ 31
IsInt (negsuc n) = n < 2 ^ 31

pub to_int-same : (x : ℤ) → IsInt x → to_int x ≡ x
unfolding to_int
to_int-same (pos n) h = ground arith
to_int-same (negsuc n) h = ground arith

-- Behind a printed number comes something that is no digit.
abbrev pub EndsNumber : Bytes → Type 0
EndsNumber [] = Unit
EndsNumber (c ∷ s) = is_digit c ≡ false

digits_at-rest : (n : ℕ) (rest : Bytes) → EndsNumber rest → digits_at n rest ≡ (n, rest)
unfolding digits_at
digits_at-rest n [] h = refl
digits_at-rest n (c ∷ s) h = rw h refl

digits_at-cons :
    (acc d : ℕ) (s : Bytes) → d < 10 → digits_at acc ((b'0' + d) ∷ s) ≡ digits_at (acc * 10 + d) s
unfolding digits_at
digits_at-cons acc d s h =
    let back : b'0' + d - b'0' ≡ d = omega arith in
    let test : is_digit (b'0' + d) ≡ true = ground arith in rw (test, back) refl

digits_at-digits_from :
    (fuel n : ℕ) (rest : Bytes)
    → n < fuel
    → digits_at 0 (digits_from fuel n rest) ≡ digits_at n rest
unfolding digits_from
digits_at-digits_from zero n rest h = absurd (omega arith)
digits_at-digits_from (suc fuel) n rest h = elim (Bool-cases (ltb n 10)) [
  | inl t ↦ rw t (digits_at-cons 0 n rest (ground arith) ∙ ap (λ m. digits_at m rest) (omega arith))
  | inr f ↦ rw f (
      digits_at-digits_from fuel (n / 10) ((b'0' + n % 10) ∷ rest) (ground arith)
      ∙ digits_at-cons (n / 10) (n % 10) rest (omega arith)
      ∙ ap (λ m. digits_at m rest) (omega arith))
]

-- The first byte of a printed number is a digit, so it is no blank and no sign.
digits_from-first :
    (fuel n : ℕ) (rest : Bytes)
    → n < fuel
    → (c : ℕ) × (s : Bytes) × (digits_from fuel n rest ≡ c ∷ s) × (is_digit c ≡ true)
unfolding digits_from
digits_from-first zero n rest h = absurd (omega arith)
digits_from-first (suc fuel) n rest h = elim (Bool-cases (ltb n 10)) [
  | inl t ↦ (b'0' + n, rest, rw t refl, ground arith)
  | inr f ↦
      let (c, s, same, digit) =
        digits_from-first fuel (n / 10) ((b'0' + n % 10) ∷ rest) (ground arith) in
      (c, s, rw f same, digit)
]

pub printed :
    (n : ℕ) (rest : Bytes)
    → EndsNumber rest
    → (c : ℕ) × (s : Bytes) × (print_decimal n ++ rest ≡ c ∷ s)
      × (is_digit c ≡ true)
      × (digits_at 0 (c ∷ s) ≡ (n, rest))
unfolding print_decimal
printed n rest h =
    let (c, s, same, digit) = digits_from-first (n + 1) n rest (omega arith) in
    let all : digits_from (n + 1) n [] ++ rest ≡ digits_from (n + 1) n rest =
      digits_from-append (n + 1) n [] rest in
    (
      c,
      s,
      all ∙ same,
      digit,
      ap (digits_at 0) (sym same)
          ∙ digits_at-digits_from (n + 1) n rest (omega arith)
          ∙ digits_at-rest n rest h,
    )

number_at-digits :
    (negative : Bool) (c n : ℕ) (s rest : Bytes)
    → is_digit c ≡ true
    → digits_at 0 (c ∷ s) ≡ (n, rest)
    → number_at negative (c ∷ s) ≡ some (clamp negative n, rest)
unfolding number_at
number_at-digits negative c n s rest digit e = rw (digit, e) refl

clamp-small : (n : ℕ) → n < 2 ^ 31 → clamp false n ≡ pos n
unfolding clamp
clamp-small n h = ground arith

clamp-small_negative : (n : ℕ) → n < 2 ^ 31 → clamp true (n + 1) ≡ negsuc n
unfolding clamp
clamp-small_negative n h = ground arith

pub strtol_end-print_int :
    (x : ℤ) (rest : Bytes)
    → IsInt x
    → EndsNumber rest
    → strtol_end (print_int x ++ rest) ≡ some (x, rest)
unfolding strtol_end signed_at skip_spaces print_int
strtol_end-print_int (pos n) rest h end =
    let (c, s, same, digit, value) = printed n rest end in
    let blank : is_space c ≡ false = ground arith in
    let minus : (c == b'-') ≡ false = ground arith in
    let plus : (c == b'+') ≡ false = ground arith in
    rw (same, blank, minus, plus)
      (number_at-digits false c n s rest digit value ∙ ap (λ v. some (v, rest)) (clamp-small n h))
strtol_end-print_int (negsuc n) rest h end =
    let (c, s, same, digit, value) = printed (n + 1) rest end in
    rw same (
      number_at-digits true c (n + 1) s rest digit value
      ∙ ap (λ v. some (v, rest)) (clamp-small_negative n h))
