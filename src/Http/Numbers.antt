-- ===== src/Http/Numbers.antt =====
-- The int of Tema_3/client.c, and the parts of <stdio.h> and <stdlib.h> that read and write it:
-- "%d", strtol in base 10, and scanf ("%d"). A long has 64 bits, an int 32.
pub mod Bounds
use teme_pcom.Prelude.{
  Bool, Bytes, Option, [], codes, false, if◌then◌else◌, leb, ltb, min, none, some, suc, true, zero,
  ℕ, ◌%◌, ◌&&◌, ◌*◌, ◌++◌, ◌+◌, ◌-◌, ◌==◌, ◌^◌, ◌||◌, ◌∷◌,
}
use teme_pcom.Http.Requests.Decimal.{print_decimal, is_digit}

-- `negsuc n` is -(n + 1).
pub data ℤ : Type 0 where
  pos : ℕ → ℤ
  negsuc : ℕ → ℤ

-- "%d"
unfoldable pub print_int : ℤ → Bytes
print_int (pos n) = print_decimal n
print_int (negsuc n) = codes "-" ++ print_decimal (n + 1)

abbrev pub is_space : ℕ → Bool
is_space c = c == 32 || (leb 9 c && leb c 13)

unfoldable pub skip_spaces : Bytes → Bytes
skip_spaces [] = []
skip_spaces (c ∷ s) = let rest = skip_spaces s in if is_space c then rest else c ∷ s

-- A long from its sign and its digits' value: strtol stops at the ends of the range.
unfoldable pub clamp : Bool → ℕ → ℤ
clamp false n = pos (min n (2 ^ 63 - 1))
clamp true zero = pos 0
clamp true (suc n) = negsuc (min n (2 ^ 63 - 1))

-- The low 32 bits of a long, as an int.
unfoldable pub to_int : ℤ → ℤ
to_int (pos n) =
    let low = n % 2 ^ 32 in if ltb low (2 ^ 31) then pos low else negsuc (2 ^ 32 - 1 - low)
to_int (negsuc n) =
    let low = n % 2 ^ 32 in if ltb low (2 ^ 31) then negsuc low else pos (2 ^ 32 - 1 - low)

-- The digits at the front: their value, and what stands behind them.
unfoldable pub digits_at : ℕ → Bytes → ℕ × Bytes
digits_at acc [] = (acc, [])
digits_at acc (c ∷ s) =
    let rest = digits_at (acc * 10 + (c - b'0')) s in if is_digit c then rest else (acc, c ∷ s)

-- A number needs a digit.
unfoldable pub number_at : Bool → Bytes → Option (ℤ × Bytes)
number_at negative [] = none
number_at negative (c ∷ s) =
    let (n, rest) = digits_at 0 (c ∷ s) in
    if is_digit c then some (clamp negative n, rest) else none

unfoldable pub signed_at : Bytes → Option (ℤ × Bytes)
signed_at [] = none
signed_at (c ∷ s) =
    if c == b'-'
    then number_at true s
    else if c == b'+'
    then number_at false s
    else number_at false (c ∷ s)

-- strtol (s, &end, 10): the long and the text at `end`, or no conversion.
unfoldable pub strtol_end : Bytes → Option (ℤ × Bytes)
strtol_end s = signed_at (skip_spaces s)

-- A sign that scanf has read is gone also if no digit follows it.
unfoldable pub behind_sign : Bytes → Bytes
behind_sign [] = []
behind_sign (c ∷ s) = if c == b'-' || c == b'+' then s else c ∷ s

-- scanf ("%d", &x): what is left of the input, and the int that is written, if one is.
unfoldable pub scan_int : Bytes → Option ℤ × Bytes
scan_int input = elim (strtol_end input) [
  | none ↦ (none, behind_sign (skip_spaces input))
  | some (x, rest) ↦ (some (to_int x), rest)
]
