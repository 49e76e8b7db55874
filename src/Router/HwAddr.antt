-- ===== src/Router/HwAddr.antt =====
-- Tema_1/lib/lib.c: hex2num, hex2byte and hwaddr_aton. A text is the bytes before its NUL; `none` is
-- the result -1.
pub mod RoundTrip
use teme_pcom.Prelude.{
  Bytes, Option, [], drop, get_or, if◌then◌else◌, leb, none, some, suc, zero, ℕ, ◌&&◌, ◌*◌, ◌++◌,
  ◌+◌, ◌-◌, ◌==◌, ◌∷◌,
}

unfoldable pub hex2num : ℕ → Option ℕ
hex2num c =
    if leb b'0' c && leb c b'9'
    then some (c - b'0')
    else if leb b'a' c && leb c b'f'
    then some (c - b'a' + 10)
    else if leb b'A' c && leb c b'F'
    then some (c - b'A' + 10)
    else none

-- The byte at an index of the text, up to its NUL.
abbrev pub char_at : Bytes → ℕ → ℕ
char_at txt i = get_or txt i 0

-- Two digits: (a << 4) | b, where b has four bits.
unfoldable pub hex2byte : Bytes → Option ℕ
hex2byte hex = elim (hex2num (char_at hex 0)) [
  | none ↦ none
  | some a ↦ elim (hex2num (char_at hex 1)) [ none ↦ none | some b ↦ some (16 * a + b) ]
]

-- The colon behind a byte, unless it is the last one.
unfoldable pub after_byte : ℕ → Bytes → Option Bytes
after_byte zero txt = some txt
after_byte (suc n) txt = if char_at txt 0 == b':' then some (drop 1 txt) else none

-- The loop with n rounds left, with the bytes that are written; a round reads two digits as
-- hex2byte does.
unfoldable pub hwaddr_from : ℕ → Bytes → Bytes → Option Bytes
hwaddr_from zero txt addr = some addr
hwaddr_from (suc n) txt addr = elim (hex2byte txt) [
  | none ↦ none
  | some b ↦ elim (after_byte n (drop 2 txt)) [
    | none ↦ none
    | some txt' ↦ hwaddr_from n txt' (addr ++ b ∷ [])
  ]
]

unfoldable pub hwaddr_aton : Bytes → Option Bytes
hwaddr_aton txt = hwaddr_from 6 txt []
