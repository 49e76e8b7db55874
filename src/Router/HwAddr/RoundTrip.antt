-- ===== src/Router/HwAddr/RoundTrip.antt =====
-- Hardware addresses written in hexadecimal, and read.
use teme_pcom.Prelude.{
  All, Bytes, [], ap, append-nil, append_assoc, arith, if◌then◌else◌, length, ltb, refl, some,
  subst, sym, ℕ, ◌%◌, ◌*◌, ◌++◌, ◌+◌, ◌-◌, ◌/◌, ◌<◌, ◌∙◌, ◌∷◌, ◌≡◌,
}
use teme_pcom.Router.HwAddr.{hex2num, hex2byte, after_byte, hwaddr_from, hwaddr_aton}

-- A digit below sixteen, in small letters.
abbrev pub hex_digit : ℕ → ℕ
hex_digit n = if ltb n 10 then b'0' + n else b'a' + (n - 10)

-- Two digits for each byte, with colons between them.
abbrev pub mac_text : Bytes → Bytes
mac_text [] = []
mac_text (b ∷ []) = hex_digit (b / 16) ∷ hex_digit (b % 16) ∷ []
mac_text (b ∷ c ∷ bs) = hex_digit (b / 16) ∷ hex_digit (b % 16) ∷ b':' ∷ mac_text (c ∷ bs)

hex2num-hex_digit : (n : ℕ) → n < 16 → hex2num (hex_digit n) ≡ some n
unfolding hex2num
hex2num-hex_digit n h = ground arith

hex2byte-hex_digit :
    (b : ℕ) (rest : Bytes)
    → b < 256
    → hex2byte (hex_digit (b / 16) ∷ hex_digit (b % 16) ∷ rest) ≡ some b
unfolding hex2byte
hex2byte-hex_digit b rest h =
    let high = hex2num-hex_digit (b / 16) (omega arith) in
    let low = hex2num-hex_digit (b % 16) (omega arith) in
    let whole : 16 * (b / 16) + b % 16 ≡ b = omega arith in rw (hex2byte, high, low) (ap some whole)

hwaddr_from-mac_text :
    (bs rest addr : Bytes)
    → All (λ b. b < 256) bs
    → hwaddr_from (length bs) (mac_text bs ++ rest) addr ≡ some (addr ++ bs)
unfolding hwaddr_from after_byte
hwaddr_from-mac_text [] rest addr h = ap some (sym (append-nil addr))
hwaddr_from-mac_text (b ∷ []) rest addr h =
    let byte = hex2byte-hex_digit b rest h.0 in rw (hwaddr_from, byte) refl
hwaddr_from-mac_text (b ∷ c ∷ bs) rest addr h =
    let byte = hex2byte-hex_digit b (b':' ∷ (mac_text (c ∷ bs) ++ rest)) h.0 in
    rw (hwaddr_from, byte)
      (hwaddr_from-mac_text (c ∷ bs) rest (addr ++ b ∷ []) h.1
        ∙ ap some (append_assoc addr (b ∷ []) (c ∷ bs)))

-- A hardware address of six bytes that is written in small hexadecimal digits with colons is read
-- back, whatever stands behind it.
pub hwaddr_aton-mac_text :
    (addr rest : Bytes)
    → length addr ≡ 6
    → All (λ b. b < 256) addr
    → hwaddr_aton (mac_text addr ++ rest) ≡ some addr
unfolding hwaddr_aton
hwaddr_aton-mac_text addr rest len h =
    subst (λ n. hwaddr_from n (mac_text addr ++ rest) [] ≡ some addr) len
      (hwaddr_from-mac_text addr rest [] h)
