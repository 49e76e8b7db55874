-- ===== src/Router/Checksum.antt =====
-- Tema_1/lib/lib.c, checksum: the Internet checksum, over the words that ntohs gives.
use teme_pcom.Prelude.{
  All, List, [], arith, length, refl, ℕ, ◌%◌, ◌*◌, ◌++◌, ◌+◌, ◌-◌, ◌/◌, ◌<◌, ◌^◌, ◌∷◌, ◌≡◌, ◌≤◌,
}

-- The words of the data, and the byte that an odd length leaves. (extra_byte is a 16-bit variable
-- of which the code writes one byte; `stale` is what the other one holds.)
unfoldable pub sum_words : ℕ → List ℕ → ℕ
sum_words stale [] = 0
sum_words stale (b ∷ []) = b + 256 * stale
sum_words stale (hi ∷ lo ∷ rest) = 256 * hi + lo + sum_words stale rest

-- Both folds of the carry, on an unsigned long.
unfoldable pub fold_carry : ℕ → ℕ
fold_carry sum = let once = sum / 2 ^ 16 + sum % 2 ^ 16 in once + once / 2 ^ 16

-- (uint16_t) (~checksum)
unfoldable pub checksum : ℕ → List ℕ → ℕ
checksum stale bytes = 2 ^ 16 - 1 - fold_carry (sum_words stale bytes) % 2 ^ 16

-- htons (c), stored at a word: the high byte comes first.
abbrev pub word_bytes : ℕ → List ℕ
word_bytes c = c / 2 ^ 8 ∷ c % 2 ^ 8 ∷ []

abbrev pub AreBytes : List ℕ → Type 0
AreBytes = All (λ b. b < 256)

-- An even number of bytes.
abbrev pub IsEven : List ℕ → Type 0
IsEven bytes = length bytes % 2 ≡ 0

sum_words-append :
    (stale : ℕ) (xs ys : List ℕ)
    → IsEven xs
    → sum_words stale (xs ++ ys) ≡ sum_words stale xs + sum_words stale ys
unfolding sum_words
sum_words-append stale [] ys h = omega arith
sum_words-append stale (x ∷ []) ys h = absurd (omega arith)
sum_words-append stale (x ∷ y ∷ xs) ys h = omega (arith, sum_words-append stale xs ys (omega arith))

sum_words-bound :
    (stale : ℕ) (xs : List ℕ) → IsEven xs → AreBytes xs → 2 * sum_words stale xs ≤ 65535 * length xs
unfolding sum_words
sum_words-bound stale [] h b = omega arith
sum_words-bound stale (x ∷ []) h b = absurd (omega arith)
sum_words-bound stale (x ∷ y ∷ xs) h b = omega (arith, sum_words-bound stale xs (omega arith) b.1.1)

-- Adding the complement of a folded sum gives a sum that folds to all ones.
fold_carry-complement :
    (s : ℕ) → s < 65535 * 32768 → fold_carry (s + (65535 - fold_carry s % 65536)) % 65536 ≡ 65535
unfolding fold_carry
fold_carry-complement s h = omega arith

-- A header whose checksum word was computed while it was zero checks: over the header with that
-- word written in, of at most 65534 bytes, the checksum is 0, wherever the word stands.
pub checksum-verifies :
    (stale : ℕ) (before after : List ℕ)
    → IsEven before
    → IsEven after
    → AreBytes before
    → AreBytes after
    → length before + length after ≤ 65532
    → checksum stale (before ++ (word_bytes (checksum stale (before ++ 0 ∷ 0 ∷ after)) ++ after))
      ≡ 0
unfolding checksum sum_words
checksum-verifies stale before after eb ea bb ba len =
    let s : ℕ = sum_words stale before + sum_words stale after in
    let c : ℕ = 65535 - fold_carry s % 65536 in
    let zeroed : sum_words stale (before ++ 0 ∷ 0 ∷ after) ≡ s =
      omega (arith, sum_words-append stale before (0 ∷ 0 ∷ after) eb) in
    let filled : sum_words stale (before ++ (word_bytes c ++ after)) ≡ s + c =
      omega (arith, sum_words-append stale before (word_bytes c ++ after) eb) in
    let small : s < 65535 * 32768 =
      omega (arith, sum_words-bound stale before eb bb, sum_words-bound stale after ea ba) in
    rw (zeroed, filled, fold_carry-complement s small) refl
