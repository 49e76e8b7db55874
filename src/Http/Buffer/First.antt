-- ===== src/Http/Buffer/First.antt =====
-- The searches, and the first place where the needle stands.
use teme_pcom.Prelude.{
  Bool-cases, Bytes, Option, [], arith, drop, false, inl, inr, length, ltb, map, none, refl, some,
  subst, suc, sym, take, true, zero, ℕ, ◌+◌, ◌-◌, ◌<◌, ◌∷◌, ◌≡◌, ◌≤◌,
}
use teme_pcom.Http.Buffer.{
  search_in, bytes_of, tolower, buffer_find_insensitive, agrees, buffer_find, size, rest_of,
  find_from, Buffer,
}

-- The bytes from i on begin with the needle, byte by byte under f.
abbrev pub StandsAt : (ℕ → ℕ) → Bytes → Bytes → ℕ → Type 0
StandsAt f needle hay i = map f (take (length needle) (drop i hay)) ≡ map f needle

agrees→ : (f : ℕ → ℕ) (needle hay : Bytes) → agrees f needle hay ≡ true → StandsAt f needle hay 0
unfolding agrees
agrees→ f [] hay h = refl
agrees→ f (d ∷ needle) [] h = cc
agrees→ f (d ∷ needle) (c ∷ hay) h = ground (arith, agrees→ f needle hay)

→agrees : (f : ℕ → ℕ) (needle hay : Bytes) → StandsAt f needle hay 0 → agrees f needle hay ≡ true
unfolding agrees
→agrees f [] hay h = refl
→agrees f (d ∷ needle) [] h = cc
→agrees f (d ∷ needle) (c ∷ hay) h = ground (arith, →agrees f needle hay)

drop-rest_of : (i : ℕ) (hay : Bytes) → drop i (rest_of hay) ≡ drop (suc i) hay
drop-rest_of zero [] = refl
drop-rest_of (suc i) [] = refl
drop-rest_of i (c ∷ hay) = refl

-- What the outer loop finds, counted from where it starts.
find_from-some :
    (f : ℕ → ℕ) (needle : Bytes) (n i k : ℕ) (hay : Bytes)
    → find_from f needle n i hay ≡ some k
    → (m : ℕ) × (k ≡ i + m)
      × (m < n)
      × StandsAt f needle hay m
      × ((j : ℕ) → j < m → ¬ StandsAt f needle hay j)
unfolding find_from
find_from-some f needle zero i k hay h = absurd (cc)
find_from-some f needle (suc n) i k hay h = elim (Bool-cases (agrees f needle hay)) [
  | inl t ↦ (0, ground arith, omega arith, agrees→ f needle hay t, λ j lt. absurd (omega arith))
  | inr miss ↦
      let (m, eq, lt, at, first) =
        find_from-some f needle n (i + 1) k (rest_of hay) (rw miss at h) in
      (
        suc m,
        omega arith,
        omega arith,
        subst (λ s. map f (take (length needle) s) ≡ map f needle) (drop-rest_of m hay) at,
        earlier m miss first,
      )
]
  where
    earlier :
        (m : ℕ)
        → agrees f needle hay ≡ false
        → ((j : ℕ) → j < m → ¬ StandsAt f needle (rest_of hay) j)
        → (j : ℕ) → j < suc m
        → ¬ StandsAt f needle hay j
    earlier m miss first zero lt s = let t = →agrees f needle hay s in absurd (cc)
    earlier m miss first (suc j) lt s =
        first j (omega arith)
          (subst (λ u. map f (take (length needle) u) ≡ map f needle) (sym (drop-rest_of j hay)) s)

find_from-none :
    (f : ℕ → ℕ) (needle : Bytes) (n i : ℕ) (hay : Bytes)
    → find_from f needle n i hay ≡ none
    → (j : ℕ) → j < n
    → ¬ StandsAt f needle hay j
unfolding find_from
find_from-none f needle zero i hay h j lt s = absurd (omega arith)
find_from-none f needle (suc n) i hay h zero lt s =
    let t = →agrees f needle hay s in absurd (ground arith)
find_from-none f needle (suc n) i hay h (suc j) lt s =
    find_from-none f needle n (i + 1) (rest_of hay) (ground arith) j (omega arith)
      (subst (λ u. map f (take (length needle) u) ≡ map f needle) (sym (drop-rest_of j hay)) s)

-- A search answers with the first position at which the whole needle stands, and with -1 only if
-- it stands nowhere.
pub data FindsFirst (f : ℕ → ℕ) (b : Buffer) (needle : Bytes) : Option ℕ → Type 0 where
  found :
      {k : ℕ}
      → k + length needle ≤ size b
      → StandsAt f needle (bytes_of b) k
      → ((j : ℕ) → j < k → ¬ StandsAt f needle (bytes_of b) j)
      → FindsFirst f b needle (some k)
  nowhere :
      ((j : ℕ) → j + length needle ≤ size b → ¬ StandsAt f needle (bytes_of b) j)
      → FindsFirst f b needle none

searched-FindsFirst :
    (f : ℕ → ℕ) (b : Buffer) (needle : Bytes) (r : Option ℕ)
    → length needle ≤ size b
    → find_from f needle (size b - length needle + 1) 0 (bytes_of b) ≡ r
    → FindsFirst f b needle r
searched-FindsFirst f b needle none fits h =
    nowhere (λ j le.
      find_from-none f needle (size b - length needle + 1) 0 (bytes_of b) h j (omega arith))
searched-FindsFirst f b needle (some k) fits h =
    let (m, eq, lt, at, first) =
      find_from-some f needle (size b - length needle + 1) 0 k (bytes_of b) h in
    let m≡k : m ≡ k = omega arith in
    found (omega arith) (subst (StandsAt f needle (bytes_of b)) m≡k at)
      (λ j lt'. first j (omega arith))

search_in-FindsFirst :
    (f : ℕ → ℕ) (b : Buffer) (needle : Bytes) → FindsFirst f b needle (search_in f b needle)
search_in-FindsFirst f b needle = elim (Bool-cases (ltb (size b) (length needle))) [
  | inl long ↦ rw long (nowhere (λ j le. absurd (ground arith)))
  | inr fits ↦ rw fits (searched-FindsFirst f b needle _ (ground arith) refl)
]

-- The search by byte returns the first place of the needle in the buffer, or -1 if there is none.
pub buffer_find-FindsFirst :
    (b : Buffer) (needle : Bytes) → FindsFirst (λ c. c) b needle (buffer_find b needle)
unfolding buffer_find
buffer_find-FindsFirst b needle = search_in-FindsFirst (λ c. c) b needle

-- The search that ignores case returns the first place where the needle stands up to case, or -1 if
-- there is none.
pub buffer_find_insensitive-FindsFirst :
    (b : Buffer) (needle : Bytes) → FindsFirst tolower b needle (buffer_find_insensitive b needle)
unfolding buffer_find_insensitive
buffer_find_insensitive-FindsFirst b needle = search_in-FindsFirst tolower b needle
