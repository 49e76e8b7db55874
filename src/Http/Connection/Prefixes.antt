-- ===== src/Http/Connection/Prefixes.antt =====
-- Searches in the first part of a text.
use teme_pcom.Prelude.{
  Bool-cases, Bytes, Option, [], ap, arith, drop, inl, inr, length, ltb, ltb→lt, map, none, refl,
  some, suc, sym, take, zero, ℕ, ◌++◌, ◌+◌, ◌<◌, ◌∙◌, ◌∷◌, ◌≡◌, ◌≤◌,
}
use teme_pcom.Http.Buffer.{Buffer}
use teme_pcom.Http.Buffer.First.{FindsFirst, found, nowhere}

abbrev pub holding : Bytes → Buffer
holding s = record { contents = some s }

take-drop-append :
    (m i : ℕ) (front back : Bytes)
    → i + m ≤ length front
    → take m (drop i (front ++ back)) ≡ take m (drop i front)
take-drop-append zero zero front back h = refl
take-drop-append zero (suc i) [] back h = absurd (omega arith)
take-drop-append zero (suc i) (c ∷ front) back h = refl
take-drop-append (suc m) zero [] back h = absurd (omega arith)
take-drop-append (suc m) zero (c ∷ front) back h =
    ap (λ s. c ∷ s) (take-drop-append m zero front back (omega arith))
take-drop-append (suc m) (suc i) [] back h = absurd (omega arith)
take-drop-append (suc m) (suc i) (c ∷ front) back h =
    take-drop-append (suc m) i front back (omega arith)

StandsAt-front :
    (f : ℕ → ℕ) (needle front back : Bytes) (i : ℕ)
    → i + length needle ≤ length front
    → (map f (take (length needle) (drop i (front ++ back)))
        ≡ map f (take (length needle) (drop i front)))
StandsAt-front f needle front back i h =
    ap (map f) (take-drop-append (length needle) i front back h)

-- The first place in the whole text, if the first part holds it.
pub FindsFirst-front :
    (f : ℕ → ℕ) (needle front back : Bytes) (h : ℕ) (r : Option ℕ)
    → FindsFirst f (holding (front ++ back)) needle (some h)
    → h + length needle ≤ length front
    → FindsFirst f (holding front) needle r
    → r ≡ some h
FindsFirst-front f needle front back h r whole le part = go r whole part
  where
    go :
        (r : Option ℕ)
        → FindsFirst f (holding (front ++ back)) needle (some h)
        → FindsFirst f (holding front) needle r
        → r ≡ some h
    go none (found fits at first) (nowhere absent) =
        absurd (absent h le (sym (StandsAt-front f needle front back h le) ∙ at))
    go (some k) (found fits at first) (found fits' at' first') = elim (Bool-cases (ltb k h)) [
      | inl t ↦ absurd (first k (ltb→lt k h t) (StandsAt-front f needle front back k fits' ∙ at'))
      | inr f1 ↦ elim (Bool-cases (ltb h k)) [
        | inl t ↦
            absurd (first' h (ltb→lt h k t) (sym (StandsAt-front f needle front back h le) ∙ at))
        | inr f2 ↦ let same : k ≡ h = ground arith in ap some same
      ]
    ]

-- And nothing, if the first part ends before it does.
pub FindsFirst-none :
    (f : ℕ → ℕ) (needle front back : Bytes) (h : ℕ) (r : Option ℕ)
    → FindsFirst f (holding (front ++ back)) needle (some h)
    → length front < h + length needle
    → FindsFirst f (holding front) needle r
    → r ≡ none
FindsFirst-none f needle front back h r whole lt part = go r whole part
  where
    go :
        (r : Option ℕ)
        → FindsFirst f (holding (front ++ back)) needle (some h)
        → FindsFirst f (holding front) needle r
        → r ≡ none
    go none w p = refl
    go (some k) (found fits at first) (found fits' at' first') =
        let before : k < h = omega (arith, fits') in
        absurd (first k before (StandsAt-front f needle front back k fits' ∙ at'))
