-- ===== src/Prelude/Search.antt =====
-- `for (i = 0; i < n; i++) if (p (a[i])) return i; return -1;` and counting.
use Prim.Native.Nat.{ℕ, zero, suc, ◌+◌, ◌<◌}
use mathlib.Core.Path.{◌≡◌, refl}
use mathlib.Core.Logic.{◌≢◌, inl, inr}
use mathlib.Core.Bool.{Bool, true, false, ◌||◌}
use mathlib.Core.List.{List, [], ◌∷◌, ◌++◌}
use mathlib.Core.Option
use mathlib.Core.Option.{Option, none, some}
use native.Mathlib.Omega.{arith}
use teme_pcom.Prelude.Tests.{if◌then◌else◌, ◌==◌, Bool-cases}
use teme_pcom.Prelude.Lists.{length, get_elem?, get_or, set, take}

module _ {ℓ} {A : Type ℓ} where
  -- The index of the first element that passes the test; `none` for -1.
  unfoldable pub find_index : (A → Bool) → List A → Option ℕ
  find_index p [] = none
  find_index p (x ∷ xs) = if p x then some 0 else Option.map suc (find_index p xs)

  abbrev pub any : (A → Bool) → List A → Bool
  any p [] = false
  any p (x ∷ xs) = p x || any p xs

  -- The index is in range, its element passes, and none before it does.
  pub find_index-some :
      (p : A → Bool) (xs : List A) (i : ℕ)
      → find_index p xs ≡ some i
      → (x : A) × (get_elem? xs i ≡ some x) × (p x ≡ true) × (i < length xs)
  unfolding find_index
  find_index-some p [] i h = cc
  find_index-some p (x ∷ xs) zero h = (x, refl, ground arith, ground arith)
  find_index-some p (x ∷ xs) (suc i) h =
      let (y, at, passes, bound) = find_index-some p xs i (ground arith) in
      (y, at, passes, omega arith)

  pub find_index-first :
      (p : A → Bool) (xs : List A) (i j : ℕ) (x : A)
      → find_index p xs ≡ some i
      → j < i
      → get_elem? xs j ≡ some x
      → p x ≡ false
  unfolding find_index
  find_index-first p [] i j x h lt e = cc
  find_index-first p (y ∷ xs) zero j x h lt e = absurd (omega arith)
  find_index-first p (y ∷ xs) (suc i) zero x h lt e = ground arith
  find_index-first p (y ∷ xs) (suc i) (suc j) x h lt e =
      find_index-first p xs i j x (ground arith) (omega arith) e

  pub find_index-none : (p : A → Bool) (xs : List A) → find_index p xs ≡ none → any p xs ≡ false
  unfolding find_index
  find_index-none p [] h = refl
  find_index-none p (x ∷ xs) h = ground (arith, find_index-none p xs)

  pub any-find_index : (p : A → Bool) (xs : List A) → any p xs ≡ false → find_index p xs ≡ none
  unfolding find_index
  any-find_index p [] h = refl
  any-find_index p (x ∷ xs) h = ground (arith, any-find_index p xs)

-- How often `a` occurs.
abbrev pub count : ℕ → List ℕ → ℕ
count a [] = 0
count a (x ∷ xs) = (if a == x then 1 else 0) + count a xs

pub count-append :
    (fd : ℕ) (before after : List ℕ) → count fd (before ++ after) ≡ count fd before + count fd after
count-append fd [] after = omega arith
count-append fd (s ∷ before) after = let rest = count-append fd before after in omega (arith, rest)

module _ {ℓ} {A : Type ℓ} where
  -- An index that is the only one to pass is the one that is found.
  pub find_index_unique :
      (p : A → Bool) (xs : List A) (i : ℕ) (x : A)
      → get_elem? xs i ≡ some x
      → p x ≡ true
      → ((j : ℕ) (y : A) → get_elem? xs j ≡ some y → p y ≡ true → j ≡ i)
      → find_index p xs ≡ some i
  unfolding find_index
  find_index_unique p [] i x h passes only = cc
  find_index_unique p (y ∷ xs) zero x h passes only = ground arith
  find_index_unique p (y ∷ xs) (suc i) x h passes only =
      let later = find_index_unique p xs i x h passes (λ j z e q. ground (arith, only (suc j) z)) in
      ground (arith, later, only 0 y)

  pub find_index-none-at :
      (p : A → Bool) (xs : List A) (i : ℕ) (x : A)
      → find_index p xs ≡ none
      → get_elem? xs i ≡ some x
      → p x ≡ false
  unfolding find_index
  find_index-none-at p [] i x h at = cc
  find_index-none-at p (y ∷ xs) zero x h at = ground arith
  find_index-none-at p (y ∷ xs) (suc i) x h at = find_index-none-at p xs i x (ground arith) at

module _ {ℓ} {A : Type ℓ} where
  abbrev pub total : (A → ℕ) → List A → ℕ
  total f [] = 0
  total f (x ∷ xs) = f x + total f xs

  pub total_zero : (xs : List A) → total (λ _. 0) xs ≡ 0
  total_zero [] = refl
  total_zero (x ∷ xs) = omega (arith, total_zero xs)

  pub total_same :
      (f g : A → ℕ) (xs : List A)
      → ((i : ℕ) (x : A) → get_elem? xs i ≡ some x → f x ≡ g x)
      → total f xs ≡ total g xs
  total_same f g [] h = refl
  total_same f g (x ∷ xs) h = omega (arith, h 0 x refl, total_same f g xs (λ i y e. h (suc i) y e))

  -- Two weights that differ at one index only.
  pub total_differ :
      (f g : A → ℕ) (xs : List A) (i : ℕ) (x : A)
      → get_elem? xs i ≡ some x
      → ((j : ℕ) (y : A) → get_elem? xs j ≡ some y → j ≢ i → f y ≡ g y)
      → total f xs + g x ≡ total g xs + f x
  total_differ f g [] i x at h = cc
  total_differ f g (y ∷ xs) zero x at h =
      let e : y ≡ x = ground arith in
      let rest = total_same f g xs (λ j z ez. h (suc j) z ez (omega arith)) in
      rw e (omega (arith, rest))
  total_differ f g (y ∷ xs) (suc i) x at h = omega (
    arith,
    h 0 y refl (omega arith),
    total_differ f g xs i x at (λ j z ez ne. h (suc j) z ez (omega arith)),
  )

  pub total-set :
      (f : A → ℕ) (xs : List A) (i : ℕ) (x v : A)
      → get_elem? xs i ≡ some x
      → total f (set xs i v) + f x ≡ total f xs + f v
  total-set f [] i x v at = cc
  total-set f (y ∷ xs) zero x v at = let e : y ≡ x = ground arith in rw e (omega arith)
  total-set f (y ∷ xs) (suc i) x v at = omega (arith, total-set f xs i x v at)

  pub any-append : (p : A → Bool) (xs ys : List A) → any p (xs ++ ys) ≡ (any p xs || any p ys)
  any-append p [] ys = refl
  any-append p (x ∷ xs) ys = ground (arith, any-append p xs ys)

  pub total-append : (f : A → ℕ) (xs ys : List A) → total f (xs ++ ys) ≡ total f xs + total f ys
  total-append f [] ys = omega arith
  total-append f (x ∷ xs) ys = omega (arith, total-append f xs ys)

  -- The last element apart.
  pub total-take_last :
      (f : A → ℕ) (xs : List A) (n : ℕ) (d : A)
      → length xs ≡ suc n
      → total f (take n xs) + f (get_or xs n d) ≡ total f xs
  total-take_last f [] n d h = absurd (omega arith)
  total-take_last f (x ∷ []) zero d h = omega arith
  total-take_last f (x ∷ y ∷ xs) zero d h = absurd (omega arith)
  total-take_last f (x ∷ xs) (suc n) d h = omega (arith, total-take_last f xs n d (omega arith))

  pub get_or-set_last :
      (xs : List A) (i n : ℕ) (d : A)
      → n < length xs
      → get_or (set xs i (get_or xs n d)) n d ≡ get_or xs n d
  get_or-set_last [] i n d h = refl
  get_or-set_last (x ∷ xs) zero zero d h = refl
  get_or-set_last (x ∷ xs) zero (suc n) d h = refl
  get_or-set_last (x ∷ xs) (suc i) zero d h = refl
  get_or-set_last (x ∷ xs) (suc i) (suc n) d h = get_or-set_last xs i n d (omega arith)

  pub any-at :
      (p : A → Bool) (xs : List A) (i : ℕ) (x : A)
      → get_elem? xs i ≡ some x
      → p x ≡ true
      → any p xs ≡ true
  any-at p [] i x at h = cc
  any-at p (y ∷ xs) zero x at h = ground arith
  any-at p (y ∷ xs) (suc i) x at h = ground (arith, any-at p xs i x)

  pub any-found :
      (p : A → Bool) (xs : List A)
      → any p xs ≡ true
      → (i : ℕ) × (x : A) × (get_elem? xs i ≡ some x) × (p x ≡ true)
  any-found p [] h = absurd (ground arith)
  any-found p (y ∷ xs) h = elim (Bool-cases (p y)) [
    | inl t ↦ (0, y, refl, t)
    | inr f ↦ let (i, x, at, passes) = any-found p xs (rw f at h) in (suc i, x, at, passes)
  ]
