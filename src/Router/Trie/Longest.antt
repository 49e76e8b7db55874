-- ===== src/Router/Trie/Longest.antt =====
-- Which route get_best_route returns.
use teme_pcom.Prelude.{
  sym, Bool, List, ◌∙◌, Bool-cases, [], ap, ap₂, arith, false, if◌then◌else◌, inl, inr, length,
  refl, suc, total, true, zero, ℕ, ◌+◌, ◌<◌, ◌==◌, ◌∷◌, ◌≡◌, ◌≤◌,
}
use teme_pcom.Router.Trie.{
  go_down, null, node, child, bit_at, bits_from, popcount, prefix_length, walk, route_of, Trie,
  RouteTableEntry,
}
use teme_pcom.Router.Trie.Paths.{has_node-null, IsNode, stored, is_prefix, has_node}

-- The first n bits of two words are the same.
abbrev pub SameBits : ℕ → ℕ → ℕ → Type 0
SameBits n x y = (i : ℕ) → i < n → bit_at x i ≡ bit_at y i

-- The route is for the address.
abbrev pub RouteFor : RouteTableEntry → ℕ → Type 0
RouteFor e ip = SameBits (prefix_length e) e.prefix ip

pub popcount-le : (x : ℕ) → popcount x ≤ 32
unfolding popcount
popcount-le x = go 32 0
  where
    go : (n i : ℕ) → total (λ b. if b then 1 else 0) (bits_from n i x) ≤ n
    go zero i = omega arith
    go (suc n) i = ground (arith, go n (i + 1))

pub bits_from-same :
    (n i x y : ℕ)
    → ((j : ℕ) → i ≤ j → j < i + n → bit_at x j ≡ bit_at y j)
    → bits_from n i x ≡ bits_from n i y
bits_from-same zero i x y h = refl
bits_from-same (suc n) i x y h =
    ap₂ ◌∷◌ (h i (omega arith) (omega arith))
      (bits_from-same n (i + 1) x y (λ j le lt. h j (omega arith) (omega arith)))

-- A path that begins another one is no longer, and has the same bits.
pub is_prefix-bits_from :
    (k m i x y : ℕ)
    → is_prefix (bits_from k i x) (bits_from m i y) ≡ true
    → (k ≤ m) × ((j : ℕ) → i ≤ j → j < i + k → bit_at x j ≡ bit_at y j)
is_prefix-bits_from zero m i x y h = (omega arith, λ j le lt. absurd (omega arith))
is_prefix-bits_from (suc k) zero i x y h = absurd (ground arith)
is_prefix-bits_from (suc k) (suc m) i x y h =
    let (le, rest) = is_prefix-bits_from k m (i + 1) x y (ground arith) in
    let first : bit_at x i ≡ bit_at y i = ground arith in
    (
      omega arith,
      λ j ge lt. elim (Bool-cases (j == i)) [
        | inl e ↦ let j≡i : j ≡ i = ground arith in rw j≡i first
        | inr ne ↦ rest j (ground arith) (omega arith)
      ],
    )

pub is_prefix-same :
    (k m i x y : ℕ)
    → k ≤ m
    → ((j : ℕ) → i ≤ j → j < i + k → bit_at x j ≡ bit_at y j)
    → is_prefix (bits_from k i x) (bits_from m i y) ≡ true
is_prefix-same zero m i x y le h = refl
is_prefix-same (suc k) zero i x y le h = absurd (omega arith)
is_prefix-same (suc k) (suc m) i x y le h =
    let first = h i (omega arith) (omega arith) in
    let rest =
      is_prefix-same k m (i + 1) x y (omega arith) (λ j ge lt. h j (omega arith) (omega arith)) in
    ground arith

length-bits_from : (n i x : ℕ) → length (bits_from n i x) ≡ n
length-bits_from zero i x = refl
length-bits_from (suc n) i x = ap suc (length-bits_from n (i + 1) x)

-- Where the walk stops: at the longest path of the address that is in the trie.
abbrev pub Stops : ℕ → ℕ → ℕ → Trie → Type 0
Stops n i ip t =
    (k : ℕ) × (k ≤ n)
    × (route_of (walk n i ip t) ≡ stored (bits_from k i ip) t)
    × (has_node (bits_from k i ip) t ≡ true)
    × ((j : ℕ) → k < j → j ≤ n → has_node (bits_from j i ip) t ≡ false)

pub has_node-IsNode : (t : Trie) → IsNode t → has_node [] t ≡ true
unfolding has_node
has_node-IsNode null h = absurd h
has_node-IsNode (node l r end entry) h = refl

pub walk-Stops : (n i ip : ℕ) (t : Trie) → IsNode t → Stops n i ip t
unfolding walk stored has_node
walk-Stops zero i ip t h =
    (0, omega arith, refl, has_node-IsNode t h, λ j lt le. absurd (omega arith))
walk-Stops (suc n) i ip t h = go (λ c q. walk-Stops n (i + 1) ip c q) (child (bit_at ip i) t) refl
  where
    beyond :
        (c : Trie)
        → child (bit_at ip i) t ≡ c
        → (k : ℕ) → ((j : ℕ) → k < j → j ≤ n → has_node (bits_from j (i + 1) ip) c ≡ false)
        → (j : ℕ) → suc k < j
        → j ≤ suc n
        → has_node (bits_from j i ip) t ≡ false
    beyond c e k f zero lt le = absurd (omega arith)
    beyond c e k f (suc j) lt le =
        ap (has_node (bits_from j (i + 1) ip)) e ∙ f j (omega arith) (omega arith)

    all_null :
        child (bit_at ip i) t ≡ null
        → (j : ℕ) → 0 < j
        → j ≤ suc n
        → has_node (bits_from j i ip) t ≡ false
    all_null e zero lt le = absurd (omega arith)
    all_null e (suc j) lt le =
        ap (has_node (bits_from j (i + 1) ip)) e ∙ has_node-null (bits_from j (i + 1) ip)

    -- The search goes on as it does at the child.
    onward :
        (c : Trie)
        → child (bit_at ip i) t ≡ c
        → walk (suc n) i ip t ≡ go_down c t (walk n (i + 1) ip)
    onward c e = ap (λ d. go_down d t (walk n (i + 1) ip)) e

    go :
        ((c : Trie) → IsNode c → Stops n (i + 1) ip c)
        → (c : Trie) → child (bit_at ip i) t ≡ c
        → Stops (suc n) i ip t
    go next null e = (0, omega arith, ap route_of (onward null e), has_node-IsNode t h, all_null e)
    go next (node l r end entry) e =
        let c : Trie = node l r end entry in
        let (k, le, same, there, f) = next c tt in
        let path : List Bool = bits_from k (i + 1) ip in
        (
          suc k,
          omega arith,
          ap route_of (onward c e) ∙ same ∙ sym (ap (stored path) e),
          ap (has_node path) e ∙ there,
          beyond c e k f,
        )
