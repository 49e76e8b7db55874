-- ===== src/Router/Trie/Paths.antt =====
-- The trie as a map from paths of bits to routes.
use teme_pcom.Prelude.{
  Bool, List, Option, [], ap, arith, false, if◌then◌else◌, none, not, refl, some, suc, sym, true,
  zero, ℕ, ◌&&◌, ◌+◌, ◌||◌, ◌∙◌, ◌∷◌, ◌≡◌,
}
use teme_pcom.Router.Trie.{
  prefix_length, child, node, bits_from, null, route_of, insert_from, alloc, Trie, RouteTableEntry,
}

unfoldable pub stored : List Bool → Trie → Option RouteTableEntry
stored [] t = route_of t
stored (b ∷ p) t = stored p (child b t)

unfoldable pub has_node : List Bool → Trie → Bool
has_node [] null = false
has_node [] (node l r end entry) = true
has_node (b ∷ p) t = has_node p (child b t)

abbrev pub bit_eq : Bool → Bool → Bool
bit_eq true b = b
bit_eq false b = not b

abbrev pub path_eq : List Bool → List Bool → Bool
path_eq [] [] = true
path_eq [] (c ∷ q) = false
path_eq (b ∷ p) [] = false
path_eq (b ∷ p) (c ∷ q) = bit_eq b c && path_eq p q

abbrev pub is_prefix : List Bool → List Bool → Bool
is_prefix [] q = true
is_prefix (b ∷ p) [] = false
is_prefix (b ∷ p) (c ∷ q) = bit_eq b c && is_prefix p q

pub path_eq→eq : (p q : List Bool) → path_eq p q ≡ true → p ≡ q
path_eq→eq [] [] h = refl
path_eq→eq [] (c ∷ q) h = cc
path_eq→eq (b ∷ p) [] h = cc
path_eq→eq (b ∷ p) (c ∷ q) h = ground (arith, path_eq→eq p q)

pub path_eq_refl : (p : List Bool) → path_eq p p ≡ true
path_eq_refl [] = refl
path_eq_refl (b ∷ p) = ground (arith, path_eq_refl p)

pub is_prefix_refl : (p : List Bool) → is_prefix p p ≡ true
is_prefix_refl [] = refl
is_prefix_refl (b ∷ p) = ground (arith, is_prefix_refl p)

pub stored-null : (p : List Bool) → stored p null ≡ none
unfolding stored
stored-null [] = refl
stored-null (b ∷ p) = stored-null p

pub has_node-null : (p : List Bool) → has_node p null ≡ false
unfolding has_node
has_node-null [] = refl
has_node-null (b ∷ p) = has_node-null p

child-empty : (b : Bool) → child b (alloc null) ≡ null
child-empty true = refl
child-empty false = refl

stored-alloc : (p : List Bool) (t : Trie) → stored p (alloc t) ≡ stored p t
unfolding stored
stored-alloc [] null = refl
stored-alloc (b ∷ p) null = ap (stored p) (child-empty b)
stored-alloc p (node l r end entry) = refl

-- The path along which a route is inserted.
abbrev pub route_path : RouteTableEntry → List Bool
route_path e = bits_from (prefix_length e) 0 e.prefix

abbrev pub IsNode : Trie → Type 0
IsNode null = ⊥
IsNode (node l r end entry) = Unit {0}

IsNode-alloc : (t : Trie) → IsNode (alloc t)
IsNode-alloc null = tt
IsNode-alloc (node l r end entry) = tt

pub insert_from-IsNode :
    (n i : ℕ) (e : RouteTableEntry) (t : Trie) → IsNode t → IsNode (insert_from n i e t)
unfolding insert_from
insert_from-IsNode n i e null h = h
insert_from-IsNode zero i e (node l r end entry) h = tt
insert_from-IsNode (suc n) i e (node l r end entry) h = ground arith

-- An insertion stores its route at its path, and changes no other path.
pub stored-insert_from :
    (n i : ℕ) (e : RouteTableEntry) (t : Trie) (p : List Bool)
    → IsNode t
    → stored p (insert_from n i e t)
      ≡ (if path_eq p (bits_from n i e.prefix) then some e else stored p t)
unfolding stored insert_from
stored-insert_from n i e null p h = absurd h
stored-insert_from zero i e (node l r end entry) [] h = refl
stored-insert_from zero i e (node l r end entry) (true ∷ p) h = refl
stored-insert_from zero i e (node l r end entry) (false ∷ p) h = refl
stored-insert_from (suc n) i e (node l r end entry) [] h = ground arith
stored-insert_from (suc n) i e (node l r end entry) (true ∷ p) h =
    ground (arith, stored-insert_from n (i + 1) e (alloc r) p (IsNode-alloc r), stored-alloc p r)
stored-insert_from (suc n) i e (node l r end entry) (false ∷ p) h =
    ground (arith, stored-insert_from n (i + 1) e (alloc l) p (IsNode-alloc l), stored-alloc p l)

or-true : (b : Bool) → (b || true) ≡ true
or-true b = ground arith

-- The node that alloc makes is on the path anyway.
has_node-alloc :
    (p q : List Bool) (t : Trie)
    → (has_node p (alloc t) || is_prefix p q) ≡ (has_node p t || is_prefix p q)
unfolding has_node
has_node-alloc [] q t = or-true (has_node [] (alloc t)) ∙ sym (or-true (has_node [] t))
has_node-alloc (b ∷ p) q null = ap (λ t. has_node p t || is_prefix (b ∷ p) q) (child-empty b)
has_node-alloc (b ∷ p) q (node l r end entry) = refl

-- It makes the nodes on its path, and no others.
pub has_node-insert_from :
    (n i : ℕ) (e : RouteTableEntry) (t : Trie) (p : List Bool)
    → IsNode t
    → has_node p (insert_from n i e t) ≡ (has_node p t || is_prefix p (bits_from n i e.prefix))
unfolding has_node insert_from
has_node-insert_from n i e null p h = absurd h
has_node-insert_from zero i e (node l r end entry) [] h = refl
has_node-insert_from zero i e (node l r end entry) (true ∷ p) h = ground arith
has_node-insert_from zero i e (node l r end entry) (false ∷ p) h = ground arith
has_node-insert_from (suc n) i e (node l r end entry) [] h = ground arith
has_node-insert_from (suc n) i e (node l r end entry) (true ∷ p) h = ground (
  arith,
  has_node-insert_from n (i + 1) e (alloc r) p (IsNode-alloc r),
  has_node-alloc p (bits_from n (i + 1) e.prefix) r,
)
has_node-insert_from (suc n) i e (node l r end entry) (false ∷ p) h = ground (
  arith,
  has_node-insert_from n (i + 1) e (alloc l) p (IsNode-alloc l),
  has_node-alloc p (bits_from n (i + 1) e.prefix) l,
)
