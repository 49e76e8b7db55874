-- ===== src/Router/Trie/Table.antt =====
-- The trie of a whole table of routes.
use teme_pcom.Prelude.{
  Bool, Bool-cases, List, Option, [], any, ap, arith, false, get_elem?, if◌then◌else◌, inl, inr,
  none, refl, some, suc, true, zero, ℕ, ◌||◌, ◌∙◌, ◌∷◌, ◌≡◌, ◌≢◌, ◌⊎◌,
}
use teme_pcom.Router.Trie.{
  prefix_length, insert_from, insert_route, null, insert_all, node, rtable_to_trie, Trie,
  RouteTableEntry,
}
use teme_pcom.Router.Trie.Paths.{
  stored-null, has_node-null, stored-insert_from, insert_from-IsNode, has_node-insert_from, IsNode,
  path_eq→eq, is_prefix, path_eq_refl, path_eq, stored, route_path, has_node,
}

-- The last route of the table with that path, and else what was there.
abbrev pub last_with :
    List Bool → List RouteTableEntry → Option RouteTableEntry → Option RouteTableEntry
last_with p [] old = old
last_with p (e ∷ rtable) old = last_with p rtable (if path_eq p (route_path e) then some e else old)

insert_all-IsNode :
    (rtable : List RouteTableEntry) (t : Trie) → IsNode t → IsNode (insert_all rtable t)
unfolding insert_all insert_route
insert_all-IsNode [] t h = h
insert_all-IsNode (e ∷ rtable) t h =
    insert_all-IsNode rtable (insert_from (prefix_length e) 0 e t)
      (insert_from-IsNode (prefix_length e) 0 e t h)

stored-insert_all :
    (rtable : List RouteTableEntry) (t : Trie) (p : List Bool)
    → IsNode t
    → stored p (insert_all rtable t) ≡ last_with p rtable (stored p t)
unfolding insert_all insert_route
stored-insert_all [] t p h = refl
stored-insert_all (e ∷ rtable) t p h =
    stored-insert_all rtable (insert_from (prefix_length e) 0 e t) p
      (insert_from-IsNode (prefix_length e) 0 e t h)
    ∙ ap (last_with p rtable) (stored-insert_from (prefix_length e) 0 e t p h)

has_node-insert_all :
    (rtable : List RouteTableEntry) (t : Trie) (p : List Bool)
    → IsNode t
    → has_node p (insert_all rtable t)
      ≡ (has_node p t || any (λ e. is_prefix p (route_path e)) rtable)
unfolding insert_all insert_route
has_node-insert_all [] t p h = ground arith
has_node-insert_all (e ∷ rtable) t p h =
    let here = has_node-insert_from (prefix_length e) 0 e t p h in
    let rest =
      has_node-insert_all rtable (insert_from (prefix_length e) 0 e t) p
        (insert_from-IsNode (prefix_length e) 0 e t h) in
    rest ∙ (rw here (ground arith))

abbrev empty_root : Trie
empty_root = node null null false none

stored-empty : (p : List Bool) → stored p empty_root ≡ none
unfolding stored
stored-empty [] = refl
stored-empty (true ∷ p) = stored-null p
stored-empty (false ∷ p) = stored-null p

has_node-empty : (b : Bool) (p : List Bool) → has_node (b ∷ p) empty_root ≡ false
unfolding has_node
has_node-empty true p = has_node-null p
has_node-empty false p = has_node-null p

-- The trie maps a path to the last route of the table that has it.
pub stored-rtable_to_trie :
    (rtable : List RouteTableEntry) (p : List Bool)
    → stored p (rtable_to_trie rtable) ≡ last_with p rtable none
unfolding rtable_to_trie
stored-rtable_to_trie rtable p =
    stored-insert_all rtable empty_root p tt ∙ ap (last_with p rtable) (stored-empty p)

-- A non-empty path is a node exactly when it begins the path of a route.
pub has_node-rtable_to_trie :
    (rtable : List RouteTableEntry) (b : Bool) (p : List Bool)
    → has_node (b ∷ p) (rtable_to_trie rtable) ≡ any (λ e. is_prefix (b ∷ p) (route_path e)) rtable
unfolding rtable_to_trie
has_node-rtable_to_trie rtable b p =
    has_node-insert_all rtable empty_root (b ∷ p) tt ∙ (rw (has_node-empty b p) refl)

pub rtable_to_trie-IsNode : (rtable : List RouteTableEntry) → IsNode (rtable_to_trie rtable)
unfolding rtable_to_trie
rtable_to_trie-IsNode rtable = insert_all-IsNode rtable empty_root tt

pub last_with-cases :
    (p : List Bool) (rtable : List RouteTableEntry) (old : Option RouteTableEntry)
    (e : RouteTableEntry)
    → last_with p rtable old ≡ some e
    → ((j : ℕ) × (get_elem? rtable j ≡ some e) × (p ≡ route_path e)) ⊎ (old ≡ some e)
last_with-cases p [] old e h = inr h
last_with-cases p (f ∷ rtable) old e h =
    elim (last_with-cases p rtable (if path_eq p (route_path f) then some f else old) e h) [
      | inl (j, at, eq) ↦ inl (suc j, at, eq)
      | inr now ↦ elim (Bool-cases (path_eq p (route_path f))) [
        | inl t ↦
            let f≡e : f ≡ e = ground arith in
            inl (0, ap some f≡e, rw (← f≡e) (path_eq→eq p (route_path f) t))
        | inr n ↦ inr (ground arith)
      ]
    ]

last_with-old :
    (p : List Bool) (rtable : List RouteTableEntry) (e : RouteTableEntry)
    → last_with p rtable (some e) ≢ none
last_with-old p [] e h = cc
last_with-old p (f ∷ rtable) e h = elim (Bool-cases (path_eq p (route_path f))) [
  | inl t ↦ last_with-old p rtable f (rw t at h)
  | inr n ↦ last_with-old p rtable e (rw n at h)
]

pub last_with-there :
    (rtable : List RouteTableEntry) (j : ℕ) (e : RouteTableEntry) (old : Option RouteTableEntry)
    → get_elem? rtable j ≡ some e
    → last_with (route_path e) rtable old ≢ none
last_with-there [] j e old at h = cc
last_with-there (f ∷ rtable) zero e old at h =
    let f≡e : f ≡ e = ground arith in
    let same : path_eq (route_path e) (route_path f) ≡ true =
      rw f≡e (path_eq_refl (route_path e)) in
    last_with-old (route_path e) rtable f (rw same at h)
last_with-there (f ∷ rtable) (suc j) e old at h =
    last_with-there rtable j e (if path_eq (route_path e) (route_path f) then some f else old) at h
