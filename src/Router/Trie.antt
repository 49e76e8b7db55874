-- ===== src/Router/Trie.antt =====
-- Tema_1/router.c: the trie of routes. Words are in host order, as ntohl gives them.
pub mod Paths
pub mod Table
pub mod Longest
pub mod Best
use teme_pcom.Prelude.{
  Bool, List, Option, [], false, if◌then◌else◌, none, some, suc, total, true, zero, ℕ, ◌%◌, ◌+◌,
  ◌-◌, ◌/◌, ◌==◌, ◌^◌, ◌∷◌,
}

-- struct route_table_entry
pub record RouteTableEntry : Type 0 where
  pub prefix : ℕ
  pub next_hop : ℕ
  pub mask : ℕ
  pub interface : ℕ

-- A TrieNode or NULL. Of the 256 children the code reaches those at 0 and 1 only.
pub data Trie : Type 0 where
  null : Trie
  node : Trie → Trie → Bool → Option RouteTableEntry → Trie

-- (x >> (31 - i)) & 1, as a test
unfoldable pub bit_at : ℕ → ℕ → Bool
bit_at x i = x / 2 ^ (31 - i) % 2 == 1

-- The bits i, i + 1, ..., i + n - 1 from the top.
abbrev pub bits_from : ℕ → ℕ → ℕ → List Bool
bits_from zero i x = []
bits_from (suc n) i x = bit_at x i ∷ bits_from n (i + 1) x

-- __builtin_popcount
unfoldable pub popcount : ℕ → ℕ
popcount x = total (λ b. if b then 1 else 0) (bits_from 32 0 x)

abbrev pub prefix_length : RouteTableEntry → ℕ
prefix_length e = popcount e.mask

-- children[bit]
abbrev pub child : Bool → Trie → Trie
child b null = null
child true (node l r end entry) = r
child false (node l r end entry) = l

-- A child that is NULL is replaced by a zeroed node.
abbrev pub alloc : Trie → Trie
alloc null = node null null false none
alloc (node l r end entry) = node l r end entry

-- The loop of insert_route with n rounds left at bit i, and the writes behind it.
unfoldable pub insert_from : ℕ → ℕ → RouteTableEntry → Trie → Trie
insert_from n i e null = null
insert_from zero i e (node l r end entry) = node l r true (some e)
insert_from (suc n) i e (node l r end entry) = elim (bit_at e.prefix i) [
  | true ↦ node l (insert_from n (i + 1) e (alloc r)) end entry
  | false ↦ node (insert_from n (i + 1) e (alloc l)) r end entry
]

unfoldable pub insert_route : Trie → RouteTableEntry → Trie
insert_route root e = insert_from (prefix_length e) 0 e root

unfoldable pub insert_all : List RouteTableEntry → Trie → Trie
insert_all [] root = root
insert_all (e ∷ rtable) root = insert_all rtable (insert_route root e)

unfoldable pub rtable_to_trie : List RouteTableEntry → Trie
rtable_to_trie rtable = insert_all rtable (node null null false none)

-- One round: stop at a NULL child, or go down.
abbrev pub go_down : Trie → Trie → (Trie → Trie) → Trie
go_down null current next = current
go_down (node l r end entry) current next = next (node l r end entry)

-- The loop of get_best_route with n rounds left at bit i.
unfoldable pub walk : ℕ → ℕ → ℕ → Trie → Trie
walk zero i ip current = current
walk (suc n) i ip current = go_down (child (bit_at ip i) current) current (walk n (i + 1) ip)

abbrev pub route_of : Trie → Option RouteTableEntry
route_of null = none
route_of (node l r end entry) = if end then entry else none

unfoldable pub get_best_route : Trie → ℕ → Option RouteTableEntry
get_best_route rtable_root ip_dest = route_of (walk 32 0 ip_dest rtable_root)
