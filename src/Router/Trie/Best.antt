-- ===== src/Router/Trie/Best.antt =====
-- get_best_route and the longest matching prefix.
use teme_pcom.Prelude.{
  Bool-cases, List, Option-cases, any-at, any-found, ap, arith, false, get_elem?, inl, inr, ltb,
  ltb→lt, none, some, suc, sym, true, zero, ℕ, ◌+◌, ◌<◌, ◌∙◌, ◌≡◌, ◌≢◌, ◌≤◌,
}
use teme_pcom.Router.Trie.{
  bit_at, rtable_to_trie, bits_from, get_best_route, prefix_length, RouteTableEntry,
}
use teme_pcom.Router.Trie.Longest.{
  is_prefix-same, is_prefix-bits_from, popcount-le, has_node-IsNode, bits_from-same, walk-Stops,
  RouteFor, SameBits,
}
use teme_pcom.Router.Trie.Paths.{is_prefix_refl, route_path, is_prefix, has_node}
use teme_pcom.Router.Trie.Table.{
  stored-rtable_to_trie, last_with-there, has_node-rtable_to_trie, rtable_to_trie-IsNode, last_with,
  last_with-cases,
}

-- The first n bits of the two words give the same path.
path_of_SameBits : (n x y : ℕ) → SameBits n x y → bits_from n 0 x ≡ bits_from n 0 y
path_of_SameBits n x y h = bits_from-same n 0 x y (λ j ge lt. h j (omega arith))

-- The path of the first k bits is in the trie if a route of the table has them.
path_in_trie :
    (rtable : List RouteTableEntry) (j k ip : ℕ) (f : RouteTableEntry)
    → get_elem? rtable j ≡ some f
    → k ≤ prefix_length f
    → SameBits k ip f.prefix
    → has_node (bits_from k 0 ip) (rtable_to_trie rtable) ≡ true
path_in_trie rtable j zero ip f at le h =
    has_node-IsNode (rtable_to_trie rtable) (rtable_to_trie-IsNode rtable)
path_in_trie rtable j (suc k) ip f at le h =
    has_node-rtable_to_trie rtable (bit_at ip 0) (bits_from k 1 ip)
    ∙ any-at (λ e. is_prefix (bits_from (suc k) 0 ip) (route_path e)) rtable j f at
        (is_prefix-same (suc k) (prefix_length f) 0 ip f.prefix le (λ i ge lt. h i (omega arith)))

-- And conversely.
route_of_path :
    (rtable : List RouteTableEntry) (k ip : ℕ)
    → 0 < k
    → has_node (bits_from k 0 ip) (rtable_to_trie rtable) ≡ true
    → (j : ℕ) × (f : RouteTableEntry) × (get_elem? rtable j ≡ some f)
      × (k ≤ prefix_length f)
      × SameBits k ip f.prefix
route_of_path rtable zero ip pos h = absurd (omega arith)
route_of_path rtable (suc k) ip pos h =
    let (j, f, at, pre) =
      any-found (λ e. is_prefix (bits_from (suc k) 0 ip) (route_path e)) rtable
        (sym (has_node-rtable_to_trie rtable (bit_at ip 0) (bits_from k 1 ip)) ∙ h) in
    let (le, same) = is_prefix-bits_from (suc k) (prefix_length f) 0 ip f.prefix pre in
    (j, f, at, le, λ i lt. same i (omega arith) (omega arith))

-- Where the search for an address stops, in terms of the table.
pub record StopsAt (rtable : List RouteTableEntry) (ip k : ℕ) : Type 0 where
  pub bound : k ≤ 32
  pub result : get_best_route (rtable_to_trie rtable) ip ≡ last_with (bits_from k 0 ip) rtable none
  pub reached : has_node (bits_from k 0 ip) (rtable_to_trie rtable) ≡ true
  -- every path of the address that a route has is no longer
  pub longest :
      (j m : ℕ) (f : RouteTableEntry)
      → get_elem? rtable j ≡ some f
      → m ≤ prefix_length f
      → SameBits m ip f.prefix
      → m ≤ k

get_best_route-StopsAt : (rtable : List RouteTableEntry) (ip : ℕ) → (k : ℕ) × StopsAt rtable ip k
unfolding get_best_route
get_best_route-StopsAt rtable ip =
    let (k, le, same, there, beyond) =
      walk-Stops 32 0 ip (rtable_to_trie rtable) (rtable_to_trie-IsNode rtable) in
    (
      k,
      record {
        bound = le;
        result = same ∙ stored-rtable_to_trie rtable (bits_from k 0 ip);
        reached = there;
        longest = λ j m f at short bits. elim (Bool-cases (ltb k m)) [
          | inl t ↦ absurd (
              true_false (
                sym (path_in_trie rtable j m ip f at short bits)
                ∙ beyond m (ltb→lt k m t) (omega (arith, popcount-le f.mask))))
          | inr n ↦ ground arith
        ];
      },
    )
  where
    true_false : ¬ (true ≡ false)
    true_false e = cc

RouteFor-sym :
    (e : RouteTableEntry) (ip : ℕ) → RouteFor e ip → SameBits (prefix_length e) ip e.prefix
RouteFor-sym e ip h i lt = sym (h i lt)

-- A route of the table that is for the address, and no longer one is.
pub record IsLongest (rtable : List RouteTableEntry) (ip : ℕ) (e : RouteTableEntry) : Type 0 where
  pub position : ℕ
  pub stored : get_elem? rtable position ≡ some e
  pub matches : RouteFor e ip
  pub longest :
      (j : ℕ) (f : RouteTableEntry)
      → get_elem? rtable j ≡ some f
      → RouteFor f ip
      → prefix_length f ≤ prefix_length e

-- A route that is returned stands in the table, is for the address, and no route of the table for
-- that address has a longer prefix.
pub get_best_route-IsLongest :
    (rtable : List RouteTableEntry) (ip : ℕ) (e : RouteTableEntry)
    → get_best_route (rtable_to_trie rtable) ip ≡ some e
    → IsLongest rtable ip e
get_best_route-IsLongest rtable ip e h =
    let (k, s) = get_best_route-StopsAt rtable ip in
    elim (last_with-cases (bits_from k 0 ip) rtable none e (sym s.result ∙ h)) [
      | inr miss ↦ absurd (cc)
      | inl (j, at, path) ↦
          let pre : is_prefix (bits_from k 0 ip) (bits_from (prefix_length e) 0 e.prefix) ≡ true =
            rw path (is_prefix_refl (route_path e)) in
          let erp : is_prefix (bits_from (prefix_length e) 0 e.prefix) (bits_from k 0 ip) ≡ true =
            rw path (is_prefix_refl (route_path e)) in
          let (le, bits) = is_prefix-bits_from k (prefix_length e) 0 ip e.prefix pre in
          let (ge, same) = is_prefix-bits_from (prefix_length e) k 0 e.prefix ip erp in
          record {
            position = j;
            stored = at;
            matches = λ i lt. same i (omega arith) (omega arith);
            longest = λ j' f at' for. omega (
              arith,
              s.longest j' (prefix_length f) f at' (omega arith) (RouteFor-sym f ip for),
              le,
              ge,
            );
          }
    ]

-- No route's prefix goes on behind the prefix of another one.
abbrev pub NoNesting : List RouteTableEntry → Type 0
NoNesting rtable =
    (i j : ℕ) (e f : RouteTableEntry)
    → get_elem? rtable i ≡ some e
    → get_elem? rtable j ≡ some f
    → SameBits (prefix_length e) e.prefix f.prefix
    → prefix_length f ≤ prefix_length e

-- In a table without nested prefixes an address gets a route whenever some route is for it.
pub get_best_route_complete :
    (rtable : List RouteTableEntry) (ip j : ℕ) (e : RouteTableEntry)
    → NoNesting rtable
    → get_elem? rtable j ≡ some e
    → RouteFor e ip
    → get_best_route (rtable_to_trie rtable) ip ≢ none
get_best_route_complete rtable ip j e flat at for h =
    let (k, s) = get_best_route-StopsAt rtable ip in
    let le : prefix_length e ≤ k =
      s.longest j (prefix_length e) e at (omega arith) (RouteFor-sym e ip for) in
    let n : ℕ = prefix_length e in
    elim (Bool-cases (ltb n k)) [
      | inl t ↦
          let (j', f, at', long, bits) = route_of_path rtable k ip (ground arith) s.reached in
          let nested = flat j j' e f at at' (λ i lt. for i lt ∙ bits i (omega arith)) in
          absurd (ground arith)
      | inr f ↦
          let k≡n : k ≡ n = ground arith in
          let path : route_path e ≡ bits_from k 0 ip =
            path_of_SameBits n e.prefix ip for ∙ ap (λ m. bits_from m 0 ip) (sym k≡n) in
          last_with-there rtable j e none at (rw path (sym s.result ∙ h))
    ]

-- The search forgets the routes that it passes: if the longest route for an address has m bits, and
-- another route has more than m bits in common with the address, no route is returned.
pub get_best_route-forgets :
    (rtable : List RouteTableEntry) (ip m j : ℕ) (f : RouteTableEntry)
    → ((i : ℕ) (e : RouteTableEntry)
        → get_elem? rtable i ≡ some e
        → RouteFor e ip
        → prefix_length e ≤ m)
    → get_elem? rtable j ≡ some f
    → m < prefix_length f
    → SameBits (m + 1) ip f.prefix
    → get_best_route (rtable_to_trie rtable) ip ≡ none
get_best_route-forgets rtable ip m j f short at long bits =
    let (k, s) = get_best_route-StopsAt rtable ip in
    let beyond : m + 1 ≤ k = s.longest j (m + 1) f at (omega arith) bits in
    elim (Option-cases (get_best_route (rtable_to_trie rtable) ip)) [
      | inl e ↦ e
      | inr (e, got) ↦
          elim (last_with-cases (bits_from k 0 ip) rtable none e (sym s.result ∙ got)) [
            | inr miss ↦ absurd (cc)
            | inl (i, there, path) ↦
                let pre : is_prefix (bits_from k 0 ip) (bits_from (prefix_length e) 0 e.prefix)
                    ≡ true =
                  rw path (is_prefix_refl (route_path e)) in
                let (le, same) = is_prefix-bits_from k (prefix_length e) 0 ip e.prefix pre in
                let best = get_best_route-IsLongest rtable ip e got in
                absurd (omega (arith, short i e there best.matches, le, beyond))
          ]
    ]
