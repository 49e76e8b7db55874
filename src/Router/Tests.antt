-- ===== src/Router/Tests.antt =====
-- The router's data structures at concrete inputs.
mod Frames
use teme_pcom.Prelude.{
  map, replicate, Bytes, List, [], arith, codes, find_index, get_elem?, if◌then◌else◌, inr, none,
  refl, some, subst, suc, sym, zero, ℕ, ◌++◌, ◌==◌, ◌∷◌, ◌≡◌, ◌≢◌, ◌≤◌,
}
use teme_pcom.Router.Trie.Best.{
  get_best_route-forgets, get_best_route_complete, NoNesting, get_best_route-IsLongest, IsLongest,
}
use teme_pcom.Router.Trie.{
  Trie, prefix_length, bit_at, popcount, walk, insert_from, insert_route, insert_all,
  rtable_to_trie, get_best_route, RouteTableEntry,
}
use teme_pcom.Router.Checksum.{checksum-verifies, word_bytes, checksum}
use teme_pcom.Router.Queue.Refines.{create_queue-Holds, queue_enq-Holds, queue_deq-Holds, Holds}
use teme_pcom.Router.Trie.Longest.{is_prefix-bits_from, SameBits, RouteFor}
use teme_pcom.Router.Queue.{create_queue, queue_enq, queue_deq, Queue, Cells}
use teme_pcom.Router.Trie.Paths.{is_prefix}
use teme_pcom.Router.Arp.Cache.{mac_of-learn, mac_of}
use teme_pcom.Router.Arp.{get_arp_table_entry, learn, ArpTableEntry}
use teme_pcom.Router.RouteFile.{read_rtable}
use teme_pcom.Router.RouteFile.RoundTrip.{print_rows, row_of, read_rtable-print_rows}
use teme_pcom.Http.Numbers.{pos}
use teme_pcom.Router.HwAddr.{hwaddr_aton}
use teme_pcom.Router.HwAddr.RoundTrip.{hwaddr_aton-mac_text}

-- 10.0.0.0/8 by way of interface 1, and 10.1.0.0/16 by way of interface 2.
abbrev wide_route : RouteTableEntry
wide_route = record { prefix = 167772160; next_hop = 1; mask = 4278190080; interface = 1 }

abbrev narrow_route : RouteTableEntry
narrow_route = record { prefix = 167837696; next_hop = 2; mask = 4294901760; interface = 2 }

abbrev one_route : List RouteTableEntry
one_route = wide_route ∷ []

abbrev two_routes : List RouteTableEntry
two_routes = wide_route ∷ narrow_route ∷ []

-- 10.1.0.5
abbrev address : ℕ
address = 167837701

-- 10.0.0.5
abbrev other_address : ℕ
other_address = 167772165

found_narrow : get_best_route (rtable_to_trie two_routes) address ≡ some narrow_route
unfolding get_best_route rtable_to_trie insert_all insert_route insert_from walk popcount bit_at
found_narrow = refl

get_best_route-IsLongest_example : IsLongest two_routes address narrow_route
get_best_route-IsLongest_example =
    get_best_route-IsLongest two_routes address narrow_route found_narrow

-- An address of the /8 that is not in the /16, and one that is.
same_first_byte : SameBits 8 167772160 other_address
unfolding bit_at is_prefix
same_first_byte i lt =
    (is_prefix-bits_from 8 8 0 167772160 other_address refl).1 i (omega arith) (omega arith)

wide_route-RouteFor : RouteFor wide_route other_address
unfolding popcount bit_at
wide_route-RouteFor i lt = same_first_byte i lt

one_route-NoNesting : NoNesting one_route
one_route-NoNesting i j e f at at' h =
    let e≡w : e ≡ wide_route = only i e at in
    let f≡w : f ≡ wide_route = only j f at' in rw (e≡w, f≡w) (omega arith)
  where
    only : (i : ℕ) (e : RouteTableEntry) → get_elem? one_route i ≡ some e → e ≡ wide_route
    only zero e at = ground arith
    only (suc i) e at = absurd (cc)

get_best_route_complete_example : get_best_route (rtable_to_trie one_route) other_address ≢ none
get_best_route_complete_example =
    get_best_route_complete one_route other_address 0 wide_route one_route-NoNesting refl
      wide_route-RouteFor

-- The /8 is the longest route for the address, which has nine bits in common with the /16.
others_short :
    (i : ℕ) (e : RouteTableEntry)
    → get_elem? two_routes i ≡ some e
    → RouteFor e other_address
    → prefix_length e ≤ 8
unfolding popcount bit_at
others_short zero e at for = let e≡w : wide_route ≡ e = ground arith in rw (← e≡w) (omega arith)
others_short (suc zero) e at for =
    let e≡n : narrow_route ≡ e = ground arith in
    let bit = subst (λ r. RouteFor r other_address) (sym e≡n) for 15 (omega arith) in absurd (cc)
others_short (suc (suc i)) e at for = absurd (cc)

nine_bits : SameBits 9 other_address 167837696
unfolding bit_at is_prefix
nine_bits i lt =
    (is_prefix-bits_from 9 9 0 other_address 167837696 refl).1 i (omega arith) (omega arith)

get_best_route-forgets_example : get_best_route (rtable_to_trie two_routes) other_address ≡ none
unfolding popcount bit_at
get_best_route-forgets_example =
    get_best_route-forgets two_routes other_address 8 1 narrow_route others_short refl (omega arith)
      nine_bits

-- An IPv4 header of twenty bytes around its checksum word.
checksum-verifies_example :
    checksum 0 (
      (69 ∷ 0 ∷ 0 ∷ 84 ∷ [])
      ++ (word_bytes (checksum 0 ((69 ∷ 0 ∷ 0 ∷ 84 ∷ []) ++ 0 ∷ 0 ∷ 192 ∷ 168 ∷ 255 ∷ 2 ∷ []))
          ++ 192 ∷ 168 ∷ 255 ∷ 2 ∷ []))
    ≡ 0
checksum-verifies_example =
    checksum-verifies 0 (69 ∷ 0 ∷ 0 ∷ 84 ∷ []) (192 ∷ 168 ∷ 255 ∷ 2 ∷ []) refl refl (omega arith)
      (omega arith) (omega arith)

abbrev no_cells : Cells
no_cells a = none

queue_enq-Holds_example :
    (q' : Queue) × (cells' : Cells) × (queue_enq 100 create_queue 7 no_cells ≡ some (q', cells'))
    × Holds q' cells' ((100, 7) ∷ [])
queue_enq-Holds_example =
    queue_enq-Holds 100 7 create_queue no_cells [] (create_queue-Holds no_cells) refl

-- The queue of one element.
abbrev one_cell : Cells
one_cell a = if a == 100 then some (record { element = 7; next = none }) else none

abbrev one_queue : Queue
one_queue = record { head = some 100; tail = some 100 }

one_queue-Holds : Holds one_queue one_cell ((100, 7) ∷ [])
one_queue-Holds = record { chain = (refl, tt, tt); at_head = refl; at_tail = inr refl }

queue_deq-Holds_example :
    (q' : Queue) × (cells' : Cells) × (queue_deq one_queue one_cell ≡ some (7, q', cells'))
    × Holds q' cells' []
    × (cells' 100 ≡ none)
queue_deq-Holds_example = queue_deq-Holds one_queue one_cell 100 7 [] one_queue-Holds

-- The ARP table.
abbrev one_entry : List ArpTableEntry
one_entry = (record { ip = 5; mac = codes "AAAAAA" }) ∷ []

abbrev two_entries : List ArpTableEntry
two_entries = one_entry ++ (record { ip = 6; mac = codes "BBBBBB" }) ∷ []

learns_second : learn 6 (codes "BBBBBB") one_entry ≡ some two_entries
unfolding learn get_arp_table_entry find_index
learns_second = refl

mac_of-learn_example : mac_of 6 two_entries ≡ some (codes "BBBBBB")
mac_of-learn_example = mac_of-learn 6 6 (codes "BBBBBB") one_entry two_entries learns_second

-- 02:00:0a:ff:00:10
hwaddr_aton-mac_text_example :
    hwaddr_aton (codes "02:00:0a:ff:00:10") ≡ some (2 ∷ 0 ∷ 10 ∷ 255 ∷ 0 ∷ 16 ∷ [])
hwaddr_aton-mac_text_example =
    hwaddr_aton-mac_text (2 ∷ 0 ∷ 10 ∷ 255 ∷ 0 ∷ 16 ∷ []) [] refl (omega arith)

-- The line "10.0.0.0 192.0.0.2 255.0.0.0 1" and one more.
abbrev two_rows : List (Bytes × ℕ)
two_rows =
    (10 ∷ 0 ∷ 0 ∷ 0 ∷ 192 ∷ 0 ∷ 0 ∷ 2 ∷ 255 ∷ 0 ∷ 0 ∷ 0 ∷ [], 1)
    ∷ (192 ∷ 1 ∷ 0 ∷ 0 ∷ 192 ∷ 0 ∷ 1 ∷ 2 ∷ 255 ∷ 255 ∷ 0 ∷ 0 ∷ [], 2)
    ∷ []

read_rtable-print_rows_example :
    read_rtable
      (print_rows two_rows)
      (λ j. record { addresses = replicate 12 7; interface = pos 0 })
    ≡ map row_of two_rows
read_rtable-print_rows_example =
    read_rtable-print_rows (λ j. record { addresses = replicate 12 7; interface = pos 0 })
      (λ j. refl) two_rows
      ((refl, omega arith, omega arith), ((refl, omega arith, omega arith), tt))
