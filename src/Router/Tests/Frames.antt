-- ===== src/Router/Tests/Frames.antt =====
-- The router's loop at frames of a small network.
use teme_pcom.Prelude.{
  Bool, Bytes, [], arith, codes, false, find_index, if◌then◌else◌, leb, refl, replicate, some,
  str_eq, suc, take, zero, ℕ, ◌++◌, ◌+◌, ◌<◌, ◌∷◌, ◌≡◌,
}
use teme_pcom.Router.Trie.{
  RouteTableEntry, get_best_route, rtable_to_trie, insert_all, insert_route, insert_from, walk,
  popcount, bit_at,
}
use teme_pcom.Router.Checksum.{checksum, AreBytes, sum_words, fold_carry}
use teme_pcom.Router.Frame.{max_packet_len, slice, put}
use teme_pcom.Router.Arp.{get_arp_table_entry, SentFrame}
use teme_pcom.Router.Arp.Frames.{IsReleased}
use teme_pcom.Router.Arp.Replies.{HaveRoutes}
use teme_pcom.Router.Arp.Cache.{mac_of}
use teme_pcom.Router.Icmp.{Network, answer_length}
use teme_pcom.Router.Icmp.Apart.{IsNetwork}
use teme_pcom.Router.Icmp.Sums.{put-AreBytes}
use teme_pcom.Router.Icmp.Answers.{IsAnswer, IsEchoReply, IsIcmpError}
use teme_pcom.Router.Loop.{Router, receive, arp_length, is_for_another}
use teme_pcom.Router.Loop.Rounds.{Inv}
use teme_pcom.Router.Loop.Sized.{Sized}
use teme_pcom.Router.Loop.Forwards.{IsForwarded, IsTransit}
use teme_pcom.Router.Loop.Hops.{receive-IsForwarded, receive-waits, IsArpRequest}
use teme_pcom.Router.Loop.Refusals.{receive-IsIcmpError, no_time}
use teme_pcom.Router.Loop.Replies.{IsArpReply, receive-IsArpReply, receive-releases}
use teme_pcom.Router.Loop.Echo.{receive-IsEchoReply}

-- 10.0.0.0/8 by way of 0.0.0.1 at interface 1, and 192.0.0.0/8 by way of 0.0.0.2 at interface 2.
abbrev near_route : RouteTableEntry
near_route = record { prefix = 167772160; next_hop = 1; mask = 4278190080; interface = 1 }

abbrev far_route : RouteTableEntry
far_route = record { prefix = 3221225472; next_hop = 2; mask = 4278190080; interface = 2 }

-- Interface i has the address 192.0.0.(i + 1).
abbrev network : Network
network = record {
  rtable_root = rtable_to_trie (near_route ∷ far_route ∷ []);
  interface_ip = λ i. if leb i 2 then 3221225473 + i else 0;
  interface_mac = λ i. codes "CCCCCC";
}

network-IsNetwork : IsNetwork network
network-IsNetwork = record { macs = λ i. refl; ips = λ i. ground arith }

abbrev passing_frame : Bytes
passing_frame =
    67 ∷ 67 ∷ 67 ∷ 67 ∷ 67 ∷ 67 ∷ 65 ∷ 65 ∷ 65 ∷ 65 ∷ 65 ∷ 65 ∷ 8 ∷ 0 ∷ 69 ∷ 0 ∷ 0 ∷ 28 ∷ 0 ∷ 1 ∷ 0
    ∷ 0 ∷ 64 ∷ 17 ∷ 176 ∷ 194 ∷ 192 ∷ 0 ∷ 0 ∷ 9 ∷ 10 ∷ 0 ∷ 0 ∷ 5 ∷ 8 ∷ 0 ∷ 0 ∷ 0 ∷ 0 ∷ 7 ∷ 0 ∷ 1
    ∷ []

abbrev expired_frame : Bytes
expired_frame =
    67 ∷ 67 ∷ 67 ∷ 67 ∷ 67 ∷ 67 ∷ 65 ∷ 65 ∷ 65 ∷ 65 ∷ 65 ∷ 65 ∷ 8 ∷ 0 ∷ 69 ∷ 0 ∷ 0 ∷ 28 ∷ 0 ∷ 1 ∷ 0
    ∷ 0 ∷ 1 ∷ 17 ∷ 239 ∷ 194 ∷ 192 ∷ 0 ∷ 0 ∷ 9 ∷ 10 ∷ 0 ∷ 0 ∷ 5 ∷ 8 ∷ 0 ∷ 0 ∷ 0 ∷ 0 ∷ 7 ∷ 0 ∷ 1 ∷ []

abbrev ping_frame : Bytes
ping_frame =
    67 ∷ 67 ∷ 67 ∷ 67 ∷ 67 ∷ 67 ∷ 65 ∷ 65 ∷ 65 ∷ 65 ∷ 65 ∷ 65 ∷ 8 ∷ 0 ∷ 69 ∷ 0 ∷ 0 ∷ 28 ∷ 0 ∷ 1 ∷ 0
    ∷ 0 ∷ 64 ∷ 1 ∷ 250 ∷ 213 ∷ 192 ∷ 0 ∷ 0 ∷ 9 ∷ 192 ∷ 0 ∷ 0 ∷ 1 ∷ 8 ∷ 0 ∷ 0 ∷ 0 ∷ 0 ∷ 7 ∷ 0 ∷ 1
    ∷ []

abbrev asks_frame : Bytes
asks_frame =
    67 ∷ 67 ∷ 67 ∷ 67 ∷ 67 ∷ 67 ∷ 66 ∷ 66 ∷ 66 ∷ 66 ∷ 66 ∷ 66 ∷ 8 ∷ 6 ∷ 0 ∷ 1 ∷ 8 ∷ 0 ∷ 6 ∷ 4 ∷ 0
    ∷ 1 ∷ 66 ∷ 66 ∷ 66 ∷ 66 ∷ 66 ∷ 66 ∷ 192 ∷ 0 ∷ 0 ∷ 9 ∷ 67 ∷ 67 ∷ 67 ∷ 67 ∷ 67 ∷ 67 ∷ 192 ∷ 0 ∷ 0
    ∷ 1 ∷ []

abbrev replies_frame : Bytes
replies_frame =
    67 ∷ 67 ∷ 67 ∷ 67 ∷ 67 ∷ 67 ∷ 66 ∷ 66 ∷ 66 ∷ 66 ∷ 66 ∷ 66 ∷ 8 ∷ 6 ∷ 0 ∷ 1 ∷ 8 ∷ 0 ∷ 6 ∷ 4 ∷ 0
    ∷ 2 ∷ 66 ∷ 66 ∷ 66 ∷ 66 ∷ 66 ∷ 66 ∷ 0 ∷ 0 ∷ 0 ∷ 1 ∷ 67 ∷ 67 ∷ 67 ∷ 67 ∷ 67 ∷ 67 ∷ 192 ∷ 0 ∷ 0
    ∷ 1 ∷ []

-- A buffer that was never written to, and a router whose ARP table has 0.0.0.1, or nothing.
abbrev empty_buf : Bytes
empty_buf = replicate max_packet_len 0

abbrev fresh : Router
fresh = record { buf = empty_buf; arp_table = []; queue = []; queue_len = 0; sent = [] }

abbrev knowing : Router
knowing = record fresh { arp_table = (record { ip = 1; mac = codes "DDDDDD" }) ∷ [] }

empty_buf-AreBytes : AreBytes empty_buf
empty_buf-AreBytes = go 1400
  where
    go : (n : ℕ) → AreBytes (replicate n 0)
    go zero = tt
    go (suc n) = (omega arith, go n)

near_way : get_best_route network.rtable_root 167772165 ≡ some near_route
unfolding get_best_route rtable_to_trie insert_all insert_route insert_from walk popcount bit_at
near_way = refl

below_three :
    (p : ℕ → Bool) → p 0 ≡ false → p 1 ≡ false → p 2 ≡ false → (i : ℕ) → i < 3 → p i ≡ false
below_three p a b c zero h = a
below_three p a b c (suc zero) h = b
below_three p a b c (suc (suc zero)) h = c
below_three p a b c (suc (suc (suc i))) h = absurd (omega (arith, h))

passing-IsTransit : IsTransit network 0 (put 0 passing_frame empty_buf)
unfolding is_for_another slice put checksum sum_words fold_carry str_eq
passing-IsTransit = record {
  for_us = refl;
  not_arp = refl;
  not_own = below_three _ refl refl refl;
  checked = refl;
}

expired-IsTransit : IsTransit network 0 (put 0 expired_frame empty_buf)
unfolding is_for_another slice put checksum sum_words fold_carry str_eq
expired-IsTransit = record {
  for_us = refl;
  not_arp = refl;
  not_own = below_three _ refl refl refl;
  checked = refl;
}

in_buf-AreBytes : (frame : Bytes) → AreBytes frame → AreBytes (put 0 frame empty_buf)
in_buf-AreBytes frame h = put-AreBytes 0 frame empty_buf h empty_buf-AreBytes

receive-IsForwarded_example :
    (r' : Router) × (receive network (0, passing_frame) knowing ≡ some r')
    × (r'.sent ≡ [] ++ (record { len = 42; frame_data = r'.buf; interface = 1 }) ∷ [])
    × IsForwarded (codes "DDDDDD") (codes "CCCCCC") (put 0 passing_frame empty_buf) r'.buf
    × (r'.queue ≡ [])
unfolding slice put get_best_route rtable_to_trie insert_all insert_route insert_from walk popcount
    bit_at get_arp_table_entry find_index
receive-IsForwarded_example =
    receive-IsForwarded network network-IsNetwork 0 passing_frame knowing near_route
      (codes "DDDDDD") refl (in_buf-AreBytes passing_frame (omega arith)) passing-IsTransit refl
      refl (omega arith) refl refl

receive-waits_example :
    (r' : Router) × (packet : Bytes) × (request : Bytes) × (receive network (0, passing_frame) fresh
      ≡ some r')
    × (r'.queue ≡ take 42 packet ∷ [])
    × IsForwarded (codes "CCCCCC") (codes "AAAAAA") (put 0 passing_frame empty_buf) packet
    × (r'.sent ≡ (record { len = 42; frame_data = request; interface = 1 }) ∷ [])
    × IsArpRequest network near_route request
unfolding slice put get_best_route rtable_to_trie insert_all insert_route insert_from walk popcount
    bit_at get_arp_table_entry find_index
receive-waits_example =
    receive-waits network network-IsNetwork 0 passing_frame fresh near_route refl
      (in_buf-AreBytes passing_frame (omega arith)) passing-IsTransit refl refl (omega arith) refl

receive-IsIcmpError_example :
    (r' : Router) × (receive network (0, expired_frame) fresh ≡ some r')
    × (r'.sent ≡ (record { len = answer_length; frame_data = r'.buf; interface = 0 }) ∷ [])
    × IsAnswer network 0 (put 0 expired_frame empty_buf) r'.buf
    × IsIcmpError 11 (put 0 expired_frame empty_buf) r'.buf
    × (r'.arp_table ≡ [])
    × (r'.queue ≡ [])
unfolding slice put get_best_route rtable_to_trie insert_all insert_route insert_from walk popcount
    bit_at
receive-IsIcmpError_example =
    receive-IsIcmpError network network-IsNetwork 0 expired_frame fresh expired-IsTransit 11
      (no_time near_route refl refl) refl (in_buf-AreBytes expired_frame (omega arith))

receive-IsEchoReply_example :
    (r' : Router) × (receive network (0, ping_frame) fresh ≡ some r')
    × (r'.sent ≡ (record { len = 42; frame_data = r'.buf; interface = 0 }) ∷ [])
    × IsAnswer network 0 (put 0 ping_frame empty_buf) r'.buf
    × IsEchoReply (put 0 ping_frame empty_buf) r'.buf
unfolding slice put is_for_another str_eq
receive-IsEchoReply_example =
    receive-IsEchoReply network network-IsNetwork 0 ping_frame fresh 0 refl
      (in_buf-AreBytes ping_frame (omega arith)) refl refl (omega arith) refl
      (λ j h. absurd (omega (arith, h))) refl (below_three _ refl refl refl)

receive-IsArpReply_example :
    (r' : Router) × (receive network (0, asks_frame) fresh ≡ some r')
    × (r'.sent ≡ (record { len = arp_length; frame_data = r'.buf; interface = 0 }) ∷ [])
    × IsArpReply network 0 (put 0 asks_frame empty_buf) r'.buf
    × (r'.queue ≡ [])
unfolding slice put is_for_another str_eq
receive-IsArpReply_example =
    receive-IsArpReply network network-IsNetwork 0 asks_frame fresh refl refl refl refl

-- A router with two packets that wait, for 0.0.0.2 and for 0.0.0.1.
abbrev far_packet : Bytes
far_packet = replicate 30 0 ++ (192 ∷ 0 ∷ 0 ∷ 5 ∷ 0 ∷ 0 ∷ 0 ∷ 0 ∷ 0 ∷ 0 ∷ 0 ∷ 0 ∷ [])

abbrev waiting : Router
waiting = record fresh { queue = far_packet ∷ passing_frame ∷ []; queue_len = 2 }

waiting-HaveRoutes : HaveRoutes network.rtable_root 42 (far_packet ∷ passing_frame ∷ [])
unfolding slice get_best_route rtable_to_trie insert_all insert_route insert_from walk popcount
    bit_at
waiting-HaveRoutes = ((refl, λ e. cc), ((refl, λ e. cc), tt))

waiting-Inv : Inv network 42 waiting
waiting-Inv = record { size = refl; counted = refl; routed = waiting-HaveRoutes }

receive-releases_example :
    (r' : Router) × (f : SentFrame) × (receive network (0, replies_frame) waiting ≡ some r')
    × (r'.sent ≡ f ∷ [])
    × IsReleased (codes "CCCCCC") (codes "BBBBBB") 42 1 passing_frame f
    × (r'.queue ≡ far_packet ∷ [])
    × (mac_of 1 r'.arp_table ≡ some (codes "BBBBBB"))
unfolding slice put is_for_another str_eq get_best_route rtable_to_trie insert_all insert_route
    insert_from walk popcount bit_at
receive-releases_example =
    receive-releases network 0 replies_frame waiting 42 (far_packet ∷ []) [] passing_frame
      near_route network-IsNetwork (omega arith) (omega arith) waiting-Inv (omega arith) refl refl
      refl refl refl refl
