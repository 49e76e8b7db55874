-- ===== src/Router/Loop.antt =====
-- Tema_1/router.c: the loop of main, a frame at a time. `none` is an access through NULL or past an
-- array. The queue is the list of its elements, first to last.
pub mod Rounds
pub mod Sized
pub mod Safe
pub mod Forwards
pub mod Hops
pub mod Refusals
pub mod Replies
pub mod Echo
use teme_pcom.Prelude.{
  ==_iff, All, All-append, Bool, Bool-cases, Bytes, List, Option, Option-cases, [], any, any-append,
  any-at, any-find_index, any-found, ap, append-nil, append_assoc, ap₂, arith, c_string, codes,
  count, count-append, drop, drop-append, false, find_index, find_index-first, find_index-none,
  find_index-none-at, find_index-some, find_index_unique, get_elem?, get_elem?-lt,
  get_elem?-set-cases, get_elem?-set_ne, get_elem?-set_self, get_elem?-snoc, get_elem?-snoc-cases,
  get_elem?-snoc_lt, get_or, get_or-set_last, if◌then◌else◌, inl, inr, leb, leb→le, length,
  length-append, length-set, length-take, ltb, ltb→lt, lt→ltb, map, min, none, not, refl, replicate,
  set, set-set, set-snoc, some, str_eq, str_eq_iff, str_eq_refl, str_eq→eq, subst, suc, sym, take,
  take-append, take_all, tests, total, total-append, total-set, total-take_last, total_differ,
  total_same, total_zero, true, zero, ℕ, ◌%◌, ◌&&◌, ◌*◌, ◌++◌, ◌+◌, ◌-◌, ◌/◌, ◌<◌, ◌==◌, ◌^◌, ◌||◌,
  ◌↔◌, ◌∙◌, ◌∷◌, ◌≡◌, ◌≢◌, ◌≤◌, ◌⊎◌,
}
use teme_pcom.Router.Trie.{RouteTableEntry, get_best_route}
use teme_pcom.Router.Checksum.{checksum}
use teme_pcom.Router.Frame.{
  slice, put, byte_at, word_at, address_at, address_bytes, ethr_dhost, ethr_shost, ethr_type,
  opcode, shwa, sprotoa, thwa, tprotoa, ip_hdr, ttl, proto, ip_checksum, source_addr, dest_addr,
  icmp_hdr,
}
use teme_pcom.Router.Arp.{ArpTableEntry, SentFrame, Released, learn, release}
use teme_pcom.Router.Arp.Cache.{mac_of}
use teme_pcom.Router.Icmp.{
  Network, renew_checksum, icmp_send_echo_reply, icmp_send_dest_unreachable_or_timeout,
  answer_length,
}

-- The buffer `buf` and the rest of main's state, and what was sent.
pub record Router : Type 0 where
  pub buf : Bytes
  pub arp_table : List ArpTableEntry
  pub queue : List Bytes
  pub queue_len : ℕ
  pub sent : List SentFrame

-- send_to_link (length, buf, interface)
abbrev pub send_to_link : ℕ → ℕ → Router → Router
send_to_link len interface r = record r {
  sent = r.sent ++ (record { len = len; frame_data = r.buf; interface = interface }) ∷ [];
}

-- The two loops over the destination: it is not the interface's, and not of bytes 255 and 0 only.
unfoldable pub is_for_another : Bytes → Bytes → Bool
is_for_another mac frame =
    let dhost = slice ethr_dhost 6 frame in
    not (str_eq dhost mac) && any (λ c. not (c == 255) && not (c == 0)) dhost

-- The answer to an ARP request, in its place.
unfoldable pub arp_reply : Network → ℕ → Bytes → Bytes
arp_reply net interface frame =
    let frame = put ethr_dhost (slice ethr_shost 6 frame) frame in
    let frame = put ethr_shost (net.interface_mac interface) frame in
    let frame = put opcode (0 ∷ 2 ∷ []) frame in
    let frame = put thwa (slice shwa 6 frame) frame in
    let frame = put tprotoa (slice sprotoa 4 frame) frame in
    let frame = put sprotoa (address_bytes (net.interface_ip interface)) frame in
    let frame = put thwa (slice shwa 6 frame) frame in put shwa (net.interface_mac interface) frame

-- An ARP request for the next hop of a route.
unfoldable pub arp_request : Network → RouteTableEntry → Bytes
arp_request net best =
    replicate 6 255
    ++ net.interface_mac best.interface
    ++ (8 ∷ 6 ∷ 0 ∷ 1 ∷ 8 ∷ 0 ∷ 6 ∷ 4 ∷ 0 ∷ 1 ∷ [])
    ++ net.interface_mac best.interface
    ++ address_bytes (net.interface_ip best.interface)
    ++ replicate 6 255
    ++ address_bytes best.next_hop

abbrev pub arp_length : ℕ
arp_length = 42

-- What the frame of an ARP reply teaches, and the packets that it releases.
unfoldable pub on_arp_reply : Network → ℕ → Router → Option Router
on_arp_reply net len r =
    let ip = address_at sprotoa r.buf in
    let mac = slice shwa 6 r.buf in
    elim (learn ip mac r.arp_table) [
      | none ↦ none
      | some arp_table ↦
          elim (release net.interface_mac len net.rtable_root ip mac r.queue_len
            (record { queued = r.queue; sent = r.sent; queue_len = r.queue_len })) [
              | none ↦ none
              | some released ↦ some (record r {
                arp_table = arp_table;
                queue = released.queued;
                sent = released.sent;
                queue_len = released.queue_len;
              })
            ]
    ]

unfoldable pub on_arp : Network → ℕ → ℕ → Router → Option Router
on_arp net interface len r =
    if word_at opcode r.buf == 1
    then some (send_to_link arp_length interface (record r { buf = arp_reply net interface r.buf }))
    else if word_at opcode r.buf == 2
    then on_arp_reply net len r
    else some r

-- The loop over the interfaces' addresses with n rounds left at interface i, and sent_echo_reply.
unfoldable pub answer_own : Network → ℕ → ℕ → ℕ → ℕ → Router → Bool → Router × Bool
answer_own net interface len zero i r sent_echo_reply = (r, sent_echo_reply)
answer_own net interface len (suc n) i r sent_echo_reply =
    if not (net.interface_ip i == address_at dest_addr r.buf)
    then answer_own net interface len n (i + 1) r sent_echo_reply
    else if byte_at proto r.buf == 1 && byte_at icmp_hdr r.buf == 8
    then answer_own net interface len n (i + 1)
        (send_to_link len interface (record r { buf = icmp_send_echo_reply net interface r.buf }))
        true
    else answer_own net interface len n (i + 1) r true

unfoldable pub icmp_error : Network → ℕ → ℕ → Router → Router
icmp_error net type interface r =
    send_to_link answer_length interface
      (record r { buf = icmp_send_dest_unreachable_or_timeout net type interface r.buf })

-- A packet that waits for the MAC address of its next hop.
unfoldable pub wait_for_mac : Network → ℕ → RouteTableEntry → Router → Router
wait_for_mac net len best r = record r {
  buf = put ethr_dhost (replicate 6 255) r.buf;
  queue = r.queue ++ take len r.buf ∷ [];
  queue_len = r.queue_len + 1;
  sent =
      r.sent
      ++ (record {
        len = arp_length;
        frame_data = arp_request net best;
        interface = best.interface;
      })
        ∷ [];
}

unfoldable pub send_on : Network → ℕ → RouteTableEntry → Bytes → Router → Router
send_on net len best mac r =
    let frame = put ethr_dhost mac r.buf in
    send_to_link len best.interface
      (record r { buf = put ethr_shost (net.interface_mac best.interface) frame })

-- The TTL and the checksum of a packet that goes on.
unfoldable pub decrement_ttl : Bytes → Bytes
decrement_ttl frame =
    renew_checksum ip_hdr 20 ip_checksum (put ttl ((byte_at ttl frame - 1) ∷ []) frame)

unfoldable pub forward : Network → ℕ → RouteTableEntry → Router → Option Router
forward net len best r =
    let buf = decrement_ttl r.buf in
    elim (learn (address_at source_addr buf) (slice ethr_shost 6 buf) r.arp_table) [
      | none ↦ none
      | some arp_table ↦
          let r = record r { buf = buf; arp_table = arp_table } in
          elim (mac_of best.next_hop arp_table) [
            | none ↦ some (wait_for_mac net len best r)
            | some mac ↦ some (send_on net len best mac r)
          ]
    ]

-- A packet for somebody else.
unfoldable pub route_packet : Network → ℕ → ℕ → Router → Option Router
route_packet net interface len r =
    if not (checksum 0 (slice ip_hdr 20 r.buf) == 0)
    then some r
    else elim (get_best_route net.rtable_root (address_at dest_addr r.buf)) [
      | none ↦ some (icmp_error net 3 interface r)
      | some best ↦
          if leb (byte_at ttl r.buf) 1
          then some (icmp_error net 11 interface r)
          else forward net len best r
    ]

unfoldable pub on_ip : Network → ℕ → ℕ → Router → Option Router
on_ip net interface len r =
    let (r', sent_echo_reply) = answer_own net interface len 3 0 r false in
    if sent_echo_reply then some r' else route_packet net interface len r'

-- The body of the loop behind recv_from_any_link.
unfoldable pub on_frame : Network → ℕ → ℕ → Router → Option Router
on_frame net interface len r =
    if is_for_another (net.interface_mac interface) r.buf
    then some r
    else if word_at ethr_type r.buf == 2054
    then on_arp net interface len r
    else on_ip net interface len r

-- A frame that is received from an interface: it overwrites the front of the buffer.
unfoldable pub receive : Network → ℕ × Bytes → Router → Option Router
receive net (interface, frame) r =
    on_frame net interface (length frame) (record r { buf = put 0 frame r.buf })

unfoldable pub receive_all : Network → List (ℕ × Bytes) → Router → Option Router
receive_all net [] r = some r
receive_all net (f ∷ frames) r = elim (receive net f r) [
  | none ↦ none
  | some r' ↦ receive_all net frames r'
]
