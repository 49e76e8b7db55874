-- ===== src/Router/Arp.antt =====
-- Tema_1/router.c: the ARP table, and the packets that wait for an ARP reply. Addresses are words
-- in host order; the queue is the list of its elements, first to last.
pub mod Cache
pub mod Frames
pub mod Replies
use teme_pcom.Prelude.{
  Bytes, List, Option, [], find_index, get_elem?, if◌then◌else◌, length, ltb, none, not, set, some,
  suc, zero, ℕ, ◌++◌, ◌+◌, ◌-◌, ◌==◌, ◌∷◌,
}
use teme_pcom.Router.Frame.{put, ethr_dhost, ethr_shost, ethr_type, icmp_hdr, address_at, dest_addr}
use teme_pcom.Router.Trie.{Trie, RouteTableEntry, get_best_route}

-- The size of the array that `arp_table` points to.
abbrev pub arp_table_size : ℕ
arp_table_size = 100000

-- struct arp_table_entry
pub record ArpTableEntry : Type 0 where
  pub ip : ℕ
  pub mac : Bytes

unfoldable pub get_arp_table_entry : ℕ → List ArpTableEntry → Option ℕ
get_arp_table_entry given_ip arp_table = find_index (λ e. e.ip == given_ip) arp_table

-- An entry is overwritten or put behind the others; `none` is a write past the array.
unfoldable pub learn : ℕ → Bytes → List ArpTableEntry → Option (List ArpTableEntry)
learn ip mac arp_table = elim (get_arp_table_entry ip arp_table) [
  | none ↦
      if ltb (length arp_table) arp_table_size
      then some (arp_table ++ (record { ip = ip; mac = mac }) ∷ [])
      else none
  | some i ↦ elim (get_elem? arp_table i) [
    | none ↦ none
    | some e ↦ some (set arp_table i (record e { mac = mac }))
  ]
]

-- What send_to_link is called with.
pub record SentFrame : Type 0 where
  pub len : ℕ
  pub frame_data : Bytes
  pub interface : ℕ

-- The queue, what was sent, and new_queue_len. A packet in the queue is the copy that was made of
-- it.
pub record Released : Type 0 where
  pub queued : List Bytes
  pub sent : List SentFrame
  pub queue_len : ℕ

-- A packet for the next hop that has answered, with its Ethernet header; the length is that of the
-- frame that was received last.
unfoldable pub to_frame : (ℕ → Bytes) → ℕ → Bytes → RouteTableEntry → Bytes → SentFrame
to_frame interface_mac len mac best packet =
    let packet = put ethr_dhost mac packet in
    let packet = put ethr_shost (interface_mac best.interface) packet in
    record { len = len; frame_data = put ethr_type (8 ∷ 0 ∷ []) packet; interface = best.interface }

-- A round of the loop at the packet that was dequeued; `none` is an access through NULL, or past
-- the copy: by the header's fields, or by send_to_link, which sends `len` bytes of it.
unfoldable pub release_one : (ℕ → Bytes) → ℕ → Trie → ℕ → Bytes → Bytes → Released → Option Released
release_one interface_mac len root ip mac packet r =
    if ltb (length packet) icmp_hdr
    then none
    else elim (get_best_route root (address_at dest_addr packet)) [
      | none ↦ none
      | some best ↦
          if not (best.next_hop == ip)
          then some (record r { queued = r.queued ++ packet ∷ [] })
          else if ltb (length packet) len
          then none
          else some (record r {
            sent = r.sent ++ to_frame interface_mac len mac best packet ∷ [];
            queue_len = r.queue_len - 1;
          })
    ]

-- The loop with n rounds left; the assert of queue_deq fails on an empty queue.
unfoldable pub release : (ℕ → Bytes) → ℕ → Trie → ℕ → Bytes → ℕ → Released → Option Released
release interface_mac len root ip mac zero r = some r
release interface_mac len root ip mac (suc n) r = elim r.queued [
  | [] ↦ none
  | p ∷ queued ↦ elim (release_one interface_mac len root ip mac p (record r { queued = queued })) [
    | none ↦ none
    | some r' ↦ release interface_mac len root ip mac n r'
  ]
]
