-- ===== src/Router/Loop/Rounds.antt =====
-- The state of the loop between two frames: no round makes an access that C leaves undefined.
use teme_pcom.Prelude.{
  All-append, Bytes, List, Option, Option-cases, [], ap, arith, false, find_index-some, inl, inr,
  length, length-append, length-set, length-take, ltb, lt→ltb, none, refl, replicate, set, some,
  suc, take, zero, ℕ, ◌++◌, ◌+◌, ◌<◌, ◌==◌, ◌∙◌, ◌∷◌, ◌≡◌, ◌≢◌, ◌≤◌,
}
use teme_pcom.Router.Trie.{Trie, RouteTableEntry, get_best_route}
use teme_pcom.Router.Frame.{max_packet_len, slice, put, address_at, dest_addr}
use teme_pcom.Router.Frame.Slices.{length-put}
use teme_pcom.Router.Arp.{ArpTableEntry, SentFrame, arp_table_size, get_arp_table_entry, learn}
use teme_pcom.Router.Arp.Replies.{HaveRoutes}
use teme_pcom.Router.Icmp.{
  Network, renew_checksum, swap_addresses, send_back, icmp_send_echo_reply,
  icmp_send_dest_unreachable_or_timeout,
}
use teme_pcom.Router.Loop.{Router, arp_reply, icmp_error, wait_for_mac, send_on, decrement_ttl}

-- The buffer has its size, and the packets that wait are counted, have m bytes and a route.
pub record Inv (net : Network) (m : ℕ) (r : Router) : Type 0 where
  pub size : length r.buf ≡ max_packet_len
  pub counted : r.queue_len ≡ length r.queue
  pub routed : HaveRoutes net.rtable_root m r.queue

pub Inv-buf :
    {net : Network} {m : ℕ} {r : Router} {b : Bytes} {s : List SentFrame} {t : List ArpTableEntry}
    → Inv net m r
    → length b ≡ length r.buf
    → Inv net m (record r { buf = b; sent = s; arp_table = t })
Inv-buf h e = record { size = e ∙ h.size; counted = h.counted; routed = h.routed }

length-renew_checksum :
    (start n at : ℕ) (frame : Bytes) → length (renew_checksum start n at frame) ≡ length frame
unfolding renew_checksum
length-renew_checksum start n at frame =
    omega (arith, length-put at (0 ∷ 0 ∷ []) frame, length-put at _ (put at (0 ∷ 0 ∷ []) frame))

length-swap_addresses :
    (net : Network) (i : ℕ) (frame : Bytes) → length (swap_addresses net i frame) ≡ length frame
unfolding swap_addresses
length-swap_addresses net i frame = simp length-put refl

length-send_back :
    (net : Network) (i : ℕ) (frame : Bytes) → length (send_back net i frame) ≡ length frame
unfolding send_back
length-send_back net i frame = simp length-put refl

ruleset length_rules = (length-put, length-renew_checksum, length-swap_addresses, length-send_back)

pub length-echo :
    (net : Network) (i : ℕ) (frame : Bytes)
    → length (icmp_send_echo_reply net i frame) ≡ length frame
unfolding icmp_send_echo_reply
length-echo net i frame = simp length_rules refl

length-icmp :
    (net : Network) (type i : ℕ) (frame : Bytes)
    → length (icmp_send_dest_unreachable_or_timeout net type i frame) ≡ length frame
unfolding icmp_send_dest_unreachable_or_timeout
length-icmp net type i frame = simp length_rules refl

pub length-arp_reply :
    (net : Network) (i : ℕ) (frame : Bytes) → length (arp_reply net i frame) ≡ length frame
unfolding arp_reply
length-arp_reply net i frame = simp length_rules refl

pub length-decrement_ttl : (frame : Bytes) → length (decrement_ttl frame) ≡ length frame
unfolding decrement_ttl
length-decrement_ttl frame = simp length_rules refl

-- A table with room learns.
pub learn-some :
    (ip : ℕ) (mac : Bytes) (t : List ArpTableEntry)
    → length t < arp_table_size
    → (t' : List ArpTableEntry) × (learn ip mac t ≡ some t') × (length t' ≤ suc (length t))
unfolding learn get_arp_table_entry
learn-some ip mac t h = elim (Option-cases (get_arp_table_entry ip t)) [
  | inl e ↦ (
    t ++ (record { ip = ip; mac = mac }) ∷ [],
    rw (learn, e, lt→ltb (length t) arp_table_size h) refl,
    omega (arith, length-append t ((record { ip = ip; mac = mac }) ∷ [])),
  )
  | inr (i, e) ↦
      let (x, at, named, inside) = find_index-some (λ e. e.ip == ip) t i e in
      (
        set t i (record x { mac = mac }),
        rw (learn, e, at) refl,
        omega (arith, length-set t i (record x { mac = mac })),
      )
]

-- It goes on to a state with the invariant and at most n entries in the ARP table.
abbrev pub Goes : Network → ℕ → ℕ → Option Router → Type 0
Goes net m n next = (r : Router) × (next ≡ some r) × Inv net m r × (length r.arp_table ≤ n)

pub Goes-here :
    {net : Network} {m : ℕ} {n : ℕ} {r r' : Router}
    → r ≡ r'
    → Inv net m r'
    → length r'.arp_table ≤ n
    → Goes net m n (some r)
Goes-here {net} {n} {r} {r'} e h le = (r', ap some e, h, le)

pub icmp_error-Inv :
    (net : Network) (type i : ℕ) {m : ℕ} (r : Router)
    → Inv net m r
    → Inv net m (icmp_error net type i r)
unfolding icmp_error
icmp_error-Inv net type i r h = Inv-buf h (length-icmp net type i r.buf)

pub send_on-Inv :
    (net : Network) (len : ℕ) (best : RouteTableEntry) (mac : Bytes) {m : ℕ} (r : Router)
    → Inv net m r
    → Inv net m (send_on net len best mac r)
unfolding send_on
send_on-Inv net len best mac r h = Inv-buf h (simp length-put refl)

HaveRoutes-snoc :
    (root : Trie) (m : ℕ) (queue : List Bytes) (p : Bytes)
    → HaveRoutes root m queue
    → (ltb (length p) m ≡ false)
    → get_best_route root (address_at dest_addr p) ≢ none
    → HaveRoutes root m (queue ++ p ∷ [])
HaveRoutes-snoc root m queue p h long routed = All-append _ queue (p ∷ []) h ((long, routed), tt)

pub slice-take :
    (p n k : ℕ) (frame : Bytes) → p + n ≤ k → slice p n (take k frame) ≡ slice p n frame
unfolding slice
slice-take zero zero k frame h = refl
slice-take zero (suc n) zero frame h = absurd (omega (arith, h))
slice-take zero (suc n) (suc k) [] h = refl
slice-take zero (suc n) (suc k) (c ∷ frame) h =
    ap (◌∷◌ c) (slice-take zero n k frame (omega (arith, h)))
slice-take (suc p) n zero frame h = absurd (omega (arith, h))
slice-take (suc p) n (suc k) [] h = refl
slice-take (suc p) n (suc k) (c ∷ frame) h = slice-take p n k frame (omega (arith, h))

ge→not_ltb : (a b : ℕ) → b ≤ a → ltb a b ≡ false
ge→not_ltb a b h = ground arith

pub wait_for_mac-Inv :
    (net : Network) (m len : ℕ) (best : RouteTableEntry) (r : Router)
    → 34 ≤ m
    → m ≤ len
    → len ≤ max_packet_len
    → get_best_route net.rtable_root (address_at dest_addr r.buf) ≡ some best
    → Inv net m r
    → Inv net m (wait_for_mac net len best r)
unfolding wait_for_mac
wait_for_mac-Inv net m len best r head long short way h = record {
  size = length-put 0 (replicate 6 255) r.buf ∙ h.size;
  counted = omega (arith, h.counted, length-append r.queue (take len r.buf ∷ []));
  routed =
      HaveRoutes-snoc net.rtable_root m r.queue (take len r.buf) h.routed
        (ge→not_ltb (length (take len r.buf)) m
          (omega (arith, long, length-take len r.buf, h.size)))
        (rw (slice-take dest_addr 4 len r.buf (omega (arith, head, long))) (λ e. cc));
}
