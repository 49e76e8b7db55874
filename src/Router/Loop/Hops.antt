-- ===== src/Router/Loop/Hops.antt =====
-- What a round does with a packet that has a route.
use teme_pcom.Prelude.{
  Bytes, List, Option, [], ap₂, arith, false, if◌then◌else◌, leb, length, none, refl, some, take, ℕ,
  ◌++◌, ◌<◌, ◌==◌, ◌∙◌, ◌∷◌, ◌≡◌,
}
use teme_pcom.Router.Trie.{RouteTableEntry, get_best_route}
use teme_pcom.Router.Checksum.{AreBytes}
use teme_pcom.Router.Frame.{
  max_packet_len, slice, put, byte_at, ethr_dhost, ethr_type, shwa, sprotoa, tprotoa, address_bytes,
  address_at, address_of, ethr_shost, ttl, source_addr, dest_addr,
}
use teme_pcom.Router.Frame.Slices.{length-put}
use teme_pcom.Router.Arp.{ArpTableEntry, arp_table_size, learn}
use teme_pcom.Router.Arp.Cache.{mac_of, mac_of-learn}
use teme_pcom.Router.Icmp.{Network}
use teme_pcom.Router.Icmp.Apart.{IsNetwork, put_before, renew_before}
use teme_pcom.Router.Loop.{
  Router, decrement_ttl, forward, send_on, wait_for_mac, receive, arp_request,
}
use teme_pcom.Router.Loop.Rounds.{learn-some}
use teme_pcom.Router.Loop.Safe.{slice-decrement_ttl}
use teme_pcom.Router.Loop.Forwards.{
  IsForwarded, IsTransit, received, receive-routed, waits-IsForwarded, decrement_ttl-IsForwarded,
}

-- The MAC address of the next hop once the packet's sender is in the ARP table.
abbrev pub next_mac : RouteTableEntry → Bytes → List ArpTableEntry → Option Bytes
next_mac best buf t =
    if address_at source_addr buf == best.next_hop
    then some (slice ethr_shost 6 buf)
    else mac_of best.next_hop t

decrement_ttl-shost :
    (frame : Bytes) → slice ethr_shost 6 (decrement_ttl frame) ≡ slice ethr_shost 6 frame
unfolding decrement_ttl
decrement_ttl-shost frame = simp (put_before, renew_before) refl

-- An ARP request for the next hop of a route, from its interface to all.
pub record IsArpRequest (net : Network) (best : RouteTableEntry) (request : Bytes) : Type 0 where
  pub size : length request ≡ 42
  pub dhost : slice ethr_dhost 6 request ≡ 255 ∷ 255 ∷ 255 ∷ 255 ∷ 255 ∷ 255 ∷ []
  pub shost : slice ethr_shost 6 request ≡ net.interface_mac best.interface
  pub kind : slice ethr_type 10 request ≡ 8 ∷ 6 ∷ 0 ∷ 1 ∷ 8 ∷ 0 ∷ 6 ∷ 4 ∷ 0 ∷ 1 ∷ []
  pub sender_mac : slice shwa 6 request ≡ net.interface_mac best.interface
  pub sender_ip : slice sprotoa 4 request ≡ address_bytes (net.interface_ip best.interface)
  pub target_ip : slice tprotoa 4 request ≡ address_bytes best.next_hop

six_bytes : (mac : Bytes) → length mac ≡ 6 → (a b c d e f : ℕ) × (mac ≡ a ∷ b ∷ c ∷ d ∷ e ∷ f ∷ [])
six_bytes [] h = absurd (omega (arith, h))
six_bytes (a ∷ []) h = absurd (omega (arith, h))
six_bytes (a ∷ b ∷ []) h = absurd (omega (arith, h))
six_bytes (a ∷ b ∷ c ∷ []) h = absurd (omega (arith, h))
six_bytes (a ∷ b ∷ c ∷ d ∷ []) h = absurd (omega (arith, h))
six_bytes (a ∷ b ∷ c ∷ d ∷ e ∷ []) h = absurd (omega (arith, h))
six_bytes (a ∷ b ∷ c ∷ d ∷ e ∷ f ∷ []) h = (a, b, c, d, e, f, refl)
six_bytes (a ∷ b ∷ c ∷ d ∷ e ∷ f ∷ g ∷ more) h = absurd (omega (arith, h))

arp_request-IsArpRequest :
    (net : Network)
    → IsNetwork net
    → (best : RouteTableEntry) → IsArpRequest net best (arp_request net best)
unfolding arp_request slice
arp_request-IsArpRequest net known best =
    let (a, b, c, d, e, f, is) =
      six_bytes (net.interface_mac best.interface) (known.macs best.interface) in
    record {
      size = rw is refl;
      dhost = refl;
      shost = rw is refl;
      kind = rw is refl;
      sender_mac = rw is refl;
      sender_ip = rw is refl;
      target_ip = rw is refl;
    }

module _ (net : Network) (len : ℕ) (best : RouteTableEntry) (r : Router) where
  -- The table behind a packet, where the next hop's address is found.
  learned :
      length r.arp_table < arp_table_size
      → (t : List ArpTableEntry) × (learn
            (address_at source_addr (decrement_ttl r.buf))
            (slice ethr_shost 6 (decrement_ttl r.buf))
            r.arp_table
          ≡ some t)
        × (mac_of best.next_hop t ≡ next_mac best r.buf r.arp_table)
  learned room =
      let source = address_at source_addr (decrement_ttl r.buf) in
      let mac = slice ethr_shost 6 (decrement_ttl r.buf) in
      let (t, e, le) = learn-some source mac r.arp_table room in
      (
        t,
        e,
        mac_of-learn source best.next_hop mac r.arp_table t e
            ∙ ap₂
                (λ s m.
                  if address_of s == best.next_hop
                  then some m
                  else mac_of best.next_hop r.arp_table)
                (slice-decrement_ttl source_addr 4 r.buf (omega arith)) (decrement_ttl-shost r.buf),
      )

  pub forward-known :
      (mac : Bytes)
      → length r.arp_table < arp_table_size
      → next_mac best r.buf r.arp_table ≡ some mac
      → (t : List ArpTableEntry) × (forward net len best r
          ≡ some (send_on net len best mac (record r { buf = decrement_ttl r.buf; arp_table = t })))
  unfolding forward
  forward-known mac room known =
      let (t, e, found) = learned room in (t, rw (forward, e, found, known) refl)

  pub forward-unknown :
      length r.arp_table < arp_table_size
      → next_mac best r.buf r.arp_table ≡ none
      → (t : List ArpTableEntry) × (forward net len best r
          ≡ some
              (wait_for_mac net len best (record r { buf = decrement_ttl r.buf; arp_table = t })))
  unfolding forward
  forward-unknown room unknown =
      let (t, e, found) = learned room in (t, rw (forward, e, found, unknown) refl)

module _ (net : Network) (known : IsNetwork net) (interface : ℕ) (frame : Bytes) (r : Router)
    (best : RouteTableEntry) where
  -- A packet in transit with a route, a TTL above 1 and a next hop whose MAC address is known is sent
  -- once, as long as it was received, by its route's interface and to that MAC address, with a TTL
  -- that is one less, a right IP checksum and all else as it was; no other frame is sent, and the
  -- queue stays. (The next hop is known also if it is the packet's sender.)
  pub receive-IsForwarded :
      (mac : Bytes)
      → length r.buf ≡ max_packet_len
      → AreBytes (put 0 frame r.buf)
      → IsTransit net interface (put 0 frame r.buf)
      → get_best_route net.rtable_root (address_at dest_addr (put 0 frame r.buf)) ≡ some best
      → leb (byte_at ttl (put 0 frame r.buf)) 1 ≡ false
      → length r.arp_table < arp_table_size
      → next_mac best (put 0 frame r.buf) r.arp_table ≡ some mac
      → length mac ≡ 6
      → (r' : Router) × (receive net (interface, frame) r ≡ some r')
        × (r'.sent
            ≡ r.sent
              ++ (record { len = length frame; frame_data = r'.buf; interface = best.interface })
                ∷ [])
        × IsForwarded mac (net.interface_mac best.interface) (put 0 frame r.buf) r'.buf
        × (r'.queue ≡ r.queue)
  unfolding send_on
  receive-IsForwarded mac size bytes transit way lives room found six =
      let (t, e) =
        forward-known net (length frame) best (received net interface frame r) mac room found in
      (
        send_on net (length frame) best mac
            (record r { buf = decrement_ttl (put 0 frame r.buf); arp_table = t }),
        receive-routed net interface frame r best transit way lives ∙ e,
        refl,
        decrement_ttl-IsForwarded mac (net.interface_mac best.interface) (put 0 frame r.buf) six
            (known.macs best.interface) bytes (length-put 0 frame r.buf ∙ size),
        refl,
      )

  -- Where that MAC address is not known, the packet waits at the end of the queue, with a TTL that is
  -- one less, a right IP checksum and all else as it was, and one frame is sent: an ARP request for
  -- the next hop, to all, from the addresses of the route's interface and by it.
  pub receive-waits :
      length r.buf ≡ max_packet_len
      → AreBytes (put 0 frame r.buf)
      → IsTransit net interface (put 0 frame r.buf)
      → get_best_route net.rtable_root (address_at dest_addr (put 0 frame r.buf)) ≡ some best
      → leb (byte_at ttl (put 0 frame r.buf)) 1 ≡ false
      → length r.arp_table < arp_table_size
      → next_mac best (put 0 frame r.buf) r.arp_table ≡ none
      → (r' : Router) × (packet : Bytes) × (request : Bytes) × (receive net (interface, frame) r
          ≡ some r')
        × (r'.queue ≡ r.queue ++ take (length frame) packet ∷ [])
        × IsForwarded
            (slice ethr_dhost 6 (put 0 frame r.buf))
            (slice ethr_shost 6 (put 0 frame r.buf))
            (put 0 frame r.buf)
            packet
        × (r'.sent
            ≡ r.sent
              ++ (record { len = 42; frame_data = request; interface = best.interface }) ∷ [])
        × IsArpRequest net best request
  unfolding wait_for_mac
  receive-waits size bytes transit way lives room unknown =
      let (t, e) =
        forward-unknown net (length frame) best (received net interface frame r) room unknown in
      (
        wait_for_mac net (length frame) best
            (record r { buf = decrement_ttl (put 0 frame r.buf); arp_table = t }),
        decrement_ttl (put 0 frame r.buf),
        arp_request net best,
        receive-routed net interface frame r best transit way lives ∙ e,
        refl,
        waits-IsForwarded (put 0 frame r.buf) bytes (length-put 0 frame r.buf ∙ size),
        refl,
        arp_request-IsArpRequest net known best,
      )
