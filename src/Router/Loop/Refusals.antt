-- ===== src/Router/Loop/Refusals.antt =====
-- The packets that are answered instead of being sent on.
use teme_pcom.Prelude.{
  Bytes, [], arith, leb, length, none, refl, some, true, ℕ, ◌++◌, ◌<◌, ◌∙◌, ◌∷◌, ◌≡◌,
}
use teme_pcom.Router.Trie.{RouteTableEntry, get_best_route}
use teme_pcom.Router.Checksum.{AreBytes}
use teme_pcom.Router.Frame.{max_packet_len, put, byte_at, address_at, ttl, dest_addr}
use teme_pcom.Router.Frame.Slices.{length-put}
use teme_pcom.Router.Icmp.{Network, answer_length}
use teme_pcom.Router.Icmp.Apart.{IsNetwork}
use teme_pcom.Router.Icmp.Answers.{
  IsAnswer, IsIcmpError, icmp_send_dest_unreachable_or_timeout-IsAnswer,
}
use teme_pcom.Router.Loop.{Router, route_packet, icmp_error, receive}
use teme_pcom.Router.Loop.Forwards.{IsTransit, receive-transit, received}

-- Why a packet in transit cannot go on: no route, or a TTL of at most 1.
pub data IsRefused (net : Network) (buf : Bytes) : ℕ → Type 0 where
  no_route : get_best_route net.rtable_root (address_at dest_addr buf) ≡ none → IsRefused net buf 3
  no_time :
      (best : RouteTableEntry)
      → get_best_route net.rtable_root (address_at dest_addr buf) ≡ some best
      → leb (byte_at ttl buf) 1 ≡ true
      → IsRefused net buf 11

module _ (net : Network) (known : IsNetwork net) (interface : ℕ) (frame : Bytes) (r : Router)
    (transit : IsTransit net interface (put 0 frame r.buf)) where
  receive-refused :
      (type : ℕ)
      → IsRefused net (put 0 frame r.buf) type
      → (receive net (interface, frame) r
          ≡ some (icmp_error net type interface (received net interface frame r)))
        × (type < 256)
  unfolding route_packet
  receive-refused type (no_route e) = (
    receive-transit net interface frame r transit ∙ rw (route_packet, transit.checked, e) refl,
    omega arith,
  )
  receive-refused type (no_time best e t) = (
    receive-transit net interface frame r transit ∙ rw (route_packet, transit.checked, e, t) refl,
    omega arith,
  )

  -- A packet in transit that has no route, or one but a TTL of at most 1, is not sent on: the one
  -- frame that is sent goes back by the interface that it came in by, and is an ICMP error to its
  -- sender, of type 3 or 11. The ARP table and the queue stay.
  pub receive-IsIcmpError :
      (type : ℕ)
      → IsRefused net (put 0 frame r.buf) type
      → length r.buf ≡ max_packet_len
      → AreBytes (put 0 frame r.buf)
      → (r' : Router) × (receive net (interface, frame) r ≡ some r')
        × (r'.sent
            ≡ r.sent
              ++ (record { len = answer_length; frame_data = r'.buf; interface = interface }) ∷ [])
        × IsAnswer net interface (put 0 frame r.buf) r'.buf
        × IsIcmpError type (put 0 frame r.buf) r'.buf
        × (r'.arp_table ≡ r.arp_table)
        × (r'.queue ≡ r.queue)
  unfolding icmp_error
  receive-IsIcmpError type refused size bytes =
      let (e, byte) = receive-refused type refused in
      let (answer, icmp) =
        icmp_send_dest_unreachable_or_timeout-IsAnswer net known type interface (put 0 frame r.buf)
          bytes byte (length-put 0 frame r.buf ∙ size) in
      (
        icmp_error net type interface (received net interface frame r),
        e,
        refl,
        answer,
        icmp,
        refl,
        refl,
      )
