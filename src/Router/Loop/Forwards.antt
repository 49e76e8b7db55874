-- ===== src/Router/Loop/Forwards.antt =====
-- The packets that go on, by the interface and to the next hop of their best route.
use teme_pcom.Prelude.{
  replicate, Bool, ◌∙◌, leb, some, ◌==◌, ◌≤◌, false, ◌+◌, Bytes, [], arith, length, refl, suc, zero,
  ℕ, ◌-◌, ◌<◌, ◌∷◌, ◌≡◌,
}
use teme_pcom.Router.Checksum.{checksum, AreBytes}
use teme_pcom.Router.Frame.{
  dest_addr, address_at, word_at, max_packet_len, slice, put, byte_at, ethr_dhost, ethr_shost,
  ethr_type, ip_hdr, ttl, proto, ip_checksum, source_addr,
}
use teme_pcom.Router.Frame.Slices.{length-put}
use teme_pcom.Router.Icmp.Sums.{put-AreBytes, renew_checksum-verifies}
use teme_pcom.Router.Icmp.Apart.{
  put_before, put_behind, put_byte, renew_before, renew_behind, length-renew, mac_behind, mac_self,
}
use teme_pcom.Router.Loop.{
  forward, on_ip, on_frame, route_packet, receive, Router, is_for_another, answer_own,
  decrement_ttl,
}
use teme_pcom.Router.Icmp.{Network}
use teme_pcom.Router.Trie.{get_best_route, RouteTableEntry}

-- A packet that is forwarded: other Ethernet addresses, a TTL that is one less, and a checksum that
-- is right; all else is as it was.
pub record IsForwarded (dmac smac before after : Bytes) : Type 0 where
  pub dhost : slice ethr_dhost 6 after ≡ dmac
  pub shost : slice ethr_shost 6 after ≡ smac
  pub front_same : slice ethr_type 10 after ≡ slice ethr_type 10 before
  pub ttl_is : slice ttl 1 after ≡ (byte_at ttl before - 1) ∷ []
  pub proto_same : slice proto 1 after ≡ slice proto 1 before
  pub rest_same : (n : ℕ) → slice source_addr n after ≡ slice source_addr n before
  pub checks : checksum 0 (slice ip_hdr 20 after) ≡ 0

ruleset apart = (put_before, put_behind, put_byte, renew_before, renew_behind, mac_behind, mac_self)

ruleset lengths = (length-put, length-renew)

AreBytes-byte_at : (at : ℕ) (frame : Bytes) → AreBytes frame → byte_at at frame < 256
AreBytes-byte_at at [] h = omega arith
AreBytes-byte_at zero (c ∷ frame) h = h.0
AreBytes-byte_at (suc at) (c ∷ frame) h = AreBytes-byte_at at frame h.1

module _ (dmac smac frame : Bytes) (six : length dmac ≡ 6) (six' : length smac ≡ 6)
    (bytes : AreBytes frame) (size : length frame ≡ max_packet_len) where
  decremented-verifies : checksum 0 (slice ip_hdr 20 (decrement_ttl frame)) ≡ 0
  unfolding decrement_ttl
  decremented-verifies =
      let less = put ttl ((byte_at ttl frame - 1) ∷ []) frame in
      renew_checksum-verifies ip_hdr 10 8 20 ip_checksum less refl refl refl refl (omega arith)
        (omega (arith, size, length-put ttl ((byte_at ttl frame - 1) ∷ []) frame))
        (put-AreBytes ttl ((byte_at ttl frame - 1) ∷ []) frame
          (omega (arith, AreBytes-byte_at ttl frame bytes), tt) bytes)

  pub decrement_ttl-IsForwarded :
      IsForwarded dmac smac frame (put ethr_shost smac (put ethr_dhost dmac (decrement_ttl frame)))
  unfolding decrement_ttl
  decrement_ttl-IsForwarded = record {
    dhost = simp (apart, lengths, six, six', size) refl;
    shost = simp (apart, lengths, six, six', size) refl;
    front_same = simp (apart, lengths, six, six', size) refl;
    ttl_is = simp (apart, lengths, six, six', size) refl;
    proto_same = simp (apart, lengths, six, six', size) refl;
    rest_same = λ n. simp (apart, lengths, six, six', size) refl;
    checks = simp (mac_behind, six, six') decremented-verifies;
  }

-- So far the Ethernet addresses are as they were.
pub waits-IsForwarded :
    (frame : Bytes)
    → AreBytes frame
    → length frame ≡ max_packet_len
    → IsForwarded (slice ethr_dhost 6 frame) (slice ethr_shost 6 frame) frame (decrement_ttl frame)
unfolding decrement_ttl
waits-IsForwarded frame bytes size = record {
  dhost = simp (apart, lengths, size) refl;
  shost = simp (apart, lengths, size) refl;
  front_same = simp (apart, lengths, size) refl;
  ttl_is = simp (apart, lengths, size) refl;
  proto_same = simp (apart, lengths, size) refl;
  rest_same = λ n. simp (apart, lengths, size) refl;
  checks = decremented-verifies (replicate 6 0) (replicate 6 0) frame refl refl bytes size;
}

-- No interface has the address.
abbrev pub IsForeign : Network → ℕ → Type 0
IsForeign net a = (i : ℕ) → i < 3 → (net.interface_ip i == a) ≡ false

-- A packet in the buffer that is for somebody else and can go on by a route: it came to the
-- interface's MAC address, is no ARP frame and for no address of the router, and its IP checksum is
-- right.
pub record IsTransit (net : Network) (interface : ℕ) (buf : Bytes) : Type 0 where
  pub for_us : is_for_another (net.interface_mac interface) buf ≡ false
  pub not_arp : (word_at ethr_type buf == 2054) ≡ false
  pub not_own : IsForeign net (address_at dest_addr buf)
  pub checked : checksum 0 (slice ip_hdr 20 buf) ≡ 0

pub answer_own-foreign :
    (net : Network) (interface len n i : ℕ) (r : Router) (b : Bool)
    → i + n ≤ 3
    → IsForeign net (address_at dest_addr r.buf)
    → answer_own net interface len n i r b ≡ (r, b)
unfolding answer_own
answer_own-foreign net interface len zero i r b h other = refl
answer_own-foreign net interface len (suc n) i r b h other =
    rw (answer_own, other i (omega (arith, h)))
      (answer_own-foreign net interface len n (i + 1) r b (omega (arith, h)) other)

module _ (net : Network) (interface : ℕ) (frame : Bytes) (r : Router) where
  -- The state in which a frame is handled.
  abbrev pub received : Router
  received = record r { buf = put 0 frame r.buf }

  pub receive-transit :
      IsTransit net interface received.buf
      → receive net (interface, frame) r ≡ route_packet net interface (length frame) received
  unfolding receive on_frame on_ip
  receive-transit h =
      rw
        (
          receive,
          on_frame,
          h.for_us,
          h.not_arp,
          on_ip,
          answer_own-foreign net interface (length frame) 3 0 received false (omega arith)
              h.not_own,
        )
        refl

  pub receive-routed :
      (best : RouteTableEntry)
      → IsTransit net interface received.buf
      → get_best_route net.rtable_root (address_at dest_addr received.buf) ≡ some best
      → leb (byte_at ttl received.buf) 1 ≡ false
      → receive net (interface, frame) r ≡ forward net (length frame) best received
  unfolding route_packet
  receive-routed best h way lives =
      receive-transit h ∙ rw (route_packet, h.checked, way, lives) refl
