-- ===== src/Router/Arp/Frames.antt =====
-- The frame that a packet from the queue is sent in.
use teme_pcom.Prelude.{Bytes, [], ap, arith, length, refl, sym, ℕ, ◌+◌, ◌∙◌, ◌∷◌, ◌≡◌, ◌≤◌}
use teme_pcom.Router.Trie.{RouteTableEntry}
use teme_pcom.Router.Frame.{slice, put, ethr_dhost, ethr_shost, ethr_type, ip_hdr}
use teme_pcom.Router.Frame.Slices.{length-put, slice-put, slice-put_before, slice-put_behind}
use teme_pcom.Router.Arp.{SentFrame, to_frame}

-- The packet with the Ethernet header of its next hop, by the interface of the route, in a frame of
-- `len` bytes.
pub record IsReleased (smac mac : Bytes) (len interface : ℕ) (packet : Bytes) (f : SentFrame)
    : Type 0 where
  pub len_is : f.len ≡ len
  pub interface_is : f.interface ≡ interface
  pub size : length f.frame_data ≡ length packet
  pub dhost : slice ethr_dhost 6 f.frame_data ≡ mac
  pub shost : slice ethr_shost 6 f.frame_data ≡ smac
  pub type_is : slice ethr_type 2 f.frame_data ≡ 8 ∷ 0 ∷ []
  pub packet_same : (n : ℕ) → slice ip_hdr n f.frame_data ≡ slice ip_hdr n packet

six_at :
    (at : ℕ) (mac frame : Bytes)
    → length mac ≡ 6
    → at + 6 ≤ length frame
    → slice at 6 (put at mac frame) ≡ mac
six_at at mac frame six room =
    ap (λ n. slice at n (put at mac frame)) (sym six)
    ∙ slice-put at mac frame (omega (arith, six, room))

module _ (interface_mac : ℕ → Bytes) (len : ℕ) (mac : Bytes) (best : RouteTableEntry)
    (p : Bytes) where
  pub to_frame-IsReleased :
      length mac ≡ 6
      → length (interface_mac best.interface) ≡ 6
      → 34 ≤ length p
      → IsReleased
          (interface_mac best.interface)
          mac
          len
          best.interface
          p
          (to_frame interface_mac len mac best p)
  unfolding to_frame
  to_frame-IsReleased six six' long =
      let smac = interface_mac best.interface in
      let a = put ethr_dhost mac p in
      let b = put ethr_shost smac a in
      let la = length-put ethr_dhost mac p in
      let lb = length-put ethr_shost smac a in
      record {
        len_is = refl;
        interface_is = refl;
        size = length-put ethr_type (8 ∷ 0 ∷ []) b ∙ lb ∙ la;
        dhost =
            slice-put_before 0 6 12 (8 ∷ 0 ∷ []) b (omega arith)
            ∙ slice-put_before 0 6 6 smac a (omega arith)
            ∙ six_at 0 mac p six (omega (arith, long));
        shost =
            slice-put_before 6 6 12 (8 ∷ 0 ∷ []) b (omega arith)
            ∙ six_at 6 smac a six' (omega (arith, long, la));
        type_is = slice-put 12 (8 ∷ 0 ∷ []) b (omega (arith, long, la, lb));
        packet_same = λ n.
            slice-put_behind 14 n 12 (8 ∷ 0 ∷ []) b (omega arith)
            ∙ slice-put_behind 14 n 6 smac a (omega (arith, six'))
            ∙ slice-put_behind 14 n 0 mac p (omega (arith, six));
      }
