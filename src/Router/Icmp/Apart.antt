-- ===== src/Router/Icmp/Apart.antt =====
-- The bytes that the steps of an answer leave as they were. The premises compute at the headers'
-- positions.
use teme_pcom.Prelude.{
  Bytes, [], ap, arith, leb, leb→le, length, refl, sym, true, ℕ, ◌+◌, ◌<◌, ◌^◌, ◌∙◌, ◌∷◌, ◌≡◌,
}
use teme_pcom.Router.Checksum.{AreBytes}
use teme_pcom.Router.Frame.{
  slice, put, address_bytes, source_addr, dest_addr, ethr_dhost, ethr_shost,
}
use teme_pcom.Router.Frame.Slices.{
  length-put, slice-put, slice-put_before, slice-put_behind, length-slice,
}
use teme_pcom.Router.Icmp.{Network, renew_checksum, swap_addresses, send_back}
use teme_pcom.Router.Icmp.Sums.{put-AreBytes, slice-AreBytes, address_bytes-AreBytes}

-- The interfaces' addresses have their sizes.
pub record IsNetwork (net : Network) : Type 0 where
  pub macs : (i : ℕ) → length (net.interface_mac i) ≡ 6
  pub ips : (i : ℕ) → net.interface_ip i < 2 ^ 32

pub put_before :
    (p n at : ℕ) (bytes frame : Bytes)
    → leb (p + n) at ≡ true
    → slice p n (put at bytes frame) ≡ slice p n frame
put_before p n at bytes frame h = slice-put_before p n at bytes frame (leb→le (p + n) at h)

pub put_behind :
    (p n at : ℕ) (bytes frame : Bytes)
    → leb (at + length bytes) p ≡ true
    → slice p n (put at bytes frame) ≡ slice p n frame
put_behind p n at bytes frame h =
    slice-put_behind p n at bytes frame (leb→le (at + length bytes) p h)

pub put_byte :
    (at c : ℕ) (frame : Bytes)
    → leb (at + 1) (length frame) ≡ true
    → slice at 1 (put at (c ∷ []) frame) ≡ c ∷ []
put_byte at c frame h = slice-put at (c ∷ []) frame (leb→le (at + 1) (length frame) h)

pub put_word :
    (at c d : ℕ) (frame : Bytes)
    → leb (at + 2) (length frame) ≡ true
    → slice at 2 (put at (c ∷ d ∷ []) frame) ≡ c ∷ d ∷ []
put_word at c d frame h = slice-put at (c ∷ d ∷ []) frame (leb→le (at + 2) (length frame) h)

-- A copy of bytes from elsewhere, whose length the frame's length gives.
pub copy_behind :
    (at q m p n : ℕ) (from frame : Bytes)
    → leb (at + m) p ≡ true
    → leb (q + m) (length from) ≡ true
    → slice p n (put at (slice q m from) frame) ≡ slice p n frame
copy_behind at q m p n from frame h fits =
    slice-put_behind p n at (slice q m from) frame (
      omega (arith, leb→le (at + m) p h, length-slice q m from (leb→le (q + m) (length from) fits)))

pub copy_self :
    (at q m : ℕ) (from frame : Bytes)
    → leb (q + m) (length from) ≡ true
    → leb (at + m) (length frame) ≡ true
    → slice at m (put at (slice q m from) frame) ≡ slice q m from
copy_self at q m from frame fits room =
    let len = length-slice q m from (leb→le (q + m) (length from) fits) in
    ap (λ n. slice at n (put at (slice q m from) frame)) (sym len)
    ∙ slice-put at (slice q m from) frame (omega (arith, len, leb→le (at + m) (length frame) room))

-- A MAC address has six bytes.
pub mac_behind :
    (at p n : ℕ) (mac frame : Bytes)
    → length mac ≡ 6
    → leb (at + 6) p ≡ true
    → slice p n (put at mac frame) ≡ slice p n frame
mac_behind at p n mac frame six h =
    slice-put_behind p n at mac frame (omega (arith, six, leb→le (at + 6) p h))

pub mac_self :
    (at : ℕ) (mac frame : Bytes)
    → length mac ≡ 6
    → leb (at + 6) (length frame) ≡ true
    → slice at 6 (put at mac frame) ≡ mac
mac_self at mac frame six room =
    ap (λ n. slice at n (put at mac frame)) (sym six)
    ∙ slice-put at mac frame (omega (arith, six, leb→le (at + 6) (length frame) room))

pub renew_before :
    (start m at p n : ℕ) (frame : Bytes)
    → leb (p + n) at ≡ true
    → slice p n (renew_checksum start m at frame) ≡ slice p n frame
unfolding renew_checksum
renew_before start m at p n frame h =
    put_before p n at _ (put at (0 ∷ 0 ∷ []) frame) h ∙ put_before p n at (0 ∷ 0 ∷ []) frame h

pub renew_behind :
    (start m at p n : ℕ) (frame : Bytes)
    → leb (at + 2) p ≡ true
    → slice p n (renew_checksum start m at frame) ≡ slice p n frame
unfolding renew_checksum
renew_behind start m at p n frame h =
    put_behind p n at _ (put at (0 ∷ 0 ∷ []) frame) h ∙ put_behind p n at (0 ∷ 0 ∷ []) frame h

pub length-renew :
    (start n at : ℕ) (frame : Bytes) → length (renew_checksum start n at frame) ≡ length frame
unfolding renew_checksum
length-renew start n at frame = simp length-put refl

pub length-swap :
    (net : Network) (i : ℕ) (frame : Bytes) → length (swap_addresses net i frame) ≡ length frame
unfolding swap_addresses
length-swap net i frame = simp length-put refl

module _ (net : Network) (i : ℕ) where
  pub swap_before :
      (p n : ℕ) (frame : Bytes)
      → leb (p + n) 26 ≡ true
      → slice p n (swap_addresses net i frame) ≡ slice p n frame
  unfolding swap_addresses
  swap_before p n frame h =
      let le = leb→le (p + n) 26 h in
      let swapped = put dest_addr (slice source_addr 4 frame) frame in
      slice-put_before p n 26 (address_bytes (net.interface_ip i)) swapped le
      ∙ slice-put_before p n 30 (slice source_addr 4 frame) frame (omega (arith, le))

  pub swap_behind :
      (p n : ℕ) (frame : Bytes)
      → leb 34 p ≡ true
      → leb 34 (length frame) ≡ true
      → slice p n (swap_addresses net i frame) ≡ slice p n frame
  unfolding swap_addresses
  swap_behind p n frame h fits =
      let le = leb→le 34 p h in
      let swapped = put dest_addr (slice source_addr 4 frame) frame in
      slice-put_behind p n 26 (address_bytes (net.interface_ip i)) swapped (omega (arith, le))
      ∙ slice-put_behind p n 30 (slice source_addr 4 frame) frame (
          omega (
            arith,
            le,
            length-slice source_addr 4 frame (omega (arith, leb→le 34 (length frame) fits)),
          ))

  -- The sender gets the answer, from the interface's address.
  pub swap-dest :
      (frame : Bytes)
      → leb 34 (length frame) ≡ true
      → slice dest_addr 4 (swap_addresses net i frame) ≡ slice source_addr 4 frame
  unfolding swap_addresses
  swap-dest frame fits =
      let source = slice source_addr 4 frame in
      let four = length-slice source_addr 4 frame (omega (arith, leb→le 34 (length frame) fits)) in
      put_behind dest_addr 4 source_addr (address_bytes (net.interface_ip i))
        (put dest_addr source frame) refl
      ∙ ap (λ n. slice dest_addr n (put dest_addr source frame)) (sym four)
      ∙ slice-put dest_addr source frame (omega (arith, four, leb→le 34 (length frame) fits))

  pub swap-source :
      (frame : Bytes)
      → leb 34 (length frame) ≡ true
      → slice source_addr 4 (swap_addresses net i frame) ≡ address_bytes (net.interface_ip i)
  unfolding swap_addresses
  swap-source frame fits =
      let swapped = put dest_addr (slice source_addr 4 frame) frame in
      slice-put source_addr (address_bytes (net.interface_ip i)) swapped (
        omega (
          arith,
          length-put dest_addr (slice source_addr 4 frame) frame,
          leb→le 34 (length frame) fits,
        ))

  module _ (known : IsNetwork net) where
    pub swap-AreBytes : (frame : Bytes) → AreBytes frame → AreBytes (swap_addresses net i frame)
    unfolding swap_addresses
    swap-AreBytes frame h =
        put-AreBytes source_addr (address_bytes (net.interface_ip i)) _
          (address_bytes-AreBytes (net.interface_ip i) (known.ips i))
          (put-AreBytes dest_addr _ frame (slice-AreBytes source_addr 4 frame h) h)

    pub back_behind :
        (p n : ℕ) (frame : Bytes)
        → leb 12 p ≡ true
        → leb 12 (length frame) ≡ true
        → slice p n (send_back net i frame) ≡ slice p n frame
    unfolding send_back
    back_behind p n frame h fits =
        let le = leb→le 12 p h in
        let shost = slice ethr_shost 6 frame in
        slice-put_behind p n 6 (net.interface_mac i) (put ethr_dhost shost frame)
          (omega (arith, le, known.macs i))
        ∙ slice-put_behind p n 0 shost frame (
            omega (
              arith,
              le,
              length-slice ethr_shost 6 frame (omega (arith, leb→le 12 (length frame) fits)),
            ))

    pub back-dhost :
        (frame : Bytes)
        → leb 12 (length frame) ≡ true
        → slice ethr_dhost 6 (send_back net i frame) ≡ slice ethr_shost 6 frame
    unfolding send_back
    back-dhost frame fits =
        let shost = slice ethr_shost 6 frame in
        let six = length-slice ethr_shost 6 frame (omega (arith, leb→le 12 (length frame) fits)) in
        put_before 0 6 6 (net.interface_mac i) (put ethr_dhost shost frame) refl
        ∙ ap (λ n. slice 0 n (put 0 shost frame)) (sym six)
        ∙ slice-put 0 shost frame (omega (arith, six, leb→le 12 (length frame) fits))

    pub back-shost :
        (frame : Bytes)
        → leb 12 (length frame) ≡ true
        → slice ethr_shost 6 (send_back net i frame) ≡ net.interface_mac i
    unfolding send_back
    back-shost frame fits =
        let shost = slice ethr_shost 6 frame in
        let back = put ethr_dhost shost frame in
        ap (λ n. slice ethr_shost n (put 6 (net.interface_mac i) back)) (sym (known.macs i))
        ∙ slice-put 6 (net.interface_mac i) back
            (omega (arith, known.macs i, length-put 0 shost frame, leb→le 12 (length frame) fits))
