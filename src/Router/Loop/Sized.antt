-- ===== src/Router/Loop/Sized.antt =====
-- The sizes of the frames that the loop receives.
use teme_pcom.Prelude.{
  All, Bytes, List, [], ap₂, arith, false, length, refl, suc, sym, true, zero, ℕ, ◌*◌, ◌+◌, ◌<◌,
  ◌==◌, ◌^◌, ◌∙◌, ◌∷◌, ◌≡◌, ◌≤◌,
}
use teme_pcom.Router.Frame.{max_packet_len, put, byte_at, word_at, ethr_type}

-- A frame of `len` bytes in the buffer: an ARP frame has at most m bytes, and another at least m.
pub record Sized (m len : ℕ) (buf : Bytes) : Type 0 where
  pub fits : len ≤ max_packet_len
  pub arp_size : (word_at ethr_type buf == 2054) ≡ true → len ≤ m
  pub other_size : (word_at ethr_type buf == 2054) ≡ false → m ≤ len

byte_at-put :
    (at : ℕ) (frame buf : Bytes)
    → at < length frame
    → length frame ≤ length buf
    → byte_at at (put 0 frame buf) ≡ byte_at at frame
unfolding put
byte_at-put at [] buf h le = absurd (omega (arith, h))
byte_at-put at (x ∷ frame) [] h le = absurd (omega (arith, le))
byte_at-put zero (x ∷ frame) (c ∷ buf) h le = refl
byte_at-put (suc at) (x ∷ frame) (c ∷ buf) h le =
    byte_at-put at frame buf (omega (arith, h)) (omega (arith, le))

pub Sized-put :
    (m : ℕ) (frame buf : Bytes)
    → 34 ≤ length frame
    → length frame ≤ length buf
    → Sized m (length frame) frame
    → Sized m (length frame) (put 0 frame buf)
Sized-put m frame buf long le s =
    let same : (word_at ethr_type (put 0 frame buf) == 2054) ≡ (word_at ethr_type frame == 2054) =
      ap₂ (λ a b. 2 ^ 8 * a + b == 2054) (byte_at-put 12 frame buf (omega (arith, long)) le)
        (byte_at-put 13 frame buf (omega (arith, long)) le) in
    record {
      fits = s.fits;
      arp_size = λ e. s.arp_size (sym same ∙ e);
      other_size = λ e. s.other_size (sym same ∙ e);
    }

-- Frames that hold the Ethernet and the IP header at least, and fit in the buffer: ARP frames are at
-- most m bytes long, and others at least.
abbrev pub Fit : ℕ → List (ℕ × Bytes) → Type 0
Fit m = All (λ f. (34 ≤ length f.1) × Sized m (length f.1) f.1)
