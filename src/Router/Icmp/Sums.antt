-- ===== src/Router/Icmp/Sums.antt =====
-- The checksums that the router writes.
use teme_pcom.Prelude.{
  Bytes, [], ap, ap₂, arith, length, refl, suc, zero, ℕ, ◌%◌, ◌++◌, ◌+◌, ◌/◌, ◌<◌, ◌^◌, ◌∙◌, ◌∷◌,
  ◌≡◌, ◌≤◌,
}
use teme_pcom.Router.Checksum.{checksum, word_bytes, AreBytes, checksum-verifies}
use teme_pcom.Router.Frame.{slice, put, address_bytes}
use teme_pcom.Router.Frame.Slices.{
  length-put, slice-put, slice-put_before, slice-put_behind, slice-split, length-slice,
}
use teme_pcom.Router.Icmp.{renew_checksum}

pub put-AreBytes :
    (at : ℕ) (bytes frame : Bytes) → AreBytes bytes → AreBytes frame → AreBytes (put at bytes frame)
unfolding put
put-AreBytes at bytes [] hb h = tt
put-AreBytes zero [] (c ∷ frame) hb h = h
put-AreBytes zero (x ∷ bytes) (c ∷ frame) hb h = (hb.0, put-AreBytes zero bytes frame hb.1 h.1)
put-AreBytes (suc at) bytes (c ∷ frame) hb h = (h.0, put-AreBytes at bytes frame hb h.1)

pub slice-AreBytes : (p n : ℕ) (frame : Bytes) → AreBytes frame → AreBytes (slice p n frame)
unfolding slice
slice-AreBytes zero zero frame h = tt
slice-AreBytes zero (suc n) [] h = tt
slice-AreBytes zero (suc n) (c ∷ frame) h = (h.0, slice-AreBytes zero n frame h.1)
slice-AreBytes (suc p) zero [] h = tt
slice-AreBytes (suc p) (suc n) [] h = tt
slice-AreBytes (suc p) n (c ∷ frame) h = slice-AreBytes p n frame h.1

pub word_bytes-AreBytes :
    (stale : ℕ) (data_bytes : Bytes) → AreBytes (word_bytes (checksum stale data_bytes))
unfolding checksum
word_bytes-AreBytes stale data_bytes = (omega arith, (omega arith, tt))

pub renew_checksum-AreBytes :
    (start n at : ℕ) (frame : Bytes) → AreBytes frame → AreBytes (renew_checksum start n at frame)
unfolding renew_checksum
renew_checksum-AreBytes start n at frame h =
    put-AreBytes at _ _ (word_bytes-AreBytes 0 _)
      (put-AreBytes at (0 ∷ 0 ∷ []) frame (omega arith, (omega arith, tt)) h)

pub address_bytes-AreBytes : (a : ℕ) → a < 2 ^ 32 → AreBytes (address_bytes a)
address_bytes-AreBytes a h = (omega (arith, h), (omega arith, (omega arith, (omega arith, tt))))

-- A slice of the frame around the two bytes of a word that was written.
slice-put_word :
    (start a c n at hi lo : ℕ) (frame : Bytes)
    → n ≡ a + (2 + c)
    → at ≡ start + a
    → start + n ≤ length frame
    → slice start n (put at (hi ∷ lo ∷ []) frame)
      ≡ slice start a frame ++ (hi ∷ lo ∷ slice (at + 2) c frame)
slice-put_word start a c n at hi lo frame e d fits =
    let w : Bytes = hi ∷ lo ∷ [] in
    slice-split start a (2 + c) n at (put at w frame) e d
    ∙ ap₂ (λ x y. x ++ y) (slice-put_before start a at w frame (omega (arith, d)))
        (slice-split at 2 c (2 + c) (at + 2) (put at w frame) refl refl
          ∙ ap₂ (λ x y. x ++ y) (slice-put at w frame (omega (arith, e, d, fits)))
              (slice-put_behind (at + 2) c at w frame (omega arith)))

-- Behind it the checksum of those bytes is right: a receiver that sums them up gets 0.
pub renew_checksum-verifies :
    (start a c n at : ℕ) (frame : Bytes)
    → n ≡ a + (2 + c)
    → at ≡ start + a
    → a % 2 ≡ 0
    → c % 2 ≡ 0
    → n ≤ 65534
    → start + n ≤ length frame
    → AreBytes frame
    → checksum 0 (slice start n (renew_checksum start n at frame)) ≡ 0
unfolding renew_checksum
renew_checksum-verifies start a c n at frame e d even_a even_c small fits bytes =
    let before = slice start a frame in
    let behind = slice (at + 2) c frame in
    let zeroed = put at (0 ∷ 0 ∷ []) frame in
    let sum = checksum 0 (slice start n zeroed) in
    let la = length-slice start a frame (omega (arith, e, fits)) in
    let lc = length-slice (at + 2) c frame (omega (arith, e, d, fits)) in
    let zero_word : slice start n zeroed ≡ before ++ 0 ∷ 0 ∷ behind =
      slice-put_word start a c n at 0 0 frame e d fits in
    let filled : slice start n (put at (word_bytes sum) zeroed)
        ≡ before ++ (word_bytes sum ++ behind) =
      slice-put_word start a c n at (sum / 2 ^ 8) (sum % 2 ^ 8) zeroed e d
        (omega (arith, fits, length-put at (0 ∷ 0 ∷ []) frame))
      ∙ ap₂ (λ x y. x ++ (word_bytes sum ++ y))
          (slice-put_before start a at (0 ∷ 0 ∷ []) frame (omega (arith, d)))
          (slice-put_behind (at + 2) c at (0 ∷ 0 ∷ []) frame (omega arith)) in
    ap (checksum 0) (filled ∙ ap (λ z. before ++ (word_bytes (checksum 0 z) ++ behind)) zero_word)
    ∙ checksum-verifies 0 before behind (omega (arith, la, even_a)) (omega (arith, lc, even_c))
        (slice-AreBytes start a frame bytes) (slice-AreBytes (at + 2) c frame bytes)
        (omega (arith, la, lc, e, small))
