-- ===== src/Router/Frame/Slices.antt =====
-- What is read behind a write.
use teme_pcom.Prelude.{
  take, Bytes, [], ap, arith, length, refl, suc, zero, ℕ, ◌++◌, ◌+◌, ◌∷◌, ◌≡◌, ◌≤◌,
}
use teme_pcom.Router.Frame.{slice, put}

pub length-put : (at : ℕ) (bytes frame : Bytes) → length (put at bytes frame) ≡ length frame
unfolding put
length-put at bytes [] = refl
length-put zero [] (c ∷ frame) = refl
length-put zero (x ∷ bytes) (c ∷ frame) = ap suc (length-put zero bytes frame)
length-put (suc at) bytes (c ∷ frame) = ap suc (length-put at bytes frame)

-- The bytes that were written.
pub slice-put :
    (at : ℕ) (bytes frame : Bytes)
    → at + length bytes ≤ length frame
    → slice at (length bytes) (put at bytes frame) ≡ bytes
unfolding slice put
slice-put zero [] [] h = refl
slice-put zero [] (c ∷ frame) h = refl
slice-put zero (x ∷ bytes) [] h = absurd (omega (arith, h))
slice-put zero (x ∷ bytes) (c ∷ frame) h =
    ap (◌∷◌ x) (slice-put zero bytes frame (omega (arith, h)))
slice-put (suc at) [] [] h = refl
slice-put (suc at) (x ∷ bytes) [] h = absurd (omega (arith, h))
slice-put (suc at) bytes (c ∷ frame) h = slice-put at bytes frame (omega (arith, h))

-- Bytes in front of those that were written, and behind them.
pub slice-put_before :
    (p n at : ℕ) (bytes frame : Bytes)
    → p + n ≤ at
    → slice p n (put at bytes frame) ≡ slice p n frame
unfolding slice put
slice-put_before p n at bytes [] h = refl
slice-put_before zero zero at bytes (c ∷ frame) h = refl
slice-put_before zero (suc n) zero bytes (c ∷ frame) h = absurd (omega (arith, h))
slice-put_before zero (suc n) (suc at) bytes (c ∷ frame) h =
    ap (◌∷◌ c) (slice-put_before zero n at bytes frame (omega (arith, h)))
slice-put_before (suc p) n zero bytes (c ∷ frame) h = absurd (omega (arith, h))
slice-put_before (suc p) n (suc at) bytes (c ∷ frame) h =
    slice-put_before p n at bytes frame (omega (arith, h))

pub slice-put_behind :
    (p n at : ℕ) (bytes frame : Bytes)
    → at + length bytes ≤ p
    → slice p n (put at bytes frame) ≡ slice p n frame
unfolding slice put
slice-put_behind p n at bytes [] h = refl
slice-put_behind p n zero [] (c ∷ frame) h = refl
slice-put_behind zero n zero (x ∷ bytes) (c ∷ frame) h = absurd (omega (arith, h))
slice-put_behind (suc p) n zero (x ∷ bytes) (c ∷ frame) h =
    slice-put_behind p n zero bytes frame (omega (arith, h))
slice-put_behind zero n (suc at) bytes (c ∷ frame) h = absurd (omega (arith, h))
slice-put_behind (suc p) n (suc at) bytes (c ∷ frame) h =
    slice-put_behind p n at bytes frame (omega (arith, h))

take_nil : (n : ℕ) → take {A = ℕ} n [] ≡ []
take_nil zero = refl
take_nil (suc n) = refl

-- A slice is its first bytes and those behind them.
pub slice-split :
    (p n m k q : ℕ) (frame : Bytes)
    → k ≡ n + m
    → q ≡ p + n
    → slice p k frame ≡ slice p n frame ++ slice q m frame
unfolding slice
slice-split zero zero m k zero frame e d = ap (λ i. take i frame) (omega (arith, e))
slice-split zero zero m k (suc q) frame e d = absurd (omega (arith, d))
slice-split zero (suc n) m zero q frame e d = absurd (omega (arith, e))
slice-split zero (suc n) m (suc k) zero frame e d = absurd (omega (arith, d))
slice-split zero (suc n) zero (suc k) (suc q) [] e d = refl
slice-split zero (suc n) (suc m) (suc k) (suc q) [] e d = refl
slice-split zero (suc n) m (suc k) (suc q) (c ∷ frame) e d =
    ap (◌∷◌ c) (slice-split zero n m k q frame (omega (arith, e)) (omega (arith, d)))
slice-split (suc p) n m k zero frame e d = absurd (omega (arith, d))
slice-split (suc p) n m k (suc q) (c ∷ frame) e d =
    slice-split p n m k q frame (omega (arith, e)) (omega (arith, d))
slice-split (suc p) n m k (suc q) [] e d = rw (take_nil k, take_nil n, take_nil m) refl

pub length-slice : (p n : ℕ) (frame : Bytes) → p + n ≤ length frame → length (slice p n frame) ≡ n
unfolding slice
length-slice zero zero frame h = refl
length-slice zero (suc n) [] h = absurd (omega (arith, h))
length-slice zero (suc n) (c ∷ frame) h = ap suc (length-slice zero n frame (omega (arith, h)))
length-slice (suc p) n [] h = absurd (omega (arith, h))
length-slice (suc p) n (c ∷ frame) h = length-slice p n frame (omega (arith, h))
