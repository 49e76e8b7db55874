-- ===== src/Router/Loop/Safe.antt =====
-- Every frame is handled without an access that C leaves undefined, and keeps the loop's state good.
use teme_pcom.Prelude.{Bytes, [], arith, ℕ, ◌-◌, ◌∙◌, ◌∷◌, ◌≡◌, ◌≤◌}
use teme_pcom.Router.Checksum.{checksum, word_bytes}
use teme_pcom.Router.Frame.{slice, put, byte_at, ip_hdr, ttl, ip_checksum}
use teme_pcom.Router.Frame.Slices.{slice-put_behind}
use teme_pcom.Router.Icmp.{renew_checksum}
use teme_pcom.Router.Loop.{Router, decrement_ttl}
use teme_pcom.Router.Loop.Sized.{Sized}

-- The bytes behind the checksum stay.
pub slice-decrement_ttl :
    (p n : ℕ) (frame : Bytes) → 26 ≤ p → slice p n (decrement_ttl frame) ≡ slice p n frame
unfolding decrement_ttl renew_checksum
slice-decrement_ttl p n frame h =
    let less = put ttl ((byte_at ttl frame - 1) ∷ []) frame in
    let zeroed = put ip_checksum (0 ∷ 0 ∷ []) less in
    slice-put_behind p n ip_checksum (word_bytes (checksum 0 (slice ip_hdr 20 zeroed))) zeroed
      (omega (arith, h))
    ∙ slice-put_behind p n ip_checksum (0 ∷ 0 ∷ []) less (omega (arith, h))
    ∙ slice-put_behind p n ttl ((byte_at ttl frame - 1) ∷ []) frame (omega (arith, h))
