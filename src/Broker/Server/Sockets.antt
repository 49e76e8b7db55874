-- ===== src/Broker/Server/Sockets.antt =====
-- The sockets that are polled.
use teme_pcom.Prelude.{
  List, [], arith, count, get_elem?, if◌then◌else◌, some, suc, zero, ℕ, ◌++◌, ◌+◌, ◌<◌, ◌==◌, ◌∷◌,
  ◌≡◌,
}
use teme_pcom.Broker.Server.{PollFd, remove_at}

abbrev pub slot_fds : List PollFd → List ℕ
slot_fds [] = []
slot_fds (p ∷ ps) = p.fd ∷ slot_fds ps

pub count-remove_at :
    (a i : ℕ) (ps : List PollFd) (p : PollFd)
    → get_elem? ps i ≡ some p
    → count a (slot_fds (remove_at i ps)) + (if a == p.fd then 1 else 0) ≡ count a (slot_fds ps)
unfolding remove_at
count-remove_at a i [] p at = cc
count-remove_at a zero (q ∷ ps) p at = let e : q ≡ p = ground arith in rw e (omega arith)
count-remove_at a (suc i) (q ∷ ps) p at = omega (arith, count-remove_at a i ps p at)

pub count-snoc_slot :
    (a : ℕ) (ps : List PollFd) (p : PollFd)
    → count a (slot_fds (ps ++ p ∷ [])) ≡ count a (slot_fds ps) + (if a == p.fd then 1 else 0)
count-snoc_slot a [] p = omega arith
count-snoc_slot a (q ∷ ps) p = omega (arith, count-snoc_slot a ps p)

pub count-at :
    (ps : List PollFd) (i : ℕ) (p : PollFd) → get_elem? ps i ≡ some p → 0 < count p.fd (slot_fds ps)
count-at [] i p at = cc
count-at (q ∷ ps) zero p at = let e : q ≡ p = ground arith in rw e (ground arith)
count-at (q ∷ ps) (suc i) p at = omega (arith, count-at ps i p at)
