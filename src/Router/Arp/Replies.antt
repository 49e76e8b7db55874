-- ===== src/Router/Arp/Replies.antt =====
-- Which of the packets that wait are sent when an ARP reply comes in.
use teme_pcom.Prelude.{
  ◌≤◌, false, ltb, append_assoc, ◌∙◌, sym, subst, refl, arith, Bool-cases, inr, append-nil, inl,
  ◌-◌, Option-cases, ◌≡◌, ◌++◌, ◌+◌, length, All, Bytes, List, [], if◌then◌else◌, none, not, some,
  ℕ, ◌==◌, ◌∷◌, ◌≢◌,
}
use teme_pcom.Router.Frame.{address_at, dest_addr}
use teme_pcom.Router.Trie.{Trie, get_best_route}
use teme_pcom.Router.Arp.{Released, release_one, release, Bytes, SentFrame, to_frame}

module _ (interface_mac : ℕ → Bytes) (len : ℕ) (root : Trie) (ip : ℕ) (mac : Bytes) where
  -- The packets whose next hop is not the one that has answered, and the frames of the others.
  abbrev pub kept : List Bytes → List Bytes
  kept [] = []
  kept (p ∷ ps) = elim (get_best_route root (address_at dest_addr p)) [
    | none ↦ kept ps
    | some best ↦ if not (best.next_hop == ip) then p ∷ kept ps else kept ps
  ]

  abbrev pub frames : List Bytes → List SentFrame
  frames [] = []
  frames (p ∷ ps) = elim (get_best_route root (address_at dest_addr p)) [
    | none ↦ frames ps
    | some best ↦
        if not (best.next_hop == ip)
        then frames ps
        else to_frame interface_mac len mac best p ∷ frames ps
  ]

-- Every packet has m bytes at least, and a route.
abbrev pub HaveRoutes : Trie → ℕ → List Bytes → Type 0
HaveRoutes root m =
    All (λ p. (ltb (length p) m ≡ false) × (get_best_route root (address_at dest_addr p) ≢ none))

abbrev pub state : List Bytes → List SentFrame → ℕ → Released
state queued sent n = record { queued = queued; sent = sent; queue_len = n }

same_released :
    {q q' : List Bytes} {s s' : List SentFrame} {n n' : ℕ}
    → q ≡ q'
    → s ≡ s'
    → n ≡ n'
    → some (state q s n) ≡ some (state q' s' n')
same_released a b c = rw (a, b, c) refl

long_enough : (l k m : ℕ) → ltb l m ≡ false → k ≤ m → ltb l k ≡ false
long_enough l k m h le = ground arith

module _ (m : ℕ) (interface_mac : ℕ → Bytes) (len : ℕ) (root : Trie) (ip : ℕ) (mac : Bytes) where
  length-kept :
      (ps : List Bytes)
      → HaveRoutes root m ps
      → length (kept interface_mac len root ip mac ps)
          + length (frames interface_mac len root ip mac ps)
        ≡ length ps
  length-kept [] h = refl
  length-kept (p ∷ ps) h = elim (Option-cases (get_best_route root (address_at dest_addr p))) [
    | inl e ↦ absurd (h.0.1 e)
    | inr (best, e) ↦ elim (Bool-cases (best.next_hop == ip)) [
      | inl t ↦ rw (kept, frames, e, t) (omega (arith, length-kept ps h.1))
      | inr f ↦ rw (kept, frames, e, f) (omega (arith, length-kept ps h.1))
    ]
  ]

  release-append :
      (ps back : List Bytes) (sent : List SentFrame) (n : ℕ)
      → 34 ≤ m
      → len ≤ m
      → HaveRoutes root m ps
      → release interface_mac len root ip mac (length ps) (state (ps ++ back) sent n)
        ≡ some (
            state
              (back ++ kept interface_mac len root ip mac ps)
              (sent ++ frames interface_mac len root ip mac ps)
              (n - length (frames interface_mac len root ip mac ps)))
  unfolding release release_one
  release-append [] back sent n lo hi h =
      same_released (sym (append-nil back)) (sym (append-nil sent)) (omega arith)
  release-append (p ∷ ps) back sent n lo hi h =
      let head = long_enough (length p) 34 m h.0.0 lo in
      let all = long_enough (length p) len m h.0.0 hi in
      elim (Option-cases (get_best_route root (address_at dest_addr p))) [
        | inl e ↦ absurd (h.0.1 e)
        | inr (best, e) ↦ elim (Bool-cases (best.next_hop == ip)) [
          | inl t ↦
              let f : SentFrame = to_frame interface_mac len mac best p in
              let ih = release-append ps back (sent ++ f ∷ []) (n - 1) lo hi h.1 in
              rw (release, release_one, kept, frames, head, e, t, all)
                (ih
                  ∙ same_released refl
                      (append_assoc sent (f ∷ []) (frames interface_mac len root ip mac ps))
                      (omega arith))
          | inr f ↦
              let ih = release-append ps (back ++ p ∷ []) sent n lo hi h.1 in
              rw (release, release_one, kept, frames, head, e, f, append_assoc ps back (p ∷ []))
                (ih
                  ∙ same_released
                      (append_assoc back (p ∷ []) (kept interface_mac len root ip mac ps)) refl
                      refl)
        ]
      ]

  -- Where every packet that waits has a route and is as long as the ARP reply, the reply takes those off the queue whose next hop
  -- it is from, and sends each of them once, by the interface of its route and in the order of the
  -- queue; the others stay in their order, and queue_len is their number.
  pub release-frames :
      (queue : List Bytes) (sent : List SentFrame)
      → 34 ≤ m
      → len ≤ m
      → HaveRoutes root m queue
      → release interface_mac len root ip mac (length queue) (state queue sent (length queue))
        ≡ some (
            state
              (kept interface_mac len root ip mac queue)
              (sent ++ frames interface_mac len root ip mac queue)
              (length (kept interface_mac len root ip mac queue)))
  release-frames queue sent lo hi h =
      let all = release-append queue [] sent (length queue) lo hi h in
      let number = length-kept queue h in
      subst
        (λ q.
          release interface_mac len root ip mac (length queue) (state q sent (length queue))
          ≡ some (
              state (kept interface_mac len root ip mac queue)
                (sent ++ frames interface_mac len root ip mac queue)
                (length (kept interface_mac len root ip mac queue))))
        (append-nil queue) (all ∙ same_released refl refl (omega arith))

  pub kept-HaveRoutes :
      (queue : List Bytes)
      → HaveRoutes root m queue
      → HaveRoutes root m (kept interface_mac len root ip mac queue)
  kept-HaveRoutes [] h = tt
  kept-HaveRoutes (p ∷ ps) h = elim (Option-cases (get_best_route root (address_at dest_addr p))) [
    | inl e ↦ absurd (h.0.1 e)
    | inr (best, e) ↦ elim (Bool-cases (best.next_hop == ip)) [
      | inl t ↦ rw (kept, e, t) (kept-HaveRoutes ps h.1)
      | inr f ↦ rw (kept, e, f) (h.0, kept-HaveRoutes ps h.1)
    ]
  ]
