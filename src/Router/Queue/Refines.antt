-- ===== src/Router/Queue/Refines.antt =====
-- The linked queue as a first-in first-out list.
use teme_pcom.Prelude.{
  inr, true, inl, false, All, List, Option, [], ap, arith, none, refl, some, sym, ℕ, ◌++◌, ◌∙◌, ◌∷◌,
  ◌≡◌, ◌≢◌, ◌⊎◌,
}
use teme_pcom.Router.Queue.{
  constr, append_cell, cdr_and_free, queue_empty, queue_deq, create_queue, queue_enq, write, Queue,
  Cell, Cells,
}

-- The cells of the queue: their addresses and elements, first to last.
abbrev pub Items : Type 0
Items = List (ℕ × ℕ)

abbrev pub first : Items → Option ℕ
first [] = none
first ((a, x) ∷ ps) = some a

abbrev pub last : Items → Option ℕ
last [] = none
last ((a, x) ∷ []) = some a
last (p ∷ r ∷ ps) = last (r ∷ ps)

abbrev pub elements : Items → List ℕ
elements [] = []
elements ((a, x) ∷ ps) = x ∷ elements ps

-- Every cell holds its element and points to the next one, and no address occurs twice.
abbrev pub IsChain : Cells → Items → Type 0
IsChain cells [] = Unit {0}
IsChain cells ((a, x) ∷ ps) =
    (cells a ≡ some (record { element = x; next = first ps }))
    × All (λ p. p.0 ≢ a) ps
    × IsChain cells ps

-- The queue stands for the items. The tail of an empty queue may dangle.
pub record Holds (q : Queue) (cells : Cells) (ps : Items) : Type 0 where
  pub chain : IsChain cells ps
  pub at_head : q.head ≡ first ps
  pub at_tail : (ps ≡ []) ⊎ (q.tail ≡ last ps)

-- A write to a cell that is not on the chain.
IsChain-write :
    (cells : Cells) (a : ℕ) (v : Option Cell) (ps : Items)
    → All (λ p. p.0 ≢ a) ps
    → IsChain cells ps
    → IsChain (write cells a v) ps
IsChain-write cells a v [] ne h = tt
IsChain-write cells a v ((b, x) ∷ ps) ne h =
    (ground arith, h.1, IsChain-write cells a v ps ne.1 h.2)

-- A free cell is not on the chain.
chain-free :
    (cells : Cells) (a : ℕ) (ps : Items) → cells a ≡ none → IsChain cells ps → All (λ p. p.0 ≢ a) ps
chain-free cells a [] free h = tt
chain-free cells a ((b, x) ∷ ps) free h =
    (λ e. absurd (some≢none (sym h.0 ∙ ap cells e ∙ free)), chain-free cells a ps free h.2)
  where
    some≢none : {c : Cell} → some c ≢ none
    some≢none e = cc

-- The last cell is there, and ends the chain.
chain-last :
    (cells : Cells) (p : ℕ × ℕ) (ps : Items)
    → IsChain cells (p ∷ ps)
    → (t : ℕ) × (x : ℕ) × (last (p ∷ ps) ≡ some t)
      × (cells t ≡ some (record { element = x; next = none }))
chain-last cells (a, x) [] h = (a, x, refl, h.0)
chain-last cells (a, x) (r ∷ ps) h = chain-last cells r ps h.2

All-snoc_ne :
    (a b x : ℕ) (ps : Items)
    → All (λ p. p.0 ≢ b) ps
    → a ≢ b
    → All (λ p. p.0 ≢ b) (ps ++ (a, x) ∷ [])
All-snoc_ne a b x [] h ne = (ne, tt)
All-snoc_ne a b x (p ∷ ps) h ne = (h.0, All-snoc_ne a b x ps h.1 ne)

last-snoc : (a x : ℕ) (ps : Items) → last (ps ++ (a, x) ∷ []) ≡ some a
last-snoc a x [] = refl
last-snoc a x (p ∷ []) = refl
last-snoc a x (p ∷ r ∷ ps) = last-snoc a x (r ∷ ps)

last-ne : (t b : ℕ) (ps : Items) → All (λ p. p.0 ≢ b) ps → last ps ≡ some t → t ≢ b
last-ne t b [] h e = absurd (cc)
last-ne t b ((a, x) ∷ []) h e = λ q. h.0 (let a≡t : a ≡ t = ground arith in a≡t ∙ q)
last-ne t b (p ∷ r ∷ ps) h e = last-ne t b (r ∷ ps) h.1 e

-- A new last cell: the old last cell gets its address.
abbrev linked : Cells → ℕ → ℕ → ℕ → ℕ → Cells
linked cells a x t y =
    write (write cells a (some (record { element = x; next = none }))) t
      (some (record { element = y; next = some a }))

IsChain-snoc :
    (cells : Cells) (a x t y b z : ℕ) (ps : Items)
    → IsChain cells ((b, z) ∷ ps)
    → All (λ r. r.0 ≢ a) ((b, z) ∷ ps)
    → last ((b, z) ∷ ps) ≡ some t
    → cells t ≡ some (record { element = y; next = none })
    → IsChain (linked cells a x t y) (((b, z) ∷ ps) ++ (a, x) ∷ [])
IsChain-snoc cells a x t y b z [] h free at_t cell_t =
    let b≡t : b ≡ t = ground arith in
    let same : some (record { element = z; next = none })
        ≡ some (record { element = y; next = none }) =
      sym h.0 ∙ ap cells b≡t ∙ cell_t in
    let ne : b ≢ a = free.0 in (ground arith, (λ e. ne (sym e), tt), (ground arith, tt, tt))
IsChain-snoc cells a x t y b z ((d, w) ∷ ps) h free at_t cell_t =
    let b≢a : b ≢ a = free.0 in
    let t≢b : t ≢ b = last-ne t b ((d, w) ∷ ps) h.1 at_t in
    let here = h.0 in
    (
      ground arith,
      All-snoc_ne a b x ((d, w) ∷ ps) h.1 (λ e. b≢a (sym e)),
      IsChain-snoc cells a x t y d w ps h.2 free.1 at_t cell_t,
    )

queue_empty-some : (q : Queue) (a : ℕ) → q.head ≡ some a → queue_empty q ≡ false
unfolding queue_empty
queue_empty-some q a h = ground arith

queue_empty-none : (q : Queue) → q.head ≡ none → queue_empty q ≡ true
unfolding queue_empty
queue_empty-none q h = ground arith

nil_ne_cons : {p : ℕ × ℕ} {ps : Items} → p ∷ ps ≢ []
nil_ne_cons e = cc

enq-cons :
    (a x b z : ℕ) (q : Queue) (cells : Cells) (ps : Items)
    → Holds q cells ((b, z) ∷ ps)
    → cells a ≡ none
    → (q' : Queue) × (cells' : Cells) × (queue_enq a q x cells ≡ some (q', cells'))
      × Holds q' cells' (((b, z) ∷ ps) ++ (a, x) ∷ [])
unfolding queue_enq append_cell constr
enq-cons a x b z q cells ps v free =
    let (t, y, at_t, cell_t) = chain-last cells (b, z) ps v.chain in
    let off = chain-free cells a ((b, z) ∷ ps) free v.chain in
    let t≢a : t ≢ a = last-ne t a ((b, z) ∷ ps) off at_t in
    let tail : q.tail ≡ some t = elim v.at_tail [
      | inl e ↦ absurd (nil_ne_cons e)
      | inr e ↦ e ∙ at_t
    ] in
    let busy = queue_empty-some q b v.at_head in
    (
      record q { tail = some a },
      linked cells a x t y,
      ground arith,
      record {
        chain = IsChain-snoc cells a x t y b z ps v.chain off at_t cell_t;
        at_head = v.at_head;
        at_tail = inr (sym (last-snoc a x ((b, z) ∷ ps)));
      },
    )

-- On an address that is free queue_enq puts the element behind the others, and does not fault.
pub queue_enq-Holds :
    (a x : ℕ) (q : Queue) (cells : Cells) (ps : Items)
    → Holds q cells ps
    → cells a ≡ none
    → (q' : Queue) × (cells' : Cells) × (queue_enq a q x cells ≡ some (q', cells'))
      × Holds q' cells' (ps ++ (a, x) ∷ [])
unfolding queue_enq constr
queue_enq-Holds a x q cells [] v free =
    let empty = queue_empty-none q v.at_head in
    (
      record { head = some a; tail = some a },
      constr a x none cells,
      ground arith,
      record { chain = (ground arith, tt, tt); at_head = refl; at_tail = inr refl },
    )
queue_enq-Holds a x q cells ((b, z) ∷ ps) v free = enq-cons a x b z q cells ps v free

-- queue_deq returns the first element of a queue that has one, keeps the others in order, and
-- frees its cell.
pub queue_deq-Holds :
    (q : Queue) (cells : Cells) (a x : ℕ) (ps : Items)
    → Holds q cells ((a, x) ∷ ps)
    → (q' : Queue) × (cells' : Cells) × (queue_deq q cells ≡ some (x, q', cells'))
      × Holds q' cells' ps
      × (cells' a ≡ none)
unfolding queue_deq cdr_and_free
queue_deq-Holds q cells a x ps v =
    let here = v.chain.0 in
    let start = v.at_head in
    (
      record q { head = first ps },
      write cells a none,
      ground arith,
      record {
        chain = IsChain-write cells a none ps v.chain.1 v.chain.2;
        at_head = refl;
        at_tail = tails ps v.at_tail;
      },
      ground arith,
    )
  where
    tails :
        (ps : Items)
        → ((a, x) ∷ ps ≡ []) ⊎ (q.tail ≡ last ((a, x) ∷ ps))
        → (ps ≡ []) ⊎ (q.tail ≡ last ps)
    tails [] h = inl refl
    tails (p ∷ ps) (inl e) = absurd (nil_ne_cons e)
    tails (p ∷ ps) (inr e) = inr e

pub queue_deq-empty : (q : Queue) (cells : Cells) → Holds q cells [] → queue_deq q cells ≡ none
unfolding queue_deq
queue_deq-empty q cells v = let start = v.at_head in ground arith

pub create_queue-Holds : (cells : Cells) → Holds create_queue cells []
unfolding create_queue
create_queue-Holds cells = record { chain = tt; at_head = refl; at_tail = inl refl }
