-- ===== src/Router/Queue.antt =====
-- Tema_1/lib/queue.c and list.c: the queue as a linked list with a pointer to its last cell, on a
-- heap of cells. `none` is a fault: a failed assert, or an access through NULL or a freed cell.
pub mod Refines
use teme_pcom.Prelude.{Bool, Option, false, if◌then◌else◌, none, some, true, ℕ, ◌==◌}

-- struct cell; `next` is NULL at `none`.
pub record Cell : Type 0 where
  pub element : ℕ
  pub next : Option ℕ

-- The heap: the cells by address.
abbrev pub Cells : Type 0
Cells = ℕ → Option Cell

-- struct queue
pub record Queue : Type 0 where
  pub head : Option ℕ
  pub tail : Option ℕ

abbrev pub write : Cells → ℕ → Option Cell → Cells
write cells a v b = if b == a then v else cells b

-- constr, at the address a that malloc returns: a new cell in front of a list.
unfoldable pub constr : ℕ → ℕ → Option ℕ → Cells → Cells
constr a element l cells = write cells a (some (record { element = element; next = l }))

-- cdr_and_free
unfoldable pub cdr_and_free : ℕ → Cells → Option (Option ℕ × Cells)
cdr_and_free l cells = elim (cells l) [ none ↦ none | some c ↦ some (c.next, write cells l none) ]

unfoldable pub create_queue : Queue
create_queue = record { head = none; tail = none }

unfoldable pub queue_empty : Queue → Bool
queue_empty q = elim q.head [ none ↦ true | some a ↦ false ]

-- q->tail->next = constr (element, NULL); q->tail = q->tail->next;
unfoldable pub append_cell : ℕ → Queue → ℕ → Option ℕ → Cells → Option (Queue × Cells)
append_cell a q element none cells = none
append_cell a q element (some t) cells = elim (constr a element none cells t) [
  | none ↦ none
  | some c ↦ some (
    record q { tail = some a },
    write (constr a element none cells) t (some (record c { next = some a })),
  )
]

-- a is the address that malloc returns.
unfoldable pub queue_enq : ℕ → Queue → ℕ → Cells → Option (Queue × Cells)
queue_enq a q element cells =
    if queue_empty q
    then some (record { head = some a; tail = some a }, constr a element none cells)
    else append_cell a q element q.tail cells

-- The assert, then the element of the first cell, which is freed. The tail is not touched.
unfoldable pub queue_deq : Queue → Cells → Option (ℕ × Queue × Cells)
queue_deq q cells = elim q.head [
  | none ↦ none
  | some a ↦ elim (cells a) [
    | none ↦ none
    | some c ↦ elim (cdr_and_free a cells) [
      | none ↦ none
      | some (next, cells') ↦ some (c.element, record q { head = next }, cells')
    ]
  ]
]
