-- ===== src/LinkedList.antt =====
-- The doubly linked list of src/linked_list.c over an explicit heap of nodes. Addresses are
-- numbers, 0 is NULL. A result `none` stands for an access through NULL or to a freed node (or, in
-- `linked_list_iter`, for fuel that runs out). The address that the allocator returns is an
-- argument, 0 when it fails.
pub mod Shape
pub mod Find
pub mod Iter
pub mod Push
pub mod Remove
pub mod Kept
pub mod Unlink
pub mod Rem
mod Tests
use embedded_usbip.Prelude.{
  ℕ, zero, suc, ◌+◌, ◌-◌, ◌/◌, Bool, true, false, Option, none, some, ltb, leb, ◌==◌, if◌then◌else◌,
}

-- `node_t`.
pub record Node : Type 0 where
  pub item : ℕ
  pub next : ℕ
  pub prev : ℕ

abbrev pub Heap : Type 0
Heap = ℕ → Option Node

-- `linked_list_t`, less its two functions.
pub record LinkedList : Type 0 where
  pub size : ℕ
  pub first : ℕ
  pub last : ℕ

unfoldable pub load : Heap → ℕ → Option Node
load h p = if p == 0 then none else h p

unfoldable pub write : Heap → ℕ → Option Node → Heap
write h p c a = if a == p then c else h a

-- `p->next = v` and `p->prev = v`.
unfoldable pub set_next : Heap → ℕ → ℕ → Option Heap
unfolding write
set_next h p v = elim (load h p) [
  | none ↦ none
  | some n ↦ some (write h p (some (record n { next = v })))
]

unfoldable pub set_prev : Heap → ℕ → ℕ → Option Heap
unfolding write
set_prev h p v = elim (load h p) [
  | none ↦ none
  | some n ↦ some (write h p (some (record n { prev = v })))
]

-- False for a NULL argument; `none` is -1 with EINVAL.
unfoldable pub linked_list_init : (has_allocator has_free has_list : Bool) → Option LinkedList
linked_list_init true true true = some (record { size = 0; first = 0; last = 0 })
linked_list_init _ _ _ = none

pub data Pushed : Type 0 where
  pushed : LinkedList → Heap → Pushed
  no_memory : Pushed

-- `fresh` is the address of the new node.
unfoldable pub linked_list_push : (fresh : ℕ) → LinkedList → (item : ℕ) → Heap → Option Pushed
unfolding set_next write
linked_list_push fresh l item h =
    if fresh == 0
    then some no_memory
    else if l.size == 0
    then some (
        pushed (record { size = l.size + 1; first = fresh; last = fresh })
          (write h fresh (some (record { item = item; next = 0; prev = 0 }))))
    else elim (set_next h l.last fresh) [
      | none ↦ none
      | some g ↦ some (
          pushed (record l { size = l.size + 1; last = fresh })
            (write g fresh (some (record { item = item; next = 0; prev = l.last }))))
    ]

-- `for (; i > 0; --i) cur = direction ? cur->prev : cur->next`
unfoldable pub walk : (backward : Bool) → (i cur : ℕ) → Heap → Option ℕ
walk backward zero cur h = some cur
walk backward (suc i) cur h = elim (load h cur) [
  | none ↦ none
  | some n ↦ walk backward i (if backward then n.prev else n.next) h
]

-- The address of the node, or NULL.
unfoldable pub linked_list_find : LinkedList → (i : ℕ) → Heap → Option ℕ
unfolding walk
linked_list_find l i h =
    if ltb i l.size
    then (if leb (l.size / 2) i
        then walk true (l.size - i - 1) l.last h
        else walk false i l.first h)
    else some 0

unfoldable pub linked_list_get : LinkedList → (i : ℕ) → Heap → Option ℕ
unfolding linked_list_find
linked_list_get l i h = elim (linked_list_find l i h) [
  | none ↦ none
  | some p ↦ if p == 0 then some 0 else elim (load h p) [ none ↦ none | some n ↦ some n.item ]
]

-- The two neighbours are linked to one another.
unfoldable pub unlink : Node → Heap → Option Heap
unfolding set_next set_prev
unlink n h = elim (if n.prev == 0 then some h else set_next h n.prev n.next) [
  | none ↦ none
  | some g ↦ if n.next == 0 then some g else set_prev g n.next n.prev
]

-- The pointer that is returned, the list and the heap.
unfoldable pub linked_list_rem : LinkedList → (i : ℕ) → Heap → Option (ℕ × LinkedList × Heap)
unfolding linked_list_find unlink write
linked_list_rem l i h = elim (linked_list_find l i h) [
  | none ↦ none
  | some p ↦ if p == 0 then some (0, l, h) else elim (load h p) [
    | none ↦ none
    | some n ↦ elim (unlink n h) [
      | none ↦ none
      | some g ↦ some (
        n.item,
        (if i == l.size - 1
            then record l { last = n.prev; size = l.size - 1 }
            else if i == 0
            then record l { first = n.next; size = l.size - 1 }
            else record l { size = l.size - 1 }),
        write g p none,
      )
    ]
  ]
]

-- What a callback may change: the list, the heap, and its context.
pub record World (C : Type 0) : Type 0 where
  pub list : LinkedList
  pub heap : Heap
  pub ctx : C

-- `true` stands for the result -1: the current object was invalidated.
abbrev pub Callback : Type 0 → Type 0
Callback C = (item i : ℕ) → World C → Option (Bool × World C)

module _ {C : Type 0} where
  -- The node to go on with, after the callback.
  unfoldable pub advance : Bool → (i cur last : ℕ) → World C → Option ℕ
  advance false i cur last w = elim (load w.heap cur) [ none ↦ none | some n ↦ some n.next ]
  advance true i cur last w =
      if i == 0
      then some w.list.first
      else if i == 1
      then elim (load w.heap w.list.first) [ none ↦ none | some n ↦ some n.next ]
      else elim (load w.heap last) [ none ↦ none | some n ↦ some n.next ]

  -- `if (cur != NULL) last = cur->prev;`
  unfoldable pub next_last : (cur last : ℕ) → World C → Option ℕ
  next_last cur last w =
      if cur == 0 then some last else elim (load w.heap cur) [ none ↦ none | some n ↦ some n.prev ]

  unfoldable pub iter_from : (fuel : ℕ) → Callback C → (i cur last : ℕ) → World C → Option (World C)
  unfolding advance next_last
  iter_from zero cb i cur last w = none
  iter_from (suc fuel) cb i cur last w = elim (ltb i w.list.size) [
    | false ↦ some w
    | true ↦ elim (load w.heap cur) [
      | none ↦ none
      | some n ↦ elim (cb n.item i w) [
        | none ↦ none
        | some (invalid, w') ↦ elim (advance invalid i cur last w') [
          | none ↦ none
          | some c ↦ elim (next_last c last w') [
            | none ↦ none
            | some p ↦ iter_from fuel cb (i + 1) c p w'
          ]
        ]
      ]
    ]
  ]

  unfoldable pub linked_list_iter : (fuel : ℕ) → Callback C → World C → Option (World C)
  unfolding iter_from
  linked_list_iter fuel cb w = iter_from fuel cb 0 w.list.first 0 w
