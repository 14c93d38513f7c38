-- ===== src/LinkedList/Remove.antt =====
-- `linked_list_rem` of the only node, and a callback that does it during an iteration.
use embedded_usbip.Prelude.{ℕ, suc, ◌≡◌, true, none, some, [], ◌∷◌, arith}
use embedded_usbip.LinkedList.{
  Heap, LinkedList, World, Callback, load, write, linked_list_rem, unlink, linked_list_iter,
}
use embedded_usbip.LinkedList.Shape.{IsList}
use embedded_usbip.LinkedList.Find.{find_lem}

module _ {h : Heap} {l : LinkedList} (a d : ℕ) (is : IsList h l ((a, d) ∷ [])) where
  -- Removing the only node returns its item, frees it and sets the size to 0; `first` keeps the
  -- address of the freed node.
  pub rem_only : linked_list_rem l 0 h ≡ some (d, record l { last = 0; size = 0 }, write h a none)
  unfolding linked_list_rem load unlink
  rem_only = ground (arith, find_lem is 0, is.size, is.linked.0, is.linked.1)

  after-first : l.first ≡ a
  after-first = is.first (omega (arith, is.size))

-- The callback that removes the object which it is called for, as `client_stop` does, and returns
-- -1.
pub removing : Callback (Unit {0})
removing item i w = elim (linked_list_rem w.list i w.heap) [
  | none ↦ none
  | some (x, l, h) ↦ some (true, record w { list = l; heap = h })
]

-- When the callback removes the only node of a list, `linked_list_iter` reads the node after it
-- has been freed.
pub iter_removing_only_faults :
    {w : World (Unit {0})} (a d fuel : ℕ)
    → IsList w.heap w.list ((a, d) ∷ [])
    → linked_list_iter (suc (suc fuel)) removing w ≡ none
unfolding linked_list_iter removing load write
iter_removing_only_faults {w} a d fuel is =
    ground (arith, rem_only a d is, is.size, is.linked.0, is.linked.1, is.first)
