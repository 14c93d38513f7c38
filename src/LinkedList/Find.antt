-- ===== src/LinkedList/Find.antt =====
-- `linked_list_find` and `linked_list_get` reach each index, from the nearer end.
use embedded_usbip.Prelude.{
  ℕ, zero, suc, ◌+◌, ◌-◌, ◌<◌, ◌≡◌, ap, true, false, some, arith, length, ltb, lt-or-le, inl, inr,
  if◌then◌else◌,
}
use embedded_usbip.LinkedList.{Heap, LinkedList, walk, linked_list_find, linked_list_get}
use embedded_usbip.LinkedList.Shape.{
  Cells, addr_at, item_at, Linked, IsList, node_at, addr_at-ne-null,
}

module _ (h : Heap) (xs : Cells) (l : Linked h 0 xs) where
  walk_forward :
      (k i j : ℕ) → i + k ≡ j → j < length xs → walk false k (addr_at xs i) h ≡ some (addr_at xs j)
  unfolding walk
  walk_forward zero i j e lt = ap (λ n. some (addr_at xs n)) (omega arith)
  walk_forward (suc k) i j e lt =
      ground (arith, node_at h 0 xs i l (omega arith), walk_forward k (suc i) j)

  walk_backward :
      (k i j : ℕ) → j + k ≡ i → i < length xs → walk true k (addr_at xs i) h ≡ some (addr_at xs j)
  unfolding walk
  walk_backward zero i j e lt = ap (λ n. some (addr_at xs n)) (omega arith)
  walk_backward (suc k) zero j e lt = absurd (omega arith)
  walk_backward (suc k) (suc i) j e lt =
      ground (arith, node_at h 0 xs (suc i) l lt, walk_backward k i j)

module _ {h : Heap} {l : LinkedList} {xs : Cells} (is : IsList h l xs) where
  pub find_lem : (i : ℕ) → i < length xs → linked_list_find l i h ≡ some (addr_at xs i)
  unfolding linked_list_find
  find_lem i lt = ground (
    arith,
    is.size,
    is.first (omega (arith, is.size)),
    is.last (omega (arith, is.size)),
    walk_forward h xs is.linked i 0 i,
    walk_backward h xs is.linked (l.size - i - 1) (l.size - 1) i,
  )

  -- `linked_list_get` returns the item at each index of a list in the heap, and NULL past its end,
  -- and touches no node outside the list.
  pub get_lem :
      (i : ℕ) → linked_list_get l i h ≡ some (if ltb i (length xs) then item_at xs i else 0)
  unfolding linked_list_get linked_list_find
  get_lem i = elim (lt-or-le i (length xs)) [
    | inl lt ↦
        ground (
          arith,
          find_lem i lt,
          node_at h 0 xs i is.linked lt,
          addr_at-ne-null h 0 xs i is.linked lt,
        )
    | inr ge ↦ ground (arith, is.size)
  ]
