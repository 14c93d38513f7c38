-- ===== src/LinkedList/Rem.antt =====
-- `linked_list_rem` at any index of a list of two nodes or more.
use embedded_usbip.Prelude.{
  ℕ, zero, suc, ◌-◌, ◌≤◌, ◌<◌, ◌≡◌, ◌≢◌, refl, ap, ◌∙◌, sym, some, none, arith, length, lt-or-le,
  inl, inr, ◌==◌, if◌then◌else◌,
}
use embedded_usbip.LinkedList.{Heap, LinkedList, Node, write, unlink, linked_list_rem}
use embedded_usbip.LinkedList.Shape.{
  Cells, addr_at, item_at, before, IsList, node_at, addr_at-ne-null, addr_at_end,
}
use embedded_usbip.LinkedList.Find.{find_lem}
use embedded_usbip.LinkedList.Unlink.{
  without, length-without, addr_at-without, addr_at-distinct, has-null, Linked-without,
  unlink-Unlinked, loaded,
}

module _ {h : Heap} {l : LinkedList} {xs : Cells} (is : IsList h l xs) (i : ℕ)
    (lt : i < length xs) where
  -- The node at `i`.
  abbrev node : Node
  node = record { item = item_at xs i; next = addr_at xs (suc i); prev = before 0 xs i }

  -- Where the list has the next node, and where it has none.
  next_in : addr_at xs (suc i) ≢ 0 → suc i < length xs
  next_in ne = elim (lt-or-le (suc i) (length xs)) [
    | inl y ↦ y
    | inr past ↦ absurd (ne (addr_at_end xs (suc i) past))
  ]

  before_apart : before 0 xs i ≢ 0 → before 0 xs i ≢ addr_at xs (suc i)
  before_apart = before_ne i lt
    where
      before_ne : (j : ℕ) → j < length xs → before 0 xs j ≢ 0 → before 0 xs j ≢ addr_at xs (suc j)
      before_ne zero lt ne = absurd (ne refl)
      before_ne (suc j) lt ne =
          addr_at-distinct h 0 xs j (suc (suc j)) is.linked (omega arith) (omega arith)

  before_other : addr_at xs i ≢ before 0 xs i
  before_other = other i lt
    where
      other : (j : ℕ) → j < length xs → addr_at xs j ≢ before 0 xs j
      other zero lt = addr_at-ne-null h 0 xs zero is.linked lt
      other (suc j) lt =
          λ e. addr_at-distinct h 0 xs j (suc j) is.linked (omega arith) (omega arith) (sym e)

  -- The node before `i`, if there is one.
  before_node : (m : Node) × (before 0 xs i ≢ 0 → h (before 0 xs i) ≡ some m)
  before_node = at i lt
    where
      at : (j : ℕ) → j < length xs → (m : Node) × (before 0 xs j ≢ 0 → h (before 0 xs j) ≡ some m)
      at zero lt = (record { item = 0; next = 0; prev = 0 }, λ ne. absurd (ne refl))
      at (suc j) lt =
          (_, λ ne. loaded h (addr_at xs j) ne (node_at h 0 xs j is.linked (omega arith)))

  next_node :
      addr_at xs (suc i) ≢ 0
      → h (addr_at xs (suc i))
        ≡ some (record {
          item = item_at xs (suc i);
          next = addr_at xs (suc (suc i));
          prev = addr_at xs i;
        })
  next_node ne = loaded h (addr_at xs (suc i)) ne (node_at h 0 xs (suc i) is.linked (next_in ne))

  before_lem : i ≢ 0 → before 0 xs i ≡ addr_at xs (i - 1)
  before_lem = at i
    where
      at : (j : ℕ) → j ≢ 0 → before 0 xs j ≡ addr_at xs (j - 1)
      at zero ne = absurd (ne refl)
      at (suc j) ne = ap (addr_at xs) (omega arith)

  -- The list behind the removal.
  abbrev rest_list : LinkedList
  rest_list =
      if i == l.size - 1
      then record l { last = node.prev; size = l.size - 1 }
      else if i == 0
      then record l { first = node.next; size = l.size - 1 }
      else record l { size = l.size - 1 }

  rem_run :
      (g : Heap)
      → unlink node h ≡ some g
      → linked_list_rem l i h ≡ some (item_at xs i, rest_list, write g (addr_at xs i) none)
  unfolding linked_list_rem
  rem_run g e = ground (
    arith,
    find_lem is i lt,
    addr_at-ne-null h 0 xs i is.linked lt,
    node_at h 0 xs i is.linked lt,
    e,
  )

  rest_list-first : 2 ≤ length xs → rest_list.first ≡ addr_at (without i xs) 0
  rest_list-first two =
      ground (arith, is.size, is.first (omega (arith, is.size)), addr_at-without i xs 0 lt)

  rest_list-size : rest_list.size ≡ length xs - 1
  rest_list-size = ground (arith, is.size)

  rest_list-last_lem :
      2 ≤ length xs
      → rest_list.last
        ≡ (if i == length xs - 1 then addr_at xs (length xs - 2) else addr_at xs (length xs - 1))
  rest_list-last_lem two = ground (arith, is.size, is.last (omega (arith, is.size)), before_lem)

  rest_list-last : 2 ≤ length xs → rest_list.last ≡ addr_at (without i xs) (rest_list.size - 1)
  rest_list-last two =
      let second : suc (length xs - 2) ≡ length xs - 1 = omega arith in
      let end : length xs - 2 ≡ rest_list.size - 1 = omega (arith, rest_list-size) in
      rest_list-last_lem two
      ∙ ground (arith, addr_at-without i xs (length xs - 2) lt, ap (addr_at xs) second)
      ∙ ap (addr_at (without i xs)) end

  -- From a list of two nodes or more, `linked_list_rem` at an index of the list returns the item there,
  -- touches no node outside the list, frees the node, and leaves the list of the other items, in their
  -- order.
  pub rem-IsList :
      2 ≤ length xs
      → (l' : LinkedList) × (h' : Heap) × (linked_list_rem l i h ≡ some (item_at xs i, l', h'))
        × IsList h' l' (without i xs)
        × (h' (addr_at xs i) ≡ none)
  unfolding write
  rem-IsList two =
      let (g, ran, unlinked) =
        unlink-Unlinked h node before_node.0 _ (addr_at xs i)
          (addr_at-ne-null h 0 xs i is.linked lt) before_other
          (addr_at-distinct h 0 xs i (suc i) is.linked (omega arith) lt) before_apart before_node.1
          next_node in
      (
        rest_list,
        write g (addr_at xs i) none,
        rem_run g ran,
        record {
          linked = Linked-without 0 xs i lt refl unlinked (has-null h 0 xs is.linked) is.linked;
          size = rest_list-size ∙ sym (length-without i xs lt);
          first = λ z. rest_list-first two;
          last = λ z. rest_list-last two;
        },
        ground arith,
      )
