-- ===== src/LinkedList/Iter.antt =====
-- `linked_list_iter` with a callback that leaves the list and the heap alone.
use embedded_usbip.Prelude.{
  ℕ, zero, suc, ◌+◌, ◌<◌, ◌≡◌, ap, refl, sym, false, some, arith, length, lt-or-le, inl, inr, ◌∙◌,
}
use embedded_usbip.LinkedList.{World, Callback, advance, next_last, iter_from, linked_list_iter}
use embedded_usbip.LinkedList.Shape.{
  Cells, addr_at, item_at, addr_at_end, IsList, node_at, addr_at-ne-null,
}

module _ {C : Type 0} (f : (item i : ℕ) → C → C) where
  -- The callback that only changes its context, by `f`, and returns 0.
  abbrev pub folding : Callback C
  folding item i w = some (false, record w { ctx = f item i w.ctx })

  -- `f` at the indices `i`, `i + 1`, and so on, `k` times.
  unfoldable pub fold_up : Cells → (k i : ℕ) → C → C
  fold_up xs zero i c = c
  fold_up xs (suc k) i c = fold_up xs k (suc i) (f (item_at xs i) i c)

-- A callback that does as `folding f` at the items of a list, in contexts where `P` holds.
module _ {C : Type 0} (f : (item i : ℕ) → C → C) (cb : Callback C) (xs : Cells) (P : C → Type 0)
    (stays : (item i : ℕ) (c : C) → P c → P (f item i c)) where
  abbrev pub Agrees : World C → Type 0
  Agrees w =
      (i : ℕ) (c : C)
      → i < length xs
      → P c
      → cb (item_at xs i) i (record w { ctx = c })
        ≡ some (false, record w { ctx = f (item_at xs i) i c })

  -- One round: on to the next node.
  round :
      (n i last : ℕ) (w : World C)
      → IsList w.heap w.list xs
      → Agrees w
      → P w.ctx
      → i < length xs
      → (p : ℕ) × (iter_from (suc n) cb i (addr_at xs i) last w
          ≡ iter_from n cb
              (i + 1)
              (addr_at xs (suc i))
              p
              (record w { ctx = f (item_at xs i) i w.ctx }))
  unfolding iter_from advance next_last
  round n i last w is agrees p lt = elim (lt-or-le (suc i) (length xs)) [
    | inl more ↦ (
      addr_at xs i,
      ground (
        arith,
        is.size,
        agrees i w.ctx lt p,
        node_at w.heap 0 xs i is.linked lt,
        node_at w.heap 0 xs (suc i) is.linked more,
        addr_at-ne-null w.heap 0 xs (suc i) is.linked more,
      ),
    )
    | inr done ↦ (
      last,
      ground (
        arith,
        is.size,
        agrees i w.ctx lt p,
        node_at w.heap 0 xs i is.linked lt,
        addr_at_end xs (suc i) done,
      ),
    )
  ]

  finish :
      (i cur last : ℕ) (w : World C)
      → IsList w.heap w.list xs
      → i ≡ length xs
      → iter_from 1 cb i cur last w ≡ some w
  unfolding iter_from
  finish i cur last w is e = ground (arith, is.size)

  iter_from-fold :
      (k i j last : ℕ) (w : World C)
      → IsList w.heap w.list xs
      → Agrees w
      → P w.ctx
      → i ≡ j
      → j + k ≡ length xs
      → iter_from (suc k) cb i (addr_at xs j) last w
        ≡ some (record w { ctx = fold_up f xs k j w.ctx })
  unfolding fold_up
  iter_from-fold zero i j last w is agrees p ij e = finish i (addr_at xs j) last w is (omega arith)
  iter_from-fold (suc k) i j last w is agrees p ij e =
      let step = round (suc k) j last w is agrees p (omega arith) in
      ap (λ m. iter_from (suc (suc k)) cb m (addr_at xs j) last w) ij
      ∙ step.1
      ∙ iter_from-fold k (j + 1) (suc j) step.0 (record w { ctx = f (item_at xs j) j w.ctx })
          (record { linked = is.linked; size = is.size; first = is.first; last = is.last }) agrees
          (stays (item_at xs j) j w.ctx p) (omega arith) (omega arith)

  no_items :
      (w : World C)
      → IsList w.heap w.list xs
      → length xs ≡ 0
      → iter_from (suc (length xs)) cb 0 w.list.first 0 w
        ≡ some (record w { ctx = fold_up f xs (length xs) 0 w.ctx })
  unfolding fold_up
  no_items w is e =
      ap (λ n. iter_from (suc n) cb 0 w.list.first 0 w) e
      ∙ finish 0 w.list.first 0 w is (sym e)
      ∙ ap (λ n. some (record w { ctx = fold_up f xs n 0 w.ctx })) (sym e)

  -- A list is iterated with one unit of fuel more than it has items, and the context is folded over
  -- the items in order.
  pub iter-fold_up :
      (w : World C)
      → IsList w.heap w.list xs
      → Agrees w
      → P w.ctx
      → linked_list_iter (suc (length xs)) cb w
        ≡ some (record w { ctx = fold_up f xs (length xs) 0 w.ctx })
  unfolding linked_list_iter
  iter-fold_up w is agrees p = elim (lt-or-le 0 (length xs)) [
    | inl some_item ↦
        ap (λ c. iter_from (suc (length xs)) cb 0 c 0 w) (is.first (omega (arith, is.size)))
        ∙ iter_from-fold (length xs) 0 0 0 w is agrees p refl (omega arith)
    | inr none_left ↦ no_items w is (omega arith)
  ]

module _ {C : Type 0} (f : (item i : ℕ) → C → C) where
  -- A list of `n` items is iterated with `n + 1` units of fuel, without a fault, by a callback that
  -- changes only its context and returns 0: it sees every item once, in order, with its index.
  pub iter_lem :
      (xs : Cells) (w : World C)
      → IsList w.heap w.list xs
      → linked_list_iter (suc (length xs)) (folding f) w
        ≡ some (record w { ctx = fold_up f xs (length xs) 0 w.ctx })
  iter_lem xs w is =
      iter-fold_up f (folding f) xs (λ c. Unit) (λ item i c u. tt) w is (λ i c lt u. refl) tt
