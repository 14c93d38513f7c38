-- ===== src/LinkedList/Kept.antt =====
-- What every callback keeps, `linked_list_iter` keeps, whatever the callbacks do to the list.
use embedded_usbip.Prelude.{ℕ, zero, suc, ◌+◌, Bool, true, false, Option, none, some, ltb}
use embedded_usbip.LinkedList.{
  Node, World, Callback, load, advance, next_last, iter_from, linked_list_iter,
}

-- `I` holds of the world, if there is one.
abbrev pub Holds : {C : Type 0} → (World C → Type 0) → Option (World C) → Type 0
Holds I none = Unit
Holds I (some w) = I w

-- The same for the world behind the result of a callback.
abbrev pub HoldsBehind : {A C : Type 0} → (World C → Type 0) → Option (A × World C) → Type 0
HoldsBehind I none = Unit
HoldsBehind I (some (a, w)) = I w

module _ {C : Type 0} (cb : Callback C) where
  -- The rest of a round behind the callback, and behind the node.
  abbrev moved_on : (fuel i : ℕ) → World C → (last : ℕ) → Option ℕ → Option (World C)
  moved_on fuel i w last o = elim o [
    | none ↦ none
    | some c ↦ elim (next_last c last w) [ none ↦ none | some p ↦ iter_from fuel cb (i + 1) c p w ]
  ]

  abbrev called_back : (fuel i cur last : ℕ) → Option (Bool × World C) → Option (World C)
  called_back fuel i cur last r = elim r [
    | none ↦ none
    | some (invalid, w) ↦ moved_on fuel i w last (advance invalid i cur last w)
  ]

  abbrev loaded : (fuel i cur last : ℕ) → World C → Option Node → Option (World C)
  loaded fuel i cur last w o = elim o [
    | none ↦ none
    | some n ↦ called_back fuel i cur last (cb n.item i w)
  ]

  module _ (I : World C → Type 0)
      (kept : (item i : ℕ) (w : World C) → I w → HoldsBehind I (cb item i w)) where
    moved_on-Holds :
        (fuel i last : ℕ) (w : World C) (o : Option ℕ)
        → ((c p : ℕ) → Holds I (iter_from fuel cb (i + 1) c p w))
        → Holds I (moved_on fuel i w last o)
    moved_on-Holds fuel i last w none next = tt
    moved_on-Holds fuel i last w (some c) next =
        elim (next_last c last w)
          as (λ o. Holds I (elim o [ none ↦ none | some p ↦ iter_from fuel cb (i + 1) c p w ])) [
            | none ↦ tt
            | some p ↦ next c p
          ]

    called_back-Holds :
        (fuel i cur last : ℕ) (r : Option (Bool × World C))
        → HoldsBehind I r
        → ((w : World C) (c p : ℕ) → I w → Holds I (iter_from fuel cb (i + 1) c p w))
        → Holds I (called_back fuel i cur last r)
    called_back-Holds fuel i cur last none h next = tt
    called_back-Holds fuel i cur last (some (invalid, w)) h next =
        moved_on-Holds fuel i last w (advance invalid i cur last w) (λ c p. next w c p h)

    loaded-Holds :
        (fuel i cur last : ℕ) (w : World C) (o : Option Node)
        → I w
        → ((w : World C) (c p : ℕ) → I w → Holds I (iter_from fuel cb (i + 1) c p w))
        → Holds I (loaded fuel i cur last w o)
    loaded-Holds fuel i cur last w none h next = tt
    loaded-Holds fuel i cur last w (some n) h next =
        called_back-Holds fuel i cur last (cb n.item i w) (kept n.item i w h) next

    loop-Holds :
        (fuel i cur last : ℕ) (w : World C) → I w → Holds I (iter_from fuel cb i cur last w)
    unfolding iter_from
    loop-Holds zero i cur last w h = tt
    loop-Holds (suc fuel) i cur last w h =
        elim (ltb i w.list.size)
          as (λ b.
            Holds I
              (elim b [ false ↦ some w | true ↦ loaded fuel i cur last w (load w.heap cur) ])) [
                | false ↦ h
                | true ↦
                    loaded-Holds fuel i cur last w (load w.heap cur) h
                      (λ w' c p. loop-Holds fuel (i + 1) c p w')
              ]

    pub iter-Holds : (fuel : ℕ) (w : World C) → I w → Holds I (linked_list_iter fuel cb w)
    unfolding linked_list_iter
    iter-Holds fuel w h = loop-Holds fuel 0 w.list.first 0 w h
