-- ===== src/LinkedList/Push.antt =====
-- `linked_list_push` appends.
use embedded_usbip.Prelude.{
  ℕ, zero, suc, ◌+◌, ◌-◌, ◌≤◌, ◌<◌, ◌≡◌, ◌≢◌, refl, ap, ◌∙◌, sym, false, some, [], ◌∷◌, ◌++◌, arith,
  length, length-append,
}
use embedded_usbip.LinkedList.{
  Heap, LinkedList, Node, pushed, load, write, set_next, linked_list_push,
}
use embedded_usbip.LinkedList.Shape.{
  Cells, addr_at, item_at, has, before, Linked, IsList, node_at, addr_at-ne-null,
}

has-append :
    (a : ℕ) (xs : Cells) (b d : ℕ) → has a xs ≡ false → a ≢ b → has a (xs ++ ((b, d) ∷ [])) ≡ false
has-append a [] b d h ne = ground arith
has-append a ((c, e) ∷ xs) b d h ne = ground (arith, has-append a xs b d)

pub ne-addr_at : (a : ℕ) (xs : Cells) (i : ℕ) → has a xs ≡ false → i < length xs → a ≢ addr_at xs i
ne-addr_at a [] i h lt = absurd (omega arith)
ne-addr_at a ((c, e) ∷ xs) zero h lt = ground arith
ne-addr_at a ((c, e) ∷ xs) (suc i) h lt = ne-addr_at a xs i (ground arith) (omega arith)

-- The heap `g` is `h` with a node at `fresh` linked behind `last`.
record Appended (h g : Heap) (fresh item last : ℕ) : Type 0 where
  same : (p : ℕ) → p ≢ fresh → p ≢ last → g p ≡ h p
  at_last : (n : Node) → h last ≡ some n → g last ≡ some (record n { next = fresh })
  at_fresh : g fresh ≡ some (record { item = item; next = 0; prev = last })

module _ {h g : Heap} {fresh item last : ℕ} (is : Appended h g fresh item last)
    (ne : fresh ≢ 0) where
  Linked-append :
      (prev a d : ℕ) (xs : Cells)
      → last ≡ addr_at ((a, d) ∷ xs) (length xs)
      → has fresh ((a, d) ∷ xs) ≡ false
      → Linked h prev ((a, d) ∷ xs)
      → Linked g prev (((a, d) ∷ xs) ++ ((fresh, item) ∷ []))
  Linked-append prev a d [] e new l = (
    ap g (sym e) ∙ is.at_last (record { item = d; next = 0; prev = prev }) (ap h e ∙ l.0),
    l.1,
    ground (arith, new),
    (is.at_fresh ∙ ap (λ p. some (record { item = item; next = 0; prev = p })) e, ne, refl, tt),
  )
  Linked-append prev a d ((b, c) ∷ xs) e new l = (
    is.same a (ground (arith, new)) (ground (arith, e, ne-addr_at a ((b, c) ∷ xs) (length xs) l.2))
        ∙ l.0,
    l.1,
    has-append a ((b, c) ∷ xs) fresh item l.2 (ground (arith, new)),
    Linked-append a b c xs e (ground (arith, new)) l.3,
  )

addr_at-append : (xs : Cells) (b d i : ℕ) → i ≡ length xs → addr_at (xs ++ ((b, d) ∷ [])) i ≡ b
addr_at-append [] b d zero e = refl
addr_at-append [] b d (suc i) e = absurd (omega arith)
addr_at-append ((c, f) ∷ xs) b d zero e = absurd (omega arith)
addr_at-append ((c, f) ∷ xs) b d (suc i) e = addr_at-append xs b d i (omega arith)

-- The heap that `linked_list_push` leaves behind a last node.
abbrev heap_with : Heap → (fresh item last : ℕ) → Node → Heap
heap_with h fresh item last n =
    write (write h last (some (record n { next = fresh }))) fresh
      (some (record { item = item; next = 0; prev = last }))

heap_with-Appended :
    (h : Heap) (fresh item last : ℕ) (n : Node)
    → h last ≡ some n
    → fresh ≢ last
    → Appended h (heap_with h fresh item last n) fresh item last
unfolding write
heap_with-Appended h fresh item last n e ne = record {
  same = λ p a b. ground arith;
  at_last = λ m em. ground arith;
  at_fresh = ground arith;
}

-- The last node of a list that is not empty, in the heap and as `linked_list_push` reads it.
abbrev last_node : Cells → Node
last_node xs = record {
  item = item_at xs (length xs - 1);
  next = addr_at xs (suc (length xs - 1));
  prev = before 0 xs (length xs - 1);
}

module _ {h : Heap} {l : LinkedList} {xs : Cells} (is : IsList h l xs)
    (some_in : 1 ≤ length xs) where
  last-addr_at : l.last ≡ addr_at xs (length xs - 1)
  last-addr_at = is.last (omega (arith, is.size)) ∙ ap (λ n. addr_at xs (n - 1)) is.size

  load-last : load h l.last ≡ some (last_node xs)
  load-last = ap (load h) last-addr_at ∙ node_at h 0 xs (length xs - 1) is.linked (omega arith)

  heap-last : h l.last ≡ some (last_node xs)
  unfolding load
  heap-last = ground (
    arith,
    load-last,
    last-addr_at,
    addr_at-ne-null h 0 xs (length xs - 1) is.linked (omega arith),
  )

-- When the allocator gives an address that is not NULL and not of a node of the list,
-- `linked_list_push` succeeds, and the list then holds its items and the new one behind them.
pub push-IsList :
    (h : Heap) (l : LinkedList) (xs : Cells) (fresh item : ℕ)
    → IsList h l xs
    → fresh ≢ 0
    → has fresh xs ≡ false
    → (l' : LinkedList) × (h' : Heap) × (linked_list_push fresh l item h ≡ some (pushed l' h'))
      × IsList h' l' (xs ++ ((fresh, item) ∷ []))
unfolding linked_list_push write set_next
push-IsList h l [] fresh item is ne new = (
  record { size = l.size + 1; first = fresh; last = fresh },
  write h fresh (some (record { item = item; next = 0; prev = 0 })),
  ground (arith, is.size),
  record {
    linked = (ground arith, ne, refl, tt);
    size = ground (arith, is.size);
    first = λ z. refl;
    last = λ z. ground (arith, is.size);
  },
)
push-IsList h l ((a, d) ∷ xs) fresh item is ne new = (
  record l { size = l.size + 1; last = fresh },
  heap_with h fresh item l.last (last_node ((a, d) ∷ xs)),
  ground (arith, is.size, load-last is (omega arith)),
  record {
    linked =
        Linked-append
          (heap_with-Appended h fresh item l.last (last_node ((a, d) ∷ xs))
            (heap-last is (omega arith))
            (ground (
              arith,
              last-addr_at is (omega arith),
              ne-addr_at fresh ((a, d) ∷ xs) (length xs) new,
            )))
          ne 0 a d xs (last-addr_at is (omega arith) ∙ ap (addr_at ((a, d) ∷ xs)) (omega arith)) new
          is.linked;
    size = omega (arith, is.size, length-append xs ((fresh, item) ∷ []));
    first = λ z. is.first (omega (arith, is.size));
    last = λ z.
        sym (addr_at-append ((a, d) ∷ xs) fresh item (l.size + 1 - 1) (omega (arith, is.size)));
  },
)
