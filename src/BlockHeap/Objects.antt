-- ===== src/BlockHeap/Objects.antt =====
-- The objects in a list of blocks, and what a request does to them.
use embedded_usbip.Prelude.{
  ℕ, ◌+◌, ◌-◌, ◌≤◌, ◌<◌, ◌≡◌, refl, ap, Option, none, some, List, [], ◌∷◌, ◌++◌, ltb, leb,
  if◌then◌else◌, arith, lt-or-le, inl, inr, sym, subst,
}
use embedded_usbip.BlockHeap.Blocks.{Block, free, held, cut, in_front, alloc_blocks}

-- The objects that a client holds: their addresses and sizes.
abbrev pub objects : (a : ℕ) → List Block → List (ℕ × ℕ)
objects a [] = []
objects a (free n ∷ bs) = objects (a + 16 + n) bs
objects a (held n ∷ bs) = (a + 16, n) ∷ objects (a + 16 + n) bs

-- A request for `size` bytes is served: `p` is 0 and the objects are as before, or there is one more
-- at `p`, with at least `size` bytes.
pub data Served (size : ℕ) (before : List (ℕ × ℕ)) (p : ℕ) (after : List (ℕ × ℕ)) : Type 0 where
  refused : p ≡ 0 → after ≡ before → Served size before p after
  given :
      (l r : List (ℕ × ℕ)) (n : ℕ)
      → size ≤ n
      → 0 < p
      → before ≡ l ++ r
      → after ≡ l ++ ((p, n) ∷ r)
      → Served size before p after

Served-cons :
    (size : ℕ) (before after : List (ℕ × ℕ)) (p : ℕ) (o : ℕ × ℕ)
    → Served size before p after
    → Served size (o ∷ before) p (o ∷ after)
Served-cons size before after p o (refused z e) = refused z (ap (λ l. o ∷ l) e)
Served-cons size before after p o (given l r n le pos e e') =
    given (o ∷ l) r n le pos (ap (λ l. o ∷ l) e) (ap (λ l. o ∷ l) e')

reach : (a k j : ℕ) → a + 16 + k + 16 + j ≡ a + 16 + (k + (j + 16))
reach a k j = omega arith

split_reach : (a k size : ℕ) → 16 < k - size → a + 16 + size + 16 + (k - size - 16) ≡ a + 16 + k
split_reach a k size room = omega arith

objects-cut :
    (size a k : ℕ) (bs : List Block)
    → size ≤ k
    → Served size (objects (a + 16 + k) bs) (a + 16) (objects a (cut size k bs))
unfolding cut
objects-cut size a k bs le = elim (lt-or-le 16 (k - size)) [
  | inl room ↦
      given [] (objects (a + 16 + k) bs) size (omega arith) (omega arith) refl
        (ground (arith, room, ap (λ q. objects q bs) (split_reach a k size room)))
  | inr no_room ↦
      given [] (objects (a + 16 + k) bs) k le (omega arith) refl (ground (arith, no_room))
]

-- The objects behind a pending free block.
abbrev pending_objects : (a : ℕ) → Option ℕ → List Block → List (ℕ × ℕ)
pending_objects a none bs = objects a bs
pending_objects a (some k) bs = objects (a + 16 + k) bs

abbrev ServedBy : (size a : ℕ) → List (ℕ × ℕ) → ℕ × List Block → Type 0
ServedBy size a before r = Served size before r.0 (objects a r.1)

fitting :
    (size a k : ℕ) (later : ℕ × List Block) (bs : List Block) (r : ℕ × List Block)
    → r ≡ (if leb size k then (a + 16, cut size k bs) else later)
    → (k < size → ServedBy size a (objects (a + 16 + k) bs) later)
    → ServedBy size a (objects (a + 16 + k) bs) r
fitting size a k later bs r e go_on = elim (lt-or-le k size) [
  | inl small ↦
      subst (ServedBy size a (objects (a + 16 + k) bs)) {x = later} {y = r}
        (ground (arith, e, small)) (go_on small)
  | inr fits ↦
      subst (ServedBy size a (objects (a + 16 + k) bs)) {x = (a + 16, cut size k bs)} {y = r}
        (ground (arith, e, fits)) (objects-cut size a k bs fits)
]

objects-alloc_pending :
    (size a : ℕ) (pending : Option ℕ) (bs : List Block)
    → ServedBy size a (pending_objects a pending bs) (alloc_blocks size a pending bs)
unfolding alloc_blocks
objects-alloc_pending size a none [] = refused refl refl
objects-alloc_pending size a (some k) [] =
    fitting size a k (0, free k ∷ []) [] _ refl (λ small. refused refl refl)
objects-alloc_pending size a none (held j ∷ bs) =
    Served-cons size (objects (a + 16 + j) bs)
      (objects (a + 16 + j) (alloc_blocks size (a + 16 + j) none bs).1)
      (alloc_blocks size (a + 16 + j) none bs).0 (a + 16, j)
      (objects-alloc_pending size (a + 16 + j) none bs)
objects-alloc_pending size a none (free j ∷ bs) = objects-alloc_pending size a (some j) bs
objects-alloc_pending size a (some k) (free j ∷ bs) =
    subst (λ q. ServedBy size a (objects q bs) (alloc_blocks size a (some (k + (j + 16))) bs))
      (sym (reach a k j)) (objects-alloc_pending size a (some (k + (j + 16))) bs)
objects-alloc_pending size a (some k) (held j ∷ bs) =
    fitting size a k _ (held j ∷ bs) _ refl (λ small.
      Served-cons size (objects (a + 16 + k + 16 + j) bs)
        (objects (a + 16 + k + 16 + j) (alloc_blocks size (a + 16 + k + 16 + j) none bs).1)
        (alloc_blocks size (a + 16 + k + 16 + j) none bs).0 (a + 16 + k + 16, j)
        (objects-alloc_pending size (a + 16 + k + 16 + j) none bs))

pub objects-alloc_blocks :
    (size a : ℕ) (bs : List Block)
    → Served size
        (objects a bs)
        (alloc_blocks size a none bs).0
        (objects a (alloc_blocks size a none bs).1)
objects-alloc_blocks size a bs = objects-alloc_pending size a none bs

-- A request that fits into a larger one.
pub Served-le :
    (size size' : ℕ) (before : List (ℕ × ℕ)) (p : ℕ) (after : List (ℕ × ℕ))
    → size ≤ size'
    → Served size' before p after
    → Served size before p after
Served-le size size' before p after le (refused z e) = refused z e
Served-le size size' before p after le (given l r n le' pos e e') =
    given l r n (omega arith) pos e e'

-- The size of the largest free block when the free blocks that lie side by side are one. The block
-- before the list is free and has `k` bytes where `pending` is `some k`.
abbrev pub largest : (pending : Option ℕ) → List Block → ℕ
largest none [] = 0
largest (some k) [] = k
largest none (held j ∷ bs) = largest none bs
largest none (free j ∷ bs) = largest (some j) bs
largest (some k) (free j ∷ bs) = largest (some (k + (j + 16))) bs
largest (some k) (held j ∷ bs) = if ltb (largest none bs) k then k else largest none bs

larger_of :
    (size k l a : ℕ) (bs : List Block) (later : ℕ × List Block)
    → ltb 0 later.0 ≡ leb size l
    → ltb 0 (if leb size k then (a + 16, bs) else later).0 ≡ leb size (if ltb l k then k else l)
larger_of size k l a bs later e = ground (arith, e)

-- A request is served exactly if the largest free block is large enough.
pub alloc_blocks-largest :
    (size a : ℕ) (pending : Option ℕ) (bs : List Block)
    → 0 < size
    → ltb 0 (alloc_blocks size a pending bs).0 ≡ leb size (largest pending bs)
unfolding alloc_blocks
alloc_blocks-largest size a none [] pos = ground arith
alloc_blocks-largest size a (some k) [] pos = ground arith
alloc_blocks-largest size a none (held j ∷ bs) pos =
    alloc_blocks-largest size (a + 16 + j) none bs pos
alloc_blocks-largest size a none (free j ∷ bs) pos = alloc_blocks-largest size a (some j) bs pos
alloc_blocks-largest size a (some k) (free j ∷ bs) pos =
    alloc_blocks-largest size a (some (k + (j + 16))) bs pos
alloc_blocks-largest size a (some k) (held j ∷ bs) pos =
    larger_of size k (largest none bs) a (cut size k (held j ∷ bs))
      (in_front (free k) (in_front (held j) (alloc_blocks size (a + 16 + k + 16 + j) none bs)))
      (alloc_blocks-largest size (a + 16 + k + 16 + j) none bs pos)
