-- ===== src/BlockHeap/Free.antt =====
-- `heap_free` does on the memory what `free_blocks` does on the list of blocks.
use mathlib.Core.List.{Memᴰ}
use mathlib.Core.List.Memᴰ.{head, tail, not-nil}
use embedded_usbip.Prelude.{
  ℕ, ◌+◌, ◌-◌, ◌*◌, ◌/◌, ◌%◌, ◌^◌, ◌≤◌, ◌<◌, ◌≡◌, ◌≢◌, refl, ap, ◌∙◌, sym, subst, List, [], ◌∷◌,
  ◌++◌, arith,
}
use embedded_usbip.BlockHeap.{Memory, HeapNode, write, clear_allocated, merge_next, free_block}
use embedded_usbip.BlockHeap.Blocks.{Block, free, held, block_size, freed_before, free_blocks}
use embedded_usbip.BlockHeap.Objects.{objects}
use embedded_usbip.BlockHeap.Tiled.{link, mark, Tiled, Tiled-frame, merge_next-Tiled, link-even}

-- The memory with the block at `a` free.
abbrev cleared : Memory → (a : ℕ) → Memory
cleared m a = write m a (record (m a) { next = clear_allocated (m a).next })

cleared-Tiled :
    (m : Memory) (a n : ℕ) (bs : List Block) (stop : ℕ)
    → Tiled m a (held n ∷ bs) stop
    → Tiled (cleared m a) a (free n ∷ bs) stop
unfolding write
cleared-Tiled m a n bs stop t = (
  ground (arith, t.0),
  ground (arith, t.1, link-even m (a + 16 + n) bs stop t.3),
  t.2,
  Tiled-frame m (cleared m a) (a + 16 + n) bs stop (λ p ge. ground arith) t.3,
)

free_block_merging :
    (m : Memory) (a l : ℕ)
    → (m a).next ≡ l + 1
    → l % 2 ≡ 0
    → 0 < l
    → a < l
    → (m l).next % 2 ≡ 0
    → free_block m a ≡ merge_next (cleared m a) a
unfolding free_block
free_block_merging m a l e even pos lt free_next =
    ground (arith, pos, lt, even, free_next, e, ap (λ n. n / 2 * 2) e)

free_block_plain :
    (m : Memory) (a l : ℕ)
    → (m a).next ≡ l + 1
    → l % 2 ≡ 0
    → a < l
    → (m l).next % 2 ≡ 1
    → free_block m a ≡ cleared m a
unfolding free_block
free_block_plain m a l e even lt odd = ground (arith, lt, even, odd, e, ap (λ n. n / 2 * 2) e)

free_block_last : (m : Memory) (a : ℕ) → (m a).next ≡ 1 → free_block m a ≡ cleared m a
unfolding free_block
free_block_last m a e = ground (arith, e, ap (λ n. n / 2 * 2) e)

-- The block at the front of the list is freed.
pub free_block-Tiled :
    (m : Memory) (a n : ℕ) (bs : List Block) (stop : ℕ)
    → 0 < a
    → stop < 2 ^ 64
    → Tiled m a (held n ∷ bs) stop
    → Tiled (free_block m a) a (freed_before n bs) stop
free_block-Tiled m a n [] stop pos small t =
    subst (λ q. Tiled q a (free n ∷ []) stop) (sym (free_block_last m a t.1))
      (cleared-Tiled m a n [] stop t)
free_block-Tiled m a n (free k ∷ bs) stop pos small t =
    subst (λ q. Tiled q a (free (n + (k + 16)) ∷ bs) stop)
      (sym (
        free_block_merging m a (a + 16 + n) t.1 t.3.2 (omega arith) (omega arith)
          (omega (arith, t.3.1, link-even m (a + 16 + n + 16 + k) bs stop t.3.3))))
      (merge_next-Tiled (cleared m a) a n k bs stop small
        (cleared-Tiled m a n (free k ∷ bs) stop t))
free_block-Tiled m a n (held k ∷ bs) stop pos small t =
    subst (λ q. Tiled q a (free n ∷ held k ∷ bs) stop)
      (sym (
        free_block_plain m a (a + 16 + n) t.1 t.3.2 (omega arith)
          (omega (arith, t.3.1, link-even m (a + 16 + n + 16 + k) bs stop t.3.3))))
      (cleared-Tiled m a n (held k ∷ bs) stop t)

-- `free_block` writes to the block that is freed only.
pub free_block-other : (m : Memory) (a p : ℕ) → p ≢ a → free_block m a p ≡ m p
unfolding free_block merge_next
free_block-other m a p ne = ground (arith, ne)

pub objects_above : (o : ℕ × ℕ) (a : ℕ) (bs : List Block) → Memᴰ o (objects a bs) → a + 16 ≤ o.0
objects_above o a [] h = absurd (not-nil h)
objects_above o a (free k ∷ bs) h = omega (arith, objects_above o (a + 16 + k) bs h)
objects_above o a (held k ∷ bs) (head e) = omega (arith, ap (λ q. q.0) e)
objects_above o a (held k ∷ bs) (tail h) = omega (arith, objects_above o (a + 16 + k) bs h)

free_blocks_here :
    (a obj n : ℕ) (bs : List Block)
    → obj ≡ a + 16
    → free_blocks a obj (held n ∷ bs) ≡ freed_before n bs
unfolding free_blocks
free_blocks_here a obj n bs e = ground (arith, e)

free_blocks_later :
    (a obj n : ℕ) (bs : List Block)
    → a + 16 < obj
    → free_blocks a obj (held n ∷ bs) ≡ held n ∷ free_blocks (a + 16 + n) obj bs
unfolding free_blocks
free_blocks_later a obj n bs lt = ground (arith, lt)

link-freed_before : (p n : ℕ) (bs : List Block) → link p (freed_before n bs) ≡ p
link-freed_before p n [] = refl
link-freed_before p n (free k ∷ bs) = refl
link-freed_before p n (held k ∷ bs) = refl

pub link-free_blocks : (p a obj : ℕ) (bs : List Block) → link p (free_blocks a obj bs) ≡ link p bs
unfolding free_blocks
link-free_blocks p a obj [] = refl
link-free_blocks p a obj (free n ∷ bs) = refl
link-free_blocks p a obj (held n ∷ bs) = ground (arith, link-freed_before p n bs)

-- A block in front of the one that is freed.
Tiled-past :
    (m : Memory) (a obj : ℕ) (b : Block) (bs : List Block) (stop : ℕ)
    → a + 16 < obj
    → Tiled m a (b ∷ bs) stop
    → Tiled
        (free_block m (obj - 16))
        (a + 16 + block_size b)
        (free_blocks (a + 16 + block_size b) obj bs)
        stop
    → Tiled (free_block m (obj - 16)) a (b ∷ free_blocks (a + 16 + block_size b) obj bs) stop
Tiled-past m a obj b bs stop lt t later = (
  ap HeapNode.size same ∙ t.0,
  ap HeapNode.next same
      ∙ t.1
      ∙ ap (λ l. l + mark b)
          (sym (link-free_blocks (a + 16 + block_size b) (a + 16 + block_size b) obj bs)),
  t.2,
  later,
)
  where
    same : free_block m (obj - 16) a ≡ m a
    same = free_block-other m (obj - 16) a (omega arith)

pub free_blocks-Tiled :
    (m : Memory) (a : ℕ) (bs : List Block) (stop : ℕ) (o : ℕ × ℕ)
    → 0 < a
    → stop < 2 ^ 64
    → Tiled m a bs stop
    → Memᴰ o (objects a bs)
    → Tiled (free_block m (o.0 - 16)) a (free_blocks a o.0 bs) stop
unfolding free_blocks
free_blocks-Tiled m a [] stop o pos small t h = absurd (not-nil h)
free_blocks-Tiled m a (free k ∷ bs) stop o pos small t h =
    Tiled-past m a o.0 (free k) bs stop (omega (arith, objects_above o (a + 16 + k) bs h)) t
      (free_blocks-Tiled m (a + 16 + k) bs stop o (omega arith) small t.3 h)
free_blocks-Tiled m a (held k ∷ bs) stop o pos small t (head e) =
    subst (λ l. Tiled (free_block m (o.0 - 16)) a l stop)
      (sym (free_blocks_here a o.0 k bs (ap (λ q. q.0) e)))
      (subst (λ p. Tiled (free_block m p) a (freed_before k bs) stop) {x = a} {y = o.0 - 16}
        (omega (arith, ap (λ q. q.0) e)) (free_block-Tiled m a k bs stop pos small t))
free_blocks-Tiled m a (held k ∷ bs) stop o pos small t (tail h) =
    subst (λ l. Tiled (free_block m (o.0 - 16)) a l stop)
      (sym (free_blocks_later a o.0 k bs (omega (arith, objects_above o (a + 16 + k) bs h))))
      (Tiled-past m a o.0 (held k) bs stop (omega (arith, objects_above o (a + 16 + k) bs h)) t
        (free_blocks-Tiled m (a + 16 + k) bs stop o (omega arith) small t.3 h))

-- The objects are as before without the one at `obj`.
pub data Released (obj : ℕ) (before after : List (ℕ × ℕ)) : Type 0 where
  released :
      (l r : List (ℕ × ℕ)) (n : ℕ)
      → before ≡ l ++ ((obj, n) ∷ r)
      → after ≡ l ++ r
      → Released obj before after

Released-cons :
    (obj : ℕ) (o : ℕ × ℕ) (before after : List (ℕ × ℕ))
    → Released obj before after
    → Released obj (o ∷ before) (o ∷ after)
Released-cons obj o before after (released l r n e e') =
    released (o ∷ l) r n (ap (λ q. o ∷ q) e) (ap (λ q. o ∷ q) e')

objects-freed_before :
    (a n : ℕ) (bs : List Block) → objects a (freed_before n bs) ≡ objects (a + 16 + n) bs
objects-freed_before a n [] = refl
objects-freed_before a n (free k ∷ bs) = ap (λ p. objects p bs) (omega arith)
objects-freed_before a n (held k ∷ bs) = refl

pub objects-free_blocks :
    (a : ℕ) (bs : List Block) (o : ℕ × ℕ)
    → Memᴰ o (objects a bs)
    → Released o.0 (objects a bs) (objects a (free_blocks a o.0 bs))
unfolding free_blocks
objects-free_blocks a [] o h = absurd (not-nil h)
objects-free_blocks a (free k ∷ bs) o h = objects-free_blocks (a + 16 + k) bs o h
objects-free_blocks a (held k ∷ bs) o (head e) =
    released [] (objects (a + 16 + k) bs) k
      (ap (λ p. (p, k) ∷ objects (a + 16 + k) bs) (sym (ap (λ q. q.0) e)))
      (ap (objects a) (free_blocks_here a o.0 k bs (ap (λ q. q.0) e)) ∙ objects-freed_before a k bs)
objects-free_blocks a (held k ∷ bs) o (tail h) =
    subst (λ l. Released o.0 (objects a (held k ∷ bs)) (objects a l))
      (sym (free_blocks_later a o.0 k bs (omega (arith, objects_above o (a + 16 + k) bs h))))
      (Released-cons o.0 (a + 16, k) (objects (a + 16 + k) bs)
        (objects (a + 16 + k) (free_blocks (a + 16 + k) o.0 bs))
        (objects-free_blocks (a + 16 + k) bs o h))
