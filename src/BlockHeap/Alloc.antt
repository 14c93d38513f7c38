-- ===== src/BlockHeap/Alloc.antt =====
-- `heap_alloc` does on the memory what `alloc_blocks` does on the list of blocks.
use embedded_usbip.Prelude.{
  ℕ, ◌+◌, ◌-◌, ◌*◌, ◌/◌, ◌%◌, ◌^◌, ◌≤◌, ◌<◌, ◌≡◌, refl, ap, ◌∙◌, sym, subst, Option, none, some,
  List, [], ◌∷◌, arith, zero, suc, length, inl, inr, lt-or-le,
}
use embedded_usbip.BlockHeap.{
  Memory, HeapNode, write, merge_free, split_block, mark_allocated, alloc_from,
}
use embedded_usbip.BlockHeap.Blocks.{
  Block, free, held, absorbed, behind, cut, in_front, alloc_blocks, alloc_blocks-absorbed,
}
use embedded_usbip.BlockHeap.Tiled.{link, Tiled, Tiled-frame, merge_free-Tiled, link-even}

length-behind : (bs : List Block) → length (behind bs) ≤ length bs
length-behind [] = omega arith
length-behind (free k ∷ bs) = omega (arith, length-behind bs)
length-behind (held k ∷ bs) = omega arith

abbrev served : Memory → (a size : ℕ) → Memory
served m a size = mark_allocated (split_block m a size) a

served-other : (m : Memory) (a size p : ℕ) → p < a → served m a size p ≡ m p
unfolding split_block mark_allocated
served-other m a size p lt = ground arith

cut_room :
    (size k : ℕ) (bs : List Block)
    → 16 < k - size
    → cut size k bs ≡ held size ∷ free (k - size - 16) ∷ bs
unfolding cut
cut_room size k bs room = ground arith

cut_whole : (size k : ℕ) (bs : List Block) → k - size ≤ 16 → cut size k bs ≡ held k ∷ bs
unfolding cut
cut_whole size k bs no_room = ground arith

served_behind :
    (m : Memory) (a k size p : ℕ)
    → (m a).size ≡ k
    → a + 16 + k ≤ p
    → size ≤ k
    → served m a size p ≡ m p
unfolding split_block mark_allocated write
served_behind m a k size p e ge le = ground (arith, e)

module _ (m : Memory) (a k size : ℕ) (bs : List Block) (stop : ℕ) (le : size ≤ k)
    (t : Tiled m a (free k ∷ bs) stop) where
  tail-Tiled : Tiled (served m a size) (a + 16 + k) bs stop
  tail-Tiled =
      Tiled-frame m (served m a size) (a + 16 + k) bs stop
        (λ p ge. served_behind m a k size p t.0 ge le) t.3

  -- With room for a header and more, the rest becomes a free block.
  split-Tiled :
      16 < k - size
      → size % 2 ≡ 0
      → Tiled (served m a size) a (held size ∷ free (k - size - 16) ∷ bs) stop
  unfolding split_block mark_allocated write
  split-Tiled room even = (
    ground (arith, t.0),
    ground (arith, t.0, t.2),
    t.2,
    (
      ground (arith, t.0),
      ground (arith, t.0, t.1, ap (λ p. link p bs) reach),
      omega (arith, t.2),
      subst (λ p. Tiled (served m a size) p bs stop) reach tail-Tiled,
    ),
  )
    where
      reach : a + 16 + k ≡ a + 16 + size + 16 + (k - size - 16)
      reach = omega arith

  whole-Tiled : k - size ≤ 16 → Tiled (served m a size) a (held k ∷ bs) stop
  unfolding split_block mark_allocated write
  whole-Tiled no_room = (
    ground (arith, t.0),
    ground (arith, t.0, t.1, link-even m (a + 16 + k) bs stop t.3),
    t.2,
    tail-Tiled,
  )

  -- A free block serves a request.
  cut-Tiled : size % 2 ≡ 0 → Tiled (served m a size) a (cut size k bs) stop
  cut-Tiled even = elim (lt-or-le 16 (k - size)) [
    | inl room ↦
        subst (λ l. Tiled (served m a size) a l stop) (sym (cut_room size k bs room))
          (split-Tiled room even)
    | inr no_room ↦
        subst (λ l. Tiled (served m a size) a l stop) (sym (cut_whole size k bs no_room))
          (whole-Tiled no_room)
  ]

merge_held :
    (fuel : ℕ) (m : Memory) (a j : ℕ) (bs : List Block) (stop : ℕ)
    → 0 < fuel
    → Tiled m a (held j ∷ bs) stop
    → merge_free fuel m a ≡ some m
unfolding merge_free
merge_held zero m a j bs stop pos t = absurd (omega arith)
merge_held (suc fuel) m a j bs stop pos t =
    ground (arith, t.1, link-even m (a + 16 + j) bs stop t.3)

link-alloc_blocks_pending :
    (p size a k : ℕ) (bs : List Block) → link p (alloc_blocks size a (some k) bs).1 ≡ p
unfolding alloc_blocks cut
link-alloc_blocks_pending p size a k [] = ground arith
link-alloc_blocks_pending p size a k (held j ∷ bs) = ground arith
link-alloc_blocks_pending p size a k (free j ∷ bs) =
    link-alloc_blocks_pending p size a (k + (j + 16)) bs

pub link-alloc_blocks :
    (p size a : ℕ) (bs : List Block) → link p (alloc_blocks size a none bs).1 ≡ link p bs
unfolding alloc_blocks
link-alloc_blocks p size a [] = refl
link-alloc_blocks p size a (held j ∷ bs) = refl
link-alloc_blocks p size a (free j ∷ bs) = link-alloc_blocks_pending p size a j bs

alloc_blocks_fit :
    (size a k : ℕ) (bs : List Block)
    → size ≤ absorbed k bs
    → alloc_blocks size a (some k) bs ≡ (a + 16, cut size (absorbed k bs) (behind bs))
alloc_blocks_fit size a k bs le = ground (arith, alloc_blocks-absorbed size a k bs)

alloc_blocks_small :
    (size a k : ℕ) (bs : List Block)
    → absorbed k bs < size
    → alloc_blocks size a (some k) bs
      ≡ in_front
          (free (absorbed k bs))
          (alloc_blocks size (a + 16 + absorbed k bs) none (behind bs))
alloc_blocks_small size a k bs lt = ground (arith, alloc_blocks-absorbed size a k bs)

-- The walk goes on behind a free block that is too small.
alloc_from_past :
    (fuel : ℕ) (m m' : Memory) (a size l : ℕ)
    → 0 < a
    → merge_free fuel m a ≡ some m'
    → (m' a).size < size
    → (m' a).next ≡ l
    → l / 2 * 2 ≡ l
    → alloc_from (suc fuel) m a size ≡ alloc_from fuel m' l size
unfolding alloc_from
alloc_from_past fuel m m' a size l pos merged small next even =
    ground (arith, merged, next, even, ap (λ n. n / 2 * 2) next)

alloc_from_fits :
    (fuel : ℕ) (m m' : Memory) (a size : ℕ)
    → 0 < a
    → merge_free fuel m a ≡ some m'
    → size ≤ (m' a).size
    → (m' a).next % 2 ≡ 0
    → alloc_from (suc fuel) m a size ≡ some (a + 16, served m' a size)
unfolding alloc_from
alloc_from_fits fuel m m' a size pos merged le even = ground (arith, merged, even)

-- A result of the walk from `a` on.
abbrev pub Allocates : Memory → (a : ℕ) → (stop : ℕ) → Option (ℕ × Memory) → ℕ × List Block → Type 0
Allocates m a stop o (q, bs) =
    (m' : Memory) × (o ≡ some (q, m')) × Tiled m' a bs stop × ((p : ℕ) → p < a → m' p ≡ m p)

pub alloc_from-Tiled :
    (fuel : ℕ) (m : Memory) (a : ℕ) (bs : List Block) (stop size : ℕ)
    → length bs < fuel
    → 0 < a
    → stop < 2 ^ 64
    → size % 2 ≡ 0
    → Tiled m a bs stop
    → Allocates m a stop (alloc_from fuel m (link a bs) size) (alloc_blocks size a none bs)
unfolding alloc_from alloc_blocks
alloc_from-Tiled zero m a bs stop size lt pos small even t = absurd (omega arith)
alloc_from-Tiled (suc fuel) m a [] stop size lt pos small even t = (m, refl, t, λ p lt'. refl)
alloc_from-Tiled (suc fuel) m a (held j ∷ bs) stop size lt pos small even t =
    let (m', ran, tiled, same) =
      alloc_from-Tiled fuel m (a + 16 + j) bs stop size (omega arith) (omega arith) small even
        t.3 in
    (
      m',
      ground (
        arith,
        t.1,
        link-even m (a + 16 + j) bs stop t.3,
        merge_held fuel m a j bs stop (omega arith) t,
        ran,
      ),
      (
        ap HeapNode.size (same a (omega arith)) ∙ t.0,
        ap HeapNode.next (same a (omega arith))
            ∙ t.1
            ∙ ap (λ l. l + 1) (sym (link-alloc_blocks (a + 16 + j) size (a + 16 + j) bs)),
        t.2,
        tiled,
      ),
      λ p lt'. same p (omega arith),
    )
alloc_from-Tiled (suc fuel) m a (free k ∷ bs) stop size lt pos small even t =
    let (m', merged, t', same) = merge_free-Tiled fuel m a k bs stop (omega arith) pos small t in
    elim (lt-or-le (absorbed k bs) size) [
      | inr fits ↦
          subst (Allocates m a stop (alloc_from (suc fuel) m a size))
            (sym (alloc_blocks_fit size a k bs fits))
            (
              served m' a size,
              alloc_from_fits fuel m m' a size pos merged (omega (arith, t'.0)) (
                  omega (arith, t'.1, link-even m' (a + 16 + absorbed k bs) (behind bs) stop t'.3)),
              cut-Tiled m' a (absorbed k bs) size (behind bs) stop fits t' even,
              λ p lt'. served-other m' a size p lt' ∙ same p (omega arith),
            )
      | inl small_block ↦
          let (m'', ran, tiled, same') =
            alloc_from-Tiled fuel m' (a + 16 + absorbed k bs) (behind bs) stop size
              (omega (arith, length-behind bs)) (omega arith) small even t'.3 in
          subst (Allocates m a stop (alloc_from (suc fuel) m a size))
            (sym (alloc_blocks_small size a k bs small_block))
            (
              m'',
              alloc_from_past fuel m m' a size (link (a + 16 + absorbed k bs) (behind bs)) pos
                    merged (omega (arith, t'.0)) (omega (arith, t'.1))
                    (omega (arith, link-even m' (a + 16 + absorbed k bs) (behind bs) stop t'.3))
                  ∙ ran,
              (
                ap HeapNode.size (same' a (omega arith)) ∙ t'.0,
                ap HeapNode.next (same' a (omega arith))
                    ∙ t'.1
                    ∙ ap (λ l. l + 0)
                        (sym (
                          link-alloc_blocks (a + 16 + absorbed k bs) size (a + 16 + absorbed k bs)
                            (behind bs))),
                t'.2,
                tiled,
              ),
              λ p lt'. same' p (omega arith) ∙ same p (omega arith),
            )
    ]
