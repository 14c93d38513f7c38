-- ===== src/BlockHeap/Tiled.antt =====
-- What it means that a list of blocks lies in the memory.
use embedded_usbip.Prelude.{
  ℕ, ◌+◌, ◌%◌, ◌^◌, ◌≤◌, ◌<◌, ◌≡◌, ◌≢◌, refl, ap, ◌∙◌, subst, some, List, [], ◌∷◌, arith, zero, suc,
  length,
}
use embedded_usbip.BlockHeap.{Memory, HeapNode, merge_next, merge_free}
use embedded_usbip.BlockHeap.Blocks.{Block, free, held, block_size, absorbed, behind}

-- The address of the next block, NULL behind the last one.
abbrev pub link : ℕ → List Block → ℕ
link a [] = 0
link a (b ∷ bs) = a

abbrev pub mark : Block → ℕ
mark (free n) = 0
mark (held n) = 1

-- The blocks lie one behind the other from `a` to `stop`.
abbrev pub Tiled : Memory → (a : ℕ) → List Block → (stop : ℕ) → Type 0
Tiled m a [] stop = a ≡ stop
Tiled m a (b ∷ bs) stop =
    ((m a).size ≡ block_size b)
    × ((m a).next ≡ link (a + 16 + block_size b) bs + mark b)
    × (a % 2 ≡ 0)
    × Tiled m (a + 16 + block_size b) bs stop

pub Tiled-le : (m : Memory) (a : ℕ) (bs : List Block) (stop : ℕ) → Tiled m a bs stop → a ≤ stop
Tiled-le m a [] stop t = omega arith
Tiled-le m a (b ∷ bs) stop t = omega (arith, Tiled-le m (a + 16 + block_size b) bs stop t.3)

-- A change in front of the blocks.
pub Tiled-frame :
    (m m' : Memory) (a : ℕ) (bs : List Block) (stop : ℕ)
    → ((p : ℕ) → a ≤ p → m' p ≡ m p)
    → Tiled m a bs stop
    → Tiled m' a bs stop
Tiled-frame m m' a [] stop same t = t
Tiled-frame m m' a (b ∷ bs) stop same t = (
  ap HeapNode.size (same a (omega arith)) ∙ t.0,
  ap HeapNode.next (same a (omega arith)) ∙ t.1,
  t.2,
  Tiled-frame m m' (a + 16 + block_size b) bs stop (λ p ge. same p (omega arith)) t.3,
)

pub link-even :
    (m : Memory) (a : ℕ) (bs : List Block) (stop : ℕ) → Tiled m a bs stop → link a bs % 2 ≡ 0
link-even m a [] stop t = refl
link-even m a (b ∷ bs) stop t = t.2

pub merge_next-other : (m : Memory) (a p : ℕ) → p ≢ a → merge_next m a p ≡ m p
unfolding merge_next
merge_next-other m a p ne = ground (arith, ne)

-- Two free blocks become one.
pub merge_next-Tiled :
    (m : Memory) (a k j : ℕ) (bs : List Block) (stop : ℕ)
    → stop < 2 ^ 64
    → Tiled m a (free k ∷ free j ∷ bs) stop
    → Tiled (merge_next m a) a (free (k + (j + 16)) ∷ bs) stop
unfolding merge_next
merge_next-Tiled m a k j bs stop small t = (
  ground (arith, t.0, t.1, t.3.0, Tiled-le m (a + 16 + k + 16 + j) bs stop t.3.3),
  ground (arith, t.1, t.3.1, ap (λ p. link p bs) (reach a k j)),
  t.2,
  subst (λ p. Tiled (merge_next m a) p bs stop) (reach a k j)
      (Tiled-frame m (merge_next m a) (a + 16 + k + 16 + j) bs stop
        (λ p ge. merge_next-other m a p (omega arith)) t.3.3),
)
  where
    reach : (a k j : ℕ) → a + 16 + k + 16 + j ≡ a + 16 + (k + (j + 16))
    reach a k j = omega arith

-- The merging loop at a free block takes over the free blocks behind it and writes nothing else.
pub merge_free-Tiled :
    (fuel : ℕ) (m : Memory) (a k : ℕ) (bs : List Block) (stop : ℕ)
    → length bs < fuel
    → 0 < a
    → stop < 2 ^ 64
    → Tiled m a (free k ∷ bs) stop
    → (m' : Memory) × (merge_free fuel m a ≡ some m')
      × Tiled m' a (free (absorbed k bs) ∷ behind bs) stop
      × ((p : ℕ) → p ≢ a → m' p ≡ m p)
unfolding merge_free
merge_free-Tiled zero m a k bs stop lt pos small t = absurd (omega arith)
merge_free-Tiled (suc fuel) m a k [] stop lt pos small t = (m, ground arith, t, λ p ne. refl)
merge_free-Tiled (suc fuel) m a k (held j ∷ bs) stop lt pos small t = (
  m,
  ground (arith, t.1, t.2, t.3.1, t.3.2, link-even m (a + 16 + k + 16 + j) bs stop t.3.3),
  t,
  λ p ne. refl,
)
merge_free-Tiled (suc fuel) m a k (free j ∷ bs) stop lt pos small t =
    let (m', ran, tiled, same) =
      merge_free-Tiled fuel (merge_next m a) a (k + (j + 16)) bs stop (omega arith) pos small
        (merge_next-Tiled m a k j bs stop small t) in
    (
      m',
      ground (arith, t.1, t.2, t.3.1, t.3.2, link-even m (a + 16 + k + 16 + j) bs stop t.3.3, ran),
      tiled,
      λ p ne. same p ne ∙ merge_next-other m a p ne,
    )
