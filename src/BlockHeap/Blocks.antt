-- ===== src/BlockHeap/Blocks.antt =====
-- The heap as a list of blocks: what `heap_alloc` and `heap_free` do, without addresses in headers.
use embedded_usbip.Prelude.{
  ℕ, ◌+◌, ◌-◌, ◌≡◌, refl, Option, none, some, List, [], ◌∷◌, ltb, leb, ◌==◌, if◌then◌else◌,
}

-- A block, with its size behind the header.
pub data Block : Type 0 where
  free : ℕ → Block
  held : ℕ → Block

abbrev pub block_size : Block → ℕ
block_size (free n) = n
block_size (held n) = n

-- The size of a free block with the free blocks at the start of a list, and what is behind them.
abbrev pub absorbed : ℕ → List Block → ℕ
absorbed n [] = n
absorbed n (free k ∷ bs) = absorbed (n + (k + 16)) bs
absorbed n (held k ∷ bs) = n

abbrev pub behind : List Block → List Block
behind [] = []
behind (free k ∷ bs) = behind bs
behind (held k ∷ bs) = held k ∷ bs

-- A free block of `n` bytes in front of `bs` that serves a request, cut if enough is left.
unfoldable pub cut : (size n : ℕ) → List Block → List Block
cut size n bs = if ltb 16 (n - size) then held size ∷ free (n - size - 16) ∷ bs else held n ∷ bs

abbrev pub in_front : Block → ℕ × List Block → ℕ × List Block
in_front b r = (r.0, b ∷ r.1)

-- The first free block that is large enough when it has taken over the free blocks behind it: the
-- address of its data, or 0, and the blocks. The block before `bs` is free and has `k` bytes where
-- `pending` is `some k`, and `a` is then its address.
unfoldable pub alloc_blocks : (size a : ℕ) (pending : Option ℕ) → List Block → ℕ × List Block
unfolding cut
alloc_blocks size a none [] = (0, [])
alloc_blocks size a (some k) [] = if leb size k then (a + 16, cut size k []) else (0, free k ∷ [])
alloc_blocks size a none (held j ∷ bs) = in_front (held j) (alloc_blocks size (a + 16 + j) none bs)
alloc_blocks size a none (free j ∷ bs) = alloc_blocks size a (some j) bs
alloc_blocks size a (some k) (free j ∷ bs) = alloc_blocks size a (some (k + (j + 16))) bs
alloc_blocks size a (some k) (held j ∷ bs) =
    let later = in_front (held j) (alloc_blocks size (a + 16 + k + 16 + j) none bs) in
    if leb size k then (a + 16, cut size k (held j ∷ bs)) else in_front (free k) later

-- With the free blocks taken over first.
pub alloc_blocks-absorbed :
    (size a k : ℕ) (bs : List Block)
    → alloc_blocks size a (some k) bs ≡ (
        if leb size (absorbed k bs)
        then (a + 16, cut size (absorbed k bs) (behind bs))
        else in_front
            (free (absorbed k bs))
            (alloc_blocks size (a + 16 + absorbed k bs) none (behind bs)))
unfolding alloc_blocks
alloc_blocks-absorbed size a k [] = refl
alloc_blocks-absorbed size a k (free j ∷ bs) = alloc_blocks-absorbed size a (k + (j + 16)) bs
alloc_blocks-absorbed size a k (held j ∷ bs) = refl

abbrev pub freed_before : ℕ → List Block → List Block
freed_before n [] = free n ∷ []
freed_before n (free k ∷ bs) = free (n + (k + 16)) ∷ bs
freed_before n (held k ∷ bs) = free n ∷ held k ∷ bs

-- The block whose data begins at `obj` is freed, and takes over one free block behind it.
unfoldable pub free_blocks : (a obj : ℕ) → List Block → List Block
free_blocks a obj [] = []
free_blocks a obj (free n ∷ bs) = free n ∷ free_blocks (a + 16 + n) obj bs
free_blocks a obj (held n ∷ bs) =
    let later = held n ∷ free_blocks (a + 16 + n) obj bs in
    if a + 16 == obj then freed_before n bs else later
