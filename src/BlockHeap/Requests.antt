-- ===== src/BlockHeap/Requests.antt =====
-- What a client of the heap gets: `init_heap`, `heap_alloc` and `heap_free` on a well-formed heap.
use mathlib.Core.List.{Memᴰ}
use embedded_usbip.Prelude.{
  ℕ, ◌+◌, ◌-◌, ◌%◌, ◌^◌, ◌≤◌, ◌<◌, ◌≡◌, refl, ◌∙◌, subst, Option, none, some, true, List, [], ◌∷◌,
  ltb, leb, arith, sub_size, length,
}
use embedded_usbip.BlockHeap.{
  write, Memory, HeapState, is_aligned, init_heap, aligned_size, alloc_from, heap_alloc, free_block,
  heap_free,
}
use embedded_usbip.BlockHeap.Blocks.{Block, free, alloc_blocks, free_blocks}
use embedded_usbip.BlockHeap.Objects.{
  objects, Served, Served-le, largest, objects-alloc_blocks, alloc_blocks-largest,
}
use embedded_usbip.BlockHeap.Align.{aligned_size_even, aligned_size-ge, aligned_even}
use embedded_usbip.BlockHeap.Tiled.{link, Tiled}
use embedded_usbip.BlockHeap.Alloc.{alloc_from-Tiled, link-alloc_blocks}
use embedded_usbip.BlockHeap.Free.{
  Released, free_blocks-Tiled, objects-free_blocks, link-free_blocks, objects_above,
}

-- The blocks lie in the memory from the start of the pool to its end, and the alignment is even.
abbrev pub IsHeap : HeapState → List Block → (stop : ℕ) → Type 0
IsHeap s bs stop =
    Tiled s.mem s.heap.blocks bs stop
    × (0 < s.heap.blocks)
    × (link s.heap.blocks bs ≡ s.heap.blocks)
    × (stop < 2 ^ 64)
    × (s.heap.alignment % 2 ≡ 0)
    × (2 ≤ s.heap.alignment)

-- The objects that the client of a heap holds.
abbrev pub held_objects : HeapState → List Block → List (ℕ × ℕ)
held_objects s bs = objects s.heap.blocks bs

-- A run of `heap_alloc` that is over, on a heap with the blocks `bs` up to `stop`.
pub record Allocated (s : HeapState) (bs : List Block) (stop size : ℕ)
    (result : Option (ℕ × Option HeapState)) : Type 0 where
  pub object : ℕ
  pub state : HeapState
  pub blocks : List Block
  pub returned : result ≡ some (object, some state)
  pub well_formed : IsHeap state blocks stop
  pub same_heap : state.heap ≡ s.heap
  pub objects_after : Served size (held_objects s bs) object (held_objects state blocks)
  pub found : ltb 0 object ≡ leb (aligned_size size s.heap.alignment) (largest none bs)

heap_alloc_from :
    (fuel : ℕ) (s : HeapState) (size p : ℕ) (m : Memory)
    → 0 < size
    → alloc_from fuel s.mem s.heap.blocks (aligned_size size s.heap.alignment) ≡ some (p, m)
    → heap_alloc fuel (some s) size ≡ some (p, some (record s { mem = m }))
unfolding heap_alloc
heap_alloc_from fuel s size p m pos e = ground (arith, e)

-- On a well-formed heap with an even alignment of at least 2, for a size above 0 whose sum with the
-- alignment is below 2^64, and with fuel above the number of blocks, `heap_alloc` returns and leaves a
-- well-formed heap that ends at the same address. It returns an object exactly if a run of free
-- blocks, merged, has the rounded size, and NULL otherwise. The client then holds the same objects at
-- the same places, and the new one, if there is one, with at least the size asked for, apart from the
-- others.
pub heap_alloc-Allocated :
    (fuel : ℕ) (s : HeapState) (bs : List Block) (stop size : ℕ)
    → IsHeap s bs stop
    → 0 < size
    → size + s.heap.alignment < 2 ^ 64
    → length bs < fuel
    → Allocated s bs stop size (heap_alloc fuel (some s) size)
heap_alloc-Allocated fuel s bs stop size (t, pos, front, small, even, big) asked room enough =
    let (m, ran, tiled, _) =
      alloc_from-Tiled fuel s.mem s.heap.blocks bs stop (aligned_size size s.heap.alignment) enough
        pos small (aligned_size_even size s.heap.alignment even big) t in
    let r = alloc_blocks (aligned_size size s.heap.alignment) s.heap.blocks none bs in
    record {
      object = r.0;
      state = record s { mem = m };
      blocks = r.1;
      returned = heap_alloc_from fuel s size r.0 m asked (
          subst (λ p. alloc_from fuel s.mem p (aligned_size size s.heap.alignment) ≡ some (r.0, m))
            front ran);
      well_formed = (
        tiled,
        pos,
        link-alloc_blocks s.heap.blocks (aligned_size size s.heap.alignment) s.heap.blocks bs
            ∙ front,
        small,
        even,
        big,
      );
      same_heap = refl;
      objects_after =
          Served-le size (aligned_size size s.heap.alignment) (held_objects s bs) r.0
            (objects s.heap.blocks r.1) (aligned_size-ge size s.heap.alignment room)
            (objects-alloc_blocks (aligned_size size s.heap.alignment) s.heap.blocks bs);
      found =
          alloc_blocks-largest (aligned_size size s.heap.alignment) s.heap.blocks none bs
            (omega (arith, aligned_size-ge size s.heap.alignment room));
    }

heap_free_at :
    (s : HeapState) (p : ℕ)
    → 0 < p
    → heap_free (some s) p ≡ some (record s { mem = free_block s.mem (p - 16) })
unfolding heap_free
heap_free_at s p pos = ground (arith, pos)

-- On a well-formed heap with an even alignment of at least 2, `heap_free` on an object that the client
-- holds leaves a well-formed heap that ends at the same address, and the client holds the objects that
-- it held but for that one.
pub heap_free-Released :
    (s : HeapState) (bs : List Block) (stop : ℕ) (o : ℕ × ℕ)
    → IsHeap s bs stop
    → Memᴰ o (held_objects s bs)
    → (s' : HeapState) × (bs' : List Block) × (heap_free (some s) o.0 ≡ some s')
      × IsHeap s' bs' stop
      × Released o.0 (held_objects s bs) (held_objects s' bs')
heap_free-Released s bs stop o (t, pos, front, small, even, big) h = (
  record s { mem = free_block s.mem (o.0 - 16) },
  free_blocks s.heap.blocks o.0 bs,
  heap_free_at s o.0 (omega (arith, objects_above o s.heap.blocks bs h)),
  (
    free_blocks-Tiled s.mem s.heap.blocks bs stop o pos small t h,
    pos,
    link-free_blocks s.heap.blocks s.heap.blocks o.0 bs ∙ front,
    small,
    even,
    big,
  ),
  objects-free_blocks s.heap.blocks bs o h,
)

-- With a pool of at least 16 bytes that is aligned, not NULL, and ends below 2^64, and with an even
-- alignment of at least 2, `init_heap` succeeds and leaves a well-formed heap with one free block: the
-- pool without its header.
pub init_heap-IsHeap :
    (pool pool_size alignment : ℕ) (m : Memory)
    → 0 < pool
    → 16 ≤ pool_size
    → pool + pool_size < 2 ^ 64
    → alignment % 2 ≡ 0
    → 2 ≤ alignment
    → is_aligned pool alignment ≡ true
    → (s : HeapState) × (init_heap true pool pool_size alignment m ≡ some s)
      × IsHeap s (free (pool_size - 16) ∷ []) (pool + pool_size)
unfolding init_heap write
init_heap-IsHeap pool pool_size alignment m pos big_pool small even big aligned = (
  record {
    heap = record {
      pool_size = pool_size;
      alignment = alignment;
      pool_start = pool;
      blocks = pool;
    };
    mem = write m pool (record { size = sub_size pool_size 16; next = 0 });
  },
  ground (arith, pos, big, aligned),
  (
    (
      ground (arith, big_pool, small),
      ground arith,
      aligned_even pool alignment even big (ground (arith, aligned)),
      omega arith,
    ),
    pos,
    refl,
    small,
    even,
    big,
  ),
)
