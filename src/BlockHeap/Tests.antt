-- ===== src/BlockHeap/Tests.antt =====
-- A pool of 256 bytes at address 64, with an alignment of 8.
use mathlib.Core.List.Memᴰ.{head}
use embedded_usbip.Prelude.{ℕ, ◌≡◌, refl, Option, none, some, true, List, [], ◌∷◌, arith}
use embedded_usbip.BlockHeap.{Memory, HeapState, init_heap, heap_alloc, heap_free, write}
use embedded_usbip.BlockHeap.Blocks.{Block, free, held}
use embedded_usbip.BlockHeap.Requests.{
  IsHeap, held_objects, Allocated, heap_alloc-Allocated, heap_free-Released, init_heap-IsHeap,
}
use embedded_usbip.BlockHeap.Free.{Released}

abbrev zeros : Memory
zeros a = record { size = 0; next = 0 }

-- A held block, two free blocks and another held one.
abbrev pool : Memory
unfolding write
pool =
    write
      (write
        (write (write zeros 64 (record { size = 32; next = 113 })) 112
          (record { size = 8; next = 136 }))
        136 (record { size = 48; next = 200 }))
      200 (record { size = 104; next = 1 })

abbrev pool_heap : HeapState
pool_heap = record {
  heap = record { pool_size = 256; alignment = 8; pool_start = 64; blocks = 64 };
  mem = pool;
}

abbrev pool_blocks : List Block
pool_blocks = held 32 ∷ free 8 ∷ free 48 ∷ held 104 ∷ []

pool_heap-IsHeap : IsHeap pool_heap pool_blocks 320
unfolding write
pool_heap-IsHeap = (
  (refl, refl, refl, (refl, refl, refl, (refl, refl, refl, (refl, refl, refl, refl)))),
  omega arith,
  refl,
  omega arith,
  refl,
  omega arith,
)

abbrev returned : Option (ℕ × Option HeapState) → ℕ
returned none = 0
returned (some (p, s)) = p

-- The two free blocks become one of 72 bytes, which serves 40 bytes for the 33 asked for.
merged_test : returned (heap_alloc 5 (some pool_heap) 33) ≡ 128
unfolding heap_alloc write
merged_test = refl

-- 80 bytes are too many.
refused_test : returned (heap_alloc 5 (some pool_heap) 80) ≡ 0
unfolding heap_alloc write
refused_test = refl

heap_alloc-Allocated_example :
    Allocated pool_heap pool_blocks 320 33 (heap_alloc 5 (some pool_heap) 33)
heap_alloc-Allocated_example =
    heap_alloc-Allocated 5 pool_heap pool_blocks 320 33 pool_heap-IsHeap (omega arith) (omega arith)
      (omega arith)

heap_free-Released_example :
    (s' : HeapState) × (bs' : List Block) × (heap_free (some pool_heap) 80 ≡ some s')
    × IsHeap s' bs' 320
    × Released 80 (held_objects pool_heap pool_blocks) (held_objects s' bs')
heap_free-Released_example =
    heap_free-Released pool_heap pool_blocks 320 (80, 32) pool_heap-IsHeap (head refl)

init_heap-IsHeap_example :
    (s : HeapState) × (init_heap true 64 256 8 zeros ≡ some s) × IsHeap s (free 240 ∷ []) 320
init_heap-IsHeap_example =
    init_heap-IsHeap 64 256 8 zeros (omega arith) (omega arith) (omega arith) refl (omega arith)
      refl
