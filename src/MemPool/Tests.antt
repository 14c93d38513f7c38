-- ===== src/MemPool/Tests.antt =====
-- A pool of three blocks at address 16, and the theorems at it.
use embedded_usbip.Prelude.{◌≡◌, ◌≤◌, refl, some, true, [], ◌∷◌, if◌then◌else◌, ◌==◌}
use embedded_usbip.MemPool.{PoolState, init_mem_pool, mem_pool_alloc}
use embedded_usbip.MemPool.Blocks.{count}
use embedded_usbip.MemPool.Invariant.{IsValid, Allocated}
use embedded_usbip.MemPool.Alloc.{alloc-Allocated}
use embedded_usbip.MemPool.Reach.{
  init_mem_pool-IsValid, Reach, fresh, alloc, Reach-IsValid, Reach-exclusive,
}

abbrev start : PoolState
start = record {
  pool = record { pool_size = 24; obj_size = 8; pool_start = 16; free_block = 16 };
  mem = λ b. if b == 16 then 1 else 0;
}

start-runs : init_mem_pool 4 16 30 true (λ a. 0) ≡ some start
unfolding init_mem_pool
start-runs = refl

start-IsValid : IsValid start 3 []
unfolding init_mem_pool
start-IsValid = init_mem_pool-IsValid 2 8 30 (λ a. 0) {s = start} refl

abbrev one_held : PoolState
one_held = record {
  pool = record { pool_size = 24; obj_size = 8; pool_start = 16; free_block = 24 };
  mem = λ b. if b == 24 then 1 else if b == 16 then 1 else 0;
}

one_held-run : mem_pool_alloc start ≡ some (16, one_held)
unfolding mem_pool_alloc
one_held-run = refl

one_held-Reach : Reach start 3 one_held (0 ∷ [])
one_held-Reach = alloc 0 fresh one_held-run

one_held-IsValid : IsValid one_held 3 (0 ∷ [])
one_held-IsValid = Reach-IsValid start-IsValid one_held-Reach

alloc-Allocated_example : Allocated one_held 3 (0 ∷ [])
alloc-Allocated_example = alloc-Allocated one_held-IsValid

Reach-exclusive_example : count 0 (0 ∷ []) ≤ 1
unfolding init_mem_pool
Reach-exclusive_example =
    Reach-exclusive 2 8 30 (λ a. 0) {start = start} {s = one_held} refl one_held-Reach 0
