-- ===== src/MemPool/Static.antt =====
-- A pool that `INIT_MEM_POOL` defines: its size counts objects where the code reads bytes, and its
-- memory holds no marker.
use embedded_usbip.Prelude.{ℕ, ◌<◌, ◌≡◌, ◌≢◌, none, some, arith}
use embedded_usbip.MemPool.{PoolState, init_static, mem_pool_alloc}

-- The first allocation from a static pool returns its first object and leaves NULL as the free
-- block.
pub static_first : ℕ → ℕ → ℕ → PoolState
static_first sizeof_type pool size =
    let s = init_static sizeof_type pool size in
    record s { pool = record (s.pool) { free_block = 0 } }

-- From any pool that `INIT_MEM_POOL` defines, of at least one object and not at NULL, the first
-- allocation gives the first object, and the second one reads through NULL.
pub static_second_alloc_faults :
    (sizeof_type pool size : ℕ)
    → pool ≢ 0
    → 0 < size
    → (mem_pool_alloc (init_static sizeof_type pool size)
        ≡ some (pool, static_first sizeof_type pool size))
      × (mem_pool_alloc (static_first sizeof_type pool size) ≡ none)
unfolding mem_pool_alloc init_static static_first
static_second_alloc_faults sizeof_type pool size ne some_size = ground arith
