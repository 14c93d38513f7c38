-- ===== src/MemPool.antt =====
-- The fixed-size object pool of src/mem_pool.c. Addresses are numbers, 0 is NULL, and the memory
-- gives the `uintptr_t` at each address: the pool reads and writes only the first word of a block,
-- and blocks are at least a word long, so that these words never overlap. `none` stands for a read
-- through NULL.
pub mod Blocks
pub mod Invariant
pub mod Alloc
pub mod Free
pub mod Reach
pub mod Static
mod Tests
use embedded_usbip.Prelude.{
  ℕ, ◌+◌, ◌-◌, ◌%◌, Bool, Option, none, some, ltb, ◌==◌, ◌||◌, not, if◌then◌else◌,
}

-- `mem_pool_t`.
pub record MemPool : Type 0 where
  pub pool_size : ℕ
  pub obj_size : ℕ
  pub pool_start : ℕ
  pub free_block : ℕ

abbrev pub Memory : Type 0
Memory = ℕ → ℕ

-- `*(uintptr_t*)a = v`
unfoldable pub write : Memory → ℕ → ℕ → Memory
write m a v b = if b == a then v else m b

-- A pool and the memory that it lies in.
pub record PoolState : Type 0 where
  pub pool : MemPool
  pub mem : Memory

abbrev pub sizeof_pointer : ℕ
sizeof_pointer = 8

-- `has_out` is false for a NULL `out_pool`. `none` is -1 with EINVAL.
unfoldable pub init_mem_pool :
    (obj_size pool pool_size : ℕ) (has_out : Bool) → Memory → Option PoolState
unfolding write
init_mem_pool obj_size pool pool_size has_out m =
    if not has_out || pool == 0
    then none
    else let size = if ltb obj_size sizeof_pointer then sizeof_pointer else obj_size in
      let usable = pool_size - pool_size % size in
      if usable == 0
      then none
      else some (record {
        pool = record { pool_size = usable; obj_size = size; pool_start = pool; free_block = pool };
        mem = write m pool 1;
      })

-- `INIT_MEM_POOL(name, type, size)`: a static array of zeros at `pool`, and no marker in it.
unfoldable pub init_static : (sizeof_type pool size : ℕ) → PoolState
init_static sizeof_type pool size = record {
  pool = record { pool_size = size; obj_size = sizeof_type; pool_start = pool; free_block = pool };
  mem = λ a. 0;
}

abbrev pub end_of : MemPool → ℕ
end_of p = p.pool_start + p.pool_size

-- A block that was never allocated: its successor becomes the first free block and is marked.
unfoldable pub take_fresh : PoolState → PoolState
unfolding write
take_fresh s =
    let next = s.pool.free_block + s.pool.obj_size in
    record {
      pool = record (s.pool) { free_block = next };
      mem = if next == end_of s.pool then s.mem else write s.mem next 1;
    }

-- A block that was freed holds the address of the next free block.
unfoldable pub take_freed : PoolState → PoolState
take_freed s = record s { pool = record (s.pool) { free_block = s.mem s.pool.free_block } }

unfoldable pub mem_pool_alloc : PoolState → Option (ℕ × PoolState)
unfolding take_fresh take_freed
mem_pool_alloc s =
    let res = s.pool.free_block in
    if res == end_of s.pool
    then some (0, s)
    else if res == 0
    then none
    else some (res, (if s.mem res % 2 == 1 then take_fresh s else take_freed s))

unfoldable pub mem_pool_free : PoolState → ℕ → PoolState
unfolding write
mem_pool_free s obj = record {
  pool = record (s.pool) { free_block = obj };
  mem = write s.mem obj s.pool.free_block;
}
