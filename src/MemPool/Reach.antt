-- ===== src/MemPool/Reach.antt =====
-- Pools that a client reaches from `init_mem_pool`.
use embedded_usbip.Prelude.{
  ℕ, ◌+◌, ◌-◌, ◌*◌, ◌/◌, ◌≤◌, ◌<◌, ◌≡◌, ◌≢◌, ◌%◌, arith, List, [], ◌∷◌, ltb, if◌then◌else◌, sym, ap,
  ◌∙◌, some, true,
}
use mathlib.Core.Path.{subst}
use embedded_usbip.MemPool.{
  Memory, PoolState, write, sizeof_pointer, init_mem_pool, mem_pool_alloc, mem_pool_free,
}
use embedded_usbip.MemPool.Blocks.{count, addr, addr_injective, addr_pos}
use embedded_usbip.MemPool.Invariant.{IsValid, Allocated, full, block}
use embedded_usbip.MemPool.Alloc.{alloc-Allocated}
use embedded_usbip.MemPool.Free.{erase, free-IsValid, client_write-IsValid}

-- The size of a block, and their number.
abbrev pub block_size : ℕ → ℕ
block_size obj_size = if ltb obj_size sizeof_pointer then sizeof_pointer else obj_size

abbrev pub block_count : (obj_size pool_size : ℕ) → ℕ
block_count obj_size pool_size = pool_size / block_size obj_size

whole_blocks : (a b : ℕ) → a - a % b ≡ a / b * b
whole_blocks a b = omega (arith)

-- What `init_mem_pool` leaves in a pool, when it succeeds.
record Started (obj_size pool pool_size : ℕ) (s : PoolState) : Type 0 where
  ne_null : pool ≢ 0
  start : s.pool.pool_start ≡ pool
  free : s.pool.free_block ≡ pool
  size : s.pool.obj_size ≡ block_size obj_size
  usable : s.pool.pool_size ≡ pool_size - pool_size % block_size obj_size
  some_block : s.pool.pool_size ≢ 0
  marked : s.mem pool ≡ 1

init-Started :
    (obj_size pool pool_size : ℕ) (m : Memory) {s : PoolState}
    → init_mem_pool obj_size pool pool_size true m ≡ some s
    → Started obj_size pool pool_size s
unfolding init_mem_pool write
init-Started obj_size pool pool_size m e = ground arith

-- `init_mem_pool` at an even address and with an even object size, if it succeeds, gives a valid
-- pool of `pool_size / max obj_size 8` blocks, none of which is held.
pub init_mem_pool-IsValid :
    (obj_half pool_half pool_size : ℕ) (m : Memory) {s : PoolState}
    → init_mem_pool (obj_half + obj_half) (pool_half + pool_half) pool_size true m ≡ some s
    → IsValid s (block_count (obj_half + obj_half) pool_size) []
init_mem_pool-IsValid obj_half pool_half pool_size m {s} e = record {
  free_list = [];
  frontier = 0;
  laid = record {
    half_size = s.pool.obj_size / 2;
    half_start = pool_half;
    size_even = ground (arith, i.size);
    start_even = i.start;
    size_min = ground (arith, i.size);
    start_pos = omega (arith, i.start, i.ne_null);
    size =
        i.usable
        ∙ whole_blocks pool_size (block_size (obj_half + obj_half))
        ∙ ap (λ b. block_count (obj_half + obj_half) pool_size * b) (sym i.size);
  };
  frontier_in = omega arith;
  chain = (omega (arith, i.free, i.start), λ _. at_start);
  split = λ j. ground arith;
}
  where
    i : Started (obj_half + obj_half) (pool_half + pool_half) pool_size s
    i = init-Started (obj_half + obj_half) (pool_half + pool_half) pool_size m e

    at_start : s.mem (addr s.pool 0) % 2 ≡ 1
    at_start =
        let here : addr s.pool 0 ≡ pool_half + pool_half = omega (arith, i.start) in
        ap (λ a. s.mem a % 2) here ∙ ap (λ w. w % 2) i.marked

-- What a client can do with a pool: the state it reaches, and the blocks that it then holds.
pub data Reach (start : PoolState) (n : ℕ) : PoolState → List ℕ → Type 0 where
  fresh : Reach start n start []
  alloc :
      {s s' : PoolState} {used : List ℕ} (i : ℕ)
      → Reach start n s used
      → mem_pool_alloc s ≡ some (addr s.pool i, s')
      → Reach start n s' (i ∷ used)
  refused :
      {s s' : PoolState} {used : List ℕ}
      → Reach start n s used
      → mem_pool_alloc s ≡ some (0, s')
      → Reach start n s' used
  give_back :
      {s : PoolState} {used : List ℕ} (i : ℕ)
      → Reach start n s used
      → count i used ≢ 0
      → Reach start n (mem_pool_free s (addr s.pool i)) (erase i used)
  client_write :
      {s : PoolState} {used : List ℕ} (a w : ℕ)
      → Reach start n s used
      → ((i : ℕ) → i < n → a < addr s.pool i + 8 → addr s.pool i < a + 8 → count i used ≢ 0)
      → Reach start n (record s { mem = write s.mem a w }) used

alloc_step :
    {s s' : PoolState} {n : ℕ} {used : List ℕ} (i : ℕ)
    → IsValid s n used
    → Allocated s n used
    → mem_pool_alloc s ≡ some (addr s.pool i, s')
    → IsValid s' n (i ∷ used)
alloc_step {s} i v (full e all) got = absurd (addr_pos v.laid i (ground (arith, e)))
alloc_step {s} {s'} {n} {used} i v (block j t e inside unheld _ _ valid) got =
    subst (λ k. IsValid s' n (k ∷ used)) (addr_injective v.laid j i (ground (arith, e)))
      (subst (λ u. IsValid u n (j ∷ used)) (ground (arith, e)) valid)

refused_step :
    {s s' : PoolState} {n : ℕ} {used : List ℕ}
    → IsValid s n used
    → Allocated s n used
    → mem_pool_alloc s ≡ some (0, s')
    → IsValid s' n used
refused_step {n} {used} v (full e all) got = subst (λ u. IsValid u n used) (ground (arith, e)) v
refused_step v (block j t e inside unheld _ _ valid) got =
    absurd (addr_pos v.laid j (ground (arith, e)))

pub Reach-IsValid :
    {start : PoolState} {n : ℕ} {s : PoolState} {used : List ℕ}
    → IsValid start n []
    → Reach start n s used
    → IsValid s n used
Reach-IsValid v fresh = v
Reach-IsValid v (alloc i r e) =
    let before = Reach-IsValid v r in alloc_step i before (alloc-Allocated before) e
Reach-IsValid v (refused r e) =
    let before = Reach-IsValid v r in refused_step before (alloc-Allocated before) e
Reach-IsValid v (give_back i r held) = free-IsValid i (Reach-IsValid v r) held
Reach-IsValid v (client_write a w r own) = client_write-IsValid a w (Reach-IsValid v r) own

-- From a pool initialised at an even address with an even object size, whatever sequence of
-- allocations, frees of held blocks and writes that keep off the blocks not held: the client holds
-- each block of the pool at most once, and none outside it.
pub Reach-exclusive :
    (obj_half pool_half pool_size : ℕ) (m : Memory) {start s : PoolState} {used : List ℕ}
    → init_mem_pool (obj_half + obj_half) (pool_half + pool_half) pool_size true m ≡ some start
    → Reach start (block_count (obj_half + obj_half) pool_size) s used
    → (i : ℕ)
    → count i used ≤ (if ltb i (block_count (obj_half + obj_half) pool_size) then 1 else 0)
Reach-exclusive obj_half pool_half pool_size m {s} {used} e r i =
    ground (arith, v.split i, v.frontier_in)
  where
    v : IsValid s (block_count (obj_half + obj_half) pool_size) used
    v = Reach-IsValid (init_mem_pool-IsValid obj_half pool_half pool_size m e) r
