-- ===== src/MemPool/Invariant.antt =====
-- The pool's invariant: every block below the frontier is either free, once in the chain, or in the
-- hands of the client, once.
use embedded_usbip.Prelude.{
  ℕ, ◌+◌, ◌≤◌, ◌<◌, ◌%◌, ◌≡◌, ◌≢◌, arith, List, ◌∷◌, ltb, if◌then◌else◌, ap, ◌∙◌, some,
}
use embedded_usbip.MemPool.{PoolState, end_of, mem_pool_alloc, take_fresh, take_freed}
use embedded_usbip.MemPool.Blocks.{count, IsLaidOut, addr, addr_injective, addr_pos, Chain}

-- `used` are the indices of the blocks that the client holds, of `n` blocks.
pub record IsValid (s : PoolState) (n : ℕ) (used : List ℕ) : Type 0 where
  pub free_list : List ℕ
  pub frontier : ℕ
  pub laid : IsLaidOut s.pool n
  pub frontier_in : frontier ≤ n
  pub chain : Chain s.pool s.mem n frontier s.pool.free_block free_list
  pub split : (i : ℕ) → count i free_list + count i used ≡ (if ltb i frontier then 1 else 0)

-- What an allocation gives: NULL and no change when every block is held, or else a block that is
-- not held, which is held from then on.
pub data Allocated (s : PoolState) (n : ℕ) (used : List ℕ) : Type 0 where
  full : mem_pool_alloc s ≡ some (0, s) → ((i : ℕ) → i < n → count i used ≡ 1) → Allocated s n used
  block :
      (i : ℕ) (s' : PoolState)
      → mem_pool_alloc s ≡ some (addr s.pool i, s')
      → i < n
      → count i used ≡ 0
      → s'.pool.pool_start ≡ s.pool.pool_start
      → s'.pool.obj_size ≡ s.pool.obj_size
      → IsValid s' n (i ∷ used)
      → Allocated s n used

module _ (s : PoolState) {n : ℕ} (laid : IsLaidOut s.pool n) where
  pub end_is : end_of s.pool ≡ addr s.pool n
  end_is = omega (arith, laid.size)

  pub addr-ne-end : (i : ℕ) → i < n → addr s.pool i ≢ end_of s.pool
  addr-ne-end i h e = absurd (omega (arith, addr_injective laid i n (e ∙ end_is)))

  pub alloc_full : s.pool.free_block ≡ addr s.pool n → mem_pool_alloc s ≡ some (0, s)
  unfolding mem_pool_alloc
  alloc_full e = ground (arith, end_is)

  pub alloc_fresh :
      (k : ℕ)
      → k < n
      → s.pool.free_block ≡ addr s.pool k
      → s.mem (addr s.pool k) % 2 ≡ 1
      → mem_pool_alloc s ≡ some (addr s.pool k, take_fresh s)
  unfolding mem_pool_alloc
  alloc_fresh k h e odd = ground (arith, addr-ne-end k h, addr_pos laid k, ap s.mem e)

  pub alloc_freed :
      (i : ℕ)
      → i < n
      → s.pool.free_block ≡ addr s.pool i
      → s.mem (addr s.pool i) % 2 ≡ 0
      → mem_pool_alloc s ≡ some (addr s.pool i, take_freed s)
  unfolding mem_pool_alloc
  alloc_freed i h e even = ground (arith, addr-ne-end i h, addr_pos laid i, ap s.mem e)
