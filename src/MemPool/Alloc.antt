-- ===== src/MemPool/Alloc.antt =====
-- `mem_pool_alloc` on a valid pool.
use mathlib.Core.Path.{subst}
use embedded_usbip.Prelude.{
  ℕ, suc, ◌+◌, ◌≤◌, ◌<◌, ◌≡◌, ◌≢◌, ◌%◌, arith, List, [], ◌∷◌, ltb, if◌then◌else◌, inl, inr,
  lt-or-le, sym, refl,
}
use embedded_usbip.MemPool.{PoolState, write, take_fresh, take_freed}
use embedded_usbip.MemPool.Blocks.{count, IsLaidOut, IsLaidOut-moved, addr, addr-suc, Chain}
use embedded_usbip.MemPool.Invariant.{
  IsValid, Allocated, full, block, addr-ne-end, alloc_full, alloc_fresh, alloc_freed,
}

-- The block at the frontier is handed out, and the frontier moves on.
fresh-IsValid :
    (s : PoolState) (n k : ℕ) (used : List ℕ)
    → IsLaidOut s.pool n
    → k < n
    → s.pool.free_block ≡ addr s.pool k
    → ((i : ℕ) → count i used ≡ (if ltb i k then 1 else 0))
    → IsValid (take_fresh s) n (k ∷ used)
unfolding take_fresh write
fresh-IsValid s n k used l h e split = record {
  free_list = [];
  frontier = suc k;
  laid = IsLaidOut-moved _ l;
  frontier_in = h;
  chain = (moved, marked);
  split = λ i. ground (arith, split i);
}
  where
    moved : s.pool.free_block + s.pool.obj_size ≡ addr s.pool (suc k)
    moved = omega (arith, addr-suc l k)

    marked : suc k ≢ n → (take_fresh s).mem (addr s.pool (suc k)) % 2 ≡ 1
    marked ne = ground (arith, moved, addr-ne-end s l (suc k))

-- The first block of the chain is handed out.
freed-IsValid :
    (s : PoolState) (n k i : ℕ) (is used : List ℕ)
    → IsLaidOut s.pool n
    → k ≤ n
    → Chain s.pool s.mem n k s.pool.free_block (i ∷ is)
    → ((j : ℕ) → count j (i ∷ is) + count j used ≡ (if ltb j k then 1 else 0))
    → IsValid (take_freed s) n (i ∷ used)
unfolding take_freed
freed-IsValid s n k i is used l h c split = record {
  free_list = is;
  frontier = k;
  laid = IsLaidOut-moved _ l;
  frontier_in = h;
  chain = subst (λ a. Chain s.pool s.mem n k (s.mem a) is) (sym c.0) c.2;
  split = λ j. ground (arith, split j);
}

alloc_cases :
    (s : PoolState) (n k : ℕ) (fs used : List ℕ)
    → IsLaidOut s.pool n
    → k ≤ n
    → Chain s.pool s.mem n k s.pool.free_block fs
    → ((j : ℕ) → count j fs + count j used ≡ (if ltb j k then 1 else 0))
    → Allocated s n used
unfolding take_fresh take_freed
alloc_cases s n k [] used l h c split = elim (lt-or-le k n) [
  | inl lt ↦
      block k (take_fresh s) (alloc_fresh s l k lt c.0 (c.1 (omega arith))) lt
        (ground (arith, split k)) refl refl
        (fresh-IsValid s n k used l lt c.0 (λ i. omega (arith, split i)))
  | inr ge ↦
      full
        (alloc_full s l (
          let last : k ≡ n = omega arith in
          subst (λ m. s.pool.free_block ≡ addr s.pool m) last c.0))
        (λ i lt. ground (arith, split i))
]
alloc_cases s n k (i ∷ is) used l h c split =
    block i (take_freed s) (alloc_freed s l i inside c.0 c.1) inside (ground (arith, split i)) refl
      refl (freed-IsValid s n k i is used l h c split)
  where
    inside : i < n
    inside = ground (arith, split i)

-- On a valid pool of `n` blocks `mem_pool_alloc` never reads through NULL: either all `n` blocks
-- are held and it returns NULL and changes nothing, or it returns a block of the pool that is not
-- held, and the pool is valid with this block held.
pub alloc-Allocated :
    {s : PoolState} {n : ℕ} {used : List ℕ} → IsValid s n used → Allocated s n used
alloc-Allocated {s} {n} {used} v =
    alloc_cases s n v.frontier v.free_list used v.laid v.frontier_in v.chain v.split
