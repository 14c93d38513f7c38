-- ===== src/MemPool/Free.antt =====
-- `mem_pool_free` of a held block, and the client's writes to its blocks.
use mathlib.Core.Path.{subst}
use embedded_usbip.Prelude.{
  ℕ, ◌+◌, ◌<◌, ◌≡◌, ◌≢◌, ◌%◌, arith, List, [], ◌∷◌, ◌==◌, if◌then◌else◌, sym, ap, refl, ◌∙◌,
}
use embedded_usbip.MemPool.{MemPool, Memory, PoolState, write, mem_pool_free}
use embedded_usbip.MemPool.Blocks.{
  count, IsLaidOut, IsLaidOut-moved, addr, addr_injective, addr_even, Chain, Chain-frame,
}
use embedded_usbip.MemPool.Invariant.{IsValid}

-- `used` without one `i`.
abbrev pub erase : ℕ → List ℕ → List ℕ
erase i [] = []
erase i (j ∷ js) = if i == j then js else j ∷ erase i js

count-erase :
    (i j : ℕ) (js : List ℕ)
    → count i js ≢ 0
    → count j (erase i js) + (if j == i then 1 else 0) ≡ count j js
count-erase i j [] h = absurd (h refl)
count-erase i j (k ∷ js) h = ground (arith, count-erase i j js)

free_block-even :
    (p : MemPool) (m : Memory) (n k fb : ℕ) (fs : List ℕ)
    → IsLaidOut p n
    → Chain p m n k fb fs
    → fb % 2 ≡ 0
free_block-even p m n k fb [] l c = ap (λ a. a % 2) c.0 ∙ addr_even l k
free_block-even p m n k fb (i ∷ is) l c = ap (λ a. a % 2) c.0 ∙ addr_even l i

write_at : (m : Memory) (a v : ℕ) → write m a v a ≡ v
unfolding write
write_at m a v = ground arith

write_off : (m : Memory) (a v b : ℕ) → b ≢ a → write m a v b ≡ m b
unfolding write
write_off m a v b h = ground arith

-- Freeing a block that the client holds keeps a pool valid; the client then holds one block less.
pub free-IsValid :
    {s : PoolState} {n : ℕ} {used : List ℕ} (i : ℕ)
    → IsValid s n used
    → count i used ≢ 0
    → IsValid (mem_pool_free s (addr s.pool i)) n (erase i used)
unfolding mem_pool_free
free-IsValid {s} {n} {used} i v held = record {
  free_list = i ∷ v.free_list;
  frontier = v.frontier;
  laid = IsLaidOut-moved _ v.laid;
  frontier_in = v.frontier_in;
  chain = (
    refl,
    ap (λ w. w % 2) at_block
        ∙ free_block-even s.pool s.mem n v.frontier s.pool.free_block v.free_list v.laid v.chain,
    subst (λ w. Chain s.pool new n v.frontier w v.free_list) (sym at_block)
        (Chain-frame s.pool s.mem new n v.frontier s.pool.free_block v.free_list
          (λ j h. off j (ground (arith, v.split j)))
          (λ h. off v.frontier (ground (arith, v.split v.frontier, v.split i))) v.chain),
  );
  split = λ j. ground (arith, v.split j, count-erase i j used);
}
  where
    new : Memory
    new = write s.mem (addr s.pool i) s.pool.free_block

    at_block : new (addr s.pool i) ≡ s.pool.free_block
    at_block = write_at s.mem (addr s.pool i) s.pool.free_block

    off : (j : ℕ) → j ≢ i → new (addr s.pool j) ≡ s.mem (addr s.pool j)
    off j ne =
        write_off s.mem (addr s.pool i) s.pool.free_block (addr s.pool j)
          (λ e. ne (addr_injective v.laid j i e))

-- The client may write any word that does not overlap the first word of a block that it does not
-- hold, and the pool stays valid.
pub client_write-IsValid :
    {s : PoolState} {n : ℕ} {used : List ℕ} (a w : ℕ)
    → IsValid s n used
    → ((i : ℕ) → i < n → a < addr s.pool i + 8 → addr s.pool i < a + 8 → count i used ≢ 0)
    → IsValid (record s { mem = write s.mem a w }) n used
client_write-IsValid {s} {n} {used} a w v own = record {
  free_list = v.free_list;
  frontier = v.frontier;
  laid = v.laid;
  frontier_in = v.frontier_in;
  chain =
      Chain-frame s.pool s.mem (write s.mem a w) n v.frontier s.pool.free_block v.free_list
        (λ j h. off j (λ e. apart j e (ground (arith, v.split j)) (ground (arith, v.split j))))
        (λ h.
          off v.frontier
            (λ e. apart v.frontier e (omega arith) (ground (arith, v.split v.frontier))))
        v.chain;
  split = v.split;
}
  where
    off : (j : ℕ) → addr s.pool j ≢ a → write s.mem a w (addr s.pool j) ≡ s.mem (addr s.pool j)
    off j = write_off s.mem a w (addr s.pool j)

    apart : (j : ℕ) → addr s.pool j ≡ a → j < n → count j used ≡ 0 → ⊥
    apart j e inside free = own j inside (omega arith) (omega arith) free
