-- ===== src/BlockHeap.antt =====
-- The heap of src/heap.c. Addresses are numbers, 0 is NULL, and the memory gives the `heap_node_t`
-- at each address: the blocks lie one behind the other, each behind its header, so that headers do
-- not overlap. The lowest bit of `next` marks an allocated block. The two loops of `heap_alloc` run
-- on fuel, and `none` means that it ran out.
pub mod Blocks
pub mod Objects
pub mod Align
pub mod Tiled
pub mod Alloc
pub mod Free
pub mod Requests
mod Tests
use Prim.Native.Nat.{bit_and}
use embedded_usbip.Prelude.{
  ℕ, zero, suc, ◌+◌, ◌-◌, ◌*◌, ◌/◌, ◌%◌, Bool, true, false, Option, none, some, ltb, leb, ◌==◌,
  ◌&&◌, ◌||◌, not, if◌then◌else◌, add_size, sub_size,
}

-- `heap_t`.
pub record BlockHeap : Type 0 where
  pub pool_size : ℕ
  pub alignment : ℕ
  pub pool_start : ℕ
  pub blocks : ℕ

-- `heap_node_t`.
pub record HeapNode : Type 0 where
  pub size : ℕ
  pub next : ℕ

abbrev pub Memory : Type 0
Memory = ℕ → HeapNode

unfoldable pub write : Memory → ℕ → HeapNode → Memory
write m a v b = if b == a then v else m b

-- A heap and the memory that it lies in.
pub record HeapState : Type 0 where
  pub heap : BlockHeap
  pub mem : Memory

abbrev pub sizeof_heap_node : ℕ
sizeof_heap_node = 16

-- `alignment` is at least 2 where this is called.
abbrev pub is_aligned : (p alignment : ℕ) → Bool
is_aligned p alignment = bit_and p (alignment - 1) == 0

abbrev pub is_allocated : ℕ → Bool
is_allocated p = p % 2 == 1

abbrev pub set_allocated : ℕ → ℕ
set_allocated p = p / 2 * 2 + 1

abbrev pub clear_allocated : ℕ → ℕ
clear_allocated p = p / 2 * 2

-- `has_heap` is false for a NULL `heap`. `none` is -1 with EINVAL.
unfoldable pub init_heap :
    (has_heap : Bool) (pool pool_size alignment : ℕ) → Memory → Option HeapState
unfolding write
init_heap has_heap pool pool_size alignment m =
    if not has_heap || (pool == 0 || (ltb alignment 2 || not (is_aligned pool alignment)))
    then none
    else some (record {
      heap = record {
        pool_size = pool_size;
        alignment = alignment;
        pool_start = pool;
        blocks = pool;
      };
      mem = write m pool (record { size = sub_size pool_size sizeof_heap_node; next = 0 });
    })

unfoldable pub aligned_size : (size alignment : ℕ) → ℕ
aligned_size size alignment =
    if is_aligned size alignment then size else add_size size (alignment - size % alignment)

-- The block at `cur` takes over the one behind it.
unfoldable pub merge_next : Memory → (cur : ℕ) → Memory
unfolding write
merge_next m cur = write m cur (record {
  size = add_size (m cur).size (add_size (m (m cur).next).size sizeof_heap_node);
  next = (m (m cur).next).next;
})

-- `while (!is_allocated(cur->next) && cur->next != NULL && !is_allocated(cur->next->next))`
unfoldable pub merge_free : (fuel : ℕ) → Memory → (cur : ℕ) → Option Memory
unfolding merge_next
merge_free zero m cur = none
merge_free (suc fuel) m cur =
    elim (not (is_allocated (m cur).next)
      && (not ((m cur).next == 0) && not (is_allocated (m (m cur).next).next))) [
        | true ↦ merge_free fuel (merge_next m cur) cur
        | false ↦ some m
      ]

-- The block at `cur` keeps `size` bytes, and the rest becomes a block, if it is larger than a header.
unfoldable pub split_block : Memory → (cur size : ℕ) → Memory
unfolding write
split_block m cur size =
    let new_block = cur + size + sizeof_heap_node in
    let rest : HeapNode = record {
      size = (m cur).size - size - sizeof_heap_node;
      next = (m cur).next;
    } in
    if ltb sizeof_heap_node ((m cur).size - size)
    then write (write m new_block rest) cur (record { size = size; next = new_block })
    else m

unfoldable pub mark_allocated : Memory → (cur : ℕ) → Memory
unfolding write
mark_allocated m cur = write m cur (record (m cur) { next = set_allocated (m cur).next })

-- `while (cur != NULL)`: the address of the object, or NULL with ENOMEM, and the memory.
unfoldable pub alloc_from : (fuel : ℕ) → Memory → (cur size : ℕ) → Option (ℕ × Memory)
unfolding merge_free split_block mark_allocated
alloc_from zero m cur size = none
alloc_from (suc fuel) m cur size = elim (cur == 0) [
  | true ↦ some (0, m)
  | false ↦ elim (merge_free fuel m cur) [
    | none ↦ none
    | some m' ↦ elim (leb size (m' cur).size && not (is_allocated (m' cur).next)) [
      | true ↦ some (cur + sizeof_heap_node, mark_allocated (split_block m' cur size) cur)
      | false ↦ alloc_from fuel m' (clear_allocated (m' cur).next) size
    ]
  ]
]

-- The object, 0 for NULL with EINVAL or ENOMEM, and the new state. A NULL `heap` is `none`.
unfoldable pub heap_alloc :
    (fuel : ℕ) → Option HeapState → (size : ℕ) → Option (ℕ × Option HeapState)
unfolding alloc_from aligned_size
heap_alloc fuel none size = some (0, none)
heap_alloc fuel (some s) size =
    if size == 0
    then some (0, some s)
    else elim (alloc_from fuel s.mem s.heap.blocks (aligned_size size s.heap.alignment)) [
      | none ↦ none
      | some (p, m) ↦ some (p, some (record s { mem = m }))
    ]

-- The block at `cur` is free, and takes over the one behind it if that is free as well.
unfoldable pub free_block : Memory → (cur : ℕ) → Memory
unfolding write merge_next
free_block m cur =
    let next = clear_allocated (m cur).next in
    let m' = write m cur (record (m cur) { next = next }) in
    if not (next == 0) && not (is_allocated (m' next).next) then merge_next m' cur else m'

-- With EINVAL nothing is changed.
unfoldable pub heap_free : Option HeapState → (obj : ℕ) → Option HeapState
unfolding free_block
heap_free none obj = none
heap_free (some s) obj =
    if obj == 0 then some s else some (record s { mem = free_block s.mem (obj - sizeof_heap_node) })
