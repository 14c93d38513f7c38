-- ===== src/MemPool/Blocks.antt =====
-- Blocks of a pool by their index, and the chain of free blocks.
use embedded_usbip.Prelude.{
  ℕ, suc, ◌+◌, ◌*◌, ◌≤◌, ◌<◌, ◌%◌, ◌≡◌, ◌≢◌, arith, List, [], ◌∷◌, ◌==◌, if◌then◌else◌, inl, inr,
  lt-or-le, ap, ◌∙◌, sym,
}
use mathlib.Core.Path.{subst}
use embedded_usbip.MemPool.{MemPool, Memory}

abbrev pub count : ℕ → List ℕ → ℕ
count i [] = 0
count i (j ∷ js) = (if i == j then 1 else 0) + count i js

-- `n` blocks at even addresses, of an even size that holds a pointer.
pub record IsLaidOut (p : MemPool) (n : ℕ) : Type 0 where
  pub half_size : ℕ
  pub half_start : ℕ
  pub size_even : p.obj_size ≡ half_size + half_size
  pub start_even : p.pool_start ≡ half_start + half_start
  pub size_min : 8 ≤ p.obj_size
  pub start_pos : 0 < p.pool_start
  pub size : p.pool_size ≡ n * p.obj_size

abbrev pub addr : MemPool → ℕ → ℕ
addr p i = p.pool_start + i * p.obj_size

module _ {p : MemPool} {n : ℕ} (l : IsLaidOut p n) where
  open l use {half_size, half_start, size_even, start_even, size_min, start_pos, size}

  mul_lt : (i j : ℕ) → i < j → i * p.obj_size < j * p.obj_size
  mul_lt i j h = grind arith

  pub addr_injective : (i j : ℕ) → addr p i ≡ addr p j → i ≡ j
  addr_injective i j e = elim (lt-or-le i j) [
    | inl lt ↦ absurd (omega (arith, mul_lt i j lt))
    | inr ge ↦ elim (lt-or-le j i) [
      | inl gt ↦ absurd (omega (arith, mul_lt j i gt))
      | inr le ↦ omega arith
    ]
  ]

  pub addr_even : (i : ℕ) → addr p i % 2 ≡ 0
  addr_even i = rw (size_even, start_even) (omega arith)

  pub addr_pos : (i : ℕ) → addr p i ≢ 0
  addr_pos i = omega arith

  pub addr-suc : (i : ℕ) → addr p i + p.obj_size ≡ addr p (suc i)
  addr-suc i = omega arith

-- From the address `fb` the free blocks of index `fs` are linked, each holding the address of the
-- next; behind them stands block `k`, the first that was never allocated, or the end.
abbrev pub Chain : MemPool → Memory → (n k : ℕ) → ℕ → List ℕ → Type 0
Chain p m n k fb [] = (fb ≡ addr p k) × (k ≢ n → m (addr p k) % 2 ≡ 1)
Chain p m n k fb (i ∷ is) =
    (fb ≡ addr p i) × (m (addr p i) % 2 ≡ 0) × Chain p m n k (m (addr p i)) is

-- A change of the memory that spares the chain's blocks leaves the chain.
pub Chain-frame :
    (p : MemPool) (m m' : Memory) (n k fb : ℕ) (fs : List ℕ)
    → ((j : ℕ) → count j fs ≢ 0 → m' (addr p j) ≡ m (addr p j))
    → (k ≢ n → m' (addr p k) ≡ m (addr p k))
    → Chain p m n k fb fs
    → Chain p m' n k fb fs
Chain-frame p m m' n k fb [] same last c = (c.0, λ h. ap (λ w. w % 2) (last h) ∙ c.1 h)
Chain-frame p m m' n k fb (i ∷ is) same last c = (
  c.0,
  ap (λ w. w % 2) (same i (ground arith)) ∙ c.1,
  subst (λ w. Chain p m' n k w is) (sym (same i (ground arith)))
      (Chain-frame p m m' n k (m (addr p i)) is (λ j h. same j (ground arith)) last c.2),
)

pub IsLaidOut-moved :
    {p : MemPool} {n : ℕ} (fb : ℕ) → IsLaidOut p n → IsLaidOut (record p { free_block = fb }) n
IsLaidOut-moved fb l = record {
  half_size = l.half_size;
  half_start = l.half_start;
  size_even = l.size_even;
  start_even = l.start_even;
  size_min = l.size_min;
  start_pos = l.start_pos;
  size = l.size;
}
