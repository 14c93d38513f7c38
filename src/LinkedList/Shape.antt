-- ===== src/LinkedList/Shape.antt =====
-- What it means that a list in the heap holds some items.
use embedded_usbip.Prelude.{
  ℕ, zero, suc, ◌-◌, ◌≤◌, ◌<◌, ◌≡◌, ◌≢◌, refl, Bool, false, some, List, [], ◌∷◌, arith, length,
  ◌==◌, ◌||◌,
}
use embedded_usbip.LinkedList.{Heap, LinkedList, load}

-- The address and the item of each node, in order.
abbrev pub Cells : Type 0
Cells = List (ℕ × ℕ)

-- The address at an index, and NULL past the end.
abbrev pub addr_at : Cells → ℕ → ℕ
addr_at [] i = 0
addr_at ((a, d) ∷ xs) zero = a
addr_at ((a, d) ∷ xs) (suc i) = addr_at xs i

abbrev pub item_at : Cells → ℕ → ℕ
item_at [] i = 0
item_at ((a, d) ∷ xs) zero = d
item_at ((a, d) ∷ xs) (suc i) = item_at xs i

abbrev pub has : ℕ → Cells → Bool
has a [] = false
has a ((b, d) ∷ xs) = (a == b) || has a xs

-- The nodes of `xs` stand in the heap, at distinct addresses, linked both ways; `prev` is the
-- address before the first.
abbrev pub Linked : Heap → ℕ → Cells → Type 0
Linked h prev [] = Unit
Linked h prev ((a, d) ∷ xs) =
    (h a ≡ some (record { item = d; next = addr_at xs 0; prev = prev }))
    × (a ≢ 0)
    × (has a xs ≡ false)
    × Linked h a xs

-- Of an empty list the code reads neither end.
pub record IsList (h : Heap) (l : LinkedList) (xs : Cells) : Type 0 where
  pub linked : Linked h 0 xs
  pub size : l.size ≡ length xs
  pub first : l.size ≢ 0 → l.first ≡ addr_at xs 0
  pub last : l.size ≢ 0 → l.last ≡ addr_at xs (l.size - 1)

-- The address before index `i`.
abbrev pub before : ℕ → Cells → ℕ → ℕ
before prev xs zero = prev
before prev xs (suc i) = addr_at xs i

pub node_at :
    (h : Heap) (prev : ℕ) (xs : Cells) (i : ℕ)
    → Linked h prev xs
    → i < length xs
    → load h (addr_at xs i)
      ≡ some (record { item = item_at xs i; next = addr_at xs (suc i); prev = before prev xs i })
unfolding load
node_at h prev [] i l lt = absurd (omega arith)
node_at h prev ((a, d) ∷ xs) zero l lt = ground arith
node_at h prev ((a, d) ∷ []) (suc i) l lt = absurd (omega arith)
node_at h prev ((a, d) ∷ (b, e) ∷ xs) (suc zero) l lt = ground arith
node_at h prev ((a, d) ∷ (b, e) ∷ xs) (suc (suc i)) l lt =
    node_at h a ((b, e) ∷ xs) (suc i) l.3 (omega arith)

pub addr_at-ne-null :
    (h : Heap) (prev : ℕ) (xs : Cells) (i : ℕ) → Linked h prev xs → i < length xs → addr_at xs i ≢ 0
addr_at-ne-null h prev [] i l lt = absurd (omega arith)
addr_at-ne-null h prev ((a, d) ∷ xs) zero l lt = l.1
addr_at-ne-null h prev ((a, d) ∷ xs) (suc i) l lt = addr_at-ne-null h a xs i l.3 (omega arith)

pub addr_at_end : (xs : Cells) (i : ℕ) → length xs ≤ i → addr_at xs i ≡ 0
addr_at_end [] i h = refl
addr_at_end ((a, d) ∷ xs) zero h = absurd (omega arith)
addr_at_end ((a, d) ∷ xs) (suc i) h = addr_at_end xs i (omega arith)
