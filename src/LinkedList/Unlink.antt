-- ===== src/LinkedList/Unlink.antt =====
-- What becomes of the nodes of a list when one is taken out.
use embedded_usbip.Prelude.{
  ℕ, zero, suc, ◌-◌, ◌<◌, ◌≡◌, ◌≢◌, refl, ap, ◌∙◌, sym, subst, true, false, some, none, [], ◌∷◌,
  arith, length, ltb, lt-or-le, inl, inr, if◌then◌else◌,
}
use embedded_usbip.LinkedList.{Heap, Node, load, write, set_next, set_prev, unlink}
use embedded_usbip.LinkedList.Shape.{Cells, addr_at, has, before, Linked}
use embedded_usbip.LinkedList.Push.{ne-addr_at}

-- The items less the one at an index.
abbrev pub without : ℕ → Cells → Cells
without i [] = []
without zero (x ∷ xs) = xs
without (suc i) (x ∷ xs) = x ∷ without i xs

pub length-without : (i : ℕ) (xs : Cells) → i < length xs → length (without i xs) ≡ length xs - 1
length-without i [] lt = refl
length-without zero (x ∷ xs) lt = omega arith
length-without (suc i) (x ∷ xs) lt = omega (arith, length-without i xs (omega arith))

pub addr_at-without :
    (i : ℕ) (xs : Cells) (k : ℕ)
    → i < length xs
    → addr_at (without i xs) k ≡ (if ltb k i then addr_at xs k else addr_at xs (suc k))
addr_at-without i [] k lt = absurd (omega arith)
addr_at-without zero ((a, d) ∷ xs) k lt = ground arith
addr_at-without (suc i) ((a, d) ∷ xs) zero lt = ground arith
addr_at-without (suc i) ((a, d) ∷ xs) (suc k) lt =
    ground (arith, addr_at-without i xs k (omega arith))

has-without : (a i : ℕ) (xs : Cells) → has a xs ≡ false → has a (without i xs) ≡ false
has-without a i [] h = refl
has-without a zero ((b, d) ∷ xs) h = ground arith
has-without a (suc i) ((b, d) ∷ xs) h = ground (arith, has-without a i xs)

-- An address that is not NULL and not of a node is none of the addresses, within the list or past it.
ne-any : (a : ℕ) (xs : Cells) (i : ℕ) → a ≢ 0 → has a xs ≡ false → a ≢ addr_at xs i
ne-any a [] i ne h = ne
ne-any a ((b, d) ∷ xs) zero ne h = ground arith
ne-any a ((b, d) ∷ xs) (suc i) ne h = ne-any a xs i ne (ground arith)

-- The addresses of a list are different.
pub addr_at-distinct :
    (h : Heap) (prev : ℕ) (xs : Cells) (i j : ℕ)
    → Linked h prev xs
    → i < j
    → i < length xs
    → addr_at xs i ≢ addr_at xs j
addr_at-distinct h prev [] i j l ij lt = absurd (omega arith)
addr_at-distinct h prev (x ∷ xs) i zero l ij lt = absurd (omega arith)
addr_at-distinct h prev ((a, d) ∷ xs) zero (suc j) l ij lt = ne-any a xs j l.1 l.2
addr_at-distinct h prev ((a, d) ∷ xs) (suc i) (suc j) l ij lt =
    addr_at-distinct h a xs i j l.3 (omega arith) (omega arith)

pub has-null : (h : Heap) (prev : ℕ) (xs : Cells) → Linked h prev xs → has 0 xs ≡ false
has-null h prev [] l = refl
has-null h prev ((a, d) ∷ xs) l = ground (arith, l.1, has-null h a xs l.3)

-- The heap `g` is `h` less the node `p`, whose neighbours, where they are, are linked to one another.
pub record Unlinked (h g : Heap) (p prev next : ℕ) : Type 0 where
  pub same : (q : ℕ) → q ≢ p → q ≢ prev → q ≢ next → g q ≡ h q
  pub at_prev : (n : Node) → prev ≢ 0 → h prev ≡ some n → g prev ≡ some (record n { next = next })
  pub at_next : (n : Node) → next ≢ 0 → h next ≡ some n → g next ≡ some (record n { prev = prev })

-- Nodes that are not changed stay linked.
Linked-same :
    (h g : Heap) (prev : ℕ) (xs : Cells)
    → ((q : ℕ) → has q xs ≡ true → g q ≡ h q)
    → Linked h prev xs
    → Linked g prev xs
Linked-same h g prev [] same l = tt
Linked-same h g prev ((a, d) ∷ xs) same l = (
  same a (ground arith) ∙ l.0,
  l.1,
  l.2,
  Linked-same h g a xs (λ q at. same q (ground (arith, at))) l.3,
)

module _ {h g : Heap} {p : ℕ} where
  -- The node behind the one that is removed, and all after it.
  Linked-behind :
      (prev b e : ℕ) (xs : Cells)
      → Unlinked h g p prev b
      → has p ((b, e) ∷ xs) ≡ false
      → has prev ((b, e) ∷ xs) ≡ false
      → Linked h p ((b, e) ∷ xs)
      → Linked g prev ((b, e) ∷ xs)
  Linked-behind prev b e xs u out out' l = (
    u.at_next _ l.1 l.0,
    l.1,
    l.2,
    Linked-same h g b xs
        (λ q at. u.same q (ground (arith, at)) (ground (arith, at)) (ground (arith, at, l.2))) l.3,
  )

  pub Linked-without :
      (prev : ℕ) (xs : Cells) (i : ℕ)
      → i < length xs
      → p ≡ addr_at xs i
      → Unlinked h g p (before prev xs i) (addr_at xs (suc i))
      → has prev xs ≡ false
      → Linked h prev xs
      → Linked g prev (without i xs)
  Linked-without prev [] i lt e u out l = tt
  Linked-without prev ((a, d) ∷ []) zero lt e u out l = tt
  Linked-without prev ((a, d) ∷ (b, c) ∷ xs) zero lt e u out l =
      Linked-behind prev b c xs u (ap (λ q. has q ((b, c) ∷ xs)) e ∙ l.2) (ground (arith, out))
        (subst (λ q. Linked h q ((b, c) ∷ xs)) (sym e) l.3)
  Linked-without prev ((a, d) ∷ []) (suc i) lt e u out l = absurd (omega arith)
  Linked-without prev ((a, d) ∷ (b, c) ∷ xs) (suc zero) lt e u out l = (
    u.at_prev _ l.1 l.0,
    l.1,
    ground (arith, l.2),
    Linked-without a ((b, c) ∷ xs) zero (omega arith) e u l.2 l.3,
  )
  Linked-without prev ((a, d) ∷ (b, c) ∷ xs) (suc (suc i)) lt e u out l = (
    u.same a (λ q. ne-addr_at a ((b, c) ∷ xs) (suc i) l.2 (omega arith) (q ∙ e))
          (ne-addr_at a ((b, c) ∷ xs) i l.2 (omega arith))
          (ne-any a ((b, c) ∷ xs) (suc (suc i)) l.1 l.2)
        ∙ l.0,
    l.1,
    has-without a (suc i) ((b, c) ∷ xs) l.2,
    Linked-without a ((b, c) ∷ xs) (suc i) (omega arith) e u l.2 l.3,
  )

-- What `unlink` and the release of the node leave behind.
pub unlink-Unlinked :
    (h : Heap) (n m k : Node) (p : ℕ)
    → p ≢ 0
    → p ≢ n.prev
    → p ≢ n.next
    → (n.prev ≢ 0 → n.prev ≢ n.next)
    → (n.prev ≢ 0 → h n.prev ≡ some m)
    → (n.next ≢ 0 → h n.next ≡ some k)
    → (g : Heap) × (unlink n h ≡ some g) × Unlinked h (write g p none) p n.prev n.next
unfolding unlink set_next set_prev load write
unlink-Unlinked h n m k p np npp npn apart at_m at_k = elim (lt-or-le 0 n.prev) [
  | inl some_prev ↦ elim (lt-or-le 0 n.next) [
    | inl some_next ↦ (
      write (write h n.prev (some (record m { next = n.next }))) n.next
          (some (record k { prev = n.prev })),
      ground (
        arith,
        some_prev,
        some_next,
        apart (omega arith),
        at_m (omega arith),
        at_k (omega arith),
      ),
      record {
        same = λ q a b c. ground (arith, a, b, c);
        at_prev =
            λ o ne e. ground (arith, np, npp, npn, apart (omega arith), at_m (omega arith), e);
        at_next =
            λ o ne e. ground (arith, np, npp, npn, apart (omega arith), at_k (omega arith), e);
      },
    )
    | inr no_next ↦ (
      write h n.prev (some (record m { next = n.next })),
      ground (arith, some_prev, no_next, at_m (omega arith)),
      record {
        same = λ q a b c. ground (arith, a, b, c);
        at_prev = λ o ne e. ground (arith, npp, at_m (omega arith), e);
        at_next = λ o ne e. absurd (omega arith);
      },
    )
  ]
  | inr no_prev ↦ elim (lt-or-le 0 n.next) [
    | inl some_next ↦ (
      write h n.next (some (record k { prev = n.prev })),
      ground (arith, no_prev, some_next, at_k (omega arith)),
      record {
        same = λ q a b c. ground (arith, a, b, c);
        at_prev = λ o ne e. absurd (omega arith);
        at_next = λ o ne e. ground (arith, npn, at_k (omega arith), e);
      },
    )
    | inr no_next ↦ (
      h,
      ground (arith, no_prev, no_next),
      record {
        same = λ q a b c. ground (arith, a);
        at_prev = λ o ne e. absurd (omega arith);
        at_next = λ o ne e. absurd (omega arith);
      },
    )
  ]
]

pub loaded : (h : Heap) (p : ℕ) {n : Node} → p ≢ 0 → load h p ≡ some n → h p ≡ some n
unfolding load
loaded h p ne e = ground (arith, ne, e)
