-- ===== src/Vhci/Fold.antt =====
-- What a search that goes on behind its first hit leaves: the last hit.
use embedded_usbip.Prelude.{
  ℕ, zero, suc, ◌+◌, ◌<◌, ◌≡◌, inl, inr, sym, subst, Bool, true, false, arith, length, Bool-cases,
  lt-or-le, if◌then◌else◌,
}
use embedded_usbip.LinkedList.Shape.{Cells, item_at}
use embedded_usbip.LinkedList.Iter.{fold_up}

-- Of the first `n` items of `xs`, `r` is the last one that passes the test; it is 0 when none does.
pub data LastHit (test : ℕ → Bool) (xs : Cells) (n r : ℕ) : Type 0 where
  no_hit : r ≡ 0 → ((j : ℕ) → j < n → test (item_at xs j) ≡ false) → LastHit test xs n r
  hit :
      (i : ℕ)
      → i < n
      → r ≡ item_at xs i
      → test (item_at xs i) ≡ true
      → ((j : ℕ) → i < j → j < n → test (item_at xs j) ≡ false)
      → LastHit test xs n r

module _ (test : ℕ → Bool) (xs : Cells) where
  at_or_below :
      (n j : ℕ)
      → j < suc n
      → test (item_at xs n) ≡ false
      → (j < n → test (item_at xs j) ≡ false)
      → test (item_at xs j) ≡ false
  at_or_below n j lt at below = elim (lt-or-le j n) [
    | inl small ↦ below small
    | inr large ↦ subst (λ k. test (item_at xs k) ≡ false) {x = n} {y = j} (omega arith) at
  ]

  LastHit-step :
      (n r : ℕ)
      → LastHit test xs n r
      → LastHit test xs (suc n) (if test (item_at xs n) then item_at xs n else r)
  LastHit-step n r (no_hit z below) = elim (Bool-cases (test (item_at xs n))) [
    | inl now ↦ hit n (omega arith) (ground (arith, now)) now (λ j gt lt. absurd (omega arith))
    | inr miss ↦ no_hit (ground (arith, miss)) (λ j lt. at_or_below n j lt miss (below j))
  ]
  LastHit-step n r (hit i lt e passed later) = elim (Bool-cases (test (item_at xs n))) [
    | inl now ↦ hit n (omega arith) (ground (arith, now)) now (λ j gt lt'. absurd (omega arith))
    | inr miss ↦
        hit i (omega arith) (ground (arith, miss)) passed
          (λ j gt lt'. at_or_below n j lt' miss (later j gt))
  ]

  -- A fold that keeps the last hit in a part of its context, where `P` holds.
  module _ {C : Type 0} (f : (item i : ℕ) → C → C) (dev : C → ℕ) (P : C → Type 0)
      (stays : (item i : ℕ) (c : C) → P c → P (f item i c))
      (keeps : (item i : ℕ) (c : C)
        → P c
        → dev (f item i c) ≡ (if test item then item else dev c)) where
    fold_up-LastHit_from :
        (k i : ℕ) (c : C)
        → P c
        → LastHit test xs i (dev c)
        → LastHit test xs (i + k) (dev (fold_up f xs k i c))
    unfolding fold_up
    fold_up-LastHit_from zero i c p h =
        subst (λ n. LastHit test xs n (dev c)) {x = i} (omega arith) h
    fold_up-LastHit_from (suc k) i c p h =
        subst (λ n. LastHit test xs n (dev (fold_up f xs k (suc i) (f (item_at xs i) i c))))
          {x = suc i + k} (omega arith)
          (fold_up-LastHit_from k (suc i) (f (item_at xs i) i c) (stays (item_at xs i) i c p) (
            subst (LastHit test xs (suc i)) (sym (keeps (item_at xs i) i c p))
              (LastHit-step i (dev c) h)))

    pub fold_up-LastHit :
        (c : C) → P c → dev c ≡ 0 → LastHit test xs (length xs) (dev (fold_up f xs (length xs) 0 c))
    fold_up-LastHit c p e =
        subst (λ n. LastHit test xs n (dev (fold_up f xs (length xs) 0 c))) {x = 0 + length xs}
          (omega arith)
          (fold_up-LastHit_from (length xs) 0 c p (no_hit e (λ j lt. absurd (omega arith))))
