-- ===== src/Prelude/Search.antt =====
-- Singly linked lists: the walk to the last node, the search for a node, and a change of the node
-- that a search finds.
use Prim.Native.Nat.{◌+◌}
use mathlib.Core.Path.{◌≡◌, refl, ap}
use mathlib.Core.List.{List, [], ◌∷◌, ◌++◌}
use mathlib.Core.Logic.{inl, inr}
use mathlib.Core.Bool.{Bool, true, false}
use mathlib.Core.Option.{Option, none, some}
use native.Mathlib.Omega.{arith}
use embedded_usbip.Prelude.Tests.{if◌then◌else◌, Bool-cases}
use embedded_usbip.Prelude.Lists.{length}

abbrev pub map_option : {A B : Type 0} → (A → B) → Option A → Option B
map_option f none = none
map_option f (some a) = some (f a)

abbrev pub or_else : {A : Type 0} → Option A → Option A → Option A
or_else none b = b
or_else (some a) b = some a

abbrev pub is_some : {A : Type 0} → Option A → Bool
is_some none = false
is_some (some a) = true

module _ {A : Type 0} where
  -- `while (cur->next != NULL) cur = cur->next; cur->next = x`, or the first node of an empty list.
  unfoldable pub link_last : List A → A → List A
  link_last [] x = x ∷ []
  link_last (y ∷ ys) x = y ∷ link_last ys x

  -- `while (cur != NULL) { if (test cur) break; cur = cur->next; }`
  unfoldable pub find : (A → Bool) → List A → Option A
  find test [] = none
  find test (x ∷ xs) = if test x then some x else find test xs

  -- The list after a change through the pointer that `find test` returns.
  unfoldable pub at_first : (A → Bool) → (A → A) → List A → List A
  at_first test f [] = []
  at_first test f (x ∷ xs) = if test x then f x ∷ xs else x ∷ at_first test f xs

  pub link_last-append : (xs : List A) (x : A) → link_last xs x ≡ xs ++ (x ∷ [])
  unfolding link_last
  link_last-append [] x = refl
  link_last-append (y ∷ ys) x = ap (λ l. y ∷ l) (link_last-append ys x)

  pub length-link_last : (xs : List A) (x : A) → length (link_last xs x) ≡ length xs + 1
  unfolding link_last
  length-link_last [] x = omega arith
  length-link_last (y ∷ ys) x = omega (arith, length-link_last ys x)

  pub length-at_first :
      (test : A → Bool) (f : A → A) (xs : List A) → length (at_first test f xs) ≡ length xs
  unfolding at_first
  length-at_first test f [] = refl
  length-at_first test f (x ∷ xs) = ground (arith, length-at_first test f xs)

  pub find-link_last :
      (test : A → Bool) (xs : List A) (x : A)
      → find test (link_last xs x) ≡ or_else (find test xs) (if test x then some x else none)
  unfolding find link_last
  find-link_last test [] x = refl
  find-link_last test (y ∷ ys) x = ground (arith, find-link_last test ys x)

  -- What a search finds passes its test.
  pub find-test : (test : A → Bool) (xs : List A) {x : A} → find test xs ≡ some x → test x ≡ true
  unfolding find
  find-test test [] e = cc
  find-test test (y ∷ ys) {x} e = ground (arith, find-test test ys {x = x})

  pub find-at_first :
      (test : A → Bool) (f : A → A) (xs : List A)
      → ((x : A) → find test xs ≡ some x → test (f x) ≡ true)
      → find test (at_first test f xs) ≡ map_option f (find test xs)
  unfolding find at_first
  find-at_first test f [] keep = refl
  find-at_first test f (x ∷ xs) keep = elim (Bool-cases (test x)) [
    | inl hit ↦ rw (hit, keep x (rw hit))
    | inr miss ↦ rw (miss, miss) (find-at_first test f xs (λ y e. keep y (rw miss e)))
  ]

  -- Another search, for a test that the change leaves false at the node, is not affected.
  pub find-at_first_other :
      (other test : A → Bool) (f : A → A) (xs : List A)
      → ((x : A) → test x ≡ true → (other x ≡ false) × (other (f x) ≡ false))
      → find other (at_first test f xs) ≡ find other xs
  unfolding find at_first
  find-at_first_other other test f [] apart = refl
  find-at_first_other other test f (x ∷ xs) apart =
      ground (arith, apart x, find-at_first_other other test f xs apart)
