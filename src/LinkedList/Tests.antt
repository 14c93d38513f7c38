-- ===== src/LinkedList/Tests.antt =====
-- A list of three nodes, at the addresses 8, 4 and 12, and the theorems at it.
use embedded_usbip.Prelude.{◌+◌, ◌≡◌, refl, some, none, arith, [], ◌∷◌, ◌++◌, ◌==◌, if◌then◌else◌}
use embedded_usbip.LinkedList.{
  Heap, LinkedList, World, pushed, linked_list_push, linked_list_rem, walk, load, linked_list_get,
  linked_list_iter,
}
use embedded_usbip.LinkedList.Shape.{Cells, IsList}
use embedded_usbip.LinkedList.Find.{get_lem}
use embedded_usbip.LinkedList.Iter.{folding, fold_up, iter_lem}
use embedded_usbip.LinkedList.Push.{push-IsList}
use embedded_usbip.LinkedList.Rem.{rem-IsList}

abbrev cells : Cells
cells = (8, 100) ∷ (4, 200) ∷ (12, 300) ∷ []

abbrev heap : Heap
heap a =
    if a == 8
    then some (record { item = 100; next = 4; prev = 0 })
    else if a == 4
    then some (record { item = 200; next = 12; prev = 8 })
    else if a == 12
    then some (record { item = 300; next = 0; prev = 4 })
    else none

abbrev list : LinkedList
list = record { size = 3; first = 8; last = 12 }

is_list : IsList heap list cells
is_list = record {
  linked = (refl, omega arith, refl, (refl, omega arith, refl, (refl, omega arith, refl, tt)));
  size = refl;
  first = λ h. refl;
  last = λ h. refl;
}

get_from_the_end : linked_list_get list 1 heap ≡ some 200
unfolding linked_list_get walk load
get_from_the_end = refl

get_lem_example : linked_list_get list 2 heap ≡ some 300
get_lem_example = get_lem is_list 2

push-IsList_example :
    (l' : LinkedList) × (h' : Heap) × (linked_list_push 16 list 400 heap ≡ some (pushed l' h'))
    × IsList h' l' (cells ++ ((16, 400) ∷ []))
push-IsList_example = push-IsList heap list cells 16 400 is_list (omega arith) refl

-- Summing the items.
iter_lem_example :
    linked_list_iter 4
      (folding (λ item i c. c + item))
      (record { list = list; heap = heap; ctx = 1 })
    ≡ some (record { list = list; heap = heap; ctx = 601 })
unfolding fold_up
iter_lem_example =
    iter_lem (λ item i c. c + item) cells (record { list = list; heap = heap; ctx = 1 }) is_list

abbrev lone_heap : Heap
lone_heap a = if a == 8 then some (record { item = 100; next = 0; prev = 0 }) else none

abbrev lone : World (Unit {0})
lone = record { list = record { size = 1; first = 8; last = 8 }; heap = lone_heap; ctx = tt }

rem-IsList_example :
    (l' : LinkedList) × (h' : Heap) × (linked_list_rem list 1 heap ≡ some (200, l', h'))
    × IsList h' l' ((8, 100) ∷ (12, 300) ∷ [])
    × (h' 4 ≡ none)
rem-IsList_example = rem-IsList is_list 1 (omega arith) (omega arith)
