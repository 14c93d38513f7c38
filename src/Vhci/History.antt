-- ===== src/Vhci/History.antt =====
-- All histories of registrations, and the searches after them.
use embedded_usbip.Prelude.{
  ℕ, ◌-◌, ◌^◌, ◌<◌, ◌≡◌, ◌≢◌, ◌⊎◌, inl, inr, sym, ap, ◌∙◌, subst, true, some, [], ◌∷◌, ◌++◌, arith,
  length, lt-or-le,
}
use embedded_usbip.LinkedList.Shape.{Cells, item_at}
use embedded_usbip.UsbDev.{UsbDev}
use embedded_usbip.Vhci.{VhciHandle, Store, vhci_init, registered, out_of_memory, vhci_register_dev}
use embedded_usbip.Vhci.Devices.{device_at, vhci_get_device}
use embedded_usbip.Vhci.Fold.{LastHit, no_hit, hit}
use embedded_usbip.Vhci.Lookup.{IsHandle, numbered, get_device-LastHit}
use embedded_usbip.Vhci.Numbers.{IsNumbered, IsFresh, register-After}

-- A host controller after its initialisation and some registrations on fewer than 2^32 buses, each of
-- a device that is not registered yet and with a new `vusb_dev_t` and a new node. The memory may have
-- been too small for some of them.
pub data Exports : VhciHandle → Store → Cells → Type 0 where
  start : {h : VhciHandle} (s : Store) → vhci_init ≡ some h → Exports h s []
  register :
      {h h' : VhciHandle} {s s' : Store} {xs ys : Cells} (vdev node dev : ℕ)
      → Exports h s xs
      → IsFresh s xs vdev node dev
      → h.last_busnum < 2 ^ 32 - 1
      → vhci_register_dev vdev node (some h) dev s ≡ some (registered h' s')
      → ys ≡ xs ++ ((node, vdev) ∷ [])
      → Exports h' s' ys
  fail :
      {h h' : VhciHandle} {s s' : Store} {xs : Cells} (vdev node dev : ℕ)
      → Exports h s xs
      → IsFresh s xs vdev node dev
      → h.last_busnum < 2 ^ 32 - 1
      → vhci_register_dev vdev node (some h) dev s ≡ some (out_of_memory h' s')
      → Exports h' s' xs

start-IsNumbered : (h : VhciHandle) (s : Store) → vhci_init ≡ some h → IsNumbered s h []
unfolding vhci_init
start-IsNumbered h s e = record {
  list = record {
    linked = tt;
    size = ground arith;
    first = λ z. ground arith;
    last = λ z. absurd (z (ground arith));
  };
  small = ground arith;
  device = λ i lt. absurd (omega arith);
  below = λ i d lt at. absurd (omega arith);
  increasing = λ i j d e ij lt at at'. absurd (omega arith);
}

pub Exports-IsNumbered :
    {h : VhciHandle} {s : Store} {xs : Cells} → Exports h s xs → IsNumbered s h xs
Exports-IsNumbered {h} (start s e) = start-IsNumbered h s e
Exports-IsNumbered {h} {s} (register vdev node dev before fresh room ran e) =
    subst (IsNumbered s h) (sym e) (register-After ran (Exports-IsNumbered before) fresh room)
Exports-IsNumbered (fail vdev node dev before fresh room ran) =
    register-After ran (Exports-IsNumbered before) fresh room

-- After `vhci_init` and any registrations on fewer than 2^32 buses, each of a device that is not
-- registered yet and with a new `vusb_dev_t` and a new node, some of which may have failed for lack
-- of memory: two devices of the host controller differ in their bus number or their device number.
pub Exports-distinct :
    {h : VhciHandle} {s : Store} {xs : Cells} (i j : ℕ) (d e : UsbDev)
    → Exports h s xs
    → i < j
    → j < length xs
    → device_at s (item_at xs i) ≡ some d
    → device_at s (item_at xs j) ≡ some e
    → (d.busnum ≢ e.busnum) ⊎ (d.devnum ≢ e.devnum)
Exports-distinct i j d e ex ij lt at at' =
    let less = (Exports-IsNumbered ex).increasing i j d e ij lt at at' in
    elim (lt-or-le d.busnum e.busnum) [
      | inl lower ↦ inl (omega arith)
      | inr other ↦ elim (lt-or-le e.busnum d.busnum) [
        | inl higher ↦ inl (omega arith)
        | inr equal ↦ inr (omega arith)
      ]
    ]

numbered_self :
    (s : Store) (item : ℕ) (d : UsbDev)
    → device_at s item ≡ some d
    → numbered s d.busnum d.devnum item ≡ true
numbered_self s item d at = ground (arith, at)

numbered_same :
    (s : Store) (item busnum devnum : ℕ) (e : UsbDev)
    → device_at s item ≡ some e
    → numbered s busnum devnum item ≡ true
    → (e.busnum ≡ busnum) × (e.devnum ≡ devnum)
numbered_same s item busnum devnum e at same = ground (arith, at)

module _ {h : VhciHandle} {s : Store} {xs : Cells} (i : ℕ) (d : UsbDev) (is : IsNumbered s h xs)
    (lt : i < length xs) (at : device_at s (item_at xs i) ≡ some d) where
  -- The last device with the numbers of a device of the list is this device.
  LastHit-self :
      (r : ℕ) → LastHit (numbered s d.busnum d.devnum) xs (length xs) r → r ≡ item_at xs i
  LastHit-self r (no_hit z none_hit) = cc (none_hit i lt, numbered_self s (item_at xs i) d at)
  LastHit-self r (hit k k_in e passed later) = elim (lt-or-le k i) [
    | inl before ↦ cc (later i before lt, numbered_self s (item_at xs i) d at)
    | inr after ↦ elim (lt-or-le i k) [
      | inr same ↦ e ∙ ap (item_at xs) (omega arith)
      | inl behind ↦
          let (f, at') = is.device k k_in in
          let (b, n) = numbered_same s (item_at xs k) d.busnum d.devnum f at' passed in
          let less = is.increasing i k d f behind k_in at at' in absurd (omega arith)
    ]
  ]

-- After `vhci_init` and any registrations on fewer than 2^32 buses, each of a device that is not
-- registered yet and with a new `vusb_dev_t` and a new node, some of which may have failed for lack
-- of memory: `vhci_get_device` with the numbers of a device of the host controller returns this
-- device.
pub get_device-register :
    {h : VhciHandle} {s : Store} {xs : Cells} (i : ℕ) (d : UsbDev)
    → Exports h s xs
    → i < length xs
    → device_at s (item_at xs i) ≡ some d
    → vhci_get_device s h d.busnum d.devnum ≡ some (item_at xs i)
get_device-register {h} {s} {xs} i d ex lt at =
    let is = Exports-IsNumbered ex in
    let handle : IsHandle s h xs = record { list = is.list; readable = is.device } in
    let (r, run, last) = get_device-LastHit handle d.busnum d.devnum in
    run ∙ ap some (LastHit-self i d is lt at r last)
