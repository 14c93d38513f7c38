-- ===== src/Vhci/Register.antt =====
-- What `vhci_register_dev` comes to, and what it leaves alone.
use embedded_usbip.Prelude.{
  ℕ, ◌+◌, ◌%◌, ◌^◌, ◌≤◌, ◌≡◌, ◌≢◌, inl, inr, refl, false, Option, none, some, [], ◌∷◌, ◌++◌, arith,
  lt-or-le, Option-cases,
}
use embedded_usbip.LinkedList.{Heap, LinkedList, no_memory, linked_list_push}
use embedded_usbip.LinkedList.Shape.{Cells, has, IsList}
use embedded_usbip.LinkedList.Push.{push-IsList}
use embedded_usbip.UsbDev.{UsbDev}
use embedded_usbip.Vhci.{
  VhciHandle, Store, update, next_numbers, Registered, registered, invalid, out_of_memory, named,
  register_pushed, register_numbered, vhci_register_dev,
}
use embedded_usbip.Vhci.Devices.{device_at}

-- The handle with the numbers of the next device taken.
abbrev pub taken : VhciHandle → VhciHandle
taken h = record h {
  last_busnum = (next_numbers h).last_busnum;
  last_devnum = ((next_numbers h).last_devnum + 1) % 2 ^ 32;
}

abbrev pub with_numbers : VhciHandle → UsbDev → UsbDev
with_numbers h d = record d {
  devnum = (next_numbers h).last_devnum;
  busnum = (next_numbers h).last_busnum;
}

-- Outside the `vusb_dev_t` at `vdev` and the device at `dev` nothing is changed.
pub record Frame (s s' : Store) (vdev dev : ℕ) : Type 0 where
  pub other_vdevs : (p : ℕ) → p ≢ vdev → s'.vdevs p ≡ s.vdevs p
  pub other_devs : (p : ℕ) → p ≢ dev → s'.devs p ≡ s.devs p

pub device_at-Frame :
    {s s' : Store} {vdev dev : ℕ} (item : ℕ)
    → Frame s s' vdev dev
    → item ≢ vdev
    → s.vdevs item ≢ some dev
    → device_at s' item ≡ device_at s item
unfolding device_at
device_at-Frame {s} item fr ne ne' = elim (Option-cases (s.vdevs item)) [
  | inl e ↦ ground (arith, e, fr.other_vdevs item ne)
  | inr (p, e) ↦ ground (arith, e, fr.other_vdevs item ne, fr.other_devs p, ne')
]

-- The store and the handle after a registration: `d` was at `dev`.
abbrev pub named_at : VhciHandle → UsbDev → UsbDev
named_at h d = named (with_numbers h d)

abbrev pub store_with : Store → VhciHandle → (vdev dev : ℕ) → UsbDev → Heap → Store
store_with s h vdev dev d heap = record {
  heap = heap;
  vdevs = update s.vdevs vdev (some dev);
  devs = update (update s.devs dev (some (with_numbers h d))) dev (some (named_at h d));
}

abbrev pub store_without : Store → VhciHandle → (dev : ℕ) → UsbDev → (ℕ → Option ℕ) → Store
store_without s h dev d vdevs = record s {
  vdevs = vdevs;
  devs = update s.devs dev (some (with_numbers h d));
}

-- What the call comes to when the memory can be read.
pub data Outcome (s : Store) (h : VhciHandle) (xs : Cells) (vdev node dev : ℕ)
    : Registered → Type 0 where
  done :
      (d : UsbDev) (l : LinkedList) (heap : Heap)
      → s.devs dev ≡ some d
      → IsList heap l (xs ++ ((node, vdev) ∷ []))
      → Outcome s h xs vdev node dev
          (registered (record (taken h) { devices = l }) (store_with s h vdev dev d heap))
  full :
      (d : UsbDev) (vdevs : ℕ → Option ℕ)
      → s.devs dev ≡ some d
      → ((p : ℕ) → p ≢ vdev → vdevs p ≡ s.vdevs p)
      → Outcome s h xs vdev node dev (out_of_memory (taken h) (store_without s h dev d vdevs))
  null : dev ≡ 0 → Outcome s h xs vdev node dev invalid

pub next_numbers_devices : (h : VhciHandle) → (next_numbers h).devices ≡ h.devices
unfolding next_numbers
next_numbers_devices h = ground arith

push_null :
    (node vdev : ℕ) (l : LinkedList) (heap : Heap)
    → node ≤ 0
    → linked_list_push node l vdev heap ≡ some no_memory
unfolding linked_list_push
push_null node vdev l heap z = ground (arith, z)

update_twice :
    (m : ℕ → Option ℕ) (p q : ℕ) (a b : Option ℕ) → q ≢ p → update (update m p a) p b q ≡ m q
unfolding update
update_twice m p q a b ne = ground (arith, ne)

module _ {s : Store} {h : VhciHandle} {xs : Cells} (vdev node dev : ℕ)
    (is : IsList s.heap h.devices xs) (new : has node xs ≡ false) where
  pub register_lem :
      (d : UsbDev)
      → s.devs dev ≡ some d
      → (r : Registered) × (vhci_register_dev vdev node (some h) dev s ≡ some r)
        × Outcome s h xs vdev node dev r
  unfolding vhci_register_dev register_numbered register_pushed
  register_lem d e = elim (lt-or-le 0 dev) [
    | inr z ↦ (invalid, ground (arith, z), null (omega arith))
    | inl nz ↦ elim (lt-or-le 0 vdev) [
      | inr zv ↦ (
        out_of_memory (taken h) (store_without s h dev d s.vdevs),
        ground (arith, e, nz, zv, next_numbers_devices h),
        full d s.vdevs e (λ p ne. refl),
      )
      | inl nzv ↦ elim (lt-or-le 0 node) [
        | inr zn ↦ (
          out_of_memory (taken h)
              (store_without s h dev d (update (update s.vdevs vdev (some dev)) vdev none)),
          ground
              (arith, e, nz, nzv, push_null node vdev h.devices s.heap zn, next_numbers_devices h),
          full d (update (update s.vdevs vdev (some dev)) vdev none) e
              (λ p ne. update_twice s.vdevs vdev p (some dev) none ne),
        )
        | inl nzn ↦
            let (l, heap, pushes, is') =
              push-IsList s.heap h.devices xs node vdev is (omega arith) new in
            (
              registered (record (taken h) { devices = l }) (store_with s h vdev dev d heap),
              ground (arith, e, nz, nzv, pushes, next_numbers_devices h),
              done d l heap e is',
            )
      ]
    ]
  ]

pub unreadable :
    (s : Store) (h : VhciHandle) (vdev node dev : ℕ) (r : Registered)
    → s.devs dev ≡ none
    → vhci_register_dev vdev node (some h) dev s ≡ some r
    → invalid ≡ r
unfolding vhci_register_dev
unreadable s h vdev node dev r e ran = ground (arith, e)
