-- ===== src/Vhci/Devices.antt =====
-- The iterations of src/usb/vhci.c over its devices. The loop of `linked_list_iter` makes at most
-- `size` rounds, so `size + 1` units of fuel are enough for a callback that does not lengthen the
-- list.
use embedded_usbip.Prelude.{
  ℕ, suc, Bool, false, Option, none, some, List, ◌==◌, ◌&&◌, if◌then◌else◌,
}
use embedded_usbip.LinkedList.{World, Callback, linked_list_iter}
use embedded_usbip.UsbDev.{UsbDev}
use embedded_usbip.Vhci.{VhciHandle, Store}
use embedded_usbip.Vhci.Text.{strncmp_eq}

-- `dev->dev` of the `vusb_dev_t` at an address.
unfoldable pub device_at : Store → (vdev : ℕ) → Option UsbDev
device_at s vdev = elim (s.vdevs vdev) [ none ↦ none | some dev ↦ s.devs dev ]

abbrev pub world : {C : Type 0} → Store → VhciHandle → C → World C
world s h c = record { list = h.devices; heap = s.heap; ctx = c }

module _ {C : Type 0} (user_cb : (dev : ℕ) → World C → Option (World C)) where
  unfoldable pub vhci_iter_internal : Callback C
  vhci_iter_internal item i w = elim (user_cb item w) [ none ↦ none | some w' ↦ some (false, w') ]

  unfoldable pub vhci_iter_devices : Store → VhciHandle → C → Option (World C)
  unfolding vhci_iter_internal
  vhci_iter_devices s h user_ctx =
      linked_list_iter (suc h.devices.size) vhci_iter_internal (world s h user_ctx)

-- `vhci_find_dev_ctx_t`: the address of a text, and a `vusb_dev_t`.
pub record FindCtx : Type 0 where
  pub busid : ℕ
  pub dev : ℕ

-- `vhci_find_dev_iter`. `chars` gives the bytes at an address that a text is read from; `busid_of`
-- and `set_dev` say where the context lies.
module _ {C : Type 0} (chars : ℕ → Option (List ℕ)) (s : Store) (busid_of : World C → ℕ)
    (set_dev : ℕ → World C → World C) where
  unfoldable pub vhci_find_dev_iter : Callback C
  vhci_find_dev_iter item i w = elim (device_at s item) [
    | none ↦ none
    | some d ↦ elim (chars (busid_of w)) [
      | none ↦ none
      | some text ↦ elim (strncmp_eq 32 text d.busid) [
        | none ↦ none
        | some same ↦ some (false, (if same then set_dev item w else w))
      ]
    ]
  ]

abbrev pub found : World FindCtx → ℕ
found w = w.ctx.dev

-- The address of the `vusb_dev_t`, or NULL.
unfoldable pub vhci_find_device :
    (chars : ℕ → Option (List ℕ)) → Store → VhciHandle → (busid : ℕ) → Option ℕ
unfolding vhci_find_dev_iter
vhci_find_device chars s h busid =
    elim (linked_list_iter (suc h.devices.size)
      (vhci_find_dev_iter chars s (λ (w : World FindCtx). w.ctx.busid)
        (λ d (w : World FindCtx). record w { ctx = record (w.ctx) { dev = d } }))
      (world s h (record { busid = busid; dev = 0 }))) [ none ↦ none | some w ↦ some w.ctx.dev ]

-- `vhci_run_once` passes the handle as the context: the address of the text lies where the size of
-- the list is, and the result where its first node is.
unfoldable pub vhci_run_once :
    (chars : ℕ → Option (List ℕ)) → Store → VhciHandle → Option VhciHandle
unfolding vhci_find_dev_iter
vhci_run_once chars s h =
    elim (linked_list_iter (suc h.devices.size)
      (vhci_find_dev_iter chars s (λ w. w.list.size)
        (λ d w. record w { list = record (w.list) { first = d } }))
      (world s h tt)) [ none ↦ none | some w ↦ some (record h { devices = w.list }) ]

-- `vhci_get_dev_ctx_t`.
pub record GetCtx : Type 0 where
  pub busnum : ℕ
  pub devnum : ℕ
  pub dev : ℕ

abbrev pub has_numbers : (busnum devnum : ℕ) → UsbDev → Bool
has_numbers busnum devnum d = (d.busnum == busnum) && (d.devnum == devnum)

unfoldable pub vhci_get_dev_iter : Store → Callback GetCtx
vhci_get_dev_iter s item i w = elim (device_at s item) [
  | none ↦ none
  | some d ↦ some (
    false,
    (if has_numbers w.ctx.busnum w.ctx.devnum d
        then record w { ctx = record (w.ctx) { dev = item } }
        else w),
  )
]

unfoldable pub vhci_get_device : Store → VhciHandle → (busnum devnum : ℕ) → Option ℕ
unfolding vhci_get_dev_iter
vhci_get_device s h busnum devnum =
    elim (linked_list_iter (suc h.devices.size) (vhci_get_dev_iter s)
      (world s h (record { busnum = busnum; devnum = devnum; dev = 0 }))) [
        | none ↦ none
        | some w ↦ some w.ctx.dev
      ]
