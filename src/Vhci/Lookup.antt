-- ===== src/Vhci/Lookup.antt =====
-- What the searches of src/usb/vhci.c return.
use embedded_usbip.Prelude.{
  ℕ, suc, ◌<◌, ◌≡◌, refl, ap, ◌∙◌, Bool, false, Option, none, some, List, arith, length,
  if◌then◌else◌,
}
use embedded_usbip.LinkedList.{World, linked_list_iter}
use embedded_usbip.LinkedList.Shape.{Cells, item_at, IsList, node_at}
use embedded_usbip.LinkedList.Iter.{fold_up, iter-fold_up}
use embedded_usbip.UsbDev.{UsbDev}
use embedded_usbip.Vhci.{VhciHandle, Store}
use embedded_usbip.Vhci.Text.{strncmp_eq}
use embedded_usbip.Vhci.Devices.{
  device_at, world, FindCtx, GetCtx, has_numbers, vhci_find_dev_iter, vhci_find_device,
  vhci_run_once, vhci_get_dev_iter, vhci_get_device,
}
use embedded_usbip.Vhci.Fold.{LastHit, fold_up-LastHit}

-- The list holds the `vusb_dev_t`s `xs`, and each has its device.
pub record IsHandle (s : Store) (h : VhciHandle) (xs : Cells) : Type 0 where
  pub list : IsList s.heap h.devices xs
  pub readable : (i : ℕ) → i < length xs → (d : UsbDev) × (device_at s (item_at xs i) ≡ some d)

-- The test of `vhci_get_dev_iter` on the device of an item.
abbrev pub numbered : Store → (busnum devnum : ℕ) → (item : ℕ) → Bool
numbered s busnum devnum item = elim (device_at s item) [
  | none ↦ false
  | some d ↦ has_numbers busnum devnum d
]

get_step : Store → (item i : ℕ) → GetCtx → GetCtx
get_step s item i c = if numbered s c.busnum c.devnum item then record c { dev = item } else c

-- The test of `vhci_find_dev_iter`, for the text at an address.
abbrev pub named_at : (chars : ℕ → Option (List ℕ)) → Store → (busid : ℕ) → (item : ℕ) → Bool
named_at chars s busid item = elim (device_at s item) [
  | none ↦ false
  | some d ↦ elim (chars busid) [
    | none ↦ false
    | some text ↦ elim (strncmp_eq 32 text d.busid) [ none ↦ false | some same ↦ same ]
  ]
]

find_step : (chars : ℕ → Option (List ℕ)) → Store → (item i : ℕ) → FindCtx → FindCtx
find_step chars s item i c = if named_at chars s c.busid item then record c { dev = item } else c

module _ {s : Store} {h : VhciHandle} {xs : Cells} (is : IsHandle s h xs) where
  get_run :
      (c : GetCtx)
      → linked_list_iter (suc h.devices.size) (vhci_get_dev_iter s) (world s h c)
        ≡ some (world s h (fold_up (get_step s) xs (length xs) 0 c))
  unfolding vhci_get_dev_iter get_step
  get_run c =
      ap (λ n. linked_list_iter (suc n) (vhci_get_dev_iter s) (world s h c)) is.list.size
      ∙ iter-fold_up (get_step s) (vhci_get_dev_iter s) xs (λ e. Unit) (λ item i e u. tt)
          (world s h c) is.list (λ i e lt u. let (d, at) = is.readable i lt in ground (arith, at))
          tt

  -- On the devices of a host controller `vhci_get_device` ends without a fault and returns the last
  -- one that has both numbers, or NULL when none has.
  pub get_device-LastHit :
      (busnum devnum : ℕ)
      → (r : ℕ) × (vhci_get_device s h busnum devnum ≡ some r)
        × LastHit (numbered s busnum devnum) xs (length xs) r
  unfolding vhci_get_device get_step
  get_device-LastHit busnum devnum = (
    (fold_up (get_step s) xs (length xs) 0
        (record { busnum = busnum; devnum = devnum; dev = 0 })).dev,
    ground (arith, get_run (record { busnum = busnum; devnum = devnum; dev = 0 })),
    fold_up-LastHit (numbered s busnum devnum) xs (get_step s) (λ (c : GetCtx). c.dev)
        (λ (c : GetCtx). (c.busnum ≡ busnum) × (c.devnum ≡ devnum))
        (λ item i c p. ground (arith, p))
        (λ item i c p. ground (
          arith,
          p,
          ap (λ b. numbered s b c.devnum item) p.0,
          ap (λ n. numbered s busnum n item) p.1,
        ))
        (record { busnum = busnum; devnum = devnum; dev = 0 }) (refl, refl) refl,
  )

  module _ (chars : ℕ → Option (List ℕ)) (busid : ℕ) where
    -- The text at `busid` can be compared with that of each device.
    abbrev pub Comparable : Type 0
    Comparable =
        (text : List ℕ) × (chars busid ≡ some text)
        × ((i : ℕ) (d : UsbDev)
            → i < length xs
            → device_at s (item_at xs i) ≡ some d
            → (b : Bool) × (strncmp_eq 32 text d.busid ≡ some b))

    find_stays :
        (item i : ℕ) (c : FindCtx) → c.busid ≡ busid → (find_step chars s item i c).busid ≡ busid
    unfolding find_step
    find_stays item i c p = ground (arith, p)

    find_run :
        Comparable
        → linked_list_iter
            (suc h.devices.size)
            (vhci_find_dev_iter chars s
              (λ (w : World FindCtx). w.ctx.busid)
              (λ d (w : World FindCtx). record w { ctx = record (w.ctx) { dev = d } }))
            (world s h (record { busid = busid; dev = 0 }))
          ≡ some (
              world s h
                (fold_up (find_step chars s) xs (length xs) 0 (record { busid = busid; dev = 0 })))
    unfolding vhci_find_dev_iter find_step
    find_run (text, there, ends) =
        ap
          (λ n.
            linked_list_iter (suc n)
              (vhci_find_dev_iter chars s (λ (w : World FindCtx). w.ctx.busid)
                (λ d (w : World FindCtx). record w { ctx = record (w.ctx) { dev = d } }))
              (world s h (record { busid = busid; dev = 0 })))
          is.list.size
        ∙ iter-fold_up (find_step chars s)
            (vhci_find_dev_iter chars s (λ (w : World FindCtx). w.ctx.busid)
              (λ d (w : World FindCtx). record w { ctx = record (w.ctx) { dev = d } }))
            xs (λ c. c.busid ≡ busid) find_stays (world s h (record { busid = busid; dev = 0 }))
            is.list
            (λ i e lt p.
              let (d, at) = is.readable i lt in
              let (b, same) = ends i d lt at in ground (arith, at, there, same, p, ap chars p))
            refl

    -- On the devices of a host controller, with a text that can be compared with each bus id,
    -- `vhci_find_device` ends without a fault and returns the last device with this bus id, or NULL
    -- when none has it.
    pub find_device-LastHit :
        Comparable
        → (r : ℕ) × (vhci_find_device chars s h busid ≡ some r)
          × LastHit (named_at chars s busid) xs (length xs) r
    unfolding vhci_find_device find_step
    find_device-LastHit ok = (
      (fold_up (find_step chars s) xs (length xs) 0 (record { busid = busid; dev = 0 })).dev,
      ground (arith, find_run ok),
      fold_up-LastHit (named_at chars s busid) xs (find_step chars s) (λ (c : FindCtx). c.dev)
          (λ (c : FindCtx). c.busid ≡ busid) find_stays
          (λ item i c p. ground (arith, p, ap (λ b. named_at chars s b item) p))
          (record { busid = busid; dev = 0 }) refl refl,
    )

  -- With a device, and nothing to read at the address that is the number of devices,
  -- `vhci_run_once` faults: it takes this number for the address of a text.
  pub run_once_faults :
      (chars : ℕ → Option (List ℕ))
      → 0 < length xs
      → chars h.devices.size ≡ none
      → vhci_run_once chars s h ≡ none
  unfolding vhci_run_once vhci_find_dev_iter linked_list_iter
  run_once_faults chars some_dev nothing =
      let (d, at) = is.readable 0 some_dev in
      ground (
        arith,
        at,
        nothing,
        is.list.size,
        is.list.first (omega (arith, is.list.size)),
        node_at s.heap 0 xs 0 is.list.linked some_dev,
      )
