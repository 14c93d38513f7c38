-- ===== src/Vhci.antt =====
-- The virtual host controller of src/usb/vhci.c: the devices that it exports, their numbers, and
-- the calls on requests. Pointers to a `vusb_dev_t` and to a `usb_dev_t` are addresses, 0 is NULL;
-- the addresses that the allocators return are arguments, 0 when they fail. `none` stands for an
-- access through NULL or to memory that is not there.
pub mod Text
pub mod Devices
pub mod Fold
pub mod Lookup
pub mod Register
pub mod Numbers
pub mod History
mod Tests
use embedded_usbip.Prelude.{
  ℕ, ◌+◌, ◌-◌, ◌%◌, ◌^◌, Bool, true, Option, none, some, List, ◌==◌, ◌||◌, leb, if◌then◌else◌,
}
use embedded_usbip.LinkedList.{
  Heap, LinkedList, Pushed, pushed, no_memory, linked_list_init, linked_list_push,
}
use embedded_usbip.UsbDev.{UsbDev}
use embedded_usbip.Urb.{Urb, with_status}
use embedded_usbip.Urb.Errno
use embedded_usbip.Vhci.Text.{snprintf, dev_path, dev_busid}

-- `vhci_handle_t`.
pub record VhciHandle : Type 0 where
  pub devices : LinkedList
  pub last_busnum : ℕ
  pub last_devnum : ℕ

-- The memory: the nodes of the list, the `dev` of each `vusb_dev_t` (its `urb_list` is not used),
-- and the devices.
pub record Store : Type 0 where
  pub heap : Heap
  pub vdevs : ℕ → Option ℕ
  pub devs : ℕ → Option UsbDev

unfoldable pub update : {A : Type 0} → (ℕ → Option A) → ℕ → Option A → ℕ → Option A
update m p c a = if a == p then c else m a

-- `none` is -1.
unfoldable pub vhci_init : Option VhciHandle
unfolding linked_list_init
vhci_init = elim (linked_list_init true true true) [
  | none ↦ none
  | some l ↦ some (record { devices = l; last_busnum = 0; last_devnum = 0 })
]

-- The numbers for the next device: past 65534 the next bus begins.
unfoldable pub next_numbers : VhciHandle → VhciHandle
next_numbers h =
    if leb (2 ^ 16 - 1) h.last_devnum
    then record h { last_devnum = 0; last_busnum = (h.last_busnum + 1) % 2 ^ 32 }
    else h

pub data Registered : Type 0 where
  registered : VhciHandle → Store → Registered
  -- -1 with EINVAL: nothing is changed.
  invalid : Registered
  -- -1: the numbers are taken, and no device is added.
  out_of_memory : VhciHandle → Store → Registered

-- The two `snprintf` calls.
abbrev pub named : UsbDev → UsbDev
named d = record d {
  path = snprintf 256 (dev_path d.busnum d.devnum) d.path;
  busid = snprintf 32 (dev_busid d.busnum d.devnum) d.busid;
}

-- The list has taken the `vusb_dev_t` at `vdev`, or not; `d` is the device at `dev`.
unfoldable pub register_pushed : VhciHandle → Store → (dev vdev : ℕ) → UsbDev → Pushed → Registered
unfolding update
register_pushed h s dev vdev d (pushed l heap) =
    registered (record h { devices = l })
      (record s { heap = heap; devs = update s.devs dev (some (named d)) })
register_pushed h s dev vdev d no_memory =
    out_of_memory h (record s { vdevs = update s.vdevs vdev none })

-- `h` has the numbers for the device at `dev`, which is `d` with these numbers.
unfoldable pub register_numbered :
    (vdev node : ℕ) → VhciHandle → (dev : ℕ) → UsbDev → Store → Option Registered
unfolding register_pushed update linked_list_push
register_numbered vdev node h dev d s =
    let s' = record s { devs = update s.devs dev (some d) } in
    if vdev == 0
    then some (out_of_memory h s')
    else let s'' = record s' { vdevs = update s'.vdevs vdev (some dev) } in
      elim (linked_list_push node h.devices vdev s''.heap) [
        | none ↦ none
        | some r ↦ some (register_pushed h s'' dev vdev d r)
      ]

-- `vdev` and `node` are what the two allocators return. The handle is `none` for NULL.
unfoldable pub vhci_register_dev :
    (vdev node : ℕ) → Option VhciHandle → (dev : ℕ) → Store → Option Registered
unfolding next_numbers register_numbered
vhci_register_dev vdev node none dev s = some invalid
vhci_register_dev vdev node (some h) dev s = if dev == 0 then some invalid else elim (s.devs dev) [
  | none ↦ none
  | some d ↦
      let n = next_numbers h in
      register_numbered vdev node (record n { last_devnum = (n.last_devnum + 1) % 2 ^ 32 }) dev
        (record d { devnum = n.last_devnum; busnum = n.last_busnum }) s
]

unfoldable pub vhci_urb_init : Urb → Urb
vhci_urb_init urb = with_status 0 urb

-- Both return -1; the result is `errno`.
unfoldable pub vhci_submit_urb : VhciHandle → Urb → ℕ
vhci_submit_urb h urb = Errno.enotsup

unfoldable pub vhci_unlink_urb : VhciHandle → (dev seq_num : ℕ) → ℕ
vhci_unlink_urb h dev seq_num = Errno.enotsup
