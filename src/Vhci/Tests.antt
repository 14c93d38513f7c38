-- ===== src/Vhci/Tests.antt =====
-- One device, registered with a new host controller, and the theorems at it.
use embedded_usbip.Prelude.{
  ℕ, zero, suc, ◌<◌, ◌≡◌, ◌≢◌, ◌⊎◌, refl, some, none, List, [], ◌∷◌, ◌==◌, if◌then◌else◌, arith,
}
use embedded_usbip.LinkedList.{Heap, write, load}
use embedded_usbip.LinkedList.Shape.{Cells, item_at}
use embedded_usbip.UsbDev.{DevDesc, UsbDev}
use embedded_usbip.Vhci.{VhciHandle, Store, update, vhci_init, registered, named, vhci_register_dev}
use embedded_usbip.Vhci.Text.{print_u, print_03d, dev_busid}
use embedded_usbip.Vhci.Devices.{device_at, vhci_get_device}
use embedded_usbip.Vhci.History.{Exports, start, register, Exports-distinct, get_device-register}

abbrev desc : DevDesc
desc = record {
  bcd_usb = 0x200;
  b_device_class = 0xEF;
  b_device_sub_class = 2;
  b_device_protocol = 1;
  b_max_packet_size0 = 64;
  id_vendor = 0;
  id_product = 0;
  bcd_device = 0x200;
  i_manufacturer = 0;
  i_product = 0;
  i_serial_number = 0;
  b_num_configurations = 0;
}

-- A device with these numbers and this bus id.
abbrev numbered_dev : (busnum devnum : ℕ) → List ℕ → UsbDev
numbered_dev busnum devnum busid = record {
  desc = desc;
  strings = [];
  cur_config = 0;
  configurations = [];
  lang_id = 0;
  path = [];
  busid = busid;
  busnum = busnum;
  devnum = devnum;
  speed = 3;
}

bus_id_text : dev_busid 1 205 ≡ 49 ∷ 45 ∷ 50 ∷ 48 ∷ 53 ∷ []
unfolding print_u
bus_id_text = refl

bus_path : print_03d 7 ≡ 48 ∷ 48 ∷ 55 ∷ []
unfolding print_03d
bus_path = refl

-- The devices 0-0 and 0-1 at the addresses 100 and 200, in the list by way of 8 and 24.
abbrev dev0 : UsbDev
dev0 = numbered_dev 0 0 (48 ∷ 45 ∷ 48 ∷ 0 ∷ [])

abbrev dev1 : UsbDev
dev1 = numbered_dev 0 1 (48 ∷ 45 ∷ 49 ∷ 0 ∷ [])

abbrev cells : Cells
cells = (16, 8) ∷ (32, 24) ∷ []

abbrev two : Store
two = record {
  heap = λ a.
      if a == 16
      then some (record { item = 8; next = 32; prev = 0 })
      else if a == 32
      then some (record { item = 24; next = 0; prev = 16 })
      else none;
  vdevs = λ a. if a == 8 then some 100 else if a == 24 then some 200 else none;
  devs = λ a. if a == 100 then some dev0 else if a == 200 then some dev1 else none;
}

abbrev handle : VhciHandle
handle = record {
  devices = record { size = 2; first = 16; last = 32 };
  last_busnum = 0;
  last_devnum = 2;
}

-- The two registrations that lead to such a list.
abbrev empty : Store
empty = record {
  heap = λ a. none;
  vdevs = λ a. none;
  devs = λ a. if a == 100 then some dev0 else if a == 200 then some dev0 else none;
}

abbrev new_handle : VhciHandle
new_handle = record {
  devices = record { size = 0; first = 0; last = 0 };
  last_busnum = 0;
  last_devnum = 0;
}

abbrev heap1 : Heap
heap1 = write (λ a. none) 16 (some (record { item = 8; next = 0; prev = 0 }))

abbrev store1 : Store
store1 = record {
  heap = heap1;
  vdevs = update empty.vdevs 8 (some 100);
  devs = update (update empty.devs 100 (some dev0)) 100 (some (named dev0));
}

abbrev handle1 : VhciHandle
handle1 = record {
  devices = record { size = 1; first = 16; last = 16 };
  last_busnum = 0;
  last_devnum = 1;
}

abbrev store2 : Store
store2 = record {
  heap =
      write (write heap1 16 (some (record { item = 8; next = 32; prev = 0 }))) 32
        (some (record { item = 24; next = 0; prev = 16 }));
  vdevs = update store1.vdevs 24 (some 200);
  devs =
      update (update store1.devs 200 (some (record dev0 { devnum = 1 }))) 200
        (some (named (record dev0 { devnum = 1 })));
}

first_registered :
    vhci_register_dev 8 16 (some new_handle) 100 empty ≡ some (registered handle1 store1)
unfolding vhci_register_dev
first_registered = refl

second_registered :
    vhci_register_dev 24 32 (some handle1) 200 store1 ≡ some (registered handle store2)
unfolding vhci_register_dev update write load
second_registered = ground arith

one_exported : Exports handle1 store1 ((16, 8) ∷ [])
unfolding vhci_init
one_exported =
    register 8 16 100 (start empty refl)
      (record {
        vdev_new = λ i lt. absurd (omega arith);
        dev_new = λ i lt. absurd (omega arith);
        node_new = refl;
      })
      (omega arith) first_registered refl

second_fresh : (i : ℕ) → i < 1 → item_at ((16, 8) ∷ []) i ≢ 24
second_fresh zero lt = omega arith
second_fresh (suc i) lt = absurd (omega arith)

second_dev_fresh : (i : ℕ) → i < 1 → store1.vdevs (item_at ((16, 8) ∷ []) i) ≢ some 200
unfolding update
second_dev_fresh zero lt = ground arith
second_dev_fresh (suc i) lt = absurd (omega arith)

two_exported : Exports handle store2 cells
two_exported =
    register 24 32 200 one_exported
      (record { vdev_new = second_fresh; dev_new = second_dev_fresh; node_new = refl })
      (omega arith) second_registered refl

abbrev named0 : UsbDev
named0 = named dev0

abbrev named1 : UsbDev
named1 = named (record dev0 { devnum = 1 })

first_there : device_at store2 8 ≡ some named0
unfolding device_at update
first_there = refl

second_there : device_at store2 24 ≡ some named1
unfolding device_at update
second_there = refl

get_device-register_example : vhci_get_device store2 handle 0 1 ≡ some 24
get_device-register_example = get_device-register 1 named1 two_exported (omega arith) second_there

Exports-distinct_example : (named0.busnum ≢ named1.busnum) ⊎ (named0.devnum ≢ named1.devnum)
Exports-distinct_example =
    Exports-distinct 0 1 named0 named1 two_exported (omega arith) (omega arith) first_there
      second_there
