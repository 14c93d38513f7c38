-- ===== src/Usbip/Tests.antt =====
-- A device with one configuration of two interfaces, sent to a client.
use embedded_usbip.Prelude.{
  find, ℕ, ◌≡◌, ◌≤◌, ap, none, refl, some, [], ◌∷◌, ◌++◌, replicate, length, arith,
}
use embedded_usbip.StreamFifo.{StreamFifo, IsValid, remaining}
use embedded_usbip.UsbDev.{UsbIf, UsbConf, UsbDev, usb_dev_get_config}
use embedded_usbip.Usbip.{usb_dev_to_buf, usb_dev_if_to_buf}
use embedded_usbip.LinkedList.{linked_list_iter}
use embedded_usbip.Vhci.{VhciHandle, Store}
use embedded_usbip.Vhci.Devices.{vhci_get_device}
use embedded_usbip.Usbip.Commands.{HdrCmd, handle_urb_unlink}
use embedded_usbip.Usbip.Answers.{Answered, unlink_answers, handle_urb_unlink-Answered}
use embedded_usbip.Usbip.Pushing.{Appended}
use embedded_usbip.Usbip.Export.{dev_bytes, usb_dev_to_buf-append}
use embedded_usbip.Usbip.Interfaces.{dev_if_bytes, usb_dev_if_to_buf-append}

abbrev interface : (class : ℕ) → UsbIf
interface class = record {
  desc = record {
    b_interface_number = 0;
    b_alternate_setting = 0;
    b_num_endpoints = 0;
    b_interface_class = class;
    b_interface_sub_class = 2;
    b_interface_protocol = 1;
    i_interface = 0;
  };
  endpoints = [];
}

abbrev conf : UsbConf
conf = record {
  desc = record {
    b_num_interfaces = 2;
    b_configuration_value = 1;
    i_configuration = 0;
    bm_attributes = 0xC0;
    b_max_power = 255;
  };
  interfaces =
      record { interfaces = interface 2 ∷ []; cur_alt_set = 0; if_count = 1 }
      ∷ record { interfaces = interface 10 ∷ []; cur_alt_set = 0; if_count = 1 }
      ∷ [];
  cur_if = 0;
}

abbrev device : UsbDev
device = record {
  desc = record {
    bcd_usb = 0x200;
    b_device_class = 0xEF;
    b_device_sub_class = 2;
    b_device_protocol = 1;
    b_max_packet_size0 = 64;
    id_vendor = 0x1234;
    id_product = 0x5678;
    bcd_device = 0x200;
    i_manufacturer = 0;
    i_product = 0;
    i_serial_number = 0;
    b_num_configurations = 1;
  };
  strings = [];
  cur_config = 1;
  configurations = conf ∷ [];
  lang_id = 0;
  path = replicate 256 47;
  busid = replicate 32 49;
  busnum = 258;
  devnum = 1;
  speed = 2;
}

abbrev fifo : (tail : ℕ) → StreamFifo
fifo t = record { buf = replicate 1024 0; head = 0; tail = t; buffer_len = 1024 }

fifo-IsValid : (t : ℕ) → t ≤ 1024 → IsValid (fifo t)
fifo-IsValid t le = record {
  storage = refl;
  small = omega arith;
  head_in = omega arith;
  tail_in = le;
}

remaining_empty : remaining (fifo 0) ≡ 1024
unfolding remaining
remaining_empty = refl

usb_dev_to_buf-append_example :
    Appended
      (fifo 0)
      (device.path ++ (device.busid ++ dev_bytes device))
      (usb_dev_to_buf (fifo 0) device)
usb_dev_to_buf-append_example =
    usb_dev_to_buf-append (fifo 0) device (fifo-IsValid 0 (omega arith)) refl refl
      (omega (arith, remaining_empty)) (omega arith)

-- The numbers of the device and of its two interfaces.
dev_bytes_test :
    dev_bytes device
    ≡ 2 ∷ 1 ∷ 0 ∷ 0 ∷ 1 ∷ 0 ∷ 0 ∷ 0 ∷ 2 ∷ 0 ∷ 0 ∷ 0 ∷ 0x34 ∷ 0x12 ∷ 0x78 ∷ 0x56 ∷ 0 ∷ 2 ∷ 0xEF ∷ 2
      ∷ 1 ∷ 1 ∷ 1 ∷ 2 ∷ []
unfolding usb_dev_get_config find
dev_bytes_test = refl

dev_if_bytes_test : dev_if_bytes device ≡ 2 ∷ 2 ∷ 1 ∷ 0 ∷ 10 ∷ 2 ∷ 1 ∷ 0 ∷ []
unfolding usb_dev_get_config find
dev_if_bytes_test = refl

usb_dev_if_to_buf-append_example :
    Appended (fifo 312) (dev_if_bytes device) (usb_dev_if_to_buf (fifo 312) device)
usb_dev_if_to_buf-append_example =
    usb_dev_if_to_buf-append (fifo 312) device (fifo-IsValid 312 (omega arith)) (omega arith)
      (omega (arith, ap length dev_if_bytes_test))

-- A host controller with no device, asked for device 1 of bus 0.
abbrev no_devices : VhciHandle
no_devices = record {
  devices = record { size = 0; first = 0; last = 0 };
  last_busnum = 0;
  last_devnum = 0;
}

abbrev empty_store : Store
empty_store = record { heap = λ p. none; vdevs = λ p. none; devs = λ p. none }

abbrev unlink : HdrCmd
unlink = record {
  command = 2;
  seq_num = 7;
  busnum = 0;
  devnum = 1;
  direction = 0;
  endpoint = 0;
  padding = replicate 28 0;
}

no_device_found : vhci_get_device empty_store no_devices 0 1 ≡ some 0
unfolding vhci_get_device linked_list_iter
no_device_found = refl

-- Two answers of 48 bytes.
handle_urb_unlink-Answered_example :
    Answered
      (fifo 0)
      (unlink_answers [] unlink 0)
      (handle_urb_unlink empty_store no_devices [] (fifo 0) unlink)
handle_urb_unlink-Answered_example =
    handle_urb_unlink-Answered empty_store no_devices [] (fifo 0) unlink 0
      (fifo-IsValid 0 (omega arith)) refl (omega (arith, remaining_empty)) (omega arith)
      no_device_found
