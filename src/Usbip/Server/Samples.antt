-- ===== src/Usbip/Server/Samples.antt =====
-- A server with a listening socket 3, and devices and clients to try it with.
use embedded_usbip.Prelude.{
  ℕ, ◌≡◌, refl, Option, some, none, List, [], ◌∷◌, ◌==◌, if◌then◌else◌, arith, replicate,
}
use embedded_usbip.StreamFifo.{StreamFifo, IsValid, remaining, stream_fifo_length}
use embedded_usbip.LinkedList.{Heap}
use embedded_usbip.LinkedList.Shape.{Cells, IsList}
use embedded_usbip.UsbDev.{UsbDev}
use embedded_usbip.Vhci.{Store}
use embedded_usbip.Usbip.Server.{UsbipClient, UsbipServer, ServerWorld, Sockets, eagain}
use embedded_usbip.Usbip.Server.Dispatch.{Waits}

abbrev pub fifo : StreamFifo
fifo = record { buf = replicate 1024 0; head = 0; tail = 0; buffer_len = 1024 }

pub fifo-IsValid : IsValid fifo
fifo-IsValid = record {
  storage = refl;
  small = omega arith;
  head_in = omega arith;
  tail_in = omega arith;
}

abbrev pub client : UsbipClient
client = record { sock = 4; out_fifo = fifo; imported_devs = [] }

-- The device 0-1 at 100, in the list by way of 8 and 16.
abbrev pub device : UsbDev
device = record {
  desc = record {
    bcd_usb = 0x200;
    b_device_class = 0xEF;
    b_device_sub_class = 2;
    b_device_protocol = 1;
    b_max_packet_size0 = 64;
    id_vendor = 0;
    id_product = 0;
    bcd_device = 0x200;
    i_manufacturer = 0;
    i_product = 0;
    i_serial_number = 0;
    b_num_configurations = 0;
  };
  strings = [];
  cur_config = 0;
  configurations = [];
  lang_id = 0;
  path = replicate 256 47;
  busid = 48 ∷ 45 ∷ 49 ∷ replicate 29 0;
  busnum = 0;
  devnum = 1;
  speed = 3;
}

abbrev pub heap : Heap
heap a = if a == 16 then some (record { item = 8; next = 0; prev = 0 }) else none

abbrev pub store : Store
store = record {
  heap = heap;
  vdevs = λ a. if a == 8 then some 100 else none;
  devs = λ a. if a == 100 then some device else none;
}

abbrev pub cells : Cells
cells = (16, 8) ∷ []

pub is_list : IsList heap (record { size = 1; first = 16; last = 16 }) cells
is_list = record {
  linked = (refl, omega arith, refl, tt);
  size = refl;
  first = λ h. refl;
  last = λ h. refl;
}

-- The server with these devices and clients; its list has the client at 8.
abbrev pub server : (size : ℕ) (clients : ℕ → Option UsbipClient) → UsbipServer
server size clients = record {
  vhci = record {
    devices = record { size = size; first = 16; last = 16 };
    last_busnum = 0;
    last_devnum = size;
  };
  store = store;
  listen_sock = 3;
  clients = clients;
  calls = [];
}

-- The client is at 8.
abbrev pub one_client : ℕ → Option UsbipClient
one_client a = if a == 8 then some client else none

abbrev pub served : (size : ℕ) → ServerWorld
served size = record {
  heap = heap;
  list = record { size = 1; first = 16; last = 16 };
  ctx = server size one_client;
}

abbrev pub alone : ServerWorld
alone = record {
  heap = λ a. none;
  list = record { size = 0; first = 0; last = 0 };
  ctx = server 0 (λ a. none);
}

-- Sockets of which every call returns `value` and these bytes.
abbrev pub answering : Option ℕ → List ℕ → Sockets
answering value bytes cs = record { value = value; errno = eagain; bytes = bytes }

pub waits : (size : ℕ) → Waits (served size) 8 client
unfolding stream_fifo_length
waits size = record { in_memory = refl; nothing = refl }

pub remaining_empty : remaining fifo ≡ 1024
unfolding remaining
remaining_empty = refl
