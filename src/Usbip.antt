-- ===== src/Usbip.antt =====
-- What src/usbip.c sends of a device: `usb_dev_to_buf` and `usb_dev_if_to_buf`, which push its
-- numbers and its interfaces into the byte stream FIFO of a client, for a target with ENDIAN_CONV.
-- `none` stands for an access outside an array; beside the new fifo stands whether the result is 0
-- and not -1.
pub mod Pushing
pub mod Export
pub mod Interfaces
pub mod Commands
pub mod Answers
pub mod Server
mod Tests
use embedded_usbip.Prelude.{
  ℕ, ◌+◌, ◌%◌, Bool, true, false, Option, none, some, List, [], ◌∷◌, ◌++◌, ◌==◌, if◌then◌else◌,
  take, drop, copy_in, copy_out, replicate, get_elem?, leb, length,
}
use embedded_usbip.StreamFifo.{StreamFifo, stream_fifo_push}
use embedded_usbip.UsbDev.{UsbDev, UsbConf, UsbIfGroup, UsbIf, usb_dev_get_config}
use embedded_usbip.Conv.{i_swapcpy16, i_swapcpy32}

abbrev pub Sent : Type 0
Sent = Option (Bool × StreamFifo)

-- `if (stream_fifo_push(fifo, msg, n) == 0) return -1;` and then the rest.
unfoldable pub push_or_fail : StreamFifo → Option (List ℕ) → (StreamFifo → Sent) → Sent
push_or_fail fifo none rest = none
push_or_fail fifo (some msg) rest = elim (stream_fifo_push fifo msg) [
  | none ↦ none
  | some (n, q) ↦ if n == 0 then some (false, q) else rest q
]

-- `WRITE_BUF_NETWORK_ENDIAN_U16` and `_U32` at `buf + off`.
abbrev pub put16 : (off val : ℕ) → Option (List ℕ) → Option (List ℕ)
unfolding i_swapcpy16
put16 off val none = none
put16 off val (some buf) = elim (i_swapcpy16 (drop off buf) val) [
  | none ↦ none
  | some b ↦ some (take off buf ++ b)
]

abbrev pub put32 : (off val : ℕ) → Option (List ℕ) → Option (List ℕ)
unfolding i_swapcpy32
put32 off val none = none
put32 off val (some buf) = elim (i_swapcpy32 (drop off buf) val) [
  | none ↦ none
  | some b ↦ some (take off buf ++ b)
]

-- `*(buf + off) = val`
abbrev pub put8 : (off val : ℕ) → Option (List ℕ) → Option (List ℕ)
put8 off val none = none
put8 off val (some buf) = copy_in buf off ((val % 256) ∷ [])

-- `conf->desc.bNumInterfaces`, 0 without a configuration.
abbrev pub num_interfaces : Option UsbConf → ℕ
num_interfaces none = 0
num_interfaces (some conf) = conf.desc.b_num_interfaces

-- The array `temp` of `usb_dev_to_buf`. The parameter of `usb_dev_get_config` is a `uint8_t`.
unfoldable pub dev_temp : UsbDev → Option (List ℕ)
dev_temp dev = put8 23 (num_interfaces (usb_dev_get_config (some dev) (dev.cur_config % 256))) (
    put8 22 dev.desc.b_num_configurations (
      put8 21 dev.cur_config (
        put8 20 dev.desc.b_device_protocol (
          put8 19 dev.desc.b_device_sub_class (
            put8 18 dev.desc.b_device_class (
              put16 16 dev.desc.bcd_device (
                put16 14 dev.desc.id_product (
                  put16 12 dev.desc.id_vendor (
                    put32 8 dev.speed
                      (put32 4 dev.devnum (put32 0 dev.busnum (some (replicate 32 0)))))))))))))

-- The first `n` bytes of an array.
abbrev pub bytes_of : Option (List ℕ) → (n : ℕ) → Option (List ℕ)
bytes_of none n = none
bytes_of (some buf) n = copy_out buf 0 n

unfoldable pub usb_dev_to_buf : StreamFifo → UsbDev → Sent
unfolding push_or_fail dev_temp
usb_dev_to_buf fifo dev = push_or_fail fifo (copy_out dev.path 0 256) (λ q.
    push_or_fail q (copy_out dev.busid 0 32)
      (λ q'. push_or_fail q' (bytes_of (dev_temp dev) 24) (λ q''. some (true, q''))))

-- The array `temp` of `usb_dev_if_to_buf`.
abbrev pub if_temp : UsbIf → List ℕ
if_temp i =
    i.desc.b_interface_class ∷ i.desc.b_interface_sub_class ∷ i.desc.b_interface_protocol ∷ 0 ∷ []

-- The inner loop, and what follows it.
unfoldable pub push_ifs : StreamFifo → List UsbIf → (StreamFifo → Sent) → Sent
unfolding push_or_fail
push_ifs fifo [] rest = rest fifo
push_ifs fifo (i ∷ is) rest = push_or_fail fifo (some (if_temp i)) (λ q. push_ifs q is rest)

-- The outer loop.
unfoldable pub push_groups : StreamFifo → List UsbIfGroup → Sent
unfolding push_ifs
push_groups fifo [] = some (true, fifo)
push_groups fifo (g ∷ gs) = push_ifs fifo g.interfaces (λ q. push_groups q gs)

unfoldable pub usb_dev_if_to_buf : StreamFifo → UsbDev → Sent
unfolding push_groups
usb_dev_if_to_buf fifo dev = elim (usb_dev_get_config (some dev) (dev.cur_config % 256)) [
  | none ↦ some (true, fifo)
  | some conf ↦ push_groups fifo conf.interfaces
]
