-- ===== src/Usbip/Commands.antt =====
-- The answers to commands of src/usbip.c: `write_cmd_response_header`, `get_client_dev`,
-- `handle_urb_unlink` and `urb_complete_cb`. `none` stands for an access outside an array or through
-- NULL; the FIFO of the client is the state.
use embedded_usbip.Prelude.{
  ℕ, ◌-◌, ◌^◌, Bool, Option, none, some, List, ◌++◌, ◌==◌, ◌&&◌, if◌then◌else◌, find, splice,
}
use embedded_usbip.StreamFifo.{StreamFifo, stream_fifo_push}
use embedded_usbip.Conv.{i_bswap32, to_bytes}
use embedded_usbip.Urb.Errno
use embedded_usbip.Vhci.{VhciHandle, Store, vhci_unlink_urb}
use embedded_usbip.Vhci.Devices.{vhci_get_device}

-- `hdr_cmd_t`; the 28 bytes of `padding` are also read and written as a `cmd_t`.
pub record HdrCmd : Type 0 where
  pub command : ℕ
  pub seq_num : ℕ
  pub busnum : ℕ
  pub devnum : ℕ
  pub direction : ℕ
  pub endpoint : ℕ
  pub padding : List ℕ

-- `imported_dev_t` but for its `next`.
pub record ImportedDev : Type 0 where
  pub busnum : ℕ
  pub devnum : ℕ

abbrev pub usbip_cmd_submit : ℕ
usbip_cmd_submit = 1

abbrev pub usbip_ret_submit : ℕ
usbip_ret_submit = 3

abbrev pub usbip_ret_unlink : ℕ
usbip_ret_unlink = 4

abbrev pub enodev : ℕ
enodev = 19

-- A negative error number as a `uint32_t`.
abbrev pub neg32 : ℕ → ℕ
neg32 e = 2 ^ 32 - e

-- The bytes of the packed structure.
abbrev pub hdr_cmd_bytes : HdrCmd → List ℕ
hdr_cmd_bytes hdr =
    to_bytes 4 hdr.command
    ++ (to_bytes 4 hdr.seq_num
        ++ (to_bytes 2 hdr.busnum
            ++ (to_bytes 2 hdr.devnum
                ++ (to_bytes 4 hdr.direction ++ (to_bytes 4 hdr.endpoint ++ hdr.padding)))))

-- `TO_NETWORK_ENDIAN_U32(val)` stored at `cmd` + `off`.
unfoldable pub store32 : (off val : ℕ) → Option HdrCmd → Option HdrCmd
unfolding i_bswap32
store32 off val none = none
store32 off val (some hdr) = elim (i_bswap32 val) [
  | none ↦ none
  | some v ↦ some (record hdr { padding = splice off (to_bytes 4 v) hdr.padding })
]

-- `hdr.command = TO_NETWORK_ENDIAN_U32(command)`, and the same for `seq_num`.
unfoldable pub with_command : (command seq_num : ℕ) → HdrCmd → Option HdrCmd
unfolding i_bswap32
with_command command seq_num hdr = elim (i_bswap32 command) [
  | none ↦ none
  | some c ↦ elim (i_bswap32 seq_num) [
    | none ↦ none
    | some s ↦ some (record hdr { command = c; seq_num = s })
  ]
]

-- The result of the push is not looked at.
unfoldable pub write_cmd_response_header : StreamFifo → Option HdrCmd → Option StreamFifo
write_cmd_response_header fifo none = none
write_cmd_response_header fifo (some cmd) = elim (stream_fifo_push fifo (hdr_cmd_bytes cmd)) [
  | none ↦ none
  | some (n, q) ↦ some q
]

-- The answer with an error: command, sequence number and status.
unfoldable pub write_error : StreamFifo → HdrCmd → (command error : ℕ) → Option StreamFifo
unfolding write_cmd_response_header store32 with_command
write_error fifo hdr command error =
    write_cmd_response_header fifo (store32 0 (neg32 error) (with_command command hdr.seq_num hdr))

abbrev pub is_imported : HdrCmd → ImportedDev → Bool
is_imported hdr i = (i.busnum == hdr.busnum) && (i.devnum == hdr.devnum)

-- The device, 0 for NULL. `imported` is the list of the client.
unfoldable pub get_client_dev :
    Store
    → VhciHandle
    → (imported : List ImportedDev) → StreamFifo
    → HdrCmd
    → Option (ℕ × StreamFifo)
unfolding write_error
get_client_dev s h imported fifo hdr = elim (find (is_imported hdr) imported) [
  | none ↦
      elim (write_error fifo hdr
        (if hdr.command == usbip_cmd_submit then usbip_ret_submit else usbip_ret_unlink)
        Errno.einval) [ none ↦ none | some q ↦ some (0, q) ]
  | some i ↦ elim (vhci_get_device s h hdr.busnum hdr.devnum) [
    | none ↦ none
    | some dev ↦ some (dev, fifo)
  ]
]

-- It returns 0. `vhci_unlink_urb` always returns -1, so the answer with -ECONNRESET is not reached.
unfoldable pub handle_urb_unlink :
    Store → VhciHandle → (imported : List ImportedDev) → StreamFifo → HdrCmd → Option StreamFifo
unfolding get_client_dev
handle_urb_unlink s h imported fifo hdr = elim (get_client_dev s h imported fifo hdr) [
  | none ↦ none
  | some (dev, q) ↦
      let error = if dev == 0 then enodev else vhci_unlink_urb h dev hdr.seq_num in
      write_error q hdr usbip_ret_unlink error
]
