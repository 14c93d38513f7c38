-- ===== src/Urb.antt =====
-- The requests of src/usb/urb.h and the host controller's answers to them in src/usb/vhci.c
-- (`handle_urb` and `handle_get_desc`). A status is the 32-bit pattern of an `int`. `none` stands
-- for an access through NULL or outside the transfer buffer.
pub mod DevReq
pub mod DescType
pub mod Errno
pub mod GetDesc
pub mod Handle
pub mod Config
pub mod Filling
pub mod Status
pub mod Descriptors
mod Tests
use embedded_usbip.Prelude.{
  ℕ, ◌+◌, ◌/◌, ◌%◌, ◌≡◌, Option, none, some, List, [], ◌∷◌, length, copy_in, neg_int,
}
use embedded_usbip.Conv.{to_bytes}

-- `urb_setup_t`.
pub record UrbSetup : Type 0 where
  pub bm_request_type : ℕ
  pub b_request : ℕ
  pub w_value : ℕ
  pub w_index : ℕ
  pub w_length : ℕ

-- `urb_t`, less its callback and context, the packets and the next request. `transfer_buffer` is `none` for
-- NULL, and else the bytes of the buffer.
pub record Urb : Type 0 where
  pub pipe : ℕ
  pub status : ℕ
  pub transfer_buffer : Option (List ℕ)
  pub transfer_buffer_length : ℕ
  pub actual_length : ℕ
  pub setup_packet : UrbSetup
  pub transfer_flags : ℕ
  pub number_of_packets : ℕ
  pub start_frame : ℕ
  pub interval : ℕ
  pub error_count : ℕ
  pub seq_num : ℕ

-- `PIPE_DIR`, `PIPE_TYPE_GET` and `PIPE_EP_GET`, the last as the `uint8_t` of its use.
abbrev pub pipe_dir : ℕ → ℕ
pipe_dir pipe = pipe % 2

abbrev pub pipe_type : ℕ → ℕ
pipe_type pipe = pipe / 2 % 4

abbrev pub pipe_ep : ℕ → ℕ
pipe_ep pipe = pipe / 8 % 256

abbrev pub pipe_in : ℕ
pipe_in = 1

abbrev pub pipe_type_ctrl : ℕ
pipe_type_ctrl = 0

abbrev pub with_status : ℕ → Urb → Urb
with_status s urb = record urb { status = s }

-- Bytes written at an offset of the transfer buffer.
unfoldable pub write_at : Urb → (off : ℕ) → List ℕ → Option Urb
write_at urb off bytes = elim urb.transfer_buffer [
  | none ↦ none
  | some buf ↦ elim (copy_in buf off bytes) [
    | none ↦ none
    | some b ↦ some (record urb { transfer_buffer = some b })
  ]
]
