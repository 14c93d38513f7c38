-- ===== src/Urb/Handle.antt =====
-- `handle_urb` of src/usb/vhci.c. The completion callback belongs to the submitter: the result says
-- whether it is called.
use embedded_usbip.Prelude.{
  ℕ, ◌%◌, Bool, true, false, Option, none, some, List, [], ◌∷◌, ◌==◌, ◌&&◌, if◌then◌else◌,
}
use embedded_usbip.UsbDev.{StringDesc, UsbDev, usb_dev_get_config, usb_dev_get_if_grp}
use embedded_usbip.Urb.{
  Urb, write_at, with_status, pipe_dir, pipe_type, pipe_ep, pipe_in, pipe_type_ctrl,
}
use embedded_usbip.Urb.DevReq
use embedded_usbip.Urb.Errno
use embedded_usbip.Urb.GetDesc.{handle_get_desc}

-- The device, the request, and whether the completion callback is called with it.
pub record Handled : Type 0 where
  pub dev : UsbDev
  pub urb : Urb
  pub completed : Bool

abbrev pub with_dev : UsbDev → Option Urb → Option (UsbDev × Urb)
with_dev dev none = none
with_dev dev (some u) = some (dev, u)

-- `((uint16_t*)urb->transfer_buffer)[0] = 0`
unfoldable pub get_status : UsbDev → Urb → Option (UsbDev × Urb)
unfolding write_at
get_status dev urb = with_dev dev (write_at (record urb { actual_length = 2 }) 0 (0 ∷ 0 ∷ []))

unfoldable pub get_conf : UsbDev → Urb → Option (UsbDev × Urb)
unfolding write_at
get_conf dev urb =
    if urb.setup_packet.w_length == 1
      && (urb.transfer_buffer_length == 1 && pipe_dir urb.pipe == pipe_in)
    then with_dev dev
        (write_at (record urb { status = 0; actual_length = 1 }) 0 (dev.cur_config % 256 ∷ []))
    else some (dev, with_status Errno.einval urb)

unfoldable pub set_conf : UsbDev → Urb → Option (UsbDev × Urb)
set_conf dev urb = elim (usb_dev_get_config (some dev) (urb.setup_packet.w_value % 256)) [
  | none ↦ some (dev, with_status Errno.einval urb)
  | some conf ↦ some (
    record dev { cur_config = conf.desc.b_configuration_value },
    record urb { actual_length = 0 },
  )
]

unfoldable pub get_if : UsbDev → Urb → Option (UsbDev × Urb)
unfolding write_at
get_if dev urb =
    let u = with_status Errno.einval urb in
    elim (usb_dev_get_if_grp (some dev) (dev.cur_config % 256) (urb.setup_packet.w_index % 256)) [
      | none ↦ some (dev, u)
      | some g ↦
          with_dev dev (write_at (record u { actual_length = 1 }) 0 (g.cur_alt_set % 256 ∷ []))
    ]

module _ (image : StringDesc → List ℕ) where
  -- The `switch` on the request.
  unfoldable pub control : UsbDev → Urb → Option (UsbDev × Urb)
  unfolding get_status get_conf set_conf get_if
  control dev urb =
      let request = urb.setup_packet.b_request in
      if request == DevReq.status
      then get_status dev urb
      else if request == DevReq.clr_feat
      then some (dev, urb)
      else if request == DevReq.set_feat
      then some (dev, urb)
      else if request == DevReq.get_desc
      then with_dev dev (handle_get_desc image dev urb)
      else if request == DevReq.get_conf
      then get_conf dev urb
      else if request == DevReq.set_conf
      then set_conf dev urb
      else if request == DevReq.get_if
      then get_if dev urb
      else some (dev, with_status Errno.enotsup urb)

  unfoldable pub handle_urb : UsbDev → Urb → Option Handled
  unfolding control
  handle_urb dev urb =
      if pipe_ep urb.pipe == 0 && pipe_type urb.pipe == pipe_type_ctrl
      then elim (control dev (record urb { actual_length = 0 })) [
        | none ↦ none
        | some (d, u) ↦ some (record { dev = d; urb = u; completed = true })
      ]
      else some (record { dev = dev; urb = urb; completed = false })
