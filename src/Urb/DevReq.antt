-- ===== src/Urb/DevReq.antt =====
-- `DEV_REQ_STATUS` and the other requests of src/usb/urb.h that the host controller knows.
use embedded_usbip.Prelude.{ℕ}

abbrev pub status : ℕ
status = 0

abbrev pub clr_feat : ℕ
clr_feat = 1

abbrev pub set_feat : ℕ
set_feat = 3

abbrev pub get_desc : ℕ
get_desc = 6

abbrev pub get_conf : ℕ
get_conf = 8

abbrev pub set_conf : ℕ
set_conf = 9

abbrev pub get_if : ℕ
get_if = 10
