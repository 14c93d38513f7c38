-- ===== src/Urb/DescType.antt =====
-- `USB_DESC_TYPE_DEV` and the other descriptor types of src/usb/urb.h.
use embedded_usbip.Prelude.{ℕ}

abbrev pub dev : ℕ
dev = 1

abbrev pub conf : ℕ
conf = 2

abbrev pub str : ℕ
str = 3

abbrev pub if_ : ℕ
if_ = 4

abbrev pub ep : ℕ
ep = 5

abbrev pub if_pwr : ℕ
if_pwr = 8
