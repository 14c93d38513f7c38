-- ===== src/Urb/Errno.antt =====
-- Error numbers of the target's <errno.h>.
use embedded_usbip.Prelude.{ℕ}

abbrev pub enomem : ℕ
enomem = 12

abbrev pub einval : ℕ
einval = 22

abbrev pub enotsup : ℕ
enotsup = 95
