-- ===== src/Usbip/Interfaces.antt =====
-- What a client's fifo holds behind `usb_dev_if_to_buf`.
use embedded_usbip.Prelude.{
  ℕ, ◌%◌, ◌+◌, ◌≤◌, ◌<◌, ◌≡◌, refl, ap, sym, ◌∙◌, true, Option, none, some, List, [], ◌∷◌, ◌++◌,
  length, length-append, append_assoc, arith, append-nil,
}
use embedded_usbip.StreamFifo.{StreamFifo, IsValid, contents}
use embedded_usbip.UsbDev.{UsbDev, UsbConf, UsbIfGroup, UsbIf, usb_dev_get_config}
use embedded_usbip.Usbip.{Sent, if_temp, push_ifs, push_groups, usb_dev_if_to_buf}
use embedded_usbip.Usbip.Pushing.{Appended, contents_admitted, Appended-push, grown}

-- The class, subclass and protocol of each interface, and a zero byte.
abbrev pub if_bytes : List UsbIf → List ℕ
if_bytes [] = []
if_bytes (i ∷ is) = if_temp i ++ if_bytes is

abbrev pub group_bytes : List UsbIfGroup → List ℕ
group_bytes [] = []
group_bytes (g ∷ gs) = if_bytes g.interfaces ++ group_bytes gs

abbrev pub conf_if_bytes : Option UsbConf → List ℕ
conf_if_bytes none = []
conf_if_bytes (some conf) = group_bytes conf.interfaces

-- Those of all the interfaces of the configuration with the current value, modulo 256.
abbrev pub dev_if_bytes : UsbDev → List ℕ
dev_if_bytes dev = conf_if_bytes (usb_dev_get_config (some dev) (dev.cur_config % 256))

Appended-nothing : (q : StreamFifo) → IsValid q → Appended q [] (some (true, q))
Appended-nothing q v = (q, refl, v, sym (append-nil (contents q)))

-- The interfaces of a group, and then the rest.
Appended-push_ifs :
    (q : StreamFifo) (is : List UsbIf) (more : List ℕ) (rest : StreamFifo → Sent)
    → IsValid q
    → 4 ≤ length (contents q)
    → length (contents q) + length (if_bytes is) < q.buffer_len
    → ((q' : StreamFifo)
        → IsValid q'
        → q'.buffer_len ≡ q.buffer_len
        → contents q' ≡ contents q ++ if_bytes is
        → Appended q' more (rest q'))
    → Appended q (if_bytes is ++ more) (push_ifs q is rest)
unfolding push_ifs
Appended-push_ifs q [] more rest v some_bytes room go_on =
    go_on q v refl (sym (append-nil (contents q)))
Appended-push_ifs q (i ∷ is) more rest v some_bytes room go_on =
    Appended-push q (if_temp i) (if_bytes is ++ more) _ v (omega arith)
      (omega (arith, contents_admitted q v)) (omega arith)
      (λ q1 v1 same e.
        Appended-push_ifs q1 is more rest v1 (omega (arith, grown q q1 (if_temp i) e))
          (omega (arith, grown q q1 (if_temp i) e))
          (λ q2 v2 same' e'. go_on q2 v2 (same' ∙ same) (
            e'
            ∙ ap (λ l. l ++ if_bytes is) e
            ∙ append_assoc (contents q) (if_temp i) (if_bytes is))))

Appended-push_groups :
    (q : StreamFifo) (gs : List UsbIfGroup)
    → IsValid q
    → 4 ≤ length (contents q)
    → length (contents q) + length (group_bytes gs) < q.buffer_len
    → Appended q (group_bytes gs) (push_groups q gs)
unfolding push_groups
Appended-push_groups q [] v some_bytes room = Appended-nothing q v
Appended-push_groups q (g ∷ gs) v some_bytes room =
    Appended-push_ifs q g.interfaces (group_bytes gs) _ v some_bytes
      (omega (arith, length-append (if_bytes g.interfaces) (group_bytes gs)))
      (λ q' v' same e.
        Appended-push_groups q' gs v' (omega (arith, grown q q' (if_bytes g.interfaces) e)) (
          omega (
            arith,
            grown q q' (if_bytes g.interfaces) e,
            length-append (if_bytes g.interfaces) (group_bytes gs),
          )))

-- On a valid fifo that holds at least four bytes and has room for more than what is sent,
-- `usb_dev_if_to_buf` returns 0, and the fifo then holds behind what it held the class, subclass
-- and protocol and a zero byte of every interface of the configuration whose value is `cur_config`
-- modulo 256, group by group, and nothing if there is no such configuration.
pub usb_dev_if_to_buf-append :
    (q : StreamFifo) (dev : UsbDev)
    → IsValid q
    → 4 ≤ length (contents q)
    → length (contents q) + length (dev_if_bytes dev) < q.buffer_len
    → Appended q (dev_if_bytes dev) (usb_dev_if_to_buf q dev)
unfolding usb_dev_if_to_buf
usb_dev_if_to_buf-append q dev v some_bytes room =
    of_conf (usb_dev_get_config (some dev) (dev.cur_config % 256)) room
  where
    of_conf :
        (c : Option UsbConf)
        → length (contents q) + length (conf_if_bytes c) < q.buffer_len
        → Appended q
            (conf_if_bytes c)
            (elim c [ none ↦ some (true, q) | some conf ↦ push_groups q conf.interfaces ])
    of_conf none fits = Appended-nothing q v
    of_conf (some conf) fits = Appended-push_groups q conf.interfaces v some_bytes fits
