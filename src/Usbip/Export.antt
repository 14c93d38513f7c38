-- ===== src/Usbip/Export.antt =====
-- What a client's fifo holds behind `usb_dev_to_buf`.
use embedded_usbip.Prelude.{
  ℕ, ◌+◌, ◌%◌, ◌≤◌, ◌<◌, ◌≡◌, refl, ap, sym, subst, ◌∙◌, true, Option, some, List, [], ◌∷◌, ◌++◌,
  splice, take, copy_out, length, arith,
}
use embedded_usbip.StreamFifo.{StreamFifo, IsValid, contents, remaining}
use embedded_usbip.UsbDev.{UsbDev, usb_dev_get_config}
use embedded_usbip.Conv.{to_bytes}
use embedded_usbip.Usbip.{
  Sent, put16, put32, push_or_fail, num_interfaces, dev_temp, bytes_of, usb_dev_to_buf,
}
use embedded_usbip.Usbip.Pushing.{
  Appended, contents_admitted, Appended-push, grown, Appended-last, push_or_fail_refused,
}

-- The 24 bytes behind the path and the bus id, the numbers with their low byte first.
abbrev pub dev_bytes : UsbDev → List ℕ
dev_bytes dev =
    to_bytes 4 dev.busnum
    ++ (to_bytes 4 dev.devnum
        ++ (to_bytes 4 dev.speed
            ++ (to_bytes 2 dev.desc.id_vendor
                ++ (to_bytes 2 dev.desc.id_product
                    ++ (to_bytes 2 dev.desc.bcd_device
                        ++ (dev.desc.b_device_class % 256
                            ∷ dev.desc.b_device_sub_class % 256
                            ∷ dev.desc.b_device_protocol % 256
                            ∷ dev.cur_config % 256
                            ∷ dev.desc.b_num_configurations % 256
                            ∷ num_interfaces (usb_dev_get_config (some dev) (dev.cur_config % 256))
                              % 256
                            ∷ []))))))

dev_temp_lem : (dev : UsbDev) → bytes_of (dev_temp dev) 24 ≡ some (dev_bytes dev)
unfolding dev_temp put16 put32 splice
dev_temp_lem dev = refl

take_all : (l : List ℕ) → take (length l) l ≡ l
take_all [] = refl
take_all (x ∷ l) = ap (λ t. x ∷ t) (take_all l)

copy_out_all : (l : List ℕ) (n : ℕ) → length l ≡ n → copy_out l 0 n ≡ some l
copy_out_all l n e = ground (arith, e, ap (λ k. take k l) e, take_all l)

-- The three pushes of `usb_dev_to_buf`.
abbrev pushes : StreamFifo → (path busid bytes : Option (List ℕ)) → Sent
pushes q path busid bytes =
    push_or_fail q path
      (λ q'. push_or_fail q' busid (λ q''. push_or_fail q'' bytes (λ r. some (true, r))))

usb_dev_to_buf-pushes :
    (q : StreamFifo) (dev : UsbDev)
    → length dev.path ≡ 256
    → length dev.busid ≡ 32
    → usb_dev_to_buf q dev ≡ pushes q (some dev.path) (some dev.busid) (some (dev_bytes dev))
unfolding usb_dev_to_buf
usb_dev_to_buf-pushes q dev path busid =
    ap (λ o. pushes q o (copy_out dev.busid 0 32) (bytes_of (dev_temp dev) 24))
      (copy_out_all dev.path 256 path)
    ∙ ap (λ o. pushes q (some dev.path) o (bytes_of (dev_temp dev) 24))
        (copy_out_all dev.busid 32 busid)
    ∙ ap (λ o. pushes q (some dev.path) (some dev.busid) o) (dev_temp_lem dev)

-- On a valid fifo with room for more than the 312 bytes of a device, and for which `remaining` admits
-- the 256 bytes of the path, `usb_dev_to_buf` returns 0, and the fifo then holds the path, the bus id
-- and the 24 bytes of the device behind what it held: the numbers of more than one byte stand there
-- with their low byte first, not in network order.
pub usb_dev_to_buf-append :
    (q : StreamFifo) (dev : UsbDev)
    → IsValid q
    → length dev.path ≡ 256
    → length dev.busid ≡ 32
    → 256 ≤ remaining q
    → length (contents q) + 312 < q.buffer_len
    → Appended q (dev.path ++ (dev.busid ++ dev_bytes dev)) (usb_dev_to_buf q dev)
usb_dev_to_buf-append q dev v path busid admitted room =
    subst (Appended q (dev.path ++ (dev.busid ++ dev_bytes dev)))
      (sym (usb_dev_to_buf-pushes q dev path busid))
      (Appended-push q dev.path (dev.busid ++ dev_bytes dev) _ v (omega arith) (omega arith)
        (omega arith)
        (λ q1 v1 same1 e1.
          Appended-push q1 dev.busid (dev_bytes dev) _ v1 (omega arith)
            (omega (arith, grown q q1 dev.path e1, contents_admitted q1 v1))
            (omega (arith, grown q q1 dev.path e1))
            (λ q2 v2 same2 e2.
              Appended-last q2 (dev_bytes dev) v2 (omega arith)
                (omega (
                  arith,
                  grown q q1 dev.path e1,
                  grown q1 q2 dev.busid e2,
                  contents_admitted q2 v2,
                ))
                (omega (arith, grown q q1 dev.path e1, grown q1 q2 dev.busid e2)))))

-- On a valid fifo that holds at least one byte and less than 24, in one piece, as behind the header of
-- a reply, `usb_dev_to_buf` returns 0, as for a device that was sent, but nothing of it is pushed.
pub usb_dev_to_buf_silent :
    (q : StreamFifo) (dev : UsbDev)
    → IsValid q
    → length dev.path ≡ 256
    → length dev.busid ≡ 32
    → q.head < q.tail
    → length (contents q) < 24
    → usb_dev_to_buf q dev ≡ some (true, q)
usb_dev_to_buf_silent q dev v path busid flat few =
    usb_dev_to_buf-pushes q dev path busid
    ∙ push_or_fail_refused q dev.path _ v flat (omega arith)
    ∙ push_or_fail_refused q dev.busid _ v flat (omega arith)
    ∙ push_or_fail_refused q (dev_bytes dev) _ v flat (omega arith)
