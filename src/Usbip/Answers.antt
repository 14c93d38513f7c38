-- ===== src/Usbip/Answers.antt =====
-- What a client's fifo holds behind the answer to an unlink command.
use embedded_usbip.Prelude.{
  ℕ, ◌+◌, ◌≤◌, ◌<◌, ◌≡◌, refl, ap, sym, subst, ◌∙◌, Option, none, some, List, [], ◌++◌, ◌==◌,
  if◌then◌else◌, find, Option-cases, inl, inr, length, append_assoc, drop, length-drop, splice,
  arith,
}
use embedded_usbip.StreamFifo.{StreamFifo, IsValid, contents, stream_fifo_push, remaining}
use embedded_usbip.StreamFifo.Push.{pushed}
use embedded_usbip.StreamFifo.Append.{push-append}
use embedded_usbip.Conv.{to_bytes, i_bswap32}
use embedded_usbip.Conv.Bytes.{reverse_onto, to_bytes-of_bytes, swapped, swapped-AllBytes}
use embedded_usbip.Urb.Errno
use embedded_usbip.Vhci.{VhciHandle, Store, vhci_unlink_urb}
use embedded_usbip.Vhci.Devices.{vhci_get_device}
use embedded_usbip.Usbip.Pushing.{contents_admitted, grown}
use embedded_usbip.Usbip.Commands.{
  HdrCmd, ImportedDev, usbip_cmd_submit, usbip_ret_submit, usbip_ret_unlink, enodev, neg32,
  hdr_cmd_bytes, store32, with_command, write_cmd_response_header, write_error, is_imported,
  handle_urb_unlink,
}

-- Four bytes in network order.
abbrev pub network4 : ℕ → List ℕ
network4 v = reverse_onto (to_bytes 4 v) []

-- An answer: command, sequence number and status in network order, the rest as in the command, with
-- the numbers of the device, the direction and the endpoint low byte first.
abbrev pub answer : HdrCmd → (command error : ℕ) → List ℕ
answer hdr command error =
    network4 command
    ++ (network4 hdr.seq_num
        ++ (to_bytes 2 hdr.busnum
            ++ (to_bytes 2 hdr.devnum
                ++ (to_bytes 4 hdr.direction
                    ++ (to_bytes 4 hdr.endpoint
                        ++ (network4 (neg32 error) ++ drop 4 hdr.padding))))))

bswap_run : (v : ℕ) → i_bswap32 v ≡ some (swapped 4 v)
unfolding i_bswap32
bswap_run v = refl

pub swapped_bytes : (v : ℕ) → to_bytes 4 (swapped 4 v) ≡ network4 v
swapped_bytes v = to_bytes-of_bytes (network4 v) (swapped-AllBytes 4 v)

-- The header that is written.
abbrev answer_hdr : HdrCmd → (command error : ℕ) → HdrCmd
answer_hdr hdr command error = record hdr {
  command = swapped 4 command;
  seq_num = swapped 4 hdr.seq_num;
  padding = splice 0 (to_bytes 4 (swapped 4 (neg32 error))) hdr.padding;
}

error_hdr :
    (hdr : HdrCmd) (command error : ℕ)
    → store32 0 (neg32 error) (with_command command hdr.seq_num hdr)
      ≡ some (answer_hdr hdr command error)
unfolding store32 with_command
error_hdr hdr command error = refl

abbrev layout : HdrCmd → (command seq_num status : List ℕ) → List ℕ
layout hdr command seq_num status =
    command
    ++ (seq_num
        ++ (to_bytes 2 hdr.busnum
            ++ (to_bytes 2 hdr.devnum
                ++ (to_bytes 4 hdr.direction
                    ++ (to_bytes 4 hdr.endpoint ++ (status ++ drop 4 hdr.padding))))))

answer_hdr_bytes :
    (hdr : HdrCmd) (command error : ℕ)
    → hdr_cmd_bytes (answer_hdr hdr command error) ≡ answer hdr command error
unfolding splice
answer_hdr_bytes hdr command error =
    ap
      (λ a.
        layout hdr a (to_bytes 4 (swapped 4 hdr.seq_num)) (to_bytes 4 (swapped 4 (neg32 error))))
      (swapped_bytes command)
    ∙ ap (λ b. layout hdr (network4 command) b (to_bytes 4 (swapped 4 (neg32 error))))
        (swapped_bytes hdr.seq_num)
    ∙ ap (layout hdr (network4 command) (network4 hdr.seq_num)) (swapped_bytes (neg32 error))

length-answer :
    (hdr : HdrCmd) (command error : ℕ)
    → length hdr.padding ≡ 28
    → length (answer hdr command error) ≡ 48
length-answer hdr command error e = omega (arith, length-drop 4 hdr.padding)

-- The call ends, and the fifo holds `more` behind what it held.
abbrev pub Answered : StreamFifo → (more : List ℕ) → Option StreamFifo → Type 0
Answered q more r =
    (q' : StreamFifo) × (r ≡ some q')
    × IsValid q'
    × (q'.buffer_len ≡ q.buffer_len)
    × (contents q' ≡ contents q ++ more)

pub Answered-header :
    (q : StreamFifo) (hdr : HdrCmd) (bytes : List ℕ)
    → IsValid q
    → hdr_cmd_bytes hdr ≡ bytes
    → length bytes ≤ remaining q
    → length (contents q) + length bytes < q.buffer_len
    → Answered q bytes (write_cmd_response_header q (some hdr))
unfolding write_cmd_response_header
Answered-header q hdr bytes v same admitted room =
    let (taken, v', held) = push-append bytes v room admitted in
    (
      pushed q bytes,
      ap (λ o. elim o as (λ r. Option StreamFifo) [ none ↦ none | some (n, q') ↦ some q' ])
          (ap (stream_fifo_push q) same ∙ taken),
      v',
      ground arith,
      held,
    )

pub Answered-write_error :
    (q : StreamFifo) (hdr : HdrCmd) (command error : ℕ)
    → IsValid q
    → length hdr.padding ≡ 28
    → 48 ≤ remaining q
    → length (contents q) + 48 < q.buffer_len
    → Answered q (answer hdr command error) (write_error q hdr command error)
unfolding write_error
Answered-write_error q hdr command error v e admitted room =
    subst (λ h. Answered q (answer hdr command error) (write_cmd_response_header q h))
      (sym (error_hdr hdr command error))
      (Answered-header q (answer_hdr hdr command error) (answer hdr command error) v
        (answer_hdr_bytes hdr command error) (omega (arith, length-answer hdr command error e))
        (omega (arith, length-answer hdr command error e)))

-- The command of the first answer for a device that is not imported.
abbrev pub first_command : HdrCmd → ℕ
first_command hdr = if hdr.command == usbip_cmd_submit then usbip_ret_submit else usbip_ret_unlink

unlink_not_imported :
    (s : Store) (h : VhciHandle) (imported : List ImportedDev) (q q' : StreamFifo) (hdr : HdrCmd)
    → find (is_imported hdr) imported ≡ none
    → write_error q hdr (first_command hdr) Errno.einval ≡ some q'
    → handle_urb_unlink s h imported q hdr ≡ write_error q' hdr usbip_ret_unlink enodev
unfolding handle_urb_unlink
unlink_not_imported s h imported q q' hdr e written = ground (arith, e, written)

unlink_imported :
    (s : Store) (h : VhciHandle) (imported : List ImportedDev) (q : StreamFifo) (hdr : HdrCmd)
    (i : ImportedDev) (dev : ℕ)
    → find (is_imported hdr) imported ≡ some i
    → vhci_get_device s h hdr.busnum hdr.devnum ≡ some dev
    → handle_urb_unlink s h imported q hdr
      ≡ write_error q hdr usbip_ret_unlink (if dev == 0 then enodev else Errno.enotsup)
unfolding handle_urb_unlink vhci_unlink_urb
unlink_imported s h imported q hdr i dev e lookup = ground (arith, e, lookup)

abbrev pub answers_for : Option ImportedDev → HdrCmd → (dev : ℕ) → List ℕ
answers_for none hdr dev =
    answer hdr (first_command hdr) Errno.einval ++ answer hdr usbip_ret_unlink enodev
answers_for (some i) hdr dev =
    answer hdr usbip_ret_unlink (if dev == 0 then enodev else Errno.enotsup)

-- What an unlink command is answered with: one answer, or two for a device that is not imported.
abbrev pub unlink_answers : (imported : List ImportedDev) → HdrCmd → (dev : ℕ) → List ℕ
unlink_answers imported hdr dev = answers_for (find (is_imported hdr) imported) hdr dev

pub Answered-twice :
    (q : StreamFifo) (hdr : HdrCmd) (command error command' error' : ℕ) (r : Option StreamFifo)
    → IsValid q
    → length hdr.padding ≡ 28
    → 48 ≤ remaining q
    → length (contents q) + 96 < q.buffer_len
    → ((q' : StreamFifo)
        → write_error q hdr command error ≡ some q'
        → r ≡ write_error q' hdr command' error')
    → Answered q (answer hdr command error ++ answer hdr command' error') r
Answered-twice q hdr command error command' error' r v e admitted room go_on =
    let (q1, ran, v1, same, held) =
      Answered-write_error q hdr command error v e admitted (omega arith) in
    let longer = grown q q1 (answer hdr command error) held in
    let (q2, ran', v2, same', held') =
      Answered-write_error q1 hdr command' error' v1 e
        (omega (arith, longer, length-answer hdr command error e, contents_admitted q1 v1))
        (omega (arith, longer, length-answer hdr command error e, same)) in
    (
      q2,
      go_on q1 ran ∙ ran',
      v2,
      same' ∙ same,
      held'
          ∙ ap (λ l. l ++ answer hdr command' error') held
          ∙ append_assoc (contents q) (answer hdr command error) (answer hdr command' error'),
    )

-- On a valid fifo with room for more than 96 bytes, for which `remaining` admits 48, and where
-- `vhci_get_device` returns, `handle_urb_unlink` returns, and the fifo then holds behind what it held:
-- for a device that the client has not imported, two answers, with -EINVAL and then with -ENODEV; for
-- an imported one, one answer, with -ENODEV where `vhci_get_device` returns NULL, and else -ENOTSUP.
pub handle_urb_unlink-Answered :
    (s : Store) (h : VhciHandle) (imported : List ImportedDev) (q : StreamFifo) (hdr : HdrCmd)
    (dev : ℕ)
    → IsValid q
    → length hdr.padding ≡ 28
    → 48 ≤ remaining q
    → length (contents q) + 96 < q.buffer_len
    → vhci_get_device s h hdr.busnum hdr.devnum ≡ some dev
    → Answered q (unlink_answers imported hdr dev) (handle_urb_unlink s h imported q hdr)
handle_urb_unlink-Answered s h imported q hdr dev v e admitted room lookup =
    elim (Option-cases (find (is_imported hdr) imported)) [
      | inl e' ↦
          subst (λ o. Answered q (answers_for o hdr dev) (handle_urb_unlink s h imported q hdr))
            (sym e')
            (Answered-twice q hdr (first_command hdr) Errno.einval usbip_ret_unlink enodev _ v e
              admitted room (λ q' written. unlink_not_imported s h imported q q' hdr e' written))
      | inr (i, e') ↦
          subst (λ o. Answered q (answers_for o hdr dev) (handle_urb_unlink s h imported q hdr))
            (sym e')
            (subst (Answered q (answers_for (some i) hdr dev))
              (sym (unlink_imported s h imported q hdr i dev e' lookup))
              (Answered-write_error q hdr usbip_ret_unlink
                (if dev == 0 then enodev else Errno.enotsup) v e admitted (omega arith)))
    ]
