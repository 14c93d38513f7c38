-- ===== src/Usbip/Server/Completed.antt =====
-- What `urb_complete_cb` of src/usbip.c pushes.
use embedded_usbip.Prelude.{
  ℕ, ◌+◌, ◌≤◌, ◌<◌, ◌≡◌, refl, ap, sym, subst, ◌∙◌, Bool, Option, none, some, List, [], ◌++◌, ◌==◌,
  if◌then◌else◌, length, take, append_assoc, append-nil, replicate, splice, arith, length-take,
  Bool-cases, inl, inr,
}
use embedded_usbip.StreamFifo.{StreamFifo, IsValid, contents, remaining}
use embedded_usbip.StreamFifo.Push.{pushed}
use embedded_usbip.StreamFifo.Append.{push-append}
use embedded_usbip.Conv.{to_bytes, i_bswap32}
use embedded_usbip.Conv.Bytes.{swapped}
use embedded_usbip.Urb.{Urb, pipe_dir, pipe_in}
use embedded_usbip.Usbip.Pushing.{contents_admitted, grown}
use embedded_usbip.Usbip.Commands.{
  HdrCmd, usbip_ret_submit, hdr_cmd_bytes, store32, with_command, write_cmd_response_header,
}
use embedded_usbip.Usbip.Answers.{network4, swapped_bytes, Answered, Answered-header}
use embedded_usbip.Usbip.Server.Submit.{complete_hdr, push_buffer, urb_complete_cb}

abbrev layout :
    (command seq_num status actual_length start_frame number_of_packets error_count : List ℕ)
    → List ℕ
layout command seq_num status actual_length start_frame number_of_packets error_count =
    command
    ++ (seq_num
        ++ (replicate 12 0
            ++ (status
                ++ (actual_length
                    ++ (start_frame ++ (number_of_packets ++ (error_count ++ replicate 8 0)))))))

-- The header of the answer, each number in network order.
abbrev pub completed : Urb → List ℕ
completed urb =
    layout (network4 usbip_ret_submit) (network4 urb.seq_num) (network4 urb.status)
      (network4 urb.actual_length) (network4 urb.start_frame) (network4 urb.number_of_packets)
      (network4 urb.error_count)

abbrev swapped4 : ℕ → List ℕ
swapped4 v = to_bytes 4 (swapped 4 v)

completed_hdr :
    (urb : Urb)
    → (hdr : HdrCmd) × (complete_hdr urb ≡ some hdr)
      × (hdr_cmd_bytes hdr
          ≡ layout
              (swapped4 usbip_ret_submit)
              (swapped4 urb.seq_num)
              (swapped4 urb.status)
              (swapped4 urb.actual_length)
              (swapped4 urb.start_frame)
              (swapped4 urb.number_of_packets)
              (swapped4 urb.error_count))
unfolding store32 with_command i_bswap32 splice
completed_hdr urb = (_, refl, refl)

in_network_order :
    (command seq_num status actual_length start_frame number_of_packets error_count : ℕ)
    → layout
        (swapped4 command)
        (swapped4 seq_num)
        (swapped4 status)
        (swapped4 actual_length)
        (swapped4 start_frame)
        (swapped4 number_of_packets)
        (swapped4 error_count)
      ≡ layout
          (network4 command)
          (network4 seq_num)
          (network4 status)
          (network4 actual_length)
          (network4 start_frame)
          (network4 number_of_packets)
          (network4 error_count)
in_network_order c s st l sf n e = cc (
  swapped_bytes c,
  swapped_bytes s,
  swapped_bytes st,
  swapped_bytes l,
  swapped_bytes sf,
  swapped_bytes n,
  swapped_bytes e,
)

-- The header, on any fifo that takes it.
header_pushed :
    (q : StreamFifo) (urb : Urb)
    → IsValid q
    → 48 ≤ remaining q
    → length (contents q) + 48 < q.buffer_len
    → Answered q (completed urb) (write_cmd_response_header q (complete_hdr urb))
header_pushed q urb v admitted room =
    let (hdr, e, bytes) = completed_hdr urb in
    subst (λ h. Answered q (completed urb) (write_cmd_response_header q h)) (sym e)
      (Answered-header q hdr (completed urb) v
        (bytes
          ∙ in_network_order usbip_ret_submit urb.seq_num urb.status urb.actual_length
              urb.start_frame urb.number_of_packets urb.error_count)
        admitted room)

cb_run :
    (q q' : StreamFifo) (urb : Urb)
    → write_cmd_response_header q (complete_hdr urb) ≡ some q'
    → urb_complete_cb q urb ≡ (
        if pipe_dir urb.pipe == pipe_in
        then push_buffer q' urb.transfer_buffer urb.actual_length
        else some q')
unfolding urb_complete_cb
cb_run q q' urb e =
    ap
      (λ o. elim o as (λ x. Option StreamFifo) [
        | none ↦ none
        | some q1 ↦
            if pipe_dir urb.pipe == pipe_in
            then push_buffer q1 urb.transfer_buffer urb.actual_length
            else some q1
      ])
      e

-- What follows the header: the data that came from the device, if it was asked for data.
abbrev pub data_of : (is_in : Bool) → (buffer : List ℕ) (n : ℕ) → List ℕ
data_of is_in buffer n = if is_in then take n buffer else []

data_pushed :
    (q : StreamFifo) (buffer : List ℕ) (n : ℕ)
    → IsValid q
    → n ≤ length buffer
    → n ≤ length (contents q)
    → length (contents q) + n < q.buffer_len
    → Answered q (take n buffer) (push_buffer q (some buffer) n)
unfolding push_buffer
data_pushed q buffer n v there admitted room =
    let (taken, v', held) =
      push-append (take n buffer) v (ground (arith, length-take n buffer, there, room))
        (ground (arith, length-take n buffer, there, admitted, contents_admitted q v)) in
    (pushed q (take n buffer), ground (arith, there, taken), v', ground arith, held)

-- On a valid fifo with room for more than the header and the data, for which `remaining` admits the 48
-- bytes of the header, and where the data are in the buffer, and no longer than the header and what
-- the fifo held: the fifo then holds, behind what it held, the header with its numbers in network
-- order, and, for a request for data, the data.
pub urb_complete_cb-Answered :
    (q : StreamFifo) (urb : Urb) (buffer : List ℕ)
    → IsValid q
    → urb.transfer_buffer ≡ some buffer
    → urb.actual_length ≤ length buffer
    → 48 ≤ remaining q
    → urb.actual_length ≤ length (contents q) + 48
    → length (contents q) + 48 + urb.actual_length < q.buffer_len
    → Answered q
        (completed urb ++ data_of (pipe_dir urb.pipe == pipe_in) buffer urb.actual_length)
        (urb_complete_cb q urb)
urb_complete_cb-Answered q urb buffer v there enough admitted fits room =
    let (q1, ran, v1, same, held) = header_pushed q urb v admitted (omega arith) in
    let longer = grown q q1 (completed urb) held in
    elim (Bool-cases (pipe_dir urb.pipe == pipe_in)) [
      | inl e ↦
          let (q2, ran', v2, same', held') =
            data_pushed q1 buffer urb.actual_length v1 enough (omega (arith, longer))
              (omega (arith, longer, same)) in
          (
            q2,
            cb_run q q1 urb ran
                ∙ ap
                    (λ b.
                      if b then push_buffer q1 urb.transfer_buffer urb.actual_length else some q1)
                    e
                ∙ ap (λ t. push_buffer q1 t urb.actual_length) there
                ∙ ran',
            v2,
            same' ∙ same,
            held'
                ∙ ap (λ l. l ++ take urb.actual_length buffer) held
                ∙ append_assoc (contents q) (completed urb) (take urb.actual_length buffer)
                ∙ ap (λ b. contents q ++ (completed urb ++ data_of b buffer urb.actual_length))
                    (sym e),
          )
      | inr e ↦ (
        q1,
        cb_run q q1 urb ran
            ∙ ap (λ b. if b then push_buffer q1 urb.transfer_buffer urb.actual_length else some q1)
                e,
        v1,
        same,
        held
            ∙ ap (λ l. contents q ++ l) (sym (append-nil (completed urb)))
            ∙ ap (λ b. contents q ++ (completed urb ++ data_of b buffer urb.actual_length)) (sym e),
      )
    ]
