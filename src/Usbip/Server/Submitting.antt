-- ===== src/Usbip/Server/Submitting.antt =====
-- What becomes of submit commands.
use embedded_usbip.Prelude.{
  ℕ, ◌+◌, ◌≤◌, ◌<◌, ◌≡◌, ◌≢◌, refl, ap, sym, ◌∙◌, false, none, some, ◌++◌, find, length, arith,
}
use mathlib.Core.Option.{some-injective}
use embedded_usbip.StreamFifo.{StreamFifo, IsValid, contents, remaining}
use embedded_usbip.Urb.Errno
use embedded_usbip.Usbip.Commands.{
  HdrCmd, usbip_ret_submit, enodev, is_imported, write_error, get_client_dev,
}
use embedded_usbip.Usbip.Answers.{Answered-twice, Answered-write_error, answer, first_command}
use embedded_usbip.Usbip.Server.{◌>>=◌, UsbipClient, ServerWorld, Sockets}
use embedded_usbip.Usbip.Server.Devices.{with_fifo}
use embedded_usbip.Usbip.Server.Submit.{answer_error, handle_urb_submit}

answer_error_run :
    (w : ServerWorld) (client : ℕ) (c : UsbipClient) (hdr : HdrCmd) (command error : ℕ)
    (q : StreamFifo)
    → w.ctx.clients client ≡ some c
    → write_error c.out_fifo hdr command error ≡ some q
    → answer_error client hdr command error w ≡ some (false, with_fifo client c q w)
unfolding answer_error
answer_error_run w client c hdr command error q e e' = rw (e, e', ◌>>=◌) refl

module _ (sockets : Sockets) (w : ServerWorld) (client : ℕ) (c : UsbipClient) (hdr : HdrCmd)
    (in_memory : w.ctx.clients client ≡ some c)
    (unknown : find (is_imported hdr) c.imported_devs ≡ none) where
  not_found :
      (q : StreamFifo)
      → write_error c.out_fifo hdr (first_command hdr) Errno.einval ≡ some q
      → get_client_dev w.ctx.store w.ctx.vhci c.imported_devs c.out_fifo hdr ≡ some (0, q)
  unfolding get_client_dev
  not_found q e = ground (arith, unknown, e)

  submit_run :
      (q q' : StreamFifo)
      → write_error c.out_fifo hdr (first_command hdr) Errno.einval ≡ some q
      → write_error q hdr usbip_ret_submit enodev ≡ some q'
      → handle_urb_submit sockets client hdr w
        ≡ some (false, with_fifo client (record c { out_fifo = q }) q' (with_fifo client c q w))
  unfolding handle_urb_submit
  submit_run q q' e e' =
      rw (in_memory, not_found q e, ◌>>=◌)
        (answer_error_run (with_fifo client c q w) client (record c { out_fifo = q }) hdr
          usbip_ret_submit enodev q' (ground arith) e')

  -- A submit command for a device that the client has not imported, on a valid fifo with room for
  -- more than 96 bytes, and for which `remaining` admits 48: `handle_urb_submit` returns 0,
  -- without a call of the socket library, and the client's fifo then holds two answers behind what
  -- it held, with -EINVAL and with -ENODEV. The other clients are as they were.
  pub submit_answered_twice :
      IsValid c.out_fifo
      → length hdr.padding ≡ 28
      → 48 ≤ remaining c.out_fifo
      → length (contents c.out_fifo) + 96 < c.out_fifo.buffer_len
      → (w' : ServerWorld) × (q : StreamFifo) × (handle_urb_submit sockets client hdr w
          ≡ some (false, w'))
        × (w'.ctx.clients client ≡ some (record c { out_fifo = q }))
        × IsValid q
        × (contents q
            ≡ contents c.out_fifo
              ++ (answer hdr (first_command hdr) Errno.einval
                  ++ answer hdr usbip_ret_submit enodev))
        × (w'.ctx.calls ≡ w.ctx.calls)
        × ((a : ℕ) → a ≢ client → w'.ctx.clients a ≡ w.ctx.clients a)
  submit_answered_twice v e admitted room =
      let (q1, first, v1, same1, held1) =
        Answered-write_error c.out_fifo hdr (first_command hdr) Errno.einval v e admitted
          (omega arith) in
      let (q2, both, v2, same, held) =
        Answered-twice c.out_fifo hdr (first_command hdr) Errno.einval usbip_ret_submit enodev
          (write_error q1 hdr usbip_ret_submit enodev) v e admitted room
          (λ q' ran.
            ap (λ q. write_error q hdr usbip_ret_submit enodev)
              (some-injective _ _ (sym first ∙ ran))) in
      (
        with_fifo client (record c { out_fifo = q1 }) q2 (with_fifo client c q1 w),
        q2,
        submit_run q1 q2 first both,
        ground arith,
        v2,
        held,
        refl,
        λ a ne. ground (arith, ne),
      )
