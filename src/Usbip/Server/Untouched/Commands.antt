-- ===== src/Usbip/Server/Untouched/Commands.antt =====
-- The commands of a client leave the host controller and the other clients alone.
use embedded_usbip.Prelude.{ℕ, ◌==◌, length, not, false, none, some, if◌then◌else◌}
use embedded_usbip.Vhci.{vhci_submit_urb, vhci_urb_init}
use embedded_usbip.Urb.{Urb, pipe_dir}
use embedded_usbip.Usbip.Commands.{
  HdrCmd, get_client_dev, handle_urb_unlink, write_error, usbip_ret_submit, enodev,
}
use embedded_usbip.Usbip.Server.{UsbipServer, Sockets, recv, would_block, is_failure}
use embedded_usbip.Usbip.Server.Submit.{
  answer_error, receive_out, urb_of, submit_parsed, parse_cmd, handle_urb_submit, unlink_command,
}
use embedded_usbip.Usbip.Server.Untouched.{
  Keeps, bind-Keeps, pure-Keeps, need-Keeps, gets-Keeps, get_client-Keeps, call-Keeps, if-Keeps,
}
use embedded_usbip.Usbip.Server.Untouched.Requests.{set_fifo-Keeps}

module _ {client : ℕ} where
  answer_error-Keeps :
      (hdr : HdrCmd) (command error : ℕ) → Keeps client (answer_error client hdr command error)
  unfolding answer_error
  answer_error-Keeps hdr command error = bind-Keeps (get_client-Keeps client) (λ c.
      bind-Keeps (need-Keeps (write_error c.out_fifo hdr command error))
        (λ q. bind-Keeps (set_fifo-Keeps c q) (λ u. pure-Keeps false)))

  pub unlink_command-Keeps : (hdr : HdrCmd) → Keeps client (unlink_command client hdr)
  unfolding unlink_command
  unlink_command-Keeps hdr = bind-Keeps (get_client-Keeps client) (λ c.
      bind-Keeps (gets-Keeps UsbipServer.store) (λ s. bind-Keeps (gets-Keeps UsbipServer.vhci) (λ h.
        bind-Keeps (need-Keeps (handle_urb_unlink s h c.imported_devs c.out_fifo hdr))
          (λ q. bind-Keeps (set_fifo-Keeps c q) (λ u. pure-Keeps false)))))

module _ (sockets : Sockets) {client : ℕ} where
  receive_out-Keeps : (hdr : HdrCmd) (urb : Urb) → Keeps client (receive_out sockets client hdr urb)
  unfolding receive_out
  receive_out-Keeps hdr urb = bind-Keeps (get_client-Keeps client) (λ c.
      bind-Keeps (gets-Keeps UsbipServer.vhci) (λ h.
        bind-Keeps (call-Keeps sockets (recv c.sock urb.transfer_buffer_length)) (λ a.
          if-Keeps (is_failure a) (pure-Keeps (not (would_block a))) (
            bind-Keeps (need-Keeps (if length a.bytes == 0 then some tt else none)) (λ u.
              if-Keeps (length a.bytes == urb.transfer_buffer_length)
                (answer_error-Keeps hdr usbip_ret_submit
                  (vhci_submit_urb h (record urb { actual_length = length a.bytes })))
                (pure-Keeps false))))))

  submit_parsed-Keeps : (hdr : HdrCmd) → Keeps client (submit_parsed sockets client hdr)
  unfolding submit_parsed
  submit_parsed-Keeps hdr =
      if-Keeps (pipe_dir (vhci_urb_init (urb_of hdr)).pipe == 0)
        (receive_out-Keeps hdr (vhci_urb_init (urb_of hdr))) (pure-Keeps false)

  pub handle_urb_submit-Keeps : (hdr : HdrCmd) → Keeps client (handle_urb_submit sockets client hdr)
  unfolding handle_urb_submit
  handle_urb_submit-Keeps hdr = bind-Keeps (get_client-Keeps client) (λ c.
      bind-Keeps (gets-Keeps UsbipServer.store) (λ s. bind-Keeps (gets-Keeps UsbipServer.vhci) (λ h.
        bind-Keeps (need-Keeps (get_client_dev s h c.imported_devs c.out_fifo hdr)) (λ (dev, q).
          bind-Keeps (set_fifo-Keeps c q) (λ u.
            if-Keeps (dev == 0) (answer_error-Keeps hdr usbip_ret_submit enodev) (
              bind-Keeps (need-Keeps (parse_cmd hdr.padding))
                (λ padding. submit_parsed-Keeps (record hdr { padding = padding }))))))))
