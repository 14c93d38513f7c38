-- ===== src/Usbip/Server/Untouched/Requests.antt =====
-- The requests of a client leave the host controller and the other clients alone.
use embedded_usbip.Prelude.{ℕ, ◌==◌, ltb, length, Bool, false, some, List, replicate, copy_in}
use embedded_usbip.StreamFifo.{StreamFifo, stream_fifo_push}
use embedded_usbip.Vhci.{VhciHandle, Store}
use embedded_usbip.Vhci.Devices.{device_at, vhci_iter_devices, vhci_find_device}
use embedded_usbip.Usbip.{usb_dev_to_buf}
use embedded_usbip.Usbip.Server.{
  UsbipClient, UsbipServer, Sockets, Answer, recv, Action, would_block, is_failure, set_fifo,
}
use embedded_usbip.Usbip.Server.Replies.{
  fifo_at, fill_devlist, fill_devlists, push_or_stop, usbip_resp_devlist, found_sends, import_found,
  import_named, usbip_handle_import, hdr_common, hdr_rep_devlist, rep_import, usbip_status_ok,
  text_at_1,
}
use embedded_usbip.Usbip.Server.Handle.{recv_failed}
use embedded_usbip.Usbip.Server.Untouched.{
  Keeps, bind-Keeps, pure-Keeps, need-Keeps, gets-Keeps, get_client-Keeps, set_client-Keeps,
  call-Keeps, if-Keeps,
}
use embedded_usbip.Usbip.Server.Untouched.Clients.{stopped-Keeps}

pub set_fifo-Keeps :
    {client : ℕ} (c : UsbipClient) (q : StreamFifo) → Keeps client (set_fifo client c q)
set_fifo-Keeps c q = set_client-Keeps (some (record c { out_fifo = q }))

module _ (sockets : Sockets) {client : ℕ} (i : ℕ) where
  push_or_stop-Keeps :
      (msg : List ℕ) {rest : Action Bool}
      → Keeps client rest
      → Keeps client (push_or_stop sockets client i msg rest)
  unfolding push_or_stop
  push_or_stop-Keeps msg k = bind-Keeps (get_client-Keeps client) (λ c.
      bind-Keeps (need-Keeps (stream_fifo_push c.out_fifo msg)) (λ (n, q).
        bind-Keeps (set_fifo-Keeps c q) (λ u. if-Keeps (n == 0) (stopped-Keeps sockets i) k)))

  fill_devlists-Keeps : (h : VhciHandle) (s : Store) → Keeps client (fill_devlists client h s)
  unfolding fill_devlists
  fill_devlists-Keeps h s = bind-Keeps (get_client-Keeps client) (λ c.
      bind-Keeps (need-Keeps (fifo_at c.out_fifo.buf)) (λ fifo.
        bind-Keeps (need-Keeps (vhci_iter_devices (fill_devlist s) s h fifo))
          (λ after. pure-Keeps tt)))

  pub usbip_resp_devlist-Keeps : Keeps client (usbip_resp_devlist sockets client i)
  unfolding usbip_resp_devlist
  usbip_resp_devlist-Keeps = bind-Keeps (gets-Keeps UsbipServer.vhci) (λ h.
      bind-Keeps (gets-Keeps UsbipServer.store) (λ s.
        bind-Keeps (need-Keeps (hdr_rep_devlist h.devices.size)) (λ reply.
          push_or_stop-Keeps reply (
            if-Keeps (ltb 0 h.devices.size)
              (bind-Keeps (fill_devlists-Keeps h s) (λ u. pure-Keeps false)) (pure-Keeps false)))))

  found_sends-Keeps : (vdev : ℕ) → Keeps client (found_sends sockets client i vdev)
  unfolding found_sends
  found_sends-Keeps vdev = bind-Keeps (gets-Keeps UsbipServer.store) (λ s.
      bind-Keeps (get_client-Keeps client) (λ c. bind-Keeps (need-Keeps (device_at s vdev)) (λ dev.
        bind-Keeps (need-Keeps (usb_dev_to_buf c.out_fifo dev)) (λ (sent, q).
          bind-Keeps (set_fifo-Keeps c q)
            (λ u. if-Keeps sent (pure-Keeps false) (stopped-Keeps sockets i))))))

  import_named-Keeps : (busid : List ℕ) → Keeps client (import_named sockets client i busid)
  unfolding import_named import_found
  import_named-Keeps busid = bind-Keeps (gets-Keeps UsbipServer.vhci) (λ h.
      bind-Keeps (gets-Keeps UsbipServer.store) (λ s.
        bind-Keeps (need-Keeps (vhci_find_device (text_at_1 busid) s h 1)) (λ vdev.
          if-Keeps (vdev == 0) (pure-Keeps false) (
            bind-Keeps (need-Keeps (hdr_common rep_import usbip_status_ok))
              (λ hdr. push_or_stop-Keeps hdr (found_sends-Keeps vdev))))))

  -- What follows a `recv` that failed.
  pub failed-Keeps : (a : Answer) → Keeps client (recv_failed sockets client i a)
  unfolding recv_failed
  failed-Keeps a = if-Keeps (would_block a) (pure-Keeps false) (stopped-Keeps sockets i)

  pub usbip_handle_import-Keeps : Keeps client (usbip_handle_import sockets client i)
  unfolding usbip_handle_import recv_failed
  usbip_handle_import-Keeps = bind-Keeps (get_client-Keeps client) (λ c.
      bind-Keeps (call-Keeps sockets (recv c.sock 32)) (λ a.
        if-Keeps (is_failure a) (failed-Keeps a) (
          bind-Keeps (need-Keeps (copy_in (replicate 32 0) 0 a.bytes)) (λ busid.
            if-Keeps (length a.bytes == 0) (pure-Keeps false) (import_named-Keeps busid)))))
