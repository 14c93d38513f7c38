-- ===== src/Usbip/Server/Dispatch.antt =====
-- What `usbip_client_handle` does with the first eight bytes of a client.
use embedded_usbip.Prelude.{
  ℕ, ◌+◌, ◌%◌, ◌^◌, ◌≤◌, ◌<◌, ◌≡◌, ◌≢◌, refl, ap, ◌∙◌, Bool, false, some, List, [], ◌∷◌, ◌==◌,
  if◌then◌else◌, length, take, drop, arith,
}
use embedded_usbip.StreamFifo.{stream_fifo_length}
use embedded_usbip.Conv.{of_bytes}
use embedded_usbip.Conv.Bytes.{swapped}
use embedded_usbip.Usbip.Commands.{HdrCmd}
use embedded_usbip.Usbip.Server.{◌>>=◌, UsbipClient, ServerWorld, Sockets, Answer, recv, Action}
use embedded_usbip.Usbip.Server.Settles.{called}
use embedded_usbip.Usbip.Server.Replies.{usbip_resp_devlist, usbip_handle_import}
use embedded_usbip.Usbip.Server.Handle.{
  usbip_client_handle, send_pending, receive, dispatch, dispatch_word, read_command, request,
  run_command, cmd_of,
}

swapped_request :
    (op : ℕ) → op < 256 → swapped 4 (of_bytes (1 ∷ 0x11 ∷ 0x80 ∷ op ∷ [])) ≡ 0x01118000 + op
swapped_request op lt = omega arith

swapped_small : (k : ℕ) → k < 256 → swapped 4 (of_bytes (0 ∷ 0 ∷ 0 ∷ k ∷ [])) ≡ k
swapped_small k lt = omega arith

swapped_big : (k : ℕ) → k ≤ 2 → (swapped 4 k ≢ 1) × (swapped 4 k ≢ 2)
swapped_big k le = (λ e. absurd (omega arith), λ e. absurd (omega arith))

-- The command that `cmd_of` makes.
abbrev cmd_made : (first second : ℕ) → List ℕ → HdrCmd
cmd_made first second rest = record {
  command = swapped 4 first;
  seq_num = swapped 4 second;
  busnum = swapped 2 (of_bytes (take 2 rest));
  devnum = swapped 2 (of_bytes (take 2 (drop 2 rest)));
  direction = swapped 2 (of_bytes (take 4 (drop 4 rest)) % 2 ^ 16);
  endpoint = swapped 2 (of_bytes (take 4 (drop 8 rest)) % 2 ^ 16);
  padding = drop 12 rest;
}

cmd_of_run :
    (first second : ℕ) (rest : List ℕ)
    → cmd_of first second rest ≡ some (cmd_made first second rest)
unfolding cmd_of
cmd_of_run first second rest = refl

run_ignored :
    (sockets : Sockets) (client : ℕ) (cmd : HdrCmd) (w : ServerWorld)
    → cmd.command ≢ 1
    → cmd.command ≢ 2
    → run_command sockets client cmd w ≡ some (false, w)
unfolding run_command
run_ignored sockets client cmd w ne ne' = ground (arith, ne, ne')

-- A client to which nothing has to be sent.
pub record Waits (w : ServerWorld) (client : ℕ) (c : UsbipClient) : Type 0 where
  pub in_memory : w.ctx.clients client ≡ some c
  pub nothing : stream_fifo_length c.out_fifo ≡ 0

module _ (sockets : Sockets) {w : ServerWorld} {client : ℕ} {c : UsbipClient} (i : ℕ)
    (waits : Waits w client c) where
  pub nothing_pending : (rest : Action Bool) → send_pending sockets client i rest w ≡ rest w
  unfolding send_pending
  nothing_pending rest = rw (waits.in_memory, waits.nothing, ◌>>=◌) refl

  -- The world behind the first call.
  abbrev asked : ServerWorld
  asked = called (recv c.sock 8) w

  abbrev answer : Answer
  answer = sockets (recv c.sock 8 ∷ w.ctx.calls)

  received :
      (n : ℕ)
      → answer.value ≡ some n
      → length answer.bytes ≡ 8
      → usbip_client_handle sockets client i w ≡ dispatch sockets client i answer.bytes asked
  unfolding usbip_client_handle receive
  received n value full =
      nothing_pending (receive sockets client i) ∙ ground (arith, waits.in_memory, value, full)

  small_word :
      (k second : ℕ)
      → k ≤ 2
      → dispatch_word sockets client i k second asked ≡ read_command sockets client i k second asked
  unfolding dispatch_word
  small_word k second le = ground arith

  request_word :
      (op second : ℕ)
      → op < 256
      → dispatch_word sockets client i (0x01118000 + op) second asked ≡ (
          if op == 5
          then usbip_resp_devlist sockets client i asked
          else if op == 3
          then usbip_handle_import sockets client i asked
          else some (false, asked))
  unfolding dispatch_word request
  request_word op second lt = ground arith

  read_run :
      (k second m : ℕ)
      → (sockets (recv c.sock 40 ∷ recv c.sock 8 ∷ w.ctx.calls)).value ≡ some m
      → length (sockets (recv c.sock 40 ∷ recv c.sock 8 ∷ w.ctx.calls)).bytes ≡ 40
      → read_command sockets client i k second asked
        ≡ run_command sockets client
            (cmd_made k second (sockets (recv c.sock 40 ∷ recv c.sock 8 ∷ w.ctx.calls)).bytes)
            (called (recv c.sock 40) asked)
  unfolding read_command
  read_run k second m value full = ground (
    arith,
    waits.in_memory,
    value,
    full,
    cmd_of_run k second (sockets (recv c.sock 40 ∷ recv c.sock 8 ∷ w.ctx.calls)).bytes,
  )

  module _ (n : ℕ) (value : answer.value ≡ some n) (s0 s1 s2 s3 : ℕ) where
    -- To a client to which nothing has to be sent, and whose first eight bytes are there: a request
    -- of version 1.1.1, the high byte first, is answered by `usbip_resp_devlist` for the code 0x8005
    -- and by `usbip_handle_import` for 0x8003, whatever the status field says. Any other code from
    -- 0x8000 to 0x80FF is read and not answered.
    pub request_answered :
        (op : ℕ)
        → op < 256
        → answer.bytes ≡ 1 ∷ 0x11 ∷ 0x80 ∷ op ∷ s0 ∷ s1 ∷ s2 ∷ s3 ∷ []
        → usbip_client_handle sockets client i w ≡ (
            if op == 5
            then usbip_resp_devlist sockets client i asked
            else if op == 3
            then usbip_handle_import sockets client i asked
            else some (false, asked))
    unfolding dispatch
    request_answered op lt e =
        received n value (ap length e)
        ∙ ap (λ hdr. dispatch sockets client i hdr asked) e
        ∙ ap (λ f. dispatch_word sockets client i f (of_bytes (s0 ∷ s1 ∷ s2 ∷ s3 ∷ [])) asked)
            (swapped_request op lt)
        ∙ request_word op (of_bytes (s0 ∷ s1 ∷ s2 ∷ s3 ∷ [])) lt

    command_request :
        (k : ℕ)
        → k ≤ 2
        → answer.bytes ≡ 0 ∷ 0 ∷ 0 ∷ k ∷ s0 ∷ s1 ∷ s2 ∷ s3 ∷ []
        → usbip_client_handle sockets client i w
          ≡ read_command sockets client i k (of_bytes (s0 ∷ s1 ∷ s2 ∷ s3 ∷ [])) asked
    unfolding dispatch
    command_request k le e =
        received n value (ap length e)
        ∙ ap (λ hdr. dispatch sockets client i hdr asked) e
        ∙ ap (λ f. dispatch_word sockets client i f (of_bytes (s0 ∷ s1 ∷ s2 ∷ s3 ∷ [])) asked)
            (swapped_small k (omega arith))
        ∙ small_word k (of_bytes (s0 ∷ s1 ∷ s2 ∷ s3 ∷ [])) le

    -- A client to which nothing has to be sent, whose command is 0, 1 (submit) or 2 (unlink), the high
    -- byte first, and whose 40 bytes behind the command are there: `usbip_client_handle` reads them all,
    -- returns 0, and changes nothing: the command is converted from network order twice.
    pub command_ignored :
        (k m : ℕ)
        → k ≤ 2
        → answer.bytes ≡ 0 ∷ 0 ∷ 0 ∷ k ∷ s0 ∷ s1 ∷ s2 ∷ s3 ∷ []
        → (sockets (recv c.sock 40 ∷ recv c.sock 8 ∷ w.ctx.calls)).value ≡ some m
        → length (sockets (recv c.sock 40 ∷ recv c.sock 8 ∷ w.ctx.calls)).bytes ≡ 40
        → usbip_client_handle sockets client i w ≡ some (false, called (recv c.sock 40) asked)
    command_ignored k m le e value' full =
        command_request k le e
        ∙ read_run k (of_bytes (s0 ∷ s1 ∷ s2 ∷ s3 ∷ [])) m value' full
        ∙ run_ignored sockets client _ _ (omega (arith, swapped_big k le))
            (omega (arith, swapped_big k le))

  -- A client to which nothing has to be sent, and from whom fewer than eight bytes come, none among
  -- them, as from one that has closed its side: the bytes are dropped, the result is 0, and the client
  -- stays as it is.
  pub short_header_dropped :
      (n : ℕ)
      → answer.value ≡ some n
      → length answer.bytes < 8
      → usbip_client_handle sockets client i w ≡ some (false, asked)
  unfolding usbip_client_handle receive
  short_header_dropped n value short =
      nothing_pending (receive sockets client i) ∙ ground (arith, waits.in_memory, value, short)
