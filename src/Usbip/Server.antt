-- ===== src/Usbip/Server.antt =====
-- The server of src/usbip.c: its state, and the calls of the socket library, which is a parameter.
-- What a call returns may depend on all calls before it, so it is a function of the calls that were
-- made, the newest first. `none` stands for an access through NULL or to memory that is not there.
pub mod Clients
pub mod Replies
pub mod Submit
pub mod Handle
pub mod Settles
pub mod Untouched
pub mod Accept
pub mod Listen
pub mod Dispatch
pub mod Idle
pub mod Devices
pub mod Misread
pub mod Import
pub mod Completed
pub mod Stopping
pub mod Submitting
mod Samples
mod Tests
use embedded_usbip.Prelude.{
  ℕ, Bool, true, false, Option, none, some, List, [], ◌∷◌, ◌==◌, ◌||◌, if◌then◌else◌,
}
use embedded_usbip.StreamFifo.{StreamFifo}
use embedded_usbip.LinkedList.{World}
use embedded_usbip.Vhci.{VhciHandle, Store}
use embedded_usbip.Usbip.Commands.{ImportedDev}

-- `usbip_client_t`; `data_stream` is the buffer of `out_fifo`.
pub record UsbipClient : Type 0 where
  pub sock : ℕ
  pub out_fifo : StreamFifo
  pub imported_devs : List ImportedDev

-- A call of the socket library with its arguments; of the buffers, the number of bytes that `recv`
-- asks for, and for `send` the fifo that the bytes are in.
pub data Call : Type 0 where
  socket : Call
  bind : (sock port : ℕ) → Call
  listen : (sock : ℕ) → Call
  accept : (sock : ℕ) → Call
  get_flags : (sock : ℕ) → Call
  set_flags : (sock flags : ℕ) → Call
  set_option : (sock level name value : ℕ) → Call
  send : (sock : ℕ) → StreamFifo → Call
  recv : (sock bytes : ℕ) → Call
  shutdown : (sock : ℕ) → Call
  close : (sock : ℕ) → Call

-- `value` is `none` for -1, and `errno` is then the error. For `recv` the value is the number of
-- the `bytes` that came.
pub record Answer : Type 0 where
  pub value : Option ℕ
  pub errno : ℕ
  pub bytes : List ℕ

abbrev pub Sockets : Type 0
Sockets = List Call → Answer

-- `usbip_server_t`, with what its `vhci_handle` points to, the clients in memory, and the calls made.
pub record UsbipServer : Type 0 where
  pub vhci : VhciHandle
  pub store : Store
  pub listen_sock : ℕ
  pub clients : ℕ → Option UsbipClient
  pub calls : List Call

-- The list of the world is `client_list`.
abbrev pub ServerWorld : Type 0
ServerWorld = World UsbipServer

abbrev pub Action : Type 0 → Type 0
Action A = ServerWorld → Option (A × ServerWorld)

infixl 5 ◌>>=◌ ◌>>◌
abbrev pub ◌>>=◌ : {A B : Type 0} → Action A → (A → Action B) → Action B
◌>>=◌ m f w = elim (m w) [ none ↦ none | some (a, w') ↦ f a w' ]

abbrev pub ◌>>◌ : {A B : Type 0} → Action A → Action B → Action B
m >> k = m >>= λ _. k

abbrev pub pure : {A : Type 0} → A → Action A
pure a w = some (a, w)

-- A value that is not there is a fault.
abbrev pub need : {A : Type 0} → Option A → Action A
need none w = none
need (some a) w = some (a, w)

abbrev pub gets : {A : Type 0} → (UsbipServer → A) → Action A
gets f w = some (f w.ctx, w)

abbrev pub set_client : (client : ℕ) → Option UsbipClient → Action (Unit {0})
set_client client c w = some (
  tt,
  record w { ctx = record (w.ctx) { clients = λ a. if a == client then c else w.ctx.clients a } },
)

-- The client at an address.
abbrev pub get_client : (client : ℕ) → Action UsbipClient
get_client client w = need (w.ctx.clients client) w

-- The client, which is `c`, gets another fifo.
abbrev pub set_fifo : (client : ℕ) → UsbipClient → StreamFifo → Action (Unit {0})
set_fifo client c q = set_client client (some (record c { out_fifo = q }))

abbrev pub call : Sockets → Call → Action Answer
call sockets c w =
    some (sockets (c ∷ w.ctx.calls), record w { ctx = record (w.ctx) { calls = c ∷ w.ctx.calls } })

abbrev pub is_failure : Answer → Bool
is_failure a = elim a.value [ none ↦ true | some n ↦ false ]

-- EAGAIN and EWOULDBLOCK of the target's <errno.h>.
abbrev pub eagain : ℕ
eagain = 11

-- `bytes < 0 && errno != EAGAIN && errno != EWOULDBLOCK`, the error being one or none of the two.
abbrev pub would_block : Answer → Bool
would_block a = a.errno == eagain
