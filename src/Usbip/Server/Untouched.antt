-- ===== src/Usbip/Server/Untouched.antt =====
-- What an operation of the server for one client leaves alone: the host controller, the listening
-- socket, and the other clients.
pub mod Clients
pub mod Requests
pub mod Commands
pub mod Rounds
use embedded_usbip.Prelude.{
  ℕ, ◌≡◌, ◌≢◌, refl, ◌∙◌, Bool, true, false, Option, none, some, List, ◌==◌, if◌then◌else◌, arith,
}
use embedded_usbip.StreamFifo.{StreamFifo}
use embedded_usbip.LinkedList.{Pushed, pushed, no_memory, linked_list_push, linked_list_rem}
use embedded_usbip.Usbip.Server.{
  UsbipClient, UsbipServer, ServerWorld, Sockets, Answer, Call, Action, ◌>>=◌, pure, need, gets,
  get_client, set_client, call,
}
use embedded_usbip.Usbip.Server.Clients.{list_rem, list_push}

-- The same host controller and listening socket.
pub record SameController (w w' : ServerWorld) : Type 0 where
  pub vhci : w'.ctx.vhci ≡ w.ctx.vhci
  pub store : w'.ctx.store ≡ w.ctx.store
  pub listen_sock : w'.ctx.listen_sock ≡ w.ctx.listen_sock

pub SameController-refl : (w : ServerWorld) → SameController w w
SameController-refl w = record { vhci = refl; store = refl; listen_sock = refl }

pub SameController-trans :
    {w w' w'' : ServerWorld} → SameController w w' → SameController w' w'' → SameController w w''
SameController-trans s t = record {
  vhci = t.vhci ∙ s.vhci;
  store = t.store ∙ s.store;
  listen_sock = t.listen_sock ∙ s.listen_sock;
}

-- Also the clients at other addresses are the same.
pub record Untouched (client : ℕ) (w w' : ServerWorld) : Type 0 where
  pub controller : SameController w w'
  pub others : (a : ℕ) → a ≢ client → w'.ctx.clients a ≡ w.ctx.clients a

-- What holds of the world behind a result.
abbrev pub Behind : {A : Type 0} → (ServerWorld → Type 0) → Option (A × ServerWorld) → Type 0
Behind P none = Unit
Behind P (some (a, w)) = P w

-- The action leaves all but the client alone, whenever it ends.
pub record Keeps {A : Type 0} (client : ℕ) (m : Action A) : Type 0 where
  pub kept : (w : ServerWorld) → Behind (Untouched client w) (m w)

module _ {client : ℕ} where
  pub same : (w : ServerWorld) → Untouched client w w
  same w = record { controller = SameController-refl w; others = λ a ne. refl }

  then_Behind :
      {A : Type 0} {w w' : ServerWorld} (r : Option (A × ServerWorld))
      → Untouched client w w'
      → Behind (Untouched client w') r
      → Behind (Untouched client w) r
  then_Behind none u k = tt
  then_Behind (some (a, w'')) u k = record {
    controller = SameController-trans u.controller k.controller;
    others = λ a ne. k.others a ne ∙ u.others a ne;
  }

  bind_Behind :
      {A B : Type 0} (w : ServerWorld) (r : Option (A × ServerWorld)) {f : A → Action B}
      → Behind (Untouched client w) r
      → ((a : A) → Keeps client (f a))
      → Behind (Untouched client w) (elim r [ none ↦ none | some (a, w') ↦ f a w' ])
  bind_Behind w none k ks = tt
  bind_Behind w (some (a, w')) {f} k ks = then_Behind (f a w') k ((ks a).kept w')

  pub bind-Keeps :
      {A B : Type 0} {m : Action A} {f : A → Action B}
      → Keeps client m
      → ((a : A) → Keeps client (f a))
      → Keeps client (m >>= f)
  bind-Keeps {m} k ks = record { kept = λ w. bind_Behind w (m w) (k.kept w) ks }

  pub pure-Keeps : {A : Type 0} (a : A) → Keeps client (pure a)
  pure-Keeps a = record { kept = λ w. same w }

  pub need-Keeps : {A : Type 0} (o : Option A) → Keeps client (need o)
  need-Keeps none = record { kept = λ w. tt }
  need-Keeps (some a) = record { kept = λ w. same w }

  pub gets-Keeps : {A : Type 0} (f : UsbipServer → A) → Keeps client (gets f)
  gets-Keeps f = record { kept = λ w. same w }

  pub get_client-Keeps : (address : ℕ) → Keeps client (get_client address)
  get_client-Keeps address = record { kept = λ w. (need-Keeps (w.ctx.clients address)).kept w }

  pub set_client-Keeps : (c : Option UsbipClient) → Keeps client (set_client client c)
  set_client-Keeps c = record {
    kept = λ w. record {
      controller = record { vhci = refl; store = refl; listen_sock = refl };
      others = λ a ne. ground (arith, ne);
    };
  }

  pub call-Keeps : (sockets : Sockets) (c : Call) → Keeps client (call sockets c)
  call-Keeps sockets c = record {
    kept = λ w. record {
      controller = record { vhci = refl; store = refl; listen_sock = refl };
      others = λ a ne. refl;
    };
  }

  pub if-Keeps :
      {A : Type 0} (b : Bool) {m n : Action A}
      → Keeps client m
      → Keeps client n
      → Keeps client (if b then m else n)
  if-Keeps true k l = k
  if-Keeps false k l = l

  pub option-Keeps :
      {A B : Type 0} (o : Option A) {m : Action B} {f : A → Action B}
      → Keeps client m
      → ((a : A) → Keeps client (f a))
      → Keeps client (elim o [ none ↦ m | some a ↦ f a ])
  option-Keeps none k l = k
  option-Keeps (some a) k l = l a

  pub list_rem-Keeps : (i : ℕ) → Keeps client (list_rem i)
  list_rem-Keeps i = record {
    kept = λ w.
        elim (linked_list_rem w.list i w.heap)
          as (λ r. Behind (Untouched client w) (elim r [
            | none ↦ none
            | some (item, l, h) ↦ some (tt, record w { list = l; heap = h })
          ])) [
            | none ↦ tt
            | some (item, l, h) ↦ record {
              controller = record { vhci = refl; store = refl; listen_sock = refl };
              others = λ a ne. refl;
            }
          ];
  }

  pub list_push-Keeps : (node : ℕ) → Keeps client (list_push node client)
  list_push-Keeps node = record {
    kept = λ w.
        elim (linked_list_push node w.list client w.heap)
          as (λ r. Behind (Untouched client w) (elim r [
            | none ↦ none
            | some (pushed l h) ↦ some (false, record w { list = l; heap = h })
            | some no_memory ↦ some (true, w)
          ])) [
            | none ↦ tt
            | some (pushed l h) ↦ record {
              controller = record { vhci = refl; store = refl; listen_sock = refl };
              others = λ a ne. refl;
            }
            | some no_memory ↦ same w
          ];
  }
