-- ===== src/Usbip/Server/Settles.antt =====
-- Actions that set a socket up, and on any failure close it.
use embedded_usbip.Prelude.{ℕ, ◌≡◌, refl, ◌∙◌, Bool, true, false, Option, none, some, List, ◌∷◌}
use embedded_usbip.Usbip.Server.{
  ServerWorld, Sockets, Answer, pure, Call, get_flags, shutdown, close, Action,
}
use embedded_usbip.Usbip.Server.Clients.{sock_stop, stop_if, attempt, with_flags, set_options}

-- The list of clients and the clients in memory are the same.
abbrev pub SameClients : ServerWorld → ServerWorld → Type 0
SameClients w w' =
    (w'.list ≡ w.list) × (w'.heap ≡ w.heap) × ((a : ℕ) → w'.ctx.clients a ≡ w.ctx.clients a)

-- The last two calls shut the socket down and close it.
abbrev pub Closed : (sock : ℕ) → ServerWorld → Type 0
Closed sock w = (cs : List Call) × (w.ctx.calls ≡ close sock ∷ shutdown sock ∷ cs)

-- The action ends. With -1 the socket is closed and `I` holds; with 0 `P` holds.
pub record Settles (I : ServerWorld → Type 0) (sock : ℕ) (P : ServerWorld → Type 0)
    (m : Action Bool) (w1 : ServerWorld) : Type 0 where
  pub result : Bool
  pub after : ServerWorld
  pub ended : m w1 ≡ some (result, after)
  pub stopped : result ≡ true → Closed sock after × I after
  pub went_on : result ≡ false → P after

abbrev pub called : Call → ServerWorld → ServerWorld
called c w = record w { ctx = record (w.ctx) { calls = c ∷ w.ctx.calls } }

-- `I` is kept by calls of the library.
module _ (sockets : Sockets) (I : ServerWorld → Type 0)
    (keeps : (c : Call) (w : ServerWorld) → I w → I (called c w)) (sock : ℕ)
    (P : ServerWorld → Type 0) where
  -- Where the first step of an action only makes a call.
  pub Settles-step :
      {m m' : Action Bool} {w1 w2 : ServerWorld}
      → m w1 ≡ m' w2
      → Settles I sock P m' w2
      → Settles I sock P m w1
  Settles-step e s = record {
    result = s.result;
    after = s.after;
    ended = e ∙ s.ended;
    stopped = s.stopped;
    went_on = s.went_on;
  }

  pub stop_if-Settles :
      (b : Bool) (rest : Action Bool) (w1 : ServerWorld)
      → (b ≡ true → I w1)
      → (b ≡ false → Settles I sock P rest w1)
      → Settles I sock P (stop_if sockets b sock rest) w1
  unfolding stop_if sock_stop
  stop_if-Settles true rest w1 same k = record {
    result = true;
    after = record w1 {
      ctx = record (w1.ctx) { calls = close sock ∷ shutdown sock ∷ w1.ctx.calls };
    };
    ended = refl;
    stopped = λ e. (
      (w1.ctx.calls, refl),
      keeps (close sock) (called (shutdown sock) w1) (keeps (shutdown sock) w1 (same refl)),
    );
    went_on = λ e. absurd (cc);
  }
  stop_if-Settles false rest w1 same k = k refl

  pub attempt-Settles :
      (c : Call) (test : Answer → Bool) (rest : Action Bool) (w1 : ServerWorld)
      → I w1
      → ((w2 : ServerWorld) → I w2 → Settles I sock P rest w2)
      → Settles I sock P (attempt sockets c test sock rest) w1
  unfolding attempt
  attempt-Settles c test rest w1 same k = Settles-step refl (
      stop_if-Settles (test (sockets (c ∷ w1.ctx.calls))) rest (called c w1) (λ e. keeps c w1 same)
        (λ e. k (called c w1) (keeps c w1 same)))

  pub with_flags-Settles :
      {rest : ℕ → Action Bool} (w1 : ServerWorld)
      → I w1
      → ((f : ℕ) (w2 : ServerWorld) → I w2 → Settles I sock P (rest f) w2)
      → Settles I sock P (with_flags sockets sock rest) w1
  unfolding with_flags
  with_flags-Settles {rest} w1 same k =
      Settles-step refl (flagged (sockets (get_flags sock ∷ w1.ctx.calls)).value)
    where
      flagged :
          (v : Option ℕ)
          → Settles I sock P
              (elim v as (λ x. Action Bool) [
                | none ↦ stop_if sockets true sock (pure true)
                | some f ↦ rest f
              ])
              (called (get_flags sock) w1)
      flagged none =
          stop_if-Settles true (pure true) (called (get_flags sock) w1)
            (λ e. keeps (get_flags sock) w1 same) (λ e. absurd (cc))
      flagged (some f) = k f (called (get_flags sock) w1) (keeps (get_flags sock) w1 same)

  pub set_options-Settles :
      (rest : Action Bool) (w1 : ServerWorld)
      → I w1
      → ((w2 : ServerWorld) → I w2 → Settles I sock P rest w2)
      → Settles I sock P (set_options sockets sock rest) w1
  unfolding set_options
  set_options-Settles rest w1 same k =
      attempt-Settles _ _ _ w1 same
        (λ w2 same2. attempt-Settles _ _ _ w2 same2 (λ w3 same3. attempt-Settles _ _ _ w3 same3 k))
