-- ===== src/Network/Steps.antt =====
-- What may happen to a server: the sockets and the application as they are documented to behave.
use clibmedia_transfer_proto.Common.{
  ℕ, ◌≡◌, Bool, true, false, ◌||◌, Option, none, some, List, [], ◌∷◌, ◌++◌, ◌==◌, if◌then◌else◌,
}
use clibmedia_transfer_proto.ByteIo.{Bytes}
use clibmedia_transfer_proto.Network.{
  TcpServer, Call, async_send, close, hand_on, Output, on_new_connection, on_destory, handed_on,
  socket_send, socket_send_to, socket_close, Client, assign, recv_loop, Action, accepts, arrives,
  closes, writable, listener_closes, uses, runs, act,
}

-- The server; the sockets that `Accept` has given and those that have signalled their end; those of
-- them that were closed from either side; the bytes that `AsyncSend` was given for each, and those
-- that each socket was.
pub record World (C : Type 0) : Type 0 where
  pub server : TcpServer C
  pub opened : ℕ → Bool
  pub closed : ℕ → Bool
  pub stopped : ℕ → Bool
  pub posted : ℕ → Bytes
  pub sent : ℕ → Bytes

abbrev pub new_world : {C : Type 0} → World C
new_world = record {
  server = record { tcp_sessions = λ c. none; tasks = [] };
  opened = λ c. false;
  closed = λ c. false;
  stopped = λ c. false;
  posted = λ c. [];
  sent = λ c. [];
}

module _ {E : Type 0} where
  abbrev pub KeepsOpen : List (Call E) → Type 0
  KeepsOpen [] = Unit
  KeepsOpen (async_send data' ∷ list) = KeepsOpen list
  KeepsOpen (close ∷ list) = true ≡ false
  KeepsOpen (hand_on e ∷ list) = KeepsOpen list

  abbrev pub given : List (Call E) → Bytes
  given [] = []
  given (async_send data' ∷ list) = data' ++ given list
  given (close ∷ list) = given list
  given (hand_on e ∷ list) = given list

  abbrev pub ends : List (Call E) → Bool
  ends [] = false
  ends (async_send data' ∷ list) = ends list
  ends (close ∷ list) = true
  ends (hand_on e ∷ list) = ends list

  abbrev pub sent_on : ℕ → List (Output E) → Bytes
  sent_on c [] = []
  sent_on c (socket_send d data' ∷ out) =
      let rest = sent_on c out in if d == c then data' ++ rest else rest
  sent_on c (socket_send_to d data' ∷ out) = sent_on c out
  sent_on c (on_new_connection d ∷ out) = sent_on c out
  sent_on c (on_destory d ∷ out) = sent_on c out
  sent_on c (handed_on d e ∷ out) = sent_on c out
  sent_on c (socket_close d ∷ out) = sent_on c out

module _ {C E : Type 0} where
  abbrev pub MayKeepOpen : Option (C × List (Call E)) → Type 0
  MayKeepOpen none = Unit
  MayKeepOpen (some (x, list)) = KeepsOpen list

  -- `Accept` gives new sockets; a socket that has signalled its end signals nothing more, and the
  -- application does not call `Close` from then on. The socket that listens is none of them.
  abbrev pub Allowed : World C → Action C E → Type 0
  Allowed w (accepts none) = Unit
  Allowed w (accepts (some c)) = w.opened c ≡ false
  Allowed w (arrives c received) = w.closed c ≡ false
  Allowed w (closes c) = (w.opened c ≡ true) × (w.closed c ≡ false)
  Allowed w (writable c) = w.closed c ≡ false
  Allowed w (listener_closes c) = w.opened c ≡ false
  Allowed w (uses c work) = w.closed c ≡ true → (x : C) → MayKeepOpen (work x)
  Allowed w runs = Unit

  -- The calls of the context of a connection at work.
  abbrev pub calls_of : ℕ → (C → Option (C × List (Call E))) → TcpServer C → List (Call E)
  calls_of c work s = elim (s.tcp_sessions c) [
    | none ↦ []
    | some k ↦ elim k.context [
      | none ↦ []
      | some x ↦ elim (work x) [ none ↦ [] | some (x', list) ↦ list ]
    ]
  ]

  abbrev called : World C → ℕ → List (Call E) → World C
  called w c list = record w {
    stopped = assign w.stopped c (w.stopped c || ends list);
    posted = assign w.posted c (w.posted c ++ given list);
  }

  abbrev pub noted : Client C E → World C → Action C E → World C
  noted client w (accepts none) = w
  noted client w (accepts (some c)) = record w { opened = assign w.opened c true }
  noted client w (arrives c received) =
      called w c (calls_of c (λ x. client.on_recv x (recv_loop [] received)) w.server)
  noted client w (closes c) = record w {
    closed = assign w.closed c true;
    stopped = assign w.stopped c true;
  }
  noted client w (writable c) = w
  noted client w (listener_closes c) = w
  noted client w (uses c work) = called w c (calls_of c work w.server)
  noted client w runs = w

  -- The world once an action has left a server and shown an output.
  abbrev pub next : Client C E → World C → Action C E → TcpServer C → List (Output E) → World C
  next client w action s out = record (noted client w action) {
    server = s;
    sent = λ c. w.sent c ++ sent_on c out;
  }

  pub data Reach (client : Client C E) : World C → Type 0 where
    start : Reach client new_world
    step :
        {w : World C} (action : Action C E) {s : TcpServer C} {out : List (Output E)}
        → Reach client w
        → Allowed w action
        → act client action w.server ≡ some (s, out)
        → Reach client (next client w action s out)
