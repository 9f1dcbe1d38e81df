-- ===== src/Network/Posted.antt =====
-- What calls on a connection leave in the queue.
use clibmedia_transfer_proto.Common.{
  ℕ, ◌≡◌, refl, sym, ap, Bool, true, false, some, List, [], ◌∷◌, ◌++◌, ◌==◌, if◌then◌else◌,
  append-nil, append_assoc, arith,
}
use clibmedia_transfer_proto.ByteIo.{Bytes}
use clibmedia_transfer_proto.Network.{
  Connection, Task, close_socket, send_data, destroy_session, TcpServer, Call, async_send, close,
  hand_on, Output, handed_on, call, calls, post,
}
use clibmedia_transfer_proto.Network.Steps.{given, ends, sent_on}

-- The bytes that the tasks are still to send on a socket.
abbrev pub queued : ℕ → List Task → Bytes
queued c [] = []
queued c (send_data d data' ∷ tasks) =
    let rest = queued c tasks in if d == c then data' ++ rest else rest
queued c (close_socket d ∷ tasks) = queued c tasks
queued c (destroy_session d ∷ tasks) = queued c tasks

-- No task closes a connection.
abbrev pub Lasts : ℕ → List Task → Type 0
Lasts c [] = Unit
Lasts c (send_data d data' ∷ tasks) = Lasts c tasks
Lasts c (close_socket d ∷ tasks) = (d == c ≡ false) × Lasts c tasks
Lasts c (destroy_session d ∷ tasks) = (d == c ≡ false) × Lasts c tasks

pub queued-append : (c : ℕ) (ts us : List Task) → queued c (ts ++ us) ≡ queued c ts ++ queued c us
queued-append c [] us = refl
queued-append c (send_data d data' ∷ ts) us =
    ground (arith, queued-append c ts us, append_assoc data' (queued c ts) (queued c us))
queued-append c (close_socket d ∷ ts) us = queued-append c ts us
queued-append c (destroy_session d ∷ ts) us = queued-append c ts us

pub Lasts-append : (c : ℕ) (ts us : List Task) → Lasts c ts → Lasts c us → Lasts c (ts ++ us)
Lasts-append c [] us h h' = h'
Lasts-append c (send_data d data' ∷ ts) us h h' = Lasts-append c ts us h h'
Lasts-append c (close_socket d ∷ ts) us (e, h) h' = (e, Lasts-append c ts us h h')
Lasts-append c (destroy_session d ∷ ts) us (e, h) h' = (e, Lasts-append c ts us h h')

module _ {E : Type 0} where
  -- The tasks that calls post, by whether the connection may be written to.
  abbrev pub tasks_of : Bool → ℕ → List (Call E) → List Task
  tasks_of writes c [] = []
  tasks_of writes c (async_send data' ∷ list) =
      let rest = tasks_of writes c list in if writes then send_data c data' ∷ rest else rest
  tasks_of writes c (close ∷ list) = close_socket c ∷ tasks_of writes c list
  tasks_of writes c (hand_on e ∷ list) = tasks_of writes c list

  abbrev pub handed : ℕ → List (Call E) → List (Output E)
  handed c [] = []
  handed c (async_send data' ∷ list) = handed c list
  handed c (close ∷ list) = handed c list
  handed c (hand_on e ∷ list) = handed_on c e ∷ handed c list

  pub queued-tasks_of :
      (c : ℕ) (list : List (Call E)) → queued c (tasks_of true c list) ≡ given list
  queued-tasks_of c [] = refl
  queued-tasks_of c (async_send data' ∷ list) = ground (arith, queued-tasks_of c list)
  queued-tasks_of c (close ∷ list) = queued-tasks_of c list
  queued-tasks_of c (hand_on e ∷ list) = queued-tasks_of c list

  pub queued-others :
      (writes : Bool) (c d : ℕ) (list : List (Call E))
      → c == d ≡ false
      → queued d (tasks_of writes c list) ≡ []
  queued-others writes c d [] h = refl
  queued-others true c d (async_send data' ∷ list) h = rw h (queued-others true c d list h)
  queued-others false c d (async_send data' ∷ list) h = queued-others false c d list h
  queued-others writes c d (close ∷ list) h = queued-others writes c d list h
  queued-others writes c d (hand_on e ∷ list) h = queued-others writes c d list h

  pub Lasts-others :
      (writes : Bool) (c d : ℕ) (list : List (Call E))
      → c == d ≡ false
      → Lasts d (tasks_of writes c list)
  Lasts-others writes c d [] h = tt
  Lasts-others true c d (async_send data' ∷ list) h = Lasts-others true c d list h
  Lasts-others false c d (async_send data' ∷ list) h = Lasts-others false c d list h
  Lasts-others writes c d (close ∷ list) h = (h, Lasts-others writes c d list h)
  Lasts-others writes c d (hand_on e ∷ list) h = Lasts-others writes c d list h

  pub Lasts-tasks_of :
      (c : ℕ) (list : List (Call E)) → ends list ≡ false → Lasts c (tasks_of true c list)
  Lasts-tasks_of c [] h = tt
  Lasts-tasks_of c (async_send data' ∷ list) h = Lasts-tasks_of c list h
  Lasts-tasks_of c (close ∷ list) h = absurd (cc)
  Lasts-tasks_of c (hand_on e ∷ list) h = Lasts-tasks_of c list h

  pub sent_on-handed : (c d : ℕ) (list : List (Call E)) → sent_on d (handed c list) ≡ []
  sent_on-handed c d [] = refl
  sent_on-handed c d (async_send data' ∷ list) = sent_on-handed c d list
  sent_on-handed c d (close ∷ list) = sent_on-handed c d list
  sent_on-handed c d (hand_on e ∷ list) = sent_on-handed c d list

  -- Calls on a connection that is there.
  pub calls-tasks_of :
      {C : Type 0} (c : ℕ) (list : List (Call E)) (s : TcpServer C) (k : Connection C)
      (writes : Bool)
      → s.tcp_sessions c ≡ some k
      → k.available_write ≡ writes
      → calls c list s
        ≡ some (record s { tasks = s.tasks ++ tasks_of writes c list }, handed c list)
  unfolding calls call post
  calls-tasks_of c [] s k writes e w =
      ap (λ t. some (record s { tasks = t }, [])) (sym (append-nil s.tasks))
  calls-tasks_of {C = C} c (async_send data' ∷ list) s k true e w =
      let s' : TcpServer C = record s { tasks = s.tasks ++ (send_data c data' ∷ []) } in
      rw
        (
          calls,
          e,
          w,
          calls-tasks_of c list s' k true e w,
          append_assoc s.tasks (send_data c data' ∷ []) (tasks_of true c list),
        )
        refl
  calls-tasks_of c (async_send data' ∷ list) s k false e w =
      rw (calls, e, w, calls-tasks_of c list s k false e w) refl
  calls-tasks_of {C = C} c (close ∷ list) s k writes e w =
      let s' : TcpServer C = record s { tasks = s.tasks ++ (close_socket c ∷ []) } in
      rw
        (
          calls,
          e,
          calls-tasks_of c list s' k writes e w,
          append_assoc s.tasks (close_socket c ∷ []) (tasks_of writes c list),
        )
        refl
  calls-tasks_of c (hand_on x ∷ list) s k writes e w =
      rw (calls, calls-tasks_of c list s k writes e w) refl
