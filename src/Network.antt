-- ===== src/Network.antt =====
-- libnetwork/connection.cpp and tcp_server.cpp: the connections of a server, the tasks that they post
-- to the network thread, and what the sockets and the application do to them. A connection is known
-- by its socket, and is destroyed when it leaves `tcp_sessions_`; `none` is a use of a connection that
-- is destroyed. The tasks are run one at a time, oldest first.
pub mod Steps
pub mod Kept
pub mod Calls
pub mod Queue
pub mod Safety
pub mod Posted
pub mod Served
pub mod Delivery
pub mod Drained
pub mod Destroyed
use clibmedia_transfer_proto.Common.{
  ℕ, zero, suc, ◌+◌, ◌-◌, ◌*◌, Bool, true, false, Option, none, some, List, [], ◌∷◌, ◌++◌, ◌==◌,
  leb, if◌then◌else◌, length, take,
}
use clibmedia_transfer_proto.ByteIo.{Bytes}

pub data ProtocolType : Type 0 where
  protocol_udp protocol_tcp : ProtocolType

-- The connection's own fields: `contexts_` holds one context of the type C, that of the server above.
pub record Connection (C : Type 0) : Type 0 where
  pub protocol_type : ProtocolType
  pub available_write : Bool
  pub context : Option C

-- `Connection(network_thread, session)`
unfoldable pub new_connection : {C : Type 0} → Connection C
new_connection = record { protocol_type = protocol_tcp; available_write = true; context = none }

-- What the network thread is given: by `Connection::Close`, `AsyncSend` and `OnSessionClose`.
pub data Task : Type 0 where
  close_socket : ℕ → Task
  send_data : ℕ → Bytes → Task
  destroy_session : ℕ → Task

pub record TcpServer (C : Type 0) : Type 0 where
  pub tcp_sessions : ℕ → Option (Connection C)
  pub tasks : List Task

-- What is done with a connection: `AsyncSend`, `Close`, and what is handed to the application.
pub data Call (E : Type 0) : Type 0 where
  async_send : Bytes → Call E
  close : Call E
  hand_on : E → Call E

-- What is seen outside: the signals, and the calls of the sockets.
pub data Output (E : Type 0) : Type 0 where
  on_new_connection on_destory : ℕ → Output E
  handed_on : ℕ → E → Output E
  socket_send socket_send_to : ℕ → Bytes → Output E
  socket_close : ℕ → Output E

-- The server above, with a context for each connection.
pub record Client (C E : Type 0) : Type 0 where
  pub new_context : ℕ → C
  pub on_recv : C → Bytes → Option (C × List (Call E))

abbrev pub assign {ℓ} : {A : Type ℓ} → (ℕ → A) → ℕ → A → ℕ → A
assign f i a j = if i == j then a else f j

abbrev pub buffer_capacity : ℕ
buffer_capacity = 1024 * 1024 * 8

-- The loop over `Recv` of `Connection::OnRead`, where each list is what a call of it has to give.
unfoldable pub recv_loop : Bytes → List Bytes → Bytes
recv_loop buffer [] = buffer
recv_loop buffer ([] ∷ others) = buffer
recv_loop buffer ((b ∷ bytes) ∷ others) =
    let buffer' = buffer ++ take (buffer_capacity - length buffer) (b ∷ bytes) in
    let rest = recv_loop buffer' others in
    if leb buffer_capacity (length buffer') then buffer' else rest

abbrev pub Acted : Type 0 → Type 0 → Type 0
Acted C E = Option (TcpServer C × List (Output E))

abbrev pub connection_of : Task → ℕ
connection_of (close_socket c) = c
connection_of (send_data c data') = c
connection_of (destroy_session c) = c

-- The sockets, the network thread and the application, which may use a context at any time.
pub data Action (C E : Type 0) : Type 0 where
  accepts : Option ℕ → Action C E
  arrives : ℕ → List Bytes → Action C E
  closes writable listener_closes : ℕ → Action C E
  uses : ℕ → (C → Option (C × List (Call E))) → Action C E
  runs : Action C E

module _ {C : Type 0} where
  unfoldable pub post : Task → TcpServer C → TcpServer C
  post task s = record s { tasks = s.tasks ++ (task ∷ []) }

  unfoldable pub put : ℕ → Option (Connection C) → TcpServer C → TcpServer C
  put c k s = record s { tcp_sessions = assign s.tcp_sessions c k }

  -- `Connection::OnClose` with `TcpServer::OnSessionClose`. A socket of a connection that is
  -- destroyed signals nobody, here and below.
  unfoldable pub on_close : ℕ → TcpServer C → TcpServer C
  unfolding put post
  on_close c s = elim (s.tcp_sessions c) [
    | none ↦ s
    | some k ↦ post (destroy_session c) (put c (some (record k { available_write = false })) s)
  ]

  unfoldable pub on_write : ℕ → TcpServer C → TcpServer C
  unfolding put
  on_write c s = elim (s.tcp_sessions c) [
    | none ↦ s
    | some k ↦ put c (some (record k { available_write = true })) s
  ]

module _ {C E : Type 0} where
  -- A call on a connection; one that hands something on does so at once.
  unfoldable pub call : ℕ → Call E → TcpServer C → Acted C E
  unfolding post
  call c (async_send data') s = elim (s.tcp_sessions c) [
    | none ↦ none
    | some k ↦ some ((if k.available_write then post (send_data c data') s else s), [])
  ]
  call c close s = elim (s.tcp_sessions c) [
    | none ↦ none
    | some k ↦ some (post (close_socket c) s, [])
  ]
  call c (hand_on e) s = some (s, handed_on c e ∷ [])

  unfoldable pub calls : ℕ → List (Call E) → TcpServer C → Acted C E
  unfolding call
  calls c [] s = some (s, [])
  calls c (first ∷ rest) s = elim (call c first s) [
    | none ↦ none
    | some (s', out) ↦ elim (calls c rest s') [
      | none ↦ none
      | some (s'', more) ↦ some (s'', out ++ more)
    ]
  ]

  -- The task of `AsyncSend`; the buffer of no bytes has no data.
  unfoldable pub run_send : ℕ → Bytes → Connection C → List (Output E)
  run_send c [] k = []
  run_send c (b ∷ bytes) k =
      if k.available_write
      then elim k.protocol_type [
        | protocol_udp ↦ socket_send_to c (b ∷ bytes) ∷ []
        | protocol_tcp ↦ socket_send c (b ∷ bytes) ∷ []
      ]
      else []

  -- A task of a connection that is there.
  unfoldable pub run_on : Task → Connection C → TcpServer C → TcpServer C × List (Output E)
  unfolding put run_send
  run_on (close_socket c) k s =
      (put c (some (record k { available_write = false })) s, socket_close c ∷ [])
  run_on (send_data c data') k s = (s, run_send c data' k)
  run_on (destroy_session c) k s = (put c none s, on_destory c ∷ [])

  -- The network thread runs the oldest task.
  unfoldable pub run_task : List Task → TcpServer C → Acted C E
  unfolding run_on
  run_task [] s = some (s, [])
  run_task (task ∷ tasks) s = elim (s.tcp_sessions (connection_of task)) [
    | none ↦ none
    | some k ↦ some (run_on task k (record s { tasks = tasks }))
  ]

  -- `TcpServer::OnRead`, where `Accept` gives a socket or none, and the context that the server above
  -- sets. `emplace` keeps a connection that is there.
  unfoldable pub on_accept : Client C E → Option ℕ → TcpServer C → TcpServer C × List (Output E)
  unfolding put new_connection
  on_accept client none s = (s, [])
  on_accept client (some c) s =
      let k : Connection C = elim (s.tcp_sessions c) [ none ↦ new_connection | some k ↦ k ] in
      (
        put c (some (record k { context = some (client.new_context c) })) s,
        on_new_connection c ∷ [],
      )

  -- `TcpServer::OnClose`: the session of the socket that listens, if it is one.
  unfoldable pub on_listener_close : ℕ → TcpServer C → TcpServer C × List (Output E)
  unfolding put
  on_listener_close c s = elim (s.tcp_sessions c) [
    | none ↦ (s, [])
    | some k ↦ (put c none s, on_destory c ∷ [])
  ]

  -- The context of a connection at work: what it becomes, and its calls.
  unfoldable pub with_context :
      ℕ → (C → Option (C × List (Call E))) → Connection C → TcpServer C → Acted C E
  unfolding put calls
  with_context c work k s = elim k.context [
    | none ↦ some (s, [])
    | some x ↦ elim (work x) [
      | none ↦ none
      | some (x', list) ↦ calls c list (put c (some (record k { context = some x' })) s)
    ]
  ]

  -- `Connection::OnRead` with the `OnRecv` of the server above.
  unfoldable pub on_read : Client C E → ℕ → List Bytes → TcpServer C → Acted C E
  unfolding with_context recv_loop
  on_read client c received s = elim (s.tcp_sessions c) [
    | none ↦ some (s, [])
    | some k ↦ with_context c (λ x. client.on_recv x (recv_loop [] received)) k s
  ]

  -- `AyncSend`, which does not wait for the network thread.
  unfoldable aync_send : ℕ → Bytes → Connection C → List (Output E)
  aync_send c data' k = elim k.protocol_type [
    | protocol_udp ↦ socket_send_to c data' ∷ []
    | protocol_tcp ↦ socket_send c data' ∷ []
  ]

  unfoldable pub act : Client C E → Action C E → TcpServer C → Acted C E
  unfolding on_accept on_read on_close on_write on_listener_close run_task with_context
  act client (accepts accepted) s = some (on_accept client accepted s)
  act client (arrives c received) s = on_read client c received s
  act client (closes c) s = some (on_close c s, [])
  act client (writable c) s = some (on_write c s, [])
  act client (listener_closes c) s = some (on_listener_close c s)
  act client (uses c work) s = elim (s.tcp_sessions c) [
    | none ↦ none
    | some k ↦ with_context c work k s
  ]
  act client runs s = run_task s.tasks s
