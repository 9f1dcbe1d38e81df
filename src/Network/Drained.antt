-- ===== src/Network/Drained.antt =====
-- The network thread at work until it has nothing left to do.
use clibmedia_transfer_proto.Common.{
  ℕ, zero, suc, ◌≡◌, refl, sym, ap, subst, ◌∙◌, inl, inr, false, none, some, List, [], ◌∷◌, ◌++◌,
  Option-cases, append_assoc, arith, length,
}
use clibmedia_transfer_proto.Network.{
  Acted, Connection, Task, close_socket, send_data, destroy_session, TcpServer, Output,
  on_new_connection, on_destory, handed_on, socket_send, socket_send_to, socket_close, Client,
  connection_of, put, run_on, run_task, runs, act,
}
use clibmedia_transfer_proto.Network.Steps.{World, sent_on, next, Reach, step}
use clibmedia_transfer_proto.Network.Safety.{act-runs}
use clibmedia_transfer_proto.Network.Posted.{queued}
use clibmedia_transfer_proto.Network.Delivery.{Reach-Served}

-- So many tasks, one after the other.
unfoldable pub run_tasks : {C E : Type 0} → ℕ → TcpServer C → Acted C E
unfolding run_task
run_tasks zero s = some (s, [])
run_tasks {E = E} (suc n) s = elim (run_task {E = E} s.tasks s) [
  | none ↦ none
  | some (s', out) ↦ elim (run_tasks {E = E} n s') [
    | none ↦ none
    | some (s'', more) ↦ some (s'', out ++ more)
  ]
]

sent_on-append :
    {E : Type 0} (c : ℕ) (out more : List (Output E))
    → sent_on c (out ++ more) ≡ sent_on c out ++ sent_on c more
sent_on-append c [] more = refl
sent_on-append c (socket_send d data' ∷ out) more =
    ground (arith, sent_on-append c out more, append_assoc data' (sent_on c out) (sent_on c more))
sent_on-append c (socket_send_to d data' ∷ out) more = sent_on-append c out more
sent_on-append c (on_new_connection d ∷ out) more = sent_on-append c out more
sent_on-append c (on_destory d ∷ out) more = sent_on-append c out more
sent_on-append c (handed_on d e ∷ out) more = sent_on-append c out more
sent_on-append c (socket_close d ∷ out) more = sent_on-append c out more

module _ {C : Type 0} (E : Type 0) where
  abbrev Leaves : List Task → Acted C E → Type 0
  Leaves tasks none = Unit
  Leaves tasks (some (s, out)) = s.tasks ≡ tasks

  run_task-Leaves :
      (task : Task) (tasks : List Task) (s : TcpServer C) → Leaves tasks (run_task (task ∷ tasks) s)
  unfolding run_task run_on put
  run_task-Leaves task tasks s = elim (Option-cases (s.tcp_sessions (connection_of task))) [
    | inl e ↦ rw (run_task, e) tt
    | inr (k, e) ↦ rw (run_task, e) (left task k)
  ]
    where
      left :
          (task : Task) (k : Connection C)
          → (run_on {E = E} task k (record s { tasks = tasks })).0.tasks ≡ tasks
      left (close_socket c) k = refl
      left (send_data c data') k = refl
      left (destroy_session c) k = refl

module _ {C E : Type 0} where
  -- Whatever the sockets and the application have done, as long as it is allowed, the network thread
  -- can run all its tasks, and then has none left; and by then each socket that was closed from
  -- neither side has been sent what `AsyncSend` was given for it, in that order.
  pub run_tasks-delivers :
      (client : Client C E) (tasks : List Task) (w : World C)
      → Reach client w
      → w.server.tasks ≡ tasks
      → (s : TcpServer C) × (out : List (Output E)) × (run_tasks (length tasks) w.server
          ≡ some (s, out))
        × (s.tasks ≡ [])
        × ((c : ℕ) → w.stopped c ≡ false → w.sent c ++ sent_on c out ≡ w.posted c)
  unfolding run_tasks
  run_tasks-delivers client [] w r e = (
    w.server,
    [],
    refl,
    e,
    λ c h. ap (λ t. w.sent c ++ queued c t) (sym e) ∙ (Reach-Served E client r c h).balanced,
  )
  run_tasks-delivers client (task ∷ tasks) w r e =
      let (s, out, first) = act-runs client w r in
      let ran : run_task {E = E} w.server.tasks w.server ≡ some (s, out) = unfold act in first in
      let left : s.tasks ≡ tasks =
        subst (Leaves E tasks) (ap (λ t. run_task {E = E} t w.server) (sym e) ∙ ran)
          (run_task-Leaves E task tasks w.server) in
      let (s', more, others, done, delivered) =
        run_tasks-delivers client tasks (next client w runs s out) (step runs r tt first) left in
      (
        s',
        out ++ more,
        rw (run_tasks, ran, others) refl,
        done,
        λ c h.
            rw
              (
                sent_on-append c out more,
                ← append_assoc (w.sent c) (sent_on c out) (sent_on c more),
              )
              (delivered c h),
      )
