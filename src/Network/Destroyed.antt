-- ===== src/Network/Destroyed.antt =====
-- What is not allowed: a call of `Close`, or a second end of the socket, behind its first end.
use clibmedia_transfer_proto.Common.{
  ℕ, ◌≡◌, refl, ap, ◌∙◌, true, false, none, some, [], ◌∷◌, ◌++◌, ◌==◌, ==_iff,
}
use clibmedia_transfer_proto.Network.{
  Connection, Task, connection_of, close_socket, destroy_session, TcpServer, close, post, put, call,
  run_on, run_task, on_close,
}
use clibmedia_transfer_proto.Network.Drained.{run_tasks}

module _ {C : Type 0} (E : Type 0) where
  behind-destroy :
      (c : ℕ) (task : Task) (k : Connection C) (s : TcpServer C)
      → s.tcp_sessions c ≡ some k
      → s.tasks ≡ destroy_session c ∷ task ∷ []
      → connection_of task ≡ c
      → run_tasks {E = E} 2 s ≡ none
  unfolding run_tasks run_task run_on put
  behind-destroy c task k s e e' same =
      let here : c == c ≡ true = (==_iff c c).1 refl in
      rw (run_tasks, e', run_task, e, same, here) refl

  -- Once a socket has signalled its end to a connection that nothing waits for, the application's
  -- `Close` posts a task that is run on the destroyed connection, and so does a second end.
  pub run_tasks-destroyed :
      (c : ℕ) (k : Connection C) (s : TcpServer C)
      → s.tcp_sessions c ≡ some k
      → s.tasks ≡ []
      → ((s' : TcpServer C) × (call {E = E} c close (on_close c s) ≡ some (s', []))
          × (run_tasks {E = E} 2 s' ≡ none))
        × (run_tasks {E = E} 2 (on_close c (on_close c s)) ≡ none)
  unfolding call on_close post put
  run_tasks-destroyed c k s e e' =
      let here : c == c ≡ true = (==_iff c c).1 refl in
      let k' : Connection C = record k { available_write = false } in
      let ended : on_close c s ≡ post (destroy_session c) (put c (some k') s) =
        rw (on_close, e) refl in
      let found : (on_close c s).tcp_sessions c ≡ some k' = rw (ended, here) refl in
      let waits : (on_close c s).tasks ≡ destroy_session c ∷ [] = rw (ended, e') refl in
      let again : on_close c (on_close c s)
          ≡ post (destroy_session c) (put c (some k') (on_close c s)) =
        rw (on_close, found) refl in
      (
        (
          post (close_socket c) (on_close c s),
          rw (call, found) refl,
          behind-destroy c (close_socket c) k' (post (close_socket c) (on_close c s)) found
              (ap (λ t. t ++ (close_socket c ∷ [])) waits) refl,
        ),
        behind-destroy c (destroy_session c) k' (on_close c (on_close c s)) (rw (again, here) refl)
            (ap TcpServer.tasks again ∙ ap (λ t. t ++ (destroy_session c ∷ [])) waits) refl,
      )
