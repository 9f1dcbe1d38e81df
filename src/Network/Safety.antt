-- ===== src/Network/Safety.antt =====
-- No task that is run is one of a connection that is destroyed.
use clibmedia_transfer_proto.Common.{
  ℕ, ◌≡◌, refl, sym, subst, ◌∙◌, inl, inr, Bool, true, false, none, some, List, [], ◌∷◌,
  Option-cases,
}
use clibmedia_transfer_proto.ByteIo.{Bytes}
use clibmedia_transfer_proto.Network.{
  Task, TcpServer, Output, Client, connection_of, run_on, run_task, on_accept, on_listener_close,
  on_write, on_read, recv_loop, Action, accepts, arrives, closes, writable, listener_closes, uses,
  runs, act,
}
use clibmedia_transfer_proto.Network.Steps.{World, Allowed, noted, Reach, start, step}
use clibmedia_transfer_proto.Network.Kept.{there, Inv, put-Inv, closes-Inv, accepts-Inv, run_on-Inv}
use clibmedia_transfer_proto.Network.Calls.{Keeps, with_context-Keeps}

module _ {C E : Type 0} (client : Client C E) where
  read-Keeps :
      (opened closed : ℕ → Bool) (c : ℕ) (received : List Bytes) (s : TcpServer C)
      → closed c ≡ false
      → Inv opened closed s
      → Keeps opened closed (on_read client c received s)
  unfolding on_read
  read-Keeps opened closed c received s h i = elim (Option-cases (s.tcp_sessions c)) [
    | inl e ↦ rw (on_read, e) i
    | inr (k, e) ↦
        rw (on_read, e)
          (with_context-Keeps opened closed c (λ x. client.on_recv x (recv_loop [] received)) k s e
            (λ q. let impossible : true ≡ false = sym q ∙ h in absurd (cc)) i)
  ]

  writes-Inv :
      (opened closed : ℕ → Bool) (c : ℕ) (s : TcpServer C)
      → closed c ≡ false
      → Inv opened closed s
      → Inv opened closed (on_write c s)
  unfolding on_write
  writes-Inv opened closed c s h i = elim (Option-cases (s.tcp_sessions c)) [
    | inl e ↦ rw (on_write, e) i
    | inr (k, e) ↦
        rw (on_write, e)
          (put-Inv opened closed s c k (record k { available_write = true }) e
            (λ q. let impossible : true ≡ false = sym q ∙ h in absurd (cc)) i)
  ]

  -- In a server as it may be, the oldest task has its connection.
  runs-Inv :
      (opened closed : ℕ → Bool) (tasks : List Task) (s : TcpServer C)
      → s.tasks ≡ tasks
      → Inv opened closed s
      → (s' : TcpServer C) × (out : List (Output E)) × (run_task tasks s ≡ some (s', out))
        × Inv opened closed s'
  unfolding run_task
  runs-Inv opened closed [] s e i = (s, [], refl, i)
  runs-Inv opened closed (task ∷ tasks) s e i =
      let i' = subst (λ t. Inv opened closed (record s { tasks = t })) e i in
      elim (Option-cases (s.tcp_sessions (connection_of task))) [
        | inl gone ↦
            let missing : there s (connection_of task) ≡ false = rw (there, gone) refl in
            let here = i'.in_time.0 in absurd (cc)
        | inr (k, here) ↦
            let (s', out) = run_on task k (record s { tasks = tasks }) in
            (s', out, rw (run_task, here) refl, run_on-Inv E opened closed s task tasks k here i')
      ]

  act-Keeps :
      (w : World C) (action : Action C E)
      → Allowed w action
      → Inv w.opened w.closed w.server
      → Keeps
          (noted client w action).opened
          (noted client w action).closed
          (act client action w.server)
  unfolding act
  act-Keeps w (accepts none) h i = unfold on_accept in i
  act-Keeps w (accepts (some c)) h i =
      unfold on_accept in accepts-Inv w.opened w.closed w.server c _ h i
  act-Keeps w (arrives c received) h i = read-Keeps w.opened w.closed c received w.server h i
  act-Keeps w (closes c) (h, h') i = closes-Inv w.opened w.closed w.server c h' h i
  act-Keeps w (writable c) h i = writes-Inv w.opened w.closed c w.server h i
  act-Keeps w (listener_closes c) h i = let e = (i.fresh c h).0 in rw (on_listener_close, e) i
  act-Keeps w (uses c work) h i = elim (Option-cases (w.server.tcp_sessions c)) [
    | inl e ↦ rw (act, e) tt
    | inr (k, e) ↦ rw (act, e) (with_context-Keeps w.opened w.closed c work k w.server e h i)
  ]
  act-Keeps w runs h i =
      let (s, out, e, i') = runs-Inv w.opened w.closed w.server.tasks w.server refl i in
      subst (Keeps w.opened w.closed) (sym e) i'

  pub Reach-Inv : {w : World C} → Reach client w → Inv w.opened w.closed w.server
  Reach-Inv start = record {
    in_time = tt;
    held = λ c h h'. absurd (cc);
    shut = λ c k e. absurd (cc);
    fresh = λ c h. (refl, refl);
  }
  Reach-Inv (step {w} action r h e) =
      subst (Keeps (noted client w action).opened (noted client w action).closed) e
        (act-Keeps w action h (Reach-Inv r))

  -- Whatever the sockets and the application have done, as long as it is allowed, the network thread
  -- can run its oldest task: the connection of the task is not destroyed.
  pub act-runs :
      (w : World C)
      → Reach client w
      → (s : TcpServer C) × (out : List (Output E)) × (act client runs w.server ≡ some (s, out))
  unfolding act
  act-runs w r =
      let (s, out, e, i) = runs-Inv w.opened w.closed w.server.tasks w.server refl (Reach-Inv r) in
      (s, out, e)
