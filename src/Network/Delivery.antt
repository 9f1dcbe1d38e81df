-- ===== src/Network/Delivery.antt =====
-- What `AsyncSend` was given reaches the sockets, in order.
use clibmedia_transfer_proto.Common.{
  ℕ, ◌≡◌, refl, sym, ap, subst, ◌∙◌, inl, inr, Bool, true, false, ◌||◌, Option, none, some, List,
  [], ◌∷◌, ◌++◌, ◌==◌, Option-cases, append-nil, arith,
}
use clibmedia_transfer_proto.ByteIo.{Bytes}
use clibmedia_transfer_proto.Network.{
  Acted, Connection, new_connection, Task, destroy_session, TcpServer, Call, Client, assign,
  connection_of, post, put, calls, run_task, on_accept, on_listener_close, on_close, on_write,
  with_context, on_read, recv_loop, Action, accepts, arrives, closes, writable, listener_closes,
  uses, runs, act,
}
use clibmedia_transfer_proto.Network.Steps.{
  World, Allowed, given, ends, calls_of, sent_on, noted, Reach, start, step,
}
use clibmedia_transfer_proto.Network.Safety.{Reach-Inv}
use clibmedia_transfer_proto.Network.Posted.{tasks_of, sent_on-handed, calls-tasks_of}
use clibmedia_transfer_proto.Network.Served.{
  Served, set-Served, put-Served, more-Served, calls-Served, run_on-Served,
}

module _ {C : Type 0} where
  abbrev AllServed : TcpServer C → (ℕ → Bytes) → (ℕ → Bool) → (ℕ → Bytes) → Type 0
  AllServed s posted stopped sent = (d : ℕ) → stopped d ≡ false → Served d s (posted d) (sent d)

module _ {C : Type 0} (E : Type 0) where
  abbrev Delivers : (ℕ → Bytes) → (ℕ → Bool) → (ℕ → Bytes) → Acted C E → Type 0
  Delivers posted stopped sent none = Unit
  Delivers posted stopped sent (some (s, out)) =
      (d : ℕ) → stopped d ≡ false → Served d s (posted d) (sent d ++ sent_on d out)

  silent :
      (s : TcpServer C) (posted : ℕ → Bytes) (stopped : ℕ → Bool) (sent : ℕ → Bytes)
      → AllServed s posted stopped sent
      → Delivers posted stopped sent (some (s, []))
  silent s posted stopped sent v d h =
      subst (Served d s (posted d)) (sym (append-nil (sent d))) (v d h)

  module _ (c : ℕ) (posted : ℕ → Bytes) (stopped : ℕ → Bool) (sent : ℕ → Bytes) where
    -- What is noted of calls on the connection.
    abbrev Noted : List (Call E) → Acted C E → Type 0
    Noted list =
        Delivers (assign posted c (posted c ++ given list))
          (assign stopped c (stopped c || ends list)) sent

    idle-Noted : (s : TcpServer C) → AllServed s posted stopped sent → Noted [] (some (s, []))
    idle-Noted s v d h =
        let same : posted d ≡ assign posted c (posted c ++ []) d =
          ground (arith, append-nil (posted c)) in
        subst (λ t. Served d s t (sent d ++ [])) same
          (silent s posted stopped sent v d (ground arith))

    calls-Noted :
        (list : List (Call E)) (s : TcpServer C) (k : Connection C)
        → s.tcp_sessions c ≡ some k
        → AllServed s posted stopped sent
        → Noted list (calls c list s)
    calls-Noted list s k e v = rw (calls-tasks_of c list s k k.available_write e refl) (λ d h.
        subst
          (λ t.
            Served d (record s { tasks = s.tasks ++ tasks_of k.available_write c list })
              (assign posted c (posted c ++ given list) d) (sent d ++ t))
          (sym (sent_on-handed c d list))
          (calls-Served E c d list s k posted stopped (sent d) e h (v d)))

    with_context-Noted :
        (work : C → Option (C × List (Call E))) (k : Connection C) (s : TcpServer C)
        → s.tcp_sessions c ≡ some k
        → AllServed s posted stopped sent
        → Noted (calls_of c work s) (with_context c work k s)
    unfolding with_context put
    with_context-Noted work k s e v = elim (Option-cases k.context) [
      | inl e' ↦ rw (with_context, calls_of, e, e') (idle-Noted s v)
      | inr (x, e') ↦ rw (with_context, calls_of, e, e') (worked (work x))
    ]
      where
        worked :
            (r : Option (C × List (Call E)))
            → Noted
                (elim r [ none ↦ [] | some (x', list) ↦ list ])
                (elim r [
                  | none ↦ none
                  | some (x', list) ↦ calls c list (put c (some (record k { context = some x' })) s)
                ])
        worked none = tt
        worked (some (x', list)) =
            let k' : Connection C = record k { context = some x' } in
            let here : (put c (some k') s).tcp_sessions c ≡ some k' = ground arith in
            calls-Noted list (put c (some k') s) k' here (λ d h.
              set-Served c d k' s (posted d) (sent d)
                (λ q. (v d h).open_ k (ap s.tcp_sessions (sym q) ∙ e)) (v d h))

  closes-Served :
      (c d : ℕ) (s : TcpServer C) (posted sent : Bytes)
      → c == d ≡ false
      → Served d s posted sent
      → Served d (on_close c s) posted (sent ++ [])
  unfolding on_close post
  closes-Served c d s posted sent h v = elim (Option-cases (s.tcp_sessions c)) [
    | inl e ↦ rw (on_close, e, append-nil sent) v
    | inr (k, e) ↦
        let s' : TcpServer C = put c (some (record k { available_write = false })) s in
        rw (on_close, e)
          (subst (λ t. Served d (post (destroy_session c) s') t (sent ++ [])) (append-nil posted)
            (more-Served d s' (destroy_session c ∷ []) posted sent [] (h, tt) refl
              (put-Served c d (some (record k { available_write = false })) s posted sent h v)))
  ]

  writes-Served :
      (c d : ℕ) (s : TcpServer C) (posted sent : Bytes)
      → Served d s posted sent
      → Served d (on_write c s) posted sent
  unfolding on_write
  writes-Served c d s posted sent v = elim (Option-cases (s.tcp_sessions c)) [
    | inl e ↦ rw (on_write, e) v
    | inr (k, e) ↦
        rw (on_write, e)
          (set-Served c d (record k { available_write = true }) s posted sent
            (λ q. (refl, (v.open_ k (ap s.tcp_sessions (sym q) ∙ e)).1)) v)
  ]

  accepts-Served :
      (client : Client C E) (c d : ℕ) (s : TcpServer C) (posted sent : Bytes)
      → s.tcp_sessions c ≡ none
      → Served d s posted sent
      → Served d (on_accept client (some c) s).0 posted sent
  unfolding on_accept new_connection
  accepts-Served client c d s posted sent e v =
      rw e (set-Served c d _ s posted sent (λ q. (refl, refl)) v)

  runs-Delivers :
      (tasks : List Task) (s : TcpServer C) (posted : ℕ → Bytes) (stopped : ℕ → Bool)
      (sent : ℕ → Bytes)
      → s.tasks ≡ tasks
      → AllServed s posted stopped sent
      → Delivers posted stopped sent (run_task tasks s)
  unfolding run_task
  runs-Delivers [] s posted stopped sent e v = silent s posted stopped sent v
  runs-Delivers (task ∷ tasks) s posted stopped sent e v =
      elim (Option-cases (s.tcp_sessions (connection_of task))) [
        | inl gone ↦ rw (run_task, gone) tt
        | inr (k, here) ↦
            rw (run_task, here)
              (λ d h.
                run_on-Served E task tasks k s d (posted d) (sent d) here
                  (subst (λ t. Served d (record s { tasks = t }) (posted d) (sent d)) e (v d h)))
      ]

  module _ (client : Client C E) where
    act-Delivers :
        (w : World C) (action : Action C E)
        → Reach client w
        → Allowed w action
        → AllServed w.server w.posted w.stopped w.sent
        → Delivers
            (noted client w action).posted
            (noted client w action).stopped
            w.sent
            (act client action w.server)
    unfolding act
    act-Delivers w (accepts none) r h v =
        unfold on_accept in silent w.server w.posted w.stopped w.sent v
    act-Delivers w (accepts (some c)) r h v =
        let e = ((Reach-Inv client r).fresh c h).0 in
        silent _ w.posted w.stopped w.sent
          (λ d h'. accepts-Served client c d w.server (w.posted d) (w.sent d) e (v d h'))
    act-Delivers w (arrives c received) r h v =
        let work = λ (x : C). client.on_recv x (recv_loop [] received) in
        elim (Option-cases (w.server.tcp_sessions c)) [
          | inl e ↦ rw (on_read, calls_of, e) (idle-Noted c w.posted w.stopped w.sent w.server v)
          | inr (k, e) ↦
              let list = with_context-Noted c w.posted w.stopped w.sent work k w.server e v in
              rw (on_read, e) list
        ]
    act-Delivers w (closes c) r h v = λ d h'.
        closes-Served c d w.server (w.posted d) (w.sent d) (ground arith) (v d (ground arith))
    act-Delivers w (writable c) r h v =
        silent _ w.posted w.stopped w.sent
          (λ d h'. writes-Served c d w.server (w.posted d) (w.sent d) (v d h'))
    act-Delivers w (listener_closes c) r h v =
        let e = ((Reach-Inv client r).fresh c h).0 in
        rw (on_listener_close, e) (silent w.server w.posted w.stopped w.sent v)
    act-Delivers w (uses c work) r h v = elim (Option-cases (w.server.tcp_sessions c)) [
      | inl e ↦ rw (act, e) tt
      | inr (k, e) ↦
          let list = with_context-Noted c w.posted w.stopped w.sent work k w.server e v in
          rw (act, e) list
    ]
    act-Delivers w runs r h v =
        runs-Delivers w.server.tasks w.server w.posted w.stopped w.sent refl v

    pub Reach-Served : {w : World C} → Reach client w → AllServed w.server w.posted w.stopped w.sent
    Reach-Served start = λ d h. record { open_ = λ k e. absurd (cc); lasts = tt; balanced = refl }
    Reach-Served (step {w} action r h e) =
        subst (Delivers (noted client w action).posted (noted client w action).stopped w.sent) e
          (act-Delivers w action r h (Reach-Served r))
