-- ===== src/Network/Served.antt =====
-- A socket that nobody has closed, and what keeps it served.
use clibmedia_transfer_proto.Common.{
  ℕ, ◌≡◌, refl, sym, ap, subst, ◌∙◌, inl, inr, Bool, true, false, ◌||◌, Option, some, List, [], ◌∷◌,
  ◌++◌, ◌==◌, ==_iff, Bool-cases, append-nil, append_assoc, arith,
}
use clibmedia_transfer_proto.ByteIo.{Bytes}
use clibmedia_transfer_proto.Network.{
  protocol_tcp, Connection, Task, close_socket, send_data, destroy_session, TcpServer, Call, assign,
  connection_of, put, run_send, run_on,
}
use clibmedia_transfer_proto.Network.Steps.{given, ends, sent_on}
use clibmedia_transfer_proto.Network.Posted.{
  queued, Lasts, queued-append, Lasts-append, tasks_of, queued-tasks_of, queued-others,
  Lasts-others, Lasts-tasks_of,
}

module _ {C : Type 0} where
  -- A socket that nobody has closed: it is written to, and what it was sent, and is to be, is what
  -- `AsyncSend` was given.
  pub record Served (c : ℕ) (s : TcpServer C) (posted sent : Bytes) : Type 0 where
    pub open_ :
        (k : Connection C)
        → s.tcp_sessions c ≡ some k
        → (k.available_write ≡ true) × (k.protocol_type ≡ protocol_tcp)
    pub lasts : Lasts c s.tasks
    pub balanced : sent ++ queued c s.tasks ≡ posted

  -- More tasks, of which those for the socket send what is posted with them.
  pub more-Served :
      (c : ℕ) (s : TcpServer C) (more : List Task) (posted sent extra : Bytes)
      → Lasts c more
      → queued c more ≡ extra
      → Served c s posted sent
      → Served c (record s { tasks = s.tasks ++ more }) (posted ++ extra) (sent ++ [])
  more-Served c s more posted sent extra h e v = record {
    open_ = v.open_;
    lasts = Lasts-append c s.tasks more v.lasts h;
    balanced =
        rw
          (
            append-nil sent,
            queued-append c s.tasks more,
            e,
            ← append_assoc sent (queued c s.tasks) extra,
            v.balanced,
          )
          refl;
  }

  -- Another connection changes.
  pub put-Served :
      (c d : ℕ) (o : Option (Connection C)) (s : TcpServer C) (posted sent : Bytes)
      → c == d ≡ false
      → Served d s posted sent
      → Served d (put c o s) posted sent
  unfolding put
  put-Served c d o s posted sent e v = record {
    open_ = λ k h. ground (arith, v.open_ k);
    lasts = v.lasts;
    balanced = v.balanced;
  }

  -- The connection itself changes, and is still written to.
  pub set-Served :
      (c d : ℕ) (k : Connection C) (s : TcpServer C) (posted sent : Bytes)
      → (c ≡ d → (k.available_write ≡ true) × (k.protocol_type ≡ protocol_tcp))
      → Served d s posted sent
      → Served d (put c (some k) s) posted sent
  unfolding put
  set-Served c d k s posted sent h v = elim (Bool-cases (c == d)) [
    | inr e ↦ put-Served c d (some k) s posted sent e v
    | inl e ↦ record {
      open_ = λ j q. ground (arith, h ((==_iff c d).0 e));
      lasts = v.lasts;
      balanced = v.balanced;
    }
  ]

module _ {C : Type 0} (E : Type 0) where
  same-Served :
      (c : ℕ) (list : List (Call E)) (s : TcpServer C) (k : Connection C) (posted sent : Bytes)
      → s.tcp_sessions c ≡ some k
      → ends list ≡ false
      → Served c s posted sent
      → Served c
          (record s { tasks = s.tasks ++ tasks_of k.available_write c list })
          (posted ++ given list)
          (sent ++ [])
  same-Served c list s k posted sent e h v =
      let w = (v.open_ k e).0 in
      more-Served c s (tasks_of k.available_write c list) posted sent (given list)
        (subst (λ b. Lasts c (tasks_of b c list)) (sym w) (Lasts-tasks_of c list h))
        (subst (λ b. queued c (tasks_of b c list) ≡ given list) (sym w) (queued-tasks_of c list)) v

  -- Calls on a connection that is there, with what they are noted as.
  pub calls-Served :
      (c d : ℕ) (list : List (Call E)) (s : TcpServer C) (k : Connection C) (posted : ℕ → Bytes)
      (stopped : ℕ → Bool) (sent : Bytes)
      → s.tcp_sessions c ≡ some k
      → assign stopped c (stopped c || ends list) d ≡ false
      → (stopped d ≡ false → Served d s (posted d) sent)
      → Served d
          (record s { tasks = s.tasks ++ tasks_of k.available_write c list })
          (assign posted c (posted c ++ given list) d)
          (sent ++ [])
  calls-Served c d list s k posted stopped sent e h v = elim (Bool-cases (c == d)) [
    | inr o ↦
        let s' : TcpServer C = record s { tasks = s.tasks ++ tasks_of k.available_write c list } in
        let unposted : posted d ++ [] ≡ assign posted c (posted c ++ given list) d =
          rw (assign, o, append-nil (posted d)) refl in
        subst (λ t. Served d s' t (sent ++ [])) unposted
          (more-Served d s (tasks_of k.available_write c list) (posted d) sent []
            (Lasts-others k.available_write c d list o) (queued-others k.available_write c d list o)
            (v (ground arith)))
    | inl o ↦
        let s' : TcpServer C = record s { tasks = s.tasks ++ tasks_of k.available_write c list } in
        let same : c ≡ d = (==_iff c d).0 o in
        let v' : stopped c ≡ false → Served c s (posted c) sent =
          subst (λ t. stopped t ≡ false → Served t s (posted t) sent) (sym same) v in
        let posted' : posted c ++ given list ≡ assign posted c (posted c ++ given list) d =
          rw (assign, o) refl in
        subst (λ t. Served d s' t (sent ++ [])) posted'
          (subst (λ t. Served t s' (posted c ++ given list) (sent ++ [])) same
            (same-Served c list s k (posted c) sent e (ground arith) (v' (ground arith))))
  ]

  run_send-other :
      (c d : ℕ) (data' : Bytes) (k : Connection C)
      → c == d ≡ false
      → sent_on {E = E} d (run_send c data' k) ≡ []
  unfolding run_send
  run_send-other c d [] k h = refl
  run_send-other c d (b ∷ bytes) k h = ground arith

  run_send-same :
      (c d : ℕ) (data' : Bytes) (k : Connection C)
      → c == d ≡ true
      → k.available_write ≡ true
      → k.protocol_type ≡ protocol_tcp
      → sent_on {E = E} d (run_send c data' k) ≡ data'
  unfolding run_send
  run_send-same c d [] k h w t = refl
  run_send-same c d (b ∷ bytes) k h w t = rw (run_send, w, t, h, append-nil (b ∷ bytes)) refl

  gone-Served :
      (c d : ℕ) (o : Option (Connection C)) (s : TcpServer C) (posted sent : Bytes)
      → c == d ≡ false
      → Served d s posted sent
      → Served d (put c o s) posted (sent ++ [])
  gone-Served c d o s posted sent h v =
      subst (Served d (put c o s) posted) (sym (append-nil sent))
        (put-Served c d o s posted sent h v)

  pub run_on-Served :
      (task : Task) (tasks : List Task) (k : Connection C) (s : TcpServer C) (d : ℕ)
      (posted sent : Bytes)
      → s.tcp_sessions (connection_of task) ≡ some k
      → Served d (record s { tasks = task ∷ tasks }) posted sent
      → let (s', out) = run_on {E = E} task k (record s { tasks = tasks }) in
        Served d s' posted (sent ++ sent_on d out)
  unfolding run_on
  run_on-Served (close_socket c) tasks k s d posted sent e v =
      gone-Served c d _ (record s { tasks = tasks }) posted sent v.lasts.0
        (record { open_ = v.open_; lasts = v.lasts.1; balanced = v.balanced })
  run_on-Served (destroy_session c) tasks k s d posted sent e v =
      gone-Served c d _ (record s { tasks = tasks }) posted sent v.lasts.0
        (record { open_ = v.open_; lasts = v.lasts.1; balanced = v.balanced })
  run_on-Served (send_data c data') tasks k s d posted sent e v = record {
    open_ = v.open_;
    lasts = v.lasts;
    balanced = elim (Bool-cases (c == d)) [
      | inr h ↦
          let balanced : sent ++ queued d tasks ≡ posted = rw h at v.balanced in
          rw (run_send-other c d data' k h, append-nil sent) balanced
      | inl h ↦
          let balanced : sent ++ (data' ++ queued d tasks) ≡ posted = rw h at v.balanced in
          let same : c ≡ d = (==_iff c d).0 h in
          let (w, t) = v.open_ k (ap s.tcp_sessions (sym same) ∙ e) in
          rw (run_send-same c d data' k h w t, append_assoc sent data' (queued d tasks)) balanced
    ];
  }
