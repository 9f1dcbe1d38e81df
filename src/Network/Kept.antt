-- ===== src/Network/Kept.antt =====
-- What holds of a server between two actions, and that the operations keep it.
use clibmedia_transfer_proto.Common.{
  ℕ, ◌≡◌, refl, sym, ap, subst, ◌∙◌, inl, inr, Bool, true, false, none, some, List, ◌∷◌, ◌==◌,
  ==_iff, Bool-cases, Option-cases, if◌then◌else◌, arith,
}
use clibmedia_transfer_proto.Network.{
  Connection, Task, close_socket, send_data, destroy_session, TcpServer, assign, connection_of,
  post, put, run_on, on_close,
}
use clibmedia_transfer_proto.Network.Queue.{
  after, after_all, AllThere, after_all_mono, AllThere-mono, AllThere-append, after_all-append,
  after_all-fresh, after_all-gone,
}

module _ {C : Type 0} where
  abbrev pub there : TcpServer C → ℕ → Bool
  there s c = elim (s.tcp_sessions c) [ none ↦ false | some k ↦ true ]

  -- The tasks have their connections; those of a connection whose socket has not ended are not behind
  -- its end; one whose socket has ended is not written to; and a socket that is new is unknown.
  pub record Inv (opened closed : ℕ → Bool) (s : TcpServer C) : Type 0 where
    pub in_time : AllThere (there s) s.tasks
    pub held : (c : ℕ) → closed c ≡ false → there s c ≡ true → after_all s.tasks (there s) c ≡ true
    pub shut :
        (c : ℕ) (k : Connection C)
        → s.tcp_sessions c ≡ some k
        → closed c ≡ true
        → k.available_write ≡ false
    pub fresh : (c : ℕ) → opened c ≡ false → (s.tcp_sessions c ≡ none) × (closed c ≡ false)

  -- A task that destroys nothing.
  post-Inv :
      (opened closed : ℕ → Bool) (s : TcpServer C) (task : Task)
      → ((p : ℕ → Bool) (c : ℕ) → after task p c ≡ p c)
      → after_all s.tasks (there s) (connection_of task) ≡ true
      → Inv opened closed s
      → Inv opened closed (post task s)
  unfolding post
  post-Inv opened closed s task keeps h i = record {
    in_time = AllThere-append (there s) s.tasks task i.in_time h;
    held = λ c e e'.
        after_all-append (there s) s.tasks task c
        ∙ keeps (after_all s.tasks (there s)) c
        ∙ i.held c e e';
    shut = i.shut;
    fresh = i.fresh;
  }

  put-there :
      (s : TcpServer C) (c d : ℕ) (k k' : Connection C)
      → s.tcp_sessions c ≡ some k
      → there (put c (some k') s) d ≡ there s d
  unfolding put
  put-there s c d k k' e = elim (Bool-cases (c == d)) [
    | inl h ↦
        let same : c ≡ d = (==_iff c d).0 h in
        let e' : s.tcp_sessions d ≡ some k = ap s.tcp_sessions (sym same) ∙ e in
        rw (there, put, h, e') refl
    | inr h ↦ rw (there, put, h) refl
  ]

  -- A connection that changes, but is not written to once its socket has ended.
  pub put-Inv :
      (opened closed : ℕ → Bool) (s : TcpServer C) (c : ℕ) (k k' : Connection C)
      → s.tcp_sessions c ≡ some k
      → (closed c ≡ true → k'.available_write ≡ false)
      → Inv opened closed s
      → Inv opened closed (put c (some k') s)
  unfolding put
  put-Inv opened closed s c k k' e shut' i =
      let same : (d : ℕ) → there (put c (some k') s) d ≡ there s d = λ d. put-there s c d k k' e in
      record {
        in_time = AllThere-mono (there s) _ s.tasks (λ d h. same d ∙ h) i.in_time;
        held = λ d h h'.
            after_all_mono (there s) _ s.tasks (λ a b. same a ∙ b) d
              (i.held d h (sym (same d) ∙ h'));
        shut = λ d j. ground (arith, i.shut d j);
        fresh = λ d h. ground (arith, i.fresh d h);
      }

  -- A connection that is destroyed as its task has it, or that was never there.
  erase-Inv :
      (opened closed : ℕ → Bool) (tasks : List Task) (s : TcpServer C) (c : ℕ)
      → closed c ≡ true
      → AllThere (assign (there s) c false) tasks
      → ((d : ℕ)
          → closed d ≡ false
          → there s d ≡ true
          → after_all tasks (assign (there s) c false) d ≡ true)
      → Inv opened closed s
      → Inv opened closed (put c none (record s { tasks = tasks }))
  unfolding put
  erase-Inv opened closed tasks s c ended a h i =
      let s' = put c none (record s { tasks = tasks }) in
      let same : (d : ℕ) → there s' d ≡ assign (there s) c false d = λ d. erased d in
      record {
        in_time = AllThere-mono _ _ tasks (λ d h. same d ∙ h) a;
        held = λ d e e'.
            after_all_mono _ _ tasks (λ a b. same a ∙ b) d (h d e (was d (sym (same d) ∙ e')));
        shut = λ d j. ground (arith, i.shut d j);
        fresh = λ d h. ground (arith, i.fresh d h);
      }
    where
      erased :
          (d : ℕ) → there (put c none (record s { tasks = tasks })) d ≡ assign (there s) c false d
      erased d = elim (Bool-cases (c == d)) [
        | inl h ↦ rw (there, put, h) refl
        | inr h ↦ rw (there, put, h) refl
      ]

      was : (d : ℕ) → assign (there s) c false d ≡ true → there s d ≡ true
      was d h = ground arith

  ended-Inv :
      (opened closed : ℕ → Bool) (s : TcpServer C) (c : ℕ) (k : Connection C)
      → closed c ≡ false
      → opened c ≡ true
      → s.tcp_sessions c ≡ some k
      → k.available_write ≡ false
      → Inv opened closed s
      → Inv opened (assign closed c true) (post (destroy_session c) s)
  unfolding post
  ended-Inv opened closed s c k e o e' unwritten i =
      let here : there s c ≡ true = rw (there, e') refl in
      record {
        in_time = AllThere-append (there s) s.tasks (destroy_session c) i.in_time (i.held c e here);
        held = λ d h h'.
            after_all-append (there s) s.tasks (destroy_session c) d ∙ ground (arith, i.held d);
        shut = λ d j q q'. ground (arith, i.shut d j);
        fresh = λ d h. ground (arith, i.fresh d h);
      }

  pub closes-Inv :
      (opened closed : ℕ → Bool) (s : TcpServer C) (c : ℕ)
      → closed c ≡ false
      → opened c ≡ true
      → Inv opened closed s
      → Inv opened (assign closed c true) (on_close c s)
  unfolding on_close
  closes-Inv opened closed s c e o i = elim (Option-cases (s.tcp_sessions c)) [
    | inl h ↦
        let same : on_close c s ≡ s = rw (on_close, h) refl in
        subst (Inv opened (assign closed c true)) (sym same) (record {
          in_time = i.in_time;
          held = λ d h h'. ground (arith, i.held d);
          shut = λ d j q q'. ground (arith, i.shut d j);
          fresh = λ d h. ground (arith, i.fresh d h);
        })
    | inr (k, h) ↦
        let k' : Connection C = record k { available_write = false } in
        let same : on_close c s ≡ post (destroy_session c) (put c (some k') s) =
          rw (on_close, h) refl in
        subst (Inv opened (assign closed c true)) (sym same) (
          ended-Inv opened closed (put c (some k') s) c k' e o (unfold put in ground arith) refl
            (put-Inv opened closed s c k k' h (λ q. refl) i))
  ]

  pub accepts-Inv :
      (opened closed : ℕ → Bool) (s : TcpServer C) (c : ℕ) (k : Connection C)
      → opened c ≡ false
      → Inv opened closed s
      → Inv (assign opened c true) closed (put c (some k) s)
  unfolding put
  accepts-Inv opened closed s c k e i =
      let (gone, unended) = i.fresh c e in
      let new : there s c ≡ false = rw (there, gone) refl in
      record {
        in_time = AllThere-mono (there s) _ s.tasks (more new) i.in_time;
        held = held' gone new;
        shut = λ d j q q'. ground (arith, i.shut d j);
        fresh = λ d h. let old : opened d ≡ false = ground arith in ground (arith, i.fresh d old);
      }
    where
      added : (d : ℕ) → there (put c (some k) s) d ≡ (if c == d then true else there s d)
      added d = elim (Bool-cases (c == d)) [
        | inl h ↦ rw (there, put, h) refl
        | inr h ↦ rw (there, put, h) refl
      ]

      more : there s c ≡ false → (d : ℕ) → there s d ≡ true → there (put c (some k) s) d ≡ true
      more new d h = added d ∙ ground arith

      held' :
          s.tcp_sessions c ≡ none
          → there s c ≡ false
          → (d : ℕ) → closed d ≡ false
          → there (put c (some k) s) d ≡ true
          → after_all s.tasks (there (put c (some k) s)) d ≡ true
      held' gone new d h h' = elim (Bool-cases (there s d)) [
        | inl old ↦ after_all_mono (there s) _ s.tasks (more new) d (i.held d h old)
        | inr not ↦ after_all-fresh (there s) _ s.tasks d i.in_time not h'
      ]

  pub run_on-Inv :
      (E : Type 0) (opened closed : ℕ → Bool) (s : TcpServer C) (task : Task) (tasks : List Task)
      (k : Connection C)
      → s.tcp_sessions (connection_of task) ≡ some k
      → Inv opened closed (record s { tasks = task ∷ tasks })
      → Inv opened closed (run_on {E = E} task k (record s { tasks = tasks })).0
  unfolding run_on
  run_on-Inv E opened closed s (close_socket c) tasks k e i =
      put-Inv opened closed (record s { tasks = tasks }) c k (record k { available_write = false })
        e (λ q. refl)
        (record { in_time = i.in_time.1; held = i.held; shut = i.shut; fresh = i.fresh })
  run_on-Inv E opened closed s (send_data c data') tasks k e i = record {
    in_time = i.in_time.1;
    held = i.held;
    shut = i.shut;
    fresh = i.fresh;
  }
  run_on-Inv E opened closed s (destroy_session c) tasks k e i =
      erase-Inv opened closed tasks (record s { tasks = destroy_session c ∷ tasks }) c
        (elim (Bool-cases (closed c)) [
          | inl h ↦ h
          | inr h ↦
              let here : there s c ≡ true = rw (there, e) refl in
              let kept = i.held c h here in
              let gone = after_all-gone (assign (there s) c false) tasks c (ground arith) in
              absurd (cc)
        ])
        i.in_time.1 i.held i

  pub posted-Inv :
      (opened closed : ℕ → Bool) (c : ℕ) (s : TcpServer C) (k : Connection C) (task : Task)
      → ((p : ℕ → Bool) (d : ℕ) → after task p d ≡ p d)
      → connection_of task ≡ c
      → s.tcp_sessions c ≡ some k
      → closed c ≡ false
      → Inv opened closed s
      → Inv opened closed (post task s)
  posted-Inv opened closed c s k task keeps same e open' i =
      let here : there s c ≡ true = rw (there, e) refl in
      post-Inv opened closed s task keeps
        (ap (after_all s.tasks (there s)) same ∙ i.held c open' here) i
