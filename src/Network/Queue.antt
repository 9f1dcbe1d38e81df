-- ===== src/Network/Queue.antt =====
-- Tasks whose connections are all there when their turn comes.
use clibmedia_transfer_proto.Common.{
  ℕ, ◌≡◌, refl, sym, ap, ◌∙◌, inl, inr, Bool, true, false, List, [], ◌∷◌, ◌++◌, ◌==◌, ==_iff,
  Bool-cases, arith,
}
use clibmedia_transfer_proto.Network.{
  Task, close_socket, send_data, destroy_session, connection_of, assign,
}

-- The connections that are there once a task is run.
abbrev pub after : Task → (ℕ → Bool) → ℕ → Bool
after (destroy_session c) there = assign there c false
after (close_socket c) there = there
after (send_data c data') there = there

abbrev pub after_all : List Task → (ℕ → Bool) → ℕ → Bool
after_all [] there = there
after_all (task ∷ tasks) there = after_all tasks (after task there)

-- Each task has its connection when it is run.
abbrev pub AllThere : (ℕ → Bool) → List Task → Type 0
AllThere there [] = Unit
AllThere there (task ∷ tasks) =
    (there (connection_of task) ≡ true) × AllThere (after task there) tasks

module _ (p q : ℕ → Bool) (more : (c : ℕ) → p c ≡ true → q c ≡ true) where
  after_mono : (task : Task) (c : ℕ) → after task p c ≡ true → after task q c ≡ true
  after_mono (destroy_session d) c h = ground (arith, more c)
  after_mono (close_socket d) c h = more c h
  after_mono (send_data d data') c h = more c h

pub after_all_mono :
    (p q : ℕ → Bool) (tasks : List Task)
    → ((c : ℕ) → p c ≡ true → q c ≡ true)
    → (c : ℕ) → after_all tasks p c ≡ true
    → after_all tasks q c ≡ true
after_all_mono p q [] more c h = more c h
after_all_mono p q (task ∷ tasks) more c h =
    after_all_mono (after task p) (after task q) tasks (after_mono p q more task) c h

pub AllThere-mono :
    (p q : ℕ → Bool) (tasks : List Task)
    → ((c : ℕ) → p c ≡ true → q c ≡ true)
    → AllThere p tasks
    → AllThere q tasks
AllThere-mono p q [] more a = tt
AllThere-mono p q (task ∷ tasks) more (h, a) = (
  more (connection_of task) h,
  AllThere-mono (after task p) (after task q) tasks (after_mono p q more task) a,
)

pub AllThere-append :
    (p : ℕ → Bool) (tasks : List Task) (task : Task)
    → AllThere p tasks
    → after_all tasks p (connection_of task) ≡ true
    → AllThere p (tasks ++ (task ∷ []))
AllThere-append p [] task a h = (h, tt)
AllThere-append p (t ∷ tasks) task (h', a) h = (h', AllThere-append (after t p) tasks task a h)

pub after_all-append :
    (p : ℕ → Bool) (tasks : List Task) (task : Task) (c : ℕ)
    → after_all (tasks ++ (task ∷ [])) p c ≡ after task (after_all tasks p) c
after_all-append p [] task c = refl
after_all-append p (t ∷ tasks) task c = after_all-append (after t p) tasks task c

after-other :
    (task : Task) (p : ℕ → Bool) (c : ℕ)
    → p (connection_of task) ≡ true
    → p c ≡ false
    → (q : ℕ → Bool) → (after task q c ≡ q c) × (after task p c ≡ p c)
after-other (destroy_session d) p c h f q = elim (Bool-cases (d == c)) [
  | inl e ↦
      let same : d ≡ c = (==_iff d c).0 e in
      let impossible : true ≡ false = sym h ∙ ap p same ∙ f in absurd (cc)
  | inr e ↦ (rw e refl, rw e refl)
]
after-other (close_socket d) p c h f q = (refl, refl)
after-other (send_data d data') p c h f q = (refl, refl)

-- A connection that is not there yet has no task.
pub after_all-fresh :
    (p q : ℕ → Bool) (tasks : List Task) (c : ℕ)
    → AllThere p tasks
    → p c ≡ false
    → q c ≡ true
    → after_all tasks q c ≡ true
after_all-fresh p q [] c a f h = h
after_all-fresh p q (task ∷ tasks) c (here, a) f h =
    let (e, e') = after-other task p c here f q in
    after_all-fresh (after task p) (after task q) tasks c a (e' ∙ f) (e ∙ h)

-- One that is gone does not come back.
pub after_all-gone :
    (p : ℕ → Bool) (tasks : List Task) (c : ℕ) → p c ≡ false → after_all tasks p c ≡ false
after_all-gone p [] c h = h
after_all-gone p (task ∷ tasks) c h = after_all-gone (after task p) tasks c (gone task)
  where
    gone : (task : Task) → after task p c ≡ false
    gone (destroy_session d) = ground arith
    gone (close_socket d) = h
    gone (send_data d data') = h
