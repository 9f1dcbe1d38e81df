-- ===== src/Rtsp/Setups.antt =====
-- The requests for the tracks, and then for their packets.
use clibmedia_transfer_proto.Common.{
  ℕ, zero, suc, ◌+◌, ◌-◌, ◌≤◌, ◌≡◌, refl, ap, ap₂, subst, ◌∙◌, min, inl, inr, Bool-cases, none,
  some, List, [], ◌∷◌, ◌++◌, map, ltb, ltb→lt, ltb→le, All, length, length-append, length-replicate,
  replicate, arith,
}
use mathlib.Core.List.{map-append}
use clibmedia_transfer_proto.ByteIo.{Bytes}
use clibmedia_transfer_proto.Http.Text.{text}
use clibmedia_transfer_proto.Rtsp.Requests.{
  Dialogue, build_authorization, is_empty, send_setup, send_play, setup_line, play_line,
}
use clibmedia_transfer_proto.Rtsp.Answers.{Answered, handler_session}

abbrev pub first_line : List Bytes → Bytes
first_line [] = []
first_line (line ∷ lines) = line

module _ (split : ℕ → Bytes → List Bytes) where
  -- An answer whose third line has a value with a session id.
  pub record IsSessionAnswer (data' : List Bytes) : Type 0 where
    pub status : Bytes
    pub cseq : Bytes
    pub session : Bytes
    pub others : List Bytes
    pub lines : data' ≡ status ∷ cseq ∷ session ∷ others
    pub name : Bytes
    pub value : Bytes
    pub more : List Bytes
    pub header : split b':' session ≡ name ∷ value ∷ more
    pub id : Bytes
    pub options : List Bytes
    pub ids : split b';' value ≡ id ∷ options

-- The outcome of an answer: the first line of what is sent, if anything is, and what is left.
abbrev Asks : Dialogue → List Bytes → List Bytes → Answered → Type 0
Asks s lines tracks r =
    (s' : Dialogue) × (sent : List (List Bytes)) × (r ≡ some (s', sent))
    × (map first_line sent ≡ lines)
    × (s'.track_control ≡ tracks)
    × (s'.cseq ≡ length lines + s.cseq)
    × (s'.stream_url ≡ s.stream_url)

module _ (md5 : Bytes → Bytes) where
  authorization-same :
      (method : Bytes) (s : Dialogue)
      → let s' = (build_authorization md5 method s).0 in
        (s'.cseq ≡ s.cseq) × (s'.track_control ≡ s.track_control) × (s'.stream_url ≡ s.stream_url)
  unfolding build_authorization
  authorization-same method s = elim (Bool-cases (is_empty s.realm)) [
    | inl e ↦ rw (build_authorization, e) (refl, refl, refl)
    | inr e ↦ rw (build_authorization, e) (refl, refl, refl)
  ]

  pub send_setup-Asks :
      (s : Dialogue) (track : Bytes) (tracks : List Bytes)
      → s.track_control ≡ track ∷ tracks
      → Asks s (setup_line track ∷ []) tracks (some (send_setup md5 s))
  unfolding send_setup
  send_setup-Asks s track tracks e =
      let s1 : Dialogue = record s { cseq = suc s.cseq; track_control = tracks } in
      let (c, t, u) = authorization-same (text "SETUP") s1 in
      rw (send_setup, e) (_, _, refl, refl, t, omega (arith, c), u)

module _ (split : ℕ → Bytes → List Bytes) (md5 : Bytes → Bytes) where
  -- One answer after the other.
  unfoldable pub handle_sessions : List (List Bytes) → Dialogue → Answered
  handle_sessions [] s = some (s, [])
  handle_sessions (data' ∷ answers) s = elim (handler_session split md5 data' s) [
    | none ↦ none
    | some (s', sent) ↦ elim (handle_sessions answers s') [
      | none ↦ none
      | some (s'', more) ↦ some (s'', sent ++ more)
    ]
  ]

  handler_session-setup :
      (data' : List Bytes) (s : Dialogue) (track : Bytes) (tracks : List Bytes)
      → IsSessionAnswer split data'
      → s.track_control ≡ track ∷ tracks
      → Asks s (setup_line track ∷ []) tracks (handler_session split md5 data' s)
  unfolding handler_session
  handler_session-setup data' s track tracks a e =
      rw (handler_session, a.lines, a.header, a.ids, e)
        (send_setup-Asks md5 (record s { session_id = a.id }) track tracks e)

  handler_session-play :
      (data' : List Bytes) (s : Dialogue)
      → IsSessionAnswer split data'
      → s.track_control ≡ []
      → Asks s
          (replicate (min 1 (7 - s.cseq)) (play_line s.stream_url))
          []
          (handler_session split md5 data' s)
  unfolding handler_session send_play
  handler_session-play data' s a e =
      let s1 : Dialogue = record s { session_id = a.id; cseq = suc s.cseq } in
      let (c, t, u) = authorization-same md5 (text "PLAY") s1 in
      elim (Bool-cases (ltb s.cseq 7)) [
        | inl h ↦
            let n : min 1 (7 - s.cseq) ≡ 1 = omega (arith, ltb→lt s.cseq 7 h) in
            rw (handler_session, a.lines, a.header, a.ids, e, h, n)
              (_, _, refl, refl, t ∙ e, omega (arith, c), u)
        | inr h ↦
            let n : min 1 (7 - s.cseq) ≡ 0 = omega (arith, ltb→le s.cseq 7 h) in
            rw (handler_session, a.lines, a.header, a.ids, e, h, n)
              (_, _, refl, refl, e, omega arith, refl)
      ]

  Asks-cons :
      (data' : List Bytes) (answers : List (List Bytes)) (s : Dialogue) (lines lines' : List Bytes)
      (tracks tracks' : List Bytes)
      → Asks s lines tracks (handler_session split md5 data' s)
      → ((s' : Dialogue)
          → s'.track_control ≡ tracks
          → s'.cseq ≡ length lines + s.cseq
          → s'.stream_url ≡ s.stream_url
          → Asks s' lines' tracks' (handle_sessions answers s'))
      → Asks s (lines ++ lines') tracks' (handle_sessions (data' ∷ answers) s)
  unfolding handle_sessions
  Asks-cons data' answers s lines lines' tracks tracks' (s', sent, e, l, t, c, u) others =
      let (s'', more, e', l', t', c', u') = others s' t c u in
      (
        s'',
        sent ++ more,
        rw (handle_sessions, e, e') refl,
        map-append first_line sent more ∙ ap₂ ◌++◌ l l',
        t',
        omega (arith, c, c', length-append lines lines'),
        u' ∙ u,
      )

  replicate-append : (m n : ℕ) (x : Bytes) → replicate m x ++ replicate n x ≡ replicate (m + n) x
  replicate-append zero n x = let e : 0 + n ≡ n = omega arith in rw e refl
  replicate-append (suc m) n x =
      let e : suc m + n ≡ suc (m + n) = omega arith in rw e (ap (◌∷◌ x) (replicate-append m n x))

  handle_sessions-play :
      (answers : List (List Bytes)) (s : Dialogue)
      → All (IsSessionAnswer split) answers
      → s.track_control ≡ []
      → Asks s
          (replicate (min (length answers) (7 - s.cseq)) (play_line s.stream_url))
          []
          (handle_sessions answers s)
  unfolding handle_sessions
  handle_sessions-play [] s a e =
      let n : min (length {A = List Bytes} []) (7 - s.cseq) ≡ 0 = omega arith in
      rw n (s, [], refl, refl, e, omega arith, refl)
  handle_sessions-play (data' ∷ answers) s (a, others) e =
      let x = play_line s.stream_url in
      let now = min 1 (7 - s.cseq) in
      let later = min (length answers) (7 - (now + s.cseq)) in
      let n : now + later ≡ min (length (data' ∷ answers)) (7 - s.cseq) = omega arith in
      let lines : replicate now x ++ replicate later x
          ≡ replicate (min (length (data' ∷ answers)) (7 - s.cseq)) x =
        replicate-append now later x ∙ ap (λ k. replicate k x) n in
      subst (λ t. Asks s t [] (handle_sessions (data' ∷ answers) s)) lines
        (Asks-cons data' answers s (replicate now x) (replicate later x) [] []
          (handler_session-play data' s a e)
          (λ s' t c u.
            let n' : min (length answers) (7 - s'.cseq) ≡ later =
              omega (arith, c, length-replicate now x) in
            subst (λ y. Asks s' y [] (handle_sessions answers s'))
              (ap₂ replicate n' (ap play_line u)) (handle_sessions-play answers s' others t)))

  -- To answers that hold a session id, the session asks for each track that is left, in order, and
  -- then for their packets, once an answer, as long as its CSeq is below 7; its CSeq counts them.
  pub handle_sessions-Asks :
      (tracks : List Bytes) (answers : List (List Bytes)) (s : Dialogue)
      → All (IsSessionAnswer split) answers
      → s.track_control ≡ tracks
      → length tracks ≤ length answers
      → let plays = min (length answers - length tracks) (7 - (length tracks + s.cseq)) in
        Asks s
          (map setup_line tracks ++ replicate plays (play_line s.stream_url))
          []
          (handle_sessions answers s)
  handle_sessions-Asks [] answers s a e h =
      let n : min (length answers) (7 - s.cseq)
          ≡ min (length answers - length {A = Bytes} []) (7 - (length {A = Bytes} [] + s.cseq)) =
        omega arith in
      subst (λ y. Asks s y [] (handle_sessions answers s))
        (ap (λ k. replicate k (play_line s.stream_url)) n) (handle_sessions-play answers s a e)
  handle_sessions-Asks (track ∷ tracks) [] s a e h = absurd (omega arith)
  handle_sessions-Asks (track ∷ tracks) (data' ∷ answers) s (a, others) e h =
      let plays =
        min (length (data' ∷ answers) - length (track ∷ tracks))
          (7 - (length (track ∷ tracks) + s.cseq)) in
      Asks-cons data' answers s (setup_line track ∷ [])
        (map setup_line tracks ++ replicate plays (play_line s.stream_url)) tracks []
        (handler_session-setup data' s track tracks a e)
        (λ s' t c u.
          let n : min (length answers - length tracks) (7 - (length tracks + s'.cseq)) ≡ plays =
            omega (arith, c) in
          subst (λ y. Asks s' (map setup_line tracks ++ y) [] (handle_sessions answers s'))
            (ap₂ replicate n (ap play_line u))
            (handle_sessions-Asks tracks answers s' others t (omega arith)))
