-- ===== src/Http/Server/Answers.antt =====
-- An answer of the application, from `PostRequest` to the socket.
use clibmedia_transfer_proto.Common.{
  ℕ, ◌≡◌, refl, sym, ap, ◌∙◌, Bool, true, false, some, List, [], ◌∷◌, ◌++◌, ◌==◌, inl, inr,
  Bool-cases, ==_iff, append-nil, length,
}
use clibmedia_transfer_proto.ByteIo.{Bytes}
use clibmedia_transfer_proto.Http.Context.{
  HttpContext, Event, post_init, post_http, post_request, is_init,
}
use clibmedia_transfer_proto.Network.{
  Connection, TcpServer, Call, async_send, Output, assign, uses, act, with_context, put,
}
use clibmedia_transfer_proto.Network.Steps.{
  World, MayKeepOpen, given, sent_on, calls_of, next, Reach, step,
}
use clibmedia_transfer_proto.Network.Posted.{tasks_of, calls-tasks_of}
use clibmedia_transfer_proto.Network.Drained.{run_tasks, run_tasks-delivers}
use clibmedia_transfer_proto.Http.Server.{http_server, answer, to_calls}

answer-idle :
    (data' : Bytes) (ctx : HttpContext)
    → ctx.post_state ≡ post_init
    → answer data' ctx
      ≡ some (record ctx { header = data'; post_state = post_http }, async_send data' ∷ [])
unfolding answer to_calls post_request
answer-idle data' ctx e = rw e refl

answer-MayKeepOpen : (data' : Bytes) (ctx : HttpContext) → MayKeepOpen (answer data' ctx)
unfolding answer to_calls post_request
answer-MayKeepOpen data' ctx = elim (Bool-cases (is_init ctx.post_state)) [
  | inl e ↦ rw (answer, post_request, e) tt
  | inr e ↦ rw (answer, post_request, e) tt
]

-- A connection that was closed from neither side, whose context waits for nothing: once the network
-- thread has run its tasks, its socket has been sent all that `AsyncSend` was given for it before, and
-- then the answer.
pub run_tasks-answer :
    (memory : ℕ → Bool) (split : ℕ → Bytes → List Bytes) (fuel : ℕ) (w : World HttpContext) (c : ℕ)
    (k : Connection HttpContext) (ctx : HttpContext) (data' : Bytes)
    → let client = http_server memory split fuel in
      Reach client w
      → w.stopped c ≡ false
      → w.server.tcp_sessions c ≡ some k
      → k.context ≡ some ctx
      → ctx.post_state ≡ post_init
      → (s s' : TcpServer HttpContext) × (more : List (Output Event)) × (act client
            (uses c (answer data'))
            w.server
          ≡ some (s, []))
        × (run_tasks (length s.tasks) s ≡ some (s', more))
        × (w.sent c ++ sent_on c more ≡ w.posted c ++ data')
unfolding act with_context put
run_tasks-answer memory split fuel w c k ctx data' r open_ here context idle =
    let client = http_server memory split fuel in
    let ctx' : HttpContext = record ctx { header = data'; post_state = post_http } in
    let k' : Connection HttpContext = record k { context = some ctx' } in
    let list : List (Call Event) = async_send data' ∷ [] in
    let s0 : TcpServer HttpContext = put c (some k') w.server in
    let s : TcpServer HttpContext = record s0 {
      tasks = w.server.tasks ++ tasks_of k.available_write c list;
    } in
    let same : c == c ≡ true = (==_iff c c).1 refl in
    let there : s0.tcp_sessions c ≡ some k' = rw (put, same) refl in
    let acted : act client (uses c (answer data')) w.server ≡ some (s, []) =
      rw
        (
          act,
          here,
          with_context,
          context,
          answer-idle data' ctx idle,
          calls-tasks_of c list s0 k' k.available_write there refl,
        )
        refl in
    let listed : calls_of c (answer data') w.server ≡ list =
      rw (calls_of, here, context, answer-idle data' ctx idle) refl in
    let (s', more, ran, _, delivered) =
      run_tasks-delivers client s.tasks (next client w (uses c (answer data')) s [])
        (step (uses c (answer data')) r (λ _ x. answer-MayKeepOpen data' x) acted) refl in
    let served = delivered c (rw (same, listed, open_) refl) in
    let posted' : assign w.posted c (w.posted c ++ given (calls_of c (answer data') w.server)) c
        ≡ w.posted c ++ data' =
      rw (assign, same, listed, append-nil data') refl in
    (
      s,
      s',
      more,
      acted,
      ran,
      ap (λ t. t ++ sent_on c more) (sym (append-nil (w.sent c))) ∙ served ∙ posted',
    )
