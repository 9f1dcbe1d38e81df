-- ===== src/Examples/Connections.antt =====
-- Connections of an HTTP server at work.
use clibmedia_transfer_proto.Common.{
  ℕ, ◌≡◌, refl, true, false, none, some, List, [], ◌∷◌, ◌++◌, length,
}
use clibmedia_transfer_proto.Http.Text.{text}
use clibmedia_transfer_proto.Http.Context.{HttpContext, Event, post_http, post_request, is_init}
use clibmedia_transfer_proto.Http.Server.{http_server, answer, new_context, to_calls}
use clibmedia_transfer_proto.Http.Server.Answers.{run_tasks-answer}
use clibmedia_transfer_proto.Network.{
  Connection, protocol_tcp, new_connection, TcpServer, send_data, destroy_session, close, Output,
  on_new_connection, Client, assign, accepts, uses, closes, runs, act, on_accept, with_context, put,
  calls, call, post, on_close, run_task, run_on, run_send,
}
use clibmedia_transfer_proto.Network.Steps.{World, new_world, sent_on, next, Reach, start, step}
use clibmedia_transfer_proto.Network.Safety.{act-runs}
use clibmedia_transfer_proto.Network.Drained.{run_tasks, run_tasks-delivers}
use clibmedia_transfer_proto.Network.Destroyed.{run_tasks-destroyed}

abbrev server : Client HttpContext Event
server = http_server (λ c. false) (λ b d. d ∷ []) 10

abbrev accepted : Connection HttpContext
accepted = record {
  protocol_type = protocol_tcp;
  available_write = true;
  context = some (new_context false);
}

abbrev listening : TcpServer HttpContext
listening = record { tcp_sessions = λ c. none; tasks = [] }

abbrev serving : TcpServer HttpContext
serving = record { tcp_sessions = assign (λ c. none) 5 (some accepted); tasks = [] }

-- A connection is accepted,
abbrev accepting : World HttpContext
accepting = next server new_world (accepts (some 5)) serving (on_new_connection 5 ∷ [])

accepting-Reach : Reach server accepting
unfolding act on_accept put new_connection
accepting-Reach = step (accepts (some 5)) start refl refl

-- and its end is signalled while an answer waits to be sent.
abbrev ended : TcpServer HttpContext
ended = record {
  tcp_sessions =
      assign
        (assign serving.tcp_sessions 5 (
          some (record accepted {
            context =
                some (record (new_context false) { header = text "r"; post_state = post_http });
          })))
        5
        (some (record accepted {
          available_write = false;
          context = some (record (new_context false) { header = text "r"; post_state = post_http });
        }));
  tasks = send_data 5 (text "r") ∷ destroy_session 5 ∷ [];
}

abbrev answered : TcpServer HttpContext
answered = record {
  tcp_sessions = assign serving.tcp_sessions 5 (
      some (record accepted {
        context = some (record (new_context false) { header = text "r"; post_state = post_http });
      }));
  tasks = send_data 5 (text "r") ∷ [];
}

abbrev answering : World HttpContext
answering = next server accepting (uses 5 (answer (text "r"))) answered []

answering-Reach : Reach server answering
unfolding act with_context put calls call post answer post_request to_calls is_init new_context
answering-Reach = step (uses 5 (answer (text "r"))) accepting-Reach (λ e. absurd (cc)) refl

abbrev ending : World HttpContext
ending = next server answering (closes 5) ended []

ending-Reach : Reach server ending
unfolding act on_close put post
ending-Reach = step (closes 5) answering-Reach (refl, refl) refl

act-runs_example :
    (s : TcpServer HttpContext) × (out : List (Output Event)) × (act server runs ended
      ≡ some (s, out))
act-runs_example = act-runs server ending ending-Reach

run_tasks-delivers_example :
    (s : TcpServer HttpContext) × (out : List (Output Event)) × (run_tasks 1 answered
      ≡ some (s, out))
    × (s.tasks ≡ [])
    × ((c : ℕ)
        → answering.stopped c ≡ false
        → answering.sent c ++ sent_on c out ≡ answering.posted c)
run_tasks-delivers_example =
    run_tasks-delivers server (send_data 5 (text "r") ∷ []) answering answering-Reach refl

run_tasks-destroyed_example :
    ((s' : TcpServer HttpContext) × (call {E = Event} 5 close (on_close 5 serving) ≡ some (s', []))
      × (run_tasks {E = Event} 2 s' ≡ none))
    × (run_tasks {E = Event} 2 (on_close 5 (on_close 5 serving)) ≡ none)
run_tasks-destroyed_example = run_tasks-destroyed Event 5 accepted serving refl refl

run_tasks-answer_example :
    (s s' : TcpServer HttpContext) × (more : List (Output Event)) × (act server
        (uses 5 (answer (text "r")))
        serving
      ≡ some (s, []))
    × (run_tasks (length s.tasks) s ≡ some (s', more))
    × (accepting.sent 5 ++ sent_on 5 more ≡ accepting.posted 5 ++ text "r")
unfolding new_context
run_tasks-answer_example =
    run_tasks-answer (λ c. false) (λ b d. d ∷ []) 10 accepting 5 accepted (new_context false)
      (text "r") accepting-Reach refl refl refl refl

-- The answer is not written to a socket that has ended.
ended_first :
    run_task {E = Event} ended.tasks ended
    ≡ some (record ended { tasks = destroy_session 5 ∷ [] }, [])
unfolding run_task run_on run_send
ended_first = refl
