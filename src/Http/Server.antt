-- ===== src/Http/Server.antt =====
-- libhttp/http_server.cpp: an HttpContext for each connection of the TcpServer, which is given what
-- arrives in a MsgBuffer of its own. A round of the parser that does not end, or that leaves its
-- block, is `none`.
pub mod Answers
use clibmedia_transfer_proto.Common.{ℕ, Bool, true, false, Option, none, some, List, [], ◌∷◌, map}
use clibmedia_transfer_proto.ByteIo.{Bytes}
use clibmedia_transfer_proto.Http.MsgBuffer.{new_msg_buffer, append}
use clibmedia_transfer_proto.Http.Parser.{new_parser}
use clibmedia_transfer_proto.Http.Context.{
  HttpContext, Event, on_sent, on_sent_next_chunk, on_request, post_init, Run, returned, fault,
  running, parse_loop, post_request, write_complete,
}
use clibmedia_transfer_proto.Network.{Call, hand_on, Client}
use clibmedia_transfer_proto.Network.Call.{async_send, close}

-- `HttpContext(conn)`. `header_sent_` is not initialised: it is what the memory holds.
unfoldable pub new_context : Bool → HttpContext
new_context memory = record {
  http_parser = new_parser;
  header = [];
  out_packet = none;
  post_state = post_init;
  header_sent = memory;
}

-- What the HttpContext does with its connection and the HttpServer hands on: the requests and the
-- end of a chunk. Its `OnSent` for the context's own signal calls `WriteComplete` of a context that
-- is idle by then, which does nothing.
unfoldable pub to_calls : List Event → List (Call Event)
to_calls [] = []
to_calls (Event.async_send data' ∷ events) = async_send data' ∷ to_calls events
to_calls (Event.close ∷ events) = close ∷ to_calls events
to_calls (on_sent ∷ events) = to_calls events
to_calls (on_sent_next_chunk ∷ events) = hand_on on_sent_next_chunk ∷ to_calls events
to_calls (on_request request packet ∷ events) =
    hand_on (on_request request packet) ∷ to_calls events

-- `HttpServer::OnRecv`; `Parse` returns 1, so that the test for -1 never holds.
unfoldable pub on_recv :
    (ℕ → Bytes → List Bytes) → ℕ → HttpContext → Bytes → Option (HttpContext × List (Call Event))
unfolding to_calls
on_recv split fuel ctx data' = elim (append (new_msg_buffer 2048) data') [
  | none ↦ none
  | some buffer ↦ elim (parse_loop split fuel ctx buffer []) [
    | returned ctx' rest events ↦ some (ctx', to_calls events)
    | fault ↦ none
    | running ↦ none
  ]
]

-- `HttpServer::OnNewConnection` and `OnRecv`, as the TcpServer calls them.
abbrev pub http_server : (ℕ → Bool) → (ℕ → Bytes → List Bytes) → ℕ → Client HttpContext Event
http_server memory split fuel = record {
  new_context = λ c. new_context (memory c);
  on_recv = on_recv split fuel;
}

-- `HttpServer::OnSent`
unfoldable on_sent_of : HttpContext → Option (HttpContext × List (Call Event))
unfolding to_calls
on_sent_of ctx = elim (write_complete ctx) [
  | none ↦ none
  | some (ctx', events) ↦ some (ctx', to_calls events)
]

-- The application's answer to a request, by `PostRequest(header_and_body)`.
unfoldable pub answer : Bytes → HttpContext → Option (HttpContext × List (Call Event))
unfolding post_request to_calls
answer header_and_body ctx =
    let (ctx', accepted, events) = post_request header_and_body ctx in some (ctx', to_calls events)
