-- ===== src/Examples/Sessions.antt =====
-- The sender and the reading loop of a connection on concrete inputs.
use clibmedia_transfer_proto.Common.{
  false, length, ◌-◌, ◌≤◌, ◌≡◌, refl, none, some, List, [], ◌∷◌, ◌++◌, arith, replicate, true, inl,
}
use clibmedia_transfer_proto.Common.Int.{negsuc}
use clibmedia_transfer_proto.Http.Search.{crlf, crlf_crlf, search}
use clibmedia_transfer_proto.Http.Text.{text}
use clibmedia_transfer_proto.Http.MsgBuffer.{MsgBuffer, readable_bytes}
use clibmedia_transfer_proto.Http.Packet.{Packet, payload, holds_size}
use clibmedia_transfer_proto.Http.Parser.{new_parser}
use clibmedia_transfer_proto.Http.Context.{
  HttpContext, Event, async_send, on_sent, on_sent_next_chunk, post_init, post_chunk_header,
  parse_loop, running, hex, post_message, chunk_eof,
}
use clibmedia_transfer_proto.Http.Context.Loop.{parse_loop-runs_on}
use clibmedia_transfer_proto.Http.Context.Sending.{
  Call, calls_post_request, calls_post_chunk, calls_post_eof_chunk, calls_post_message,
  calls_write_complete, call_all, completions, rank, IsReady, has_packet,
}
use clibmedia_transfer_proto.Http.Context.Sending.Ready.{call_all-IsReady}
use clibmedia_transfer_proto.Http.Context.Sending.Completion.{call_all-completions}
use clibmedia_transfer_proto.Http.Context.Messages.{post_message-refused, post_message-chunked}
use clibmedia_transfer_proto.Http.Request.{HttpRequest, new_request}
use clibmedia_transfer_proto.Http.Message.{make_headers, append_to_buffer}
use clibmedia_transfer_proto.Http.Message.Ending.{search-make_headers}

abbrev three : Packet
three = record {
  type' = 255;
  size = 3;
  index = negsuc 0;
  timestamp = 0;
  capacity = 4;
  content = text "abc" ++ (0 ∷ []);
}

abbrev idle : HttpContext
idle = record {
  http_parser = new_parser;
  header = text "H";
  out_packet = none;
  post_state = post_init;
  header_sent = true;
}

abbrev fresh : HttpContext
fresh = record idle { out_packet = some three; post_state = post_chunk_header }

abbrev calls : List Call
calls =
    calls_post_request (text "r")
    ∷ calls_write_complete
    ∷ calls_post_chunk three
    ∷ calls_post_eof_chunk
    ∷ []

-- The first bytes of a request, and no more.
abbrev get_line : MsgBuffer
get_line = record { head = 8; init_cap = 8; buffer = replicate 8 0 ++ text "GET"; tail = 11 }

call_all-IsReady_example :
    (r : HttpContext × List Event) × (call_all calls idle ≡ some r) × IsReady r.0
unfolding holds_size
call_all-IsReady_example =
    call_all-IsReady calls idle (unfold IsReady has_packet in refl) (tt, (tt, (refl, (tt, tt))))

call_all-completions_example :
    (rank post_chunk_header ≤ 3)
    × ((r : HttpContext × List Event) × (call_all (completions (rank post_chunk_header)) fresh
          ≡ some r)
        × (r.0.post_state ≡ post_init))
unfolding holds_size
call_all-completions_example = call_all-completions fresh (unfold IsReady has_packet in refl)

parse_loop-runs_on_example : parse_loop (λ d s. s ∷ []) 100 idle get_line [] ≡ running
parse_loop-runs_on_example =
    parse_loop-runs_on (λ d s. s ∷ []) 100 idle get_line [] (unfold readable_bytes in omega arith)
      (inl (unfold new_parser in refl, inl (unfold readable_bytes in omega arith)))

abbrev answer : HttpRequest
answer = record (new_request false) {
  is_chunked = true;
  code = 200;
  headers = (text "server", text "WebServer") ∷ [];
}

search-make_headers_example :
    search crlf_crlf (append_to_buffer (text "body") answer)
    ≡ some (length (make_headers answer) - 4)
search-make_headers_example = search-make_headers answer (text "body") refl

post_message-refused_example : post_message (text "body") answer fresh ≡ (fresh, true, [])
post_message-refused_example = post_message-refused (text "body") answer fresh (λ e. cc)

post_message-chunked_example :
    (call_all
        (calls_post_message [] answer
          ∷ calls_write_complete
          ∷ calls_post_chunk three
          ∷ calls_write_complete
          ∷ calls_write_complete
          ∷ calls_post_eof_chunk
          ∷ calls_write_complete
          ∷ [])
        idle
      ≡ some (
        record idle {
          header = hex 3 ++ crlf;
          out_packet = some three;
          post_state = post_init;
          header_sent = true;
        },
        async_send (make_headers answer)
            ∷ async_send (hex 3 ++ crlf)
            ∷ async_send (text "abc")
            ∷ on_sent_next_chunk
            ∷ async_send chunk_eof
            ∷ on_sent
            ∷ [],
      ))
    × (length (text "abc") ≡ three.size)
unfolding payload holds_size
post_message-chunked_example = post_message-chunked [] answer three (text "abc") idle refl refl refl
