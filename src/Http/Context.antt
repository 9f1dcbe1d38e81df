-- ===== src/Http/Context.antt =====
-- libhttp/http_context.h and http_context.cpp: one HTTP exchange over a connection. What goes out to
-- the connection and to the subscribers is the list of events that a call leaves, oldest first.
-- `none` is a use of the packet where there is none.
pub mod Loop
pub mod Sending
pub mod Messages
use clibmedia_transfer_proto.Common.{
  ℕ, zero, suc, ◌+◌, ◌*◌, ◌/◌, ◌%◌, ◌≡◌, Bool, true, false, not, Option, none, some, List, [], ◌∷◌,
  ◌++◌, ◌==◌, ltb, if◌then◌else◌, ◌>>=◌,
}
use clibmedia_transfer_proto.ByteIo.{Bytes}
use clibmedia_transfer_proto.Http.Search.{crlf}
use clibmedia_transfer_proto.Http.Text.{text}
use clibmedia_transfer_proto.Http.Url.{hex_digit}
use clibmedia_transfer_proto.Http.Request.{HttpRequest}
use clibmedia_transfer_proto.Http.Message.{make_headers, append_to_buffer}
use clibmedia_transfer_proto.Http.MsgBuffer.{MsgBuffer, readable_bytes}
use clibmedia_transfer_proto.Http.Packet.{Packet, payload}
use clibmedia_transfer_proto.Http.Parser.{
  HttpParser, HttpParserState, Parsed, expect_http_complete, expect_chunk_complete, expect_error,
}
use clibmedia_transfer_proto.Http.Parser.Dispatch.{parse}

pub data PostState : Type 0 where
  post_init post_http post_http_header post_http_body : PostState
  post_http_stream_header post_http_stream_chunk : PostState
  post_chunk_header post_chunk_len post_chunk_body post_chunk_eof : PostState

pub data Event : Type 0 where
  async_send : Bytes → Event
  close on_sent on_sent_next_chunk : Event
  on_request : Option HttpRequest → Option Packet → Event

pub record HttpContext : Type 0 where
  pub http_parser : HttpParser
  pub header : Bytes
  pub out_packet : Option Packet
  pub post_state : PostState
  pub header_sent : Bool

-- The loop of `Parse`, with fuel: it may come to its end, meet a fault of the parser, or go on.
pub data Run : Type 0 where
  returned : HttpContext → MsgBuffer → List Event → Run
  fault : Run
  running : Run

-- The events of one round.
unfoldable pub react : Parsed → List Event
react r = elim r.result [
  | expect_http_complete ↦ on_request r.parser.req r.parser.chunk ∷ []
  | expect_chunk_complete ↦ on_request r.parser.req r.parser.chunk ∷ []
  | expect_error ↦ close ∷ []
  | _ ↦ []
]

unfoldable pub parse_loop :
    (ℕ → Bytes → List Bytes) → ℕ → HttpContext → MsgBuffer → List Event → Run
unfolding react
parse_loop split zero ctx buf events = running
parse_loop split (suc fuel) ctx buf events = elim (ltb 1 (readable_bytes buf)) [
  | false ↦ returned ctx buf events
  | true ↦ elim (parse split ctx.http_parser buf) [
    | none ↦ fault
    | some r ↦
        parse_loop split fuel (record ctx { http_parser = r.parser }) r.buf (events ++ react r)
  ]
]

-- A call that may be refused: the context, what it returns, and its events.
abbrev pub Posted : Type 0
Posted = HttpContext × Bool × List Event

unfoldable pub is_init : PostState → Bool
is_init post_init = true
is_init s = false

-- `PostRequest(header_and_body)`
unfoldable pub post_request : Bytes → HttpContext → Posted
unfolding is_init
post_request header_and_body ctx =
    if is_init ctx.post_state
    then (
      record ctx { header = header_and_body; post_state = post_http },
      true,
      async_send header_and_body ∷ [],
    )
    else (ctx, false, [])

-- `PostRequest(header, packet)`
unfoldable pub post_request_packet : Bytes → Packet → HttpContext → Posted
unfolding is_init
post_request_packet header packet ctx =
    if is_init ctx.post_state
    then (
      record ctx { header = header; out_packet = some packet; post_state = post_http_header },
      true,
      async_send header ∷ [],
    )
    else (ctx, false, [])

-- `PostChunkHeader` and `PostStreamHeader`, whose bodies are the same: the state stays as it was.
unfoldable pub post_header : Bytes → HttpContext → Posted
unfolding is_init
post_header header ctx =
    if is_init ctx.post_state
    then (
      record ctx { header = header; post_state = post_init; header_sent = true },
      true,
      async_send header ∷ [],
    )
    else (ctx, false, [])

-- `%X`, for a uint32_t: eight digits at most.
hex_loop : ℕ → ℕ → Bytes → Bytes
unfolding hex_digit
hex_loop zero n digits = digits
hex_loop (suc fuel) n digits =
    let rest = hex_loop fuel (n / 16) (hex_digit (n % 16) ∷ digits) in
    if n / 16 == 0 then hex_digit (n % 16) ∷ digits else rest

unfoldable pub hex : ℕ → Bytes
unfolding hex_loop
hex n = hex_loop 8 n []

-- `PostChunk`, which looks at no state.
unfoldable pub post_chunk : Packet → HttpContext → HttpContext × List Event
post_chunk chunk ctx =
    if not ctx.header_sent
    then (
      record ctx { out_packet = some chunk; post_state = post_chunk_header; header_sent = true },
      async_send ctx.header ∷ [],
    )
    else (
      record ctx {
        header = hex chunk.size ++ crlf;
        out_packet = some chunk;
        post_state = post_chunk_len;
      },
      async_send (hex chunk.size ++ crlf) ∷ [],
    )

-- `CHUNK_EOF`
abbrev pub chunk_eof : Bytes
chunk_eof = b'0' ∷ 13 ∷ 10 ∷ 13 ∷ 10 ∷ []

unfoldable pub post_eof_chunk : HttpContext → HttpContext × List Event
post_eof_chunk ctx = (record ctx { post_state = post_chunk_eof }, async_send chunk_eof ∷ [])

-- What `PostStreamChunk` does on an idle context.
unfoldable pub send_stream_chunk : Packet → HttpContext → Option Posted
send_stream_chunk packet ctx =
    if not ctx.header_sent
    then some (
      record ctx {
        out_packet = some packet;
        post_state = post_http_stream_header;
        header_sent = true;
      },
      true,
      async_send ctx.header ∷ [],
    )
    else (payload packet >>= λ bytes. some (
      record ctx { out_packet = some packet; post_state = post_http_stream_chunk },
      true,
      async_send bytes ∷ [],
    ))

unfoldable pub post_stream_chunk : Packet → HttpContext → Option Posted
unfolding is_init send_stream_chunk
post_stream_chunk packet ctx =
    if is_init ctx.post_state then send_stream_chunk packet ctx else some (ctx, false, [])

-- `PostRequest(request)`, for the body that the request holds: it returns true in any case.
unfoldable pub post_message : Bytes → HttpRequest → HttpContext → Posted
post_message body r ctx =
    if r.is_chunked
    then (let posted = post_header (make_headers r) ctx in (posted.0, true, posted.2))
    else if r.is_stream
    then (let posted = post_header (make_headers r) ctx in (posted.0, true, posted.2))
    else (let posted = post_request (append_to_buffer body r) ctx in (posted.0, true, posted.2))

send_packet : PostState → HttpContext → Option (HttpContext × List Event)
send_packet next ctx = elim ctx.out_packet [
  | none ↦ none
  | some packet ↦
      payload packet >>= λ bytes. some (record ctx { post_state = next }, async_send bytes ∷ [])
]

advance : PostState → HttpContext → Option (HttpContext × List Event)
unfolding send_packet
advance post_init ctx = some (ctx, [])
advance post_http ctx = some (record ctx { post_state = post_init }, on_sent ∷ [])
advance post_http_header ctx = send_packet post_http_body ctx
advance post_http_body ctx = some (record ctx { post_state = post_init }, on_sent ∷ [])
advance post_chunk_header ctx =
    some (record ctx { post_state = post_chunk_len }, on_sent_next_chunk ∷ [])
advance post_chunk_len ctx = send_packet post_chunk_body ctx
advance post_chunk_body ctx = some (record ctx { post_state = post_init }, on_sent_next_chunk ∷ [])
advance post_chunk_eof ctx = some (record ctx { post_state = post_init }, on_sent ∷ [])
advance post_http_stream_header ctx =
    some (record ctx { post_state = post_init }, on_sent_next_chunk ∷ [])
advance post_http_stream_chunk ctx =
    some (record ctx { post_state = post_init }, on_sent_next_chunk ∷ [])

-- `WriteComplete`: the connection has sent what it was given.
unfoldable pub write_complete : HttpContext → Option (HttpContext × List Event)
unfolding advance
write_complete ctx = advance ctx.post_state ctx
