-- ===== src/Http/Context/Sending.antt =====
-- The sending half of `HttpContext`, as a sequence of its calls: the posts of the application and
-- the completions of the connection.
pub mod Ready
pub mod Completion
use clibmedia_transfer_proto.Common.{
  ℕ, ◌≡◌, refl, Option, none, some, List, [], ◌∷◌, ◌++◌, Bool, true, if◌then◌else◌, not, false,
  ◌>>=◌, Bool-cases, inl, inr, replicate, ◌≤◌, arith,
}
use clibmedia_transfer_proto.Http.Search.{crlf}
use clibmedia_transfer_proto.ByteIo.{Bytes}
use clibmedia_transfer_proto.Http.Request.{HttpRequest}
use clibmedia_transfer_proto.Http.Message.{make_headers, append_to_buffer}
use clibmedia_transfer_proto.Http.Packet.{Packet, payload, holds_size}
use clibmedia_transfer_proto.Http.Context.{
  PostState, post_init, post_http, post_http_header, post_http_body, post_http_stream_header,
  post_http_stream_chunk, post_chunk_header, post_chunk_len, post_chunk_body, post_chunk_eof, Event,
  async_send, on_sent, on_sent_next_chunk, HttpContext, Posted, post_request, post_request_packet,
  post_header, post_chunk, post_eof_chunk, post_stream_chunk, post_message, send_stream_chunk,
  write_complete, send_packet, advance, hex, is_init,
}

pub data Call : Type 0 where
  calls_post_request : Bytes → Call
  calls_post_request_packet : Bytes → Packet → Call
  calls_post_header : Bytes → Call
  calls_post_chunk : Packet → Call
  calls_post_eof_chunk : Call
  calls_post_stream_chunk : Packet → Call
  calls_post_message : Bytes → HttpRequest → Call
  calls_write_complete : Call

-- What a call makes of the context, and the events it leaves; `none` where it faults.
unfoldable pub call : Call → HttpContext → Option (HttpContext × List Event)
call (calls_post_request bytes) ctx =
    let posted : Posted = post_request bytes ctx in some (posted.0, posted.2)
call (calls_post_request_packet header packet) ctx =
    let posted : Posted = post_request_packet header packet ctx in some (posted.0, posted.2)
call (calls_post_header header) ctx =
    let posted : Posted = post_header header ctx in some (posted.0, posted.2)
call (calls_post_chunk chunk) ctx = some (post_chunk chunk ctx)
call calls_post_eof_chunk ctx = some (post_eof_chunk ctx)
call (calls_post_stream_chunk packet) ctx =
    post_stream_chunk packet ctx >>= λ posted. some (posted.0, posted.2)
call (calls_post_message body r) ctx =
    let posted : Posted = post_message body r ctx in some (posted.0, posted.2)
call calls_write_complete ctx = write_complete ctx

unfoldable pub call_all : List Call → HttpContext → Option (HttpContext × List Event)
call_all [] ctx = some (ctx, [])
call_all (c ∷ cs) ctx = do
  (ctx₁, events₁) ← call c ctx
  (ctx₂, events₂) ← call_all cs ctx₁
  some (ctx₂, events₁ ++ events₂)

-- How often `WriteComplete` is called before the context is idle again.
abbrev pub rank : PostState → ℕ
rank post_init = 0
rank post_http = 1
rank post_http_header = 2
rank post_http_body = 1
rank post_http_stream_header = 1
rank post_http_stream_chunk = 1
rank post_chunk_header = 3
rank post_chunk_len = 2
rank post_chunk_body = 1
rank post_chunk_eof = 1

-- Whether the packet is there, and its block holds its size, in the states that send it later.
unfoldable pub has_packet : PostState → Option Packet → Bool
has_packet post_http_header none = false
has_packet post_chunk_header none = false
has_packet post_chunk_len none = false
has_packet post_http_header (some packet) = holds_size packet
has_packet post_chunk_header (some packet) = holds_size packet
has_packet post_chunk_len (some packet) = holds_size packet
has_packet s o = true

unfoldable pub IsReady : HttpContext → Type 0
IsReady ctx = has_packet ctx.post_state ctx.out_packet ≡ true

-- The packet that a call posts, if it posts one, has a block that holds its size.
abbrev pub IsSound : Call → Type 0
IsSound (calls_post_request_packet header packet) = holds_size packet ≡ true
IsSound (calls_post_chunk chunk) = holds_size chunk ≡ true
IsSound (calls_post_stream_chunk packet) = holds_size packet ≡ true
IsSound c = Unit {0}

abbrev pub completions : ℕ → List Call
completions n = replicate n calls_write_complete
