-- ===== src/Http/Context/Messages.antt =====
-- Whole messages posted on an `HttpContext`.
use clibmedia_transfer_proto.Common.{
  ◌≡◌, ◌≢◌, refl, some, [], ◌∷◌, ◌++◌, true, false, Bool-cases, inl, inr, ap, take, length,
  length-take, leb, leb→le, arith,
}
use clibmedia_transfer_proto.ByteIo.{Bytes}
use clibmedia_transfer_proto.Http.Search.{crlf}
use clibmedia_transfer_proto.Http.Packet.{Packet, payload, holds_size}
use clibmedia_transfer_proto.Http.Request.{HttpRequest}
use clibmedia_transfer_proto.Http.Message.{make_headers}
use clibmedia_transfer_proto.Http.Context.{
  PostState, post_init, post_http, post_http_header, post_http_body, post_http_stream_header,
  post_http_stream_chunk, post_chunk_header, post_chunk_len, post_chunk_body, post_chunk_eof,
  HttpContext, async_send, on_sent, on_sent_next_chunk, is_init, post_header, post_request,
  post_message, post_chunk, post_eof_chunk, write_complete, advance, send_packet, hex, chunk_eof,
}
use clibmedia_transfer_proto.Http.Context.Sending.{
  call, call_all, calls_post_message, calls_post_chunk, calls_post_eof_chunk, calls_write_complete,
}

payload-length : (p : Packet) (bytes : Bytes) → payload p ≡ some bytes → length bytes ≡ p.size
unfolding payload holds_size
payload-length p bytes e = elim (Bool-cases (leb p.size (length p.content))) [
  | inl there ↦
      let taken : take p.size p.content ≡ bytes = ground (arith, e, there) in
      omega (arith, length-take p.size p.content, leb→le _ _ there, ap length taken)
  | inr missing ↦ absurd (ground (arith, e, missing))
]

busy : (s : PostState) → s ≢ post_init → is_init s ≡ false
unfolding is_init
busy post_init h = absurd (h refl)
busy post_http h = refl
busy post_http_header h = refl
busy post_http_body h = refl
busy post_http_stream_header h = refl
busy post_http_stream_chunk h = refl
busy post_chunk_header h = refl
busy post_chunk_len h = refl
busy post_chunk_body h = refl
busy post_chunk_eof h = refl

-- On a context that is not idle, a message of any kind is reported as posted, though the context
-- stays as it is and nothing goes out.
pub post_message-refused :
    (body : Bytes) (r : HttpRequest) (ctx : HttpContext)
    → ctx.post_state ≢ post_init
    → post_message body r ctx ≡ (ctx, true, [])
unfolding post_message post_header post_request
post_message-refused body r ctx h = elim (Bool-cases r.is_chunked) [
  | inl chunked ↦ rw (post_message, chunked, post_header, busy ctx.post_state h) refl
  | inr whole ↦ elim (Bool-cases r.is_stream) [
    | inl stream ↦ rw (post_message, whole, stream, post_header, busy ctx.post_state h) refl
    | inr plain ↦ rw (post_message, whole, plain, post_request, busy ctx.post_state h) refl
  ]
]

-- A message in chunks posted on an idle context, then one chunk, whose block holds its size, and the
-- end, each with its completions: the header goes out, the length of the chunk and as many bytes of
-- it, the end of the chunks, and the context is idle.
pub post_message-chunked :
    (body : Bytes) (r : HttpRequest) (chunk : Packet) (bytes : Bytes) (ctx : HttpContext)
    → ctx.post_state ≡ post_init
    → r.is_chunked ≡ true
    → payload chunk ≡ some bytes
    → (call_all
          (calls_post_message body r
            ∷ calls_write_complete
            ∷ calls_post_chunk chunk
            ∷ calls_write_complete
            ∷ calls_write_complete
            ∷ calls_post_eof_chunk
            ∷ calls_write_complete
            ∷ [])
          ctx
        ≡ some (
          record ctx {
            header = hex chunk.size ++ crlf;
            out_packet = some chunk;
            post_state = post_init;
            header_sent = true;
          },
          async_send (make_headers r)
              ∷ async_send (hex chunk.size ++ crlf)
              ∷ async_send bytes
              ∷ on_sent_next_chunk
              ∷ async_send chunk_eof
              ∷ on_sent
              ∷ [],
        ))
      × (length bytes ≡ chunk.size)
unfolding call_all call post_message post_header is_init post_chunk post_eof_chunk write_complete
    advance send_packet
post_message-chunked body r chunk bytes ctx idle chunked sound =
    (rw (call_all, call, post_message, chunked, idle, sound) refl, payload-length chunk bytes sound)
