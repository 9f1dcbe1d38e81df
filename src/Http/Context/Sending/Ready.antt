-- ===== src/Http/Context/Sending/Ready.antt =====
-- No call of an `HttpContext` uses a packet that is not there.
use clibmedia_transfer_proto.Common.{
  ◌≡◌, refl, Option, none, some, List, [], ◌∷◌, ◌++◌, Bool, true, if◌then◌else◌, not, false,
  Bool-cases, inl, inr, All,
}
use clibmedia_transfer_proto.ByteIo.{Bytes}
use clibmedia_transfer_proto.Http.Request.{HttpRequest}
use clibmedia_transfer_proto.Http.Message.{make_headers, append_to_buffer}
use clibmedia_transfer_proto.Http.Packet.{Packet, payload, holds_size}
use clibmedia_transfer_proto.Http.Context.{
  PostState, post_init, post_http, post_http_header, post_http_body, post_http_stream_header,
  post_http_stream_chunk, post_chunk_header, post_chunk_len, post_chunk_body, post_chunk_eof, Event,
  HttpContext, Posted, post_request, post_request_packet, post_header, post_chunk, post_eof_chunk,
  post_stream_chunk, post_message, send_stream_chunk, write_complete, send_packet, advance, is_init,
}
use clibmedia_transfer_proto.Http.Context.Sending.{
  Call, calls_post_request, calls_post_request_packet, calls_post_header, calls_post_chunk,
  calls_post_eof_chunk, calls_post_stream_chunk, calls_post_message, calls_write_complete, call,
  call_all, has_packet, IsReady, IsSound,
}

-- A call that goes through and leaves the context ready.
abbrev Succeeds : Option (HttpContext × List Event) → Type 0
Succeeds o = (r : HttpContext × List Event) × (o ≡ some r) × IsReady r.0

advance-Succeeds :
    (s : PostState) (ctx : HttpContext) (o : Option Packet)
    → ctx.post_state ≡ s
    → ctx.out_packet ≡ o
    → has_packet s o ≡ true
    → Succeeds (advance s ctx)
unfolding advance send_packet IsReady has_packet payload
advance-Succeeds post_init ctx o es e ready = (_, refl, rw (es, has_packet) refl)
advance-Succeeds post_http_header ctx none es e ready = cc
advance-Succeeds post_http_header ctx (some packet) es e ready =
    rw (e, send_packet, payload, ready) (_, refl, refl)
advance-Succeeds post_chunk_header ctx none es e ready = cc
advance-Succeeds post_chunk_header ctx (some packet) es e ready = (_, refl, rw e ready)
advance-Succeeds post_chunk_len ctx none es e ready = cc
advance-Succeeds post_chunk_len ctx (some packet) es e ready =
    rw (e, send_packet, payload, ready) (_, refl, refl)
advance-Succeeds post_http ctx o es e ready = (_, refl, refl)
advance-Succeeds post_http_body ctx o es e ready = (_, refl, refl)
advance-Succeeds post_chunk_body ctx o es e ready = (_, refl, refl)
advance-Succeeds post_chunk_eof ctx o es e ready = (_, refl, refl)
advance-Succeeds post_http_stream_header ctx o es e ready = (_, refl, refl)
advance-Succeeds post_http_stream_chunk ctx o es e ready = (_, refl, refl)

-- A post that may be refused.
post-Succeeds :
    (b : Bool) (ctx : HttpContext) (posted : Posted)
    → IsReady ctx
    → IsReady posted.0
    → Succeeds (let r = if b then posted else (ctx, false, []) in some (r.0, r.2))
post-Succeeds true ctx posted ready h = (_, refl, h)
post-Succeeds false ctx posted ready h = (_, refl, ready)

if-IsReady :
    {B : Type 0} (b : Bool) (x y : HttpContext × B)
    → IsReady x.0
    → IsReady y.0
    → IsReady (if b then x else y).0
if-IsReady true x y hx hy = hx
if-IsReady false x y hx hy = hy

post_stream_chunk-Succeeds :
    (packet : Packet) (ctx : HttpContext)
    → IsReady ctx
    → holds_size packet ≡ true
    → Succeeds (call (calls_post_stream_chunk packet) ctx)
unfolding call IsReady has_packet post_stream_chunk send_stream_chunk payload
post_stream_chunk-Succeeds packet ctx ready sound = elim (Bool-cases (is_init ctx.post_state)) [
  | inr busy ↦ rw (call, post_stream_chunk, busy) (_, refl, ready)
  | inl idle ↦ elim (Bool-cases ctx.header_sent) [
    | inl sent ↦
        rw (call, post_stream_chunk, idle, send_stream_chunk, sent, payload, sound) (_, refl, refl)
    | inr unsent ↦ rw (call, post_stream_chunk, idle, send_stream_chunk, unsent) (_, refl, refl)
  ]
]

post_header-IsReady :
    (header : Bytes) (ctx : HttpContext) → IsReady ctx → IsReady (post_header header ctx).0
unfolding IsReady has_packet post_header
post_header-IsReady header ctx ready = elim (Bool-cases (is_init ctx.post_state)) [
  | inl idle ↦ rw (post_header, idle) refl
  | inr busy ↦ rw (post_header, busy) ready
]

post_request-IsReady :
    (bytes : Bytes) (ctx : HttpContext) → IsReady ctx → IsReady (post_request bytes ctx).0
unfolding IsReady has_packet post_request
post_request-IsReady bytes ctx ready = elim (Bool-cases (is_init ctx.post_state)) [
  | inl idle ↦ rw (post_request, idle) refl
  | inr busy ↦ rw (post_request, busy) ready
]

either_posted :
    (a b : Bool) (x y : Posted)
    → IsReady x.0
    → IsReady y.0
    → IsReady
        (if◌then◌else◌ {A = Posted} a
          (x.0, true, x.2)
          (if b then (x.0, true, x.2) else (y.0, true, y.2))).0
either_posted true b x y hx hy = hx
either_posted false true x y hx hy = hx
either_posted false false x y hx hy = hy

post_message-IsReady :
    (body : Bytes) (r : HttpRequest) (ctx : HttpContext)
    → IsReady ctx
    → IsReady (post_message body r ctx).0
unfolding post_message
post_message-IsReady body r ctx ready =
    either_posted r.is_chunked r.is_stream (post_header (make_headers r) ctx)
      (post_request (append_to_buffer body r) ctx) (post_header-IsReady (make_headers r) ctx ready)
      (post_request-IsReady (append_to_buffer body r) ctx ready)

call-Succeeds : (c : Call) (ctx : HttpContext) → IsReady ctx → IsSound c → Succeeds (call c ctx)
unfolding call IsReady has_packet post_request post_request_packet post_header post_chunk
    post_eof_chunk write_complete
call-Succeeds (calls_post_request bytes) ctx ready sound =
    post-Succeeds (is_init ctx.post_state) ctx _ ready refl
call-Succeeds (calls_post_request_packet header packet) ctx ready sound =
    post-Succeeds (is_init ctx.post_state) ctx _ ready sound
call-Succeeds (calls_post_header header) ctx ready sound =
    post-Succeeds (is_init ctx.post_state) ctx _ ready refl
call-Succeeds (calls_post_chunk chunk) ctx ready sound =
    (_, refl, if-IsReady (not ctx.header_sent) _ _ sound sound)
call-Succeeds calls_post_eof_chunk ctx ready sound = (_, refl, refl)
call-Succeeds (calls_post_stream_chunk packet) ctx ready sound =
    post_stream_chunk-Succeeds packet ctx ready sound
call-Succeeds (calls_post_message body r) ctx ready sound =
    (_, refl, post_message-IsReady body r ctx ready)
call-Succeeds calls_write_complete ctx ready sound =
    advance-Succeeds ctx.post_state ctx ctx.out_packet refl refl ready

-- Whatever calls are made of a context that has a packet, whose block holds its size, where its state
-- sends one, if each packet that they post is there and its block holds its size: none of them faults,
-- and the context they leave is such a context again.
pub call_all-IsReady :
    (calls : List Call) (ctx : HttpContext)
    → IsReady ctx
    → All IsSound calls
    → (r : HttpContext × List Event) × (call_all calls ctx ≡ some r) × IsReady r.0
unfolding call_all
call_all-IsReady [] ctx ready sound = (_, refl, ready)
call_all-IsReady (c ∷ cs) ctx ready (sound, others) =
    let (r₁, e₁, ready₁) = call-Succeeds c ctx ready sound in
    let (r₂, e₂, ready₂) = call_all-IsReady cs r₁.0 ready₁ others in
    ((r₂.0, r₁.1 ++ r₂.1), rw (e₁, e₂) refl, ready₂)
