-- ===== src/Http/Context/Sending/Completion.antt =====
-- What goes out after a post, and when the context is idle again.
use clibmedia_transfer_proto.Common.{
  ◌≡◌, refl, Option, none, some, List, [], ◌∷◌, ◌++◌, true, ◌≤◌, arith,
}
use clibmedia_transfer_proto.Http.Search.{crlf}
use clibmedia_transfer_proto.ByteIo.{Bytes}
use clibmedia_transfer_proto.Http.Packet.{Packet, payload}
use clibmedia_transfer_proto.Http.Context.{
  PostState, post_init, post_http, post_http_header, post_http_body, post_http_stream_header,
  post_http_stream_chunk, post_chunk_header, post_chunk_len, post_chunk_body, post_chunk_eof, Event,
  async_send, on_sent, on_sent_next_chunk, HttpContext, post_request_packet, post_chunk,
  write_complete, send_packet, advance, hex, is_init,
}
use clibmedia_transfer_proto.Http.Context.Sending.{
  calls_post_request_packet, calls_post_chunk, call, call_all, rank, has_packet, IsReady,
  completions,
}

abbrev RunsOut : PostState → HttpContext → Type 0
RunsOut s ctx =
    (rank s ≤ 3)
    × ((r : HttpContext × List Event) × (call_all (completions (rank s)) ctx ≡ some r)
        × (r.0.post_state ≡ post_init))

runs_out :
    (s : PostState) (ctx : HttpContext) (o : Option Packet)
    → ctx.post_state ≡ s
    → ctx.out_packet ≡ o
    → has_packet s o ≡ true
    → RunsOut s ctx
unfolding call_all call write_complete advance send_packet has_packet payload
runs_out post_init ctx o es e ready = rw (es, call_all) (omega arith, (_, refl, refl))
runs_out post_http ctx o es e ready = rw (es, call_all) (omega arith, (_, refl, refl))
runs_out post_http_header ctx none es e ready = cc
runs_out post_http_header ctx (some packet) es e ready =
    rw (es, e, call_all, payload, ready) (omega arith, (_, refl, refl))
runs_out post_http_body ctx o es e ready = rw (es, call_all) (omega arith, (_, refl, refl))
runs_out post_http_stream_header ctx o es e ready = rw (es, call_all) (omega arith, (_, refl, refl))
runs_out post_http_stream_chunk ctx o es e ready = rw (es, call_all) (omega arith, (_, refl, refl))
runs_out post_chunk_header ctx none es e ready = cc
runs_out post_chunk_header ctx (some packet) es e ready =
    rw (es, e, call_all, payload, ready) (omega arith, (_, refl, refl))
runs_out post_chunk_len ctx none es e ready = cc
runs_out post_chunk_len ctx (some packet) es e ready =
    rw (es, e, call_all, payload, ready) (omega arith, (_, refl, refl))
runs_out post_chunk_body ctx o es e ready = rw (es, call_all) (omega arith, (_, refl, refl))
runs_out post_chunk_eof ctx o es e ready = rw (es, call_all) (omega arith, (_, refl, refl))

-- A context that has a packet, whose block holds its size, where its state sends one is idle again
-- after as many completions as the rank of its state, three at most.
pub call_all-completions :
    (ctx : HttpContext)
    → IsReady ctx
    → (rank ctx.post_state ≤ 3)
      × ((r : HttpContext × List Event) × (call_all (completions (rank ctx.post_state)) ctx
            ≡ some r)
          × (r.0.post_state ≡ post_init))
unfolding IsReady
call_all-completions ctx ready = runs_out ctx.post_state ctx ctx.out_packet refl refl ready

-- A header and a packet posted on an idle context, and the connection's completions: the header
-- goes out, then the payload, then the subscriber is told, and the context is idle.
post_request_packet-sends :
    (header bytes : Bytes) (packet : Packet) (ctx : HttpContext)
    → ctx.post_state ≡ post_init
    → payload packet ≡ some bytes
    → call_all (calls_post_request_packet header packet ∷ completions 2) ctx
      ≡ some (
        record ctx { header = header; out_packet = some packet; post_state = post_init },
        async_send header ∷ async_send bytes ∷ on_sent ∷ [],
      )
unfolding call_all call post_request_packet is_init write_complete advance send_packet
post_request_packet-sends header bytes packet ctx e sound = rw (e, call_all, sound) refl

-- A chunk posted when the header is out: its length in hexadecimal and a line end, its bytes with
-- nothing after them, then the subscriber is asked for the next.
post_chunk-sends :
    (bytes : Bytes) (chunk : Packet) (ctx : HttpContext)
    → ctx.header_sent ≡ true
    → payload chunk ≡ some bytes
    → call_all (calls_post_chunk chunk ∷ completions 2) ctx
      ≡ some (
        record ctx {
          header = hex chunk.size ++ crlf;
          out_packet = some chunk;
          post_state = post_init;
        },
        async_send (hex chunk.size ++ crlf) ∷ async_send bytes ∷ on_sent_next_chunk ∷ [],
      )
unfolding call_all call post_chunk write_complete advance send_packet
post_chunk-sends bytes chunk ctx e sound = rw (e, call_all, sound) refl
