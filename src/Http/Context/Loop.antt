-- ===== src/Http/Context/Loop.antt =====
-- The loop of `HttpContext::Parse` where it makes no headway.
use clibmedia_transfer_proto.Common.{
  ℕ, zero, suc, ◌≤◌, ◌<◌, ◌≡◌, ◌⊎◌, refl, ◌∙◌, none, some, List, ◌++◌, arith, inl, inr, lt→ltb, ◌*◌,
}
use clibmedia_transfer_proto.ByteIo.{Bytes}
use clibmedia_transfer_proto.Http.Search.{search, crlf_crlf}
use clibmedia_transfer_proto.Http.MsgBuffer.{MsgBuffer, readable_bytes, readable}
use clibmedia_transfer_proto.Http.Parser.{
  HttpParser, HttpParserState, Parsed, expect_headers, expect_error, expect_continue,
}
use clibmedia_transfer_proto.Http.Parser.Dispatch.{
  parse, dispatch, parse-dispatch, refresh-open, parse_expect_headers,
}
use clibmedia_transfer_proto.Http.Context.{HttpContext, Event, running, parse_loop, react}

-- A header that is not there as a whole, and is not too long either.
abbrev pub IsPartialHeader : MsgBuffer → Type 0
IsPartialHeader buf =
    (readable_bytes buf ≤ 4)
    ⊎ ((search crlf_crlf (readable buf) ≡ none) × (readable_bytes buf ≤ 64 * 1024))

parse_expect_headers-partial :
    (split : ℕ → Bytes → List Bytes) (p : HttpParser) (buf : MsgBuffer)
    → IsPartialHeader buf
    → parse_expect_headers split p buf
      ≡ some (record { parser = p; buf = buf; result = expect_continue })
unfolding parse_expect_headers
parse_expect_headers-partial split p buf h = ground arith

-- The parser leaves itself and the buffer as they are.
abbrev IsStill : (ℕ → Bytes → List Bytes) → HttpParser → MsgBuffer → Type 0
IsStill split p buf =
    (s : HttpParserState) × (parse split p buf
      ≡ some (record { parser = p; buf = buf; result = s }))

parse-partial :
    (split : ℕ → Bytes → List Bytes) (p : HttpParser) (buf : MsgBuffer)
    → p.state ≡ expect_headers
    → 1 < readable_bytes buf
    → IsPartialHeader buf
    → IsStill split p buf
parse-partial split p buf e h part = (
  _,
  parse-dispatch split p buf (omega arith)
      ∙ rw (refresh-open p (λ e'. cc) (λ e'. cc), e) (unfold dispatch in refl)
      ∙ parse_expect_headers-partial split p buf part,
)

parse-error :
    (split : ℕ → Bytes → List Bytes) (p : HttpParser) (buf : MsgBuffer)
    → p.state ≡ expect_error
    → 1 < readable_bytes buf
    → IsStill split p buf
parse-error split p buf e h = (
  p.state,
  parse-dispatch split p buf (omega arith)
      ∙ rw (refresh-open p (λ e'. cc) (λ e'. cc)) (dispatched p.state e),
)
  where
    dispatched :
        (s : HttpParserState)
        → s ≡ expect_error
        → dispatch split s p buf ≡ some (record { parser = p; buf = buf; result = p.state })
    dispatched s e = rw e (unfold dispatch in refl)

parse_loop-still :
    (split : ℕ → Bytes → List Bytes) (fuel : ℕ) (ctx : HttpContext) (buf : MsgBuffer)
    (events : List Event)
    → 1 < readable_bytes buf
    → IsStill split ctx.http_parser buf
    → parse_loop split fuel ctx buf events ≡ running
unfolding parse_loop
parse_loop-still split zero ctx buf events h s = refl
parse_loop-still split (suc fuel) ctx buf events h (s, e) =
    rw (lt→ltb 1 (readable_bytes buf) h, e, parse_loop)
      (parse_loop-still split fuel ctx buf (events ++ react r) h (s, e))
  where
    r : Parsed
    r = record { parser = ctx.http_parser; buf = buf; result = s }

-- `HttpContext::Parse` never returns, whatever the number of rounds, where more than one byte is left
-- and either a header is expected, and no more than 64 * 1024 bytes have come in which it does not end,
-- or the parser is in error.
pub parse_loop-runs_on :
    (split : ℕ → Bytes → List Bytes) (fuel : ℕ) (ctx : HttpContext) (buf : MsgBuffer)
    (events : List Event)
    → 1 < readable_bytes buf
    → ((ctx.http_parser.state ≡ expect_headers) × IsPartialHeader buf)
      ⊎ (ctx.http_parser.state ≡ expect_error)
    → parse_loop split fuel ctx buf events ≡ running
parse_loop-runs_on split fuel ctx buf events h (inl (e, part)) =
    parse_loop-still split fuel ctx buf events h (parse-partial split ctx.http_parser buf e h part)
parse_loop-runs_on split fuel ctx buf events h (inr e) =
    parse_loop-still split fuel ctx buf events h (parse-error split ctx.http_parser buf e h)
