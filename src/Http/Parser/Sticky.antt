-- ===== src/Http/Parser/Sticky.antt =====
-- States that the parser does not leave as it should: the error that is overwritten, the chunked
-- message that never ends, and the error that keeps what it was given.
use clibmedia_transfer_proto.Common.{
  ℕ, ◌+◌, ◌^◌, ◌*◌, ◌<◌, ◌≡◌, refl, ap, ◌∙◌, true, some, List, [], ◌∷◌, inl, inr, arith, ◌==◌, take,
  Bool-cases, Option-cases,
}
use clibmedia_transfer_proto.Common.Int.{ℤ, pos, negsuc}
use clibmedia_transfer_proto.ByteIo.{Bytes}
use clibmedia_transfer_proto.Http.Text.{strtol_hex}
use clibmedia_transfer_proto.Http.MsgBuffer.{
  MsgBuffer, readable_bytes, readable, retrieve, find_crlf,
}
use clibmedia_transfer_proto.Http.Parser.{
  HttpParser, HttpParserState, Parsed, expect_chunk_len, expect_chunk_body, expect_chunk_complete,
  expect_last_empty_chunk, expect_error, bad_request, parse_chunk, ◌>>=◌, returns_state,
}
use clibmedia_transfer_proto.Http.Parser.Body.{parse_segments}
use clibmedia_transfer_proto.Http.Parser.Dispatch.{
  parse, refresh, dispatch, refresh-open, parse-dispatch, parse_chunk_len, parse_last_empty_chunk,
  set_chunk_length,
}

set_chunk_length-too_long :
    (n : ℕ) (p : HttpParser)
    → 1024 * 1024 < n
    → n + 2 < 2 ^ 31
    → set_chunk_length (pos n) p
      ≡ some (record p {
        reason = bad_request;
        current_chunk_length = pos (n + 2);
        state = expect_chunk_body;
      })
unfolding set_chunk_length
set_chunk_length-too_long n p h small = ground arith

parse_chunk_len-found :
    (p : HttpParser) (buf : MsgBuffer) (i : ℕ) (length' : ℤ)
    → find_crlf buf ≡ some i
    → strtol_hex (take i (readable buf)) ≡ length'
    → parse_chunk_len p buf
      ≡ (set_chunk_length length' p >>= λ p'. returns_state (p', retrieve buf (i + 2)))
unfolding parse_chunk_len
parse_chunk_len-found p buf i length' found value = rw (found, value, parse_chunk_len)

parse-expect_chunk_len :
    (split : ℕ → Bytes → List Bytes) (p : HttpParser) (buf : MsgBuffer)
    → p.state ≡ expect_chunk_len
    → 0 < readable_bytes buf
    → parse split p buf ≡ parse_chunk_len p buf
parse-expect_chunk_len split p buf e h =
    parse-dispatch split p buf h
    ∙ rw (refresh-open p (λ e'. cc) (λ e'. cc), e) (unfold dispatch in refl)

-- A chunk length above the limit of 1024 * 1024 is recorded as a bad request, and the chunk is then
-- expected all the same.
parse-chunk_too_long :
    (split : ℕ → Bytes → List Bytes) (p : HttpParser) (buf : MsgBuffer) (i n : ℕ)
    → p.state ≡ expect_chunk_len
    → 0 < readable_bytes buf
    → find_crlf buf ≡ some i
    → strtol_hex (take i (readable buf)) ≡ pos n
    → 1024 * 1024 < n
    → n + 2 < 2 ^ 31
    → (r : Parsed) × (parse split p buf ≡ some r)
      × (r.result ≡ expect_chunk_body)
      × (r.parser.reason ≡ bad_request)
      × (r.parser.current_chunk_length ≡ pos (n + 2))
parse-chunk_too_long split p buf i n e h found value long small = (
  record {
    parser = record p {
      reason = bad_request;
      current_chunk_length = pos (n + 2);
      state = expect_chunk_body;
    };
    buf = retrieve buf (i + 2);
    result = expect_chunk_body;
  },
  parse-expect_chunk_len split p buf e h
      ∙ parse_chunk_len-found p buf i (pos n) found value
      ∙ ap (λ q. q >>= λ p'. returns_state (p', retrieve buf (i + 2)))
          (set_chunk_length-too_long n p long small),
  refl,
  refl,
  refl,
)

-- The states of a message with chunks.
abbrev IsChunkState : HttpParserState → Type 0
IsChunkState expect_chunk_len = Unit
IsChunkState expect_chunk_body = Unit
IsChunkState expect_chunk_complete = Unit
IsChunkState expect_last_empty_chunk = Unit
IsChunkState expect_error = Unit
IsChunkState s = ⊥

pub record IsChunked (p : HttpParser) : Type 0 where
  pub chunked : p.is_chunked ≡ true
  pub state : IsChunkState p.state

set_chunk_length-IsChunked :
    (length' : ℤ) (p q : HttpParser)
    → IsChunked p
    → set_chunk_length length' p ≡ some q
    → IsChunked q
unfolding set_chunk_length
set_chunk_length-IsChunked (pos n) p q c e = ground arith
set_chunk_length-IsChunked (negsuc n) p q c e = ground arith

parse_chunk_len-IsChunked :
    (p : HttpParser) (buf : MsgBuffer) (r : Parsed)
    → IsChunked p
    → parse_chunk_len p buf ≡ some r
    → IsChunked r.parser
unfolding parse_chunk_len
parse_chunk_len-IsChunked p buf r c e = elim (Option-cases (find_crlf buf)) [
  | inl missing ↦ ground arith
  | inr (i, found) ↦ elim (Option-cases (set_chunk_length (strtol_hex (take i (readable buf))) p)) [
    | inl over ↦ ground (arith, found, over)
    | inr (q, set) ↦
        let chunked = set_chunk_length-IsChunked (strtol_hex (take i (readable buf))) p q c set in
        ground (arith, found, set, chunked)
  ]
]

parse_last_empty_chunk-IsChunked :
    (p : HttpParser) (buf : MsgBuffer) (r : Parsed)
    → IsChunked p
    → parse_last_empty_chunk p buf ≡ some r
    → IsChunked r.parser
unfolding parse_last_empty_chunk
parse_last_empty_chunk-IsChunked p buf r c e = ground arith

parse_chunk-IsChunked :
    (p : HttpParser) (buf : MsgBuffer) (r : Parsed)
    → IsChunked p
    → (parse_chunk p buf >>= returns_state) ≡ some r
    → IsChunked r.parser
unfolding parse_chunk
parse_chunk-IsChunked p buf r c e = ground arith

refresh-IsChunked : (p : HttpParser) → IsChunked p → IsChunked (refresh p)
unfolding refresh
refresh-IsChunked p c = ground arith

dispatch-IsChunked :
    (split : ℕ → Bytes → List Bytes) (s : HttpParserState) (p : HttpParser) (buf : MsgBuffer)
    (r : Parsed)
    → IsChunkState s
    → IsChunked p
    → dispatch split s p buf ≡ some r
    → IsChunked r.parser
unfolding dispatch
dispatch-IsChunked split expect_chunk_len p buf r h c e = parse_chunk_len-IsChunked p buf r c e
dispatch-IsChunked split expect_chunk_body p buf r h c e = parse_chunk-IsChunked p buf r c e
dispatch-IsChunked split expect_last_empty_chunk p buf r h c e =
    parse_last_empty_chunk-IsChunked p buf r c e
dispatch-IsChunked split expect_chunk_complete p buf r h c e = ground arith
dispatch-IsChunked split expect_error p buf r h c e = ground arith
dispatch-IsChunked split _ p buf r h c e = absurd h

parse-IsChunked :
    (split : ℕ → Bytes → List Bytes) (p : HttpParser) (buf : MsgBuffer) (r : Parsed)
    → IsChunked p
    → parse split p buf ≡ some r
    → IsChunked r.parser
unfolding parse
parse-IsChunked split p buf r c e = elim (Bool-cases (readable_bytes buf == 0)) [
  | inl empty ↦ ground arith
  | inr full ↦
      let c' = refresh-IsChunked p c in
      dispatch-IsChunked split (refresh p).state (refresh p) buf r c'.state c' (rw full at e)
]

-- Once a message with chunks has begun, no segments that the parser gets through bring it back to
-- where it expects the header of the next message: it stays in the states of a chunked body.
pub parse_segments-IsChunked :
    (split : ℕ → Bytes → List Bytes) (bufs : List MsgBuffer) (p q : HttpParser)
    → IsChunked p
    → parse_segments split p bufs ≡ some q
    → IsChunked q
unfolding parse_segments
parse_segments-IsChunked split [] p q c e = ground arith
parse_segments-IsChunked split (buf ∷ bufs) p q c e = elim (Option-cases (parse split p buf)) [
  | inl fault ↦ absurd (ground arith)
  | inr (r, parsed) ↦
      parse_segments-IsChunked split bufs r.parser q (parse-IsChunked split p buf r c parsed)
        (rw parsed at e)
]
