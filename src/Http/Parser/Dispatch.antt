-- ===== src/Http/Parser/Dispatch.antt =====
-- libhttp/http_parser.cpp: the cases of `Parse`.
use clibmedia_transfer_proto.Common.{
  ◌>>=◌, ℕ, ◌+◌, ◌-◌, ◌^◌, ◌*◌, ◌≡◌, ◌≢◌, ◌<◌, arith, Option, none, some, List, ◌==◌, ltb,
  if◌then◌else◌, length, take,
}
use clibmedia_transfer_proto.Common.Int.{ℤ, add_nat, is_zero, lt_nat}
use clibmedia_transfer_proto.ByteIo.{Bytes}
use clibmedia_transfer_proto.Http.Search.{search, crlf_crlf}
use clibmedia_transfer_proto.Http.Text.{strtol_hex}
use clibmedia_transfer_proto.Http.MsgBuffer.{
  MsgBuffer, readable_bytes, readable, retrieve, retrieve_all, find_crlf,
}
use clibmedia_transfer_proto.Http.Parser.{
  HttpParserState, expect_headers, expect_normal_body, expect_stream_body, expect_http_complete,
  expect_chunk_len, expect_chunk_body, expect_chunk_complete, expect_last_empty_chunk,
  expect_continue, HttpParser, Parsed, http_max_body_size, returns_state, bad_request_error,
  clear_for_next_http, clear_for_next_chunk, parse_normal_body, parse_stream, parse_chunk,
}
use clibmedia_transfer_proto.Http.Parser.Headers.{parse_headers}

-- The header is complete: what follows it stays in the buffer.
take_header : (ℕ → Bytes → List Bytes) → ℕ → HttpParser → MsgBuffer → Option Parsed
unfolding parse_headers
take_header split size p buf = do
  p' ← parse_headers split (record p { header = take size (readable buf) })
  returns_state (p', retrieve buf (size + 4))

unfoldable pub parse_expect_headers :
    (ℕ → Bytes → List Bytes) → HttpParser → MsgBuffer → Option Parsed
unfolding take_header bad_request_error
parse_expect_headers split p buf =
    if ltb (length crlf_crlf) (readable_bytes buf)
    then elim (search crlf_crlf (readable buf)) [
      | some size ↦ take_header split size p buf
      | none ↦
          if ltb http_max_body_size (readable_bytes buf)
          then returns_state (bad_request_error p, buf)
          else some (record { parser = p; buf = buf; result = expect_continue })
    ]
    else some (record { parser = p; buf = buf; result = expect_continue })

-- The length of a chunk, its digits cut off at the line end. The state set for a chunk that is too
-- long is overwritten. `none` is an int32_t that overflows.
unfoldable pub set_chunk_length : ℤ → HttpParser → Option HttpParser
unfolding bad_request_error
set_chunk_length length' p =
    let p' = if lt_nat (1024 * 1024) length' then bad_request_error p else p in
    if is_zero length'
    then some (record p' { current_chunk_length = length'; state = expect_last_empty_chunk })
    else if lt_nat (2 ^ 31 - 3) length'
    then none
    else some (record p' { current_chunk_length = add_nat length' 2; state = expect_chunk_body })

unfoldable pub parse_chunk_len : HttpParser → MsgBuffer → Option Parsed
unfolding set_chunk_length bad_request_error
parse_chunk_len p buf = elim (find_crlf buf) [
  | some at' ↦ set_chunk_length (strtol_hex (take at' (readable buf))) p >>= λ p'.
      returns_state (p', retrieve buf (at' + 2))
  | none ↦
      if ltb 32 (readable_bytes buf)
      then returns_state (bad_request_error p, retrieve_all buf)
      else returns_state (p, buf)
]

unfoldable pub parse_last_empty_chunk : HttpParser → MsgBuffer → Option Parsed
parse_last_empty_chunk p buf = elim (find_crlf buf) [
  | some at' ↦
      returns_state
        (record p { chunk = none; state = expect_chunk_complete }, retrieve buf (at' + 2))
  | none ↦ returns_state (p, buf)
]

-- The `switch` of `Parse`.
unfoldable pub dispatch :
    (ℕ → Bytes → List Bytes) → HttpParserState → HttpParser → MsgBuffer → Option Parsed
dispatch split expect_headers p buf = parse_expect_headers split p buf
dispatch split expect_normal_body p buf = do r ← parse_normal_body p buf; returns_state r
dispatch split expect_stream_body p buf = do r ← parse_stream p buf; returns_state r
dispatch split expect_chunk_len p buf = parse_chunk_len p buf
dispatch split expect_chunk_body p buf = do r ← parse_chunk p buf; returns_state r
dispatch split expect_last_empty_chunk p buf = parse_last_empty_chunk p buf
dispatch split other p buf = returns_state (p, buf)

-- A parser that has completed something is made ready for what comes next.
unfoldable pub refresh : HttpParser → HttpParser
unfolding clear_for_next_http clear_for_next_chunk
refresh p = elim p.state [
  | expect_http_complete ↦ clear_for_next_http p
  | expect_chunk_complete ↦ clear_for_next_chunk p
  | _ ↦ p
]

-- `HttpParser::Parse`
unfoldable pub parse : (ℕ → Bytes → List Bytes) → HttpParser → MsgBuffer → Option Parsed
parse split p buf =
    if readable_bytes buf == 0
    then returns_state (p, buf)
    else dispatch split (refresh p).state (refresh p) buf

pub parse-dispatch :
    (split : ℕ → Bytes → List Bytes) (p : HttpParser) (buf : MsgBuffer)
    → 0 < readable_bytes buf
    → parse split p buf ≡ dispatch split (refresh p).state (refresh p) buf
unfolding parse
parse-dispatch split p buf h = ground arith

pub refresh-open :
    (p : HttpParser)
    → p.state ≢ expect_http_complete
    → p.state ≢ expect_chunk_complete
    → refresh p ≡ p
unfolding refresh
refresh-open p h h' = ground arith
