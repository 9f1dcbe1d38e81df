-- ===== src/Http/Parser.antt =====
-- libhttp/http_parser.h and http_parser.cpp. `none` stands for what the source leaves undefined or
-- does not catch: an index past the end of a list, an allocation or a copy of a negative size.
pub mod Headers
pub mod Filling
pub mod Body
pub mod Chunk
pub mod Sticky
pub mod Dispatch
use clibmedia_transfer_proto.Common.{
  ◌>>=◌, ℕ, ◌+◌, ◌-◌, ◌*◌, ◌%◌, ◌^◌, ◌≡◌, Bool, true, false, not, ◌&&◌, ◌||◌, Option, none, some,
  List, [], ◌∷◌, ◌++◌, ◌==◌, leb, ltb, if◌then◌else◌, length, take, get_elem?,
}
use clibmedia_transfer_proto.Common.Int.{ℤ, pos, negsuc, sub_nat, add_nat, is_zero, lt_nat}
use clibmedia_transfer_proto.ByteIo.{Bytes}
use clibmedia_transfer_proto.Http.Search.{search, crlf_crlf}
use clibmedia_transfer_proto.Http.Text.{
  text, text_eq, lower, trim, split_first, strtol_hex, atoi, stoull, to_int32,
}
use clibmedia_transfer_proto.Http.Request.{
  HttpMethod, get, head, options, HttpRequest, new_request, add_header, get_header, set_query,
  parse_method, parse_version, set_path, set_status_code,
}
use clibmedia_transfer_proto.Http.MsgBuffer.{
  MsgBuffer, readable_bytes, readable, retrieve, retrieve_all, find_crlf,
}
use clibmedia_transfer_proto.Http.Packet.{
  Packet, new_packet, space, copy_size, add_bytes, set_packet_size,
}

pub data HttpParserState : Type 0 where
  expect_headers expect_normal_body expect_stream_body expect_http_complete : HttpParserState
  expect_chunk_len expect_chunk_body expect_chunk_complete expect_last_empty_chunk : HttpParserState
  expect_continue expect_error : HttpParserState

-- The two reasons that the parser gives.
pub data HttpStatusCode : Type 0 where
  unknown bad_request : HttpStatusCode

pub record HttpParser : Type 0 where
  pub state : HttpParserState
  pub current_chunk_length : ℤ
  pub current_content_length : ℤ
  pub is_stream : Bool
  pub is_chunked : Bool
  pub is_request : Bool
  pub reason : HttpStatusCode
  pub header : Bytes
  pub chunk : Option Packet
  pub req : Option HttpRequest

-- `kHttpMaxBodySize`
abbrev pub http_max_body_size : ℕ
http_max_body_size = 64 * 1024

unfoldable pub new_parser : HttpParser
new_parser = record {
  state = expect_headers;
  current_chunk_length = pos 0;
  current_content_length = pos 0;
  is_stream = false;
  is_chunked = false;
  is_request = true;
  reason = unknown;
  header = [];
  chunk = none;
  req = none;
}

-- What a call of `Parse` leaves, and the state that it returns.
pub record Parsed : Type 0 where
  pub parser : HttpParser
  pub buf : MsgBuffer
  pub result : HttpParserState

-- The break of the `switch`: `Parse` returns the state it leaves.
abbrev pub returns_state : HttpParser × MsgBuffer → Option Parsed
returns_state (p, buf) = some (record { parser = p; buf = buf; result = p.state })

unfoldable pub clear_for_next_http : HttpParser → HttpParser
clear_for_next_http p = record p {
  state = expect_headers;
  header = [];
  req = none;
  current_content_length = negsuc 0;
  chunk = none;
}

unfoldable pub clear_for_next_chunk : HttpParser → HttpParser
clear_for_next_chunk p =
    if p.is_chunked
    then record p { state = expect_chunk_len; current_chunk_length = negsuc 0; chunk = none }
    else if p.is_stream
    then record p { state = expect_stream_body; chunk = none }
    else record p { state = expect_headers; current_chunk_length = negsuc 0; chunk = none }

abbrev pub current_packet : Option Packet → ℤ → Option Packet
current_packet none length' = new_packet length'
current_packet (some c) length' = some c

-- The copy that the three bodies share: the packet, with as much of the buffer as fits it, the
-- number of bytes copied, and the buffer without them.
unfoldable pub fill_packet : Packet → MsgBuffer → Option (Packet × ℕ × MsgBuffer)
fill_packet c buf = do
  size ← copy_size (readable_bytes buf) c
  c' ← add_bytes (take size (readable buf)) c
  some (c', size, retrieve buf size)

unfoldable pub parse_stream : HttpParser → MsgBuffer → Option (HttpParser × MsgBuffer)
unfolding fill_packet
parse_stream p buf = do
  c ← current_packet p.chunk (pos http_max_body_size)
  (c', size, buf') ← fill_packet c buf
  some (
    record p {
      chunk = some c';
      state = if is_zero (space c') then expect_chunk_complete else p.state;
    },
    buf',
  )

unfoldable pub parse_normal_body : HttpParser → MsgBuffer → Option (HttpParser × MsgBuffer)
unfolding fill_packet
parse_normal_body p buf = do
  c ← current_packet p.chunk p.current_content_length
  (c', size, buf') ← fill_packet c buf
  let left = sub_nat p.current_content_length size
  some (
    record p {
      chunk = some c';
      current_content_length = left;
      state = if is_zero left then expect_http_complete else p.state;
    },
    buf',
  )

-- A complete chunk gives up the CR LF at its end: `PacketSize() - 2`, as a size_t.
unfoldable pub parse_chunk : HttpParser → MsgBuffer → Option (HttpParser × MsgBuffer)
unfolding fill_packet
parse_chunk p buf = do
  c ← current_packet p.chunk p.current_chunk_length
  (c', size, buf') ← fill_packet c buf
  let left = sub_nat p.current_chunk_length size
  let complete = is_zero left || is_zero (space c')
  some (
    record p {
      chunk = some (if complete then set_packet_size (c'.size + 2 ^ 64 - 2) c' else c');
      current_chunk_length = left;
      state = if complete then expect_chunk_complete else p.state;
    },
    buf',
  )

unfoldable pub bad_request_error : HttpParser → HttpParser
bad_request_error p = record p { reason = bad_request; state = expect_error }
