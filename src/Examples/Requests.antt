-- ===== src/Examples/Requests.antt =====
-- Header fields and the parser on concrete inputs.
use clibmedia_transfer_proto.Common.{
  ◌+◌, ◌≡◌, refl, some, [], ◌∷◌, ◌++◌, arith, length, replicate, true,
}
use clibmedia_transfer_proto.Common.Int.{pos}
use clibmedia_transfer_proto.ByteIo.{Bytes}
use clibmedia_transfer_proto.Examples.Splitting.{split}
use clibmedia_transfer_proto.Http.Search.{crlf}
use clibmedia_transfer_proto.Http.Text.{text, strtol_hex}
use clibmedia_transfer_proto.Http.MsgBuffer.{MsgBuffer, readable, find_crlf, readable_bytes}
use clibmedia_transfer_proto.Http.MsgBuffer.View.{IsValid}
use clibmedia_transfer_proto.Http.Packet.{Packet, payload}
use clibmedia_transfer_proto.Http.Parser.{
  HttpParser, Parsed, new_parser, expect_chunk_len, expect_chunk_body, expect_chunk_complete,
}
use clibmedia_transfer_proto.Http.Parser.Dispatch.{parse, dispatch, refresh, parse_chunk_len}
use clibmedia_transfer_proto.Http.Parser.Body.{
  IsComplete, expects_body, parse_segments, all_readable, parse_segments-body,
}
use clibmedia_transfer_proto.Http.Parser.Chunk.{expects_chunk, parse-chunk}
use clibmedia_transfer_proto.Http.Parser.Sticky.{IsChunked, parse_segments-IsChunked}

-- A buffer with room for eight bytes in front, and these bytes in use.
abbrev holding : Bytes → MsgBuffer
holding bytes = record {
  head = 8;
  init_cap = 8;
  buffer = replicate 8 0 ++ bytes;
  tail = 8 + length bytes;
}

holding-IsValid : (bytes : Bytes) → IsValid (holding bytes)
holding-IsValid bytes = record {
  ordered = omega arith;
  inside = omega arith;
  offset = omega arith;
  roomy = omega arith;
}

parse_segments-body_example :
    (q : HttpParser) × (parse_segments split
        (expects_body new_parser 7)
        (holding (text "hello") ∷ holding (text "wo") ∷ [])
      ≡ some q)
    × IsComplete q (all_readable (holding (text "hello") ∷ holding (text "wo") ∷ []))
parse_segments-body_example =
    parse_segments-body split new_parser 7 (holding (text "hello") ∷ holding (text "wo") ∷ [])
      (omega arith) (omega arith)
      (
        (holding-IsValid (text "hello"), unfold readable in omega arith),
        ((holding-IsValid (text "wo"), unfold readable in omega arith), tt),
      )
      (unfold readable in refl)

parse-chunk_example :
    (r : Parsed) × (c : Packet) × (parse split
        (expects_chunk new_parser (length (text "hello")))
        (holding (text "hello" ++ (crlf ++ text "0")))
      ≡ some r)
    × (r.result ≡ expect_chunk_complete)
    × (r.parser.chunk ≡ some c)
    × (payload c ≡ some (text "hello"))
    × IsValid r.buf
    × (readable r.buf ≡ text "0")
unfolding readable
parse-chunk_example =
    parse-chunk split new_parser (holding (text "hello" ++ (crlf ++ text "0"))) (text "hello")
      (text "0") (holding-IsValid (text "hello" ++ (crlf ++ text "0"))) (unfold readable in refl)
      (omega arith)

abbrev chunk_parser : HttpParser
chunk_parser = record new_parser { is_chunked = true; state = expect_chunk_len }

parse_segments-IsChunked_example :
    IsChunked (record chunk_parser { state = expect_chunk_body; current_chunk_length = pos 7 })
parse_segments-IsChunked_example =
    parse_segments-IsChunked split (holding (text "5" ++ crlf) ∷ []) chunk_parser
      (record chunk_parser { state = expect_chunk_body; current_chunk_length = pos 7 })
      (record { chunked = refl; state = tt })
      (unfold parse_segments parse dispatch refresh parse_chunk_len strtol_hex readable_bytes
          find_crlf in
        refl)
