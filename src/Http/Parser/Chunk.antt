-- ===== src/Http/Parser/Chunk.antt =====
-- Chunked bodies: one chunk, a chunk that is too long, and what comes after the last one.
use clibmedia_transfer_proto.Common.{
  ◌>>=◌, ℕ, ◌+◌, ◌-◌, ◌%◌, ◌^◌, ◌<◌, ◌≡◌, refl, sym, ap, ◌∙◌, none, some, List, ◌++◌, min, arith,
  length, take, drop, take-all, length-append, append_assoc, take-append_eq, drop-append_eq, lt→ltb,
  le→leb,
}
use clibmedia_transfer_proto.Common.Int.{pos, sub_nat}
use clibmedia_transfer_proto.ByteIo.{Bytes}
use clibmedia_transfer_proto.Http.Search.{crlf}
use clibmedia_transfer_proto.Http.MsgBuffer.{MsgBuffer, readable_bytes, readable, retrieve}
use clibmedia_transfer_proto.Http.MsgBuffer.View.{IsValid, length-readable}
use clibmedia_transfer_proto.Http.MsgBuffer.Retrieve.{retrieve-readable}
use clibmedia_transfer_proto.Http.Packet.{Packet, new_packet, holds_size, payload, set_packet_size}
use clibmedia_transfer_proto.Http.Parser.{
  HttpParser, Parsed, expect_chunk_body, expect_chunk_complete, parse_chunk, fill_packet,
  returns_state,
}
use clibmedia_transfer_proto.Http.Parser.Filling.{
  IsFilling, new_packet-IsFilling, fill_packet-IsFilling,
}
use clibmedia_transfer_proto.Http.Parser.Dispatch.{parse, dispatch, refresh-open, parse-dispatch}

-- The parser in front of a chunk of `n` bytes and its line end.
abbrev pub expects_chunk : HttpParser → ℕ → HttpParser
expects_chunk p n = record p {
  state = expect_chunk_body;
  current_chunk_length = pos (n + 2);
  chunk = none;
}

-- The last two bytes of a full packet are given up.
payload-trimmed :
    (c : Packet) (data' : Bytes) (n : ℕ)
    → IsFilling c (data' ++ crlf) (n + 2)
    → length data' ≡ n
    → n + 2 < 2 ^ 31
    → payload (set_packet_size (c.size + 2 ^ 64 - 2) c) ≡ some data'
unfolding payload holds_size set_packet_size
payload-trimmed c data' n f l few =
    let size = (c.size + 2 ^ 64 - 2) % 2 ^ 32 in
    let less : size ≡ n = omega (arith, f.sized, f.small, l, length-append data' crlf) in
    let fits = lt→ltb size (2 ^ 31) (omega (arith, less, few)) in
    let there = le→leb size (length c.content) (omega (arith, less, f.block)) in
    rw (payload, holds_size, fits, there)
      (ap some (ap (take size) whole ∙ take-append_eq size data' crlf (omega (arith, less, l))))
  where
    whole : c.content ≡ data' ++ crlf
    whole =
        sym (take-all c.size c.content (omega (arith, f.sized, f.block, length-append data' crlf)))
        ∙ f.holds

abbrev trimmed : Packet → Packet
trimmed c = set_packet_size (c.size + 2 ^ 64 - 2) c

abbrev chunk_complete : HttpParser → Packet → HttpParser
chunk_complete p c = record p {
  chunk = some (trimmed c);
  current_chunk_length = pos 0;
  state = expect_chunk_complete;
}

parse_chunk_complete :
    (p : HttpParser) (buf after : MsgBuffer) (c c' : Packet) (n : ℕ)
    → new_packet (pos (n + 2)) ≡ some c
    → fill_packet c buf ≡ some (c', n + 2, after)
    → parse_chunk (expects_chunk p n) buf ≡ some (chunk_complete p c', after)
unfolding parse_chunk
parse_chunk_complete p buf after c c' n made filled =
    let none_left : sub_nat (pos (n + 2)) (n + 2) ≡ pos 0 = ground arith in
    rw (made, filled, none_left, parse_chunk)

parse-expect_chunk_body :
    (split : ℕ → Bytes → List Bytes) (p : HttpParser) (buf : MsgBuffer)
    → p.state ≡ expect_chunk_body
    → 0 < readable_bytes buf
    → parse split p buf ≡ (parse_chunk p buf >>= returns_state)
parse-expect_chunk_body split p buf e h =
    parse-dispatch split p buf h
    ∙ rw (refresh-open p (λ e'. cc) (λ e'. cc), e) (unfold dispatch in refl)

-- A chunk whose bytes and line end are all there, in a buffer of fewer than 2^31 bytes, is handed
-- out without the line end, and what follows it stays in the buffer.
pub parse-chunk :
    (split : ℕ → Bytes → List Bytes) (p : HttpParser) (buf : MsgBuffer) (data' rest : Bytes)
    → IsValid buf
    → readable buf ≡ data' ++ (crlf ++ rest)
    → length (readable buf) < 2 ^ 31
    → (r : Parsed) × (c : Packet) × (parse split (expects_chunk p (length data')) buf ≡ some r)
      × (r.result ≡ expect_chunk_complete)
      × (r.parser.chunk ≡ some c)
      × (payload c ≡ some data')
      × IsValid r.buf
      × (readable r.buf ≡ rest)
parse-chunk split p buf data' rest v e few =
    let n = length data' in
    let small : n + 2 < 2 ^ 31 =
      omega
        (arith, few, ap length e, length-append data' (crlf ++ rest), length-append crlf rest) in
    let (c, made, f) = new_packet-IsFilling (n + 2) small in
    let (c', filled, f') = fill_packet-IsFilling buf v few f in
    let size = length-append data' (crlf ++ rest) in
    let size' = length-append crlf rest in
    let m_eq : min (length (readable buf)) (n + 2 - 0) ≡ n + 2 = omega (arith, ap length e) in
    let taken : take (n + 2) (readable buf) ≡ data' ++ crlf =
      ap (take (n + 2)) (e ∙ sym (append_assoc data' crlf rest))
      ∙ take-append_eq (n + 2) (data' ++ crlf) rest (omega (arith, length-append data' crlf)) in
    let f'' : IsFilling c' (data' ++ crlf) (n + 2) = rw (m_eq, taken) at f' in
    let (v', s) = retrieve-readable buf (n + 2) v in
    (
      record {
        parser = chunk_complete p c';
        buf = retrieve buf (n + 2);
        result = expect_chunk_complete;
      },
      trimmed c',
      parse-expect_chunk_body split (expects_chunk p n) buf refl
            (omega (arith, ap length e, length-readable buf v))
          ∙ rw (parse_chunk_complete p buf (retrieve buf (n + 2)) c c' n made (rw m_eq at filled))
              refl,
      refl,
      refl,
      payload-trimmed c' data' n f'' refl small,
      v',
      s
          ∙ ap (drop (n + 2)) (e ∙ sym (append_assoc data' crlf rest))
          ∙ drop-append_eq (n + 2) (data' ++ crlf) rest (omega (arith, length-append data' crlf)),
    )
