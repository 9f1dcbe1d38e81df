-- ===== src/Mpeg/Stream.antt =====
-- The loop of `parse` on whole packets, and on a packet of video whose end is still to come.
use clibmedia_transfer_proto.Common.{
  ℕ, suc, ◌+◌, ◌*◌, ◌-◌, ◌≤◌, ◌<◌, ◌≡◌, refl, sym, ap, ap₂, ◌∙◌, some, List, [], ◌∷◌, ◌++◌, arith,
  length, All, append_assoc, append-nil, length-append, lt→ltb,
}
use clibmedia_transfer_proto.ByteIo.{Bytes, write_big_endian}
use clibmedia_transfer_proto.ByteIo.RoundTrip.{length-write_big_endian}
use clibmedia_transfer_proto.Mpeg.{MpegDecoder, Event, next, flush, round, parse_loop, loop_from}
use clibmedia_transfer_proto.Mpeg.Packets.{
  PsPacket, pack, skipped, video, audio, pes_front, written, written_all, IsPacket, starts_picture,
  receive_packet, receive_packets, HasRoom,
}
use clibmedia_transfer_proto.Mpeg.Front.{length-pes_front}
use clibmedia_transfer_proto.Mpeg.Whole.{round-video, flush-le}
use clibmedia_transfer_proto.Mpeg.Others.{round-audio, round-skipped, round-pack}

round-written :
    (p : PsPacket) (ps : List PsPacket) (rest : Bytes) (d : MpegDecoder)
    → IsPacket p
    → HasRoom d (p ∷ ps)
    → round (written p ++ rest) d ≡ some (next rest (receive_packet d p).0 (receive_packet d p).1)
unfolding receive_packet
round-written (pack clock reserved stuffing) ps rest d ok room =
    round-pack clock reserved stuffing rest d ok.0 ok.2
round-written (skipped stream_id body) ps rest d ok room = round-skipped stream_id body rest d ok
round-written (video mark flags header payload) ps rest d ok room =
    round-video mark flags header payload rest d ok.0 ok.1 ok.2 (omega arith)
round-written (audio mark flags header payload) ps rest d ok room =
    round-audio mark flags header payload rest d ok.0 ok.1

-- Room for a list of packets leaves room for the others once the first is taken in.
pub receive_packet-HasRoom :
    (p : PsPacket) (ps : List PsPacket) (d : MpegDecoder)
    → HasRoom d (p ∷ ps)
    → HasRoom (receive_packet d p).0 ps
unfolding receive_packet
receive_packet-HasRoom (pack clock reserved stuffing) ps d room = room
receive_packet-HasRoom (skipped stream_id body) ps d room = room
receive_packet-HasRoom (video mark flags header payload) ps d room = omega (
  arith,
  room,
  flush-le (starts_picture payload d) d,
  length-append (flush (starts_picture payload d) d).0.byte_stream payload,
)
receive_packet-HasRoom (audio mark flags header payload) ps d room = room

written_long : (p : PsPacket) → IsPacket p → 4 < length (written p)
written_long (pack clock reserved stuffing) ok =
    omega (arith, ok.0, length-append clock ((reserved * 8 + length stuffing) ∷ stuffing))
written_long (skipped stream_id body) ok = omega (
  arith,
  length-append (write_big_endian 2 (length body)) body,
  length-write_big_endian 2 (length body),
)
written_long (video mark flags header payload) ok = omega (
  arith,
  length-append (pes_front 0xE0 mark flags header (length payload)) payload,
  length-pes_front 0xE0 mark flags header (length payload),
)
written_long (audio mark flags header payload) ok = omega (
  arith,
  length-append (pes_front 0xC0 mark flags header (length payload)) payload,
  length-pes_front 0xC0 mark flags header (length payload),
)

pub length-written_all :
    (ps : List PsPacket) → All IsPacket ps → length ps ≤ length (written_all ps)
length-written_all [] a = omega arith
length-written_all (p ∷ ps) a = omega (
  arith,
  written_long p a.0,
  length-written_all ps a.1,
  length-append (written p) (written_all ps),
)

-- Whole packets are taken in one by one.
parse_loop-written_all :
    (ps : List PsPacket) (fuel : ℕ) (rest : Bytes) (d : MpegDecoder) (events : List Event)
    → All IsPacket ps
    → HasRoom d ps
    → parse_loop (length ps + fuel) (written_all ps ++ rest) d events
      ≡ parse_loop fuel rest (receive_packets d ps).0 (events ++ (receive_packets d ps).1)
unfolding parse_loop receive_packets
parse_loop-written_all [] fuel rest d events a room =
    ap₂ (λ t u. parse_loop t rest d u) (omega arith) (sym (append-nil events))
parse_loop-written_all (p ∷ ps) fuel rest d events a room =
    rw (one_more, append_assoc (written p) (written_all ps) rest)
      (one_round
        ∙ parse_loop-written_all ps fuel rest d' (events ++ (receive_packet d p).1) a.1
            (receive_packet-HasRoom p ps d room)
        ∙ ap (parse_loop fuel rest (receive_packets d' ps).0)
            (append_assoc events (receive_packet d p).1 (receive_packets d' ps).1))
  where
    d' : MpegDecoder
    d' = (receive_packet d p).0

    one_more : length (p ∷ ps) + fuel ≡ suc (length ps + fuel)
    one_more = omega arith

    one_round :
        parse_loop (suc (length ps + fuel)) (written p ++ (written_all ps ++ rest)) d events
        ≡ parse_loop
            (length ps + fuel)
            (written_all ps ++ rest)
            d'
            (events ++ (receive_packet d p).1)
    one_round =
        rw
          (
            parse_loop,
            lt→ltb 4 (length (written p ++ (written_all ps ++ rest))) (
                omega
                  (arith, written_long p a.0, length-append (written p) (written_all ps ++ rest))),
            round-written p ps (written_all ps ++ rest) d a.0 room,
          )
          refl

-- The whole loop, up to what follows the whole packets.
pub loop_from-written_all :
    (ps : List PsPacket) (rest : Bytes) (d : MpegDecoder)
    → All IsPacket ps
    → HasRoom d ps
    → (fuel : ℕ) × (loop_from (written_all ps ++ rest) d
        ≡ parse_loop (suc fuel) rest (receive_packets d ps).0 (receive_packets d ps).1)
loop_from-written_all ps rest d a room = (
  k,
  ap (λ t. parse_loop t (written_all ps ++ rest) d []) enough
      ∙ parse_loop-written_all ps (suc k) rest d [] a room,
)
  where
    k : ℕ
    k = length (written_all ps ++ rest) - length ps

    enough : suc (length (written_all ps ++ rest)) ≡ length ps + suc k
    enough = omega (arith, length-written_all ps a, length-append (written_all ps) rest)
