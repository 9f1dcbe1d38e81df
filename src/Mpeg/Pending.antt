-- ===== src/Mpeg/Pending.antt =====
-- One piece of a stream: the end of a payload that is waited for, whole packets, and a payload cut.
use clibmedia_transfer_proto.Common.{
  ℕ, zero, suc, ◌+◌, ◌≤◌, ◌<◌, ◌≡◌, refl, sym, ap, ◌∙◌, List, [], ◌∷◌, ◌++◌, arith, length, All,
  append-nil, length-append, lt→ltb, le→ltb, take-append_eq, drop-append_eq,
}
use clibmedia_transfer_proto.Common.Int.{pos, sub_ℕ}
use clibmedia_transfer_proto.ByteIo.{Bytes}
use clibmedia_transfer_proto.Mpeg.{
  MpegDecoder, parse_loop, returns, byte_stream_capacity, loop_from, parse, continue_payload,
}
use clibmedia_transfer_proto.Mpeg.Packets.{
  PsPacket, video, pes_front, written_all, IsPacket, receive_packet, receive_packets, video_size,
  HasRoom,
}
use clibmedia_transfer_proto.Mpeg.Whole.{append_stream-room, round-video_part}
use clibmedia_transfer_proto.Mpeg.Stream.{loop_from-written_all}
use clibmedia_transfer_proto.Mpeg.Front.{length-pes_front}

-- A decoder that waits for some bytes, and one that has been given them.
abbrev pub waiting : Bytes → MpegDecoder → MpegDecoder
waiting missing d = record d { read_byte = pos (length missing) }

abbrev pub continued : Bytes → MpegDecoder → MpegDecoder
continued missing d = record d { byte_stream = d.byte_stream ++ missing; read_byte = pos 0 }

abbrev pub Room : Bytes → List PsPacket → MpegDecoder → Type 0
Room missing ps d = length d.byte_stream + (length missing + video_size ps) ≤ byte_stream_capacity

parse-continue_payload :
    (n : ℕ) (data' : Bytes) (d : MpegDecoder)
    → 0 < n
    → parse (record d { read_byte = pos n }) data'
      ≡ continue_payload n data' (record d { read_byte = pos n })
unfolding parse
parse-continue_payload zero data' d h = absurd (omega arith)
parse-continue_payload (suc n) data' d h = refl

-- The missing bytes are taken in, and the loop goes on with what follows them.
pub parse-continue :
    (missing tail : Bytes) (d : MpegDecoder)
    → length d.byte_stream + length missing ≤ byte_stream_capacity
    → parse (waiting missing d) (missing ++ tail) ≡ loop_from tail (continued missing d)
unfolding continue_payload
parse-continue [] tail d room =
    unfold parse in
    ap (λ t. loop_from tail (record d { byte_stream = t; read_byte = pos 0 }))
      (sym (append-nil d.byte_stream))
parse-continue (b ∷ bs) tail d room =
    parse-continue_payload (length (b ∷ bs)) ((b ∷ bs) ++ tail) d (omega arith)
    ∙ rw
        (
          continue_payload,
          le→ltb (length (b ∷ (bs ++ tail))) (length (b ∷ bs))
              (omega (arith, length-append bs tail)),
          take-append_eq (length (b ∷ bs)) (b ∷ bs) tail refl,
          append_stream-room (b ∷ bs) (waiting (b ∷ bs) d) room,
          drop-append_eq (length (b ∷ bs)) (b ∷ bs) tail refl,
        )
        refl

-- A piece of the missing bytes is added to them.
pub parse-inside :
    (seg missing : Bytes) (d : MpegDecoder)
    → 0 < length missing
    → length d.byte_stream + (length seg + length missing) ≤ byte_stream_capacity
    → parse (waiting (seg ++ missing) d) seg
      ≡ returns (pos 0) (waiting missing (record d { byte_stream = d.byte_stream ++ seg })) []
unfolding continue_payload
parse-inside seg missing d more room =
    parse-continue_payload (length (seg ++ missing)) seg d (omega (arith, more, size))
    ∙ rw
        (
          continue_payload,
          lt→ltb (length seg) (length (seg ++ missing)) (omega (arith, more, size)),
          append_stream-room seg (waiting (seg ++ missing) d) (omega (arith, room)),
        )
        (ap
          (λ t. returns (pos 0) (record d { byte_stream = d.byte_stream ++ seg; read_byte = t }) [])
          left)
  where
    size : length (seg ++ missing) ≡ length seg + length missing
    size = length-append seg missing

    left : sub_ℕ (length (seg ++ missing)) (length seg) ≡ pos (length missing)
    left = ground (arith, size)

-- What follows the missing bytes, up to the end of the whole packets in it.
pub loop-whole :
    (qs : List PsPacket) (d : MpegDecoder)
    → All IsPacket qs
    → HasRoom d qs
    → loop_from (written_all qs ++ []) d
      ≡ returns (pos 0) (receive_packets d qs).0 (receive_packets d qs).1
loop-whole qs d a room =
    let (fuel, looped) = loop_from-written_all qs [] d a room in looped ∙ unfold parse_loop in refl

pub loop-cut :
    (qs : List PsPacket) (mark flags : ℕ) (header seg later : Bytes) (d : MpegDecoder)
    → All IsPacket qs
    → IsPacket (video mark flags header (seg ++ later))
    → 4 ≤ length seg
    → 0 < length later
    → HasRoom d qs
    → HasRoom (receive_packets d qs).0 (video mark flags header (seg ++ later) ∷ [])
    → let (d', events) = receive_packet (receive_packets d qs).0 (video mark flags header seg) in
      loop_from
        (written_all qs ++ (pes_front 0xE0 mark flags header (length (seg ++ later)) ++ seg))
        d
      ≡ returns (pos 0) (waiting later d') ((receive_packets d qs).1 ++ events)
unfolding receive_packet parse_loop
loop-cut qs mark flags header seg later d a ok long more room more_room =
    let (fuel, looped) =
      loop_from-written_all qs (pes_front 0xE0 mark flags header n ++ seg) d a room in
    looped
    ∙ rw
        (
          parse_loop,
          lt→ltb 4 (length (pes_front 0xE0 mark flags header n ++ seg)) (
              omega (
                arith,
                length-append (pes_front 0xE0 mark flags header n) seg,
                length-pes_front 0xE0 mark flags header n,
              )),
          round-video_part mark flags header seg [] (receive_packets d qs).0 ok.0 long n
              (omega (arith, more, size)) ok.2 (omega (arith, more_room, size)),
        )
        (ap
          (λ t.
            returns (pos 0)
              (record (receive_packet (receive_packets d qs).0 (video mark flags header seg)).0 {
                read_byte = t;
              })
              ((receive_packets d qs).1
                ++ (receive_packet (receive_packets d qs).0 (video mark flags header seg)).1))
          left)
  where
    n : ℕ
    n = length (seg ++ later)

    size : n ≡ length seg + length later
    size = length-append seg later

    left : sub_ℕ (3 + length header + n) (3 + length header + length seg) ≡ pos (length later)
    left = ground (arith, size)
