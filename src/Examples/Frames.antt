-- ===== src/Examples/Frames.antt =====
-- Frames of an RTSP connection on concrete bytes.
use clibmedia_transfer_proto.Common.{
  ◌≡◌, refl, inl, inr, false, Option, none, some, List, [], ◌∷◌, ◌++◌, ltb, if◌then◌else◌, length,
  arith,
}
use clibmedia_transfer_proto.ByteIo.{Bytes, write_big_endian, read_big_endian}
use clibmedia_transfer_proto.Gb28181.{is_rtp_packet}
use clibmedia_transfer_proto.Rtsp.{
  RtpPacket, RtpParsers, returns, reply, fault, running, init_decoder, rtp_packet, is_rtcp_packet,
  on_read, read_loop, round, interleaved, plain,
}
use clibmedia_transfer_proto.Rtsp.Frames.{
  Frame, IsFrame, frame_front, written, media_all, signals, ready_after,
}
use clibmedia_transfer_proto.Rtsp.Interleaved.{session}
use clibmedia_transfer_proto.Rtsp.Segments.{
  Segments, finished, whole, cut, read_all, read_all-Segments,
}
use clibmedia_transfer_proto.Rtsp.Stuck.{read_loop-Refused}

-- Parsers that take a packet's second byte for its type, and refuse what is shorter than 13 bytes.
abbrev pub parse_rtp : Bytes → Option RtpPacket
parse_rtp (a ∷ t ∷ rest) =
    if ltb (length rest) 11
    then none
    else some (record { payload_type = t; ssrc = 7; size = length (a ∷ t ∷ rest) })
parse_rtp short = none

abbrev pub parsers : RtpParsers
parsers = record { parse_rtp = parse_rtp; parse_rtcp = λ d. some (length d) }

abbrev pub media_front : Bytes
media_front = 128 ∷ 96 ∷ 0 ∷ 1 ∷ 0 ∷ 0 ∷ 0 ∷ 9 ∷ 0 ∷ 0 ∷ 0 ∷ 7 ∷ []

abbrev pub media_end : Bytes
media_end = 0x65 ∷ 1 ∷ []

abbrev pub report : Frame
report = record { channel = 1; payload = 128 ∷ 200 ∷ 0 ∷ 0 ∷ [] }

abbrev pub picture : Frame
picture = record { channel = 0; payload = media_front ++ media_end }

abbrev stream : List Frame
stream = (report ∷ []) ++ (picture ∷ ((report ∷ picture ∷ []) ++ []))

abbrev pieces : List (List Bytes)
pieces =
    ((36 ∷ 1 ∷ 0 ∷ []) ∷ (4 ∷ []) ∷ (report.payload ++ (frame_front 0 14 ++ media_front)) ∷ [])
    ∷ (media_end ∷ (written report ++ written picture) ∷ [])
    ∷ []

arriving : Segments [] stream pieces
unfolding write_big_endian
arriving =
    cut [] (report ∷ []) 0 media_front media_end ((report ∷ picture ∷ []) ++ []) _ _ (omega arith)
      ((omega arith, (omega arith, (omega arith, tt))), omega arith) refl
      (whole (frame_front 0 14 ++ media_front) (picture ∷ report ∷ picture ∷ []) [] _ _
        ((omega arith, (omega arith, tt)), omega arith) refl finished)

pub report-IsFrame : IsFrame parsers report
unfolding is_rtp_packet is_rtcp_packet
report-IsFrame = (omega arith, inr (refl, refl, (4, refl)))

pub picture-IsFrame : IsFrame parsers picture
unfolding is_rtp_packet
picture-IsFrame = (omega arith, inl (refl, (_, refl)))

read_all-Segments_example :
    read_all parsers (session [] false) pieces
    ≡ returns
        (session [] (ready_after false (media_all parsers stream)))
        (signals false (media_all parsers stream))
read_all-Segments_example =
    read_all-Segments parsers false [] stream pieces arriving
      (report-IsFrame, (picture-IsFrame, (report-IsFrame, (picture-IsFrame, tt))))

-- The two pictures, behind the one initialisation.
seen :
    signals false (media_all parsers stream)
    ≡ init_decoder 7
      ∷ rtp_packet (record { payload_type = 96; ssrc = 7; size = 14 })
      ∷ rtp_packet (record { payload_type = 96; ssrc = 7; size = 14 })
      ∷ []
unfolding signals media_all is_rtp_packet
seen = refl

read_loop-Refused_example : read_loop parsers 1000 (session [] false) media_front ≡ running
unfolding is_rtp_packet
read_loop-Refused_example =
    read_loop-Refused parsers (session [] false) 128 _ 1000 (inl (refl, refl))

-- A frame of which only two bytes have arrived, and a text.
on_read_short : on_read parsers (session [] false) ((36 ∷ 0 ∷ []) ∷ []) ≡ fault
unfolding on_read interleaved read_big_endian round
on_read_short = refl

on_read_text :
    on_read parsers (session [] false) ((82 ∷ 84 ∷ []) ∷ [])
    ≡ reply (session [] false) [] (82 ∷ 84 ∷ [])
unfolding on_read plain is_rtp_packet is_rtcp_packet round
on_read_text = refl

-- The report that the loop is to pass over is taken for an RTCP packet before.
on_read_report :
    on_read parsers (session [] false) ((128 ∷ 200 ∷ 0 ∷ 6 ∷ []) ∷ [])
    ≡ returns (session [] false) []
unfolding on_read plain is_rtp_packet is_rtcp_packet round
on_read_report = refl
