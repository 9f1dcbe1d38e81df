-- ===== src/Examples/Programs.antt =====
-- A program stream on concrete bytes.
use clibmedia_transfer_proto.Common.{some, ◌<◌, ◌≡◌, refl, List, [], ◌∷◌, ◌++◌, arith}
use clibmedia_transfer_proto.Common.Int.{pos}
use clibmedia_transfer_proto.ByteIo.{Bytes, read_big_endian, write_big_endian}
use clibmedia_transfer_proto.Mpeg.{
  MpegDecoder, Event, next, has_pts, returns, parse, parse_loop, round, continue_payload,
  append_stream, video_frame, audio_frame,
}
use clibmedia_transfer_proto.Mpeg.Packets.{
  PsPacket, pack, skipped, video, audio, written, written_all, pes_front,
}
use clibmedia_transfer_proto.Mpeg.Reassembly.{parse_all}
use clibmedia_transfer_proto.Mpeg.Times.{time_bytes, round-time_bytes}
use clibmedia_transfer_proto.Mpeg.Termination.{Ends, parse-Ends}

abbrev idle : MpegDecoder
idle = record { byte_stream = []; read_byte = pos 0; video_pts = 0 }

abbrev clock : Bytes
clock = 68 ∷ 0 ∷ 4 ∷ 0 ∷ 4 ∷ 1 ∷ 0 ∷ 0 ∷ 3 ∷ []

abbrev time : Bytes
time = 33 ∷ 0 ∷ 1 ∷ 0 ∷ 1 ∷ []

abbrev slice_front : Bytes
slice_front = 0 ∷ 0 ∷ 0 ∷ 1 ∷ 0x65 ∷ []

abbrev slice_end : Bytes
slice_end = 7 ∷ 8 ∷ 9 ∷ []

abbrev next_slice : Bytes
next_slice = 0 ∷ 0 ∷ 0 ∷ 1 ∷ 0x41 ∷ 2 ∷ []

abbrev head : List PsPacket
head = pack clock 31 (255 ∷ []) ∷ skipped 0xBB (1 ∷ 2 ∷ []) ∷ []

abbrev tail : List PsPacket
tail = audio 0x80 0 [] (5 ∷ []) ∷ video 0x80 0 [] next_slice ∷ []

abbrev packets : List PsPacket
packets = head ++ (video 0x80 0x80 time (slice_front ++ slice_end) ∷ (tail ++ []))

abbrev pieces : List Bytes
pieces =
    (written_all head ++ (pes_front 0xE0 0x80 0x80 time 8 ++ slice_front))
    ∷ (7 ∷ [])
    ∷ ((8 ∷ 9 ∷ []) ++ (written_all tail ++ []))
    ∷ []

-- The largest time, in a packet that begins a frame.
round-time_bytes_example :
    (d' : MpegDecoder) × (events : List Event) × (round
        (written (video 0x80 0x80 (time_bytes 8589934591) next_slice) ++ [])
        idle
      ≡ some (next [] d' events))
    × (8589934591 < d'.video_pts)
unfolding has_pts
round-time_bytes_example =
    round-time_bytes 0x80 0x80 8589934591 [] next_slice [] idle refl (omega arith) (omega arith)
      (omega arith) (omega arith)

parse-Ends_example : Ends (parse idle (0 ∷ 0 ∷ 1 ∷ 0xE0 ∷ 0 ∷ 1 ∷ 0x80 ∷ 0 ∷ 0 ∷ 4 ∷ []))
parse-Ends_example =
    parse-Ends idle (0 ∷ 0 ∷ 1 ∷ 0xE0 ∷ 0 ∷ 1 ∷ 0x80 ∷ 0 ∷ 0 ∷ 4 ∷ []) (omega arith)

-- The frame is handed on when the next begins, with the time of its packet.
pieces_run :
    parse_all idle pieces
    ≡ returns
        (pos 0)
        (record { byte_stream = next_slice; read_byte = pos 0; video_pts = 403154449934 })
        (audio_frame (5 ∷ []) ∷ video_frame (slice_front ++ slice_end) 403154449934 ∷ [])
unfolding parse_all parse parse_loop write_big_endian round read_big_endian continue_payload
    append_stream
pieces_run = refl
