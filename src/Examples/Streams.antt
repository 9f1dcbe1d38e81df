-- ===== src/Examples/Streams.antt =====
-- Framed packets of a TCP stream on concrete inputs.
use clibmedia_transfer_proto.Common.{
  ℕ, ◌≡◌, refl, Option, some, List, [], ◌∷◌, ◌++◌, arith, replicate,
}
use clibmedia_transfer_proto.ByteIo.{Bytes, write_big_endian}
use clibmedia_transfer_proto.Gb28181.{on_read, done, runs, has_rtp_version}
use clibmedia_transfer_proto.Gb28181.Frames.{media}
use clibmedia_transfer_proto.Gb28181.Stream.{on_reads, on_reads-frames}
use clibmedia_transfer_proto.Gb28181.Stuck.{on_read-stuck}

abbrev packet : Bytes
packet = 128 ∷ 96 ∷ replicate 10 7

abbrev frames : List Bytes
frames = packet ∷ (1 ∷ 2 ∷ []) ∷ []

-- Cut within the first length, and within the second packet.
abbrev segments : List Bytes
segments = (0 ∷ []) ∷ (12 ∷ packet ++ (0 ∷ 2 ∷ 1 ∷ [])) ∷ (2 ∷ []) ∷ []

abbrev payload_type : Bytes → Option ℕ
payload_type bytes = some 96

on_reads-frames_example :
    on_reads payload_type 20 (record { recv_buffer = [] }) segments
    ≡ done (record { recv_buffer = [] }) (media payload_type frames)
on_reads-frames_example =
    on_reads-frames payload_type 20 frames segments
      ((omega arith, omega arith), ((omega arith, omega arith), tt))
      (omega arith, (omega arith, (omega arith, tt))) (unfold write_big_endian in refl)
      (unfold write_big_endian in omega arith)

on_read-stuck_example :
    on_read payload_type 50 (record { recv_buffer = [] }) (255 ∷ 254 ∷ 0 ∷ []) ≡ runs
on_read-stuck_example =
    on_read-stuck payload_type 50 0 [] (unfold has_rtp_version in refl) (omega arith)
