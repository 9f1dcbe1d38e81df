-- ===== src/Mpeg/Packets.antt =====
-- A program stream as the packets that it is written of, and what a decoder has to make of each.
use clibmedia_transfer_proto.Common.{
  ℕ, ◌+◌, ◌*◌, ◌/◌, ◌^◌, ◌≤◌, ◌<◌, ◌≡◌, ◌⊎◌, Bool, true, false, ◌&&◌, List, [], ◌∷◌, ◌++◌, ◌==◌,
  ltb, length, take,
}
use clibmedia_transfer_proto.ByteIo.{Bytes, write_big_endian}
use clibmedia_transfer_proto.Mpeg.{
  MpegDecoder, Event, audio_frame, flush, has_pts, byte_stream_capacity,
}

-- A packet with its variable parts. Five reserved bits stand before the length of the stuffing of a
-- pack, which the standard sets. The optional header of a packet of audio or video is what its
-- ninth byte counts.
pub data PsPacket : Type 0 where
  pack : (clock : Bytes) → (reserved : ℕ) → (stuffing : Bytes) → PsPacket
  skipped : (stream_id : ℕ) → (body : Bytes) → PsPacket
  video : (mark flags : ℕ) → (header : Bytes) → (payload : Bytes) → PsPacket
  audio : (mark flags : ℕ) → (header : Bytes) → (payload : Bytes) → PsPacket

abbrev pub start_code : ℕ → Bytes
start_code stream_id = 0 ∷ 0 ∷ 1 ∷ stream_id ∷ []

-- A packet of audio or video up to its payload of `n` bytes.
abbrev pub pes_front : ℕ → ℕ → ℕ → Bytes → ℕ → Bytes
pes_front stream_id mark flags header n =
    start_code stream_id
    ++ (write_big_endian 2 (3 + length header + n) ++ (mark ∷ flags ∷ length header ∷ header))

abbrev pub written : PsPacket → Bytes
written (pack clock reserved stuffing) =
    start_code 0xBA ++ (clock ++ ((reserved * 8 + length stuffing) ∷ stuffing))
written (skipped stream_id body) =
    start_code stream_id ++ (write_big_endian 2 (length body) ++ body)
written (video mark flags header payload) =
    pes_front 0xE0 mark flags header (length payload) ++ payload
written (audio mark flags header payload) =
    pes_front 0xC0 mark flags header (length payload) ++ payload

abbrev pub written_all : List PsPacket → Bytes
written_all [] = []
written_all (p ∷ ps) = written p ++ written_all ps

-- The lengths fit their fields, a header with a time holds its five bytes, and the first four bytes
-- of a picture are in one packet.
abbrev pub IsPacket : PsPacket → Type 0
IsPacket (pack clock reserved stuffing) =
    (length clock ≡ 9) × (reserved < 32) × (length stuffing < 8)
IsPacket (skipped stream_id body) =
    ((stream_id ≡ 0xBB) ⊎ (stream_id ≡ 0xBC)) × (length body < 2 ^ 16)
IsPacket (video mark flags header payload) =
    (has_pts flags ≡ true → 5 ≤ length header)
    × (4 ≤ length payload)
    × (3 + length header + length payload < 2 ^ 16)
IsPacket (audio mark flags header payload) =
    (0 < length payload) × (3 + length header + length payload < 2 ^ 16)

-- The number that the bytes write.
abbrev pub number : ℕ → Bytes → ℕ
number acc [] = acc
number acc (b ∷ bs) = number (acc * 256 + b) bs

unfoldable pub same_front : Bytes → Bytes → Bool
same_front [] bytes = true
same_front (b ∷ bs) [] = false
same_front (b ∷ bs) (c ∷ bytes) = c == b && same_front bs bytes

-- A payload that starts a picture closes the one collected before it, if that has more than 4 bytes.
unfoldable pub starts_picture : Bytes → MpegDecoder → Bool
unfolding same_front
starts_picture payload d = ltb 4 (length d.byte_stream) && same_front (0 ∷ 0 ∷ 0 ∷ 1 ∷ []) payload

-- The time that a packet of video is given: the five bytes as they stand, markers included, which is
-- not the time that the standard writes in them.
unfoldable pub pts_of : ℕ → Bytes → ℕ → ℕ
pts_of flags header old = elim (has_pts flags) [
  | true ↦ number 0 (take 5 header) * 256 / 90
  | false ↦ old
]

unfoldable pub receive_packet : MpegDecoder → PsPacket → MpegDecoder × List Event
unfolding starts_picture pts_of flush
receive_packet d (pack clock reserved stuffing) = (d, [])
receive_packet d (skipped stream_id body) = (d, [])
receive_packet d (video mark flags header payload) =
    let (d', events) = flush (starts_picture payload d) d in
    (
      record d' {
        byte_stream = d'.byte_stream ++ payload;
        video_pts = pts_of flags header d'.video_pts;
      },
      events,
    )
receive_packet d (audio mark flags header payload) = (d, audio_frame payload ∷ [])

unfoldable pub receive_packets : MpegDecoder → List PsPacket → MpegDecoder × List Event
unfolding receive_packet
receive_packets d [] = (d, [])
receive_packets d (p ∷ ps) =
    let (d', events) = receive_packet d p in
    let (d'', more) = receive_packets d' ps in (d'', events ++ more)

-- The bytes of video that a packet adds, and that the buffer must have room for.
abbrev pub video_size : List PsPacket → ℕ
video_size [] = 0
video_size (video mark flags header payload ∷ ps) = length payload + video_size ps
video_size (p ∷ ps) = video_size ps

abbrev pub HasRoom : MpegDecoder → List PsPacket → Type 0
HasRoom d ps = length d.byte_stream + video_size ps ≤ byte_stream_capacity
