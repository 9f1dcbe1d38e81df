-- ===== src/Mpeg/Times.antt =====
-- The time of a packet of video, against the time that its header holds.
use clibmedia_transfer_proto.Common.{
  ℕ, ◌+◌, ◌*◌, ◌/◌, ◌%◌, ◌^◌, ◌≤◌, ◌<◌, ◌≡◌, true, some, List, [], ◌∷◌, ◌++◌, length, arith,
}
use clibmedia_transfer_proto.ByteIo.{Bytes}
use clibmedia_transfer_proto.Mpeg.{MpegDecoder, Event, next, has_pts, byte_stream_capacity, round}
use clibmedia_transfer_proto.Mpeg.Packets.{video, written, pts_of, receive_packet}
use clibmedia_transfer_proto.Mpeg.Whole.{round-video}

-- A time of 33 bits as the standard writes it, each of its three parts with a marker.
abbrev pub time_bytes : ℕ → Bytes
time_bytes time =
    (33 + time / 2 ^ 30 % 8 * 2)
    ∷ (time / 2 ^ 22 % 256)
    ∷ (time / 2 ^ 15 % 128 * 2 + 1)
    ∷ (time / 2 ^ 7 % 256)
    ∷ (time % 128 * 2 + 1)
    ∷ []

-- Whatever time of 33 bits the header of a packet of video holds, the time that the packet leaves in
-- the decoder is above it.
pub round-time_bytes :
    (mark flags time : ℕ) (more payload rest : Bytes) (d : MpegDecoder)
    → has_pts flags ≡ true
    → time < 2 ^ 33
    → 4 ≤ length payload
    → 8 + length more + length payload < 2 ^ 16
    → length d.byte_stream + length payload ≤ byte_stream_capacity
    → (d' : MpegDecoder) × (events : List Event) × (round
          (written (video mark flags (time_bytes time ++ more) payload) ++ rest)
          d
        ≡ some (next rest d' events))
      × (time < d'.video_pts)
unfolding receive_packet pts_of
round-time_bytes mark flags time more payload rest d timed small long fits room = (
  _,
  _,
  round-video mark flags (time_bytes time ++ more) payload rest d (λ e. omega arith) long
      (omega arith) room,
  rw (pts_of, timed) (omega (arith, small)),
)
