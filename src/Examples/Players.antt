-- ===== src/Examples/Players.antt =====
-- An FLV stream on concrete frames.
use clibmedia_transfer_proto.Common.{
  ℕ, suc, ◌≡◌, ◌==◌, refl, true, false, none, some, List, [], ◌∷◌, ◌++◌, arith, length, concat,
  if◌then◌else◌,
}
use clibmedia_transfer_proto.ByteIo.{Bytes}
use clibmedia_transfer_proto.Flv.{
  FlvContext, sps, pps, idr, slice, nalu_type, nal_bytes, elapsed, send_flv_audio_frame,
}
use clibmedia_transfer_proto.Flv.Header.{open_flv_context, entries, metadata_count}
use clibmedia_transfer_proto.Flv.Reader.{Shown, config, picture, read_stream, read_tag}
use clibmedia_transfer_proto.Flv.Tags.{idle}
use clibmedia_transfer_proto.Flv.Muxer.{shows}
use clibmedia_transfer_proto.Flv.Playback.{
  Picture, shows_all, shows_video, send_video, IsVideo, send_video-read_stream,
}
use clibmedia_transfer_proto.Flv.Order.{Ordered, send_video-Ordered}
use clibmedia_transfer_proto.Flv.Audio.{read_tag-send_flv_audio_frame}

abbrev fresh : FlvContext
fresh = record {
  prev_packet_size = 0;
  send_sps = false;
  sps = [];
  pps = [];
  start_timestamp = 0;
  send_buffer = [];
}

abbrev sps_nal : Bytes
sps_nal = 0x67 ∷ 66 ∷ 0 ∷ 30 ∷ 9 ∷ []

abbrev pps_nal : Bytes
pps_nal = 0x68 ∷ 1 ∷ []

abbrev idr_nal : Bytes
idr_nal = 0x65 ∷ 2 ∷ 3 ∷ []

abbrev slice_nal : Bytes
slice_nal = 0x41 ∷ 4 ∷ []

-- The places of the units in a frame, which stand behind one another here.
abbrev find : Bytes → List (ℕ × ℕ)
find frame = if length frame == 2 then (0, 2) ∷ [] else (0, 5) ∷ (5, 2) ∷ (7, 3) ∷ []

abbrev first_frame : Picture
first_frame = record {
  frame = sps_nal ++ (pps_nal ++ idr_nal);
  timestamp = 1000;
  units = (sps, sps_nal) ∷ (pps, pps_nal) ∷ (idr, idr_nal) ∷ [];
}

abbrev second_frame : Picture
second_frame = record { frame = slice_nal; timestamp = 1040; units = (slice, slice_nal) ∷ [] }

abbrev video : List Picture
video = first_frame ∷ second_frame ∷ []

video-IsVideo : IsVideo find fresh video
unfolding nalu_type nal_bytes shows shows_all
video-IsVideo = (
  ((0x67, refl, refl, refl), ((0x68, refl, refl, refl), ((0x65, refl, refl, refl), tt))),
  (tt, (tt, (((omega arith, omega arith, omega arith), omega arith), tt))),
  (((0x41, refl, refl, refl), tt), (omega arith, tt), tt),
)

send_video-read_stream_example :
    let (c', shown) = shows_video fresh video in
    (messages : List Bytes) × (send_video find (idle fresh) video ≡ some (idle c', messages))
    × (read_stream (suc (length messages)) (concat messages) ≡ some shown)
send_video-read_stream_example = send_video-read_stream find fresh video video-IsVideo

send_video-Ordered_example :
    (messages : List Bytes) × (shown : List Shown) × (send_video find (idle fresh) video
      ≡ some (idle (shows_video fresh video).0, messages))
    × (read_stream (suc (length messages)) (concat messages) ≡ some shown)
    × Ordered shown
send_video-Ordered_example = send_video-Ordered find fresh video video-IsVideo refl

video_shown :
    (shows_video fresh video).1
    ≡ config sps_nal pps_nal
      ∷ picture true 0 0 (sps_nal ∷ pps_nal ∷ idr_nal ∷ [])
      ∷ picture false 40 40 (slice_nal ∷ [])
      ∷ []
unfolding shows_video shows elapsed
video_shown = refl

read_tag-send_flv_audio_frame_example :
    read_tag (concat (send_flv_audio_frame (1 ∷ 2 ∷ []) 40 fresh).1 ++ (9 ∷ [])) ≡ none
read_tag-send_flv_audio_frame_example =
    read_tag-send_flv_audio_frame (1 ∷ 2 ∷ []) (9 ∷ []) 40 fresh (omega arith)

opened : open_flv_context.0 ≡ fresh
unfolding open_flv_context
opened = refl

-- The count of the metadata is one more than its entries, where there is video.
metadata_over : (metadata_count true true ≡ 13) × (length (entries true true) ≡ 12)
unfolding metadata_count entries
metadata_over = (refl, refl)
