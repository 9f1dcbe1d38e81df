-- ===== src/RtcSdp/Ports.antt =====
-- The port and the source of video, which are kept as signed numbers.
use clibmedia_transfer_proto.Common.{
  ℕ, ◌-◌, ◌/◌, ◌^◌, ◌≤◌, ◌<◌, ◌≡◌, refl, ap, ◌∙◌, suc, ◌++◌, arith, le→ltb,
}
use clibmedia_transfer_proto.Common.Int.{negsuc}
use clibmedia_transfer_proto.ByteIo.{reinterpret_as_signed}
use clibmedia_transfer_proto.Http.Text.{text, to_uint32}
use clibmedia_transfer_proto.Http.Message.{decimal}
use clibmedia_transfer_proto.RtcSdp.{RtcSdp}
use clibmedia_transfer_proto.RtcSdp.Setters.{get_video_ssrc, set_server_port, set_video_ssrc}
use clibmedia_transfer_proto.RtcSdp.Encode.{candidate_line, print_int}

-- A port from 32768 on is written into the candidate with a sign, as what it lacks of 65536.
pub candidate_line-set_server_port :
    (port : ℕ) (sdp : RtcSdp)
    → 2 ^ 15 ≤ port
    → port < 2 ^ 16
    → candidate_line (set_server_port port sdp)
      ≡ text "a=candidate:0 1 udp 2130706431 "
        ++ (sdp.server_addr
            ++ (text " -" ++ (decimal (2 ^ 16 - port) ++ text " typ host generation 0")))
unfolding candidate_line set_server_port
candidate_line-set_server_port port sdp high fits =
    ap
      (λ z.
        text "a=candidate:0 1 udp 2130706431 "
        ++ (sdp.server_addr ++ (text " " ++ (print_int z ++ text " typ host generation 0"))))
      negative
    ∙ unfold print_int in
      ap
        (λ n.
          text "a=candidate:0 1 udp 2130706431 "
          ++ (sdp.server_addr ++ (text " -" ++ (decimal n ++ text " typ host generation 0"))))
        same
  where
    same : suc (2 ^ 16 - port - 1) ≡ 2 ^ 16 - port
    same = omega arith

    negative : reinterpret_as_signed 2 port ≡ negsuc (2 ^ 16 - port - 1)
    negative = unfold reinterpret_as_signed in rw (le→ltb port (256 ^ 2 / 2) (omega arith)) refl

-- The source of video, in contrast, comes back as it was set.
pub get_video_ssrc-set_video_ssrc :
    (ssrc : ℕ) (sdp : RtcSdp) → ssrc < 2 ^ 32 → get_video_ssrc (set_video_ssrc ssrc sdp) ≡ ssrc
unfolding get_video_ssrc set_video_ssrc reinterpret_as_signed to_uint32
get_video_ssrc-set_video_ssrc ssrc sdp fits = ground arith
