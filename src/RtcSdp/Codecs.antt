-- ===== src/RtcSdp/Codecs.antt =====
-- librtc/rtc_sdp.cpp: the lines on codecs of video that `Encode` always writes.
use clibmedia_transfer_proto.Common.{List, [], ◌∷◌, ◌++◌}
use clibmedia_transfer_proto.ByteIo.{Bytes}
use clibmedia_transfer_proto.Http.Text.{text}

unfoldable pub vp8_and_vp9 : List Bytes
vp8_and_vp9 =
    text "a=rtpmap:96 VP8/90000"
    ∷ text "a=rtcp-fb:96 goog-remb"
    ∷ text "a=rtcp-fb:96 transport-cc"
    ∷ text "a=rtcp-fb:96 ccm fir"
    ∷ text "a=rtcp-fb:96 nack"
    ∷ text "a=rtcp-fb:96 nack pli"
    ∷ text "a=rtpmap:97 rtx/90000"
    ∷ text "a=fmtp:97 apt=96"
    ∷ text "a=rtpmap:98 VP9/90000"
    ∷ text "a=rtcp-fb:98 goog-remb"
    ∷ text "a=rtcp-fb:98 transport-cc"
    ∷ text "a=rtcp-fb:98 ccm fir"
    ∷ text "a=rtcp-fb:98 nack"
    ∷ text "a=rtcp-fb:98 nack pli"
    ∷ text "a=fmtp:98 profile-id=0"
    ∷ text "a=rtpmap:99 rtx/90000"
    ∷ text "a=fmtp:99 apt=98"
    ∷ text "a=rtpmap:100 VP9/90000"
    ∷ text "a=rtcp-fb:100 goog-remb"
    ∷ text "a=rtcp-fb:100 transport-cc"
    ∷ text "a=rtcp-fb:100 ccm fir"
    ∷ text "a=rtcp-fb:100 nack"
    ∷ text "a=rtcp-fb:100 nack pli"
    ∷ text "a=fmtp:100 profile-id=2"
    ∷ text "a=rtpmap:101 rtx/90000"
    ∷ text "a=fmtp:101 apt=100"
    ∷ text "a=rtpmap:35 VP9/90000"
    ∷ text "a=rtcp-fb:35 goog-remb"
    ∷ text "a=rtcp-fb:35 transport-cc"
    ∷ text "a=rtcp-fb:35 ccm fir"
    ∷ text "a=rtcp-fb:35 nack"
    ∷ text "a=rtcp-fb:35 nack pli"
    ∷ text "a=fmtp:35 profile-id=1"
    ∷ text "a=rtpmap:36 rtx/90000"
    ∷ text "a=fmtp:36 apt=35"
    ∷ text "a=rtpmap:37 VP9/90000"
    ∷ text "a=rtcp-fb:37 goog-remb"
    ∷ text "a=rtcp-fb:37 transport-cc"
    ∷ text "a=rtcp-fb:37 ccm fir"
    ∷ text "a=rtcp-fb:37 nack"
    ∷ text "a=rtcp-fb:37 nack pli"
    ∷ text "a=fmtp:37 profile-id=3"
    ∷ text "a=rtpmap:38 rtx/90000"
    ∷ text "a=fmtp:38 apt=37"
    ∷ []

unfoldable pub h264 : List Bytes
h264 =
    text "a=rtpmap:103 H264/90000"
    ∷ text "a=rtcp-fb:103 goog-remb"
    ∷ text "a=rtcp-fb:103 transport-cc"
    ∷ text "a=rtcp-fb:103 ccm fir"
    ∷ text "a=rtcp-fb:103 nack"
    ∷ text "a=rtcp-fb:103 nack pli"
    ∷ text "a=fmtp:103 level-asymmetry-allowed=1;packetization-mode=1;profile-level-id=42001f"
    ∷ text "a=rtpmap:104 rtx/90000"
    ∷ text "a=fmtp:104 apt=103"
    ∷ text "a=rtpmap:107 H264/90000"
    ∷ text "a=rtcp-fb:107 goog-remb"
    ∷ text "a=rtcp-fb:107 transport-cc"
    ∷ text "a=rtcp-fb:107 ccm fir"
    ∷ text "a=rtcp-fb:107 nack"
    ∷ text "a=rtcp-fb:107 nack pli"
    ∷ text "a=fmtp:107 level-asymmetry-allowed=1;packetization-mode=0;profile-level-id=42001f"
    ∷ text "a=rtpmap:108 rtx/90000"
    ∷ text "a=fmtp:108 apt=107"
    ∷ text "a=rtpmap:109 H264/90000"
    ∷ text "a=rtcp-fb:109 goog-remb"
    ∷ text "a=rtcp-fb:109 transport-cc"
    ∷ text "a=rtcp-fb:109 ccm fir"
    ∷ text "a=rtcp-fb:109 nack"
    ∷ text "a=rtcp-fb:109 nack pli"
    ∷ text "a=fmtp:109 level-asymmetry-allowed=1;packetization-mode=1;profile-level-id=42e01f"
    ∷ text "a=rtpmap:114 rtx/90000"
    ∷ text "a=fmtp:114 apt=109"
    ∷ text "a=rtpmap:115 H264/90000"
    ∷ text "a=rtcp-fb:115 goog-remb"
    ∷ text "a=rtcp-fb:115 transport-cc"
    ∷ text "a=rtcp-fb:115 ccm fir"
    ∷ text "a=rtcp-fb:115 nack"
    ∷ text "a=rtcp-fb:115 nack pli"
    ∷ text "a=fmtp:115 level-asymmetry-allowed=1;packetization-mode=0;profile-level-id=42e01f"
    ∷ text "a=rtpmap:116 rtx/90000"
    ∷ text "a=fmtp:116 apt=115"
    ∷ text "a=rtpmap:117 H264/90000"
    ∷ text "a=rtcp-fb:117 goog-remb"
    ∷ text "a=rtcp-fb:117 transport-cc"
    ∷ text "a=rtcp-fb:117 ccm fir"
    ∷ text "a=rtcp-fb:117 nack"
    ∷ text "a=rtcp-fb:117 nack pli"
    ∷ text "a=fmtp:117 level-asymmetry-allowed=1;packetization-mode=1;profile-level-id=4d001f"
    ∷ text "a=rtpmap:118 rtx/90000"
    ∷ text "a=fmtp:118 apt=117"
    ∷ text "a=rtpmap:39 H264/90000"
    ∷ text "a=rtcp-fb:39 goog-remb"
    ∷ text "a=rtcp-fb:39 transport-cc"
    ∷ text "a=rtcp-fb:39 ccm fir"
    ∷ text "a=rtcp-fb:39 nack"
    ∷ text "a=rtcp-fb:39 nack pli"
    ∷ text "a=fmtp:39 level-asymmetry-allowed=1;packetization-mode=0;profile-level-id=4d001f"
    ∷ text "a=rtpmap:40 rtx/90000"
    ∷ text "a=fmtp:40 apt=39"
    ∷ text "a=rtpmap:41 H264/90000"
    ∷ text "a=rtcp-fb:41 goog-remb"
    ∷ text "a=rtcp-fb:41 transport-cc"
    ∷ text "a=rtcp-fb:41 ccm fir"
    ∷ text "a=rtcp-fb:41 nack"
    ∷ text "a=rtcp-fb:41 nack pli"
    ∷ text "a=fmtp:41 level-asymmetry-allowed=1;packetization-mode=1;profile-level-id=f4001f"
    ∷ text "a=rtpmap:42 rtx/90000"
    ∷ text "a=fmtp:42 apt=41"
    ∷ text "a=rtpmap:43 H264/90000"
    ∷ text "a=rtcp-fb:43 goog-remb"
    ∷ text "a=rtcp-fb:43 transport-cc"
    ∷ text "a=rtcp-fb:43 ccm fir"
    ∷ text "a=rtcp-fb:43 nack"
    ∷ text "a=rtcp-fb:43 nack pli"
    ∷ text "a=fmtp:43 level-asymmetry-allowed=1;packetization-mode=0;profile-level-id=f4001f"
    ∷ text "a=rtpmap:44 rtx/90000"
    ∷ text "a=fmtp:44 apt=43"
    ∷ []

unfoldable pub av1_and_others : List Bytes
av1_and_others =
    text "a=rtpmap:45 AV1/90000"
    ∷ text "a=rtcp-fb:45 goog-remb"
    ∷ text "a=rtcp-fb:45 transport-cc"
    ∷ text "a=rtcp-fb:45 ccm fir"
    ∷ text "a=rtcp-fb:45 nack"
    ∷ text "a=rtcp-fb:45 nack pli"
    ∷ text "a=fmtp:45 level-idx=5;profile=0;tier=0"
    ∷ text "a=rtpmap:46 rtx/90000"
    ∷ text "a=fmtp:46 apt=45"
    ∷ text "a=rtpmap:47 AV1/90000"
    ∷ text "a=rtcp-fb:47 goog-remb"
    ∷ text "a=rtcp-fb:47 transport-cc"
    ∷ text "a=rtcp-fb:47 ccm fir"
    ∷ text "a=rtcp-fb:47 nack"
    ∷ text "a=rtcp-fb:47 nack pli"
    ∷ text "a=fmtp:47 level-idx=5;profile=1;tier=0"
    ∷ text "a=rtpmap:48 rtx/90000"
    ∷ text "a=fmtp:48 apt=47"
    ∷ text "a=rtpmap:119 H264/90000"
    ∷ text "a=rtcp-fb:119 goog-remb"
    ∷ text "a=rtcp-fb:119 transport-cc"
    ∷ text "a=rtcp-fb:119 ccm fir"
    ∷ text "a=rtcp-fb:119 nack"
    ∷ text "a=rtcp-fb:119 nack pli"
    ∷ text "a=fmtp:119 level-asymmetry-allowed=1;packetization-mode=1;profile-level-id=64001f"
    ∷ text "a=rtpmap:120 rtx/90000"
    ∷ text "a=fmtp:120 apt=119"
    ∷ text "a=rtpmap:121 H264/90000"
    ∷ text "a=rtcp-fb:121 goog-remb"
    ∷ text "a=rtcp-fb:121 transport-cc"
    ∷ text "a=rtcp-fb:121 ccm fir"
    ∷ text "a=rtcp-fb:121 nack"
    ∷ text "a=rtcp-fb:121 nack pli"
    ∷ text "a=fmtp:121 level-asymmetry-allowed=1;packetization-mode=0;profile-level-id=64001f"
    ∷ text "a=rtpmap:122 rtx/90000"
    ∷ text "a=fmtp:122 apt=121"
    ∷ text "a=rtpmap:49 H265/90000"
    ∷ text "a=rtcp-fb:49 goog-remb"
    ∷ text "a=rtcp-fb:49 transport-cc"
    ∷ text "a=rtcp-fb:49 ccm fir"
    ∷ text "a=rtcp-fb:49 nack"
    ∷ text "a=rtcp-fb:49 nack pli"
    ∷ text "a=fmtp:49 level-id=180;profile-id=1;tier-flag=0;tx-mode=SRST"
    ∷ text "a=rtpmap:50 rtx/90000"
    ∷ text "a=fmtp:50 apt=49"
    ∷ text "a=rtpmap:51 H265/90000"
    ∷ text "a=rtcp-fb:51 goog-remb"
    ∷ text "a=rtcp-fb:51 transport-cc"
    ∷ text "a=rtcp-fb:51 ccm fir"
    ∷ text "a=rtcp-fb:51 nack"
    ∷ text "a=rtcp-fb:51 nack pli"
    ∷ text "a=fmtp:51 level-id=180;profile-id=2;tier-flag=0;tx-mode=SRST"
    ∷ text "a=rtpmap:52 rtx/90000"
    ∷ text "a=fmtp:52 apt=51"
    ∷ text "a=rtpmap:123 red/90000"
    ∷ text "a=rtpmap:124 rtx/90000"
    ∷ text "a=fmtp:124 apt=123"
    ∷ text "a=rtpmap:125 ulpfec/90000"
    ∷ text "a=rtpmap:53 flexfec-03/90000"
    ∷ text "a=rtcp-fb:53 goog-remb"
    ∷ text "a=rtcp-fb:53 transport-cc"
    ∷ text "a=fmtp:53 repair-window=10000000"
    ∷ []

unfoldable pub video_codecs : List Bytes
unfolding vp8_and_vp9 h264 av1_and_others
video_codecs = vp8_and_vp9 ++ (h264 ++ av1_and_others)
