-- ===== src/RtcSdp/Setters.antt =====
-- librtc/rtc_sdp.cpp: the setters, and the getters that change what was set.
use clibmedia_transfer_proto.Common.{ℕ, List, [], ◌∷◌}
use clibmedia_transfer_proto.Common.Int.{ℤ}
use clibmedia_transfer_proto.ByteIo.{Bytes, reinterpret_as_signed}
use clibmedia_transfer_proto.Http.Text.{to_uint32}
use clibmedia_transfer_proto.RtcSdp.{RtcSdp, Fingerprint}

-- `SetStreamName`: the third part of a path of three.
unfoldable pub set_stream_name : (ℕ → Bytes → List Bytes) → Bytes → RtcSdp → RtcSdp
set_stream_name split name self = elim (split b'/' name) [
  | (a ∷ b ∷ c ∷ []) ↦ record self { stream_name = c }
  | _ ↦ record self { stream_name = name }
]

-- The port and the sources are kept as signed numbers.
unfoldable pub set_server_port : ℕ → RtcSdp → RtcSdp
set_server_port port self = record self { server_port = reinterpret_as_signed 2 port }

unfoldable pub set_video_ssrc : ℕ → RtcSdp → RtcSdp
set_video_ssrc ssrc self = record self { video_ssrc = reinterpret_as_signed 4 ssrc }

unfoldable pub set_audio_ssrc : ℤ → RtcSdp → RtcSdp
set_audio_ssrc ssrc self = record self { audio_ssrc = ssrc }

unfoldable pub set_local_fingerprint : List Fingerprint → RtcSdp → RtcSdp
set_local_fingerprint fps self = record self { finger_prints = fps }

unfoldable pub set_local_ufrag : Bytes → RtcSdp → RtcSdp
set_local_ufrag frag self = record self { local_ufrag = frag }

unfoldable pub set_local_passwd : Bytes → RtcSdp → RtcSdp
set_local_passwd pwd self = record self { local_passwd = pwd }

unfoldable pub set_server_addr : Bytes → RtcSdp → RtcSdp
set_server_addr addr self = record self { server_addr = addr }

-- `VideoSsrc` and `AudioSsrc`: the sources, as unsigned numbers again.
unfoldable pub get_video_ssrc : RtcSdp → ℕ
get_video_ssrc self = to_uint32 self.video_ssrc

unfoldable pub get_audio_ssrc : RtcSdp → ℕ
get_audio_ssrc self = to_uint32 self.audio_ssrc
