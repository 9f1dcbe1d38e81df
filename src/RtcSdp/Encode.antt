-- ===== src/RtcSdp/Encode.antt =====
-- librtc/rtc_sdp.cpp: `Encode`. `none` is where the name of no digest is printed.
use clibmedia_transfer_proto.Common.{
  suc, ◌||◌, Option, some, List, [], ◌∷◌, ◌++◌, ◌>>=◌, if◌then◌else◌, concat, map,
}
use clibmedia_transfer_proto.Common.Int.{ℤ, pos, negsuc}
use clibmedia_transfer_proto.ByteIo.{Bytes}
use clibmedia_transfer_proto.Http.Text.{text}
use clibmedia_transfer_proto.Http.Message.{decimal}
use clibmedia_transfer_proto.RtcSdp.{
  RtcSdp, Fingerprint, get_fingerprint_algorithm_string, is_unset,
}
use clibmedia_transfer_proto.RtcSdp.Codecs.{video_codecs}

-- An int, as a stream prints it.
unfoldable pub print_int : ℤ → Bytes
unfolding decimal
print_int (pos n) = decimal n
print_int (negsuc n) = b'-' ∷ decimal (suc n)

unfoldable pub fingerprint_lines : List Fingerprint → Option (List Bytes)
fingerprint_lines [] = some []
fingerprint_lines (f ∷ fs) = get_fingerprint_algorithm_string f.algorithm >>= λ name.
    fingerprint_lines fs >>= λ lines.
    some ((text "a=fingerprint:" ++ (name ++ (text " " ++ f.value))) ∷ lines)

unfoldable pub head_lines : RtcSdp → List Bytes
head_lines sdp =
    text "v=0"
    ∷ text "o=rtc 11111111111360111 2 IN IP4 0.0.0.0"
    ∷ (text "s=" ++ sdp.stream_name)
    ∷ text "c=IN IP4 0.0.0.0"
    ∷ text "t=0 0"
    ∷ text "a=group:BUNDLE 0 1"
    ∷ (text "a=msid-semantic: WMS " ++ sdp.stream_name)
    ∷ []

unfoldable pub candidate_line : RtcSdp → Bytes
unfolding print_int
candidate_line sdp =
    text "a=candidate:0 1 udp 2130706431 "
    ++ (sdp.server_addr
        ++ (text " " ++ (print_int sdp.server_port ++ text " typ host generation 0")))

-- The four lines on a source.
unfoldable pub ssrc_lines : ℤ → Bytes → Bytes → List Bytes
unfolding print_int
ssrc_lines ssrc name kind =
    let front = text "a=ssrc:" ++ print_int ssrc in
    (front ++ (text " cname:" ++ name))
    ∷ (front ++ (text " msid:" ++ (name ++ (text " " ++ (name ++ kind)))))
    ∷ (front ++ (text " mslabel:" ++ name))
    ∷ (front ++ (text " label:" ++ (name ++ kind)))
    ∷ []

-- The lines on audio, before the fingerprints and after them.
unfoldable pub audio_front : RtcSdp → List Bytes
unfolding candidate_line
audio_front sdp =
    (text "m=audio 9 UDP/TLS/RTP/SAVPF " ++ print_int sdp.audio_payload_type)
    ∷ text "c=IN IP4 0.0.0.0"
    ∷ text "a=mid:0"
    ∷ (text "a=ice-ufrag:" ++ sdp.local_ufrag)
    ∷ (text "a=ice-pwd:" ++ sdp.local_passwd)
    ∷ candidate_line sdp
    ∷ []

unfoldable pub audio_back : RtcSdp → List Bytes
unfolding ssrc_lines
audio_back sdp =
    let pt = print_int sdp.audio_payload_type in
    text "a=setup:passive"
    ∷ text "a=sendonly"
    ∷ text "a=rtcp-mux"
    ∷ text "a=rtcp-rsize"
    ∷ (text "a=rtpmap:" ++ (pt ++ text " opus/48000/2"))
    ∷ (text "a=fmtp:" ++ (pt ++ text " minptime=10;stereo=1;useinbandfec=1"))
    ∷ (text "a=rtcp-fb:" ++ (pt ++ text " transport-cc"))
    ∷ (text "a=rtcp-fb:" ++ (pt ++ text " nack"))
    ∷ ssrc_lines sdp.audio_ssrc sdp.stream_name (text "_audio")

-- The lines on video, in the same way.
unfoldable pub video_front : RtcSdp → List Bytes
video_front sdp =
    text
      "m=video 9 UDP/TLS/RTP/SAVPF 96 97 98 99 100 101 35 36 37 38 103 104 107 108 109 114 115 116 117 118 39 40 41 42 43 44 45 46 47 48 119 120 121 122 49 50 51 52 123 124 125 53"
    ∷ text "c=IN IP4 0.0.0.0"
    ∷ text "a=mid:1"
    ∷ (text "a=ice-ufrag:" ++ sdp.local_ufrag)
    ∷ (text "a=ice-pwd:" ++ sdp.local_passwd)
    ∷ []

unfoldable pub video_back : RtcSdp → List Bytes
unfolding candidate_line ssrc_lines
video_back sdp =
    text "a=setup:passive"
    ∷ candidate_line sdp
    ∷ text "a=sendonly"
    ∷ text "a=rtcp-mux"
    ∷ text "a=rtcp-rsize"
    ∷ (video_codecs ++ ssrc_lines sdp.video_ssrc sdp.stream_name (text "_video"))

-- The lines: audio is described where there is video too.
unfoldable pub encode_lines : RtcSdp → Option (List Bytes)
unfolding fingerprint_lines head_lines audio_front audio_back video_front video_back is_unset
encode_lines sdp = fingerprint_lines sdp.finger_prints >>= λ fingerprints. some (
    head_lines sdp
    ++ ((if is_unset sdp.video_payload_type || is_unset sdp.audio_payload_type
          then []
          else audio_front sdp ++ (fingerprints ++ audio_back sdp))
        ++ (if is_unset sdp.video_payload_type
            then []
            else video_front sdp ++ (fingerprints ++ video_back sdp))))

unfoldable pub encode : RtcSdp → Option Bytes
unfolding encode_lines
encode sdp = encode_lines sdp >>= λ lines. some (concat (map (λ line. line ++ (10 ∷ [])) lines))
