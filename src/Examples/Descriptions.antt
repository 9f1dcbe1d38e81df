-- ===== src/Examples/Descriptions.antt =====
-- Session descriptions on concrete texts.
use clibmedia_transfer_proto.Common.{
  ℕ, ◌-◌, ◌^◌, ◌≡◌, refl, true, All, some, List, [], ◌∷◌, ◌++◌, arith, map,
}
use clibmedia_transfer_proto.Common.Int.{pos}
use clibmedia_transfer_proto.ByteIo.{Bytes}
use clibmedia_transfer_proto.Http.Text.{text, atoi, text_eq}
use clibmedia_transfer_proto.Http.Message.{decimal}
use clibmedia_transfer_proto.RtcSdp.{
  RtcSdp, Fingerprint, sha256, new_rtc_sdp, decode, decode_lines, is_unset,
  get_fingerprint_algorithm_string, starts_with, ends_with,
}
use clibmedia_transfer_proto.RtcSdp.Setters.{set_server_port}
use clibmedia_transfer_proto.RtcSdp.Attributes.{
  Attribute, ufrag, passwd, setup, fingerprint, rtpmap, other, IsAttribute, line_of, apply_all,
  decode-line_of,
}
use clibmedia_transfer_proto.RtcSdp.Encode.{encode_lines, fingerprint_lines, candidate_line}
use clibmedia_transfer_proto.RtcSdp.Answer.{typed_session, answered, decode_lines-encode_lines}
use clibmedia_transfer_proto.RtcSdp.Ports.{candidate_line-set_server_port}

abbrev offer : List Attribute
offer =
    other (text "v=0")
    ∷ ufrag (text "EsAw")
    ∷ passwd (text "bP+X")
    ∷ fingerprint (text "sha-256") (text "A1:B2")
    ∷ setup (text "actpass")
    ∷ rtpmap (text "111") (text "opus") (text "48000/2")
    ∷ rtpmap (text "96") (text "VP8") (text "90000")
    ∷ rtpmap (text "102") (text "H264") (text "90000")
    ∷ rtpmap (text "127") (text "H264") (text "90000")
    ∷ []

-- Stands for the lines that the text splits into.
abbrev split : ℕ → Bytes → List Bytes
split sep sdp = map line_of offer

offer-IsAttribute : All IsAttribute offer
offer-IsAttribute = (
  (refl, refl, refl, refl, refl),
  (
    tt,
    (
      tt,
      (
        (refl, (refl, (refl, (refl, (refl, (refl, (refl, tt))))))),
        (
          tt,
          (
            ((refl, (refl, (refl, tt))), (refl, (refl, (refl, (refl, tt))))),
            (
              ((refl, (refl, tt)), (refl, (refl, (refl, tt)))),
              (
                ((refl, (refl, (refl, tt))), (refl, (refl, (refl, (refl, tt))))),
                (((refl, (refl, (refl, tt))), (refl, (refl, (refl, (refl, tt))))), tt),
              ),
            ),
          ),
        ),
      ),
    ),
  ),
)

decode-line_of_example : decode split [] new_rtc_sdp ≡ apply_all offer new_rtc_sdp
decode-line_of_example = decode-line_of split [] offer new_rtc_sdp refl offer-IsAttribute

-- The first of the types of H264, and the role without its carriage return.
offer_taken :
    ((apply_all offer new_rtc_sdp).video_payload_type ≡ pos 102)
    × ((apply_all offer new_rtc_sdp).remote_role ≡ text "actpass")
    × ((apply_all offer new_rtc_sdp).remote_ufrag ≡ text "g:EsAw" ++ (13 ∷ []))
unfolding apply_all atoi text_eq is_unset
offer_taken = (refl, refl, refl)

abbrev session : RtcSdp
session = record new_rtc_sdp {
  local_ufrag = text "abcd";
  local_passwd = text "secret";
  finger_prints = record { algorithm = sha256; value = text "A1:B2" } ∷ [];
  server_addr = text "10.0.0.1";
  server_port = pos 10004;
  stream_name = text "cam";
}

abbrev printed : List Bytes
printed = text "a=fingerprint:sha-256 A1:B2" ∷ []

decode_lines-encode_lines_example :
    (lines : List Bytes) × (f : Fingerprint) × (encode_lines (typed_session 111 102 session)
      ≡ some lines)
    × (decode_lines lines new_rtc_sdp ≡ answered f (pos 111) (pos 103) session new_rtc_sdp)
decode_lines-encode_lines_example =
    decode_lines-encode_lines session 111 102 printed
      (unfold fingerprint_lines get_fingerprint_algorithm_string in refl) (omega arith)

candidate_line-set_server_port_example :
    candidate_line (set_server_port 50000 session)
    ≡ text "a=candidate:0 1 udp 2130706431 "
      ++ (session.server_addr
          ++ (text " -" ++ (decimal (2 ^ 16 - 50000) ++ text " typ host generation 0")))
candidate_line-set_server_port_example =
    candidate_line-set_server_port 50000 session (omega arith) (omega arith)

suffixes :
    (starts_with (text "a=setup:x") (text "a=setup:") ≡ true)
    × (ends_with (text "x.flv") (text ".flv") ≡ true)
unfolding starts_with ends_with text_eq
suffixes = (refl, refl)
