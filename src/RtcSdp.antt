-- ===== src/RtcSdp.antt =====
-- librtc/rtc_sdp.cpp: `RtcSdp`, the session description of a WebRTC session: `Decode` and the setters.
-- `StartsWith` is that of string_utils.cpp, and the names of digests are those of
-- librtc/dtls_certs.cpp. `rtc::split`, of another library, is the argument `split`.
pub mod Setters
pub mod Prefixes
pub mod Attributes
pub mod Codecs
pub mod Encode
pub mod Numbers
pub mod Answer
pub mod Ports
use clibmedia_transfer_proto.Common.{
  ℕ, ◌+◌, ◌-◌, ◌^◌, Bool, true, false, not, ◌&&◌, Option, none, some, List, [], ◌∷◌, ◌==◌, ltb,
  if◌then◌else◌, length, take, drop,
}
use clibmedia_transfer_proto.Common.Int.{ℤ, pos, negsuc}
use clibmedia_transfer_proto.ByteIo.{Bytes, reinterpret_as_signed}
use clibmedia_transfer_proto.Http.Text.{text, text_eq, split_first, atoi, to_uint32}

pub data FingerprintAlgorithm : Type 0 where
  none_known sha1 sha224 sha256 sha384 sha512 : FingerprintAlgorithm

-- `kString2FingerprintAlgorithm`, looked up.
unfoldable pub get_fingerprint_algorithm : Bytes → FingerprintAlgorithm
get_fingerprint_algorithm fingerprint =
    if text_eq fingerprint (text "sha-1")
    then sha1
    else if text_eq fingerprint (text "sha-224")
    then sha224
    else if text_eq fingerprint (text "sha-256")
    then sha256
    else if text_eq fingerprint (text "sha-384")
    then sha384
    else if text_eq fingerprint (text "sha-512")
    then sha512
    else none_known

-- `kFingerprintAlgorithm2String`, looked up: `none` where the end of the map is read.
unfoldable pub get_fingerprint_algorithm_string : FingerprintAlgorithm → Option Bytes
get_fingerprint_algorithm_string none_known = none
get_fingerprint_algorithm_string sha1 = some (text "sha-1")
get_fingerprint_algorithm_string sha224 = some (text "sha-224")
get_fingerprint_algorithm_string sha256 = some (text "sha-256")
get_fingerprint_algorithm_string sha384 = some (text "sha-384")
get_fingerprint_algorithm_string sha512 = some (text "sha-512")

pub record Fingerprint : Type 0 where
  pub algorithm : FingerprintAlgorithm
  pub value : Bytes

pub record RtcSdp : Type 0 where
  pub audio_payload_type : ℤ
  pub video_payload_type : ℤ
  pub remote_ufrag : Bytes
  pub remote_role : Bytes
  pub remote_passwd : Bytes
  pub local_ufrag : Bytes
  pub local_passwd : Bytes
  pub remote_fingerprint : Fingerprint
  pub finger_prints : List Fingerprint
  pub video_ssrc : ℤ
  pub audio_ssrc : ℤ
  pub server_port : ℤ
  pub server_addr : Bytes
  pub stream_name : Bytes

-- -1, which no payload type is.
abbrev pub unset : ℤ
unset = negsuc 0

unfoldable pub is_unset : ℤ → Bool
is_unset (pos n) = false
is_unset (negsuc n) = n == 0

abbrev pub new_rtc_sdp : RtcSdp
new_rtc_sdp = record {
  audio_payload_type = unset;
  video_payload_type = unset;
  remote_ufrag = [];
  remote_role = [];
  remote_passwd = [];
  local_ufrag = [];
  local_passwd = [];
  remote_fingerprint = record { algorithm = none_known; value = [] };
  finger_prints = [];
  video_ssrc = pos 0;
  audio_ssrc = pos 0;
  server_port = pos 0;
  server_addr = [];
  stream_name = [];
}

-- `StringUtils::StartsWith` and `EndsWith`.
unfoldable pub starts_with : Bytes → Bytes → Bool
starts_with s [] = true
starts_with [] (c ∷ sub) = false
starts_with (b ∷ s) (c ∷ sub) =
    if ltb (length (b ∷ s)) (length (c ∷ sub))
    then false
    else text_eq (take (length (c ∷ sub)) (b ∷ s)) (c ∷ sub)

unfoldable pub ends_with : Bytes → Bytes → Bool
ends_with s [] = true
ends_with [] (c ∷ sub) = false
ends_with (b ∷ s) (c ∷ sub) =
    if ltb (length (b ∷ s)) (length (c ∷ sub))
    then false
    else text_eq (drop (length (b ∷ s) - length (c ∷ sub)) (b ∷ s)) (c ∷ sub)

abbrev pub rtpmap_token : Bytes
rtpmap_token = text "a=rtpmap:"

abbrev pub ice_ufrag_token : Bytes
ice_ufrag_token = text "a=ice-ufrag:"

abbrev pub ice_pwd_token : Bytes
ice_pwd_token = text "a=ice-pwd:"

abbrev pub fingerprint_token : Bytes
fingerprint_token = text "a=fingerprint:"

abbrev pub role_token : Bytes
role_token = text "a=setup:"

-- `substr` up to one before the end. Of an empty text it is all, which is empty too.
unfoldable pub drop_last : Bytes → Bytes
drop_last s = take (length s - 1) s

unfoldable pub decode_fingerprint : Bytes → RtcSdp → RtcSdp
unfolding drop_last
decode_fingerprint content sdp = elim (split_first b' ' content) [
  | none ↦ sdp
  | some (alg, sha) ↦ record sdp {
    remote_fingerprint = record {
      algorithm = get_fingerprint_algorithm alg;
      value = drop_last sha;
    };
  }
]

unfoldable pub take_payload_type : ℤ → Bytes → RtcSdp → RtcSdp
unfolding is_unset
take_payload_type pt name sdp =
    if is_unset sdp.audio_payload_type && text_eq name (text "opus")
    then record sdp { audio_payload_type = pt }
    else if is_unset sdp.video_payload_type && text_eq name (text "H264")
    then record sdp { video_payload_type = pt }
    else sdp

unfoldable pub decode_rtpmap : Bytes → RtcSdp → RtcSdp
unfolding take_payload_type
decode_rtpmap content sdp = elim (split_first b' ' content) [
  | none ↦ sdp
  | some (pt, rest) ↦ elim (split_first b'/' rest) [
    | none ↦ sdp
    | some (name, clock) ↦ take_payload_type (atoi pt) name sdp
  ]
]

-- The body of the loop. The name of the user begins where the token of the password would end.
unfoldable pub decode_line : Bytes → RtcSdp → RtcSdp
unfolding decode_fingerprint decode_rtpmap
decode_line line sdp =
    if starts_with line ice_ufrag_token
    then record sdp { remote_ufrag = drop (length ice_pwd_token) line }
    else if starts_with line ice_pwd_token
    then record sdp { remote_passwd = drop (length ice_pwd_token) line }
    else if starts_with line role_token
    then record sdp { remote_role = drop_last (drop (length role_token) line) }
    else if starts_with line fingerprint_token
    then decode_fingerprint (drop (length fingerprint_token) line) sdp
    else if starts_with line rtpmap_token
    then decode_rtpmap (drop (length rtpmap_token) line) sdp
    else sdp

unfoldable pub decode_lines : List Bytes → RtcSdp → RtcSdp
unfolding decode_line
decode_lines [] sdp = sdp
decode_lines (line ∷ lines) sdp = decode_lines lines (decode_line line sdp)

-- `Decode`: a size is never below zero, so it always succeeds.
unfoldable pub decode : (ℕ → Bytes → List Bytes) → Bytes → RtcSdp → RtcSdp
unfolding decode_lines
decode split sdp self = decode_lines (split 10 sdp) self
