-- ===== src/Examples/Dialogues.antt =====
-- The requests of an RTSP session at work.
use clibmedia_transfer_proto.Common.{ℕ, ◌≡◌, refl, true, Bool, ◌&&◌, List, [], ◌∷◌}
use clibmedia_transfer_proto.ByteIo.{Bytes}
use clibmedia_transfer_proto.Http.Text.{text}
use clibmedia_transfer_proto.Http.Message.{decimal}
use clibmedia_transfer_proto.RtcSdp.Prefixes.{Without, is_without}
use clibmedia_transfer_proto.Rtsp.Requests.{Dialogue, play}
use clibmedia_transfer_proto.Rtsp.Answers.{on_text}
use clibmedia_transfer_proto.Rtsp.Answers
use clibmedia_transfer_proto.Examples.Splitting.{split, split-Splits}
use clibmedia_transfer_proto.Rtsp.Controls.{Track}
use clibmedia_transfer_proto.Rtsp.Lines.{Line, plain, attribute}
use clibmedia_transfer_proto.Rtsp.Addresses.{play-default_port}

abbrev pub fresh : Dialogue
fresh = record {
  protocol_name = [];
  user_name = [];
  password = [];
  params = [];
  url_params = [];
  cseq = 1;
  realm = [];
  nonce = [];
  response = [];
  session_id = [];
  stream_url = [];
  hostname = [];
  port = 0;
  contents = [];
  track_control = [];
}

-- A port in the URL is taken for a part of the host.
abbrev with_port : Bytes
with_port = text "rtsp://admin:a@b:12345@10.0.0.1:8554/streams/101"

abbrev pub played : Dialogue
played = record fresh {
  protocol_name = text "rtsp:";
  user_name = text "admin";
  password = text "a@b";
  params = text "streams" ∷ text "101" ∷ [];
  url_params = text "/streams/101";
  stream_url = text "rtsp://10.0.0.1:8554:554/streams/101";
  hostname = text "10.0.0.1:8554";
  port = 554;
}

play-default_port_example : (played.port ≡ 554) × Without b'@' played.hostname
unfolding play decimal
play-default_port_example =
    play-default_port split split-Splits (λ fields. [] ∷ []) with_port fresh played refl

-- An empty line, v=0, o=- 1109162014219182 1 IN IP4 10.0.0.1, s=Media, t=0 0, a=control:*, a=range:npt=now-
abbrev session_lines : List Line
session_lines =
    plain [] []
    ∷ plain (text "v") (text "0" ∷ [])
    ∷ plain (text "o") (text "- 1109162014219182 1 IN IP4 10.0.0.1" ∷ [])
    ∷ plain (text "s") (text "Media" ∷ [])
    ∷ plain (text "t") (text "0 0" ∷ [])
    ∷ attribute (text "control") (text "*" ∷ []) []
    ∷ attribute (text "range") (text "npt" ∷ []) (text "now-" ∷ [])
    ∷ []

-- b=AS:5000, a=recvonly, a=x-dimensions:1280,720
abbrev before_lines : List Line
before_lines =
    plain (text "b") (text "AS:5000" ∷ [])
    ∷ attribute (text "recvonly") [] []
    ∷ attribute (text "x-dimensions") (text "1280,720" ∷ []) []
    ∷ []

-- a=rtpmap:96 H264/90000, a=fmtp:96 profile-level-id=420029; sprop-parameter-sets=Z2QAH60==
abbrev behind_lines : List Line
behind_lines =
    attribute (text "rtpmap") (text "96 H264/90000" ∷ []) []
    ∷ attribute (text "fmtp") (text "96 profile-level-id" ∷ [])
        (text "420029; sprop-parameter-sets" ∷ text "Z2QAH60" ∷ [] ∷ [] ∷ [])
    ∷ []

abbrev all_without : ℕ → List Bytes → Bool
all_without sep [] = true
all_without sep (field ∷ fields) = is_without sep field && all_without sep fields

-- A description of two tracks, and three answers behind it.
abbrev video : Track
video = record {
  media = text "video 0 RTP/AVP 96";
  scheme = text "rtsp";
  rest = text "//10.0.0.1" ∷ text "554/s/trackID" ∷ [];
  id = text "1";
  before = before_lines;
  behind = behind_lines;
}

abbrev audio : Track
audio = record {
  media = text "audio 0 RTP/AVP 8";
  scheme = text "rtsp";
  rest = text "//10.0.0.1" ∷ text "554/s/trackID" ∷ [];
  id = text "2";
  before = before_lines;
  behind = behind_lines;
}

abbrev described : List Bytes
described =
    text "RTSP/1.0 200 OK"
    ∷ text "CSeq: 3"
    ∷ text "Content-Type: application/sdp"
    ∷ text "Content-Base: rtsp://10.0.0.1:554/s/"
    ∷ []

abbrev answer : List Bytes
answer = text "RTSP/1.0 200 OK" ∷ text "CSeq: 4" ∷ text "Session: 1225743327;timeout=60" ∷ []

abbrev asking : Dialogue
asking = record fresh { cseq = 3; stream_url = text "rtsp://10.0.0.1:554/s" }
