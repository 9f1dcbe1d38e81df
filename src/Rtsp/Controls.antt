-- ===== src/Rtsp/Controls.antt =====
-- The tracks of a description, from its text to the requests for them.
use clibmedia_transfer_proto.Common.{◌≡◌, List, [], ◌∷◌, ◌++◌, map, All}
use clibmedia_transfer_proto.ByteIo.{Bytes}
use clibmedia_transfer_proto.Http.Text.{text}
use clibmedia_transfer_proto.RtcSdp.Prefixes.{Without}
use clibmedia_transfer_proto.Rtsp.Lines.{join, Line, text_of, IsOther}
use clibmedia_transfer_proto.Rtsp.Requests.{Dialogue}

-- A content with the URL of its track, whose fields between ':' are `scheme` and `rest`, before the
-- '=' of its id; other lines stand before and behind the line of its URL.
pub record Track : Type 0 where
  pub media : Bytes
  pub scheme : Bytes
  pub rest : List Bytes
  pub id : Bytes
  pub before : List Line
  pub behind : List Line

abbrev pub url : Track → Bytes
url t = join b':' (t.scheme ∷ t.rest) ++ (b'=' ∷ t.id)

abbrev pub lines_of : List Track → List Bytes
lines_of [] = []
lines_of (t ∷ ts) =
    (text "m=" ++ t.media)
    ∷ (map text_of t.before
        ++ ((text "a=control:" ++ url t) ∷ (map text_of t.behind ++ lines_of ts)))

-- A description: the lines of the session, and then its tracks.
abbrev pub description : List Line → List Track → List Bytes
description session ts = map text_of session ++ lines_of ts

abbrev pub IsTrack : Track → Type 0
IsTrack t =
    Without b'=' t.media
    × All (Without b':') (t.scheme ∷ t.rest)
    × All (Without b'=') (t.scheme ∷ t.rest)
    × Without b'=' t.id
    × All IsOther t.before
    × All IsOther t.behind

-- With one more track.
abbrev with_track : Bytes → Dialogue → Dialogue
with_track track s = record s { track_control = s.track_control ++ (track ∷ []) }

-- More tracks, on the same stream, with the same count of requests.
abbrev Adds : List Bytes → Dialogue → Dialogue → Type 0
Adds tracks s s' =
    (s'.track_control ≡ s.track_control ++ tracks)
    × (s'.cseq ≡ s.cseq)
    × (s'.stream_url ≡ s.stream_url)
