-- ===== src/Examples/Challenges.antt =====
-- A session that is asked for its credentials.
use clibmedia_transfer_proto.Common.{
  ℕ, ◌+◌, ◌%◌, length, ◌≡◌, refl, true, some, List, [], ◌∷◌, ◌++◌, arith,
}
use clibmedia_transfer_proto.ByteIo.{Bytes}
use clibmedia_transfer_proto.Http.Text.{text}
use clibmedia_transfer_proto.Http.Message.{decimal}
use clibmedia_transfer_proto.RtcSdp.Prefixes.{Without, is_without, is_without-Without}
use clibmedia_transfer_proto.Rtsp.Requests.{Dialogue, is_empty, set_stream_url}
use clibmedia_transfer_proto.Rtsp.Answers.{on_text}
use clibmedia_transfer_proto.Examples.Splitting.{split, split-Splits}
use clibmedia_transfer_proto.Rtsp.Lines.{join}
use clibmedia_transfer_proto.Rtsp.Authorized.{Accepts, on_text-Accepts}
use clibmedia_transfer_proto.Examples.Dialogues.{played}

-- A digest of one digit, and a challenge.
abbrev digit : Bytes → Bytes
digit bytes = (b'0' + length bytes % 10) ∷ []

digit-Without : (bytes : Bytes) → Without b'"' (digit bytes)
digit-Without bytes = (ground arith, tt)

abbrev challenged : Bytes
challenged = join 10 (
    text "RTSP/1.0 401 Unauthorized"
    ∷ text "CSeq: 2"
    ∷ text "WWW-Authenticate: Digest realm=\"IP Camera\", nonce=\"2d9e\", stale=\"FALSE\""
    ∷ [])

on_text-Accepts_example :
    (s' : Dialogue) × (line : Bytes) × (lines : List Bytes) × (on_text split digit split challenged
        played
      ≡ some (
        s',
        ((text "DESCRIBE " ++ (text "rtsp://10.0.0.1:8554:554/streams/101" ++ text " RTSP/1.0"))
              ∷ text "CSeq: 2"
              ∷ line
              ∷ lines)
            ∷ [],
      ))
    × Accepts split digit
        (text "admin")
        (text "IP Camera")
        (text "a@b")
        (text "2d9e")
        (text "DESCRIBE")
        (text "rtsp://10.0.0.1:8554:554/streams/101")
        line
unfolding is_without decimal is_empty set_stream_url
on_text-Accepts_example =
    let without : (sep : ℕ) (bytes : Bytes) → is_without sep bytes ≡ true → Without sep bytes =
      is_without-Without in
    on_text-Accepts split split-Splits digit digit-Without split challenged (text "RTSP/1.0")
      (text "CSeq: 2") (text " Digest realm=") (text "IP Camera") (text ", nonce=") (text "2d9e")
      (text "Unauthorized" ∷ []) [] [] (text ", stale=" ∷ text "FALSE" ∷ [] ∷ []) played refl
      (
        without b' ' (text "RTSP/1.0") refl,
        (without b' ' (text "401") refl, (without b' ' (text "Unauthorized") refl, tt)),
      )
      (
        without b':' (text "WWW-Authenticate") refl,
        (
          without b':' (text " Digest realm=\"IP Camera\", nonce=\"2d9e\", stale=\"FALSE\"") refl,
          tt,
        ),
      )
      (
        without b'"' (text " Digest realm=") refl,
        (
          without b'"' (text "IP Camera") refl,
          (
            without b'"' (text ", nonce=") refl,
            (
              without b'"' (text "2d9e") refl,
              (without b'"' (text ", stale=") refl, (without b'"' (text "FALSE") refl, (tt, tt))),
            ),
          ),
        ),
      )
      refl (without b'"' (text "admin") refl)
      (without b'"' (text "rtsp://10.0.0.1:8554:554/streams/101") refl) refl
