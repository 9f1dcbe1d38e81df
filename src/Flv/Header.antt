-- ===== src/Flv/Header.antt =====
-- libflv/cflv_context.cpp: `SendFlvHeader`, and the response head that the constructor sends.
use clibmedia_transfer_proto.Common.{ℕ, ◌+◌, Bool, true, false, List, [], ◌∷◌, ◌++◌, if◌then◌else◌}
use clibmedia_transfer_proto.ByteIo.{Bytes, write_big_endian}
use clibmedia_transfer_proto.Http.Text.{text}
use clibmedia_transfer_proto.Flv.{FlvContext, Sent, and_then, writer, write_flv_tag, type_amf_meta}

-- What the writers of amf0.c append for a value, a name being given as its bytes.
pub record Amf : Type 0 where
  pub write_string : Bytes → Bytes
  pub write_named_double : Bytes → ℕ → Bytes
  pub write_named_boolean : Bytes → Bool → Bytes
  pub write_named_string : Bytes → Bytes → Bytes
  pub object_end : Bytes

-- The bit fields lie from the lowest bit on: five that are 0, `have_audio`, one that is 0, `have_video`.
unfoldable flags_byte : Bool → Bool → ℕ
flags_byte has_audio has_video = (if has_audio then 32 else 0) + (if has_video then 128 else 0)

-- `FLVHeader`: the signature, the version, the flags, the length and the first `PreviousTagSize`.
unfoldable flv_header : Bool → Bool → Bytes
unfolding flags_byte
flv_header has_audio has_video =
    0x46
    ∷ 0x4C
    ∷ 0x56
    ∷ 1
    ∷ flags_byte has_audio has_video
    ∷ (write_big_endian 4 9 ++ (0 ∷ 0 ∷ 0 ∷ 0 ∷ []))

unfoldable pub metadata_count : Bool → Bool → ℕ
metadata_count has_audio has_video = (if has_audio then 5 else 0) + (if has_video then 7 else 0) + 1

-- One entry of the metadata, by the call that writes it.
pub data Entry : Type 0 where
  double : Bytes → ℕ → Entry
  boolean : Bytes → Bool → Entry
  string : Bytes → Bytes → Entry

unfoldable audio_entries : List Entry
audio_entries =
    double (text "audiocodecid") 10
    ∷ double (text "audiodatarate") 125
    ∷ double (text "audiosamplerate") 44100
    ∷ double (text "audiosamplesize") 16
    ∷ boolean (text "stereo") true
    ∷ []

unfoldable video_entries : List Entry
video_entries =
    double (text "duration") 0
    ∷ double (text "videocodecid") 7
    ∷ double (text "videodatarate") 0
    ∷ double (text "framerate") 25
    ∷ double (text "height") 2560
    ∷ double (text "width") 1440
    ∷ []

unfoldable pub entries : Bool → Bool → List Entry
unfolding audio_entries video_entries
entries has_audio has_video =
    (if has_audio then audio_entries else [])
    ++ ((if has_video then video_entries else [])
        ++ (string (text "encoder") (text "libflv_rtc") ∷ []))

unfoldable write_entries : Amf → List Entry → Bytes
write_entries amf [] = []
write_entries amf (double name value ∷ rest) =
    amf.write_named_double name value ++ write_entries amf rest
write_entries amf (boolean name value ∷ rest) =
    amf.write_named_boolean name value ++ write_entries amf rest
write_entries amf (string name value ∷ rest) =
    amf.write_named_string name value ++ write_entries amf rest

-- The name of the event, the marker of an ECMA array (8), the count, the entries and their end.
unfoldable pub metadata : Amf → Bool → Bool → Bytes
unfolding metadata_count entries write_entries
metadata amf has_audio has_video =
    amf.write_string (text "onMetaData")
    ++ (8
        ∷ (write_big_endian 4 (metadata_count has_audio has_video)
            ++ (write_entries amf (entries has_audio has_video) ++ amf.object_end)))

unfoldable send_flv_header : Amf → Bool → Bool → FlvContext → Sent
unfolding flv_header metadata
send_flv_header amf has_audio has_video c =
    and_then (writer (flv_header has_audio has_video) false c)
      (write_flv_tag type_amf_meta (metadata amf has_audio has_video) 0)

-- The constructor: the context, and what it sends.
unfoldable pub open_flv_context : FlvContext × List Bytes
open_flv_context = (
  record {
    prev_packet_size = 0;
    send_sps = false;
    sps = [];
    pps = [];
    start_timestamp = 0;
    send_buffer = [];
  },
  (text
        "HTTP/1.1 200 OK \r\nAccess-Control-Allow-Origin:*\r\nContent-Type: video/x-flv; charset=utf-8\r\nConnection: Keep-Alive\r\n\r\n")
      ∷ [],
)
