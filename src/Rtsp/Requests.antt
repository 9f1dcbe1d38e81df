-- ===== src/Rtsp/Requests.antt =====
-- librtsp/rtsp_session.cpp: the fields of RtspSession that make up its requests, `Play`, which takes
-- them from a URL, and the requests. A request is its lines, `request_text` its bytes. `rtc::split`
-- and MD5 of the RTC library are the arguments `split` and `md5`; what `std::remove_if` leaves behind
-- the fields that it keeps is not specified, and is the argument `left`.
use clibmedia_transfer_proto.Common.{
  ℕ, suc, ◌-◌, ◌%◌, Bool, true, false, Option, none, some, List, [], ◌∷◌, ◌++◌, ltb, if◌then◌else◌,
  length, ◌>>=◌,
}
use clibmedia_transfer_proto.Common.Int.{ℤ, pos, negsuc}
use clibmedia_transfer_proto.ByteIo.{Bytes}
use clibmedia_transfer_proto.Http.Text.{text, atoi}
use clibmedia_transfer_proto.Http.Message.{decimal}

-- A codec of `description_`: that of a video or of an audio content.
pub record Codec : Type 0 where
  pub is_video : Bool
  pub id : ℤ
  pub name : Bytes

pub record Content : Type 0 where
  pub name : Bytes
  pub description : Option Codec

-- `server_address_` is its host name and its port, `session_description_` its contents.
pub record Dialogue : Type 0 where
  pub protocol_name : Bytes
  pub user_name : Bytes
  pub password : Bytes
  pub params : List Bytes
  pub url_params : Bytes
  pub cseq : ℕ
  pub realm : Bytes
  pub nonce : Bytes
  pub response : Bytes
  pub session_id : Bytes
  pub stream_url : Bytes
  pub hostname : Bytes
  pub port : ℕ
  pub contents : List Content
  pub track_control : List Bytes

abbrev user_agent : Bytes
user_agent = text "libmedia_transfer_protocol/1.0 (CRTC 1.0)"

abbrev pub rtsp_version : Bytes
rtsp_version = text " RTSP/1.0"

-- Each line with `kRtspEnd`, and the line that ends the request.
unfoldable request_text : List Bytes → Bytes
request_text [] = 13 ∷ 10 ∷ []
request_text (line ∷ lines) = line ++ (13 ∷ 10 ∷ request_text lines)

unfoldable pub is_empty : Bytes → Bool
is_empty [] = true
is_empty (b ∷ bytes) = false

abbrev pub cseq_line : Dialogue → Bytes
cseq_line s = text "CSeq: " ++ decimal s.cseq

abbrev pub user_agent_line : Bytes
user_agent_line = text "User-Agent: " ++ user_agent

unfoldable session_line : Dialogue → List Bytes
unfolding is_empty
session_line s = if is_empty s.session_id then [] else (text "Session: " ++ s.session_id) ∷ []

-- The session with the next `CSeq`.
abbrev pub next_cseq : Dialogue → Dialogue
next_cseq s = record s { cseq = suc s.cseq }

unfoldable send_options : Dialogue → Dialogue × List Bytes
send_options s = (
  next_cseq s,
  (text "OPTIONS " ++ (s.stream_url ++ rtsp_version))
      ∷ cseq_line (next_cseq s)
      ∷ user_agent_line
      ∷ [],
)

abbrev pub setup_line : Bytes → Bytes
setup_line track = text "SETUP " ++ (track ++ (text " " ++ rtsp_version))

abbrev pub play_line : Bytes → Bytes
play_line url = text "PLAY " ++ (url ++ (text " " ++ (rtsp_version ++ text " ")))

module _ (md5 : Bytes → Bytes) where
  -- `BuildAuthorization`, where there is a realm: the line, and the session with its response.
  unfoldable pub build_authorization : Bytes → Dialogue → Dialogue × List Bytes
  unfolding is_empty
  build_authorization method s =
      let ha1 = md5 (s.user_name ++ (text ":" ++ (s.realm ++ (text ":" ++ s.password)))) in
      let ha2 = md5 (method ++ (text ":" ++ s.stream_url)) in
      let digest = md5 (ha1 ++ (text ":" ++ (s.nonce ++ (text ":" ++ ha2)))) in
      if is_empty s.realm then (s, []) else (
        record s { response = digest },
        (text "Authorization: Digest username=\""
              ++ (s.user_name
                  ++ (text "\", realm=\""
                      ++ (s.realm
                          ++ (text "\", nonce=\""
                              ++ (s.nonce
                                  ++ (text "\", uri=\""
                                      ++ (s.stream_url
                                          ++ (text "\", response=\""
                                              ++ (digest ++ text "\""))))))))))
            ∷ [],
      )

  unfoldable pub send_describe : Dialogue → Dialogue × List Bytes
  unfolding build_authorization
  send_describe s =
      let (s', authorization) = build_authorization (text "DESCRIBE") (next_cseq s) in
      (
        s',
        (text "DESCRIBE rtsp://"
              ++ (s.hostname ++ (text ":" ++ (decimal s.port ++ (s.url_params ++ rtsp_version)))))
            ∷ cseq_line (next_cseq s)
            ∷ (authorization ++ (user_agent_line ∷ text "Accept: application/sdp" ∷ [])),
      )

  -- `SendSetup`: the oldest track, if there is one.
  unfoldable pub send_setup : Dialogue → Dialogue × List (List Bytes)
  unfolding build_authorization session_line
  send_setup s = elim s.track_control [
    | [] ↦ (s, [])
    | track ∷ tracks ↦
        let (s', authorization) =
          build_authorization (text "SETUP") (record (next_cseq s) { track_control = tracks }) in
        (
          s',
          (setup_line track
                ∷ (text "Transport: RTP/AVP/TCP;unicast;interleaved="
                    ++ (if ltb 1 (length (track ∷ tracks)) then text "0-1" else text "2-3"))
                ∷ cseq_line (next_cseq s)
                ∷ user_agent_line
                ∷ (session_line s ++ authorization))
              ∷ [],
        )
  ]

  unfoldable pub send_play : Dialogue → Dialogue × List Bytes
  unfolding build_authorization session_line
  send_play s =
      let (s', authorization) = build_authorization (text "PLAY") (next_cseq s) in
      (
        s',
        play_line s.stream_url
            ∷ text "Range: npt=0.000-"
            ∷ cseq_line (next_cseq s)
            ∷ user_agent_line
            ∷ (session_line s ++ authorization),
      )

-- The fields that are not empty, in order.
unfoldable pub kept_fields : List Bytes → List Bytes
unfolding is_empty
kept_fields [] = []
kept_fields (field ∷ fields) =
    let rest = kept_fields fields in if is_empty field then rest else field ∷ rest

-- The user's part of a URL, whose '@' are put back, and what stands behind the last of them.
unfoldable pub user_part : List Bytes → Bytes × Bytes
user_part [] = ([], [])
user_part (last ∷ []) = ([], last)
user_part (first ∷ last ∷ []) = (first, last)
user_part (first ∷ second ∷ rest) =
    let (user, last) = user_part (second ∷ rest) in (first ++ (b'@' ∷ user), last)

unfoldable pub add_params : List Bytes → Dialogue → Dialogue
unfolding is_empty
add_params [] s = s
add_params (field ∷ fields) s = add_params fields (
    if is_empty field then s else record s {
      params = s.params ++ (field ∷ []);
      url_params = s.url_params ++ (b'/' ∷ field);
    })

-- A port is kept in 16 bits.
unfoldable to_port : ℤ → ℕ
to_port (pos n) = n % 65536
to_port (negsuc n) = 65535 - n % 65536

unfoldable pub set_stream_url : Dialogue → Dialogue
set_stream_url s = record s {
  stream_url = text "rtsp://" ++ (s.hostname ++ (text ":" ++ (decimal s.port ++ s.url_params)));
}

module _ (split : ℕ → Bytes → List Bytes) where
  unfoldable pub set_user : List Bytes → Bytes → Dialogue → Option Dialogue
  set_user url_fields user s =
      if ltb 1 (length url_fields)
      then elim (split b':' user) [
        | name ∷ password ∷ rest ↦ some (record s { user_name = name; password = password })
        | short ↦ none
      ]
      else some s

  unfoldable pub set_address : Bytes → Dialogue → Option Dialogue
  unfolding to_port
  set_address ip_data s = elim (split b'@' ip_data) [
    | [] ↦ none
    | host ∷ [] ↦ some (record s { hostname = host; port = 554 })
    | host ∷ port ∷ rest ↦ some (record s { hostname = host; port = to_port (atoi port) })
  ]

  -- The fields that are not empty, in front of what is left behind them.
  unfoldable pub play_fields : List Bytes → Dialogue → Option Dialogue
  unfolding user_part add_params set_user set_address set_stream_url
  play_fields (protocol ∷ address ∷ rest) s = elim (split b'@' address) [
    | [] ↦ none
    | first ∷ others ↦
        let url_fields = first ∷ others in
        let (user, ip_data) = user_part url_fields in
        (do
          s1 ← set_user url_fields user (record s { protocol_name = protocol })
          s2 ← set_address ip_data s1
          some (set_stream_url (add_params rest s2)))
  ]
  play_fields short s = none

  -- `Play` up to the connection; `none` is an URL that it refuses, or a field that is not there.
  unfoldable pub play : (List Bytes → List Bytes) → Bytes → Dialogue → Option Dialogue
  unfolding kept_fields play_fields
  play left url s =
      let fields = split b'/' url in
      if ltb (length fields) 2 then none else play_fields (kept_fields fields ++ left fields) s
