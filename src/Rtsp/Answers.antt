-- ===== src/Rtsp/Answers.antt =====
-- librtsp/rtsp_session.cpp: what OnRead and its two handlers do with the text of an answer, as its
-- lines. `rtc::tokenize` is the argument `tokenize`. `none` is a field that is not there.
use clibmedia_transfer_proto.Common.{
  ℕ, Bool, false, Option, none, some, List, [], ◌∷◌, ◌++◌, ◌==◌, ltb, if◌then◌else◌, length, drop,
  get_elem?, ◌>>=◌,
}
use clibmedia_transfer_proto.Common.Int.{ℤ, pos, negsuc}
use clibmedia_transfer_proto.ByteIo.{Bytes}
use clibmedia_transfer_proto.Http.Text.{text, text_eq, atoi}
use clibmedia_transfer_proto.Rtsp.Requests.{Content, Dialogue, send_describe, send_setup, send_play}

-- The session while it reads a description, and the content at work.
pub record Describing : Type 0 where
  pub dialogue : Dialogue
  pub content_info : Option Content

-- An answer leaves the session and the requests that it sends.
abbrev pub Answered : Type 0
Answered = Option (Dialogue × List (List Bytes))

unfoldable pub join_fields : List Bytes → Bytes
join_fields [] = []
join_fields (field ∷ fields) = b':' ∷ (field ++ join_fields fields)

module _ (split : ℕ → Bytes → List Bytes) where
  -- `m=`: the content at work is complete, and another begins.
  unfoldable pub read_media : Bytes → Describing → Describing
  read_media value d =
      let new : Content = elim (split b' ' value) [
        | name ∷ port ∷ protocol ∷ format ∷ rest ↦ record {
          name = name;
          description =
              some
                (record { is_video = text_eq name (text "video"); id = atoi format; name = name });
        }
        | short ↦ record { name = []; description = none }
      ] in
      record d {
        dialogue = elim d.content_info [
          | none ↦ d.dialogue
          | some content ↦ record d.dialogue { contents = d.dialogue.contents ++ (content ∷ []) }
        ];
        content_info = some new;
      }

  -- `a=`, of the content at work, with the fields behind its second '='; other names change nothing.
  unfoldable pub read_attribute : Bytes → List Bytes → Describing → Option Describing
  unfolding join_fields
  read_attribute value more d = elim (split b':' value) [
    | name ∷ first ∷ others ↦
        if text_eq name (text "control")
        then elim more [
          | [] ↦ none
          | second ∷ rest ↦
              let track = first ++ (join_fields others ++ (b'=' ∷ second)) in
              some (record d {
                dialogue = record d.dialogue {
                  track_control = d.dialogue.track_control ++ (track ∷ []);
                };
              })
        ]
        else some d
    | short ↦ some d
  ]

  unfoldable pub read_description_line : Bytes → Describing → Option Describing
  unfolding read_media read_attribute
  read_description_line line d = elim (split b'=' line) [
    | name ∷ value ∷ more ↦
        if text_eq name (text "m") then some (read_media value d) else elim d.content_info [
          | none ↦ some d
          | some content ↦ if text_eq name (text "a") then read_attribute value more d else some d
        ]
    | short ↦ some d
  ]

  unfoldable pub read_description : List Bytes → Describing → Option Describing
  unfolding read_description_line
  read_description [] d = some d
  read_description (line ∷ lines) d = read_description_line line d >>= read_description lines

unfoldable pub is_401 : ℤ → Bool
is_401 (pos n) = n == 401
is_401 (negsuc n) = false

module _ (split : ℕ → Bytes → List Bytes) (md5 : Bytes → Bytes) where
  unfoldable pub handler_content_type : List Bytes → Dialogue → Answered
  unfolding read_description
  handler_content_type data' s =
      if ltb (length data') 5
      then some (s, [])
      else (read_description split (drop 4 data') (record { dialogue = s; content_info = none })
          >>= λ d. some (send_setup md5 d.dialogue))

  unfoldable pub handler_session : List Bytes → Dialogue → Answered
  handler_session data' s = elim data' [
    | status ∷ cseq ∷ session ∷ rest ↦ elim (split b':' session) [
      | name ∷ value ∷ more ↦ elim (split b';' value) [
        | [] ↦ none
        | id ∷ options ↦
            let s' : Dialogue = record s { session_id = id } in
            elim s'.track_control [
              | [] ↦
                  let (s'', request) = send_play md5 s' in
                  if ltb s'.cseq 7 then some (s'', request ∷ []) else some (s', [])
              | track ∷ tracks ↦ some (send_setup md5 s')
            ]
      ]
      | short ↦ none
    ]
    | short ↦ some (s, [])
  ]

  -- The answer to a request without its credentials: DESCRIBE again, with them.
  unfoldable pub challenge : List Bytes → Dialogue → Answered
  challenge fields s = elim fields [
    | name ∷ value ∷ more ↦ elim (split b'"' value) [
      | scheme ∷ realm ∷ between ∷ nonce ∷ rest ↦
          let (s', request) = send_describe md5 (record s { realm = realm; nonce = nonce }) in
          some (s', request ∷ [])
      | short ↦ none
    ]
    | short ↦ none
  ]

  -- The name of the third line, or of the fifth where the third is of the server.
  unfoldable pub third_line : List Bytes → Option (List Bytes)
  third_line fields = do
    line ← get_elem? fields 2
    elim (split b':' line) [
      | [] ↦ none
      | name ∷ rest ↦
          if text_eq name (text "Server")
          then (do line' ← get_elem? fields 4; some (split b':' line'))
          else some (name ∷ rest)
    ]

  -- The answer to OPTIONS.
  unfoldable pub describe_public : Bytes → Dialogue → Dialogue × List (List Bytes)
  describe_public name s =
      let (s', request) = send_describe md5 s in
      if text_eq name (text "Public") then (s', request ∷ []) else (s, [])

  -- `callback_map_`
  unfoldable pub callback : Bytes → List Bytes → Dialogue → Answered
  unfolding handler_content_type handler_session
  callback name fields s =
      if text_eq name (text "Content-Type")
      then handler_content_type fields s
      else if text_eq name (text "Session")
      then handler_session fields s
      else some (s, [])

  -- The rest of OnRead for a text: its lines are split off, and those that are empty left out.
  unfoldable pub on_text : (ℕ → Bytes → List Bytes) → Bytes → Dialogue → Answered
  unfolding is_401 third_line challenge describe_public callback
  on_text tokenize data' s =
      let fields = tokenize 10 data' in
      (do
        first ← get_elem? fields 0
        elim (split b' ' first) [
          | version ∷ status ∷ others ↦ if ltb (length fields) 3 then some (s, []) else (do
            three_line ← third_line fields
            name ← get_elem? three_line 0
            (s1, challenged) ←
                (if is_401 (atoi status) then challenge three_line s else some (s, []))
            let (s2, described) = describe_public name s1
            (s3, handled) ← callback name fields s2
            some (s3, challenged ++ (described ++ handled)))
          | short ↦ some (s, [])
        ])
