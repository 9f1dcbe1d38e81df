-- ===== src/RtcSdp/Attributes.antt =====
-- A description as the attributes that its lines write, and what `Decode` makes of it.
use clibmedia_transfer_proto.Common.{
  ℕ, ◌≡◌, refl, ap, ◌∙◌, false, ◌&&◌, List, [], ◌∷◌, ◌++◌, if◌then◌else◌, length, drop, map, All,
}
use clibmedia_transfer_proto.ByteIo.{Bytes}
use clibmedia_transfer_proto.Http.Text.{text, text_eq, atoi}
use clibmedia_transfer_proto.RtcSdp.{
  RtcSdp, get_fingerprint_algorithm, drop_last, is_unset, decode_fingerprint, decode_rtpmap,
  decode_line, decode_lines, decode, rtpmap_token, ice_ufrag_token, ice_pwd_token,
  fingerprint_token, role_token,
}
use clibmedia_transfer_proto.RtcSdp.Prefixes.{
  is_prefix, starts_with-is_prefix, drop_last-append, Without, split_first-append,
}

pub data Attribute : Type 0 where
  ufrag : Bytes → Attribute
  passwd : Bytes → Attribute
  setup : Bytes → Attribute
  fingerprint : (alg sha : Bytes) → Attribute
  rtpmap : (pt name clock : Bytes) → Attribute
  other : Bytes → Attribute

-- Each line ends with a carriage return, and the line feed is what the lines are split at.
abbrev pub ended : Bytes → Bytes
ended s = s ++ (13 ∷ [])

abbrev pub line_of : Attribute → Bytes
line_of (ufrag v) = ice_ufrag_token ++ ended v
line_of (passwd v) = ice_pwd_token ++ ended v
line_of (setup v) = role_token ++ ended v
line_of (fingerprint alg sha) = fingerprint_token ++ (alg ++ (b' ' ∷ ended sha))
line_of (rtpmap pt name clock) = rtpmap_token ++ (pt ++ (b' ' ∷ (name ++ (b'/' ∷ ended clock))))
line_of (other line) = line

-- The separators are the first, and other lines begin with none of the five tokens.
abbrev pub IsAttribute : Attribute → Type 0
IsAttribute (fingerprint alg sha) = Without b' ' alg
IsAttribute (rtpmap pt name clock) = Without b' ' pt × Without b'/' name
IsAttribute (other line) =
    (is_prefix ice_ufrag_token line ≡ false)
    × (is_prefix ice_pwd_token line ≡ false)
    × (is_prefix role_token line ≡ false)
    × (is_prefix fingerprint_token line ≡ false)
    × (is_prefix rtpmap_token line ≡ false)
IsAttribute attribute = Unit {0}

-- The first payload type of each codec counts, and the last of everything else. The password keeps the
-- carriage return, and the name keeps it too and the end of its token.
unfoldable pub apply : Attribute → RtcSdp → RtcSdp
apply (ufrag v) sdp = record sdp { remote_ufrag = text "g:" ++ ended v }
apply (passwd v) sdp = record sdp { remote_passwd = ended v }
apply (setup v) sdp = record sdp { remote_role = v }
apply (fingerprint alg sha) sdp = record sdp {
  remote_fingerprint = record { algorithm = get_fingerprint_algorithm alg; value = sha };
}
apply (rtpmap pt name clock) sdp =
    if is_unset sdp.audio_payload_type && text_eq name (text "opus")
    then record sdp { audio_payload_type = atoi pt }
    else if is_unset sdp.video_payload_type && text_eq name (text "H264")
    then record sdp { video_payload_type = atoi pt }
    else sdp
apply (other line) sdp = sdp

unfoldable pub apply_all : List Attribute → RtcSdp → RtcSdp
unfolding apply
apply_all [] sdp = sdp
apply_all (a ∷ as') sdp = apply_all as' (apply a sdp)

-- The body of the loop by what is a prefix.
abbrev pub decode_prefixed : Bytes → RtcSdp → RtcSdp
decode_prefixed line sdp =
    if is_prefix ice_ufrag_token line
    then record sdp { remote_ufrag = drop (length ice_pwd_token) line }
    else if is_prefix ice_pwd_token line
    then record sdp { remote_passwd = drop (length ice_pwd_token) line }
    else if is_prefix role_token line
    then record sdp { remote_role = drop_last (drop (length role_token) line) }
    else if is_prefix fingerprint_token line
    then decode_fingerprint (drop (length fingerprint_token) line) sdp
    else if is_prefix rtpmap_token line
    then decode_rtpmap (drop (length rtpmap_token) line) sdp
    else sdp

pub decode_line_lem :
    (line : Bytes) (sdp : RtcSdp) → decode_line line sdp ≡ decode_prefixed line sdp
unfolding decode_line
decode_line_lem line sdp =
    rw
      (
        decode_line,
        starts_with-is_prefix line ice_ufrag_token,
        starts_with-is_prefix line ice_pwd_token,
        starts_with-is_prefix line role_token,
        starts_with-is_prefix line fingerprint_token,
        starts_with-is_prefix line rtpmap_token,
      )
      refl

decode_fingerprint-ended :
    (alg sha : Bytes) (sdp : RtcSdp)
    → Without b' ' alg
    → decode_fingerprint (alg ++ (b' ' ∷ ended sha)) sdp ≡ apply (fingerprint alg sha) sdp
unfolding decode_fingerprint apply
decode_fingerprint-ended alg sha sdp w =
    rw (decode_fingerprint, split_first-append b' ' alg (ended sha) w, drop_last-append sha 13) refl

decode_rtpmap-ended :
    (pt name clock : Bytes) (sdp : RtcSdp)
    → Without b' ' pt
    → Without b'/' name
    → decode_rtpmap (pt ++ (b' ' ∷ (name ++ (b'/' ∷ ended clock)))) sdp
      ≡ apply (rtpmap pt name clock) sdp
unfolding decode_rtpmap apply
decode_rtpmap-ended pt name clock sdp w w' =
    rw
      (
        decode_rtpmap,
        split_first-append b' ' pt (name ++ (b'/' ∷ ended clock)) w,
        split_first-append b'/' name (ended clock) w',
      )
      refl

decode_line-line_of :
    (a : Attribute) (sdp : RtcSdp) → IsAttribute a → decode_line (line_of a) sdp ≡ apply a sdp
unfolding apply
decode_line-line_of (ufrag v) sdp ok = decode_line_lem (line_of (ufrag v)) sdp
decode_line-line_of (passwd v) sdp ok = decode_line_lem (line_of (passwd v)) sdp
decode_line-line_of (setup v) sdp ok =
    decode_line_lem (line_of (setup v)) sdp
    ∙ ap (λ t. record sdp { remote_role = t }) (drop_last-append v 13)
decode_line-line_of (fingerprint alg sha) sdp ok =
    decode_line_lem (line_of (fingerprint alg sha)) sdp ∙ decode_fingerprint-ended alg sha sdp ok
decode_line-line_of (rtpmap pt name clock) sdp ok =
    decode_line_lem (line_of (rtpmap pt name clock)) sdp
    ∙ decode_rtpmap-ended pt name clock sdp ok.0 ok.1
decode_line-line_of (other line) sdp (u, p, s, f, r) =
    decode_line_lem line sdp ∙ rw (u, p, s, f, r) refl

decode_lines-line_of :
    (as' : List Attribute) (sdp : RtcSdp)
    → All IsAttribute as'
    → decode_lines (map line_of as') sdp ≡ apply_all as' sdp
unfolding decode_lines apply_all
decode_lines-line_of [] sdp ok = refl
decode_lines-line_of (a ∷ as') sdp ok =
    ap (decode_lines (map line_of as')) (decode_line-line_of a sdp ok.0)
    ∙ decode_lines-line_of as' (apply a sdp) ok.1

-- A text that splits into the lines of attributes, in any order and among any other lines: `Decode`
-- takes in each, the first payload type of opus and of H264 and the last of the others.
pub decode-line_of :
    (split : ℕ → Bytes → List Bytes) (sdp : Bytes) (as' : List Attribute) (self : RtcSdp)
    → split 10 sdp ≡ map line_of as'
    → All IsAttribute as'
    → decode split sdp self ≡ apply_all as' self
unfolding decode
decode-line_of split sdp as' self lines ok =
    ap (λ t. decode_lines t self) lines ∙ decode_lines-line_of as' self ok
