-- ===== src/RtcSdp/Answer.antt =====
-- What another description makes of the lines that `Encode` writes.
use clibmedia_transfer_proto.Common.{
  ℕ, ◌≡◌, ◌<◌, refl, sym, ap, ◌∙◌, Option, none, some, List, [], ◌∷◌, ◌++◌, ◌>>=◌, Option-cases,
  inl, inr,
}
use mathlib.Core.Option.{some-injective}
use clibmedia_transfer_proto.Common.Int.{ℤ, pos, negsuc}
use clibmedia_transfer_proto.ByteIo.{Bytes}
use clibmedia_transfer_proto.Http.Text.{text, split_first, atoi, text_eq}
use clibmedia_transfer_proto.Http.Message.{decimal}
use clibmedia_transfer_proto.RtcSdp.{
  RtcSdp, Fingerprint, decode_fingerprint, decode_rtpmap, decode_lines, new_rtc_sdp, drop_last,
  get_fingerprint_algorithm_string, get_fingerprint_algorithm,
}
use clibmedia_transfer_proto.RtcSdp.Numbers.{payload_type-reads_back}
use clibmedia_transfer_proto.RtcSdp.Prefixes.{split_first-append}
use clibmedia_transfer_proto.RtcSdp.Attributes.{decode_prefixed, decode_line_lem}
use clibmedia_transfer_proto.RtcSdp.Codecs.{video_codecs}
use clibmedia_transfer_proto.RtcSdp.Encode.{
  print_int, fingerprint_lines, head_lines, ssrc_lines, audio_front, audio_back, video_front,
  video_back, encode_lines,
}

decode_all : List Bytes → RtcSdp → RtcSdp
decode_all [] s = s
decode_all (line ∷ lines) s = decode_all lines (decode_prefixed line s)

decode_lines-decode_all :
    (lines : List Bytes) (s : RtcSdp) → decode_lines lines s ≡ decode_all lines s
unfolding decode_lines decode_all
decode_lines-decode_all [] s = refl
decode_lines-decode_all (line ∷ lines) s =
    ap (decode_lines lines) (decode_line_lem line s)
    ∙ decode_lines-decode_all lines (decode_prefixed line s)

decode_all-append :
    (xs ys : List Bytes) (s : RtcSdp) → decode_all (xs ++ ys) s ≡ decode_all ys (decode_all xs s)
unfolding decode_all
decode_all-append [] ys s = refl
decode_all-append (x ∷ xs) ys s = decode_all-append xs ys (decode_prefixed x s)

abbrev with_fingerprint : Fingerprint → RtcSdp → RtcSdp
with_fingerprint f s = record s { remote_fingerprint = f }

-- Lines on fingerprints change nothing else.
decode_fingerprint-lem :
    (content : Bytes) (s : RtcSdp)
    → (f : Fingerprint) × (decode_fingerprint content s ≡ with_fingerprint f s)
unfolding decode_fingerprint
decode_fingerprint-lem content s = elim (Option-cases (split_first b' ' content)) [
  | inl e ↦ (s.remote_fingerprint, rw (decode_fingerprint, e) refl)
  | inr ((alg, sha), e) ↦ (
    record { algorithm = get_fingerprint_algorithm alg; value = drop_last sha },
    rw (decode_fingerprint, e) refl,
  )
]

head-kept : (sdp s : RtcSdp) → decode_all (head_lines sdp) s ≡ s
unfolding decode_all head_lines
head-kept sdp s = refl

-- A decoder that has taken payload types, or none of video yet.
abbrev typed : ℤ → ℤ → RtcSdp → RtcSdp
typed audio video s = record s { audio_payload_type = audio; video_payload_type = video }

codecs-decoded :
    (s : RtcSdp) (a : ℕ)
    → decode_all video_codecs (typed (pos a) (negsuc 0) s) ≡ typed (pos a) (pos 103) s
unfolding decode_all video_codecs decode_rtpmap split_first text_eq atoi
codecs-decoded s a = refl

printed_parts :
    (value : Bytes) (name? : Option Bytes) (others? : Option (List Bytes)) (lines : List Bytes)
    → (name? >>= λ name. others? >>= λ others.
        some ((text "a=fingerprint:" ++ (name ++ (text " " ++ value))) ∷ others))
      ≡ some lines
    → (name : Bytes) × (others : List Bytes) × (others? ≡ some others)
      × ((text "a=fingerprint:" ++ (name ++ (text " " ++ value))) ∷ others ≡ lines)
printed_parts value none others? lines e = cc
printed_parts value (some name) none lines e = cc
printed_parts value (some name) (some others) lines e = (
  name,
  others,
  refl,
  some-injective ((text "a=fingerprint:" ++ (name ++ (text " " ++ value))) ∷ others) lines e,
)

fingerprints-decoded :
    (fs : List Fingerprint) (lines : List Bytes) (s : RtcSdp)
    → fingerprint_lines fs ≡ some lines
    → (f : Fingerprint) × (decode_all lines s ≡ with_fingerprint f s)
unfolding fingerprint_lines decode_all
fingerprints-decoded [] lines s e =
    (s.remote_fingerprint, ap (λ t. decode_all t s) (sym (some-injective [] lines e)))
fingerprints-decoded (f ∷ fs) lines s e =
    let (name, others, printed, same) =
      printed_parts f.value (get_fingerprint_algorithm_string f.algorithm) (fingerprint_lines fs)
        lines e in
    let (g, taken) = decode_fingerprint-lem (name ++ (text " " ++ f.value)) s in
    let (h, more) = fingerprints-decoded fs others (with_fingerprint g s) printed in
    (h, ap (λ t. decode_all t s) (sym same) ∙ ap (decode_all others) taken ∙ more)

-- What a decoder has taken from the answer of a session.
abbrev pub answered : Fingerprint → ℤ → ℤ → RtcSdp → RtcSdp → RtcSdp
answered f audio video sdp s = record s {
  audio_payload_type = audio;
  video_payload_type = video;
  remote_ufrag = text "g:" ++ sdp.local_ufrag;
  remote_passwd = sdp.local_passwd;
  remote_role = text "passiv";
  remote_fingerprint = f;
}

-- A session that has taken payload types.
abbrev pub typed_session : ℕ → ℕ → RtcSdp → RtcSdp
typed_session a v sdp = record sdp { audio_payload_type = pos a; video_payload_type = pos v }

-- What the lines set in a decoder that has the given payload types.
abbrev keyed : RtcSdp → RtcSdp → RtcSdp
keyed sdp s = record s {
  remote_ufrag = text "g:" ++ sdp.local_ufrag;
  remote_passwd = sdp.local_passwd;
}

audio_front-decoded : (sdp s : RtcSdp) → decode_all (audio_front sdp) s ≡ keyed sdp s
unfolding decode_all audio_front
audio_front-decoded sdp s = refl

video_front-decoded : (sdp s : RtcSdp) → decode_all (video_front sdp) s ≡ keyed sdp s
unfolding decode_all video_front
video_front-decoded sdp s = refl

opus-decoded :
    (a : ℕ) (s : RtcSdp)
    → a < 128
    → decode_rtpmap (decimal a ++ text " opus/48000/2") (typed (negsuc 0) (negsuc 0) s)
      ≡ typed (pos a) (negsuc 0) s
unfolding decode_rtpmap text_eq split_first
opus-decoded a s small =
    let (one_word, reads) = payload_type-reads_back a small in
    rw (decode_rtpmap, split_first-append b' ' (decimal a) (text "opus/48000/2") one_word, reads)
      refl

audio_back-decoded :
    (sdp s : RtcSdp) (a v : ℕ)
    → a < 128
    → decode_all (audio_back (typed_session a v sdp)) (typed (negsuc 0) (negsuc 0) s)
      ≡ record (typed (pos a) (negsuc 0) s) { remote_role = text "passiv" }
unfolding decode_all audio_back print_int drop_last
audio_back-decoded sdp s a v small = opus-decoded a (record s { remote_role = text "passiv" }) small

video_back-decoded :
    (sdp s : RtcSdp) (a : ℕ)
    → decode_all (video_back sdp) (typed (pos a) (negsuc 0) s)
      ≡ record (typed (pos a) (pos 103) s) { remote_role = text "passiv" }
unfolding decode_all video_back drop_last
video_back-decoded sdp s a =
    let s' : RtcSdp = record s { remote_role = text "passiv" } in
    decode_all-append video_codecs (ssrc_lines sdp.video_ssrc sdp.stream_name (text "_video"))
      (typed (pos a) (negsuc 0) s')
    ∙ ap (decode_all (ssrc_lines sdp.video_ssrc sdp.stream_name (text "_video")))
        (codecs-decoded s' a)

module _ (sdp : RtcSdp) (a v : ℕ) (fps : List Bytes)
    (printed : fingerprint_lines sdp.finger_prints ≡ some fps) where
  abbrev self : RtcSdp
  self = typed_session a v sdp

  abbrev part : List Bytes → List Bytes → List Bytes
  part front back = front ++ (fps ++ back)

  part-decoded :
      (front back : List Bytes) (s s' : RtcSdp)
      → decode_all front s ≡ s'
      → (f : Fingerprint) × (decode_all (part front back) s
          ≡ decode_all back (with_fingerprint f s'))
  part-decoded front back s s' e =
      let (f, taken) = fingerprints-decoded sdp.finger_prints fps s' printed in
      (
        f,
        decode_all-append front (fps ++ back) s
            ∙ ap (decode_all (fps ++ back)) e
            ∙ decode_all-append fps back s'
            ∙ ap (decode_all back) taken,
      )

  -- The answer of a session that has taken payload types, read by another description: whatever the
  -- type of video is, 103 is read for it, the role lacks its last letter, and the name of the user has
  -- the end of its token in front.
  pub decode_lines-encode_lines :
      a < 128
      → (lines : List Bytes) × (f : Fingerprint) × (encode_lines self ≡ some lines)
        × (decode_lines lines new_rtc_sdp ≡ answered f (pos a) (pos 103) sdp new_rtc_sdp)
  unfolding encode_lines
  decode_lines-encode_lines small =
      let (g, audio) =
        part-decoded (audio_front self) (audio_back self) new_rtc_sdp _
          (audio_front-decoded self new_rtc_sdp) in
      let s1 = answered g (pos a) (negsuc 0) sdp new_rtc_sdp in
      let (f, video) =
        part-decoded (video_front self) (video_back self) s1 _ (video_front-decoded self s1) in
      (
        head_lines self
            ++ (part (audio_front self) (audio_back self)
                ++ part (video_front self) (video_back self)),
        f,
        rw (encode_lines, printed, ◌>>=◌) refl,
        decode_lines-decode_all _ new_rtc_sdp
            ∙ decode_all-append (head_lines self) _ new_rtc_sdp
            ∙ ap (decode_all _) (head-kept self new_rtc_sdp)
            ∙ decode_all-append (part (audio_front self) (audio_back self)) _ new_rtc_sdp
            ∙ ap (decode_all _) (
                audio
                ∙ audio_back-decoded sdp (with_fingerprint g (keyed sdp new_rtc_sdp)) a v small)
            ∙ video
            ∙ video_back-decoded self (with_fingerprint f (keyed sdp s1)) a,
      )
