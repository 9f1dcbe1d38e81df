-- ===== src/Gb28181/Frames.antt =====
-- Framed packets that arrive in any segments.
use clibmedia_transfer_proto.Common.{
  ℕ, zero, suc, ◌+◌, ◌-◌, ◌≤◌, ◌<◌, ◌^◌, ◌≡◌, ◌⊎◌, inl, inr, refl, sym, ap, ◌∙◌, Option, some, List,
  [], ◌∷◌, ◌++◌, arith, length, take, drop, ltb, All, append_assoc, append-nil, length-append,
  lt→ltb, le→ltb, drop-drop, ap₂, drop-append_eq, drop-append_le, take-append_eq, take-append_le,
  take-append-drop, length-drop, Bool-cases, ◌/◌, ◌%◌, Bool, true, false, not, ◌&&◌, ◌==◌, leb,
  none, if◌then◌else◌,
}
use clibmedia_transfer_proto.Common.Int.{pos}
use clibmedia_transfer_proto.ByteIo.{
  Bytes, read_big_endian, write_big_endian, reinterpret_as_signed,
}
use clibmedia_transfer_proto.ByteIo.RoundTrip.{read-write_big_endian, length-write_big_endian}
use clibmedia_transfer_proto.Gb28181.{
  parsed, receive_frame, parse_frames, is_rtp_packet, has_rtp_version, is_reserved_for_rtcp,
}

-- A packet that a frame can carry.
abbrev pub IsFrame : Bytes → Type 0
IsFrame frame = (0 < length frame) × (length frame < 2 ^ 15)

abbrev pub framed : Bytes → Bytes
framed frame = write_big_endian 2 (length frame) ++ frame

abbrev pub framed_all : List Bytes → Bytes
framed_all [] = []
framed_all (frame ∷ frames) = framed frame ++ framed_all frames

-- A packet that a receiver of media is to have: twelve bytes at least, version 2 in the first two
-- bits, a second byte that RTCP does not use, and payload type 96, as the RTP library reads it.
unfoldable pub is_media : (Bytes → Option ℕ) → Bytes → Bool
is_media payload_type (first ∷ second ∷ rest) =
    leb 10 (length rest)
    && (leb 128 first
        && (ltb first 192
            && (not (leb 64 (second % 128) && ltb (second % 128) 96)
                && elim (payload_type (first ∷ second ∷ rest)) [
                  | none ↦ false
                  | some t ↦ t == 96
                ])))
is_media payload_type short = false

-- The packets of media among the frames, in order.
abbrev pub media : (Bytes → Option ℕ) → List Bytes → List Bytes
media payload_type [] = []
media payload_type (frame ∷ frames) =
    (if is_media payload_type frame then frame ∷ [] else []) ++ media payload_type frames

receive_frame-is_media :
    (payload_type : Bytes → Option ℕ) (frame : Bytes)
    → receive_frame payload_type frame ≡ (if is_media payload_type frame then frame ∷ [] else [])
unfolding receive_frame is_media is_rtp_packet has_rtp_version is_reserved_for_rtcp
receive_frame-is_media payload_type [] = refl
receive_frame-is_media payload_type (a ∷ []) = refl
receive_frame-is_media payload_type (a ∷ b ∷ rest) =
    rw (long, version)
      (by_test (leb 10 (length rest)) (leb 128 a) (ltb a 192)
        (not (leb 64 (b % 128) && ltb (b % 128) 96)) (payload_type (a ∷ b ∷ rest)))
  where
    long : leb 12 (length (a ∷ b ∷ rest)) ≡ leb 10 (length rest)
    long = ground arith

    version : (a / 64 == 2) ≡ (leb 128 a && ltb a 192)
    version = ground arith

    by_test :
        (x y z w : Bool) (t : Option ℕ)
        → (if x && ((y && z) && w)
            then elim t [ none ↦ [] | some t ↦ if t == 96 then (a ∷ b ∷ rest) ∷ [] else [] ]
            else [])
          ≡ (if x && (y && (z && (w && elim t [ none ↦ false | some t ↦ t == 96 ])))
              then (a ∷ b ∷ rest) ∷ []
              else [])
    by_test false y z w t = refl
    by_test true false z w t = refl
    by_test true true false w t = refl
    by_test true true true false t = refl
    by_test true true true true none = refl
    by_test true true true true (some t) = refl

-- The front of a frame that is not there as a whole.
abbrev pub IsPart : Bytes → Type 0
IsPart rest =
    (length rest ≤ 2)
    ⊎ ((n : ℕ) × (read_big_endian 2 rest ≡ some n) × (n < 2 ^ 15) × (length rest < n + 2))

signed_pos : (n : ℕ) → n < 2 ^ 15 → reinterpret_as_signed 2 n ≡ pos n
unfolding reinterpret_as_signed
signed_pos n h = rw (lt→ltb n (256 ^ 2 / 2) (omega arith)) refl

parse_frames-part :
    (payload_type : Bytes → Option ℕ) (fuel : ℕ) (buffer : Bytes) (at' : ℕ) (packets : List Bytes)
    → 0 < fuel
    → IsPart (drop at' buffer)
    → parse_frames payload_type fuel buffer at' packets ≡ parsed at' packets
unfolding parse_frames
parse_frames-part payload_type zero buffer at' packets h part = absurd (omega arith)
parse_frames-part payload_type (suc fuel) buffer at' packets h (inl short) =
    rw (le→ltb 2 (length buffer - at') (omega (arith, length-drop at' buffer, short)), parse_frames)
      refl
parse_frames-part payload_type (suc fuel) buffer at' packets h (inr (n, e, small, long)) =
    elim (Bool-cases (ltb 2 (length buffer - at'))) [
      | inl more ↦
          rw
            (
              parse_frames,
              more,
              e,
              signed_pos n small,
              lt→ltb (length buffer - at') (n + 2) (omega (arith, length-drop at' buffer, long)),
            )
            refl
      | inr few ↦ rw (parse_frames, few) refl
    ]

-- A list that starts with `h` on either side of the place where it is cut.
pub front_split :
    (d e h x : Bytes)
    → d ++ e ≡ h ++ x
    → length h ≤ length d
    → (d ≡ h ++ drop (length h) d) × (drop (length h) d ++ e ≡ x)
front_split d e h x q le = (
  sym (take-append-drop (length h) d)
      ∙ ap (λ t. t ++ drop (length h) d)
          (sym (take-append_le (length h) d e le)
            ∙ ap (take (length h)) q
            ∙ take-append_eq (length h) h x refl),
  sym (drop-append_le (length h) d e le)
      ∙ ap (drop (length h)) q
      ∙ drop-append_eq (length h) h x refl,
)

pub length-framed : (frame : Bytes) → length (framed frame) ≡ 2 + length frame
length-framed frame = omega (
  arith,
  length-append (write_big_endian 2 (length frame)) frame,
  length-write_big_endian 2 (length frame),
)

pub read-framed :
    (frame rest : Bytes)
    → IsFrame frame
    → read_big_endian 2 (write_big_endian 2 (length frame) ++ rest) ≡ some (length frame)
read-framed frame rest f =
    read-write_big_endian 2 (length frame) rest ∙ ap some (omega (arith, f.1))

parse_frames-frame :
    (payload_type : Bytes → Option ℕ) (fuel : ℕ) (buffer : Bytes) (at' : ℕ) (packets : List Bytes)
    (frame rest : Bytes)
    → IsFrame frame
    → drop at' buffer ≡ framed frame ++ rest
    → parse_frames payload_type (suc fuel) buffer at' packets
      ≡ parse_frames payload_type fuel buffer
          (at' + 2 + length frame)
          (packets ++ (if is_media payload_type frame then frame ∷ [] else []))
unfolding parse_frames
parse_frames-frame payload_type fuel buffer at' packets frame rest f e =
    rw
      (
        parse_frames,
        lt→ltb 2 (length buffer - at') (omega (arith, f.0, size)),
        header,
        signed_pos (length frame) f.1,
        le→ltb (length buffer - at') (length frame + 2) (omega (arith, size)),
        body,
        receive_frame-is_media payload_type frame,
      )
      refl
  where
    size : length buffer - at' ≡ 2 + length frame + length rest
    size = omega (
      arith,
      length-drop at' buffer,
      ap length e,
      length-append (framed frame) rest,
      length-framed frame,
    )

    cut : drop at' buffer ≡ write_big_endian 2 (length frame) ++ (frame ++ rest)
    cut = e ∙ append_assoc (write_big_endian 2 (length frame)) frame rest

    header : read_big_endian 2 (drop at' buffer) ≡ some (length frame)
    header = ap (read_big_endian 2) cut ∙ read-framed frame (frame ++ rest) f

    body : take (length frame) (drop (at' + 2) buffer) ≡ frame
    body =
        ap (take (length frame)) (
          sym (drop-drop 2 at' (at' + 2) buffer refl)
          ∙ ap (drop 2) cut
          ∙ drop-append_eq 2 (write_big_endian 2 (length frame)) (frame ++ rest)
              (sym (length-write_big_endian 2 (length frame))))
        ∙ take-append_eq (length frame) frame rest refl

pub parse_frames-framed_all :
    (payload_type : Bytes → Option ℕ) (whole : List Bytes) (rest : Bytes) (fuel : ℕ)
    (buffer : Bytes) (at' : ℕ) (packets : List Bytes)
    → All IsFrame whole
    → IsPart rest
    → length whole < fuel
    → drop at' buffer ≡ framed_all whole ++ rest
    → parse_frames payload_type fuel buffer at' packets
      ≡ parsed (at' + length (framed_all whole)) (packets ++ media payload_type whole)
parse_frames-framed_all payload_type [] rest fuel buffer at' packets a part enough e =
    parse_frames-part payload_type fuel buffer at' packets (omega arith) (rw e part)
    ∙ ap₂ parsed (omega arith) (sym (append-nil packets))
parse_frames-framed_all payload_type (frame ∷ whole) rest zero buffer at' packets a part enough e =
    absurd (omega arith)
parse_frames-framed_all payload_type (frame ∷ whole) rest (suc fuel) buffer at' packets a part
      enough e =
    parse_frames-frame payload_type fuel buffer at' packets frame (framed_all whole ++ rest) a.0
      first
    ∙ parse_frames-framed_all payload_type whole rest fuel buffer (at' + 2 + length frame)
        (packets ++ (if is_media payload_type frame then frame ∷ [] else [])) a.1 part (omega arith)
        (sym (drop-drop (2 + length frame) at' (at' + 2 + length frame) buffer (omega arith))
          ∙ ap (drop (2 + length frame)) first
          ∙ drop-append_eq (2 + length frame) (framed frame) (framed_all whole ++ rest)
              (sym (length-framed frame)))
    ∙ ap₂ parsed
        (omega (arith, length-append (framed frame) (framed_all whole), length-framed frame))
        (append_assoc packets (if is_media payload_type frame then frame ∷ [] else [])
          (media payload_type whole))
  where
    first : drop at' buffer ≡ framed frame ++ (framed_all whole ++ rest)
    first = e ∙ append_assoc (framed frame) (framed_all whole) rest
