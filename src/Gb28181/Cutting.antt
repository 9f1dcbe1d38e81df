-- ===== src/Gb28181/Cutting.antt =====
-- A stream of frames, cut anywhere.
use clibmedia_transfer_proto.Common.{
  ℕ, ◌+◌, ◌<◌, ◌≡◌, inl, inr, refl, sym, ap, ◌∙◌, Option, List, [], ◌∷◌, ◌++◌, arith, length, drop,
  ltb, ltb→lt, ltb→le, All, if◌then◌else◌, append_assoc, length-append, Bool-cases,
}
use clibmedia_transfer_proto.ByteIo.{Bytes, read_big_endian, write_big_endian}
use clibmedia_transfer_proto.ByteIo.RoundTrip.{length-write_big_endian}
use clibmedia_transfer_proto.Gb28181.Frames.{
  IsFrame, IsPart, framed, framed_all, is_media, media, front_split, length-framed, read-framed,
}

-- Where a stream of frames is cut: the frames before the cut, a part of one, and the frames that
-- this part begins.
pub record Cut (payload_type : Bytes → Option ℕ) (frames : List Bytes) (d e : Bytes) : Type 0 where
  pub whole : List Bytes
  pub later : List Bytes
  pub rest : Bytes
  pub whole_fit : All IsFrame whole
  pub later_fit : All IsFrame later
  pub part : IsPart rest
  pub before : d ≡ framed_all whole ++ rest
  pub after : rest ++ e ≡ framed_all later
  pub split : media payload_type frames ≡ media payload_type whole ++ media payload_type later

front-IsPart :
    (frame d e x : Bytes)
    → IsFrame frame
    → d ++ e ≡ framed frame ++ x
    → length d < 2 + length frame
    → IsPart d
front-IsPart frame d e x f q short = elim (Bool-cases (ltb 2 (length d))) [
  | inr few ↦ inl (ltb→le 2 (length d) few)
  | inl more ↦
      let (front, _) =
        front_split d e (write_big_endian 2 (length frame)) (frame ++ x)
          (q ∙ append_assoc (write_big_endian 2 (length frame)) frame x)
          (omega (arith, ltb→lt 2 (length d) more, length-write_big_endian 2 (length frame))) in
      inr (length frame, ap (read_big_endian 2) front ∙ read-framed frame _ f, f.1, omega arith)
]

pub cut :
    (payload_type : Bytes → Option ℕ) (frames : List Bytes) (d e : Bytes)
    → All IsFrame frames
    → d ++ e ≡ framed_all frames
    → Cut payload_type frames d e
cut payload_type [] d e a q = record {
  whole = [];
  later = [];
  rest = d;
  whole_fit = tt;
  later_fit = tt;
  part = inl (omega (arith, ap length q, length-append d e));
  before = refl;
  after = q;
  split = refl;
}
cut payload_type (frame ∷ frames) d e a q = elim (Bool-cases (ltb (length d) (2 + length frame))) [
  | inl short ↦ record {
    whole = [];
    later = frame ∷ frames;
    rest = d;
    whole_fit = tt;
    later_fit = a;
    part = front-IsPart frame d e (framed_all frames) a.0 q (ltb→lt _ _ short);
    before = refl;
    after = q;
    split = refl;
  }
  | inr long ↦
      let (front, back) =
        front_split d e (framed frame) (framed_all frames) q
          (omega (arith, ltb→le _ _ long, length-framed frame)) in
      let c = cut payload_type frames (drop (length (framed frame)) d) e a.1 back in
      record {
        whole = frame ∷ c.whole;
        later = c.later;
        rest = c.rest;
        whole_fit = (a.0, c.whole_fit);
        later_fit = c.later_fit;
        part = c.part;
        before =
            front
            ∙ ap (λ t. framed frame ++ t) c.before
            ∙ sym (append_assoc (framed frame) (framed_all c.whole) c.rest);
        after = c.after;
        split =
            ap (λ t. (if is_media payload_type frame then frame ∷ [] else []) ++ t) c.split
            ∙ sym (
                append_assoc (if is_media payload_type frame then frame ∷ [] else [])
                  (media payload_type c.whole) (media payload_type c.later));
      }
]
