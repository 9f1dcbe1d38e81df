-- ===== src/Gb28181/Stream.antt =====
-- What `OnRead` makes of a stream of frames, in the segments that it arrives in.
use clibmedia_transfer_proto.Common.{
  ℕ, ◌+◌, ◌-◌, ◌≤◌, ◌<◌, ◌≡◌, inl, inr, refl, sym, ap, ap₂, ◌∙◌, Option, List, [], ◌∷◌, ◌++◌, arith,
  length, drop, concat, All, append_assoc, append-nil, length-append, drop-append_eq, take-all,
}
use mathlib.Core.Option.{some-injective}
use clibmedia_transfer_proto.ByteIo.{Bytes, read_big_endian, write_big_endian}
use clibmedia_transfer_proto.Gb28181.{
  Session, parse_frames, parsed, Read, done, fails, runs, on_read, receive, keep_rest,
  buffer_capacity,
}
use clibmedia_transfer_proto.Gb28181.Cutting.{Cut, cut}
use clibmedia_transfer_proto.Gb28181.Frames.{
  IsFrame, IsPart, framed, framed_all, media, length-framed, read-framed, parse_frames-framed_all,
}

-- Segments that fit the buffer behind any part of a frame.
abbrev pub Fits : Bytes → Type 0
Fits seg = length seg + 32770 ≤ buffer_capacity

then_reads : List Bytes → Read → Read
then_reads packets (done s more) = done s (packets ++ more)
then_reads packets fails = fails
then_reads packets runs = runs

-- One `OnRead` for each segment: what it leaves, and all that it has handed on.
unfoldable pub on_reads : (Bytes → Option ℕ) → ℕ → Session → List Bytes → Read
unfolding then_reads
on_reads payload_type fuel s [] = done s []
on_reads payload_type fuel s (seg ∷ segs) = elim (on_read payload_type fuel s seg) [
  | done s' packets ↦ then_reads packets (on_reads payload_type fuel s' segs)
  | fails ↦ fails
  | runs ↦ runs
]

part_short : (rest : Bytes) → IsPart rest → length rest < 32770
part_short rest (inl short) = omega arith
part_short rest (inr (n, e, small, long)) = omega arith

part_empty :
    (payload_type : Bytes → Option ℕ) (frames : List Bytes) (rest : Bytes)
    → All IsFrame frames
    → IsPart rest
    → rest ≡ framed_all frames
    → (rest ≡ []) × (media payload_type frames ≡ [])
part_empty payload_type [] rest a part e = (e, refl)
part_empty payload_type (frame ∷ frames) rest a (inl short) e = absurd (
    omega (
      arith,
      short,
      a.0.0,
      ap length e,
      length-append (framed frame) (framed_all frames),
      length-framed frame,
    ))
part_empty payload_type (frame ∷ frames) rest a (inr (n, read, small, long)) e = absurd (
    omega (
      arith,
      long,
      same,
      ap length e,
      length-append (framed frame) (framed_all frames),
      length-framed frame,
    ))
  where
    same : n ≡ length frame
    same = some-injective n (length frame) (
        sym read
        ∙ ap (read_big_endian 2)
            (e ∙ append_assoc (write_big_endian 2 (length frame)) frame (framed_all frames))
        ∙ read-framed frame _ a.0)

length-framed_all : (frames : List Bytes) → length frames ≤ length (framed_all frames)
length-framed_all [] = omega arith
length-framed_all (frame ∷ frames) = omega (
  arith,
  length-framed_all frames,
  length-append (framed frame) (framed_all frames),
  length-framed frame,
)

on_read-whole :
    (payload_type : Bytes → Option ℕ) (fuel : ℕ) (kept seg : Bytes) (whole : List Bytes)
    (rest : Bytes)
    → IsPart kept
    → Fits seg
    → All IsFrame whole
    → IsPart rest
    → length kept + length seg < fuel
    → kept ++ seg ≡ framed_all whole ++ rest
    → on_read payload_type fuel (record { recv_buffer = kept }) seg
      ≡ done (record { recv_buffer = rest }) (media payload_type whole)
unfolding on_read
on_read-whole payload_type fuel kept seg whole rest pk fits a part enough e =
    ap₂ keep_rest received (ap (λ t. parse_frames payload_type fuel t 0 []) received ∙ looped)
    ∙ unfold keep_rest in
      ap (λ t. done (record { recv_buffer = t }) (media payload_type whole))
        (ap (drop (length (framed_all whole))) e
          ∙ drop-append_eq (length (framed_all whole)) (framed_all whole) rest refl)
  where
    looped :
        parse_frames payload_type fuel (kept ++ seg) 0 []
        ≡ parsed (length (framed_all whole)) (media payload_type whole)
    looped =
        parse_frames-framed_all payload_type whole rest fuel (kept ++ seg) 0 [] a part
          (omega (
            arith,
            enough,
            length-framed_all whole,
            ap length e,
            length-append kept seg,
            length-append (framed_all whole) rest,
          ))
          e
        ∙ ap (λ n. parsed n (media payload_type whole)) (omega arith)

    received : receive (record { recv_buffer = kept }) seg ≡ kept ++ seg
    received =
        unfold receive in
        ap (λ t. kept ++ t)
          (take-all (buffer_capacity - length kept) seg (omega (arith, fits, part_short kept pk)))

on_reads-part :
    (payload_type : Bytes → Option ℕ) (fuel : ℕ) (segs : List Bytes) (kept : Bytes)
    (frames : List Bytes)
    → IsPart kept
    → All Fits segs
    → All IsFrame frames
    → length (framed_all frames) < fuel
    → kept ++ concat segs ≡ framed_all frames
    → on_reads payload_type fuel (record { recv_buffer = kept }) segs
      ≡ done (record { recv_buffer = [] }) (media payload_type frames)
unfolding on_reads then_reads
on_reads-part payload_type fuel [] kept frames pk fits a enough e =
    let (none_left, no_packets) =
      part_empty payload_type frames kept a pk (sym (append-nil kept) ∙ e) in
    ap₂ (λ t u. done (record { recv_buffer = t }) u) none_left (sym no_packets)
on_reads-part payload_type fuel (seg ∷ segs) kept frames pk fits a enough e =
    let c : Cut payload_type frames (kept ++ seg) (concat segs) =
      cut payload_type frames (kept ++ seg) (concat segs) a
        (append_assoc kept seg (concat segs) ∙ e) in
    let total : length kept + (length seg + length (concat segs)) ≡ length (framed_all frames) =
      omega (
        arith,
        ap length e,
        length-append kept (seg ++ concat segs),
        length-append seg (concat segs),
      ) in
    rw
      (
        on_reads,
        on_read-whole payload_type fuel kept seg c.whole c.rest pk fits.0 c.whole_fit c.part
            (omega arith) c.before,
        on_reads-part payload_type fuel segs c.rest c.later c.part fits.1 c.later_fit
            (omega (
              arith,
              enough,
              total,
              ap length c.before,
              ap length c.after,
              length-append kept seg,
              length-append (framed_all c.whole) c.rest,
              length-append c.rest (concat segs),
            ))
            c.after,
        c.split,
      )
      refl

-- A stream of frames of 1 to 32767 bytes, cut into any segments that fit the buffer: over the reads
-- of the segments, exactly those frames are handed on, in order, that are RTP packets of version 2
-- and payload type 96, and nothing is kept.
pub on_reads-frames :
    (payload_type : Bytes → Option ℕ) (fuel : ℕ) (frames segs : List Bytes)
    → All IsFrame frames
    → All Fits segs
    → concat segs ≡ framed_all frames
    → length (framed_all frames) < fuel
    → on_reads payload_type fuel (record { recv_buffer = [] }) segs
      ≡ done (record { recv_buffer = [] }) (media payload_type frames)
on_reads-frames payload_type fuel frames segs a fits e enough =
    on_reads-part payload_type fuel segs [] frames (inl (omega arith)) fits a enough e
