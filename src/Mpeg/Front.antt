-- ===== src/Mpeg/Front.antt =====
-- The front of a packet of audio or video: what `parse` reads of it, and what it has left to do then.
use clibmedia_transfer_proto.Common.{
  ℕ, zero, suc, ◌+◌, ◌*◌, ◌^◌, ◌≤◌, ◌<◌, ◌≡◌, inl, inr, refl, sym, ap, ◌∙◌, true, false, Option,
  some, [], ◌∷◌, ◌++◌, ◌==◌, ltb, ◌>>=◌, arith, length, take, drop, append_assoc, length-append,
  le→ltb, drop-append_eq, Bool-cases, get_elem?,
}
use clibmedia_transfer_proto.ByteIo.{Bytes, read_loop, read_big_endian, write_big_endian}
use clibmedia_transfer_proto.ByteIo.RoundTrip.{read-write_big_endian, length-write_big_endian}
use clibmedia_transfer_proto.Mpeg.{
  MpegDecoder, Round, payload_size, begins, frame_start, flush, flush_frame, has_pts, read_pts,
  copy_payload, video_payload, video_packet,
}
use clibmedia_transfer_proto.Mpeg.Packets.{pes_front, number, same_front, starts_picture, pts_of}

read_loop-number :
    (n val : ℕ) (header tail : Bytes)
    → n ≤ length header
    → read_loop n val (header ++ tail) ≡ some (number val (take n header))
unfolding read_loop
read_loop-number zero val header tail h = refl
read_loop-number (suc n) val [] tail h = absurd (omega arith)
read_loop-number (suc n) val (b ∷ header) tail h =
    read_loop-number n (val * 256 + b) header tail (omega arith)

-- The front of a packet of audio or video, byte by byte.
front_bytes :
    (stream_id mark flags : ℕ) (header : Bytes) (n : ℕ) (tail : Bytes)
    → pes_front stream_id mark flags header n ++ tail
      ≡ 0
        ∷ 0
        ∷ 1
        ∷ stream_id
        ∷ (write_big_endian 2 (3 + length header + n)
            ++ (mark ∷ flags ∷ length header ∷ (header ++ tail)))
front_bytes stream_id mark flags header n tail =
    ap (λ t. 0 ∷ 0 ∷ 1 ∷ stream_id ∷ t)
      (append_assoc (write_big_endian 2 (3 + length header + n))
        (mark ∷ flags ∷ length header ∷ header) tail)

pub length-pes_front :
    (stream_id mark flags : ℕ) (header : Bytes) (n : ℕ)
    → length (pes_front stream_id mark flags header n) ≡ 9 + length header
length-pes_front stream_id mark flags header n = omega (
  arith,
  length-append (write_big_endian 2 (3 + length header + n))
      (mark ∷ flags ∷ length header ∷ header),
  length-write_big_endian 2 (3 + length header + n),
)

begins_lem :
    (start payload : Bytes)
    → length start ≤ length payload
    → begins start payload ≡ some (same_front start payload)
unfolding begins same_front
begins_lem [] payload h = refl
begins_lem (b ∷ start) [] h = absurd (omega arith)
begins_lem (b ∷ start) (p ∷ payload) h = elim (Bool-cases (p == b)) [
  | inl e ↦ rw (begins, same_front, e) (begins_lem start payload (omega arith))
  | inr e ↦ rw (begins, same_front, e) refl
]

flush_frame-begins :
    (payload : Bytes) (d : MpegDecoder)
    → 4 ≤ length payload
    → flush_frame payload d ≡ some (flush (starts_picture payload d) d)
unfolding flush_frame starts_picture
flush_frame-begins payload d h = elim (Bool-cases (ltb 4 (length d.byte_stream))) [
  | inl e ↦ rw (flush_frame, starts_picture, e, begins_lem frame_start payload h) refl
  | inr e ↦ rw (flush_frame, starts_picture, e) (unfold flush in refl)
]

pub payload_size_lem : (h n : ℕ) → 3 + h + n < 2 ^ 16 → payload_size (3 + h + n) h ≡ n
unfolding payload_size
payload_size_lem h n fits = omega arith

module _ (stream_id mark flags : ℕ) (header : Bytes) (n : ℕ) (tail : Bytes)
    (fits : 3 + length header + n < 2 ^ 16) where
  abbrev pub front : Bytes
  front = pes_front stream_id mark flags header n

  pub pse_length_read : read_big_endian 2 (drop 4 (front ++ tail)) ≡ some (3 + length header + n)
  pse_length_read =
      ap (λ t. read_big_endian 2 (drop 4 t)) (front_bytes stream_id mark flags header n tail)
      ∙ read-write_big_endian 2 (3 + length header + n) _
      ∙ ap some (omega arith)

  flags_read : get_elem? (front ++ tail) 7 ≡ some flags
  unfolding write_big_endian
  flags_read = refl

  pub stuffing_read : get_elem? (front ++ tail) 8 ≡ some (length header)
  unfolding write_big_endian
  stuffing_read = refl

  front_header : drop 9 (front ++ tail) ≡ header ++ tail
  unfolding write_big_endian
  front_header = refl

  pub front_payload : drop (9 + length header) (front ++ tail) ≡ tail
  front_payload =
      drop-append_eq (9 + length header) front tail
        (sym (length-pes_front stream_id mark flags header n))

  pub not_short : ltb (length (front ++ tail)) 9 ≡ false
  not_short =
      le→ltb (length (front ++ tail)) 9
        (omega (arith, length-append front tail, length-pes_front stream_id mark flags header n))

  abbrev video_round : MpegDecoder → Option Round
  video_round d = video_payload (3 + length header + n) flags (length header) (front ++ tail) d

  video_packet-front : (d : MpegDecoder) → 0 < n → video_packet (front ++ tail) d ≡ video_round d
  unfolding video_packet
  video_packet-front d some_left =
      rw
        (
          video_packet,
          not_short,
          pse_length_read,
          flags_read,
          stuffing_read,
          ◌>>=◌,
          payload_size_lem (length header) n fits,
          some_size,
        )
        refl
    where
      some_size : (n == 0) ≡ false
      some_size = ground arith

  pts_of_lem :
      (d : MpegDecoder)
      → (has_pts flags ≡ true → 5 ≤ length header)
      → read_pts flags (front ++ tail) d
        ≡ some (record d { video_pts = pts_of flags header d.video_pts })
  unfolding read_pts pts_of
  pts_of_lem d timed = elim (Bool-cases (has_pts flags)) [
    | inl e ↦ rw (read_pts, pts_of, e, front_header, time (timed e), ◌>>=◌) refl
    | inr e ↦ rw (read_pts, pts_of, e) refl
  ]
    where
      time :
          5 ≤ length header → read_big_endian 5 (header ++ tail) ≡ some (number 0 (take 5 header))
      time h = unfold read_big_endian in read_loop-number 5 0 header tail h

  -- What is left to do once the front is read.
  pub video_packet-front_copy :
      (d : MpegDecoder)
      → (has_pts flags ≡ true → 5 ≤ length header)
      → 0 < n
      → 4 ≤ length tail
      → let (d', events) = flush (starts_picture tail d) d in
        video_packet (front ++ tail) d
        ≡ copy_payload
            (3 + length header + n)
            (length header)
            tail
            (drop (9 + (length header + n)) (front ++ tail))
            events
            (record d' { video_pts = pts_of flags header d'.video_pts })
  unfolding video_payload
  video_packet-front_copy d timed some_left long =
      video_packet-front d some_left
      ∙ rw
          (
            video_payload,
            le→ltb (length (front ++ tail)) (9 + length header) (
                omega (
                  arith,
                  length-append front tail,
                  length-pes_front stream_id mark flags header n,
                )),
            front_payload,
            flush_frame-begins tail d long,
            ◌>>=◌,
            pts_of_lem (flush (starts_picture tail d) d).0 timed,
          )
          (ap
            (λ t.
              copy_payload (3 + length header + n) (length header) tail (drop t (front ++ tail))
                (flush (starts_picture tail d) d).1
                (record (flush (starts_picture tail d) d).0 {
                  video_pts = pts_of flags header (flush (starts_picture tail d) d).0.video_pts;
                }))
            (omega arith))
