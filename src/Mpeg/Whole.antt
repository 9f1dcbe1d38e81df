-- ===== src/Mpeg/Whole.antt =====
-- One round of `parse` on a packet that begins the data.
use clibmedia_transfer_proto.Common.{
  ℕ, ◌+◌, ◌^◌, ◌≤◌, ◌<◌, ◌≡◌, refl, sym, ap, ◌∙◌, Bool, true, false, some, List, [], ◌∷◌, ◌++◌,
  ◌>>=◌, arith, length, drop, append_assoc, length-append, lt→ltb, le→ltb, take-append_eq,
  drop-append_eq,
}
use clibmedia_transfer_proto.Common.Int.{pos, sub_ℕ}
use clibmedia_transfer_proto.ByteIo.{Bytes, write_big_endian}
use clibmedia_transfer_proto.Mpeg.{
  MpegDecoder, Event, next, stop, append_stream, flush, has_pts, copy_payload, round,
  byte_stream_capacity,
}
use clibmedia_transfer_proto.Mpeg.Packets.{
  video, pes_front, written, starts_picture, pts_of, receive_packet,
}
use clibmedia_transfer_proto.Mpeg.Front.{
  payload_size_lem, length-pes_front, video_packet-front_copy,
}

-- The first bytes of a payload tell whether it starts a picture.
pub starts_picture-append :
    (payload rest : Bytes) (d : MpegDecoder)
    → 4 ≤ length payload
    → starts_picture (payload ++ rest) d ≡ starts_picture payload d
unfolding starts_picture
starts_picture-append (a ∷ b ∷ c ∷ e ∷ payload) rest d h = refl
starts_picture-append [] rest d h = absurd (omega arith)
starts_picture-append (a ∷ []) rest d h = absurd (omega arith)
starts_picture-append (a ∷ b ∷ []) rest d h = absurd (omega arith)
starts_picture-append (a ∷ b ∷ c ∷ []) rest d h = absurd (omega arith)

pub append_stream-room :
    (bytes : Bytes) (d : MpegDecoder)
    → length d.byte_stream + length bytes ≤ byte_stream_capacity
    → append_stream bytes d ≡ some (record d { byte_stream = d.byte_stream ++ bytes })
unfolding append_stream
append_stream-room bytes d h =
    rw (append_stream, le→ltb byte_stream_capacity (length d.byte_stream + length bytes) h) refl

pub flush-le :
    (b : Bool) (d : MpegDecoder) → length (flush b d).0.byte_stream ≤ length d.byte_stream
unfolding flush
flush-le true d = omega arith
flush-le false d = omega arith

-- A decoder with the time of a packet.
abbrev timed_by : ℕ → Bytes → MpegDecoder → MpegDecoder
timed_by flags header d = record d { video_pts = pts_of flags header d.video_pts }

module _ (mark flags : ℕ) (header payload rest : Bytes) (d : MpegDecoder)
    (timed : has_pts flags ≡ true → 5 ≤ length header) (long : 4 ≤ length payload) where
  abbrev flushed : MpegDecoder × List Event
  flushed = flush (starts_picture payload d) d

  copy_payload-whole :
      3 + length header + length payload < 2 ^ 16
      → length d.byte_stream + length payload ≤ byte_stream_capacity
      → (events : List Event)
      → copy_payload
          (3 + length header + length payload)
          (length header)
          (payload ++ rest)
          rest
          events
          (timed_by flags header flushed.0)
        ≡ some (
            next rest
              (record (timed_by flags header flushed.0) {
                byte_stream = flushed.0.byte_stream ++ payload;
              })
              events)
  unfolding copy_payload
  copy_payload-whole fits room events =
      rw
        (
          copy_payload,
          payload_size_lem (length header) (length payload) fits,
          le→ltb (length (payload ++ rest)) (length payload)
              (omega (arith, length-append payload rest)),
          take-append_eq (length payload) payload rest refl,
          append_stream-room payload (timed_by flags header flushed.0)
              (omega (arith, flush-le (starts_picture payload d) d, room)),
          ◌>>=◌,
        )
        refl

  pub round-video :
      3 + length header + length payload < 2 ^ 16
      → length d.byte_stream + length payload ≤ byte_stream_capacity
      → round (written (video mark flags header payload) ++ rest) d
        ≡ some (
            next rest
              (receive_packet d (video mark flags header payload)).0
              (receive_packet d (video mark flags header payload)).1)
  unfolding round write_big_endian receive_packet
  round-video fits room =
      ap (λ t. round t d)
        (append_assoc (pes_front 0xE0 mark flags header (length payload)) payload rest)
      ∙ video_packet-front_copy 0xE0 mark flags header (length payload) (payload ++ rest) fits d
          timed (omega arith) (omega (arith, length-append payload rest))
      ∙ rw (starts_picture-append payload rest d long, after)
          (copy_payload-whole fits room flushed.1)
    where
      after :
          drop
            (9 + (length header + length payload))
            (pes_front 0xE0 mark flags header (length payload) ++ (payload ++ rest))
          ≡ rest
      after =
          ap (drop (9 + (length header + length payload)))
            (sym (append_assoc (pes_front 0xE0 mark flags header (length payload)) payload rest))
          ∙ drop-append_eq (9 + (length header + length payload))
              (pes_front 0xE0 mark flags header (length payload) ++ payload) rest
              (omega (
                arith,
                length-append (pes_front 0xE0 mark flags header (length payload)) payload,
                length-pes_front 0xE0 mark flags header (length payload),
              ))

  -- Of a longer payload, `payload` is what has arrived.
  pub round-video_part :
      (n : ℕ)
      → length payload < n
      → 3 + length header + n < 2 ^ 16
      → length d.byte_stream + length payload ≤ byte_stream_capacity
      → round (pes_front 0xE0 mark flags header n ++ payload) d
        ≡ some (
            stop
              (pos 0)
              (record (timed_by flags header flushed.0) {
                byte_stream = flushed.0.byte_stream ++ payload;
                read_byte = sub_ℕ (3 + length header + n) (3 + length header + length payload);
              })
              flushed.1)
  unfolding round write_big_endian
  round-video_part n less fits room =
      video_packet-front_copy 0xE0 mark flags header n payload fits d timed (omega arith) long
      ∙ rw
          (
            copy_payload,
            payload_size_lem (length header) n fits,
            lt→ltb (length payload) n less,
            append_stream-room payload (timed_by flags header flushed.0)
                (omega (arith, flush-le (starts_picture payload d) d, room)),
            ◌>>=◌,
          )
          (unfold copy_payload in refl)
