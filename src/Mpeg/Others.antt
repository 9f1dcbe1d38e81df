-- ===== src/Mpeg/Others.antt =====
-- One round of `parse` on the packets that hold no video.
use clibmedia_transfer_proto.Common.{
  ℕ, zero, suc, ◌+◌, ◌*◌, ◌%◌, ◌^◌, ◌<◌, ◌≡◌, inl, inr, refl, sym, ap, ◌∙◌, false, some, [], ◌∷◌,
  ◌++◌, ◌==◌, ltb, ◌>>=◌, arith, length, drop, append_assoc, length-append, le→ltb, take-append_eq,
  drop-append_eq, get_elem?,
}
use clibmedia_transfer_proto.ByteIo.{Bytes, read_big_endian, write_big_endian}
use clibmedia_transfer_proto.ByteIo.RoundTrip.{read-write_big_endian, length-write_big_endian}
use clibmedia_transfer_proto.Mpeg.{
  MpegDecoder, next, audio_packet, pack_header, skipped_packet, round, audio_frame,
}
use clibmedia_transfer_proto.Mpeg.Packets.{
  pack, skipped, audio, start_code, pes_front, written, IsPacket,
}
use clibmedia_transfer_proto.Mpeg.Front.{
  payload_size_lem, pse_length_read, stuffing_read, front_payload, not_short, length-pes_front,
}

behind :
    (front payload rest : Bytes) (k : ℕ)
    → k ≡ length front + length payload
    → drop k (front ++ (payload ++ rest)) ≡ rest
behind front payload rest k e =
    ap (drop k) (sym (append_assoc front payload rest))
    ∙ drop-append_eq k (front ++ payload) rest (omega (arith, e, length-append front payload))

audio_packet-written :
    (mark flags : ℕ) (header payload rest : Bytes) (d : MpegDecoder)
    → 0 < length payload
    → 3 + length header + length payload < 2 ^ 16
    → audio_packet (pes_front 0xC0 mark flags header (length payload) ++ (payload ++ rest)) d
      ≡ some (next rest d (audio_frame payload ∷ []))
unfolding audio_packet
audio_packet-written mark flags header payload rest d some_left fits =
    rw
      (
        audio_packet,
        not_short 0xC0 mark flags header n (payload ++ rest) fits,
        pse_length_read 0xC0 mark flags header n (payload ++ rest) fits,
        stuffing_read 0xC0 mark flags header n (payload ++ rest) fits,
        ◌>>=◌,
        payload_size_lem (length header) n fits,
        front_payload 0xC0 mark flags header n (payload ++ rest) fits,
        some_size,
        le→ltb (length (payload ++ rest)) n (omega (arith, length-append payload rest)),
        take-append_eq n payload rest refl,
        behind (pes_front 0xC0 mark flags header n) payload rest (6 + (3 + length header + n))
            (omega (arith, length-pes_front 0xC0 mark flags header n)),
      )
      refl
  where
    n : ℕ
    n = length payload

    some_size : (n == 0) ≡ false
    some_size = ground arith

pub round-audio :
    (mark flags : ℕ) (header payload rest : Bytes) (d : MpegDecoder)
    → 0 < length payload
    → 3 + length header + length payload < 2 ^ 16
    → round (written (audio mark flags header payload) ++ rest) d
      ≡ some (next rest d (audio_frame payload ∷ []))
unfolding round write_big_endian
round-audio mark flags header payload rest d some_left fits =
    ap (λ t. round t d)
      (append_assoc (pes_front 0xC0 mark flags header (length payload)) payload rest)
    ∙ audio_packet-written mark flags header payload rest d some_left fits

round-skipped_at :
    (stream_id : ℕ) (body rest : Bytes) (d : MpegDecoder)
    → length body < 2 ^ 16
    → skipped_packet (written (skipped stream_id body) ++ rest) d ≡ some (next rest d [])
unfolding skipped_packet write_big_endian
round-skipped_at stream_id body rest d fits =
    rw (parts, skipped_packet, long, size, ◌>>=◌, after) refl
  where
    front : Bytes
    front = start_code stream_id ++ write_big_endian 2 (length body)

    parts : written (skipped stream_id body) ++ rest ≡ front ++ (body ++ rest)
    parts =
        ap (λ t. start_code stream_id ++ t)
          (append_assoc (write_big_endian 2 (length body)) body rest)

    size : read_big_endian 2 (drop 4 (front ++ (body ++ rest))) ≡ some (length body)
    size = read-write_big_endian 2 (length body) (body ++ rest) ∙ ap some (omega arith)

    long : ltb (length (front ++ (body ++ rest))) 6 ≡ false
    long =
        le→ltb (length (front ++ (body ++ rest))) 6 (
          omega
            (arith, length-append front (body ++ rest), length-write_big_endian 2 (length body)))

    after : drop (6 + length body) (front ++ (body ++ rest)) ≡ rest
    after =
        behind front body rest (6 + length body)
          (omega (arith, length-write_big_endian 2 (length body)))

pub round-skipped :
    (stream_id : ℕ) (body rest : Bytes) (d : MpegDecoder)
    → IsPacket (skipped stream_id body)
    → round (written (skipped stream_id body) ++ rest) d ≡ some (next rest d [])
unfolding round
round-skipped stream_id body rest d (inl e, fits) = rw e (round-skipped_at 0xBB body rest d fits)
round-skipped stream_id body rest d (inr e, fits) = rw e (round-skipped_at 0xBC body rest d fits)

get_elem?-append_cons :
    (n : ℕ) (xs : Bytes) (b : ℕ) (ys : Bytes)
    → n ≡ length xs
    → get_elem? (xs ++ (b ∷ ys)) n ≡ some b
get_elem?-append_cons zero [] b ys e = refl
get_elem?-append_cons (suc n) [] b ys e = absurd (omega arith)
get_elem?-append_cons zero (x ∷ xs) b ys e = absurd (omega arith)
get_elem?-append_cons (suc n) (x ∷ xs) b ys e = get_elem?-append_cons n xs b ys (omega arith)

pub round-pack :
    (clock : Bytes) (reserved : ℕ) (stuffing rest : Bytes) (d : MpegDecoder)
    → length clock ≡ 9
    → length stuffing < 8
    → round (written (pack clock reserved stuffing) ++ rest) d ≡ some (next rest d [])
unfolding round pack_header
round-pack clock reserved stuffing rest d nine few = rw (count, ◌>>=◌, after) refl
  where
    ps : Bytes
    ps = (clock ++ ((reserved * 8 + length stuffing) ∷ stuffing)) ++ rest

    count : get_elem? ps 9 ≡ some (reserved * 8 + length stuffing)
    count =
        ap (λ t. get_elem? t 9)
          (append_assoc clock ((reserved * 8 + length stuffing) ∷ stuffing) rest)
        ∙ get_elem?-append_cons 9 clock (reserved * 8 + length stuffing) (stuffing ++ rest)
            (omega (arith, nine))

    after : drop (14 + (reserved * 8 + length stuffing) % 8) (0 ∷ 0 ∷ 1 ∷ 0xBA ∷ ps) ≡ rest
    after =
        drop-append_eq (14 + (reserved * 8 + length stuffing) % 8)
          (written (pack clock reserved stuffing)) rest
          (omega
            (arith, few, nine, length-append clock ((reserved * 8 + length stuffing) ∷ stuffing)))
