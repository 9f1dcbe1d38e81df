-- ===== src/Flv/Tags.antt =====
-- A tag, written and read back.
use clibmedia_transfer_proto.Common.{
  ℕ, ◌+◌, ◌/◌, ◌%◌, ◌^◌, ◌≤◌, ◌<◌, ◌≡◌, refl, sym, ap, ◌∙◌, Bool, true, false, none, some, [], ◌∷◌,
  ◌++◌, ◌==◌, ltb, ◌>>=◌, if◌then◌else◌, arith, length, drop, append_assoc, length-append, le→ltb,
  take-append_eq, drop-append_eq, drop-drop,
}
use clibmedia_transfer_proto.ByteIo.{Bytes, read_loop, read_big_endian, write_big_endian}
use clibmedia_transfer_proto.ByteIo.RoundTrip.{read-write_big_endian, length-write_big_endian}
use clibmedia_transfer_proto.Flv.{
  FlvContext, and_then, writer, tag_header, write_flv_tag, buffer_capacity,
}
use clibmedia_transfer_proto.Flv.Reader.{is_type, read_tag}

-- The bytes of a tag.
abbrev pub tag_bytes : ℕ → Bytes → ℕ → Bytes
tag_bytes type' body time =
    tag_header type' (length body) time ++ (body ++ write_big_endian 4 (length body + 11))

length-tag_header : (type' size time : ℕ) → length (tag_header type' size time) ≡ 11
unfolding tag_header write_big_endian
length-tag_header type' size time = refl

-- A context that has nothing left to send.
abbrev pub idle : FlvContext → FlvContext
idle c = record c { send_buffer = [] }

writer-kept :
    (data' : Bytes) (flush : Bool) (c : FlvContext)
    → ltb buffer_capacity (length (c.send_buffer ++ data')) ≡ false
    → writer data' flush c ≡ (
        if flush
        then some (idle c, (c.send_buffer ++ data') ∷ [])
        else some (record c { send_buffer = c.send_buffer ++ data' }, []))
unfolding writer
writer-kept data' flush c e = rw (writer, e) refl

writer-full :
    (data' : Bytes) (flush : Bool) (c : FlvContext)
    → ltb buffer_capacity (length (c.send_buffer ++ data')) ≡ true
    → writer data' flush c ≡ none
unfolding writer
writer-full data' flush c e = rw (writer, e) refl

module _ (type' : ℕ) (body : Bytes) (time : ℕ) where
  abbrev header : Bytes
  header = tag_header type' (length body) time

  abbrev trailer : Bytes
  trailer = write_big_endian 4 (length body + 11)

  size : length ((header ++ body) ++ trailer) ≡ length body + 15
  size = omega (
    arith,
    length-append (header ++ body) trailer,
    length-append header body,
    length-tag_header type' (length body) time,
    length-write_big_endian 4 (length body + 11),
  )

  front_size : length (header ++ body) ≡ length body + 11
  front_size = omega (arith, length-append header body, length-tag_header type' (length body) time)

  -- A tag that has room is sent as one message, and no other is.
  pub write_flv_tag-tag_bytes :
      (c : FlvContext)
      → length body + 15 ≤ buffer_capacity
      → write_flv_tag type' body time (idle c) ≡ some (idle c, tag_bytes type' body time ∷ [])
  unfolding write_flv_tag
  write_flv_tag-tag_bytes c room =
      rw
        (
          write_flv_tag,
          writer-kept header false (idle c) (
              le→ltb buffer_capacity (length header)
                (omega (arith, room, length-tag_header type' (length body) time))),
          and_then,
          ◌>>=◌,
          writer-kept body false (record c { send_buffer = header })
              (le→ltb buffer_capacity (length (header ++ body)) (omega (arith, room, front_size))),
          writer-kept trailer true (record c { send_buffer = header ++ body })
              (le→ltb buffer_capacity (length ((header ++ body) ++ trailer))
                (omega (arith, room, size))),
        )
        (ap (λ t. some (idle c, t ∷ [])) (append_assoc header body trailer))

  abbrev read_from : Bytes → Bytes
  read_from rest = tag_bytes type' body time ++ rest

  module _ (rest : Bytes) (small : length body < 2 ^ 23) where
    -- The numbers of a tag, where they stand.
    type_read : type' < 256 → read_big_endian 1 (read_from rest) ≡ some type'
    unfolding tag_header read_big_endian read_loop
    type_read h = ap some (omega arith)

    size_read : read_big_endian 3 (drop 1 (read_from rest)) ≡ some (length body)
    unfolding tag_header write_big_endian
    size_read = read-write_big_endian 3 (length body) _ ∙ ap some (omega arith)

    low_read : read_big_endian 3 (drop 4 (read_from rest)) ≡ some (time % 2 ^ 24)
    unfolding tag_header write_big_endian
    low_read = read-write_big_endian 3 time _

    high_read : read_big_endian 1 (drop 7 (read_from rest)) ≡ some (time / 2 ^ 24 % 256)
    unfolding tag_header write_big_endian read_big_endian read_loop
    high_read = ap some (omega arith)

    body_at : drop 11 (read_from rest) ≡ body ++ (trailer ++ rest)
    unfolding tag_header write_big_endian
    body_at = append_assoc body trailer rest

    trailer_at : drop (11 + length body) (read_from rest) ≡ trailer ++ rest
    trailer_at =
        sym (drop-drop (length body) 11 (11 + length body) (read_from rest) refl)
        ∙ ap (drop (length body)) body_at
        ∙ drop-append_eq (length body) body (trailer ++ rest) refl

    rest_at : drop (15 + length body) (read_from rest) ≡ rest
    rest_at =
        sym (drop-drop 4 (11 + length body) (15 + length body) (read_from rest) (omega arith))
        ∙ ap (drop 4) trailer_at
        ∙ drop-append_eq 4 trailer rest (sym (length-write_big_endian 4 (length body + 11)))

    -- A tag is read back, whatever follows it.
    pub read_tag-tag_bytes :
        is_type type' ≡ true
        → type' < 256
        → read_tag (read_from rest)
          ≡ some (record { type' = type'; time = time % 2 ^ 32; body = body }, rest)
    unfolding read_tag
    read_tag-tag_bytes known byte =
        rw
          (
            read_tag,
            type_read byte,
            ◌>>=◌,
            size_read,
            low_read,
            high_read,
            previous,
            known,
            same,
            body_at,
            rest_at,
            take-append_eq (length body) body (trailer ++ rest) refl,
          )
          (ap (λ t. some (record { type' = type'; time = t; body = body }, rest)) (omega arith))
      where
        previous :
            read_big_endian 4 (drop (11 + length body) (read_from rest)) ≡ some (length body + 11)
        previous =
            ap (read_big_endian 4) trailer_at
            ∙ read-write_big_endian 4 (length body + 11) rest
            ∙ ap some (omega arith)

        same : (length body + 11 == length body + 11) ≡ true
        same = ground arith
