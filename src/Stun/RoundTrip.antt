-- ===== src/Stun/RoundTrip.antt =====
-- `Decode` of what `Encode` has written.
use clibmedia_transfer_proto.Common.{
  ℕ, zero, suc, ◌+◌, ◌-◌, ◌^◌, ◌≤◌, ◌<◌, ◌≡◌, refl, sym, ap, ◌∙◌, Bool, true, Option, some, [],
  ◌++◌, arith, le→ltb, length, drop, length-append, append_assoc, append-nil, take-append_eq,
  drop-append_eq, drop-drop, bit_xor,
}
use clibmedia_transfer_proto.ByteIo.{Bytes, read_big_endian, write_big_endian}
use clibmedia_transfer_proto.ByteIo.RoundTrip.{read-write_big_endian, length-write_big_endian}
use clibmedia_transfer_proto.Stun.{
  Stun, padding, decode_attributes, write_attribute, read_bytes, decode, stun_magic_cookie,
  stun_attr_username, stun_attr_message_integrity, stun_attr_xor_mapped_address,
  stun_attr_fingerprint, xor_mapped_address, write_header, write_body, data_bytes, signed_message,
  encode,
}
use clibmedia_transfer_proto.Stun.Lengths.{
  length-xor_mapped_address, name_space, data_bytes-name, length-signed_message,
}
use clibmedia_transfer_proto.Stun.Attributes.{
  read_two, drop_two, length-write_attribute, decode_attributes-write,
}

-- The loop of `Decode` over the four attributes that `Encode` writes.
decode_attributes-four :
    (fuel : ℕ) (s t : Stun) (digest checksum : Bytes)
    → 4 < fuel
    → length s.user_name < 2 ^ 16
    → length digest ≡ 20
    → length checksum ≡ 4
    → decode_attributes fuel
        (write_attribute stun_attr_username s.user_name
          ++ (write_attribute stun_attr_xor_mapped_address (xor_mapped_address s)
              ++ (write_attribute stun_attr_message_integrity digest
                  ++ (write_attribute stun_attr_fingerprint checksum ++ []))))
        t
      ≡ some (record t { user_name = s.user_name }, true)
decode_attributes-four (suc (suc (suc (suc (suc fuel))))) s t digest checksum enough small hd hc =
    decode_attributes-write (suc (suc (suc (suc fuel)))) stun_attr_username s.user_name _ t
      (omega arith) small
    ∙ decode_attributes-write (suc (suc (suc fuel))) stun_attr_xor_mapped_address
        (xor_mapped_address s) _ (record t { user_name = s.user_name }) (omega arith)
        (omega (arith, length-xor_mapped_address s))
    ∙ decode_attributes-write (suc (suc fuel)) stun_attr_message_integrity digest _
        (record t { user_name = s.user_name }) (omega arith) (omega arith)
    ∙ decode_attributes-write (suc fuel) stun_attr_fingerprint checksum []
        (record t { user_name = s.user_name }) (omega arith) (omega arith)
    ∙ unfold decode_attributes in refl
decode_attributes-four zero s t digest checksum enough small hd hc = absurd (omega arith)
decode_attributes-four (suc zero) s t digest checksum enough small hd hc = absurd (omega arith)
decode_attributes-four (suc (suc zero)) s t digest checksum enough small hd hc =
    absurd (omega arith)
decode_attributes-four (suc (suc (suc zero))) s t digest checksum enough small hd hc =
    absurd (omega arith)
decode_attributes-four (suc (suc (suc (suc zero)))) s t digest checksum enough small hd hc =
    absurd (omega arith)

-- `Decode` reads the header that `Encode` writes.
decode-header :
    (len : ℕ) (s t : Stun) (rest : Bytes)
    → s.type' < 2 ^ 16
    → len < 2 ^ 16
    → length s.transcation_id ≡ 12
    → decode (write_header len s ++ rest) t
      ≡ decode_attributes
          (suc (20 + length rest))
          rest
          (record t { type' = s.type'; stun_length = len; transcation_id = s.transcation_id })
unfolding decode
decode-header len s t rest ht hl hi =
    rw (decode, first, second, third) (rw (fourth, at_end, size) refl)
  where
    whole : Bytes
    whole = write_header len s ++ rest

    parts :
        whole
        ≡ write_big_endian 2 s.type'
          ++ (write_big_endian 2 len
              ++ (write_big_endian 4 stun_magic_cookie ++ (s.transcation_id ++ rest)))
    parts =
        unfold write_header in
        (append_assoc (write_big_endian 2 s.type')
            (write_big_endian 2 len ++ (write_big_endian 4 stun_magic_cookie ++ s.transcation_id))
            rest
          ∙ ap (λ t. write_big_endian 2 s.type' ++ t)
              (append_assoc (write_big_endian 2 len)
                  (write_big_endian 4 stun_magic_cookie ++ s.transcation_id) rest
                ∙ ap (λ t. write_big_endian 2 len ++ t)
                    (append_assoc (write_big_endian 4 stun_magic_cookie) s.transcation_id rest)))

    after_type :
        drop 2 whole
        ≡ write_big_endian 2 len
          ++ (write_big_endian 4 stun_magic_cookie ++ (s.transcation_id ++ rest))
    after_type = ap (drop 2) parts ∙ drop_two s.type' _

    after_length : drop 4 whole ≡ write_big_endian 4 stun_magic_cookie ++ (s.transcation_id ++ rest)
    after_length = sym (drop-drop 2 2 4 whole refl) ∙ ap (drop 2) after_type ∙ drop_two len _

    after_magic : drop 8 whole ≡ s.transcation_id ++ rest
    after_magic =
        sym (drop-drop 4 4 8 whole refl)
        ∙ ap (drop 4) after_length
        ∙ drop-append_eq 4 (write_big_endian 4 stun_magic_cookie) (s.transcation_id ++ rest)
            (sym (length-write_big_endian 4 stun_magic_cookie))

    at_end : drop 20 whole ≡ rest
    at_end =
        sym (drop-drop 12 8 20 whole refl)
        ∙ ap (drop 12) after_magic
        ∙ drop-append_eq 12 s.transcation_id rest (sym hi)

    first : read_big_endian 2 whole ≡ some s.type'
    first = ap (read_big_endian 2) parts ∙ read_two s.type' _ ht

    second : read_big_endian 2 (drop 2 whole) ≡ some len
    second = ap (read_big_endian 2) after_type ∙ read_two len _ hl

    third : read_big_endian 4 (drop 4 whole) ≡ some stun_magic_cookie
    third =
        ap (read_big_endian 4) after_length
        ∙ read-write_big_endian 4 stun_magic_cookie _
        ∙ ap some (omega arith)

    fourth : read_bytes 12 (drop 8 whole) ≡ some s.transcation_id
    fourth =
        ap (read_bytes 12) after_magic
        ∙ unfold read_bytes in
          rw
            (
              le→ltb (length (s.transcation_id ++ rest)) 12
                  (omega (arith, length-append s.transcation_id rest)),
              take-append_eq 12 s.transcation_id rest (sym hi),
            )
            refl

    size : length whole ≡ 20 + length rest
    size = omega (
      arith,
      hi,
      ap length parts,
      length-append (write_big_endian 2 s.type') (
          write_big_endian 2 len
          ++ (write_big_endian 4 stun_magic_cookie ++ (s.transcation_id ++ rest))),
      length-append (write_big_endian 2 len)
          (write_big_endian 4 stun_magic_cookie ++ (s.transcation_id ++ rest)),
      length-append (write_big_endian 4 stun_magic_cookie) (s.transcation_id ++ rest),
      length-append s.transcation_id rest,
      length-write_big_endian 2 s.type',
      length-write_big_endian 2 len,
      length-write_big_endian 4 stun_magic_cookie,
    )

regroup : (h u x i l : Bytes) → (h ++ ((u ++ x) ++ i)) ++ l ≡ h ++ (u ++ (x ++ (i ++ (l ++ []))))
regroup h u x i l =
    append_assoc h ((u ++ x) ++ i) l
    ∙ ap (λ t. h ++ t)
        (append_assoc (u ++ x) i l
          ∙ append_assoc u x (i ++ l)
          ∙ ap (λ t. u ++ (x ++ (i ++ t))) (sym (append-nil l)))

-- The whole message, by its parts.
packet_parts :
    (hmac : Bytes → Bytes → Bytes) (s : Stun) (last : Bytes)
    → signed_message hmac s ++ last
      ≡ write_header (data_bytes s + (20 + 4) + (4 + 4)) s
        ++ (write_attribute stun_attr_username s.user_name
            ++ (write_attribute stun_attr_xor_mapped_address (xor_mapped_address s)
                ++ (write_attribute stun_attr_message_integrity
                      (hmac s.password (write_header (data_bytes s + (4 + 20)) s ++ write_body s))
                    ++ (last ++ []))))
packet_parts hmac s last =
    unfold signed_message write_body in
    regroup (write_header (data_bytes s + (20 + 4) + (4 + 4)) s)
      (write_attribute stun_attr_username s.user_name)
      (write_attribute stun_attr_xor_mapped_address (xor_mapped_address s))
      (write_attribute stun_attr_message_integrity
        (hmac s.password (write_header (data_bytes s + (4 + 20)) s ++ write_body s)))
      last

-- For a type of 16 bits, a transaction id of twelve bytes, a name that takes 444 bytes at most, and
-- digests of twenty bytes, `Encode` writes a packet that `Decode` takes apart whole: it finds the
-- type, the length of the packet without its header, the id and the name, and the rest of what it
-- decodes into stays as it was.
pub decode-encode :
    (hmac : Bytes → Bytes → Bytes) (crc32 : Bytes → ℕ) (s t : Stun)
    → ((key data' : Bytes) → length (hmac key data') ≡ 20)
    → s.type' < 2 ^ 16
    → length s.transcation_id ≡ 12
    → name_space s ≤ 444
    → (packet : Bytes) × (encode hmac crc32 s ≡ some packet)
      × (length packet ≡ 68 + name_space s)
      × (decode packet t
          ≡ some (
            record t {
              type' = s.type';
              stun_length = length packet - 20;
              transcation_id = s.transcation_id;
              user_name = s.user_name;
            },
            true,
          ))
decode-encode hmac crc32 s t hh ht hi hn = (
  message ++ last,
  unfold encode in rw (le→ltb 512 (length (message ++ last)) (omega (arith, size))) refl,
  size,
  ap (λ p. decode p t) (packet_parts hmac s last)
      ∙ decode-header (data_bytes s + (20 + 4) + (4 + 4)) s t _ ht (omega (arith, bytes)) hi
      ∙ decode_attributes-four _ s _ digest checksum (omega arith) (omega arith)
          (hh s.password (write_header (data_bytes s + (4 + 20)) s ++ write_body s))
          (length-write_big_endian 4 (bit_xor (crc32 message) 0x5354554e))
      ∙ ap decoded (omega (arith, bytes, size)),
)
  where
    message : Bytes
    message = signed_message hmac s

    digest : Bytes
    digest = hmac s.password (write_header (data_bytes s + (4 + 20)) s ++ write_body s)

    checksum : Bytes
    checksum = write_big_endian 4 (bit_xor (crc32 message) 0x5354554e)

    last : Bytes
    last = write_attribute stun_attr_fingerprint checksum

    bytes : data_bytes s ≡ 16 + name_space s
    bytes = data_bytes-name s hi

    four : padding (length checksum) ≡ 0
    four =
        rw (length-write_big_endian 4 (bit_xor (crc32 message) 0x5354554e)) (unfold padding in refl)

    size : length (message ++ last) ≡ 68 + name_space s
    size = omega (
      arith,
      length-append message last,
      length-signed_message hmac s hh hi,
      length-write_attribute stun_attr_fingerprint checksum,
      length-write_big_endian 4 (bit_xor (crc32 message) 0x5354554e),
      four,
    )

    decoded : ℕ → Option (Stun × Bool)
    decoded n = some (
      record t {
        type' = s.type';
        stun_length = n;
        transcation_id = s.transcation_id;
        user_name = s.user_name;
      },
      true,
    )
