-- ===== src/Stun/Bounds.antt =====
-- What `Decode` reads and `Encode` writes at most.
use clibmedia_transfer_proto.Common.{
  ℕ, zero, suc, ◌+◌, ◌-◌, ◌≤◌, ◌<◌, ◌≡◌, ◌↔◌, refl, Bool, true, false, none, some, ◌++◌, ◌>>=◌,
  ◌==◌, arith, ltb, ltb→le, ltb→lt, lt→ltb, le→ltb, length, take, drop, length-append, length-drop,
  bit_xor, Bool-cases, Option-cases, inl, inr, ◌∙◌, ap, ==_iff,
}
use clibmedia_transfer_proto.ByteIo.{Bytes, read_big_endian, write_big_endian}
use clibmedia_transfer_proto.ByteIo.RoundTrip.{read_big_endian-none, length-write_big_endian}
use clibmedia_transfer_proto.Stun.{
  Stun, padding, overruns, decode_attributes, write_attribute, read_bytes, decode,
  stun_magic_cookie, stun_attr_username, stun_attr_password, stun_attr_fingerprint, signed_message,
  encode,
}
use clibmedia_transfer_proto.Stun.Attributes.{
  length-write_attribute, with_attribute, set_attribute-whole,
}
use clibmedia_transfer_proto.Stun.Lengths.{name_space, length-signed_message}

-- A read of bytes that are there.
read_there :
    (n : ℕ) (data' : Bytes) → n ≤ length data' → (v : ℕ) × (read_big_endian n data' ≡ some v)
read_there n data' h = elim (Option-cases (read_big_endian n data')) [
  | inl missing ↦ absurd (omega (arith, h, (read_big_endian-none n data').0 missing))
  | inr found ↦ found
]

-- No attribute changes the transaction id.
with_attribute-transcation_id :
    (attr_type : ℕ) (value : Bytes) (s : Stun)
    → (with_attribute attr_type value s).transcation_id ≡ s.transcation_id
with_attribute-transcation_id attr_type value s =
    elim (Bool-cases (attr_type == stun_attr_username)) [
      | inl name ↦ rw name refl
      | inr other ↦ elim (Bool-cases (attr_type == stun_attr_password)) [
        | inl password ↦ rw (other, password) refl
        | inr neither ↦ rw (other, neither) refl
      ]
    ]

decode_attributes-returns :
    (fuel : ℕ) (data' : Bytes) (s : Stun)
    → length data' < fuel
    → (r : Stun × Bool) × (decode_attributes fuel data' s ≡ some r)
      × (r.0.transcation_id ≡ s.transcation_id)
unfolding decode_attributes
decode_attributes-returns zero data' s h = absurd (omega arith)
decode_attributes-returns (suc fuel) data' s h = elim (Bool-cases (ltb (length data') 4)) [
  | inl few ↦ ((s, true), rw (decode_attributes, few) refl, refl)
  | inr more ↦
      let four : 4 ≤ length data' = ltb→le (length data') 4 more in
      let (attr_type, first) = read_there 2 data' (omega arith) in
      let (attr_len, second) = read_there 2 (drop 2 data') (omega (arith, length-drop 2 data')) in
      elim (Bool-cases (overruns attr_len data')) [
        | inl over ↦
            ((s, false), rw (decode_attributes, ◌>>=◌, more, first, second, over) refl, refl)
        | inr fits ↦
            let left = drop (4 + (attr_len + padding attr_len)) data' in
            let value = take attr_len (drop 4 data') in
            let (r, e, same) =
              decode_attributes-returns fuel left (with_attribute attr_type value s)
                (omega (arith, length-drop (4 + (attr_len + padding attr_len)) data')) in
            let inside : attr_len ≤ length (drop 4 data') = omega (
              arith,
              length-drop 4 data',
              ltb→le (length data' - 4) (padding attr_len + attr_len) (unfold overruns in fits),
            ) in
            (
              r,
              rw
                  (
                    decode_attributes,
                    ◌>>=◌,
                    more,
                    first,
                    second,
                    fits,
                    set_attribute-whole attr_type attr_len (drop 4 data') s inside,
                  )
                  e,
              same ∙ with_attribute-transcation_id attr_type value s,
            )
      ]
]

-- Behind the cookie, `Decode` takes the transaction id, and then all the attributes.
pub decode-cookie :
    (data' : Bytes) (s : Stun)
    → 20 ≤ length data'
    → read_big_endian 4 (drop 4 data') ≡ some stun_magic_cookie
    → (r : Stun × Bool) × (decode data' s ≡ some r) × (r.0.transcation_id ≡ take 12 (drop 8 data'))
unfolding decode read_bytes
decode-cookie data' s h third =
    let (msg_type, first) = read_there 2 data' (omega arith) in
    let (msg_length, second) = read_there 2 (drop 2 data') (omega (arith, length-drop 2 data')) in
    let id : ltb (length (drop 8 data')) 12 ≡ false =
      le→ltb (length (drop 8 data')) 12 (omega (arith, length-drop 8 data')) in
    let (r, e, same) =
      decode_attributes-returns (suc (length data')) (drop 20 data')
        (record s {
          type' = msg_type;
          stun_length = msg_length;
          transcation_id = take 12 (drop 8 data');
        })
        (omega (arith, length-drop 20 data')) in
    (r, rw (decode, ◌>>=◌, first, second, third, id) e, same)

-- `Decode` of a datagram of twenty bytes or more comes to its end without a read outside it.
pub decode-returns :
    (data' : Bytes) (s : Stun) → 20 ≤ length data' → (r : Stun × Bool) × (decode data' s ≡ some r)
unfolding decode
decode-returns data' s h =
    let (msg_type, first) = read_there 2 data' (omega arith) in
    let (msg_length, second) = read_there 2 (drop 2 data') (omega (arith, length-drop 2 data')) in
    let (magic, third) = read_there 4 (drop 4 data') (omega (arith, length-drop 4 data')) in
    elim (Bool-cases (magic == stun_magic_cookie)) [
      | inr other ↦ (
        (record s { type' = msg_type; stun_length = msg_length }, false),
        rw (decode, ◌>>=◌, first, second, third, other) refl,
      )
      | inl cookie ↦
          let cookie' = third ∙ ap some ((==_iff magic stun_magic_cookie).0 cookie) in
          let (r, e, _) = decode-cookie data' s h cookie' in (r, e)
    ]
  where
    id : read_bytes 12 (drop 8 data') ≡ some (take 12 (drop 8 data'))
    id =
        unfold read_bytes in
        rw (le→ltb (length (drop 8 data')) 12 (omega (arith, length-drop 8 data'))) refl

-- With fewer than twenty bytes, the cookie among them, `Decode` reads outside the datagram.
decode-short :
    (data' : Bytes) (s : Stun)
    → length data' < 20
    → read_big_endian 4 (drop 4 data') ≡ some stun_magic_cookie
    → decode data' s ≡ none
unfolding decode
decode-short data' s h third = elim (Bool-cases (ltb (length data') 8)) [
  | inl few ↦ absurd (absent few)
  | inr more ↦
      let eight : 8 ≤ length data' = ltb→le (length data') 8 more in
      let (msg_type, first) = read_there 2 data' (omega arith) in
      let (msg_length, second) = read_there 2 (drop 2 data') (omega (arith, length-drop 2 data')) in
      rw (decode, ◌>>=◌, first, second, third, id) refl
]
  where
    absent : ltb (length data') 8 ≡ true → ⊥
    absent few =
        let missing : read_big_endian 4 (drop 4 data') ≡ none =
          (read_big_endian-none 4 (drop 4 data')).1
            (omega (arith, ltb→lt (length data') 8 few, length-drop 4 data')) in
        cc

    id : read_bytes 12 (drop 8 data') ≡ none
    id =
        unfold read_bytes in
        rw (lt→ltb (length (drop 8 data')) 12 (omega (arith, length-drop 8 data'))) refl

-- With a transaction id of twelve bytes and digests of twenty, `Encode` writes outside its packet of
-- 512 bytes exactly where the name takes more than 444 bytes.
pub encode-none :
    (hmac : Bytes → Bytes → Bytes) (crc32 : Bytes → ℕ) (s : Stun)
    → ((key data' : Bytes) → length (hmac key data') ≡ 20)
    → length s.transcation_id ≡ 12
    → (encode hmac crc32 s ≡ none) ↔ (444 < name_space s)
encode-none hmac crc32 s hh hi = elim (Bool-cases (ltb 512 (length (message ++ last)))) [
  | inl over ↦ (
    λ e. omega (arith, size, ltb→lt 512 (length (message ++ last)) over),
    λ h. unfold encode in rw over refl,
  )
  | inr fits ↦ (
    λ e. absurd (fitting fits e),
    λ h. absurd (omega (arith, h, size, ltb→le 512 (length (message ++ last)) fits)),
  )
]
  where
    message : Bytes
    message = signed_message hmac s

    checksum : Bytes
    checksum = write_big_endian 4 (bit_xor (crc32 message) 0x5354554e)

    last : Bytes
    last = write_attribute stun_attr_fingerprint checksum

    fitting : ltb 512 (length (message ++ last)) ≡ false → encode hmac crc32 s ≡ none → ⊥
    fitting fits e =
        let written : encode hmac crc32 s ≡ some (message ++ last) =
          unfold encode in rw fits refl in
        cc

    four : padding (length checksum) ≡ 0
    four =
        rw (length-write_big_endian 4 (bit_xor (crc32 message) 0x5354554e)) (unfold padding in refl)

    size : length (message ++ last) ≡ 68 + name_space s
    size = omega (
      arith,
      length-append message last,
      length-signed_message hmac s hh hi,
      length-write_attribute stun_attr_fingerprint checksum,
      length-write_big_endian 4 (bit_xor (crc32 message) 0x5354554e),
      four,
    )
