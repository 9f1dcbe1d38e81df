-- ===== src/Stun/Lengths.antt =====
-- How long the parts are that `Encode` writes.
use clibmedia_transfer_proto.Common.{
  ℕ, ◌+◌, ◌/◌, ◌^◌, ◌≡◌, refl, ◌++◌, arith, length, length-append, bit_xor,
}
use clibmedia_transfer_proto.ByteIo.{Bytes, write_big_endian}
use clibmedia_transfer_proto.ByteIo.RoundTrip.{length-write_big_endian}
use clibmedia_transfer_proto.Stun.{
  Stun, padding, write_attribute, stun_magic_cookie, stun_attr_username,
  stun_attr_message_integrity, stun_attr_xor_mapped_address, xor_mapped_address, write_header,
  write_body, data_bytes, signed_message,
}
use clibmedia_transfer_proto.Stun.Attributes.{length-write_attribute}

pub length-xor_mapped_address : (s : Stun) → length (xor_mapped_address s) ≡ 8
unfolding xor_mapped_address
length-xor_mapped_address s = omega (
  arith,
  length-append (write_big_endian 2 (bit_xor s.mapped_port (stun_magic_cookie / 2 ^ 16)))
      (write_big_endian 4 (bit_xor s.mapped_addr stun_magic_cookie)),
  length-write_big_endian 2 (bit_xor s.mapped_port (stun_magic_cookie / 2 ^ 16)),
  length-write_big_endian 4 (bit_xor s.mapped_addr stun_magic_cookie),
)

length-write_header :
    (len : ℕ) (s : Stun) → length (write_header len s) ≡ 8 + length s.transcation_id
unfolding write_header
length-write_header len s = omega (
  arith,
  length-append (write_big_endian 2 s.type')
      (write_big_endian 2 len ++ (write_big_endian 4 stun_magic_cookie ++ s.transcation_id)),
  length-append (write_big_endian 2 len) (write_big_endian 4 stun_magic_cookie ++ s.transcation_id),
  length-append (write_big_endian 4 stun_magic_cookie) s.transcation_id,
  length-write_big_endian 2 s.type',
  length-write_big_endian 2 len,
  length-write_big_endian 4 stun_magic_cookie,
)

-- The space that the name takes.
abbrev pub name_space : Stun → ℕ
name_space s = length s.user_name + padding (length s.user_name)

length-write_body : (s : Stun) → length (write_body s) ≡ 16 + name_space s
unfolding write_body
length-write_body s = omega (
  arith,
  length-append (write_attribute stun_attr_username s.user_name)
      (write_attribute stun_attr_xor_mapped_address (xor_mapped_address s)),
  length-write_attribute stun_attr_username s.user_name,
  length-write_attribute stun_attr_xor_mapped_address (xor_mapped_address s),
  length-xor_mapped_address s,
  eight,
)
  where
    eight : padding (length (xor_mapped_address s)) ≡ 0
    eight = rw (length-xor_mapped_address s) (unfold padding in refl)

pub data_bytes-name : (s : Stun) → length s.transcation_id ≡ 12 → data_bytes s ≡ 16 + name_space s
unfolding data_bytes
data_bytes-name s hi = omega (
  arith,
  hi,
  length-append (write_header 0 s) (write_body s),
  length-write_header 0 s,
  length-write_body s,
)

pub length-signed_message :
    (hmac : Bytes → Bytes → Bytes) (s : Stun)
    → ((key data' : Bytes) → length (hmac key data') ≡ 20)
    → length s.transcation_id ≡ 12
    → length (signed_message hmac s) ≡ 60 + name_space s
unfolding signed_message
length-signed_message hmac s hh hi = omega (
  arith,
  hi,
  length-append (write_header (data_bytes s + (20 + 4) + (4 + 4)) s)
      (write_body s ++ write_attribute stun_attr_message_integrity digest),
  length-append (write_body s) (write_attribute stun_attr_message_integrity digest),
  length-write_header (data_bytes s + (20 + 4) + (4 + 4)) s,
  length-write_body s,
  length-write_attribute stun_attr_message_integrity digest,
  hh s.password (write_header (data_bytes s + (4 + 20)) s ++ write_body s),
  twenty,
)
  where
    digest : Bytes
    digest = hmac s.password (write_header (data_bytes s + (4 + 20)) s ++ write_body s)

    twenty : padding (length digest) ≡ 0
    twenty =
        rw (hh s.password (write_header (data_bytes s + (4 + 20)) s ++ write_body s))
          (unfold padding in refl)
