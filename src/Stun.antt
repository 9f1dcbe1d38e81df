-- ===== src/Stun.antt =====
-- librtc/stun.h and stun.cpp. Memory from a pointer on is the list of its bytes; a read past the end
-- of the datagram, or a write past the packet of 512 bytes, is `none`. The digest of OpenSSL and the
-- checksum of the RTC base library are the arguments `hmac` (password, then data) and `crc32`.
pub mod Attributes
pub mod Lengths
pub mod RoundTrip
pub mod Bounds
pub mod Ufrag
use clibmedia_transfer_proto.Common.{
  ℕ, zero, suc, ◌+◌, ◌-◌, ◌*◌, ◌/◌, ◌%◌, ◌^◌, Bool, true, false, Option, none, some, List, [], ◌∷◌,
  ◌++◌, ◌==◌, ltb, if◌then◌else◌, length, take, drop, replicate, bit_xor, ◌>>=◌,
}
use mathlib.Core.Option
use clibmedia_transfer_proto.ByteIo.{Bytes, read_big_endian, write_big_endian}

-- `kStunMagicCookie`
abbrev pub stun_magic_cookie : ℕ
stun_magic_cookie = 0x2112A442

abbrev pub stun_attr_username : ℕ
stun_attr_username = 0x0006

abbrev pub stun_attr_password : ℕ
stun_attr_password = 0x0007

abbrev pub stun_attr_message_integrity : ℕ
stun_attr_message_integrity = 0x0008

abbrev pub stun_attr_xor_mapped_address : ℕ
stun_attr_xor_mapped_address = 0x0020

abbrev pub stun_attr_fingerprint : ℕ
stun_attr_fingerprint = 0x8028

pub record Stun : Type 0 where
  pub type' : ℕ
  pub stun_length : ℕ
  pub transcation_id : Bytes
  pub user_name : Bytes
  pub password : Bytes
  pub mapped_addr : ℕ
  pub mapped_port : ℕ

abbrev pub new_stun : Stun
new_stun = record {
  type' = 0;
  stun_length = 0;
  transcation_id = [];
  user_name = [];
  password = [];
  mapped_addr = 0;
  mapped_port = 0;
}

abbrev pub set_password : Bytes → Stun → Stun
set_password pwd s = record s { password = pwd }

abbrev pub set_mapped_addr : ℕ → Stun → Stun
set_mapped_addr addr s = record s { mapped_addr = addr }

abbrev pub set_mapped_port : ℕ → Stun → Stun
set_mapped_port port s = record s { mapped_port = port }

abbrev pub set_message_type : ℕ → Stun → Stun
set_message_type msg_type s = record s { type' = msg_type }

-- The bytes that bring a value to a multiple of four.
unfoldable pub padding : ℕ → ℕ
padding len = (4 - len % 4) % 4

-- `assign` of as many bytes.
unfoldable pub read_bytes : ℕ → Bytes → Option Bytes
read_bytes n data' = if ltb (length data') n then none else some (take n data')

-- The `switch` over the attribute's type, `data'` being what stands behind the attribute's header.
unfoldable pub set_attribute : ℕ → ℕ → Bytes → Stun → Option Stun
unfolding read_bytes
set_attribute attr_type attr_len data' s =
    if attr_type == stun_attr_username
    then Option.map (λ value. record s { user_name = value }) (read_bytes attr_len data')
    else if attr_type == stun_attr_password
    then Option.map (λ value. record s { password = value }) (read_bytes attr_len data')
    else some s

-- Whether an attribute's value and padding are more than what is left behind its header.
unfoldable pub overruns : ℕ → Bytes → Bool
unfolding padding
overruns attr_len data' = ltb (length data' - 4) (padding attr_len + attr_len)

-- The loop of `Decode`; `size` is the number of bytes that are left, and falls with each round.
unfoldable pub decode_attributes : ℕ → Bytes → Stun → Option (Stun × Bool)
unfolding set_attribute
decode_attributes zero data' s = none
decode_attributes (suc fuel) data' s = elim (ltb (length data') 4) [
  | true ↦ some (s, true)
  | false ↦ do
    attr_type ← read_big_endian 2 data'
    attr_len ← read_big_endian 2 (drop 2 data')
    elim (overruns attr_len data') [
      | true ↦ some (s, false)
      | false ↦
          set_attribute attr_type attr_len (drop 4 data') s
          >>= decode_attributes fuel (drop (4 + (attr_len + padding attr_len)) data')
    ]
]

unfoldable pub decode : Bytes → Stun → Option (Stun × Bool)
unfolding decode_attributes read_bytes
decode data' s = do
  msg_type ← read_big_endian 2 data'
  msg_length ← read_big_endian 2 (drop 2 data')
  magic ← read_big_endian 4 (drop 4 data')
  let s' = record s { type' = msg_type; stun_length = msg_length }
  elim (magic == stun_magic_cookie) [
    | false ↦ some (s', false)
    | true ↦ do
      id ← read_bytes 12 (drop 8 data')
      decode_attributes (suc (length data')) (drop 20 data') (record s' { transcation_id = id })
  ]

-- The type, the length and the value of an attribute, with its padding.
unfoldable pub write_attribute : ℕ → Bytes → Bytes
unfolding write_big_endian
write_attribute attr_type value =
    write_big_endian 2 attr_type
    ++ (write_big_endian 2 (length value) ++ (value ++ replicate (padding (length value)) 0))

-- The value of the address attribute: a zero, the family, the port and the address.
unfoldable pub xor_mapped_address : Stun → Bytes
unfolding write_big_endian
xor_mapped_address s =
    0
    ∷ 1
    ∷ (write_big_endian 2 (bit_xor s.mapped_port (stun_magic_cookie / 2 ^ 16))
        ++ write_big_endian 4 (bit_xor s.mapped_addr stun_magic_cookie))

unfoldable pub write_header : ℕ → Stun → Bytes
unfolding write_big_endian
write_header payload_len s =
    write_big_endian 2 s.type'
    ++ (write_big_endian 2 payload_len
        ++ (write_big_endian 4 stun_magic_cookie ++ s.transcation_id))

unfoldable pub write_body : Stun → Bytes
unfolding write_attribute xor_mapped_address
write_body s =
    write_attribute stun_attr_username s.user_name
    ++ write_attribute stun_attr_xor_mapped_address (xor_mapped_address s)

-- The bytes written before the two lengths of `Encode` are put in: the data of the header and body.
unfoldable pub data_bytes : Stun → ℕ
unfolding write_header write_body
data_bytes s = length (write_header 0 s ++ write_body s) - 20

-- The digest is taken with a length that counts it, the checksum with the final length.
unfoldable pub signed_message : (Bytes → Bytes → Bytes) → Stun → Bytes
unfolding data_bytes write_header write_body write_attribute
signed_message hmac s =
    write_header (data_bytes s + (20 + 4) + (4 + 4)) s
    ++ (write_body s
        ++ write_attribute stun_attr_message_integrity
            (hmac s.password (write_header (data_bytes s + (4 + 20)) s ++ write_body s)))

unfoldable pub encode : (Bytes → Bytes → Bytes) → (Bytes → ℕ) → Stun → Option Bytes
unfolding signed_message write_attribute write_big_endian
encode hmac crc32 s =
    let message = signed_message hmac s in
    let packet =
      message
      ++ write_attribute stun_attr_fingerprint
          (write_big_endian 4 (bit_xor (crc32 message) 0x5354554e)) in
    if ltb 512 (length packet) then none else some packet

-- `LocalUFrag`: what stands before the colon.
unfoldable pub find_colon : Bytes → Option Bytes
find_colon [] = none
find_colon (c ∷ cs) =
    if c == b':'
    then some []
    else elim (find_colon cs) [ none ↦ none | some front ↦ some (c ∷ front) ]

unfoldable pub local_ufrag : Stun → Bytes
unfolding find_colon
local_ufrag s = elim (find_colon s.user_name) [ none ↦ [] | some front ↦ front ]
