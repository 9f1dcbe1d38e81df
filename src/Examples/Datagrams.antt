-- ===== src/Examples/Datagrams.antt =====
-- STUN messages and the routing of datagrams on concrete inputs.
use clibmedia_transfer_proto.Common.{
  ℕ, ◌+◌, ◌-◌, ◌<◌, ◌≡◌, ◌≢◌, ◌↔◌, refl, Bool, true, none, some, ◌∷◌, arith, length, replicate,
  take, drop,
}
use clibmedia_transfer_proto.ByteIo.{Bytes}
use clibmedia_transfer_proto.Http.Text.{text}
use clibmedia_transfer_proto.Stun.{
  Stun, new_stun, set_password, set_mapped_addr, set_mapped_port, set_message_type, encode, decode,
  padding,
}
use clibmedia_transfer_proto.Stun.Lengths.{name_space}
use clibmedia_transfer_proto.Stun.RoundTrip.{decode-encode}
use clibmedia_transfer_proto.Stun.Bounds.{decode-returns, encode-none}
use clibmedia_transfer_proto.RtcServer.{on_recv_packet, byte_at, rtcp_packet}
use clibmedia_transfer_proto.RtcServer.Routing.{on_recv_packet-decode, on_recv_packet-rtcp}

abbrev hmac : Bytes → Bytes → Bytes
hmac key data' = replicate 20 7

abbrev crc32 : Bytes → ℕ
crc32 data' = length data'

-- A request as it is decoded, and the answer made of it.
abbrev binding : Stun
binding = record new_stun {
  type' = 0x0001;
  transcation_id = replicate 12 9;
  user_name = text "ab:cd";
}

abbrev response : Stun
response =
    set_message_type 0x0101
      (set_password (text "key") (set_mapped_addr 0x7F000001 (set_mapped_port 9000 binding)))

abbrev long_response : Stun
long_response = record response { user_name = replicate 500 1 }

abbrev request : Bytes
request = 0 ∷ 1 ∷ 0 ∷ 0 ∷ 0x21 ∷ 0x12 ∷ 0xA4 ∷ 0x42 ∷ replicate 12 9

decode-encode_example :
    (packet : Bytes) × (encode hmac crc32 response ≡ some packet)
    × (length packet ≡ 68 + name_space response)
    × (decode packet new_stun
        ≡ some (
          record new_stun {
            type' = 0x0101;
            stun_length = length packet - 20;
            transcation_id = replicate 12 9;
            user_name = text "ab:cd";
          },
          true,
        ))
decode-encode_example =
    decode-encode hmac crc32 response new_stun (λ key data'. refl) (omega arith) refl
      (unfold padding in omega arith)

encode-none_example : (encode hmac crc32 long_response ≡ none) ↔ (444 < name_space long_response)
encode-none_example = encode-none hmac crc32 long_response (λ key data'. refl) refl

decode-returns_example : (r : Stun × Bool) × (decode request new_stun ≡ some r)
decode-returns_example = decode-returns request new_stun (omega arith)

on_recv_packet-decode_example :
    (r : Stun × Bool) × (decode request new_stun ≡ some r)
    × (r.0.transcation_id ≡ take 12 (drop 8 request))
on_recv_packet-decode_example =
    on_recv_packet-decode request new_stun (unfold on_recv_packet byte_at in refl)

on_recv_packet-rtcp_example : on_recv_packet (129 ∷ 200 ∷ replicate 10 0) ≢ some rtcp_packet
on_recv_packet-rtcp_example = on_recv_packet-rtcp (129 ∷ 200 ∷ replicate 10 0)
