-- ===== src/Gb28181.antt =====
-- libgb28181/gb28181_session.cpp: `OnRead`, which takes RTP packets out of a TCP stream, each behind
-- its length in two bytes. `RtpPacketReceived::Parse` and `PayloadType`, of the RTP library, are the
-- argument `payload_type`, which is `none` where `Parse` refuses the packet.
pub mod Frames
pub mod Cutting
pub mod Stream
pub mod Stuck
use clibmedia_transfer_proto.Common.{
  ℕ, zero, suc, ◌+◌, ◌-◌, ◌*◌, ◌/◌, ◌%◌, Bool, true, false, not, ◌&&◌, Option, none, some, List, [],
  ◌∷◌, ◌++◌, ◌==◌, ltb, leb, if◌then◌else◌, length, take, drop,
}
use clibmedia_transfer_proto.Common.Int.{ℤ, pos, negsuc, sub_ℕ}
use clibmedia_transfer_proto.ByteIo.{Bytes, read_big_endian, reinterpret_as_signed}

-- `kRtpVersion` stands in the two highest bits.
unfoldable pub has_rtp_version : ℕ → Bool
has_rtp_version byte = byte / 64 == 2

unfoldable pub is_reserved_for_rtcp : ℕ → Bool
is_reserved_for_rtcp payload_type = leb 64 payload_type && ltb payload_type 96

unfoldable pub is_rtp_packet : Bytes → Bool
unfolding has_rtp_version is_reserved_for_rtcp
is_rtp_packet (a ∷ b ∷ rest) =
    leb 12 (length (a ∷ b ∷ rest)) && (has_rtp_version a && not (is_reserved_for_rtcp (b % 128)))
is_rtp_packet short = false

-- The capacity of the two buffers.
abbrev pub buffer_capacity : ℕ
buffer_capacity = 1024 * 1024 * 8

-- The first `recv_buffer_size_` bytes of `recv_buffer_`.
pub record Session : Type 0 where
  pub recv_buffer : Bytes

-- What the loop comes to: the position and the packets handed on, a read outside the buffer or of
-- bytes never received, or no end within the fuel.
pub data Parsing : Type 0 where
  parsed : ℕ → List Bytes → Parsing
  fault : Parsing
  running : Parsing

-- The packets that one frame hands to `OnRtpPacket`. The branch for RTCP packets has the test of
-- the branch before it, and is never taken.
unfoldable pub receive_frame : (Bytes → Option ℕ) → Bytes → List Bytes
receive_frame payload_type payload =
    if is_rtp_packet payload
    then elim (payload_type payload) [ none ↦ [] | some t ↦ if t == 96 then payload ∷ [] else [] ]
    else []

-- A negative length is a huge size of the view. Taken for an RTP packet, the view is read beyond the
-- buffer, which is `none`.
unfoldable pub receive_negative : Bytes → Option (List Bytes)
unfolding has_rtp_version is_reserved_for_rtcp
receive_negative [] = none
receive_negative (a ∷ []) = if has_rtp_version a then none else some []
receive_negative (a ∷ b ∷ rest) =
    if has_rtp_version a && not (is_reserved_for_rtcp (b % 128)) then none else some []

unfoldable pub parse_frames : (Bytes → Option ℕ) → ℕ → Bytes → ℕ → List Bytes → Parsing
parse_frames payload_type zero buffer at' packets = running
parse_frames payload_type (suc fuel) buffer at' packets = elim (ltb 2 (length buffer - at')) [
  | false ↦ parsed at' packets
  | true ↦ elim (read_big_endian 2 (drop at' buffer)) [
    | none ↦ fault
    | some v ↦ elim (reinterpret_as_signed 2 v) [
      | pos n ↦ elim (ltb (length buffer - at') (n + 2)) [
        | true ↦ parsed at' packets
        | false ↦
            parse_frames payload_type fuel buffer (at' + 2 + n)
              (packets ++ receive_frame payload_type (take n (drop (at' + 2) buffer)))
      ]
      | negsuc n ↦ elim (receive_negative (drop (at' + 2) buffer)) [
        | none ↦ fault
        | some more ↦ elim (sub_ℕ (at' + 2) (suc n)) [
          | pos before ↦ parse_frames payload_type fuel buffer before (packets ++ more)
          | negsuc m ↦ fault
        ]
      ]
    ]
  ]
]

-- What the buffer holds once `Recv` has nothing more to give: what was kept, and what has arrived,
-- as far as it fits.
unfoldable pub receive : Session → Bytes → Bytes
receive s arrived = s.recv_buffer ++ take (buffer_capacity - length s.recv_buffer) arrived

pub data Read : Type 0 where
  done : Session → List Bytes → Read
  fails : Read
  runs : Read

unfoldable pub keep_rest : Bytes → Parsing → Read
keep_rest buffer (parsed at' packets) = done (record { recv_buffer = drop at' buffer }) packets
keep_rest buffer fault = fails
keep_rest buffer running = runs

-- `OnRead`, where `arrived` is what the socket has to give; the fuel bounds the rounds of its loop.
unfoldable pub on_read : (Bytes → Option ℕ) → ℕ → Session → Bytes → Read
unfolding keep_rest receive
on_read payload_type fuel s arrived =
    keep_rest (receive s arrived) (parse_frames payload_type fuel (receive s arrived) 0 [])
