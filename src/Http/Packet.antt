-- ===== src/Http/Packet.antt =====
-- libhttp/packet.h and packet.cpp: a block of `capacity` bytes, of which `size` are in use.
-- `none` is an allocation of a negative size, or a read or write outside the block.
use clibmedia_transfer_proto.Common.{
  ℕ, ◌+◌, ◌-◌, ◌%◌, ◌^◌, Option, none, some, Bool, ◌&&◌, bit_and, ◌==◌, length, take, replicate,
  min, ltb, leb, if◌then◌else◌,
}
use clibmedia_transfer_proto.Common.Int.{ℤ, pos, negsuc}
use clibmedia_transfer_proto.ByteIo.{Bytes, reinterpret_as_signed}
use clibmedia_transfer_proto.Http.MsgBuffer.{copy_into}
use mathlib.Core.Option

pub record Packet : Type 0 where
  pub type' : ℕ
  pub size : ℕ
  pub index : ℤ
  pub timestamp : ℕ
  pub capacity : ℕ
  pub content : Bytes

abbrev packet_type_video : ℕ
packet_type_video = 1

abbrev packet_type_audio : ℕ
packet_type_audio = 2

abbrev frame_type_key_frame : ℕ
frame_type_key_frame = 16

abbrev packet_type_unknowed : ℕ
packet_type_unknowed = 255

unfoldable pub new_packet : ℤ → Option Packet
new_packet (pos size) = some (record {
  type' = packet_type_unknowed;
  size = 0;
  index = negsuc 0;
  timestamp = 0;
  capacity = size;
  content = replicate size 0;
})
new_packet (negsuc n) = none

-- `Space()`: the difference of two uint32_t, as an int.
unfoldable pub space : Packet → ℤ
unfolding reinterpret_as_signed
space p = reinterpret_as_signed 4 ((p.capacity + 2 ^ 32 - p.size) % 2 ^ 32)

unfoldable pub set_packet_size : ℕ → Packet → Packet
set_packet_size len p = record p { size = len % 2 ^ 32 }

unfoldable pub update_packet_size : ℕ → Packet → Packet
update_packet_size len p = record p { size = (p.size + len) % 2 ^ 32 }

-- Whether the block holds `PacketSize()` bytes, which is an int32_t.
unfoldable pub holds_size : Packet → Bool
holds_size p = ltb p.size (2 ^ 31) && leb p.size (length p.content)

-- The bytes in use, as they are read for a connection: `PacketSize()` of them, converted to size_t.
unfoldable pub payload : Packet → Option Bytes
unfolding holds_size
payload p = if holds_size p then some (take p.size p.content) else none

unfoldable pub is_video : Packet → Bool
is_video p = bit_and p.type' packet_type_video == packet_type_video

unfoldable is_key_frame : Packet → Bool
unfolding is_video
is_key_frame p = is_video p && bit_and p.type' frame_type_key_frame == frame_type_key_frame

-- `min((int)ReadableBytes(), Space())`, for the copy that follows: a negative size is no copy.
unfoldable pub copy_size : ℕ → Packet → Option ℕ
unfolding reinterpret_as_signed
copy_size available p = elim (reinterpret_as_signed 4 (available % 2 ^ 32)) [
  | negsuc m ↦ none
  | pos m ↦ elim (space p) [ pos n ↦ some (min m n) | negsuc n ↦ none ]
]

-- `memcpy(Data() + PacketSize(), src, size)` and `UpdatePacketSize(size)`.
unfoldable pub add_bytes : Bytes → Packet → Option Packet
unfolding copy_into update_packet_size
add_bytes src p =
    Option.map (λ written. update_packet_size (length src) (record p { content = written }))
      (copy_into p.content p.size src)
