-- ===== src/ByteIo.antt =====
-- rtp_rtcp/byte_io.h: fixed-width numbers in network byte order. Memory is the list of the bytes
-- from a pointer on; a read past its end is `none`.
pub mod RoundTrip
use clibmedia_transfer_proto.Common.{
  ℕ, zero, suc, ◌+◌, ◌-◌, ◌*◌, ◌/◌, ◌%◌, ◌^◌, ◌<◌, List, [], ◌∷◌, Option, none, some,
}
use clibmedia_transfer_proto.Common.{ltb, if◌then◌else◌}
use clibmedia_transfer_proto.Common.Int.{ℤ, pos, negsuc}

abbrev pub Bytes : Type 0
Bytes = List ℕ

abbrev pub IsByte : ℕ → Type 0
IsByte b = b < 256

-- `val |= data[i] << ((B - 1 - i) * 8)` for i from 0 to B - 1: the bytes fill disjoint places.
unfoldable pub read_loop : ℕ → ℕ → Bytes → Option ℕ
read_loop zero val data' = some val
read_loop (suc n) val [] = none
read_loop (suc n) val (b ∷ data') = read_loop n (val * 256 + b) data'

-- `ByteReader<T>::ReadBigEndian` at a width of `b` bytes.
unfoldable pub read_big_endian : ℕ → Bytes → Option ℕ
unfolding read_loop
read_big_endian b data' = read_loop b 0 data'

-- `ByteWriter<T>::WriteBigEndian`: `data[i] = val >> ((B - 1 - i) * 8)`, cut to a byte.
unfoldable pub write_big_endian : ℕ → ℕ → Bytes
write_big_endian zero val = []
write_big_endian (suc n) val = (val / 256 ^ n % 256) ∷ write_big_endian n val

-- `ReinterpretAsSigned` at a width of `b` bytes.
unfoldable pub reinterpret_as_signed : ℕ → ℕ → ℤ
reinterpret_as_signed b unsigned_val =
    if ltb unsigned_val (256 ^ b / 2) then pos unsigned_val else negsuc (256 ^ b - unsigned_val - 1)
