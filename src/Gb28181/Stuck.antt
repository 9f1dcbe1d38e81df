-- ===== src/Gb28181/Stuck.antt =====
-- A negative length that takes the loop of `OnRead` back to where it was.
use clibmedia_transfer_proto.Common.{
  ℕ, zero, suc, ◌+◌, ◌≡◌, refl, Option, some, List, [], ◌∷◌, ◌++◌, arith, length, take-all, ◌-◌,
  lt→ltb, false, ◌≤◌,
}
use clibmedia_transfer_proto.ByteIo.{Bytes, read_big_endian, reinterpret_as_signed}
use clibmedia_transfer_proto.Gb28181.{
  parse_frames, running, receive_negative, on_read, receive, runs, has_rtp_version, buffer_capacity,
}

receive_negative-other :
    (byte : ℕ) (rest : Bytes)
    → has_rtp_version byte ≡ false
    → receive_negative (byte ∷ rest) ≡ some []
unfolding receive_negative
receive_negative-other byte [] h = rw h refl
receive_negative-other byte (b ∷ rest) h = rw h refl

parse_frames-stuck :
    (payload_type : Bytes → Option ℕ) (fuel : ℕ) (byte : ℕ) (rest : Bytes) (packets : List Bytes)
    → has_rtp_version byte ≡ false
    → parse_frames payload_type fuel (255 ∷ 254 ∷ byte ∷ rest) 0 packets ≡ running
unfolding parse_frames read_big_endian reinterpret_as_signed
parse_frames-stuck payload_type zero byte rest packets h = refl
parse_frames-stuck payload_type (suc fuel) byte rest packets h =
    rw
      (
        parse_frames,
        lt→ltb 2 (suc (suc (suc (length rest))) - 0) (omega arith),
        receive_negative-other byte rest h,
      )
      (parse_frames-stuck payload_type fuel byte rest (packets ++ []) h)

-- Kept nothing, a read of a frame whose length is -2, and whose first byte is not that of an RTP
-- packet, never comes to its end, whatever the number of rounds.
pub on_read-stuck :
    (payload_type : Bytes → Option ℕ) (fuel : ℕ) (byte : ℕ) (rest : Bytes)
    → has_rtp_version byte ≡ false
    → length rest + 3 ≤ buffer_capacity
    → on_read payload_type fuel (record { recv_buffer = [] }) (255 ∷ 254 ∷ byte ∷ rest) ≡ runs
unfolding on_read receive
on_read-stuck payload_type fuel byte rest h fits =
    rw
      (
        take-all buffer_capacity (255 ∷ 254 ∷ byte ∷ rest) (omega arith),
        parse_frames-stuck payload_type fuel byte rest [] h,
      )
      refl
