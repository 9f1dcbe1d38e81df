-- ===== src/RtcServer.antt =====
-- librtc/rtc_server.cpp: which signal a datagram of the shared port goes to. A datagram is the list
-- of its bytes; `none` is a read of a byte that is missing.
pub mod Routing
use clibmedia_transfer_proto.Common.{
  ℕ, Bool, true, false, ◌&&◌, Option, none, some, ◌==◌, leb, ltb, if◌then◌else◌, length, get_elem?,
  ◌>>=◌, bit_and, not,
}
use clibmedia_transfer_proto.ByteIo.{Bytes}

pub data Signal : Type 0 where
  stun_packet dtls_packet rtp_packet rtcp_packet unknown_packet : Signal

-- `data[i]`, with 0 where a test on the length has failed already.
unfoldable pub byte_at : ℕ → Bytes → ℕ
byte_at i data' = elim (get_elem? data' i) [ none ↦ 0 | some b ↦ b ]

unfoldable pub is_stun : Bytes → Bool
is_stun data' =
    leb 20 (length data')
    && (ltb (byte_at 0 data') 3
        && ((byte_at 4 data' == 0x21)
            && ((byte_at 5 data' == 0x12)
                && ((byte_at 6 data' == 0xA4) && (byte_at 7 data' == 0x42)))))

unfoldable pub is_dtls : Bytes → Bool
is_dtls data' = leb 13 (length data') && (ltb 19 (byte_at 0 data') && ltb (byte_at 0 data') 64)

-- The second byte is read before the length is asked for: `none` where it is missing.
unfoldable pub is_rtp : Bytes → Option Bool
is_rtp data' = do
  pt ← get_elem? data' 1
  some (
      leb 12 (length data')
      && (ltb 127 (byte_at 0 data')
          && (ltb (byte_at 0 data') 192 && not (bit_and (byte_at 0 data') 0x80 == 0))))

unfoldable pub is_rtcp : Bytes → Option Bool
is_rtcp data' = do
  pt ← get_elem? data' 1
  some (
      leb 12 (length data')
      && (ltb 127 (byte_at 0 data')
          && (ltb (byte_at 0 data') 192
              && (not (bit_and (byte_at 0 data') 0x80 == 0) && (leb 192 pt && leb pt 223)))))

-- `OnRecvPacket`
unfoldable pub on_recv_packet : Bytes → Option Signal
unfolding is_stun is_dtls is_rtp is_rtcp
on_recv_packet data' =
    if is_stun data'
    then some stun_packet
    else if is_dtls data'
    then some dtls_packet
    else elim (is_rtp data') [
      | none ↦ none
      | some true ↦ some rtp_packet
      | some false ↦ elim (is_rtcp data') [
        | none ↦ none
        | some true ↦ some rtcp_packet
        | some false ↦ some unknown_packet
      ]
    ]
