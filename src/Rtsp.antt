-- ===== src/Rtsp.antt =====
-- librtsp/rtsp_session.cpp: `OnRead`, which takes RTP and RTCP packets out of the stream of an RTSP
-- connection, each behind its frame of four bytes. `Parse` of the RTP library's packets are functions
-- of the record `RtpParsers`. A text is the outcome `reply`, which the child Answers takes up.
pub mod Frames
pub mod Interleaved
pub mod Segments
pub mod Stuck
pub mod Requests
pub mod Answers
pub mod Setups
pub mod Lines
pub mod Controls
pub mod Addresses
pub mod Authorized
pub mod Messages
use clibmedia_transfer_proto.Common.{
  ℕ, zero, suc, ◌+◌, ◌-◌, ◌*◌, ◌%◌, Bool, true, false, ◌&&◌, Option, none, some, List, [], ◌∷◌,
  ◌++◌, ◌==◌, ltb, leb, if◌then◌else◌, length, take, drop,
}
use clibmedia_transfer_proto.ByteIo.{Bytes, read_big_endian}
use clibmedia_transfer_proto.Gb28181.{is_rtp_packet, has_rtp_version, is_reserved_for_rtcp}

unfoldable pub is_rtcp_packet : Bytes → Bool
unfolding has_rtp_version is_reserved_for_rtcp
is_rtcp_packet (a ∷ b ∷ rest) =
    leb 4 (length (a ∷ b ∷ rest)) && (has_rtp_version a && is_reserved_for_rtcp (b % 128))
is_rtcp_packet short = false

-- What `OnRead` asks of a packet that `RtpPacket::Parse` has accepted.
pub record RtpPacket : Type 0 where
  pub payload_type : ℕ
  pub ssrc : ℕ
  pub size : ℕ

-- `RtpPacket::Parse`, and `CommonHeader::Parse` with its `packet_size`, where they accept the bytes.
pub record RtpParsers : Type 0 where
  pub parse_rtp : Bytes → Option RtpPacket
  pub parse_rtcp : Bytes → Option ℕ

-- The first `recv_buffer_size_` bytes of `recv_buffer_`, and `decoder_init_`.
pub record RtspSession : Type 0 where
  pub recv_buffer : Bytes
  pub decoder_init : Bool

-- `SignalInitDeocder` with the source of the stream, and `SignalRtpPacket`.
pub data Event : Type 0 where
  init_decoder : ℕ → Event
  rtp_packet : RtpPacket → Event

-- How `OnRead` ends: with the session and the signals, at a text, at a read or write of bytes it has
-- not, or not within the fuel.
pub data Reading : Type 0 where
  returns : RtspSession → List Event → Reading
  reply : RtspSession → List Event → Bytes → Reading
  fault : Reading
  running : Reading

-- One round of the loop: the end, or the session, the signals and what is left to parse.
pub data Round : Type 0 where
  ends : Reading → Round
  goes : RtspSession → List Event → Bytes → Round

unfoldable pub then_reads : List Event → Reading → Reading
then_reads events (returns s more) = returns s (events ++ more)
then_reads events (reply s more text) = reply s (events ++ more) text
then_reads events fault = fault
then_reads events running = running

-- The capacity of both buffers.
abbrev pub buffer_capacity : ℕ
buffer_capacity = 1024 * 1024

-- An accepted RTP packet: the decoder is initialised before the first one of payload type 96.
unfoldable pub receive_rtp : RtpPacket → RtspSession → Bytes → Round
receive_rtp packet s rest =
    if packet.payload_type == 96
    then goes (record s { decoder_init = true })
        (if s.decoder_init
          then rtp_packet packet ∷ []
          else init_decoder packet.ssrc ∷ rtp_packet packet ∷ [])
        rest
    else goes s [] rest

-- The payload of a frame, `more` being the bytes from it on and `rest` those behind it. It is passed
-- over only where it is accepted.
unfoldable pub receive_payload : RtpParsers → RtspSession → Bytes → Bytes → Bytes → Round
unfolding receive_rtp is_rtcp_packet
receive_payload l s payload more rest =
    if is_rtp_packet payload
    then elim (l.parse_rtp payload) [
      | none ↦ goes s [] more
      | some packet ↦ receive_rtp packet s rest
    ]
    else if is_rtcp_packet payload
    then elim (l.parse_rtcp payload) [ none ↦ goes s [] more | some size ↦ goes s [] rest ]
    else goes s [] more

-- Bytes from a '$' on. With less than four of them, the frame is read from bytes never received.
unfoldable pub interleaved : RtpParsers → RtspSession → Bytes → Round
interleaved l s data' = elim (read_big_endian 2 (drop 2 data')) [
  | none ↦ ends fault
  | some length' ↦
      if ltb (length data' - 4) length'
      then ends (returns (record s { recv_buffer = data' }) [])
      else receive_payload l s (take length' (drop 4 data')) (drop 4 data')
          (drop length' (drop 4 data'))
]

-- The test for the bytes 80 c8 00 06, one after the other; `none` where one it reads is missing.
unfoldable pub starts_with? : Bytes → Bytes → Option Bool
starts_with? [] data' = some true
starts_with? (b ∷ bs) [] = none
starts_with? (b ∷ bs) (a ∷ data') =
    let rest = starts_with? bs data' in if a == b then rest else some false

-- Bytes that are not in a frame.
unfoldable pub plain : RtpParsers → RtspSession → Bytes → Round
unfolding is_rtcp_packet starts_with?
plain l s data' =
    if is_rtp_packet data'
    then elim (l.parse_rtp data') [
      | none ↦ goes s [] data'
      | some packet ↦ goes s [] (drop packet.size data')
    ]
    else if is_rtcp_packet data'
    then elim (l.parse_rtcp data') [
      | none ↦ goes s [] data'
      | some size ↦ goes s [] (drop size data')
    ]
    else elim (starts_with? (0x80 ∷ 0xC8 ∷ 0 ∷ 6 ∷ []) data') [
      | none ↦ ends fault
      | some true ↦ goes s [] (drop 72 data')
      | some false ↦ ends (reply s [] data')
    ]

-- A round on what is left, which is not empty.
unfoldable pub round : RtpParsers → RtspSession → ℕ → Bytes → Round
unfolding interleaved plain
round l s first rest =
    if first == 36 then interleaved l s (first ∷ rest) else plain l s (first ∷ rest)

unfoldable pub read_loop : RtpParsers → ℕ → RtspSession → Bytes → Reading
unfolding round then_reads
read_loop l zero s [] = returns s []
read_loop l (suc fuel) s [] = returns s []
read_loop l zero s (first ∷ rest) = running
read_loop l (suc fuel) s (first ∷ rest) = elim (round l s first rest) [
  | ends reading ↦ reading
  | goes s' events data' ↦ then_reads events (read_loop l fuel s' data')
]

-- The loop over `Recv`, which is offered the whole capacity wherever it is to write: each list is
-- what one call gives, and an empty one ends the loop. `none` is a write behind the buffer.
unfoldable pub receive : Bytes → List Bytes → Option Bytes
receive buffer [] = some buffer
receive buffer ([] ∷ others) = some buffer
receive buffer ((b ∷ bytes) ∷ others) =
    elim (ltb buffer_capacity (length buffer + length (b ∷ bytes))) [
      | true ↦ none
      | false ↦ receive (buffer ++ (b ∷ bytes)) others
    ]

-- Each round but one that leaves all it was given passes over a byte, so that the fuel is enough.
unfoldable pub on_read : RtpParsers → RtspSession → List Bytes → Reading
unfolding read_loop receive
on_read l s received = elim (receive s.recv_buffer received) [
  | none ↦ fault
  | some data' ↦ read_loop l (suc (length data')) (record s { recv_buffer = [] }) data'
]
