-- ===== src/Mpeg.antt =====
-- libmpeg/mpeg_decoder.cpp: `MpegDecoder::parse`, which takes the frames out of an MPEG program
-- stream that arrives in pieces. What the two signals hand on is a list of events. A read or a copy
-- outside the data or the buffer is `none`, and `fault` of the result.
pub mod Packets
pub mod Front
pub mod Whole
pub mod Others
pub mod Stream
pub mod Pending
pub mod Receive
pub mod Reassembly
pub mod Termination
pub mod Times
use clibmedia_transfer_proto.Common.{
  ℕ, zero, suc, ◌+◌, ◌-◌, ◌*◌, ◌/◌, ◌%◌, ◌^◌, Bool, true, false, ◌&&◌, ◌||◌, Option, none, some,
  List, [], ◌∷◌, ◌++◌, ◌==◌, ltb, if◌then◌else◌, length, take, drop, get_elem?, ◌>>=◌,
}
use clibmedia_transfer_proto.Common.Int.{ℤ, pos, negsuc, sub_ℕ}
use clibmedia_transfer_proto.ByteIo.{Bytes, read_big_endian}

-- `new uint8_t[1024 * 1024 * 8]`
abbrev pub byte_stream_capacity : ℕ
byte_stream_capacity = 1024 * 1024 * 8

-- `byte_stream` is the first `stream_len_` bytes of `byte_stream_`.
pub record MpegDecoder : Type 0 where
  pub byte_stream : Bytes
  pub read_byte : ℤ
  pub video_pts : ℕ

-- What `SignalRecvVideoFrame` and `SignalRecvAudioFrame` are given.
pub data Event : Type 0 where
  video_frame : Bytes → ℕ → Event
  audio_frame : Bytes → Event

-- What one round of the loop comes to: the bytes from `ps` on, or the value returned.
pub data Round : Type 0 where
  next : Bytes → MpegDecoder → List Event → Round
  stop : ℤ → MpegDecoder → List Event → Round

pub data Parsing : Type 0 where
  returns : ℤ → MpegDecoder → List Event → Parsing
  fault : Parsing
  running : Parsing

-- `memcpy(byte_stream_ + stream_len_, ...)` and `stream_len_ += ...`
unfoldable pub append_stream : Bytes → MpegDecoder → Option MpegDecoder
append_stream bytes d =
    if ltb byte_stream_capacity (length d.byte_stream + length bytes)
    then none
    else some (record d { byte_stream = d.byte_stream ++ bytes })

-- `pse_length.length - 2 - 1 - PSEPack->stuffing_length`, an `int` taken for a `size_t`.
unfoldable pub payload_size : ℕ → ℕ → ℕ
payload_size pse_length stuffing_length = (2 ^ 64 + pse_length - (3 + stuffing_length)) % 2 ^ 64

-- Whether a payload begins with 00 00 00 01; each byte is read if the ones before it match.
unfoldable pub begins : Bytes → Bytes → Option Bool
begins [] payload = some true
begins (b ∷ bs) [] = none
begins (b ∷ bs) (p ∷ payload) = if p == b then begins bs payload else some false

abbrev pub frame_start : Bytes
frame_start = 0 ∷ 0 ∷ 0 ∷ 1 ∷ []

-- The frame collected so far is handed on when the payload begins the next.
unfoldable pub flush : Bool → MpegDecoder → MpegDecoder × List Event
flush true d = (record d { byte_stream = [] }, video_frame d.byte_stream d.video_pts ∷ [])
flush false d = (d, [])

unfoldable pub flush_frame : Bytes → MpegDecoder → Option (MpegDecoder × List Event)
unfolding flush begins
flush_frame payload d =
    if ltb 4 (length d.byte_stream)
    then (begins frame_start payload >>= λ whole. some (flush whole d))
    else some (d, [])

-- `(flags & 0xe0) == 0x20`, or else `(flags & 0xc0) == 0x80`. The test before them compares with the
-- multi-character constant '\80', which no `char` has for its value.
unfoldable pub has_pts : ℕ → Bool
has_pts flags = flags / 32 == 1 || flags / 64 == 2

unfoldable pub read_pts : ℕ → Bytes → MpegDecoder → Option MpegDecoder
unfolding has_pts
read_pts flags ps d =
    if has_pts flags
    then (read_big_endian 5 (drop 9 ps) >>= λ pts. some (record d { video_pts = pts * 256 / 90 }))
    else some d

-- As much of the payload as is there: all of it and what follows the packet, or what there is, and
-- how much is still to come. `payload` is all the data from the payload on.
unfoldable pub copy_payload : ℕ → ℕ → Bytes → Bytes → List Event → MpegDecoder → Option Round
unfolding append_stream payload_size
copy_payload pse_length stuffing_length payload after events d =
    if ltb (length payload) (payload_size pse_length stuffing_length)
    then (append_stream payload d >>= λ d'. some (
        stop (pos 0)
          (record d' { read_byte = sub_ℕ pse_length (3 + stuffing_length + length payload) })
          events))
    else append_stream (take (payload_size pse_length stuffing_length) payload) d >>= λ d'.
        some (next after d' events)

-- A payload that would begin outside the data is copied from there.
unfoldable pub video_payload : ℕ → ℕ → ℕ → Bytes → MpegDecoder → Option Round
unfolding flush_frame read_pts copy_payload
video_payload pse_length flags stuffing_length ps d =
    if ltb (length ps) (9 + stuffing_length)
    then none
    else flush_frame (drop (9 + stuffing_length) ps) d >>= λ flushed.
        read_pts flags ps flushed.0
        >>= copy_payload pse_length stuffing_length (drop (9 + stuffing_length) ps)
            (drop (6 + pse_length) ps) flushed.1

-- `case 0XE0`
unfoldable pub video_packet : Bytes → MpegDecoder → Option Round
unfolding video_payload payload_size
video_packet ps d =
    if ltb (length ps) 9
    then some (stop (negsuc 0) d [])
    else read_big_endian 2 (drop 4 ps) >>= λ pse_length. get_elem? ps 7 >>= λ flags.
        get_elem? ps 8 >>= λ stuffing_length.
        if payload_size pse_length stuffing_length == 0
        then some (next (drop (6 + pse_length) ps) d [])
        else video_payload pse_length flags stuffing_length ps d

-- `case 0XC0`: the payload is handed on at once.
unfoldable pub audio_packet : Bytes → MpegDecoder → Option Round
unfolding payload_size
audio_packet ps d =
    if ltb (length ps) 9
    then some (stop (negsuc 0) d [])
    else read_big_endian 2 (drop 4 ps) >>= λ pse_length. get_elem? ps 8 >>= λ stuffing_length.
        let size = payload_size pse_length stuffing_length in
        let payload = drop (9 + stuffing_length) ps in
        if size == 0
        then some (next (drop (6 + pse_length) ps) d [])
        else if ltb (length payload) size
        then none
        else some (next (drop (6 + pse_length) ps) d (audio_frame (take size payload) ∷ []))

-- `case 0XBA`
unfoldable pub pack_header : Bytes → MpegDecoder → Option Round
pack_header ps d =
    get_elem? ps 13 >>= λ stuffinglen. some (next (drop (14 + stuffinglen % 8) ps) d [])

-- `case 0XBB` and `case 0XBC`, which are alike.
unfoldable pub skipped_packet : Bytes → MpegDecoder → Option Round
skipped_packet ps d =
    if ltb (length ps) 6
    then some (stop (negsuc 0) d [])
    else read_big_endian 2 (drop 4 ps) >>= λ psm_length. some (next (drop (6 + psm_length) ps) d [])

unfoldable pub dispatch : ℕ → Bytes → MpegDecoder → Option Round
unfolding pack_header skipped_packet video_packet audio_packet
dispatch stream_id ps d =
    if stream_id == 0xBA
    then pack_header ps d
    else if stream_id == 0xBB
    then skipped_packet ps d
    else if stream_id == 0xBC
    then skipped_packet ps d
    else if stream_id == 0xE0
    then video_packet ps d
    else if stream_id == 0xC0
    then audio_packet ps d
    else some (stop (negsuc 0) d [])

-- The body of the loop, where more than four bytes are left.
unfoldable pub round : Bytes → MpegDecoder → Option Round
unfolding dispatch
round (a ∷ b ∷ c ∷ stream_id ∷ rest) d =
    if a == 0 && (b == 0 && c == 1)
    then dispatch stream_id (a ∷ b ∷ c ∷ stream_id ∷ rest) d
    else some (stop (pos 0) d [])
round short d = none

-- `while ((size - len) > 4)`
unfoldable pub parse_loop : ℕ → Bytes → MpegDecoder → List Event → Parsing
parse_loop zero ps d events = running
parse_loop (suc fuel) ps d events = elim (ltb 4 (length ps)) [
  | false ↦ returns (pos 0) d events
  | true ↦ elim (round ps d) [
    | none ↦ fault
    | some (stop status d' more) ↦ returns status d' (events ++ more)
    | some (next ps' d' more) ↦ parse_loop fuel ps' d' (events ++ more)
  ]
]

abbrev pub loop_from : Bytes → MpegDecoder → Parsing
loop_from ps d = parse_loop (suc (length ps)) ps d []

-- The rest of a payload that an earlier piece began: the whole rest, or as much as there is.
unfoldable pub continue_payload : ℕ → Bytes → MpegDecoder → Parsing
continue_payload missing data' d =
    if ltb (length data') missing
    then elim (append_stream data' d) [
      | none ↦ fault
      | some d' ↦ returns (pos 0) (record d' { read_byte = sub_ℕ missing (length data') }) []
    ]
    else elim (append_stream (take missing data') d) [
      | none ↦ fault
      | some d' ↦ loop_from (drop missing data') (record d' { read_byte = pos 0 })
    ]

-- `MpegDecoder::parse`. Each round of the loop takes six bytes at least.
unfoldable pub parse : MpegDecoder → Bytes → Parsing
parse d data' = elim d.read_byte [
  | pos zero ↦ loop_from data' d
  | pos (suc n) ↦ continue_payload (suc n) data' d
  | negsuc n ↦ loop_from data' d
]
