-- ===== src/Flv.antt =====
-- libflv/cflv_context.cpp: `FlvContext`, which writes H.264 and audio frames as an FLV stream. The
-- writers of AMF values, in amf0.c, and `webrtc::H264::FindNaluIndices` are arguments. The context
-- has a connection and no file, and what `AsyncSend` is given is a list of messages. A read or a copy
-- outside a buffer is `none`.
pub mod Header
pub mod Reader
pub mod Tags
pub mod Muxer
pub mod Sending
pub mod Playback
pub mod Order
pub mod Audio
pub mod Config
use clibmedia_transfer_proto.Common.{
  ℕ, ◌+◌, ◌-◌, ◌*◌, ◌/◌, ◌%◌, ◌^◌, Bool, true, false, ◌||◌, Option, none, some, List, [], ◌∷◌, ◌++◌,
  ◌==◌, ltb, if◌then◌else◌, length, take, drop, get_elem?, ◌>>=◌,
}
use clibmedia_transfer_proto.ByteIo.{Bytes, write_big_endian}

-- `new uint8_t[1024 * 1024 * 8]`, for each of the two buffers. What `out_buffer_` holds goes through
-- `send_buffer_`, with more around it, so that the latter overflows first.
abbrev pub buffer_capacity : ℕ
buffer_capacity = 1024 * 1024 * 8

-- `send_buffer` is the first `send_size_` bytes of `send_buffer_`.
pub record FlvContext : Type 0 where
  pub prev_packet_size : ℕ
  pub send_sps : Bool
  pub sps : Bytes
  pub pps : Bytes
  pub start_timestamp : ℕ
  pub send_buffer : Bytes

-- A state, and the messages sent.
abbrev pub Sent : Type 0
Sent = Option (FlvContext × List Bytes)

-- What is sent by one step and then by another.
unfoldable pub and_then : Sent → (FlvContext → Sent) → Sent
and_then none f = none
and_then (some (c, messages)) f = f c >>= λ next. some (next.0, messages ++ next.1)

abbrev type_audio : ℕ
type_audio = 8

abbrev pub type_video : ℕ
type_video = 9

abbrev pub type_amf_meta : ℕ
type_amf_meta = 18

unfoldable pub writer : Bytes → Bool → FlvContext → Sent
writer data' flush c =
    let pending = c.send_buffer ++ data' in
    if ltb buffer_capacity (length pending)
    then none
    else if flush
    then some (record c { send_buffer = [] }, pending ∷ [])
    else some (record c { send_buffer = pending }, [])

-- `FlvTagHeader`: the type, the size, the time in three bytes and its highest, and no stream.
unfoldable pub tag_header : ℕ → ℕ → ℕ → Bytes
tag_header type' size time_stamp =
    type'
    ∷ (write_big_endian 3 size
        ++ (write_big_endian 3 time_stamp ++ (time_stamp / 2 ^ 24 % 256 ∷ 0 ∷ 0 ∷ 0 ∷ [])))

-- `time_stamp` is the bit pattern of an `int64_t`.
unfoldable pub write_flv_tag : ℕ → Bytes → ℕ → FlvContext → Sent
unfolding writer tag_header and_then
write_flv_tag type' data' time_stamp c =
    and_then
      (and_then (writer (tag_header type' (length data') time_stamp) false c) (writer data' false))
      (writer (write_big_endian 4 (length data' + 11)) true)

-- `sps_[i]`, where the place after the last has a zero.
unfoldable char_at : Bytes → ℕ → Option ℕ
char_at text i = get_elem? (text ++ (0 ∷ [])) i

-- `extra_data`: the AVCDecoderConfigurationRecord.
unfoldable pub extra_data : Bytes → Bytes → Option Bytes
unfolding char_at
extra_data sps pps = char_at sps 1 >>= λ profile. char_at sps 2 >>= λ compat.
    char_at sps 3 >>= λ level. some (
      1
      ∷ profile
      ∷ compat
      ∷ level
      ∷ 0xff
      ∷ 0xe1
      ∷ (write_big_endian 2 (length sps)
          ++ (sps ++ (1 ∷ (write_big_endian 2 (length pps) ++ pps)))))

unfoldable pub write_config_packet : FlvContext → Sent
unfolding extra_data write_flv_tag
write_config_packet c =
    extra_data c.sps c.pps >>= λ extra. write_flv_tag type_video (0x17 ∷ 0 ∷ 0 ∷ 0 ∷ 0 ∷ extra) 0 c

-- `timestamp - start_timestamp_`, of `uint64_t`.
unfoldable pub elapsed : ℕ → FlvContext → ℕ
elapsed timestamp c = (timestamp + 2 ^ 64 - c.start_timestamp) % 2 ^ 64

abbrev pub sized : Bytes → Bytes
sized nal = write_big_endian 4 (length nal) ++ nal

unfoldable pub send_config : ℕ → FlvContext → Sent
unfolding write_config_packet
send_config timestamp c =
    if c.send_sps
    then some (c, [])
    else and_then (write_config_packet (record c { send_sps = true }))
        (λ c'. some (record c' { start_timestamp = timestamp }, []))

-- `case webrtc::H264::NaluType::kIdr`
unfoldable pub send_idr : ℕ → Bytes → FlvContext → Sent
unfolding send_config write_flv_tag elapsed and_then
send_idr timestamp nal c = and_then (send_config timestamp c) (λ c'.
    write_flv_tag type_video
      (0x17
        ∷ 1
        ∷ (write_big_endian 3 (elapsed timestamp c')
            ++ (sized c'.sps ++ (sized c'.pps ++ sized nal))))
      (elapsed timestamp c') c')

-- The other kinds of unit that are sent, once the configuration is.
unfoldable pub send_slice : ℕ → Bytes → FlvContext → Sent
unfolding write_flv_tag elapsed
send_slice timestamp nal c =
    write_flv_tag type_video (0x27 ∷ 1 ∷ (write_big_endian 3 (elapsed timestamp c) ++ sized nal))
      (elapsed timestamp c) c

pub data NaluType : Type 0 where
  sps idr pps slice other : NaluType

-- The cases of the switch, by the values of `webrtc::H264::NaluType`.
unfoldable pub nalu_type : ℕ → NaluType
nalu_type t =
    if t == 7
    then sps
    else if t == 8
    then pps
    else if t == 5
    then idr
    else if t == 1
        || (t == 6 || (t == 9 || (t == 10 || (t == 11 || (t == 12 || (t == 24 || t == 28))))))
    then slice
    else other

-- `nal` is `none` if the unit reaches outside the frame.
unfoldable pub send_typed : NaluType → ℕ → Option Bytes → FlvContext → Sent
unfolding send_idr send_slice
send_typed sps timestamp nal c = nal >>= λ nal'. some (record c { sps = nal' }, [])
send_typed pps timestamp nal c = nal >>= λ nal'. some (record c { pps = nal' }, [])
send_typed idr timestamp nal c = nal >>= λ nal'. send_idr timestamp nal' c
send_typed slice timestamp nal c =
    if c.send_sps then (nal >>= λ nal'. send_slice timestamp nal' c) else some (c, [])
send_typed other timestamp nal c = some (c, [])

unfoldable pub nal_bytes : Bytes → ℕ → ℕ → Option Bytes
nal_bytes frame offset size =
    if ltb (length frame) (offset + size) then none else some (take size (drop offset frame))

-- One round of the loop: a unit by its place and size in the frame.
unfoldable pub send_nalu : Bytes → ℕ → FlvContext → ℕ × ℕ → Sent
unfolding send_typed nalu_type nal_bytes
send_nalu frame timestamp c (offset, size) = get_elem? frame offset >>= λ first.
    send_typed (nalu_type (first % 32)) timestamp (nal_bytes frame offset size) c

unfoldable pub send_nalus : Bytes → ℕ → FlvContext → List (ℕ × ℕ) → Sent
unfolding send_nalu and_then
send_nalus frame timestamp c [] = some (c, [])
send_nalus frame timestamp c (nalu ∷ nalus) =
    and_then (send_nalu frame timestamp c nalu) (λ c'. send_nalus frame timestamp c' nalus)

unfoldable pub send_flv_video_frame : (Bytes → List (ℕ × ℕ)) → Bytes → ℕ → FlvContext → Sent
unfolding send_nalus
send_flv_video_frame find_nalu_indices frame timestamp c =
    send_nalus frame timestamp c (find_nalu_indices frame)

-- The header of an audio frame, written behind no other, and the frame. Nothing follows the frame.
unfoldable pub send_flv_audio_frame : Bytes → ℕ → FlvContext → FlvContext × List Bytes
send_flv_audio_frame frame timestamp c = (
  record c { prev_packet_size = (length frame + 11) % 2 ^ 32 },
  (write_big_endian 4 c.prev_packet_size
        ++ (type_audio
            ∷ (write_big_endian 3 (length frame)
                ++ (write_big_endian 3 timestamp ++ (0 ∷ 0 ∷ 0 ∷ 0 ∷ [])))))
      ∷ frame
      ∷ [],
)
