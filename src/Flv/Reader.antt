-- ===== src/Flv/Reader.antt =====
-- A reader of FLV, by its description: what a player makes of the bytes.
use clibmedia_transfer_proto.Common.{
  ℕ, zero, suc, ◌+◌, ◌*◌, ◌^◌, Bool, true, false, ◌&&◌, ◌||◌, Option, none, some, List, [], ◌∷◌,
  ◌==◌, ltb, if◌then◌else◌, length, take, drop, get_elem?, ◌>>=◌,
}
use clibmedia_transfer_proto.ByteIo.{Bytes, read_big_endian}

pub record Tag : Type 0 where
  pub type' : ℕ
  pub time : ℕ
  pub body : Bytes

-- A text behind its length in `n` bytes.
unfoldable pub read_sized : ℕ → Bytes → Option (Bytes × Bytes)
read_sized n bytes = read_big_endian n bytes >>= λ size.
    if ltb (length bytes) (n + size)
    then none
    else some (take size (drop n bytes), drop (n + size) bytes)

unfoldable pub is_type : ℕ → Bool
is_type t = t == 8 || (t == 9 || t == 18)

-- What stands before a body, what stands behind it, and the body between.
unfoldable pub read_tag : Bytes → Option (Tag × Bytes)
unfolding is_type
read_tag bytes = read_big_endian 1 bytes >>= λ type'. read_big_endian 3 (drop 1 bytes) >>= λ size.
    read_big_endian 3 (drop 4 bytes) >>= λ low. read_big_endian 1 (drop 7 bytes) >>= λ high.
    read_big_endian 4 (drop (11 + size) bytes) >>= λ previous.
    if is_type type' && previous == size + 11
    then some (
      record { type' = type'; time = high * 2 ^ 24 + low; body = take size (drop 11 bytes) },
      drop (15 + size) bytes,
    )
    else none

-- What a tag of video shows: how to decode, or a picture of its units at the time of its tag, which
-- a player shows later by the composition time.
pub data Shown : Type 0 where
  config : Bytes → Bytes → Shown
  picture : (key : Bool) → (time composition_time : ℕ) → (units : List Bytes) → Shown

unfoldable pub read_units : ℕ → Bytes → Option (List Bytes)
read_units zero bytes = none
read_units (suc fuel) [] = some []
read_units (suc fuel) (b ∷ bytes) = elim (read_sized 4 (b ∷ bytes)) [
  | none ↦ none
  | some (unit, rest) ↦ elim (read_units fuel rest) [
    | none ↦ none
    | some units ↦ some (unit ∷ units)
  ]
]

-- The record that configures a decoder, behind its first six bytes: one set of each kind.
unfoldable pub read_config : Bytes → Option Shown
unfolding read_sized
read_config bytes =
    read_sized 2 bytes >>= λ sps. read_sized 2 (drop 1 sps.1) >>= λ pps. some (config sps.0 pps.0)

unfoldable pub read_picture : Bool → ℕ → Bytes → Option Shown
unfolding read_units
read_picture key time bytes = read_big_endian 3 bytes >>= λ composition_time.
    read_units (suc (length bytes)) (drop 3 bytes) >>= λ units.
    some (picture key time composition_time units)

-- The first byte is the kind of frame and the codec, the second says whether it configures.
unfoldable pub read_body : Tag → Option Shown
unfolding read_config read_picture
read_body tag = get_elem? tag.body 0 >>= λ kind. get_elem? tag.body 1 >>= λ packet.
    if kind == 0x17 && packet == 0
    then read_config (drop 11 tag.body)
    else if kind == 0x17 && packet == 1
    then read_picture true tag.time (drop 2 tag.body)
    else if kind == 0x27 && packet == 1
    then read_picture false tag.time (drop 2 tag.body)
    else none

unfoldable pub read_shown : Bytes → Option (Shown × Bytes)
unfolding read_tag read_body
read_shown bytes = read_tag bytes >>= λ tag. read_body tag.0 >>= λ shown. some (shown, tag.1)

unfoldable pub read_stream : ℕ → Bytes → Option (List Shown)
read_stream zero bytes = none
read_stream (suc fuel) [] = some []
read_stream (suc fuel) (b ∷ bytes) = elim (read_shown (b ∷ bytes)) [
  | none ↦ none
  | some (shown, rest) ↦ elim (read_stream fuel rest) [
    | none ↦ none
    | some all ↦ some (shown ∷ all)
  ]
]
