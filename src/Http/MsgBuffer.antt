-- ===== src/Http/MsgBuffer.antt =====
-- libhttp/msg_buffer.h and msg_buffer.cpp: one vector with a read index and a write index.
-- A copy outside the vector is `none`, and so is one whose target begins within its source. Sums of sizes do not wrap; differences are those of size_t.
-- The host is little-endian, so `htons` and its kin put the highest byte first.
pub mod View
pub mod Append
pub mod Front
pub mod Retrieve
use clibmedia_transfer_proto.Common.{
  ℕ, zero, suc, ◌+◌, ◌-◌, ◌*◌, ◌^◌, ◌≤◌, Bool, ◌&&◌, List, [], ◌∷◌, ◌++◌, Option, none, some, ◌>>=◌,
}
use clibmedia_transfer_proto.Common.{leb, ltb, ◌==◌, if◌then◌else◌, length, take, drop, replicate}
use clibmedia_transfer_proto.Http.Search.{search, crlf}
use clibmedia_transfer_proto.ByteIo.{Bytes, read_big_endian, write_big_endian}

-- `kBufferOffset`
abbrev buffer_offset : ℕ
buffer_offset = 8

pub record MsgBuffer : Type 0 where
  pub head : ℕ
  pub init_cap : ℕ
  pub buffer : Bytes
  pub tail : ℕ

-- `a - b` on size_t.
unfoldable pub size_sub : ℕ → ℕ → ℕ
size_sub a b = if leb b a then a - b else a + 2 ^ 64 - b

unfoldable pub new_msg_buffer : ℕ → MsgBuffer
new_msg_buffer len = record {
  head = buffer_offset;
  init_cap = len;
  buffer = replicate (len + buffer_offset) 0;
  tail = buffer_offset;
}

unfoldable pub readable_bytes : MsgBuffer → ℕ
unfolding size_sub
readable_bytes b = size_sub b.tail b.head

unfoldable pub writable_bytes : MsgBuffer → ℕ
unfolding size_sub
writable_bytes b = size_sub (length b.buffer) b.tail

-- The bytes from `Peek()` up to `BeginWrite()`.
unfoldable pub readable : MsgBuffer → Bytes
unfolding readable_bytes
readable b = take (readable_bytes b) (drop b.head b.buffer)

-- `memcpy`, or `std::copy` from further behind in the same vector.
unfoldable pub copy_into : Bytes → ℕ → Bytes → Option Bytes
copy_into buffer pos src =
    if leb (pos + length src) (length buffer)
    then some (take pos buffer ++ (src ++ drop (pos + length src) buffer))
    else none

-- The readable bytes go back to the front.
unfoldable pub move_readable : MsgBuffer → Option MsgBuffer
unfolding copy_into readable
move_readable b = do
  moved ← copy_into b.buffer buffer_offset (readable b)
  some (record b { head = buffer_offset; buffer = moved; tail = buffer_offset + readable_bytes b })

unfoldable pub grown_length : MsgBuffer → ℕ → ℕ
unfolding readable_bytes
grown_length b len =
    if ltb (buffer_offset + readable_bytes b + len) (length b.buffer * 2)
    then length b.buffer * 2
    else buffer_offset + readable_bytes b + len

-- `append` is the `Append` that fills the new buffer, which takes this buffer's place by `Swap`.
unfoldable pub ensure_writable_bytes :
    (MsgBuffer → Bytes → Option MsgBuffer) → MsgBuffer → ℕ → Option MsgBuffer
unfolding writable_bytes move_readable grown_length new_msg_buffer
ensure_writable_bytes append b len =
    if leb len (writable_bytes b)
    then some b
    else if leb (len + buffer_offset) (b.head + writable_bytes b)
    then move_readable b
    else append (new_msg_buffer (grown_length b len)) (readable b)

unfoldable pub write_at_tail : MsgBuffer → Bytes → Option MsgBuffer
unfolding copy_into
write_at_tail b src = do
  written ← copy_into b.buffer b.tail src
  some (record b { buffer = written; tail = b.tail + length src })

-- `Append` and `EnsureWritableBytes` call one another; the fuel bounds how deep.
unfoldable pub append_within : ℕ → MsgBuffer → Bytes → Option MsgBuffer
unfolding ensure_writable_bytes write_at_tail
append_within zero b src = none
append_within (suc fuel) b src = do
  roomy ← ensure_writable_bytes (append_within fuel) b (length src)
  write_at_tail roomy src

-- Both overloads of `Append`.
unfoldable pub append : MsgBuffer → Bytes → Option MsgBuffer
unfolding append_within
append b src = append_within 2 b src

-- `AppendInt8`, `AppendInt16`, `AppendInt32`, `AppendInt64`: `n` is the width in bytes.
unfoldable pub append_int : ℕ → MsgBuffer → ℕ → Option MsgBuffer
unfolding append
append_int n b i = append b (write_big_endian n i)

unfoldable pub front_length : MsgBuffer → ℕ → ℕ
unfolding readable_bytes
front_length b len =
    if ltb (len + readable_bytes b) b.init_cap then b.init_cap else len + readable_bytes b

write_before_head : MsgBuffer → Bytes → Option MsgBuffer
unfolding copy_into
write_before_head b src = do
  written ← copy_into b.buffer (b.head - length src) src
  some (record b { head = b.head - length src; buffer = written })

-- `std::copy` is undefined where its target begins within its source.
shift_and_write : MsgBuffer → Bytes → Option MsgBuffer
unfolding copy_into readable
shift_and_write b src = if ltb (length src) (readable_bytes b) then none else do
  shifted ← copy_into b.buffer (b.head + length src) (readable b)
  written ← copy_into shifted b.head src
  some (record b { buffer = written; tail = b.tail + length src })

restart_with_front : MsgBuffer → Bytes → Option MsgBuffer
unfolding new_msg_buffer front_length append readable
restart_with_front b src = do
  front ← append (new_msg_buffer (front_length b (length src))) src
  append front (readable b)

unfoldable pub add_in_front : MsgBuffer → Bytes → Option MsgBuffer
unfolding write_before_head shift_and_write restart_with_front writable_bytes
add_in_front b src =
    if leb (length src) b.head
    then write_before_head b src
    else if leb (length src) (writable_bytes b)
    then shift_and_write b src
    else restart_with_front b src

-- `AddInFrontInt8` and its kin.
unfoldable pub add_in_front_int : ℕ → MsgBuffer → ℕ → Option MsgBuffer
unfolding add_in_front
add_in_front_int n b i = add_in_front b (write_big_endian n i)

-- `resize` to a smaller size.
unfoldable pub retrieve_all : MsgBuffer → MsgBuffer
retrieve_all b = record b {
  head = buffer_offset;
  buffer = if ltb (b.init_cap * 2) (length b.buffer) then take b.init_cap b.buffer else b.buffer;
  tail = buffer_offset;
}

unfoldable pub retrieve : MsgBuffer → ℕ → MsgBuffer
unfolding retrieve_all readable_bytes
retrieve b len =
    if leb (readable_bytes b) len then retrieve_all b else record b { head = b.head + len }

unfoldable pub read : MsgBuffer → ℕ → Bytes × MsgBuffer
read b len =
    let n = if ltb (readable_bytes b) len then readable_bytes b else len in
    (take n (readable b), retrieve b n)

-- `PeekInt8` and its kin; the assertion on `ReadableBytes()` fails as `none`.
unfoldable pub peek_int : ℕ → MsgBuffer → Option ℕ
unfolding readable
peek_int n b = read_big_endian n (readable b)

unfoldable pub read_int : ℕ → MsgBuffer → Option (ℕ × MsgBuffer)
unfolding peek_int retrieve
read_int n b = do i ← peek_int n b; some (i, retrieve b n)

-- Where the first CR LF starts, counted from `Peek()`.
unfoldable pub find_crlf : MsgBuffer → Option ℕ
unfolding search readable
find_crlf b = search crlf (readable b)
