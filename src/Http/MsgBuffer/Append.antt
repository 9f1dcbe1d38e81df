-- ===== src/Http/MsgBuffer/Append.antt =====
-- `Append`, with the growth of the buffer behind it.
use clibmedia_transfer_proto.Common.{
  ℕ, suc, ◌+◌, ◌-◌, ◌≤◌, ◌≡◌, refl, sym, ap, ◌∙◌, ◌++◌, Option, some, arith, inl, inr, append_assoc,
  length, take, drop, length-append, length-take, leb, leb→le, leb→lt, le→leb, length-replicate,
  Bool-cases,
}
use clibmedia_transfer_proto.ByteIo.{Bytes}
use clibmedia_transfer_proto.Http.MsgBuffer.{
  MsgBuffer, readable_bytes, writable_bytes, readable, new_msg_buffer, move_readable, grown_length,
  ensure_writable_bytes, write_at_tail, append_within, append,
}
use clibmedia_transfer_proto.Http.MsgBuffer.View.{
  IsValid, readable_bytes-eq, writable_bytes-eq, length-readable, readable-of, prefix-readable,
  copy_into-fits, length-copied, new_msg_buffer-IsValid, readable-new_msg_buffer,
}

-- The call returns, and its buffer is valid, shows `xs` and has room for `n` more bytes.
abbrev pub Yields : Option MsgBuffer → Bytes → ℕ → Type 0
Yields r xs n =
    (b : MsgBuffer) × (r ≡ some b) × IsValid b × (readable b ≡ xs) × (n ≤ length b.buffer - b.tail)

write_at_tail-Yields :
    (b : MsgBuffer) (src : Bytes)
    → IsValid b
    → length src ≤ length b.buffer - b.tail
    → Yields (write_at_tail b src) (readable b ++ src) (length b.buffer - b.tail - length src)
unfolding write_at_tail
write_at_tail-Yields b src v room = (
  after,
  rw (copy_into-fits b.buffer b.tail src fits) refl,
  record {
    ordered = omega (arith, v.ordered);
    inside = omega (arith, size);
    offset = omega (arith, size, v.offset);
    roomy = v.roomy;
  },
  shown,
  omega (arith, size),
)
  where
    fits : b.tail + length src ≤ length b.buffer
    fits = omega (arith, v.inside)

    written : Bytes
    written = take b.tail b.buffer ++ (src ++ drop (b.tail + length src) b.buffer)

    after : MsgBuffer
    after = record b { buffer = written; tail = b.tail + length src }

    size : length written ≡ length b.buffer
    size = length-copied b.buffer b.tail src fits

    split :
        written
        ≡ take b.head b.buffer ++ ((readable b ++ src) ++ drop (b.tail + length src) b.buffer)
    split = rw (prefix-readable b v) (
        append_assoc (take b.head b.buffer) (readable b) _
        ∙ ap (◌++◌ (take b.head b.buffer)) (sym (append_assoc (readable b) src _)))

    front : length (take b.head b.buffer) ≡ b.head
    front = omega (arith, length-take b.head b.buffer, v.ordered, v.inside)

    shown : readable after ≡ readable b ++ src
    shown = readable-of after (take b.head b.buffer) (readable b ++ src) _ split (sym front) (
        omega (
          arith,
          front,
          length-append (readable b) src,
          length-readable b v,
          readable_bytes-eq b v,
          v.ordered,
        ))

move_readable-Yields :
    (b : MsgBuffer) (n : ℕ)
    → IsValid b
    → 8 ≤ b.head
    → n + 8 ≤ b.head + (length b.buffer - b.tail)
    → Yields (move_readable b) (readable b) n
unfolding move_readable
move_readable-Yields b n v low room = (
  after,
  rw (copy_into-fits b.buffer 8 (readable b) fits) refl,
  record {
    ordered = omega arith;
    inside = omega (arith, size, v.ordered, v.inside, readable_bytes-eq b v);
    offset = omega (arith, size, v.offset);
    roomy = v.roomy;
  },
  readable-of after (take 8 b.buffer) (readable b) _ refl (sym front)
      (omega (arith, front, length-readable b v)),
  omega (arith, size, v.ordered, v.inside, readable_bytes-eq b v),
)
  where
    fits : 8 + length (readable b) ≤ length b.buffer
    fits = omega (arith, v.ordered, v.inside, length-readable b v, readable_bytes-eq b v)

    moved : Bytes
    moved = take 8 b.buffer ++ (readable b ++ drop (8 + length (readable b)) b.buffer)

    after : MsgBuffer
    after = record b { head = 8; buffer = moved; tail = 8 + readable_bytes b }

    size : length moved ≡ length b.buffer
    size = length-copied b.buffer 8 (readable b) fits

    front : length (take 8 b.buffer) ≡ 8
    front = omega (arith, length-take 8 b.buffer, fits)

grown_length-ge : (b : MsgBuffer) (len : ℕ) → 8 + readable_bytes b + len ≤ grown_length b len
unfolding grown_length
grown_length-ge b len = ground arith

-- On a buffer with room enough nothing is moved.
append_within-roomy :
    (fuel : ℕ) (b : MsgBuffer) (src : Bytes)
    → IsValid b
    → length src ≤ length b.buffer - b.tail
    → Yields
        (append_within (suc fuel) b src)
        (readable b ++ src)
        (length b.buffer - b.tail - length src)
unfolding append_within ensure_writable_bytes
append_within-roomy fuel b src v room =
    rw (le→leb (length src) (writable_bytes b) (omega (arith, writable_bytes-eq b v)))
      (write_at_tail-Yields b src v room)

fresh-Yields :
    (fuel len : ℕ) (src : Bytes)
    → 8 ≤ len
    → length src ≤ len
    → Yields (append_within (suc fuel) (new_msg_buffer len) src) src (len - length src)
fresh-Yields fuel len src h fits =
    rw (readable-new_msg_buffer len, room len) at
      (append_within-roomy fuel (new_msg_buffer len) src (new_msg_buffer-IsValid len h)
        (omega (arith, room len)))
  where
    room : (len : ℕ) → length (new_msg_buffer len).buffer - (new_msg_buffer len).tail ≡ len
    room len = unfold new_msg_buffer in omega (arith, length-replicate {A = ℕ} (len + 8) 0)

ensure_writable_bytes-Yields :
    (fuel : ℕ) (b : MsgBuffer) (len : ℕ)
    → IsValid b
    → Yields (ensure_writable_bytes (append_within (suc fuel)) b len) (readable b) len
unfolding ensure_writable_bytes
ensure_writable_bytes-Yields fuel b len v = elim (Bool-cases (leb len (writable_bytes b))) [
  | inl roomy ↦ rw roomy (b, refl, v, refl, omega (arith, leb→le _ _ roomy, writable_bytes-eq b v))
  | inr tight ↦ elim (Bool-cases (leb (len + 8) (b.head + writable_bytes b))) [
    | inl movable ↦
        rw (tight, movable)
          (move_readable-Yields b len v (omega (arith, leb→le _ _ movable, leb→lt _ _ tight))
            (omega (arith, leb→le _ _ movable, writable_bytes-eq b v)))
    | inr full ↦
        rw (tight, full)
          (regrown (
            fresh-Yields fuel (grown_length b len) (readable b)
              (omega (arith, grown_length-ge b len))
              (omega (arith, grown_length-ge b len, length-readable b v))))
  ]
]
  where
    regrown :
        {r : Option MsgBuffer}
        → Yields r (readable b) (grown_length b len - length (readable b))
        → Yields r (readable b) len
    regrown (b', e, v', s, room) =
        (b', e, v', s, omega (arith, room, grown_length-ge b len, length-readable b v))

-- `Append` on a valid buffer never runs out of bounds nor of fuel: the buffer it leaves is valid,
-- and its readable bytes are the old ones followed by the new ones.
pub append-readable :
    (b : MsgBuffer) (src : Bytes)
    → IsValid b
    → (after : MsgBuffer) × (append b src ≡ some after)
      × IsValid after
      × (readable after ≡ readable b ++ src)
unfolding append append_within
append-readable b src v =
    let (roomy, e, v', s, room) = ensure_writable_bytes-Yields 0 b (length src) v in
    let (after, e', v'', s', _) = write_at_tail-Yields roomy src v' room in
    (after, rw e e', v'', rw s at s')
