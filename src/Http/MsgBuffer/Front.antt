-- ===== src/Http/MsgBuffer/Front.antt =====
-- `AddInFront`, in each of its three cases.
use clibmedia_transfer_proto.Common.{
  ℕ, ◌+◌, ◌-◌, ◌≤◌, ◌≡◌, refl, sym, ap, ◌∙◌, ◌++◌, Option, some, arith, inl, inr, append_assoc,
  length, take, drop, length-append, length-take, drop-append_eq, leb, leb→le, Bool-cases, ◌<◌, ◌⊎◌,
  none, ltb, ltb→lt, ltb→le, lt→ltb, le→ltb,
}
use clibmedia_transfer_proto.ByteIo.{Bytes}
use clibmedia_transfer_proto.Http.MsgBuffer.{
  MsgBuffer, writable_bytes, readable_bytes, readable, new_msg_buffer, front_length,
  write_before_head, shift_and_write, restart_with_front, add_in_front,
}
use clibmedia_transfer_proto.Http.MsgBuffer.View.{
  IsValid, readable_bytes-eq, writable_bytes-eq, length-readable, readable-of, copy_into-fits,
  length-copied, new_msg_buffer-IsValid, readable-new_msg_buffer, suffix-readable,
}
use clibmedia_transfer_proto.Http.MsgBuffer.Append.{append-readable}

abbrev Yields : Option MsgBuffer → Bytes → Type 0
Yields r xs = (after : MsgBuffer) × (r ≡ some after) × IsValid after × (readable after ≡ xs)

write_before_head-Yields :
    (b : MsgBuffer) (src : Bytes)
    → IsValid b
    → length src ≤ b.head
    → Yields (write_before_head b src) (src ++ readable b)
unfolding write_before_head
write_before_head-Yields b src v room = (
  after,
  rw (copy_into-fits b.buffer (b.head - length src) src fits) refl,
  record {
    ordered = omega (arith, v.ordered);
    inside = omega (arith, size, v.inside);
    offset = omega (arith, size, v.offset);
    roomy = v.roomy;
  },
  readable-of after (take (b.head - length src) b.buffer) (src ++ readable b) (drop b.tail b.buffer)
      split (sym front)
      (omega (
        arith,
        front,
        length-append src (readable b),
        length-readable b v,
        readable_bytes-eq b v,
        v.ordered,
      )),
)
  where
    fits : b.head - length src + length src ≤ length b.buffer
    fits = omega (arith, v.ordered, v.inside)

    written : Bytes
    written =
        take (b.head - length src) b.buffer
        ++ (src ++ drop (b.head - length src + length src) b.buffer)

    after : MsgBuffer
    after = record b { head = b.head - length src; buffer = written }

    size : length written ≡ length b.buffer
    size = length-copied b.buffer (b.head - length src) src fits

    front : length (take (b.head - length src) b.buffer) ≡ b.head - length src
    front = omega (arith, length-take (b.head - length src) b.buffer, v.ordered, v.inside)

    there : b.head - length src + length src ≡ b.head
    there = omega arith

    split :
        written
        ≡ take (b.head - length src) b.buffer ++ ((src ++ readable b) ++ drop b.tail b.buffer)
    split = ap (◌++◌ (take (b.head - length src) b.buffer)) (
        ap (λ k. src ++ drop k b.buffer) there
        ∙ ap (◌++◌ src) (suffix-readable b v)
        ∙ sym (append_assoc src (readable b) (drop b.tail b.buffer)))

shift_and_write-Yields :
    (b : MsgBuffer) (src : Bytes)
    → IsValid b
    → length src ≤ length b.buffer - b.tail
    → b.tail - b.head ≤ length src
    → Yields (shift_and_write b src) (src ++ readable b)
unfolding shift_and_write
shift_and_write-Yields b src v room apart = (
  after,
  rw
      (
        shift_and_write,
        le→ltb (length src) (readable_bytes b) (omega (arith, apart, readable_bytes-eq b v)),
        copy_into-fits b.buffer (b.head + length src) (readable b) fits,
        copy_into-fits shifted b.head src fits',
      )
      refl,
  record {
    ordered = omega (arith, v.ordered);
    inside = omega (arith, size, size', v.inside);
    offset = omega (arith, size, size', v.offset);
    roomy = v.roomy;
  },
  readable-of after (take b.head shifted) (src ++ readable b) _ split (sym front) (
      omega (
        arith,
        front,
        length-append src (readable b),
        length-readable b v,
        readable_bytes-eq b v,
        v.ordered,
      )),
)
  where
    fits : b.head + length src + length (readable b) ≤ length b.buffer
    fits = omega (arith, v.ordered, v.inside, length-readable b v, readable_bytes-eq b v)

    behind : Bytes
    behind = drop (b.head + length src + length (readable b)) b.buffer

    shifted : Bytes
    shifted = take (b.head + length src) b.buffer ++ (readable b ++ behind)

    size : length shifted ≡ length b.buffer
    size = length-copied b.buffer (b.head + length src) (readable b) fits

    fits' : b.head + length src ≤ length shifted
    fits' = omega (arith, size, fits)

    written : Bytes
    written = take b.head shifted ++ (src ++ drop (b.head + length src) shifted)

    size' : length written ≡ length shifted
    size' = length-copied shifted b.head src fits'

    after : MsgBuffer
    after = record b { buffer = written; tail = b.tail + length src }

    front : length (take b.head shifted) ≡ b.head
    front = omega (arith, length-take b.head shifted, fits')

    kept : drop (b.head + length src) shifted ≡ readable b ++ behind
    kept =
        drop-append_eq (b.head + length src) (take (b.head + length src) b.buffer)
          (readable b ++ behind) (omega (arith, length-take (b.head + length src) b.buffer, fits))

    split : written ≡ take b.head shifted ++ ((src ++ readable b) ++ behind)
    split =
        ap (◌++◌ (take b.head shifted))
          (ap (◌++◌ src) kept ∙ sym (append_assoc src (readable b) behind))

front_length-ge : (b : MsgBuffer) (len : ℕ) → 8 ≤ b.init_cap → 8 ≤ front_length b len
unfolding front_length
front_length-ge b len h = ground arith

restart_with_front-Yields :
    (b : MsgBuffer) (src : Bytes)
    → IsValid b
    → Yields (restart_with_front b src) (src ++ readable b)
unfolding restart_with_front
restart_with_front-Yields b src v =
    let fresh = new_msg_buffer (front_length b (length src)) in
    let (front, e, v', s) =
      append-readable fresh src
        (new_msg_buffer-IsValid _ (front_length-ge b (length src) v.roomy)) in
    let (after, e', v'', s') = append-readable front (readable b) v' in
    (
      after,
      rw e e',
      v'',
      s'
          ∙ ap (λ t. t ++ readable b)
              (s ∙ ap (λ t. t ++ src) (readable-new_msg_buffer (front_length b (length src)))),
    )

-- The bytes in use are shifted onto themselves: they are in the way of the new ones, and there is room
-- behind them.
abbrev pub Overlaps : MsgBuffer → Bytes → Type 0
Overlaps b src =
    (b.head < length src) × (length src ≤ length b.buffer - b.tail) × (length src < b.tail - b.head)

shift_and_write-none :
    (b : MsgBuffer) (src : Bytes)
    → IsValid b
    → length src < b.tail - b.head
    → shift_and_write b src ≡ none
unfolding shift_and_write
shift_and_write-none b src v h =
    rw
      (
        shift_and_write,
        lt→ltb (length src) (readable_bytes b) (omega (arith, h, readable_bytes-eq b v)),
      )
      refl

-- `AddInFront` on a valid buffer: it leaves a valid buffer whose readable bytes are the new ones
-- followed by the old ones, or its copy is undefined, and then the new bytes do not fit in front, fit
-- behind, and are fewer than the old ones.
pub add_in_front-readable :
    (b : MsgBuffer) (src : Bytes)
    → IsValid b
    → ((after : MsgBuffer) × (add_in_front b src ≡ some after)
        × IsValid after
        × (readable after ≡ src ++ readable b))
      ⊎ ((add_in_front b src ≡ none) × Overlaps b src)
unfolding add_in_front
add_in_front-readable b src v = elim (Bool-cases (leb (length src) b.head)) [
  | inl before ↦ inl (rw before (write_before_head-Yields b src v (leb→le _ _ before)))
  | inr far ↦ elim (Bool-cases (leb (length src) (writable_bytes b))) [
    | inl behind ↦
        let room : length src ≤ length b.buffer - b.tail =
          omega (arith, leb→le _ _ behind, writable_bytes-eq b v) in
        elim (Bool-cases (ltb (length src) (b.tail - b.head))) [
          | inl over ↦ inr (
            rw (far, behind) (shift_and_write-none b src v (ltb→lt _ _ over)),
            (ground (arith, far), room, ltb→lt _ _ over),
          )
          | inr apart ↦
              inl (rw (far, behind) (shift_and_write-Yields b src v room (ltb→le _ _ apart)))
        ]
    | inr full ↦ inl (rw (far, full) (restart_with_front-Yields b src v))
  ]
]
