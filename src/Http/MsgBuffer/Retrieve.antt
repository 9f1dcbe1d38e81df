-- ===== src/Http/MsgBuffer/Retrieve.antt =====
-- Taking bytes off the front, and the numbers that were appended.
use clibmedia_transfer_proto.Common.{
  ℕ, ◌+◌, ◌-◌, ◌*◌, ◌%◌, ◌^◌, ◌≤◌, ◌<◌, ◌≡◌, refl, sym, ap, ◌∙◌, [], ◌++◌, some, true, replicate,
  arith, inl, inr, append-nil, length, take, drop, length-take, length-drop, take-append-drop,
  drop-append_eq, drop-append_le, leb, ltb, leb→le, leb→lt, ltb→lt, lt→leb, Bool-cases, drop-drop,
  drop-all, take-all, length-replicate, lt→ltb,
}
use clibmedia_transfer_proto.ByteIo.{Bytes, write_big_endian}
use clibmedia_transfer_proto.ByteIo.RoundTrip.{length-write_big_endian, read-write_big_endian}
use clibmedia_transfer_proto.Http.MsgBuffer.{
  MsgBuffer, readable_bytes, writable_bytes, readable, new_msg_buffer, retrieve, retrieve_all, read,
  append_int, add_in_front_int, peek_int, read_int, size_sub,
}
use clibmedia_transfer_proto.Http.MsgBuffer.View.{
  IsValid, readable_bytes-eq, length-readable, readable-of, suffix-readable,
}
use clibmedia_transfer_proto.Http.MsgBuffer.Append.{append-readable}
use clibmedia_transfer_proto.Http.MsgBuffer.Front.{add_in_front-readable}

retrieve_all-empty : (b : MsgBuffer) → readable (retrieve_all b) ≡ []
unfolding readable retrieve_all readable_bytes size_sub
retrieve_all-empty b = refl

retrieve_all-IsValid : (b : MsgBuffer) → IsValid b → IsValid (retrieve_all b)
unfolding retrieve_all
retrieve_all-IsValid b v = record {
  ordered = omega arith;
  inside = kept;
  offset = kept;
  roomy = v.roomy;
}
  where
    kept : 8 ≤ length (retrieve_all b).buffer
    kept = elim (Bool-cases (ltb (b.init_cap * 2) (length b.buffer))) [
      | inl big ↦ rw big (omega (arith, v.roomy, length-take b.init_cap b.buffer, ltb→lt _ _ big))
      | inr small ↦ rw small v.offset
    ]

-- `Retrieve` keeps the buffer valid and drops that many readable bytes, all of them at most.
pub retrieve-readable :
    (b : MsgBuffer) (len : ℕ)
    → IsValid b
    → IsValid (retrieve b len) × (readable (retrieve b len) ≡ drop len (readable b))
unfolding retrieve
retrieve-readable b len v = elim (Bool-cases (leb (readable_bytes b) len)) [
  | inl all ↦ rw all (
    retrieve_all-IsValid b v,
    retrieve_all-empty b
        ∙ sym (drop-all len (readable b) (omega (arith, leb→le _ _ all, length-readable b v))),
  )
  | inr some' ↦ rw some' (advance (omega (arith, leb→lt _ _ some')))
]
  where
    after : MsgBuffer
    after = record b { head = b.head + len }

    advance : len < readable_bytes b → IsValid after × (readable after ≡ drop len (readable b))
    advance h = (
      record {
        ordered = omega (arith, readable_bytes-eq b v, v.ordered);
        inside = v.inside;
        offset = v.offset;
        roomy = v.roomy;
      },
      readable-of after (take (b.head + len) b.buffer) (drop len (readable b))
          (drop b.tail b.buffer)
          (sym (take-append-drop (b.head + len) b.buffer)
            ∙ ap (◌++◌ (take (b.head + len) b.buffer)) behind)
          (omega (
            arith,
            length-take (b.head + len) b.buffer,
            readable_bytes-eq b v,
            v.ordered,
            v.inside,
          ))
          (omega (
            arith,
            length-take (b.head + len) b.buffer,
            readable_bytes-eq b v,
            v.ordered,
            v.inside,
            length-drop len (readable b),
            length-readable b v,
          )),
    )
      where
        behind : drop (b.head + len) b.buffer ≡ drop len (readable b) ++ drop b.tail b.buffer
        behind =
            sym (drop-drop len b.head (b.head + len) b.buffer refl)
            ∙ ap (drop len) (suffix-readable b v)
            ∙ drop-append_le len (readable b) (drop b.tail b.buffer)
                (omega (arith, length-readable b v))

-- `Read` hands out the first bytes, as many as there are, and leaves the rest.
read-readable :
    (b : MsgBuffer) (len : ℕ)
    → IsValid b
    → ((read b len).0 ≡ take len (readable b))
      × IsValid (read b len).1
      × (readable (read b len).1 ≡ drop len (readable b))
unfolding read
read-readable b len v = elim (Bool-cases (ltb (readable_bytes b) len)) [
  | inl short ↦
      let (v', s) = retrieve-readable b (readable_bytes b) v in
      rw short (
        take-all _ (readable b) (omega (arith, length-readable b v))
            ∙ sym (take-all len (readable b) (short_le short)),
        v',
        s
            ∙ drop-all _ (readable b) (omega (arith, length-readable b v))
            ∙ sym (drop-all len (readable b) (short_le short)),
      )
  | inr enough ↦ let (v', s) = retrieve-readable b len v in rw enough (refl, v', s)
]
  where
    short_le : ltb (readable_bytes b) len ≡ true → length (readable b) ≤ len
    short_le h = omega (arith, ltb→lt _ _ h, length-readable b v)

-- A number at the front of the readable bytes is read and taken off.
read_int-readable :
    (n i : ℕ) (b : MsgBuffer) (rest : Bytes)
    → IsValid b
    → readable b ≡ write_big_endian n i ++ rest
    → (after : MsgBuffer) × (read_int n b ≡ some (i % 256 ^ n, after))
      × IsValid after
      × (readable after ≡ rest)
unfolding read_int peek_int
read_int-readable n i b rest v e =
    let (v', s) = retrieve-readable b n v in
    (
      retrieve b n,
      rw (e, read-write_big_endian n i rest) refl,
      v',
      s
          ∙ ap (drop n) e
          ∙ drop-append_eq n (write_big_endian n i) rest (sym (length-write_big_endian n i)),
    )

-- `AddInFrontInt` where there is room in front, and then `ReadInt` of the same width, give the number
-- back, cut to that width, and the bytes that were there.
read_int-add_in_front_int :
    (n i : ℕ) (b : MsgBuffer)
    → IsValid b
    → n ≤ b.head
    → (c d : MsgBuffer) × (add_in_front_int n b i ≡ some c)
      × (read_int n c ≡ some (i % 256 ^ n, d))
      × IsValid d
      × (readable d ≡ readable b)
unfolding add_in_front_int
read_int-add_in_front_int n i b v room = elim (add_in_front-readable b (write_big_endian n i) v) [
  | inl (c, e, v', s) ↦
      let (d, e', v'', s') = read_int-readable n i c (readable b) v' s in (c, d, e, e', v'', s')
  | inr (_, (front, _, _)) ↦ absurd (omega (arith, front, room, length-write_big_endian n i))
]

-- `AppendInt` puts the number behind the readable bytes: after as many bytes have been retrieved as
-- there were, `ReadInt` gives it back, cut to its width, and leaves nothing.
read_int-append_int :
    (n i : ℕ) (b : MsgBuffer)
    → IsValid b
    → (c d : MsgBuffer) × (append_int n b i ≡ some c)
      × (read_int n (retrieve c (length (readable b))) ≡ some (i % 256 ^ n, d))
      × IsValid d
      × (readable d ≡ [])
unfolding append_int
read_int-append_int n i b v =
    let (c, e, v', s) = append-readable b (write_big_endian n i) v in
    let (vr, sr) = retrieve-readable c (length (readable b)) v' in
    let (d, e', v'', s') = read_int-readable n i (retrieve c (length (readable b))) [] vr (
      sr
      ∙ ap (drop (length (readable b))) s
      ∙ drop-append_eq (length (readable b)) (readable b) (write_big_endian n i) refl
      ∙ sym (append-nil (write_big_endian n i))) in
    (c, d, e, e', v'', s')

-- Constructed for fewer than `kBufferOffset` bytes, a buffer loses its vector in `RetrieveAll`: the
-- write index is then outside, and the space that `WritableBytes` reports has wrapped around.
retrieve_all_small :
    (len : ℕ)
    → len < 8
    → (length (retrieve_all (new_msg_buffer len)).buffer < (retrieve_all (new_msg_buffer len)).tail)
      × (writable_bytes (retrieve_all (new_msg_buffer len)) ≡ 2 ^ 64 + len - 8)
unfolding retrieve_all new_msg_buffer writable_bytes size_sub
retrieve_all_small len h =
    rw (lt→ltb (len * 2) (length (replicate {A = ℕ} (len + 8) 0)) (omega (arith, size)), cut)
      (omega arith, rw (lt→leb 8 len h) (omega arith))
  where
    size : length (replicate {A = ℕ} (len + 8) 0) ≡ len + 8
    size = length-replicate (len + 8) 0

    cut : length (take len (replicate {A = ℕ} (len + 8) 0)) ≡ len
    cut = omega (arith, size, length-take len (replicate {A = ℕ} (len + 8) 0))
