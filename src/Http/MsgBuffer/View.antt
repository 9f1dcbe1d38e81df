-- ===== src/Http/MsgBuffer/View.antt =====
-- The invariant of msg_buffer.h and the view of a buffer as the list of its readable bytes.
use clibmedia_transfer_proto.Common.{
  ℕ, ◌+◌, ◌-◌, ◌≤◌, ◌≡◌, refl, sym, ap, ◌∙◌, [], ◌++◌, some, arith, length, take, drop,
  length-append, length-take, length-drop, take-append-drop, drop-drop, drop-append_eq,
  take-append_eq, take-take_append_drop, le→leb, length-replicate,
}
use clibmedia_transfer_proto.ByteIo.{Bytes}
use clibmedia_transfer_proto.Http.MsgBuffer.{
  MsgBuffer, size_sub, readable_bytes, writable_bytes, readable, copy_into, new_msg_buffer,
}

-- `init_cap` is at least `kBufferOffset`, which `RetrieveAll` needs.
pub record IsValid (b : MsgBuffer) : Type 0 where
  pub ordered : b.head ≤ b.tail
  pub inside : b.tail ≤ length b.buffer
  pub offset : 8 ≤ length b.buffer
  pub roomy : 8 ≤ b.init_cap

size_sub_le : (a b : ℕ) → b ≤ a → size_sub a b ≡ a - b
unfolding size_sub
size_sub_le a b h = ground arith

pub readable_bytes-eq : (b : MsgBuffer) → IsValid b → readable_bytes b ≡ b.tail - b.head
unfolding readable_bytes
readable_bytes-eq b v = size_sub_le b.tail b.head v.ordered

pub writable_bytes-eq : (b : MsgBuffer) → IsValid b → writable_bytes b ≡ length b.buffer - b.tail
unfolding writable_bytes
writable_bytes-eq b v = size_sub_le (length b.buffer) b.tail v.inside

pub length-readable : (b : MsgBuffer) → IsValid b → length (readable b) ≡ readable_bytes b
unfolding readable
length-readable b v = omega (
  arith,
  length-take (readable_bytes b) (drop b.head b.buffer),
  length-drop b.head b.buffer,
  readable_bytes-eq b v,
  v.ordered,
  v.inside,
)

-- A buffer is what lies before the readable bytes, those, and what lies behind.
pub readable-of :
    (b : MsgBuffer) (front mid back : Bytes)
    → b.buffer ≡ front ++ (mid ++ back)
    → b.head ≡ length front
    → b.tail ≡ length front + length mid
    → readable b ≡ mid
unfolding readable readable_bytes
readable-of b front mid back e h t =
    rw (e, drop-append_eq b.head front (mid ++ back) h)
      (take-append_eq (size_sub b.tail b.head) mid back (size ∙ omega arith))
  where
    size : size_sub b.tail b.head ≡ b.tail - b.head
    size = size_sub_le b.tail b.head (omega arith)

pub prefix-readable :
    (b : MsgBuffer) → IsValid b → take b.tail b.buffer ≡ take b.head b.buffer ++ readable b
unfolding readable
prefix-readable b v = sym (
    take-take_append_drop b.head (readable_bytes b) b.tail b.buffer
      (omega (arith, readable_bytes-eq b v, v.ordered)))

pub copy_into-fits :
    (buffer : Bytes) (pos : ℕ) (src : Bytes)
    → pos + length src ≤ length buffer
    → copy_into buffer pos src ≡ some (take pos buffer ++ (src ++ drop (pos + length src) buffer))
unfolding copy_into
copy_into-fits buffer pos src h = rw (le→leb _ _ h)

pub length-copied :
    (buffer : Bytes) (pos : ℕ) (src : Bytes)
    → pos + length src ≤ length buffer
    → length (take pos buffer ++ (src ++ drop (pos + length src) buffer)) ≡ length buffer
length-copied buffer pos src h = omega (
  arith,
  length-append (take pos buffer) (src ++ drop (pos + length src) buffer),
  length-append src (drop (pos + length src) buffer),
  length-take pos buffer,
  length-drop (pos + length src) buffer,
)

pub new_msg_buffer-IsValid : (len : ℕ) → 8 ≤ len → IsValid (new_msg_buffer len)
unfolding new_msg_buffer
new_msg_buffer-IsValid len h = record {
  ordered = omega arith;
  inside = omega (arith, length-replicate {A = ℕ} (len + 8) 0);
  offset = omega (arith, length-replicate {A = ℕ} (len + 8) 0);
  roomy = h;
}

pub readable-new_msg_buffer : (len : ℕ) → readable (new_msg_buffer len) ≡ []
unfolding readable new_msg_buffer readable_bytes size_sub
readable-new_msg_buffer len = refl

pub suffix-readable :
    (b : MsgBuffer) → IsValid b → drop b.head b.buffer ≡ readable b ++ drop b.tail b.buffer
unfolding readable
suffix-readable b v =
    sym (take-append-drop (readable_bytes b) (drop b.head b.buffer))
    ∙ ap (◌++◌ (take (readable_bytes b) (drop b.head b.buffer))) (
        drop-drop (readable_bytes b) b.head b.tail b.buffer
          (omega (arith, readable_bytes-eq b v, v.ordered)))
