-- ===== src/Http/Parser/Filling.antt =====
-- The packet that a body is copied to, while it fills.
use clibmedia_transfer_proto.Common.{
  ℕ, ◌+◌, ◌-◌, ◌%◌, ◌^◌, ◌≤◌, ◌<◌, ◌≡◌, refl, sym, ap, ◌∙◌, some, [], ◌++◌, min, arith, length,
  take, drop, length-replicate, length-take, length-append, take-append_eq, append_assoc, lt→ltb,
  le→leb, ◌/◌,
}
use clibmedia_transfer_proto.Common.Int.{pos}
use clibmedia_transfer_proto.ByteIo.{Bytes, reinterpret_as_signed}
use clibmedia_transfer_proto.Http.MsgBuffer.{MsgBuffer, readable, retrieve}
use clibmedia_transfer_proto.Http.MsgBuffer.View.{
  IsValid, length-readable, copy_into-fits, length-copied,
}
use clibmedia_transfer_proto.Http.Packet.{
  Packet, new_packet, space, copy_size, add_bytes, update_packet_size, payload, holds_size,
}
use clibmedia_transfer_proto.Http.Parser.{fill_packet}

-- A packet of `cap` bytes that holds `done`.
pub record IsFilling (c : Packet) (done : Bytes) (cap : ℕ) : Type 0 where
  pub sized : c.size ≡ length done
  pub capacity : c.capacity ≡ cap
  pub block : length c.content ≡ cap
  pub holds : take c.size c.content ≡ done
  pub inside : length done ≤ cap
  pub small : cap < 2 ^ 31

pub new_packet-IsFilling :
    (cap : ℕ) → cap < 2 ^ 31 → (c : Packet) × (new_packet (pos cap) ≡ some c) × IsFilling c [] cap
unfolding new_packet
new_packet-IsFilling cap h = (
  _,
  refl,
  record {
    sized = refl;
    capacity = refl;
    block = length-replicate cap 0;
    holds = refl;
    inside = omega arith;
    small = h;
  },
)

space-IsFilling :
    {c : Packet} {done : Bytes} {cap : ℕ} → IsFilling c done cap → space c ≡ pos (cap - length done)
unfolding space
space-IsFilling f = ground (arith, f.sized, f.capacity, f.inside, f.small)

add_bytes-IsFilling :
    {c : Packet} {done : Bytes} {cap : ℕ} (src : Bytes)
    → IsFilling c done cap
    → length done + length src ≤ cap
    → (c' : Packet) × (add_bytes src c ≡ some c') × IsFilling c' (done ++ src) cap
unfolding add_bytes
add_bytes-IsFilling {c} {done} {cap} src f room = (
  after,
  rw (copy_into-fits c.content c.size src fits) refl,
  record {
    sized = unfold update_packet_size in omega (arith, f.sized, f.small, length-append done src);
    capacity = unfold update_packet_size in f.capacity;
    block = unfold update_packet_size in length-copied c.content c.size src fits ∙ f.block;
    holds =
        ap (take ((c.size + length src) % 2 ^ 32)) split
        ∙ take-append_eq ((c.size + length src) % 2 ^ 32) (done ++ src)
            (drop (c.size + length src) c.content)
            (omega (arith, f.sized, f.small, length-append done src));
    inside = omega (arith, length-append done src);
    small = f.small;
  },
)
  where
    fits : c.size + length src ≤ length c.content
    fits = omega (arith, f.sized, f.block)

    written : Bytes
    written = take c.size c.content ++ (src ++ drop (c.size + length src) c.content)

    after : Packet
    after = update_packet_size (length src) (record c { content = written })

    split : written ≡ (done ++ src) ++ drop (c.size + length src) c.content
    split =
        ap (λ t. t ++ (src ++ drop (c.size + length src) c.content)) f.holds
        ∙ sym (append_assoc done src _)

copy_size-IsFilling :
    {c : Packet} {done : Bytes} {cap : ℕ} (available : ℕ)
    → available < 2 ^ 31
    → IsFilling c done cap
    → copy_size available c ≡ some (min available (cap - length done))
unfolding copy_size
copy_size-IsFilling available few f =
    let signed : reinterpret_as_signed 4 (available % 2 ^ 32) ≡ pos available =
      unfold reinterpret_as_signed in
      rw (lt→ltb (available % 2 ^ 32) (256 ^ 4 / 2) (omega arith)) (ap pos (omega (arith, few))) in
    rw (copy_size, signed, space-IsFilling f) refl

-- As much of the buffer goes into the packet as it has space for, and leaves the buffer.
pub fill_packet-IsFilling :
    {c : Packet} {done : Bytes} {cap : ℕ} (buf : MsgBuffer)
    → IsValid buf
    → length (readable buf) < 2 ^ 31
    → IsFilling c done cap
    → let n = min (length (readable buf)) (cap - length done) in
      (c' : Packet) × (fill_packet c buf ≡ some (c', n, retrieve buf n))
      × IsFilling c' (done ++ take n (readable buf)) cap
unfolding fill_packet
fill_packet-IsFilling {c} {done} {cap} buf v few f =
    let n = min (length (readable buf)) (cap - length done) in
    let (c', e, f') =
      add_bytes-IsFilling (take n (readable buf)) f
        (omega (arith, f.inside, length-take n (readable buf))) in
    (
      c',
      rw (
        ← length-readable buf v,
        copy_size-IsFilling (length (readable buf)) few f,
        e,
        fill_packet,
      ),
      f',
    )

-- What is in the packet is read from it.
pub payload-IsFilling :
    {c : Packet} {done : Bytes} {cap : ℕ}
    → IsFilling c done cap
    → cap < 2 ^ 31
    → payload c ≡ some done
unfolding payload holds_size
payload-IsFilling {c} f small =
    let fits = lt→ltb c.size (2 ^ 31) (omega (arith, f.sized, f.inside, small)) in
    let there = le→leb c.size (length c.content) (omega (arith, f.sized, f.inside, f.block)) in
    rw (payload, holds_size, fits, there) (ap some f.holds)
