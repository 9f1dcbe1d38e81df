-- ===== src/Flv/Muxer.antt =====
-- What the muxer means to show, unit by unit, and that a reader of its messages is shown that.
use clibmedia_transfer_proto.Common.{
  ℕ, ◌+◌, ◌%◌, ◌^◌, ◌≤◌, ◌<◌, ◌≡◌, ◌⊎◌, inl, inr, refl, Bool, true, false, some, List, [], ◌∷◌,
  ◌++◌, ◌>>=◌, if◌then◌else◌, arith, length, append-nil, length-append,
}
use clibmedia_transfer_proto.ByteIo.{Bytes, write_big_endian}
use clibmedia_transfer_proto.ByteIo.RoundTrip.{length-write_big_endian}
use clibmedia_transfer_proto.Flv.{
  FlvContext, Sent, and_then, NaluType, sps, pps, idr, slice, other, elapsed, sized, send_slice,
  write_flv_tag, buffer_capacity, type_video, tag_header,
}
use clibmedia_transfer_proto.Flv.Reader.{Shown, config, picture, is_type, read_body, read_shown}
use clibmedia_transfer_proto.Flv.Tags.{idle, tag_bytes, write_flv_tag-tag_bytes, read_tag-tag_bytes}
use clibmedia_transfer_proto.Flv.Config.{sized_all, AllShort, read_body-picture}

-- The time that a tag has room for.
abbrev shown_time : ℕ → FlvContext → ℕ
shown_time timestamp c = elapsed timestamp c % 2 ^ 32

-- The composition time, which would be 0 where pictures are shown as they are decoded, is the time of
-- the tag once more.
abbrev pub composition_time : ℕ → FlvContext → ℕ
composition_time timestamp c = elapsed timestamp c % 2 ^ 24

abbrev pub show_picture : ℕ → Bytes → FlvContext → Shown
show_picture timestamp nal c =
    picture true (shown_time timestamp c) (composition_time timestamp c) (c.sps ∷ c.pps ∷ nal ∷ [])

-- The sets are kept, and shown before the first whole picture, whose time counts from then on as 0.
unfoldable pub shows : NaluType → ℕ → Bytes → FlvContext → FlvContext × List Shown
shows sps timestamp nal c = (record c { sps = nal }, [])
shows pps timestamp nal c = (record c { pps = nal }, [])
shows idr timestamp nal c =
    let c' = record c { send_sps = true; start_timestamp = timestamp } in
    if c.send_sps
    then (c, show_picture timestamp nal c ∷ [])
    else (c', config c.sps c.pps ∷ show_picture timestamp nal c' ∷ [])
shows slice timestamp nal c =
    if c.send_sps
    then (c, picture false (shown_time timestamp c) (composition_time timestamp c) (nal ∷ []) ∷ [])
    else (c, [])
shows other timestamp nal c = (c, [])

-- The sets fit the configuration, a picture fits the buffer with them, and the first set has its
-- profile and level.
abbrev pub HasSets : FlvContext → Type 0
HasSets c = (3 < length c.sps) × (length c.sps < 2 ^ 16) × (length c.pps < 2 ^ 16)

abbrev pub FitsUnit : NaluType → Bytes → FlvContext → Type 0
FitsUnit idr nal c = HasSets c × (length nal ≤ 2 ^ 22)
FitsUnit slice nal c = length nal ≤ 2 ^ 22
FitsUnit t nal c = Unit {0}

-- Each message shows its one thing to a reader, whatever follows it.
abbrev pub Shows : List Bytes → List Shown → Type 0
Shows [] [] = Unit {0}
Shows (m ∷ ms) (s ∷ ss) =
    ((rest : Bytes) → read_shown (m ++ rest) ≡ some (s, rest)) × (0 < length m) × Shows ms ss
Shows ms ss = ⊥

Shows-append :
    (ms ns : List Bytes) (ss ts : List Shown)
    → Shows ms ss
    → Shows ns ts
    → Shows (ms ++ ns) (ss ++ ts)
Shows-append [] ns [] ts h k = k
Shows-append [] ns (s ∷ ss) ts h k = absurd h
Shows-append (m ∷ ms) ns [] ts h k = absurd h
Shows-append (m ∷ ms) ns (s ∷ ss) ts (h, p, hs) k = (h, p, Shows-append ms ns ss ts hs k)

tag-Shows :
    (body : Bytes) (time : ℕ) (shown : Shown)
    → length body < 2 ^ 23
    → read_body (record { type' = 9; time = time % 2 ^ 32; body = body }) ≡ some shown
    → Shows (tag_bytes type_video body time ∷ []) (shown ∷ [])
tag-Shows body time shown small e = (λ rest. reads rest, long, tt)
  where
    reads :
        (rest : Bytes) → read_shown (tag_bytes type_video body time ++ rest) ≡ some (shown, rest)
    reads rest =
        unfold read_shown in
        rw
          (
            read_tag-tag_bytes type_video body time rest small (unfold is_type in refl)
                (omega arith),
            ◌>>=◌,
            e,
          )
          refl

    long : 0 < length (tag_bytes type_video body time)
    long = omega (
      arith,
      length-append (tag_header type_video (length body) time)
          (body ++ write_big_endian 4 (length body + 11)),
      length-append body (write_big_endian 4 (length body + 11)),
      length-write_big_endian 4 (length body + 11),
    )

-- A context that a unit has been sent from, and what that unit shows.
abbrev pub Sends : Sent → FlvContext × List Shown → Type 0
Sends sent (c, shown) =
    (messages : List Bytes) × (sent ≡ some (idle c, messages)) × Shows messages shown

pub Sends-and_then :
    (sent : Sent) (c c' : FlvContext) (f : FlvContext → Sent) (shown more : List Shown)
    → Sends sent (c, shown)
    → Sends (f (idle c)) (c', more)
    → Sends (and_then sent f) (c', shown ++ more)
unfolding and_then
Sends-and_then sent c c' f shown more (ms, e, h) (ns, e', k) =
    (ms ++ ns, rw (e, and_then, e', ◌>>=◌) refl, Shows-append ms ns shown more h k)

pub tag-Sends :
    (body : Bytes) (time : ℕ) (c : FlvContext) (shown : Shown)
    → length body + 15 ≤ buffer_capacity
    → read_body (record { type' = 9; time = time % 2 ^ 32; body = body }) ≡ some shown
    → Sends (write_flv_tag type_video body time (idle c)) (c, shown ∷ [])
tag-Sends body time c shown room e = (
  tag_bytes type_video body time ∷ [],
  write_flv_tag-tag_bytes type_video body time c room,
  tag-Shows body time shown (omega (arith, room)) e,
)

length-sized : (nal : Bytes) → length (sized nal) ≡ 4 + length nal
length-sized nal = omega (
  arith,
  length-append (write_big_endian 4 (length nal)) nal,
  length-write_big_endian 4 (length nal),
)

-- The bodies of the two kinds of picture.
picture-Sends :
    (key : Bool) (kind low time : ℕ) (units : List Bytes) (c : FlvContext)
    → (key ≡ true × kind ≡ 0x17) ⊎ (key ≡ false × kind ≡ 0x27)
    → AllShort units
    → length (sized_all units) + 20 ≤ buffer_capacity
    → Sends
        (write_flv_tag type_video
          (kind ∷ 1 ∷ (write_big_endian 3 low ++ sized_all units))
          time
          (idle c))
        (c, picture key (time % 2 ^ 32) (low % 2 ^ 24) units ∷ [])
picture-Sends key kind low time units c of_kind short room =
    tag-Sends (kind ∷ 1 ∷ (write_big_endian 3 low ++ sized_all units)) time c
      (picture key (time % 2 ^ 32) (low % 2 ^ 24) units)
      (omega (
        arith,
        length-append (write_big_endian 3 low) (sized_all units),
        length-write_big_endian 3 low,
      ))
      (read_body-picture key kind (time % 2 ^ 32) low units of_kind short)

pub send_slice-Sends :
    (timestamp : ℕ) (nal : Bytes) (c : FlvContext)
    → length nal ≤ 2 ^ 22
    → Sends
        (send_slice timestamp nal (idle c))
        (c, picture false (shown_time timestamp c) (composition_time timestamp c) (nal ∷ []) ∷ [])
unfolding send_slice elapsed
send_slice-Sends timestamp nal c small = rw (← append-nil (sized nal)) (
    picture-Sends false 0x27 (elapsed timestamp c) (elapsed timestamp c) (nal ∷ []) c
      (inr (refl, refl)) (omega arith, tt)
      (omega (arith, length-append (sized nal) [], length-sized nal)))

pub idr-Sends :
    (timestamp : ℕ) (nal : Bytes) (c : FlvContext)
    → FitsUnit idr nal c
    → Sends
        (write_flv_tag type_video
          (0x17
            ∷ 1
            ∷ (write_big_endian 3 (elapsed timestamp c)
                ++ (sized c.sps ++ (sized c.pps ++ sized nal))))
          (elapsed timestamp c)
          (idle c))
        (c, show_picture timestamp nal c ∷ [])
idr-Sends timestamp nal c (sets, small) = rw (← append-nil (sized nal)) (
    picture-Sends true 0x17 (elapsed timestamp c) (elapsed timestamp c) (c.sps ∷ c.pps ∷ nal ∷ []) c
      (inl (refl, refl)) (omega arith, (omega arith, (omega arith, tt)))
      (omega (
        arith,
        length-append (sized c.sps) (sized c.pps ++ (sized nal ++ [])),
        length-append (sized c.pps) (sized nal ++ []),
        length-append (sized nal) [],
        length-sized c.sps,
        length-sized c.pps,
        length-sized nal,
      )))
