-- ===== src/Flv/Playback.antt =====
-- Frames of video, from the call of `SendFlvVideoFrame` to what a reader is shown.
use clibmedia_transfer_proto.Common.{
  ℕ, zero, suc, ◌%◌, ◌<◌, ◌≡◌, refl, some, List, [], ◌∷◌, ◌++◌, ◌>>=◌, arith, length, concat,
  get_elem?,
}
use clibmedia_transfer_proto.ByteIo.{Bytes}
use clibmedia_transfer_proto.Flv.{
  FlvContext, Sent, and_then, NaluType, send_typed, nalu_type, nal_bytes, send_nalu, send_nalus,
  send_flv_video_frame,
}
use clibmedia_transfer_proto.Flv.Reader.{Shown, read_stream}
use clibmedia_transfer_proto.Flv.Tags.{idle}
use clibmedia_transfer_proto.Flv.Muxer.{shows, FitsUnit, Shows, Sends, Sends-and_then}
use clibmedia_transfer_proto.Flv.Sending.{send_typed-Sends, Sends-eq}

abbrev pub NalUnit : Type 0
NalUnit = NaluType × Bytes

-- The unit that stands at a place in a frame.
abbrev pub IsUnitAt : Bytes → ℕ × ℕ → NalUnit → Type 0
IsUnitAt frame (offset, size) (t, nal) =
    (first : ℕ) × (get_elem? frame offset ≡ some first)
    × (nalu_type (first % 32) ≡ t)
    × (nal_bytes frame offset size ≡ some nal)

abbrev pub AreUnits : Bytes → List (ℕ × ℕ) → List NalUnit → Type 0
AreUnits frame [] [] = Unit {0}
AreUnits frame (at' ∷ ats) (unit ∷ units) = IsUnitAt frame at' unit × AreUnits frame ats units
AreUnits frame ats units = ⊥

unfoldable pub shows_all : ℕ → FlvContext → List NalUnit → FlvContext × List Shown
shows_all timestamp c [] = (c, [])
shows_all timestamp c ((t, nal) ∷ units) =
    let (c', shown) = shows t timestamp nal c in
    let (c'', more) = shows_all timestamp c' units in (c'', shown ++ more)

abbrev pub FitsAll : ℕ → FlvContext → List NalUnit → Type 0
FitsAll timestamp c [] = Unit {0}
FitsAll timestamp c ((t, nal) ∷ units) =
    FitsUnit t nal c × FitsAll timestamp (shows t timestamp nal c).0 units

send_nalus-Sends :
    (frame : Bytes) (timestamp : ℕ) (c : FlvContext) (ats : List (ℕ × ℕ)) (units : List NalUnit)
    → AreUnits frame ats units
    → FitsAll timestamp c units
    → Sends (send_nalus frame timestamp (idle c) ats) (shows_all timestamp c units)
unfolding send_nalus shows_all
send_nalus-Sends frame timestamp c [] [] cut fits = ([], refl, tt)
send_nalus-Sends frame timestamp c [] (unit ∷ units) cut fits = absurd cut
send_nalus-Sends frame timestamp c (at' ∷ ats) [] cut fits = absurd cut
send_nalus-Sends frame timestamp c ((offset, size) ∷ ats) ((t, nal) ∷ units)
      ((first, e, kind, bytes), cut) (fits, more) =
    let (c', shown) = shows t timestamp nal c in
    Sends-and_then (send_nalu frame timestamp (idle c) (offset, size)) c'
      (shows_all timestamp c' units).0 (λ d. send_nalus frame timestamp d ats) shown
      (shows_all timestamp c' units).1
      (Sends-eq {r = shows t timestamp nal c} one refl (send_typed-Sends t timestamp nal c fits))
      (send_nalus-Sends frame timestamp c' ats units cut more)
  where
    one :
        send_nalu frame timestamp (idle c) (offset, size)
        ≡ send_typed t timestamp (some nal) (idle c)
    one = unfold send_nalu in rw (e, ◌>>=◌, kind, bytes) refl

-- A frame, its time, and its units.
pub record Picture : Type 0 where
  pub frame : Bytes
  pub timestamp : ℕ
  pub units : List NalUnit

unfoldable pub send_video : (Bytes → List (ℕ × ℕ)) → FlvContext → List Picture → Sent
send_video find_nalu_indices c [] = some (c, [])
send_video find_nalu_indices c (p ∷ ps) =
    and_then (send_flv_video_frame find_nalu_indices p.frame p.timestamp c)
      (λ c'. send_video find_nalu_indices c' ps)

unfoldable pub shows_video : FlvContext → List Picture → FlvContext × List Shown
unfolding shows_all
shows_video c [] = (c, [])
shows_video c (p ∷ ps) =
    let (c', shown) = shows_all p.timestamp c p.units in
    let (c'', more) = shows_video c' ps in (c'', shown ++ more)

-- The units of each frame are where `FindNaluIndices` finds them, and fit.
abbrev pub IsVideo : (Bytes → List (ℕ × ℕ)) → FlvContext → List Picture → Type 0
IsVideo find_nalu_indices c [] = Unit {0}
IsVideo find_nalu_indices c (p ∷ ps) =
    AreUnits p.frame (find_nalu_indices p.frame) p.units
    × FitsAll p.timestamp c p.units
    × IsVideo find_nalu_indices (shows_all p.timestamp c p.units).0 ps

send_video-Sends :
    (find_nalu_indices : Bytes → List (ℕ × ℕ)) (c : FlvContext) (video : List Picture)
    → IsVideo find_nalu_indices c video
    → Sends (send_video find_nalu_indices (idle c) video) (shows_video c video)
unfolding send_video shows_video send_flv_video_frame
send_video-Sends find_nalu_indices c [] v = ([], refl, tt)
send_video-Sends find_nalu_indices c (p ∷ ps) (cut, fits, more) =
    let (c', shown) = shows_all p.timestamp c p.units in
    Sends-and_then (send_flv_video_frame find_nalu_indices p.frame p.timestamp (idle c)) c'
      (shows_video c' ps).0 (λ d. send_video find_nalu_indices d ps) shown (shows_video c' ps).1
      (send_nalus-Sends p.frame p.timestamp c (find_nalu_indices p.frame) p.units cut fits)
      (send_video-Sends find_nalu_indices c' ps more)

read_stream-Shows :
    (messages : List Bytes) (shown : List Shown) (fuel : ℕ)
    → Shows messages shown
    → length messages < fuel
    → read_stream fuel (concat messages) ≡ some shown
unfolding read_stream
read_stream-Shows [] [] zero h enough = absurd (omega arith)
read_stream-Shows [] [] (suc fuel) h enough = refl
read_stream-Shows [] (s ∷ ss) fuel h enough = absurd h
read_stream-Shows (m ∷ ms) [] fuel h enough = absurd h
read_stream-Shows (m ∷ ms) (s ∷ ss) zero h enough = absurd (omega arith)
read_stream-Shows ([] ∷ ms) (s ∷ ss) (suc fuel) (reads, long, h) enough = absurd (omega arith)
read_stream-Shows ((b ∷ m) ∷ ms) (s ∷ ss) (suc fuel) (reads, long, h) enough =
    rw (read_stream, reads (concat ms), read_stream-Shows ms ss fuel h (omega arith)) refl

-- Frames whose units fit are all sent, and a reader of the stream is shown the configuration once,
-- before the first whole picture, each whole picture with its sets, and the others from then on: each
-- at its time, and with that time once more as the composition time, by which a player delays it.
pub send_video-read_stream :
    (find_nalu_indices : Bytes → List (ℕ × ℕ)) (c : FlvContext) (video : List Picture)
    → IsVideo find_nalu_indices c video
    → let (c', shown) = shows_video c video in
      (messages : List Bytes) × (send_video find_nalu_indices (idle c) video
        ≡ some (idle c', messages))
      × (read_stream (suc (length messages)) (concat messages) ≡ some shown)
send_video-read_stream find_nalu_indices c video v =
    let (messages, e, h) = send_video-Sends find_nalu_indices c video v in
    (
      messages,
      e,
      read_stream-Shows messages (shows_video c video).1 (suc (length messages)) h (omega arith),
    )
