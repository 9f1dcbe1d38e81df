-- ===== src/Rtsp/Interleaved.antt =====
-- One frame in the loop of `OnRead`, whole or cut in its payload, and the frames in front of a rest.
use clibmedia_transfer_proto.Common.{
  ℕ, suc, ◌+◌, ◌-◌, ◌%◌, ◌^◌, ◌<◌, ◌≡◌, refl, sym, ap, ap₂, ◌∙◌, inl, inr, Bool, true, false, List,
  [], ◌∷◌, ◌++◌, ◌==◌, ltb, lt→ltb, le→ltb, if◌then◌else◌, if_of_true, if_of_false, length, take,
  drop, length-append, take-append_eq, drop-append_eq, append_assoc, arith, All,
}
use clibmedia_transfer_proto.ByteIo.{Bytes}
use clibmedia_transfer_proto.ByteIo.RoundTrip.{read-write_big_endian, length-write_big_endian}
use clibmedia_transfer_proto.Rtsp.{
  RtpPacket, RtpParsers, RtspSession, Event, init_decoder, rtp_packet, Reading, returns, reply,
  fault, running, Round, ends, goes, then_reads, receive_rtp, receive_payload, interleaved, round,
  read_loop,
}
use clibmedia_transfer_proto.Rtsp.Frames.{
  Frame, frame_front, written, written_all, IsFrame, media, media_all, signals, ready_after,
  signals-append, ready_after-append,
}

abbrev pub session : Bytes → Bool → RtspSession
session kept ready = record { recv_buffer = kept; decoder_init = ready }

receive_rtp-signals :
    (p : RtpPacket) (ready : Bool) (rest : Bytes)
    → let ps = if p.payload_type == 96 then p ∷ [] else [] in
      receive_rtp p (session [] ready) rest
      ≡ goes (session [] (ready_after ready ps)) (signals ready ps) rest
unfolding receive_rtp signals ready_after
receive_rtp-signals p ready rest = by_type (p.payload_type == 96) ready
  where
    by_type :
        (b ready : Bool)
        → let ps = if b then p ∷ [] else [] in
          (if b
            then goes
                (session [] true)
                (if ready then rtp_packet p ∷ [] else init_decoder p.ssrc ∷ rtp_packet p ∷ [])
                rest
            else goes (session [] ready) [] rest)
          ≡ goes (session [] (ready_after ready ps)) (signals ready ps) rest
    by_type true true = refl
    by_type true false = refl
    by_type false ready = refl

receive_payload-frame :
    (l : RtpParsers) (f : Frame) (ready : Bool) (more rest : Bytes)
    → IsFrame l f
    → receive_payload l (session [] ready) f.payload more rest
      ≡ goes (session [] (ready_after ready (media l f))) (signals ready (media l f)) rest
unfolding receive_payload media
receive_payload-frame l f ready more rest (_, inl (e, (packet, parsed))) =
    rw (e, parsed) (receive_rtp-signals packet ready rest)
receive_payload-frame l f ready more rest (_, inr (e, e', (size, parsed))) =
    rw (e, e', parsed) (unfold signals ready_after in refl)

-- The bytes behind the front of a frame that announces `size` of them.
interleaved-front :
    (l : RtpParsers) (s : RtspSession) (channel size : ℕ) (more : Bytes)
    → size < 256 ^ 2
    → interleaved l s (frame_front channel size ++ more) ≡ (
        if ltb (length more) size
        then ends (returns (record s { recv_buffer = frame_front channel size ++ more }) [])
        else receive_payload l s (take size more) more (drop size more))
unfolding interleaved
interleaved-front l s channel size more small =
    let n : size % 256 ^ 2 ≡ size = omega arith in
    let front : length (frame_front channel size) ≡ 4 =
      omega (arith, length-write_big_endian 2 size) in
    let k : length (frame_front channel size ++ more) - 4 ≡ length more =
      omega (arith, front, length-append (frame_front channel size) more) in
    rw
      (
        interleaved,
        read-write_big_endian 2 size more,
        n,
        k,
        drop-append_eq 4 (frame_front channel size) more (sym front),
      )
      refl

read_loop-round :
    (l : RtpParsers) (fuel : ℕ) (s : RtspSession) (rest : Bytes) {r : Round}
    → interleaved l s (36 ∷ rest) ≡ r
    → read_loop l (suc fuel) s (36 ∷ rest) ≡ elim r [
      | ends reading ↦ reading
      | goes s' events data' ↦ then_reads events (read_loop l fuel s' data')
    ]
unfolding read_loop round
read_loop-round l fuel s rest e =
    ap
      (λ (t : Round). elim t [
        | ends reading ↦ reading
        | goes s' events data' ↦ then_reads events (read_loop l fuel s' data')
      ])
      e

read_loop-frame :
    (l : RtpParsers) (fuel : ℕ) (f : Frame) (ready : Bool) (rest : Bytes)
    → IsFrame l f
    → read_loop l (suc fuel) (session [] ready) (written f ++ rest)
      ≡ then_reads
          (signals ready (media l f))
          (read_loop l fuel (session [] (ready_after ready (media l f))) rest)
read_loop-frame l fuel f ready rest is_frame =
    let size = length f.payload in
    let step : interleaved l (session [] ready) (written f ++ rest)
        ≡ goes (session [] (ready_after ready (media l f))) (signals ready (media l f)) rest =
      ap (interleaved l (session [] ready))
        (append_assoc (frame_front f.channel size) f.payload rest)
      ∙ interleaved-front l (session [] ready) f.channel size (f.payload ++ rest) is_frame.0
      ∙ if_of_false _ _ _
          (le→ltb (length (f.payload ++ rest)) size (omega (arith, length-append f.payload rest)))
      ∙ ap₂ (λ t u. receive_payload l (session [] ready) t (f.payload ++ rest) u)
          (take-append_eq size f.payload rest refl) (drop-append_eq size f.payload rest refl)
      ∙ receive_payload-frame l f ready (f.payload ++ rest) rest is_frame in
    read_loop-round l fuel (session [] ready) _ step

-- A frame whose payload is still to be completed is kept.
pub read_loop-cut :
    (l : RtpParsers) (fuel channel : ℕ) (front back : Bytes) (ready : Bool)
    → length (front ++ back) < 256 ^ 2
    → 0 < length back
    → let kept = frame_front channel (length (front ++ back)) ++ front in
      read_loop l (suc fuel) (session [] ready) kept ≡ returns (session kept ready) []
read_loop-cut l fuel channel front back ready small more =
    let size = length (front ++ back) in
    let step =
      interleaved-front l (session [] ready) channel size front small
      ∙ if_of_true _ _ _
          (lt→ltb (length front) size (omega (arith, length-append front back, more))) in
    read_loop-round l fuel (session [] ready) _ step

then_reads-append :
    (first second : List Event) (r : Reading)
    → then_reads first (then_reads second r) ≡ then_reads (first ++ second) r
unfolding then_reads
then_reads-append first second (returns s more) =
    ap (returns s) (sym (append_assoc first second more))
then_reads-append first second (reply s more text) =
    ap (λ t. reply s t text) (sym (append_assoc first second more))
then_reads-append first second fault = refl
then_reads-append first second running = refl

then_reads-nil : (r : Reading) → then_reads [] r ≡ r
unfolding then_reads
then_reads-nil (returns s more) = refl
then_reads-nil (reply s more text) = refl
then_reads-nil fault = refl
then_reads-nil running = refl

-- Frames in front of other bytes signal what their packets are to signal.
pub read_loop-frames :
    (l : RtpParsers) (fuel : ℕ) (fs : List Frame) (ready : Bool) (rest : Bytes)
    → All (IsFrame l) fs
    → read_loop l (length fs + fuel) (session [] ready) (written_all fs ++ rest)
      ≡ then_reads
          (signals ready (media_all l fs))
          (read_loop l fuel (session [] (ready_after ready (media_all l fs))) rest)
unfolding media_all
read_loop-frames l fuel [] ready rest a =
    let n : length {A = Frame} [] + fuel ≡ fuel = omega arith in
    unfold signals ready_after in
    ap (λ k. read_loop l k (session [] ready) rest) n
    ∙ sym (then_reads-nil (read_loop l fuel (session [] ready) rest))
read_loop-frames l fuel (f ∷ fs) ready rest (is_frame, a) =
    let n : length (f ∷ fs) + fuel ≡ suc (length fs + fuel) = omega arith in
    let ready' = ready_after ready (media l f) in
    let later = signals ready' (media_all l fs) in
    let end = read_loop l fuel (session [] (ready_after ready' (media_all l fs))) rest in
    ap₂ (λ k t. read_loop l k (session [] ready) t) n
      (append_assoc (written f) (written_all fs) rest)
    ∙ read_loop-frame l (length fs + fuel) f ready (written_all fs ++ rest) is_frame
    ∙ ap (then_reads (signals ready (media l f))) (read_loop-frames l fuel fs ready' rest a)
    ∙ then_reads-append (signals ready (media l f)) later end
    ∙ ap₂ (λ t b. then_reads t (read_loop l fuel (session [] b) rest))
        (sym (signals-append ready (media l f) (media_all l fs)))
        (sym (ready_after-append ready (media l f) (media_all l fs)))
