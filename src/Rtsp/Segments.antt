-- ===== src/Rtsp/Segments.antt =====
-- A connection that delivers frames in pieces, which may cut the payload of a frame.
use clibmedia_transfer_proto.Common.{
  ℕ, suc, ◌+◌, ◌-◌, ◌<◌, ◌≤◌, ◌≡◌, refl, sym, ap, ◌∙◌, Bool, some, List, [], ◌∷◌, ◌++◌, le→ltb,
  concat, length, length-append, append_assoc, append-nil, arith, All, All-append,
}
use clibmedia_transfer_proto.ByteIo.{Bytes}
use clibmedia_transfer_proto.Rtsp.{
  RtpParsers, RtspSession, Event, Reading, returns, reply, fault, running, then_reads, read_loop,
  receive, on_read, buffer_capacity,
}
use clibmedia_transfer_proto.Rtsp.Frames.{
  Frame, frame_front, written_all, IsFrame, media_all, media_all-append, signals, ready_after,
  signals-append, ready_after-append, length-written_all,
}
use clibmedia_transfer_proto.Rtsp.Interleaved.{session, read_loop-frames, read_loop-cut}

-- One `OnRead` for each piece, up to a text.
unfoldable pub read_all : RtpParsers → RtspSession → List (List Bytes) → Reading
unfolding then_reads
read_all l s [] = returns s []
read_all l s (piece ∷ pieces) = elim (on_read l s piece) [
  | returns s' events ↦ then_reads events (read_all l s' pieces)
  | reply s' events text ↦ reply s' events text
  | fault ↦ fault
  | running ↦ running
]

-- What the calls of `Recv` in one `OnRead` give, behind `kept` bytes: none of them is empty, and the
-- buffer has room for all.
abbrev pub Arrives : Bytes → List Bytes → Type 0
Arrives kept piece =
    All (λ (bytes : Bytes). 0 < length bytes) piece
    × (length (kept ++ concat piece) ≤ buffer_capacity)

-- The pieces of some frames, where `kept` is what the session keeps of the first. Each ends with a
-- frame, or in the payload of one.
pub data Segments : Bytes → List Frame → List (List Bytes) → Type 0 where
  finished : Segments [] [] []
  whole :
      (kept : Bytes) (fs gs : List Frame) (piece : List Bytes) (pieces : List (List Bytes))
      → Arrives kept piece
      → kept ++ concat piece ≡ written_all fs ++ []
      → Segments [] gs pieces
      → Segments kept (fs ++ gs) (piece ∷ pieces)
  cut :
      (kept : Bytes) (fs : List Frame) (channel : ℕ) (front back : Bytes) (gs : List Frame)
      (piece : List Bytes) (pieces : List (List Bytes))
      → 0 < length back
      → Arrives kept piece
      → kept ++ concat piece
        ≡ written_all fs ++ (frame_front channel (length (front ++ back)) ++ front)
      → Segments
          (frame_front channel (length (front ++ back)) ++ front)
          (record { channel = channel; payload = front ++ back } ∷ gs)
          pieces
      → Segments kept
          (fs ++ (record { channel = channel; payload = front ++ back } ∷ gs))
          (piece ∷ pieces)

receive-Arrives :
    (kept : Bytes) (piece : List Bytes)
    → Arrives kept piece
    → receive kept piece ≡ some (kept ++ concat piece)
unfolding receive
receive-Arrives kept [] (_, fits) = ap some (sym (append-nil kept))
receive-Arrives kept ([] ∷ piece) ((p, _), fits) = absurd (omega arith)
receive-Arrives kept ((b ∷ bytes) ∷ piece) ((p, a), fits) =
    let same = append_assoc kept (b ∷ bytes) (concat piece) in
    let room : length kept + length (b ∷ bytes) ≤ buffer_capacity = omega (
      arith,
      fits,
      length-append kept ((b ∷ bytes) ++ concat piece),
      length-append (b ∷ bytes) (concat piece),
    ) in
    rw (receive, le→ltb buffer_capacity (length kept + length (b ∷ bytes)) room)
      (receive-Arrives (kept ++ (b ∷ bytes)) piece (a, omega (arith, fits, ap length same))
        ∙ ap some same)

pub on_read-Arrives :
    (l : RtpParsers) (kept : Bytes) (ready : Bool) (piece : List Bytes) {data' : Bytes}
    → Arrives kept piece
    → kept ++ concat piece ≡ data'
    → on_read l (session kept ready) piece
      ≡ read_loop l (suc (length data')) (session [] ready) data'
unfolding on_read
on_read-Arrives l kept ready piece arrives e =
    rw (on_read, receive-Arrives kept piece arrives, e) refl

-- The loop on frames and what is kept behind them.
read_loop-kept :
    (l : RtpParsers) (fs : List Frame) (rest kept : Bytes) (ready : Bool)
    → All (IsFrame l) fs
    → ((fuel : ℕ) (ready' : Bool)
        → read_loop l (suc fuel) (session [] ready') rest ≡ returns (session kept ready') [])
    → read_loop l
        (suc (length (written_all fs ++ rest)))
        (session [] ready)
        (written_all fs ++ rest)
      ≡ returns
          (session kept (ready_after ready (media_all l fs)))
          (signals ready (media_all l fs) ++ [])
unfolding then_reads
read_loop-kept l fs rest kept ready a keeps =
    let spare = length (written_all fs ++ rest) - length fs in
    let n : suc (length (written_all fs ++ rest)) ≡ length fs + suc spare =
      omega (arith, length-written_all fs, length-append (written_all fs) rest) in
    ap (λ k. read_loop l k (session [] ready) (written_all fs ++ rest)) n
    ∙ read_loop-frames l (suc spare) fs ready rest a
    ∙ ap (then_reads (signals ready (media_all l fs)))
        (keeps spare (ready_after ready (media_all l fs)))

read_all-cons :
    (l : RtpParsers) (s : RtspSession) (piece : List Bytes) (pieces : List (List Bytes))
    {s' s'' : RtspSession} {events more : List Event}
    → on_read l s piece ≡ returns s' events
    → read_all l s' pieces ≡ returns s'' more
    → read_all l s (piece ∷ pieces) ≡ returns s'' (events ++ more)
unfolding read_all then_reads
read_all-cons l s piece pieces first others = rw (read_all, first, others) refl

-- What frames signal, and then others.
signals-frames :
    (l : RtpParsers) (ready : Bool) (fs gs : List Frame)
    → let ready' = ready_after ready (media_all l fs) in
      returns
        (session [] (ready_after ready' (media_all l gs)))
        ((signals ready (media_all l fs) ++ []) ++ signals ready' (media_all l gs))
      ≡ returns
          (session [] (ready_after ready (media_all l (fs ++ gs))))
          (signals ready (media_all l (fs ++ gs)))
signals-frames l ready fs gs =
    rw
      (
        media_all-append l fs gs,
        append-nil (signals ready (media_all l fs)),
        signals-append ready (media_all l fs) (media_all l gs),
        ready_after-append ready (media_all l fs) (media_all l gs),
      )
      refl

-- Frames that one of the parsers accepts, in any such pieces: every packet of payload type 96 is
-- signalled, in order, the decoder is initialised before the first of them unless it was, and nothing
-- is kept in the end.
pub read_all-Segments :
    (l : RtpParsers) (ready : Bool) (kept : Bytes) (fs : List Frame) (pieces : List (List Bytes))
    → Segments kept fs pieces
    → All (IsFrame l) fs
    → read_all l (session kept ready) pieces
      ≡ returns (session [] (ready_after ready (media_all l fs))) (signals ready (media_all l fs))
read_all-Segments l ready kept fs pieces finished a =
    unfold read_all media_all signals ready_after in refl
read_all-Segments l ready kept fs pieces (whole kept' gs hs piece pieces' arrives e rest) a =
    let (ag, ah) = All-append (IsFrame l) gs hs a in
    let ready' = ready_after ready (media_all l gs) in
    read_all-cons l (session kept ready) piece pieces'
      (on_read-Arrives l kept ready piece arrives e
        ∙ read_loop-kept l gs [] [] ready ag (λ fuel b. unfold read_loop in refl))
      (read_all-Segments l ready' [] hs pieces' rest ah)
    ∙ signals-frames l ready gs hs
read_all-Segments l ready kept fs pieces
      (cut kept' gs channel front back hs piece pieces' more arrives e rest) a =
    let f : Frame = record { channel = channel; payload = front ++ back } in
    let (ag, ah) = All-append (IsFrame l) gs (f ∷ hs) a in
    let ready' = ready_after ready (media_all l gs) in
    let left = frame_front channel (length (front ++ back)) ++ front in
    read_all-cons l (session kept ready) piece pieces'
      (on_read-Arrives l kept ready piece arrives e
        ∙ read_loop-kept l gs left left ready ag
            (λ fuel b. read_loop-cut l fuel channel front back b ah.0.0 more))
      (read_all-Segments l ready' left (f ∷ hs) pieces' rest ah)
    ∙ signals-frames l ready gs (f ∷ hs)
