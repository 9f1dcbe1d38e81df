-- ===== src/Mpeg/Receive.antt =====
-- What a stream of packets comes to, in parts.
use clibmedia_transfer_proto.Common.{
  ℕ, ◌+◌, ◌≤◌, ◌≡◌, refl, sym, ap, ap₂, ◌∙◌, Bool, true, false, List, [], ◌∷◌, ◌++◌, arith, length,
  append_assoc,
}
use clibmedia_transfer_proto.Common.Int.{pos}
use clibmedia_transfer_proto.ByteIo.{Bytes}
use clibmedia_transfer_proto.Mpeg.{MpegDecoder, Event, flush}
use clibmedia_transfer_proto.Mpeg.Packets.{
  PsPacket, pack, skipped, video, audio, starts_picture, receive_packet, receive_packets,
  video_size, HasRoom,
}
use clibmedia_transfer_proto.Mpeg.Whole.{starts_picture-append}
use clibmedia_transfer_proto.Mpeg.Stream.{receive_packet-HasRoom}
use clibmedia_transfer_proto.Mpeg.Pending.{continued}

pub receive_packets-append :
    (d : MpegDecoder) (qs ps : List PsPacket)
    → let (d', events) = receive_packets d qs in
      let (d'', more) = receive_packets d' ps in
      receive_packets d (qs ++ ps) ≡ (d'', events ++ more)
unfolding receive_packets
receive_packets-append d [] ps = refl
receive_packets-append d (q ∷ qs) ps =
    let d' = (receive_packet d q).0 in
    ap (λ t. (t.0, (receive_packet d q).1 ++ t.1)) (receive_packets-append d' qs ps)
    ∙ ap (λ t. ((receive_packets (receive_packets d' qs).0 ps).0, t))
        (sym (
          append_assoc (receive_packet d q).1 (receive_packets d' qs).1
            (receive_packets (receive_packets d' qs).0 ps).1))

flush-read_byte : (b : Bool) (d : MpegDecoder) → (flush b d).0.read_byte ≡ d.read_byte
unfolding flush
flush-read_byte true d = refl
flush-read_byte false d = refl

receive_packet-read_byte :
    (d : MpegDecoder) (p : PsPacket) → (receive_packet d p).0.read_byte ≡ d.read_byte
unfolding receive_packet
receive_packet-read_byte d (pack clock reserved stuffing) = refl
receive_packet-read_byte d (skipped stream_id body) = refl
receive_packet-read_byte d (video mark flags header payload) =
    flush-read_byte (starts_picture payload d) d
receive_packet-read_byte d (audio mark flags header payload) = refl

pub receive_packets-read_byte :
    (d : MpegDecoder) (ps : List PsPacket) → (receive_packets d ps).0.read_byte ≡ d.read_byte
unfolding receive_packets
receive_packets-read_byte d [] = refl
receive_packets-read_byte d (p ∷ ps) =
    receive_packets-read_byte (receive_packet d p).0 ps ∙ receive_packet-read_byte d p

pub receive_packets-HasRoom :
    (d : MpegDecoder) (qs ps : List PsPacket)
    → HasRoom d (qs ++ ps)
    → HasRoom (receive_packets d qs).0 ps
unfolding receive_packets
receive_packets-HasRoom d [] ps room = room
receive_packets-HasRoom d (q ∷ qs) ps room =
    receive_packets-HasRoom (receive_packet d q).0 qs ps
      (receive_packet-HasRoom q (qs ++ ps) d room)

pub video_size-append :
    (qs ps : List PsPacket) → video_size (qs ++ ps) ≡ video_size qs + video_size ps
video_size-append [] ps = omega arith
video_size-append (video mark flags header payload ∷ qs) ps = omega (arith, video_size-append qs ps)
video_size-append (pack clock reserved stuffing ∷ qs) ps = video_size-append qs ps
video_size-append (skipped stream_id body ∷ qs) ps = video_size-append qs ps
video_size-append (audio mark flags header payload ∷ qs) ps = video_size-append qs ps

-- A payload may be taken in in two parts.
pub receive_packet-continued :
    (d : MpegDecoder) (mark flags : ℕ) (header seg later : Bytes)
    → d.read_byte ≡ pos 0
    → 4 ≤ length seg
    → let (d', events) = receive_packet d (video mark flags header seg) in
      receive_packet d (video mark flags header (seg ++ later)) ≡ (continued later d', events)
unfolding receive_packet
receive_packet-continued d mark flags header seg later none_missing long =
    rw (starts_picture-append seg later d long) (
      ap₂
        (λ t u. (
          record (receive_packet d (video mark flags header seg)).0 {
            byte_stream = t;
            read_byte = u;
          },
          (flush b d).1,
        ))
        (sym (append_assoc (flush b d).0.byte_stream seg later))
        (flush-read_byte b d ∙ none_missing))
  where
    b : Bool
    b = starts_picture seg d

-- A packet among others, by what it comes to.
pub receive_packets-append_cons :
    (d : MpegDecoder) (qs : List PsPacket) (p : PsPacket) (ps : List PsPacket) {d' : MpegDecoder}
    {events : List Event}
    → receive_packet (receive_packets d qs).0 p ≡ (d', events)
    → receive_packets d (qs ++ (p ∷ ps)) ≡ (
      (receive_packets d' ps).0,
      ((receive_packets d qs).1 ++ events) ++ (receive_packets d' ps).1,
    )
unfolding receive_packets
receive_packets-append_cons d qs p ps {d'} {events} e =
    receive_packets-append d qs (p ∷ ps)
    ∙ ap
        (λ t. (
          (receive_packets t.0 ps).0,
          (receive_packets d qs).1 ++ (t.1 ++ (receive_packets t.0 ps).1),
        ))
        e
    ∙ ap (λ t. ((receive_packets d' ps).0, t))
        (sym (append_assoc (receive_packets d qs).1 events (receive_packets d' ps).1))
