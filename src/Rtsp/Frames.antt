-- ===== src/Rtsp/Frames.antt =====
-- Frames of RTP and RTCP packets as a sender writes them, and what their packets are to signal.
use clibmedia_transfer_proto.Common.{
  ℕ, ◌^◌, ◌<◌, ◌≤◌, ◌≡◌, refl, sym, ap, ◌∙◌, ◌⊎◌, Bool, true, false, none, some, List, [], ◌∷◌,
  ◌++◌, map, ◌==◌, if◌then◌else◌, length, length-append, append_assoc, arith,
}
use clibmedia_transfer_proto.ByteIo.{Bytes, write_big_endian}
use clibmedia_transfer_proto.Gb28181.{is_rtp_packet}
use clibmedia_transfer_proto.Rtsp.{
  RtpPacket, RtpParsers, Event, init_decoder, rtp_packet, is_rtcp_packet,
}

pub record Frame : Type 0 where
  pub channel : ℕ
  pub payload : Bytes

abbrev pub frame_front : ℕ → ℕ → Bytes
frame_front channel size = 36 ∷ channel ∷ write_big_endian 2 size

abbrev pub written : Frame → Bytes
written f = frame_front f.channel (length f.payload) ++ f.payload

abbrev pub written_all : List Frame → Bytes
written_all [] = []
written_all (f ∷ fs) = written f ++ written_all fs

-- A payload that fits a frame and that one of the two parsers accepts.
abbrev pub IsFrame : RtpParsers → Frame → Type 0
IsFrame l f =
    (length f.payload < 256 ^ 2)
    × (((is_rtp_packet f.payload ≡ true)
          × ((packet : RtpPacket) × (l.parse_rtp f.payload ≡ some packet)))
        ⊎ ((is_rtp_packet f.payload ≡ false)
            × (is_rtcp_packet f.payload ≡ true)
            × ((size : ℕ) × (l.parse_rtcp f.payload ≡ some size))))

unfoldable pub media : RtpParsers → Frame → List RtpPacket
media l f =
    if is_rtp_packet f.payload
    then elim (l.parse_rtp f.payload) [
      | none ↦ []
      | some packet ↦ if packet.payload_type == 96 then packet ∷ [] else []
    ]
    else []

-- The packets of payload type 96 of some frames.
unfoldable pub media_all : RtpParsers → List Frame → List RtpPacket
unfolding media
media_all l [] = []
media_all l (f ∷ fs) = media l f ++ media_all l fs

-- What such packets signal: each of them, and before the first the decoder, if it is still to be
-- initialised.
unfoldable pub signals : Bool → List RtpPacket → List Event
signals ready [] = []
signals true (p ∷ ps) = map rtp_packet (p ∷ ps)
signals false (p ∷ ps) = init_decoder p.ssrc ∷ map rtp_packet (p ∷ ps)

unfoldable pub ready_after : Bool → List RtpPacket → Bool
ready_after ready [] = ready
ready_after ready (p ∷ ps) = true

map-append :
    (ps qs : List RtpPacket) → map rtp_packet (ps ++ qs) ≡ map rtp_packet ps ++ map rtp_packet qs
map-append [] qs = refl
map-append (p ∷ ps) qs = ap (◌∷◌ (rtp_packet p)) (map-append ps qs)

signals-true : (ps : List RtpPacket) → signals true ps ≡ map rtp_packet ps
unfolding signals
signals-true [] = refl
signals-true (p ∷ ps) = refl

pub signals-append :
    (ready : Bool) (ps qs : List RtpPacket)
    → signals ready (ps ++ qs) ≡ signals ready ps ++ signals (ready_after ready ps) qs
unfolding signals ready_after
signals-append ready [] qs = refl
signals-append true (p ∷ ps) qs =
    ap (◌∷◌ (rtp_packet p)) (map-append ps qs)
    ∙ ap (λ t. map rtp_packet (p ∷ ps) ++ t) (sym (signals-true qs))
signals-append false (p ∷ ps) qs =
    ap (λ t. init_decoder p.ssrc ∷ rtp_packet p ∷ t) (map-append ps qs)
    ∙ ap (λ t. init_decoder p.ssrc ∷ (map rtp_packet (p ∷ ps) ++ t)) (sym (signals-true qs))

pub ready_after-append :
    (ready : Bool) (ps qs : List RtpPacket)
    → ready_after ready (ps ++ qs) ≡ ready_after (ready_after ready ps) qs
unfolding ready_after
ready_after-append ready [] qs = refl
ready_after-append ready (p ∷ ps) [] = refl
ready_after-append ready (p ∷ ps) (q ∷ qs) = refl

pub media_all-append :
    (l : RtpParsers) (fs gs : List Frame)
    → media_all l (fs ++ gs) ≡ media_all l fs ++ media_all l gs
unfolding media_all
media_all-append l [] gs = refl
media_all-append l (f ∷ fs) gs =
    rw (media_all-append l fs gs, append_assoc (media l f) (media_all l fs) (media_all l gs)) refl

pub length-written_all : (fs : List Frame) → length fs ≤ length (written_all fs)
length-written_all [] = omega arith
length-written_all (f ∷ fs) = omega (
  arith,
  length-written_all fs,
  length-append (write_big_endian 2 (length f.payload) ++ f.payload) (written_all fs),
)
