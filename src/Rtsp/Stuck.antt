-- ===== src/Rtsp/Stuck.antt =====
-- Bytes on which the loop of `OnRead` makes no progress.
use clibmedia_transfer_proto.Common.{
  ℕ, zero, suc, ◌≡◌, refl, ap, ◌⊎◌, inl, inr, true, false, none, [], ◌∷◌, ◌==◌, arith,
}
use clibmedia_transfer_proto.ByteIo.{Bytes}
use clibmedia_transfer_proto.Gb28181.{is_rtp_packet, has_rtp_version}
use clibmedia_transfer_proto.Rtsp.{
  RtpParsers, RtspSession, running, goes, plain, round, read_loop, then_reads, is_rtcp_packet,
}

-- Bytes that are taken for a packet that its parser does not accept.
abbrev Refused : RtpParsers → Bytes → Type 0
Refused l data' =
    ((is_rtp_packet data' ≡ true) × (l.parse_rtp data' ≡ none))
    ⊎ ((is_rtp_packet data' ≡ false) × (is_rtcp_packet data' ≡ true) × (l.parse_rtcp data' ≡ none))

rtp_first : (first : ℕ) (rest : Bytes) → is_rtp_packet (first ∷ rest) ≡ true → first == 36 ≡ false
unfolding is_rtp_packet has_rtp_version
rtp_first first [] e = absurd (cc)
rtp_first first (b ∷ rest) e = ground arith

rtcp_first : (first : ℕ) (rest : Bytes) → is_rtcp_packet (first ∷ rest) ≡ true → first == 36 ≡ false
unfolding is_rtcp_packet has_rtp_version
rtcp_first first [] e = absurd (cc)
rtcp_first first (b ∷ rest) e = ground arith

round-Refused :
    (l : RtpParsers) (s : RtspSession) (first : ℕ) (rest : Bytes)
    → Refused l (first ∷ rest)
    → round l s first rest ≡ goes s [] (first ∷ rest)
unfolding round plain
round-Refused l s first rest (inl (e, refused)) = rw (rtp_first first rest e, e, refused) refl
round-Refused l s first rest (inr (e, e', refused)) =
    rw (rtcp_first first rest e', e, e', refused) refl

-- On such bytes outside a frame, the loop does not end, however many rounds it is given.
pub read_loop-Refused :
    (l : RtpParsers) (s : RtspSession) (first : ℕ) (rest : Bytes) (fuel : ℕ)
    → Refused l (first ∷ rest)
    → read_loop l fuel s (first ∷ rest) ≡ running
unfolding read_loop then_reads
read_loop-Refused l s first rest zero refused = refl
read_loop-Refused l s first rest (suc fuel) refused =
    rw (read_loop, round-Refused l s first rest refused)
      (ap (then_reads []) (read_loop-Refused l s first rest fuel refused))
