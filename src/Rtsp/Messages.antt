-- ===== src/Rtsp/Messages.antt =====
-- librtsp/rtsp_session.cpp: the whole of `OnRead`, which takes the packets off the connection and
-- answers the text behind them.
use clibmedia_transfer_proto.Common.{
  ℕ, suc, ◌+◌, ◌-◌, ◌≡◌, refl, ap, ◌∙◌, Bool, false, Option, none, some, List, [], ◌∷◌, ◌++◌,
  concat, append-nil, length, length-append, arith, All,
}
use clibmedia_transfer_proto.ByteIo.{Bytes}
use clibmedia_transfer_proto.Gb28181.{is_rtp_packet, has_rtp_version}
use clibmedia_transfer_proto.Rtsp.{
  RtpParsers, RtspSession, Event, returns, reply, fault, running, then_reads, read_loop, on_read,
  plain, round, is_rtcp_packet, starts_with?,
}
use clibmedia_transfer_proto.Rtsp.Frames.{
  Frame, written_all, IsFrame, media_all, signals, ready_after, length-written_all,
}
use clibmedia_transfer_proto.Rtsp.Interleaved.{session, read_loop-frames}
use clibmedia_transfer_proto.Rtsp.Segments.{Arrives, on_read-Arrives}
use clibmedia_transfer_proto.Rtsp.Requests.{Dialogue}
use clibmedia_transfer_proto.Rtsp.Answers.{on_text}

-- What an `OnRead` that ends within its bytes leaves: the two parts of the session, the signals and
-- the requests.
pub record Message : Type 0 where
  pub media : RtspSession
  pub dialogue : Dialogue
  pub events : List Event
  pub requests : List (List Bytes)

not_rtp : (rest : Bytes) → is_rtp_packet (b'R' ∷ rest) ≡ false
unfolding is_rtp_packet has_rtp_version
not_rtp [] = refl
not_rtp (b ∷ rest) = ground arith

not_rtcp : (rest : Bytes) → is_rtcp_packet (b'R' ∷ rest) ≡ false
unfolding is_rtcp_packet has_rtp_version
not_rtcp [] = refl
not_rtcp (b ∷ rest) = ground arith

module _ (split : ℕ → Bytes → List Bytes) (md5 : Bytes → Bytes) (tokenize : ℕ → Bytes → List Bytes)
    (l : RtpParsers) where
  unfoldable pub on_message : RtspSession → Dialogue → List Bytes → Option Message
  on_message s d received = elim (on_read l s received) [
    | returns s' events ↦ some (record { media = s'; dialogue = d; events = events; requests = [] })
    | reply s' events text' ↦ elim (on_text split md5 tokenize text' d) [
      | none ↦ none
      | some (d', sent) ↦
          some (record { media = s'; dialogue = d'; events = events; requests = sent })
    ]
    | fault ↦ none
    | running ↦ none
  ]

  read_loop-text :
      (fuel : ℕ) (s : RtspSession) (rest : Bytes)
      → read_loop l (suc fuel) s (b'R' ∷ rest) ≡ reply s [] (b'R' ∷ rest)
  unfolding read_loop round plain starts_with?
  read_loop-text fuel s rest = rw (read_loop, round, plain, not_rtp rest, not_rtcp rest) refl

  -- Frames that the parsers accept and then a text that begins with 'R', as the answers of a server
  -- do, all received by one OnRead: the packets are signalled as they are without the text, the
  -- dialogue and the requests are those that the text alone leaves, and nothing is kept.
  pub on_message-text :
      (ready : Bool) (kept : Bytes) (piece : List Bytes) (fs : List Frame) (rest : Bytes)
      (d d' : Dialogue) (sent : List (List Bytes))
      → Arrives kept piece
      → kept ++ concat piece ≡ written_all fs ++ (b'R' ∷ rest)
      → All (IsFrame l) fs
      → on_text split md5 tokenize (b'R' ∷ rest) d ≡ some (d', sent)
      → on_message (session kept ready) d piece
        ≡ some (record {
          media = session [] (ready_after ready (media_all l fs));
          dialogue = d';
          events = signals ready (media_all l fs);
          requests = sent;
        })
  unfolding on_message then_reads
  on_message-text ready kept piece fs rest d d' sent arrives e a answered =
      let answer = b'R' ∷ rest in
      let data' = written_all fs ++ answer in
      let spare = length data' - length fs in
      let n : suc (length data') ≡ length fs + suc spare =
        omega (arith, length-written_all fs, length-append (written_all fs) answer) in
      let ready' = ready_after ready (media_all l fs) in
      let events = signals ready (media_all l fs) in
      let same : on_read l (session kept ready) piece ≡ reply (session [] ready') events answer =
        on_read-Arrives l kept ready piece arrives e
        ∙ ap (λ k. read_loop l k (session [] ready) data') n
        ∙ read_loop-frames l (suc spare) fs ready answer a
        ∙ ap (then_reads events) (read_loop-text spare (session [] ready') rest)
        ∙ ap (λ t. reply (session [] ready') t answer) (append-nil events) in
      rw (on_message, same, answered) refl
