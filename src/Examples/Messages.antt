-- ===== src/Examples/Messages.antt =====
-- Packets with an answer behind them, in one read.
use clibmedia_transfer_proto.Common.{◌≡◌, refl, false, some, [], ◌∷◌, ◌++◌, arith}
use clibmedia_transfer_proto.ByteIo.{Bytes, write_big_endian}
use clibmedia_transfer_proto.Http.Text.{text, text_eq, atoi}
use clibmedia_transfer_proto.Rtsp.Frames.{written, media_all, signals, ready_after}
use clibmedia_transfer_proto.Rtsp.Interleaved.{session}
use clibmedia_transfer_proto.Rtsp.Requests.{send_describe}
use clibmedia_transfer_proto.Rtsp.Answers.{on_text}
use clibmedia_transfer_proto.Rtsp.Lines.{join}
use clibmedia_transfer_proto.Rtsp.Messages.{on_message, on_message-text}
use clibmedia_transfer_proto.Examples.Splitting.{split}
use clibmedia_transfer_proto.Examples.Dialogues.{played}
use clibmedia_transfer_proto.Examples.Frames.{
  parsers, report, picture, report-IsFrame, picture-IsFrame,
}

-- What follows the first letter of an answer to OPTIONS.
abbrev options_answer : Bytes
options_answer =
    join 10 (text "TSP/1.0 200 OK" ∷ text "CSeq: 2" ∷ text "Public: OPTIONS, DESCRIBE, PLAY" ∷ [])

abbrev front : Bytes
front = 36 ∷ 1 ∷ []

abbrev back : Bytes
back = 0 ∷ 4 ∷ (report.payload ++ (written picture ++ (b'R' ∷ options_answer)))

on_message-text_example :
    on_message split (λ bytes. bytes) split parsers (session [] false) played (front ∷ back ∷ [])
    ≡ some (record {
      media = session [] (ready_after false (media_all parsers (report ∷ picture ∷ [])));
      dialogue = (send_describe (λ bytes. bytes) played).0;
      events = signals false (media_all parsers (report ∷ picture ∷ []));
      requests = (send_describe (λ bytes. bytes) played).1 ∷ [];
    })
unfolding write_big_endian on_text text_eq atoi
on_message-text_example =
    on_message-text split (λ bytes. bytes) split parsers false [] (front ∷ back ∷ [])
      (report ∷ picture ∷ []) options_answer played (send_describe (λ bytes. bytes) played).0
      ((send_describe (λ bytes. bytes) played).1 ∷ [])
      ((omega arith, (omega arith, tt)), omega arith) refl (report-IsFrame, (picture-IsFrame, tt))
      refl
