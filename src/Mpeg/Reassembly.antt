-- ===== src/Mpeg/Reassembly.antt =====
-- A program stream that arrives in pieces, whose packets of video may be cut in their payloads.
use clibmedia_transfer_proto.Common.{ℕ, ◌≤◌, ◌<◌, List, [], ◌∷◌, ◌++◌, length}
use clibmedia_transfer_proto.Common.Int.{pos}
use clibmedia_transfer_proto.ByteIo.{Bytes}
use clibmedia_transfer_proto.Mpeg.{MpegDecoder, Event, Parsing, returns, fault, running, parse}
use clibmedia_transfer_proto.Mpeg.Packets.{PsPacket, video, pes_front, written_all}

then_parses : List Event → Parsing → Parsing
then_parses events (returns status d more) = returns status d (events ++ more)
then_parses events fault = fault
then_parses events running = running

-- One `parse` for each piece.
unfoldable pub parse_all : MpegDecoder → List Bytes → Parsing
unfolding then_parses
parse_all d [] = returns (pos 0) d []
parse_all d (piece ∷ pieces) = elim (parse d piece) [
  | returns status d' events ↦ then_parses events (parse_all d' pieces)
  | fault ↦ fault
  | running ↦ running
]

-- The pieces of a stream of packets, where `missing` is what is still to come of a payload. No piece
-- ends before the first four bytes of a payload of video, or in a packet that is none of video.
pub data Pieces : Bytes → List PsPacket → List Bytes → Type 0 where
  finished : Pieces [] [] []
  inside :
      (seg missing : Bytes) (ps : List PsPacket) (pieces : List Bytes)
      → 0 < length missing
      → Pieces missing ps pieces
      → Pieces (seg ++ missing) ps (seg ∷ pieces)
  whole :
      (missing : Bytes) (qs ps : List PsPacket) (pieces : List Bytes)
      → Pieces [] ps pieces
      → Pieces missing (qs ++ ps) ((missing ++ (written_all qs ++ [])) ∷ pieces)
  cut :
      (missing : Bytes) (qs : List PsPacket) (mark flags : ℕ) (header seg later : Bytes)
      (ps : List PsPacket) (pieces : List Bytes)
      → 4 ≤ length seg
      → 0 < length later
      → Pieces later ps pieces
      → Pieces missing (qs ++ (video mark flags header (seg ++ later) ∷ ps)) (
          (missing
            ++ (written_all qs
                ++ (pes_front 0xE0 mark flags header (length (seg ++ later)) ++ seg)))
          ∷ pieces)
