-- ===== src/Mpeg/Termination.antt =====
-- `parse` on any data: its loop ends, and what it has collected stays within its buffer.
use clibmedia_transfer_proto.Common.{
  ℕ, zero, suc, ◌+◌, ◌≤◌, ◌<◌, ◌≡◌, inl, inr, refl, Option, none, some, List, [], ◌∷◌, ◌++◌, ◌==◌,
  ltb, if◌then◌else◌, ◌>>=◌, arith, length, take, drop, get_elem?, length-append, length-drop,
  Bool-cases,
}
use clibmedia_transfer_proto.Common.Int.{ℤ, pos, negsuc, sub_ℕ}
use clibmedia_transfer_proto.ByteIo.{Bytes, read_big_endian}
use clibmedia_transfer_proto.Mpeg.{
  MpegDecoder, Event, Round, next, stop, flush_frame, read_pts, copy_payload, append_stream,
  video_payload, video_packet, audio_packet, pack_header, skipped_packet, dispatch, round,
  parse_loop, Parsing, returns, fault, running, byte_stream_capacity, loop_from, parse,
  continue_payload, payload_size,
}

-- What is collected is within the buffer.
abbrev pub Fits : MpegDecoder → Type 0
Fits d = length d.byte_stream ≤ byte_stream_capacity

abbrev FitsRound : Bytes → Option Round → Type 0
FitsRound ps none = Unit {0}
FitsRound ps (some (stop status d events)) = Fits d
FitsRound ps (some (next ps' d events)) = (length ps' < length ps) × Fits d

-- A parse that ends by itself, and leaves a decoder as it should be.
abbrev pub Ends : Parsing → Type 0
Ends (returns status d events) = Fits d
Ends fault = Unit {0}
Ends running = ⊥

FitsRound-bind {ℓ} :
    {A : Type ℓ} (ps : Bytes) (m : Option A) (f : A → Option Round)
    → ((a : A) → m ≡ some a → FitsRound ps (f a))
    → FitsRound ps (m >>= f)
FitsRound-bind ps none f h = tt
FitsRound-bind ps (some a) f h = h a refl

append_stream-Fits :
    (bytes : Bytes) (d d' : MpegDecoder) → append_stream bytes d ≡ some d' → Fits d'
unfolding append_stream
append_stream-Fits bytes d d' e = ground (arith, length-append d.byte_stream bytes)

shorter : (k : ℕ) (ps : Bytes) → 0 < k → 0 < length ps → length (drop k ps) < length ps
shorter k ps h h' = omega (arith, length-drop k ps)

copy_payload-Fits :
    (pse_length stuffing_length : ℕ) (payload after ps : Bytes) (events : List Event)
    (d : MpegDecoder)
    → length after < length ps
    → FitsRound ps (copy_payload pse_length stuffing_length payload after events d)
unfolding copy_payload append_stream
copy_payload-Fits pse_length stuffing_length payload after ps events d less = ground (
  arith,
  length-append d.byte_stream payload,
  length-append d.byte_stream (take (payload_size pse_length stuffing_length) payload),
)

module _ (ps : Bytes) (d : MpegDecoder) (some_left : 0 < length ps) (fits : Fits d) where
  skipped_packet-Fits : FitsRound ps (skipped_packet ps d)
  unfolding skipped_packet
  skipped_packet-Fits = grind (arith, length-drop)

  video_payload-Fits :
      (pse_length flags stuffing_length : ℕ)
      → FitsRound ps (video_payload pse_length flags stuffing_length ps d)
  unfolding video_payload
  video_payload-Fits pse_length flags stuffing_length =
      elim (Bool-cases (ltb (length ps) (9 + stuffing_length))) [
        | inl e ↦ rw (video_payload, e) tt
        | inr e ↦
            rw (video_payload, e)
              (FitsRound-bind ps (flush_frame payload d)
                (λ flushed. read_pts flags ps flushed.0 >>= copied flushed.1)
                (λ flushed _.
                  FitsRound-bind ps (read_pts flags ps flushed.0) (copied flushed.1) (λ d' _.
                    copy_payload-Fits pse_length stuffing_length payload (drop (6 + pse_length) ps)
                      ps flushed.1 d' (shorter (6 + pse_length) ps (omega arith) some_left))))
      ]
    where
      payload : Bytes
      payload = drop (9 + stuffing_length) ps

      copied : List Event → MpegDecoder → Option Round
      copied events =
          copy_payload pse_length stuffing_length payload (drop (6 + pse_length) ps) events

  abbrev sized : ℕ → ℕ → ℕ → Option Round
  sized pse_length flags stuffing_length =
      if payload_size pse_length stuffing_length == 0
      then some (next (drop (6 + pse_length) ps) d [])
      else video_payload pse_length flags stuffing_length ps d

  sized-Fits :
      (pse_length flags stuffing_length : ℕ) → FitsRound ps (sized pse_length flags stuffing_length)
  sized-Fits pse_length flags stuffing_length =
      ground (
        arith,
        length-drop (6 + pse_length) ps,
        video_payload-Fits pse_length flags stuffing_length,
      )

  video_packet-Fits : FitsRound ps (video_packet ps d)
  unfolding video_packet
  video_packet-Fits = elim (Bool-cases (ltb (length ps) 9)) [
    | inl e ↦ rw (video_packet, e) fits
    | inr e ↦
        rw (video_packet, e)
          (FitsRound-bind ps (read_big_endian 2 (drop 4 ps))
            (λ l. get_elem? ps 7 >>= λ flags. get_elem? ps 8 >>= sized l flags)
            (λ l _.
              FitsRound-bind ps (get_elem? ps 7) (λ flags. get_elem? ps 8 >>= sized l flags)
                (λ flags _.
                  FitsRound-bind ps (get_elem? ps 8) (sized l flags)
                    (λ stuffing_length _. sized-Fits l flags stuffing_length))))
  ]

  audio_packet-Fits : FitsRound ps (audio_packet ps d)
  unfolding audio_packet
  audio_packet-Fits = grind (arith, length-drop)

  pack_header-Fits : FitsRound ps (pack_header ps d)
  unfolding pack_header
  pack_header-Fits = grind (arith, length-drop)

  dispatch-Fits : (stream_id : ℕ) → FitsRound ps (dispatch stream_id ps d)
  unfolding dispatch
  dispatch-Fits stream_id =
      ground (arith, pack_header-Fits, skipped_packet-Fits, video_packet-Fits, audio_packet-Fits)

-- A round goes on with less data, if it goes on.
round-Fits : (ps : Bytes) (d : MpegDecoder) → Fits d → FitsRound ps (round ps d)
unfolding round
round-Fits (a ∷ b ∷ c ∷ stream_id ∷ rest) d fits =
    ground (arith, dispatch-Fits (a ∷ b ∷ c ∷ stream_id ∷ rest) d (omega arith) fits stream_id)
round-Fits [] d fits = tt
round-Fits (a ∷ []) d fits = tt
round-Fits (a ∷ b ∷ []) d fits = tt
round-Fits (a ∷ b ∷ c ∷ []) d fits = tt

next-Ends :
    (fuel : ℕ) (ps : Bytes) (events : List Event)
    → ((ps' : Bytes) (d' : MpegDecoder) (more : List Event)
        → length ps' < length ps
        → Fits d'
        → Ends (parse_loop fuel ps' d' (events ++ more)))
    → (r : Option Round) → FitsRound ps r
    → Ends (elim r [
      | none ↦ fault
      | some (stop status d' more) ↦ returns status d' (events ++ more)
      | some (next ps' d' more) ↦ parse_loop fuel ps' d' (events ++ more)
    ])
next-Ends fuel ps events go none ok = tt
next-Ends fuel ps events go (some (stop status d' more)) ok = ok
next-Ends fuel ps events go (some (next ps' d' more)) (less, ok) = go ps' d' more less ok

parse_loop-Ends :
    (fuel : ℕ) (ps : Bytes) (d : MpegDecoder) (events : List Event)
    → length ps < fuel
    → Fits d
    → Ends (parse_loop fuel ps d events)
unfolding parse_loop
parse_loop-Ends zero ps d events enough fits = absurd (omega arith)
parse_loop-Ends (suc fuel) ps d events enough fits = elim (Bool-cases (ltb 4 (length ps))) [
  | inl e ↦
      rw (parse_loop, e)
        (next-Ends fuel ps events
          (λ ps' d' more less ok. parse_loop-Ends fuel ps' d' (events ++ more) (omega arith) ok)
          (round ps d) (round-Fits ps d fits))
  | inr e ↦ rw (parse_loop, e) fits
]

continue_payload-Ends :
    (missing : ℕ) (data' : Bytes) (d : MpegDecoder) → Ends (continue_payload missing data' d)
unfolding continue_payload
continue_payload-Ends missing data' d = elim (Bool-cases (ltb (length data') missing)) [
  | inl e ↦ rw (continue_payload, e) (waits (append_stream data' d) (append_stream-Fits data' d))
  | inr e ↦
      rw (continue_payload, e)
        (goes_on_with (append_stream (take missing data') d)
          (append_stream-Fits (take missing data') d))
]
  where
    waits :
        (m : Option MpegDecoder)
        → ((d' : MpegDecoder) → m ≡ some d' → Fits d')
        → Ends (elim m [
          | none ↦ fault
          | some d' ↦ returns (pos 0) (record d' { read_byte = sub_ℕ missing (length data') }) []
        ])
    waits none h = tt
    waits (some d') h = h d' refl

    goes_on_with :
        (m : Option MpegDecoder)
        → ((d' : MpegDecoder) → m ≡ some d' → Fits d')
        → Ends (elim m [
          | none ↦ fault
          | some d' ↦ loop_from (drop missing data') (record d' { read_byte = pos 0 })
        ])
    goes_on_with none h = tt
    goes_on_with (some d') h = parse_loop-Ends _ _ _ [] (omega arith) (h d' refl)

-- From a decoder whose frame is within its buffer, `parse` ends on any data: it returns such a decoder,
-- or stops at a read or a copy outside the data or the buffer.
pub parse-Ends : (d : MpegDecoder) (data' : Bytes) → Fits d → Ends (parse d data')
unfolding parse
parse-Ends d data' fits = by_missing d.read_byte
  where
    by_missing :
        (r : ℤ)
        → Ends (elim r [
          | pos zero ↦ loop_from data' d
          | pos (suc n) ↦ continue_payload (suc n) data' d
          | negsuc n ↦ loop_from data' d
        ])
    by_missing (pos zero) = parse_loop-Ends _ data' d [] (omega arith) fits
    by_missing (pos (suc n)) = continue_payload-Ends (suc n) data' d
    by_missing (negsuc n) = parse_loop-Ends _ data' d [] (omega arith) fits
