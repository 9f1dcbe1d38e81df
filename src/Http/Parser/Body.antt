-- ===== src/Http/Parser/Body.antt =====
-- A body of known length, however it is cut into segments.
use clibmedia_transfer_proto.Common.{
  ◌>>=◌, ℕ, ◌+◌, ◌-◌, ◌^◌, ◌≤◌, ◌<◌, ◌≡◌, ◌⊎◌, refl, ap, subst, ◌∙◌, Option, none, some, List, [],
  ◌∷◌, ◌++◌, min, inl, inr, arith, length, take, drop, take-all, drop-min-length, length-append,
  append-nil, append_assoc, if◌then◌else◌, All,
}
use clibmedia_transfer_proto.Common.Int.{pos, is_zero, sub_nat}
use clibmedia_transfer_proto.ByteIo.{Bytes}
use clibmedia_transfer_proto.Http.MsgBuffer.{MsgBuffer, readable_bytes, readable, retrieve}
use clibmedia_transfer_proto.Http.MsgBuffer.View.{IsValid, length-readable}
use clibmedia_transfer_proto.Http.MsgBuffer.Retrieve.{retrieve-readable}
use clibmedia_transfer_proto.Http.Packet.{Packet, payload}
use clibmedia_transfer_proto.Http.Parser.{
  HttpParser, Parsed, expect_normal_body, expect_http_complete, parse_normal_body, current_packet,
  returns_state,
}
use clibmedia_transfer_proto.Http.Parser.Filling.{
  IsFilling, new_packet-IsFilling, fill_packet-IsFilling, payload-IsFilling,
}
use clibmedia_transfer_proto.Http.Parser.Dispatch.{parse, dispatch, refresh-open, parse-dispatch}

-- The packet that the bytes `done` of a body of `cap` bytes are in, if there are any.
abbrev pub Holds : Option Packet → Bytes → ℕ → Type 0
Holds o done cap = ((o ≡ none) × (done ≡ [])) ⊎ ((c : Packet) × (o ≡ some c) × IsFilling c done cap)

-- `left` bytes of the body are still to come behind `done`.
pub record IsBody (p : HttpParser) (done : Bytes) (left : ℕ) : Type 0 where
  pub state : p.state ≡ expect_normal_body
  pub length' : p.current_content_length ≡ pos left
  pub more : 0 < left
  pub small : length done + left < 2 ^ 31
  pub packet : Holds p.chunk done (length done + left)

pub record IsComplete (p : HttpParser) (body : Bytes) : Type 0 where
  pub state : p.state ≡ expect_http_complete
  pub packet : Packet
  pub chunk : p.chunk ≡ some packet
  pub holds : payload packet ≡ some body

current_packet-Holds :
    (o : Option Packet) (done : Bytes) (left : ℕ)
    → length done + left < 2 ^ 31
    → Holds o done (length done + left)
    → (c : Packet) × (current_packet o (pos left) ≡ some c) × IsFilling c done (length done + left)
current_packet-Holds o done left small (inl (e, d)) =
    let (c, e', f) = new_packet-IsFilling left (omega arith) in
    let grow : left ≡ 0 + left = omega arith in rw (e, d) (c, e', subst (IsFilling c []) grow f)
current_packet-Holds o done left small (inr (c, e, f)) = rw e (c, refl, f)

-- The parser after `size` bytes went into the packet `c`.
abbrev advanced : HttpParser → Packet → ℕ → ℕ → HttpParser
advanced p c left size = record p {
  chunk = some c;
  current_content_length = sub_nat (pos left) size;
  state = if is_zero (sub_nat (pos left) size) then expect_http_complete else p.state;
}

parse_normal_body-step :
    (p : HttpParser) (buf : MsgBuffer) (done : Bytes) (left : ℕ)
    → IsValid buf
    → length (readable buf) < 2 ^ 31
    → IsBody p done left
    → let n = min (length (readable buf)) left in
      (c : Packet) × (parse_normal_body p buf ≡ some (advanced p c left n, retrieve buf n))
      × IsFilling c (done ++ take n (readable buf)) (length done + left)
unfolding parse_normal_body
parse_normal_body-step p buf done left v few b =
    let (c, e, f) = current_packet-Holds p.chunk done left b.small b.packet in
    let (c', e', f') = fill_packet-IsFilling buf v few f in
    let same : length done + left - length done ≡ left = omega arith in
    (c', rw (b.length', e, e', same, parse_normal_body), rw same at f')

-- While the body is expected, `Parse` on a buffer that is not empty is `ParseNormalBody`.
parse-expect_normal_body :
    (split : ℕ → Bytes → List Bytes) (p : HttpParser) (buf : MsgBuffer)
    → p.state ≡ expect_normal_body
    → 0 < readable_bytes buf
    → parse split p buf ≡ (parse_normal_body p buf >>= returns_state)
parse-expect_normal_body split p buf e h =
    parse-dispatch split p buf h
    ∙ rw (refresh-open p (λ e'. cc) (λ e'. cc), e) (unfold dispatch in refl)

-- What a segment `bs` makes of a body of which `left` bytes are missing behind `done`.
abbrev pub Progress : HttpParser → Bytes → ℕ → Bytes → Type 0
Progress q done left bs =
    (length bs < left → IsBody q (done ++ bs) (left - length bs))
    × (left ≤ length bs → IsComplete q (done ++ take left bs))

advanced-Progress :
    (p : HttpParser) (c : Packet) (done : Bytes) (left : ℕ) (bs : Bytes)
    → IsBody p done left
    → IsFilling c (done ++ take (min (length bs) left) bs) (length done + left)
    → Progress (advanced p c left (min (length bs) left)) done left bs
advanced-Progress p c done left bs b f = (unfinished, finished)
  where
    unfinished :
        length bs < left
        → IsBody (advanced p c left (min (length bs) left)) (done ++ bs) (left - length bs)
    unfinished h =
        let n_eq : min (length bs) left ≡ length bs = omega arith in
        let grown = length-append done bs in
        let cap_eq : length (done ++ bs) + (left - length bs) ≡ length done + left = omega arith in
        rw n_eq (record {
          state = ground (arith, b.state);
          length' = ground arith;
          more = omega arith;
          small = omega (arith, b.small);
          packet = inr (c, refl, rw (cap_eq, ← take-all (length bs) bs (omega arith), ← n_eq) f);
        })

    finished :
        left ≤ length bs
        → IsComplete (advanced p c left (min (length bs) left)) (done ++ take left bs)
    finished h =
        let n_eq : min (length bs) left ≡ left = omega arith in
        rw n_eq (record {
          state = ground arith;
          packet = c;
          chunk = refl;
          holds = payload-IsFilling f b.small ∙ ap (λ n. some (done ++ take n bs)) n_eq;
        })

-- A segment goes into the body as far as the body reaches, and is taken off the buffer so far.
parse-IsBody :
    (split : ℕ → Bytes → List Bytes) (p : HttpParser) (buf : MsgBuffer) (done : Bytes) (left : ℕ)
    → IsValid buf
    → 0 < length (readable buf)
    → length (readable buf) < 2 ^ 31
    → IsBody p done left
    → (r : Parsed) × (parse split p buf ≡ some r)
      × IsValid r.buf
      × (readable r.buf ≡ drop left (readable buf))
      × (r.result ≡ r.parser.state)
      × Progress r.parser done left (readable buf)
parse-IsBody split p buf done left v h few b =
    let bs = readable buf in
    let (c, e, f) = parse_normal_body-step p buf done left v few b in
    let (v', s) = retrieve-readable buf (min (length bs) left) v in
    (
      record {
        parser = advanced p c left (min (length bs) left);
        buf = retrieve buf (min (length bs) left);
        result = (advanced p c left (min (length bs) left)).state;
      },
      parse-expect_normal_body split p buf b.state (omega (arith, length-readable buf v))
          ∙ rw e refl,
      v',
      s ∙ drop-min-length left bs,
      refl,
      advanced-Progress p c done left bs b f,
    )

-- The segments of a connection, each in a buffer of its own.
unfoldable pub parse_segments :
    (ℕ → Bytes → List Bytes) → HttpParser → List MsgBuffer → Option HttpParser
parse_segments split p [] = some p
parse_segments split p (buf ∷ bufs) = do r ← parse split p buf; parse_segments split r.parser bufs

abbrev pub IsSegment : MsgBuffer → Type 0
IsSegment buf = IsValid buf × (0 < length (readable buf))

abbrev pub all_readable : List MsgBuffer → Bytes
all_readable [] = []
all_readable (buf ∷ bufs) = readable buf ++ all_readable bufs

segments-IsBody :
    (split : ℕ → Bytes → List Bytes) (bufs : List MsgBuffer) (p : HttpParser) (done : Bytes)
    (left : ℕ)
    → IsBody p done left
    → All IsSegment bufs
    → length (all_readable bufs) ≡ left
    → (q : HttpParser) × (parse_segments split p bufs ≡ some q)
      × IsComplete q (done ++ all_readable bufs)
unfolding parse_segments
segments-IsBody split [] p done left b a e = absurd (omega (arith, b.more))
segments-IsBody split (buf ∷ []) p done left b a e =
    let few : length (readable buf) < 2 ^ 31 =
      omega (arith, e, b.small, length-append (readable buf) []) in
    let (r, parsed, _, _, _, (unfinished, finished)) =
      parse-IsBody split p buf done left a.0.0 a.0.1 few b in
    let here : length (readable buf) ≡ left = omega (arith, length-append (readable buf) []) in
    (
      r.parser,
      rw parsed refl,
      rw (append-nil (readable buf), ← take-all left (readable buf) (omega arith))
          (finished (omega arith)),
    )
segments-IsBody split (buf ∷ next ∷ bufs) p done left b a e =
    let few : length (readable buf) < 2 ^ 31 =
      omega (arith, e, b.small, length-append (readable buf) (all_readable (next ∷ bufs))) in
    let (r, parsed, _, _, _, (unfinished, finished)) =
      parse-IsBody split p buf done left a.0.0 a.0.1 few b in
    let sizes = length-append (readable buf) (all_readable (next ∷ bufs)) in
    let sizes' = length-append (readable next) (all_readable bufs) in
    let (q, rest, complete) =
      segments-IsBody split (next ∷ bufs) r.parser (done ++ readable buf)
        (left - length (readable buf)) (unfinished (omega (arith, a.1.0.1))) a.1 (omega arith) in
    (
      q,
      rw parsed rest,
      rw (append_assoc done (readable buf) (all_readable (next ∷ bufs))) at complete,
    )

-- The parser in front of a body of `n` bytes, as `ParseHeaders` leaves it.
abbrev pub expects_body : HttpParser → ℕ → HttpParser
expects_body p n = record p {
  state = expect_normal_body;
  current_content_length = pos n;
  chunk = none;
}

-- A body of known length, up to the largest int32_t, is put together from any segments that it may
-- arrive in: once they make up its length, the parser is complete, and its packet holds the body.
pub parse_segments-body :
    (split : ℕ → Bytes → List Bytes) (p : HttpParser) (n : ℕ) (bufs : List MsgBuffer)
    → 0 < n
    → n < 2 ^ 31
    → All IsSegment bufs
    → length (all_readable bufs) ≡ n
    → (q : HttpParser) × (parse_segments split (expects_body p n) bufs ≡ some q)
      × IsComplete q (all_readable bufs)
parse_segments-body split p n bufs pos' small a e =
    segments-IsBody split bufs (expects_body p n) [] n start a e
  where
    start : IsBody (expects_body p n) [] n
    start = record {
      state = refl;
      length' = refl;
      more = pos';
      small = omega arith;
      packet = inl (refl, refl);
    }
