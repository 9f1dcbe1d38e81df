-- ===== src/Flv/Order.antt =====
-- The order of what a player is shown.
use clibmedia_transfer_proto.Common.{
  ℕ, suc, ◌≡◌, refl, sym, Bool, true, false, List, [], ◌∷◌, ◌++◌, length, concat, some, All, subst,
  append_assoc, if◌then◌else◌,
}
use clibmedia_transfer_proto.ByteIo.{Bytes}
use clibmedia_transfer_proto.Flv.{FlvContext, NaluType, sps, pps, idr, slice, other}
use clibmedia_transfer_proto.Flv.Reader.{Shown, config, picture, read_stream}
use clibmedia_transfer_proto.Flv.Tags.{idle}
use clibmedia_transfer_proto.Flv.Muxer.{shows}
use clibmedia_transfer_proto.Flv.Playback.{
  NalUnit, Picture, shows_all, shows_video, send_video, IsVideo, send_video-read_stream,
}

abbrev pub IsPicture : Shown → Type 0
IsPicture (config s p) = ⊥
IsPicture (picture key time composition_time units) = Unit {0}

-- Nothing, or the configuration, a whole picture and then pictures.
abbrev pub Ordered : List Shown → Type 0
Ordered [] = Unit {0}
Ordered (config s p ∷ picture true time composition_time units ∷ rest) = All IsPicture rest
Ordered shown = ⊥

-- By whether the configuration has been shown: what may be shown from here on.
abbrev Follows : Bool → List Shown → Type 0
Follows true shown = All IsPicture shown
Follows false shown = Ordered shown

-- What is shown on the way from one state to another, and that what follows it may.
abbrev Advances : Bool → Bool → List Shown → Type 0
Advances b b' shown =
    Follows b shown × ((more : List Shown) → Follows b' more → Follows b (shown ++ more))

stays : (b : Bool) → Advances b b []
stays true = (tt, λ more h. h)
stays false = (tt, λ more h. h)

shows_one :
    (b key : Bool) (time composition_time : ℕ) (units : List Bytes)
    → b ≡ true
    → Advances b b (picture key time composition_time units ∷ [])
shows_one true key time composition_time units e = ((tt, tt), λ more h. (tt, h))
shows_one false key time composition_time units e = cc

configures :
    (b : Bool) (s p : Bytes) (time composition_time : ℕ) (units : List Bytes)
    → b ≡ false
    → Advances b true (config s p ∷ picture true time composition_time units ∷ [])
configures true s p time composition_time units e = cc
configures false s p time composition_time units e = (tt, λ more h. h)

chooses :
    (b : Bool) (b0 : Bool) (x y : FlvContext × List Shown)
    → (b ≡ true → Advances b0 x.0.send_sps x.1)
    → (b ≡ false → Advances b0 y.0.send_sps y.1)
    → Advances b0 (if b then x else y).0.send_sps (if b then x else y).1
chooses true b0 x y h k = h refl
chooses false b0 x y h k = k refl

shows-Advances :
    (t : NaluType) (timestamp : ℕ) (nal : Bytes) (c : FlvContext)
    → Advances c.send_sps (shows t timestamp nal c).0.send_sps (shows t timestamp nal c).1
unfolding shows
shows-Advances sps timestamp nal c = stays c.send_sps
shows-Advances pps timestamp nal c = stays c.send_sps
shows-Advances idr timestamp nal c =
    chooses c.send_sps c.send_sps _ _ (shows_one c.send_sps true _ _ _)
      (configures c.send_sps c.sps c.pps _ _ _)
shows-Advances slice timestamp nal c =
    chooses c.send_sps c.send_sps _ _ (shows_one c.send_sps false _ _ _) (λ e. stays c.send_sps)
shows-Advances other timestamp nal c = stays c.send_sps

follow :
    (b b' b'' : Bool) (shown more : List Shown)
    → Advances b b' shown
    → Advances b' b'' more
    → Advances b b'' (shown ++ more)
follow b b' b'' shown more (h, k) (h', k') = (
  k more h',
  λ rest r. subst (Follows b) (sym (append_assoc shown more rest)) (k (more ++ rest) (k' rest r)),
)

shows_all-Advances :
    (timestamp : ℕ) (c : FlvContext) (units : List NalUnit)
    → Advances c.send_sps (shows_all timestamp c units).0.send_sps (shows_all timestamp c units).1
unfolding shows_all
shows_all-Advances timestamp c [] = stays c.send_sps
shows_all-Advances timestamp c ((t, nal) ∷ units) =
    let (c', shown) = shows t timestamp nal c in
    follow c.send_sps c'.send_sps _ shown _ (shows-Advances t timestamp nal c)
      (shows_all-Advances timestamp c' units)

shows_video-Advances :
    (c : FlvContext) (video : List Picture)
    → Advances c.send_sps (shows_video c video).0.send_sps (shows_video c video).1
unfolding shows_video
shows_video-Advances c [] = stays c.send_sps
shows_video-Advances c (p ∷ ps) =
    let (c', shown) = shows_all p.timestamp c p.units in
    follow c.send_sps c'.send_sps _ shown _ (shows_all-Advances p.timestamp c p.units)
      (shows_video-Advances c' ps)

-- From a context that has sent no configuration, a reader of what is sent for frames that fit is shown
-- nothing at all, or the configuration, then a whole picture, and then pictures only.
pub send_video-Ordered :
    (find_nalu_indices : Bytes → List (ℕ × ℕ)) (c : FlvContext) (video : List Picture)
    → IsVideo find_nalu_indices c video
    → c.send_sps ≡ false
    → (messages : List Bytes) × (shown : List Shown) × (send_video find_nalu_indices (idle c) video
        ≡ some (idle (shows_video c video).0, messages))
      × (read_stream (suc (length messages)) (concat messages) ≡ some shown)
      × Ordered shown
send_video-Ordered find_nalu_indices c video v e =
    let (messages, sent, read) = send_video-read_stream find_nalu_indices c video v in
    (
      messages,
      (shows_video c video).1,
      sent,
      read,
      subst (λ b. Follows b (shows_video c video).1) e (shows_video-Advances c video).0,
    )
