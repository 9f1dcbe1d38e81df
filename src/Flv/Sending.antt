-- ===== src/Flv/Sending.antt =====
-- Video frames: what is sent for them, and what a reader of it is shown.
use clibmedia_transfer_proto.Common.{
  ℕ, ◌%◌, ◌^◌, ◌≡◌, inl, inr, refl, sym, subst, if_of_true, if_of_false, true, false, some, List,
  [], ◌∷◌, ◌>>=◌, arith, Bool-cases,
}
use clibmedia_transfer_proto.ByteIo.{Bytes}
use clibmedia_transfer_proto.Flv.{
  FlvContext, Sent, NaluType, sps, pps, idr, slice, other, elapsed, send_typed, send_idr,
  send_config, write_config_packet,
}
use clibmedia_transfer_proto.Flv.Reader.{Shown, config}
use clibmedia_transfer_proto.Flv.Tags.{idle}
use clibmedia_transfer_proto.Flv.Config.{read_body-config}
use clibmedia_transfer_proto.Flv.Muxer.{
  shows, show_picture, HasSets, FitsUnit, Sends, Sends-and_then, tag-Sends, idr-Sends,
  send_slice-Sends,
}

started : ℕ → FlvContext → FlvContext
started timestamp c = record c { send_sps = true; start_timestamp = timestamp }

-- The configuration is sent if it was not.
write_config_packet-Sends :
    (c : FlvContext) → HasSets c → Sends (write_config_packet (idle c)) (c, config c.sps c.pps ∷ [])
unfolding write_config_packet
write_config_packet-Sends c (long, s, p) =
    let (extra, e, size, reads) = read_body-config c.sps c.pps (0 % 2 ^ 32) long s p in
    rw (e, ◌>>=◌)
      (tag-Sends (0x17 ∷ 0 ∷ 0 ∷ 0 ∷ 0 ∷ extra) 0 c (config c.sps c.pps) (omega (arith, size))
        reads)

pub Sends-eq :
    {sent sent' : Sent} {r r' : FlvContext × List Shown}
    → sent ≡ sent'
    → r ≡ r'
    → Sends sent' r'
    → Sends sent r
Sends-eq {sent} {sent'} {r} {r'} e e' h =
    subst (λ t. Sends t r) (sym e) (subst (λ t. Sends sent' t) (sym e') h)

send_config-Sends :
    (timestamp : ℕ) (c : FlvContext)
    → HasSets c
    → c.send_sps ≡ false
    → Sends (send_config timestamp (idle c)) (started timestamp c, config c.sps c.pps ∷ [])
unfolding send_config started
send_config-Sends timestamp c sets e =
    Sends-eq {r = (started timestamp c, config c.sps c.pps ∷ [])} (if_of_false c.send_sps _ _ e)
      refl
      (Sends-and_then (write_config_packet (idle (record c { send_sps = true })))
        (record c { send_sps = true }) (started timestamp c)
        (λ c'. some (record c' { start_timestamp = timestamp }, [])) (config c.sps c.pps ∷ []) []
        (write_config_packet-Sends (record c { send_sps = true }) sets) ([], refl, tt))

send_idr-Sends :
    (timestamp : ℕ) (nal : Bytes) (c : FlvContext)
    → FitsUnit idr nal c
    → Sends (send_idr timestamp nal (idle c)) (shows idr timestamp nal c)
unfolding send_idr elapsed shows started
send_idr-Sends timestamp nal c fits = elim (Bool-cases c.send_sps) [
  | inl e ↦ Sends-eq refl (if_of_true c.send_sps _ _ e) (
      Sends-and_then (send_config timestamp (idle c)) c c _ [] (show_picture timestamp nal c ∷ [])
        ([], unfold send_config in if_of_true c.send_sps _ _ e, tt)
        (idr-Sends timestamp nal c fits))
  | inr e ↦
      let c' : FlvContext = record c { send_sps = true; start_timestamp = timestamp } in
      Sends-eq refl (if_of_false c.send_sps _ _ e) (
        Sends-and_then (send_config timestamp (idle c)) c' c' _ (config c.sps c.pps ∷ [])
          (show_picture timestamp nal c' ∷ []) (send_config-Sends timestamp c fits.0 e)
          (idr-Sends timestamp nal c' fits))
]

-- A unit is sent as what it means to show.
pub send_typed-Sends :
    (t : NaluType) (timestamp : ℕ) (nal : Bytes) (c : FlvContext)
    → FitsUnit t nal c
    → Sends (send_typed t timestamp (some nal) (idle c)) (shows t timestamp nal c)
unfolding send_typed shows
send_typed-Sends sps timestamp nal c fits = ([], refl, tt)
send_typed-Sends pps timestamp nal c fits = ([], refl, tt)
send_typed-Sends idr timestamp nal c fits = send_idr-Sends timestamp nal c fits
send_typed-Sends slice timestamp nal c fits = elim (Bool-cases c.send_sps) [
  | inl e ↦
      Sends-eq (if_of_true c.send_sps _ _ e) (if_of_true c.send_sps _ _ e)
        (send_slice-Sends timestamp nal c fits)
  | inr e ↦ Sends-eq (if_of_false c.send_sps _ _ e) (if_of_false c.send_sps _ _ e) ([], refl, tt)
]
send_typed-Sends other timestamp nal c fits = ([], refl, tt)
