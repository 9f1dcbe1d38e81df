-- ===== src/RtcSdp/Numbers.antt =====
-- The numbers of payload types, printed by `Encode` and read by `Decode`.
use clibmedia_transfer_proto.Common.{
  ℕ, ◌≡◌, ◌<◌, refl, sym, ap, ◌∙◌, Bool, true, false, [], ◌∷◌, ==_iff, ◌==◌, ◌&&◌, if◌then◌else◌,
  Bool-cases, inl, inr,
}
use clibmedia_transfer_proto.Common.Table.{holds_below, holds_below-at}
use clibmedia_transfer_proto.Common.Int.{ℤ, pos, negsuc}
use clibmedia_transfer_proto.ByteIo.{Bytes}
use clibmedia_transfer_proto.Http.Text.{atoi}
use clibmedia_transfer_proto.Http.Message.{decimal}
use clibmedia_transfer_proto.RtcSdp.Prefixes.{Without}

lacks : ℕ → Bytes → Bool
lacks sep [] = true
lacks sep (c ∷ cs) = if c == sep then false else lacks sep cs

lacks-Without : (sep : ℕ) (cs : Bytes) → lacks sep cs ≡ true → Without sep cs
unfolding lacks
lacks-Without sep [] e = tt
lacks-Without sep (c ∷ cs) e = elim (Bool-cases (c == sep)) [
  | inl h ↦ cc (e, ap (λ t. if t then false else lacks sep cs) h)
  | inr h ↦ (h, lacks-Without sep cs (sym (ap (λ t. if t then false else lacks sep cs) h) ∙ e))
]

is_pos : ℕ → ℤ → Bool
is_pos n (pos m) = m == n
is_pos n (negsuc m) = false

is_pos-eq : (n : ℕ) (z : ℤ) → is_pos n z ≡ true → z ≡ pos n
unfolding is_pos
is_pos-eq n (pos m) e = ap pos ((==_iff m n).0 e)
is_pos-eq n (negsuc m) e = cc

reads_back : ℕ → Bool
unfolding lacks is_pos
reads_back n = lacks b' ' (decimal n) && is_pos n (atoi (decimal n))

payload_types : holds_below reads_back 128 ≡ true
unfolding holds_below reads_back decimal atoi
payload_types = refl

and_parts : (a b : Bool) → (a && b) ≡ true → (a ≡ true) × (b ≡ true)
and_parts true b e = (refl, e)
and_parts false b e = cc

pub payload_type-reads_back :
    (n : ℕ) → n < 128 → Without b' ' (decimal n) × (atoi (decimal n) ≡ pos n)
unfolding reads_back
payload_type-reads_back n h =
    let (a, b) =
      and_parts (lacks b' ' (decimal n)) (is_pos n (atoi (decimal n)))
        (holds_below-at reads_back 128 n payload_types h) in
    (lacks-Without b' ' (decimal n) a, is_pos-eq n (atoi (decimal n)) b)
