-- ===== src/Rtsp/Addresses.antt =====
-- The address that `Play` takes from a URL.
use clibmedia_transfer_proto.Common.{
  ℕ, ◌≡◌, refl, sym, ap, subst, ◌∙◌, Bool, true, false, inl, inr, Bool-cases, Option-cases, Option,
  none, some, List, [], ◌∷◌, ◌++◌, ◌==◌, ==_iff, ltb, All, length, if◌then◌else◌,
}
use clibmedia_transfer_proto.ByteIo.{Bytes}
use clibmedia_transfer_proto.RtcSdp.Prefixes.{Without}
use clibmedia_transfer_proto.Rtsp.Requests.{
  Dialogue, is_empty, kept_fields, user_part, add_params, set_user, set_address, set_stream_url,
  play_fields, play,
}
use clibmedia_transfer_proto.Rtsp.Lines.{join, Splits}

-- Every text is fields with a byte between them.
fields_of :
    (sep : ℕ) (t : Bytes)
    → (first : Bytes) × (fields : List Bytes) × All (Without sep) (first ∷ fields)
      × (t ≡ join sep (first ∷ fields))
fields_of sep [] = ([], [], (tt, tt), refl)
fields_of sep (b ∷ bytes) =
    let (first, fields, (h, a), e) = fields_of sep bytes in
    elim (Bool-cases (b == sep)) [
      | inl q ↦
          let same : b ≡ sep = (==_iff b sep).0 q in
          (
            [],
            first ∷ fields,
            (tt, (h, a)),
            ap (◌∷◌ b) e ∙ ap (λ x. x ∷ join sep (first ∷ fields)) same,
          )
      | inr q ↦ (b ∷ first, fields, ((q, h), a), ap (◌∷◌ b) e ∙ more b first fields)
    ]
  where
    more :
        (b : ℕ) (first : Bytes) (fields : List Bytes)
        → b ∷ join sep (first ∷ fields) ≡ join sep ((b ∷ first) ∷ fields)
    more b first [] = refl
    more b first (second ∷ fields) = refl

user_part-Without :
    (sep : ℕ) (fields : List Bytes) → All (Without sep) fields → Without sep (user_part fields).1
unfolding user_part
user_part-Without sep [] a = tt
user_part-Without sep (last ∷ []) (h, a) = h
user_part-Without sep (first ∷ last ∷ []) (h, (h', a)) = h'
user_part-Without sep (first ∷ second ∷ third ∷ rest) (h, a) =
    user_part-Without sep (second ∷ third ∷ rest) a

add_params-address :
    (fields : List Bytes) (s : Dialogue)
    → ((add_params fields s).hostname ≡ s.hostname) × ((add_params fields s).port ≡ s.port)
unfolding add_params
add_params-address [] s = (refl, refl)
add_params-address (field ∷ fields) s = elim (Bool-cases (is_empty field)) [
  | inl e ↦ rw (add_params, e) (add_params-address fields s)
  | inr e ↦ rw (add_params, e) (add_params-address fields _)
]

-- An address on the default port, whose host is all of the URL's that follows the user.
abbrev HasDefaultPort : Option Dialogue → Type 0
HasDefaultPort none = Unit
HasDefaultPort (some s) = (s.port ≡ 554) × Without b'@' s.hostname

module _ (split : ℕ → Bytes → List Bytes) (splits : Splits split) where
  play_fields-HasDefaultPort :
      (fields : List Bytes) (s : Dialogue) → HasDefaultPort (play_fields split fields s)
  unfolding play_fields set_address set_stream_url
  play_fields-HasDefaultPort [] s = tt
  play_fields-HasDefaultPort (field ∷ []) s = tt
  play_fields-HasDefaultPort (protocol ∷ address ∷ rest) s =
      let (first, fields, a, e) = fields_of b'@' address in
      let url_fields : split b'@' address ≡ first ∷ fields =
        ap (split b'@') e ∙ splits b'@' first fields a in
      let ip_data = (user_part (first ∷ fields)).1 in
      let whole = user_part-Without b'@' (first ∷ fields) a in
      let alone : split b'@' ip_data ≡ ip_data ∷ [] = splits b'@' ip_data [] (whole, tt) in
      rw (play_fields, url_fields)
        (elim (Option-cases (
          set_user split (first ∷ fields) (user_part (first ∷ fields)).0
            (record s { protocol_name = protocol }))) [
              | inl none_e ↦ rw none_e tt
              | inr (s1, some_e) ↦
                  let s2 : Dialogue = record s1 { hostname = ip_data; port = 554 } in
                  let (host, port) = add_params-address rest s2 in
                  rw (some_e, set_address, alone) (port, subst (Without b'@') (sym host) whole)
            ])

  -- A URL that `Play` takes leaves the default port, and a host name with no '@'.
  pub play-default_port :
      (left : List Bytes → List Bytes) (address : Bytes) (s s' : Dialogue)
      → play split left address s ≡ some s'
      → (s'.port ≡ 554) × Without b'@' s'.hostname
  unfolding play
  play-default_port left address s s' e =
      subst HasDefaultPort e (taken (ltb (length (split b'/' address)) 2))
    where
      taken :
          (short : Bool)
          → HasDefaultPort (
              if short
              then none
              else play_fields split
                  (kept_fields (split b'/' address) ++ left (split b'/' address))
                  s)
      taken true = tt
      taken false = play_fields-HasDefaultPort _ s
