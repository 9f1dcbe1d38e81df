-- ===== src/RtcServer/Routing.antt =====
-- Where datagrams go.
use clibmedia_transfer_proto.Common.{
  ◌≡◌, ◌≢◌, ◌≤◌, Bool, true, false, if◌then◌else◌, refl, some, arith, length, leb, leb→le,
  Bool-cases, inl, inr, ap, Option, none, ℕ, ◌>>=◌, ◌&&◌, ltb, not, bit_and, ◌==◌, get_elem?, take,
  drop, [], ◌∷◌,
}
use mathlib.Core.Option.{some-injective, none-ne-some}
use clibmedia_transfer_proto.ByteIo.{Bytes, read_big_endian, read_loop}
use clibmedia_transfer_proto.Stun.{Stun, decode, stun_magic_cookie}
use clibmedia_transfer_proto.Stun.Bounds.{decode-cookie}
use clibmedia_transfer_proto.RtcServer.{
  is_dtls, stun_packet, dtls_packet, rtp_packet, rtcp_packet, unknown_packet, on_recv_packet,
  is_stun, is_rtp, is_rtcp, byte_at,
}

is_stun-length : (data' : Bytes) → is_stun data' ≡ true → 20 ≤ length data'
unfolding is_stun
is_stun-length data' h = elim (Bool-cases (leb 20 (length data'))) [
  | inl enough ↦ leb→le 20 (length data') enough
  | inr short ↦ absurd (ground arith)
]

routed_stun : (data' : Bytes) → on_recv_packet data' ≡ some stun_packet → is_stun data' ≡ true
unfolding on_recv_packet
routed_stun data' h = ground arith

-- What passes the test for STUN has the cookie in its fifth to eighth byte.
is_stun-cookie :
    (data' : Bytes)
    → is_stun data' ≡ true
    → read_big_endian 4 (drop 4 data') ≡ some stun_magic_cookie
unfolding is_stun byte_at read_big_endian read_loop
is_stun-cookie data' h = go data' h
  where
    go :
        (data' : Bytes)
        → is_stun data' ≡ true
        → read_big_endian 4 (drop 4 data') ≡ some stun_magic_cookie
    go [] h = absurd (ground arith)
    go (a ∷ []) h = absurd (ground arith)
    go (a ∷ b ∷ []) h = absurd (ground arith)
    go (a ∷ b ∷ c ∷ []) h = absurd (ground arith)
    go (a ∷ b ∷ c ∷ d ∷ []) h = absurd (ground arith)
    go (a ∷ b ∷ c ∷ d ∷ e ∷ []) h = absurd (ground arith)
    go (a ∷ b ∷ c ∷ d ∷ e ∷ f ∷ []) h = absurd (ground arith)
    go (a ∷ b ∷ c ∷ d ∷ e ∷ f ∷ g ∷ []) h = absurd (ground arith)
    go (a ∷ b ∷ c ∷ d ∷ e ∷ f ∷ g ∷ k ∷ rest) h =
        let fifth : e ≡ 0x21 = ground arith in
        let sixth : f ≡ 0x12 = ground arith in
        let seventh : g ≡ 0xA4 = ground arith in
        let eighth : k ≡ 0x42 = ground arith in rw (fifth, sixth, seventh, eighth) refl

-- A datagram that is routed as STUN is decoded to the end, without a read outside it, and the
-- transaction id that is found is the twelve bytes behind its cookie.
pub on_recv_packet-decode :
    (data' : Bytes) (s : Stun)
    → on_recv_packet data' ≡ some stun_packet
    → (r : Stun × Bool) × (decode data' s ≡ some r) × (r.0.transcation_id ≡ take 12 (drop 8 data'))
on_recv_packet-decode data' s h =
    let stun = routed_stun data' h in
    decode-cookie data' s (is_stun-length data' stun) (is_stun-cookie data' stun)

is_rtcp-is_rtp : (data' : Bytes) → is_rtcp data' ≡ some true → is_rtp data' ≡ some true
unfolding is_rtcp is_rtp
is_rtcp-is_rtp data' h = second (get_elem? data' 1) h
  where
    second :
        (pt : Option ℕ)
        → (pt >>= λ pt. some (
            leb 12 (length data')
            && (ltb 127 (byte_at 0 data')
                && (ltb (byte_at 0 data') 192
                    && (not (bit_and (byte_at 0 data') 0x80 == 0) && (leb 192 pt && leb pt 223))))))
          ≡ some true
        → (pt >>= λ pt. some (
            leb 12 (length data')
            && (ltb 127 (byte_at 0 data')
                && (ltb (byte_at 0 data') 192 && not (bit_and (byte_at 0 data') 0x80 == 0)))))
          ≡ some true
    second none h = absurd (none-ne-some true h)
    second (some pt) h = let h' = some-injective _ true h in ap some (ground arith)

-- No datagram is routed as RTCP: those that pass the test for RTCP have passed the one for RTP.
pub on_recv_packet-rtcp : (data' : Bytes) → on_recv_packet data' ≢ some rtcp_packet
unfolding on_recv_packet
on_recv_packet-rtcp data' =
    tests (is_stun data') (is_dtls data') (is_rtp data') (is_rtcp data') (is_rtcp-is_rtp data')
  where
    tests :
        (stun dtls : Bool) (rtp rtcp : Option Bool)
        → (rtcp ≡ some true → rtp ≡ some true)
        → (if stun then some stun_packet else if dtls then some dtls_packet else elim rtp [
          | none ↦ none
          | some true ↦ some rtp_packet
          | some false ↦ elim rtcp [
            | none ↦ none
            | some true ↦ some rtcp_packet
            | some false ↦ some unknown_packet
          ]
        ])
          ≢ some rtcp_packet
    tests true dtls rtp rtcp shadowed h = absurd (ground arith)
    tests false true rtp rtcp shadowed h = absurd (ground arith)
    tests false false none rtcp shadowed h = absurd (ground arith)
    tests false false (some true) rtcp shadowed h = absurd (ground arith)
    tests false false (some false) none shadowed h = absurd (ground arith)
    tests false false (some false) (some true) shadowed h =
        let other = some-injective false true (shadowed refl) in absurd (ground arith)
    tests false false (some false) (some false) shadowed h = absurd (ground arith)
