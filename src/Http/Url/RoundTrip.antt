-- ===== src/Http/Url/RoundTrip.antt =====
-- Decoding what was encoded.
use clibmedia_transfer_proto.Common.{
  ℕ, ◌+◌, ◌*◌, ◌/◌, ◌%◌, ◌<◌, ◌≡◌, refl, sym, ap, ap₂, ◌∙◌, true, false, not, ◌&&◌, ◌||◌, [], ◌∷◌,
  ◌++◌, arith, inl, inr, ◌==◌, ==_iff, All, Bool-cases,
}
use clibmedia_transfer_proto.Common.Table.{holds_below, holds_below-at}
use clibmedia_transfer_proto.ByteIo.{Bytes, IsByte}
use clibmedia_transfer_proto.Http.Url.{
  hex_digit, char_to_hex, is_unescaped, encode_char, url_encode, is_xdigit, hex_value, decode_char,
  url_decode, need_url_decoding,
}

-- Any character but the escape is decoded by itself.
decode_plain :
    (c : ℕ) (cs : Bytes) → c == b'%' ≡ false → url_decode (c ∷ cs) ≡ decode_char c ∷ url_decode cs
unfolding url_decode
decode_plain c [] h = refl
decode_plain c (x1 ∷ []) h = refl
decode_plain c (x1 ∷ x2 ∷ rest) h = rw h

unescaped_table :
    holds_below (λ c. not (is_unescaped c) || not (c == b'%') && not (c == b'+')) 256 ≡ true
unfolding holds_below is_unescaped
unescaped_table = refl

unescaped_plain :
    (c : ℕ) → c < 256 → is_unescaped c ≡ true → (c == b'%' ≡ false) × (decode_char c ≡ c)
unfolding decode_char
unescaped_plain c h u = ground (arith, holds_below-at _ 256 c unescaped_table h)

hex_table :
    holds_below
      (λ c.
        is_xdigit (hex_digit (c / 16 % 16))
        && is_xdigit (hex_digit (c % 16))
        && (hex_value (hex_digit (c / 16 % 16)) * 16 + hex_value (hex_digit (c % 16))) % 256 == c)
      256
    ≡ true
unfolding holds_below is_xdigit hex_digit hex_value
hex_table = refl

hex_facts :
    (c : ℕ)
    → c < 256
    → (is_xdigit (hex_digit (c / 16 % 16)) ≡ true)
      × (is_xdigit (hex_digit (c % 16)) ≡ true)
      × ((hex_value (hex_digit (c / 16 % 16)) * 16 + hex_value (hex_digit (c % 16))) % 256 ≡ c)
hex_facts c h =
    let t = holds_below-at _ 256 c hex_table h in (ground arith, ground arith, ground arith)

decode_escape :
    (c : ℕ) (cs : Bytes) → c < 256 → url_decode (b'%' ∷ (char_to_hex c ++ cs)) ≡ c ∷ url_decode cs
unfolding url_decode char_to_hex
decode_escape c cs h =
    let (first, second, value) = hex_facts c h in
    rw (first, second) (ap (λ v. v ∷ url_decode cs) value)

decode-encode_char :
    (c : ℕ) (cs : Bytes) → c < 256 → url_decode (encode_char c ++ cs) ≡ c ∷ url_decode cs
unfolding encode_char
decode-encode_char c cs h = elim (Bool-cases (c == b' ')) [
  | inl space ↦ rw space (
      decode_plain b'+' cs refl
      ∙ ap (λ t. t ∷ url_decode cs) (unfold decode_char in sym ((==_iff c b' ').0 space)))
  | inr other ↦ elim (Bool-cases (is_unescaped c)) [
    | inl copied ↦
        let (plain, same) = unescaped_plain c h copied in
        rw (other, copied) (decode_plain c cs plain ∙ ap (λ t. t ∷ url_decode cs) same)
    | inr escaped ↦ rw (other, escaped) (decode_escape c cs h)
  ]
]

-- `UrlDecode` gives back any text that `UrlEncode` has encoded.
pub url_decode-url_encode : (s : Bytes) → All IsByte s → url_decode (url_encode s) ≡ s
unfolding url_encode
url_decode-url_encode [] a = unfold url_decode in refl
url_decode-url_encode (c ∷ cs) a =
    decode-encode_char c (url_encode cs) a.0 ∙ ap (◌∷◌ c) (url_decode-url_encode cs a.1)

-- A text that needs no decoding is decoded to itself.
url_decode-unneeded : (s : Bytes) → need_url_decoding s ≡ false → url_decode s ≡ s
unfolding need_url_decoding
url_decode-unneeded [] h = unfold url_decode in refl
url_decode-unneeded (c ∷ cs) h =
    decode_plain c cs (ground arith)
    ∙ ap₂ ◌∷◌ (unfold decode_char in ground arith) (url_decode-unneeded cs (ground arith))
