-- ===== src/Http/Url.antt =====
-- libhttp/http_utils.cpp: percent encoding. A char is its byte.
use clibmedia_transfer_proto.Common.{
  ℕ, zero, suc, ◌+◌, ◌-◌, ◌*◌, ◌/◌, ◌%◌, ◌≤◌, ◌<◌, ◌≡◌, ◌≢◌, refl, sym, ap, ap₂, ◌∙◌, Bool, true,
  false, not, ◌&&◌, ◌||◌, List, [], ◌∷◌, ◌++◌, arith, inl, inr, leb, ltb, ◌==◌, ==_iff,
  if◌then◌else◌, All, Bool-cases,
}
pub mod RoundTrip
use clibmedia_transfer_proto.Common.Table.{holds_below, holds_below-at}
use clibmedia_transfer_proto.ByteIo.{Bytes, IsByte}

unfoldable pub hex_digit : ℕ → ℕ
hex_digit d = if ltb 9 d then d + b'A' - 10 else d + b'0'

-- `CharToHex`
unfoldable pub char_to_hex : ℕ → Bytes
unfolding hex_digit
char_to_hex c = hex_digit (c / 16 % 16) ∷ hex_digit (c % 16) ∷ []

between : ℕ → ℕ → ℕ → Bool
between lo hi c = leb lo c && leb c hi

one_of : Bytes → ℕ → Bool
one_of [] c = false
one_of (m ∷ ms) c = c == m || one_of ms c

-- The characters that `UrlEncode` copies.
unfoldable pub is_unescaped : ℕ → Bool
unfolding between one_of
is_unescaped c =
    between b'A' b'Z' c
    || between b'a' b'z' c
    || between b'0' b'9' c
    || one_of
        (b'-' ∷ b'_' ∷ b'.' ∷ b'!' ∷ b'~' ∷ b'*' ∷ 39 ∷ b'(' ∷ b')' ∷ b'&' ∷ b'=' ∷ b'/' ∷ 92 ∷ b'?'
          ∷ [])
        c

unfoldable pub encode_char : ℕ → Bytes
unfolding is_unescaped char_to_hex
encode_char c =
    if c == b' ' then b'+' ∷ [] else if is_unescaped c then c ∷ [] else b'%' ∷ char_to_hex c

-- `UrlEncode`
unfoldable pub url_encode : Bytes → Bytes
url_encode [] = []
url_encode (c ∷ cs) = encode_char c ++ url_encode cs

unfoldable pub is_xdigit : ℕ → Bool
unfolding between
is_xdigit c = between b'0' b'9' c || between b'a' b'f' c || between b'A' b'F' c

unfoldable pub hex_value : ℕ → ℕ
unfolding between
hex_value x =
    if between b'0' b'9' x
    then x - b'0'
    else if between b'a' b'f' x
    then x - b'a' + 10
    else if between b'A' b'F' x
    then x - b'A' + 10
    else x

-- A character that starts no escape.
unfoldable pub decode_char : ℕ → ℕ
decode_char c = if c == b'+' then b' ' else c

-- `UrlDecode`: an escape is three characters, and an incomplete one stands for itself.
unfoldable pub url_decode : Bytes → Bytes
unfolding decode_char is_xdigit hex_value
url_decode [] = []
url_decode (c ∷ []) = decode_char c ∷ []
url_decode (c ∷ x1 ∷ []) = decode_char c ∷ url_decode (x1 ∷ [])
url_decode (c ∷ x1 ∷ x2 ∷ rest) =
    let escaped = ((hex_value x1 * 16 + hex_value x2) % 256) ∷ url_decode rest in
    let plain = decode_char c ∷ url_decode (x1 ∷ x2 ∷ rest) in
    if c == b'%' && (is_xdigit x1 && is_xdigit x2) then escaped else plain

-- `NeedUrlDecoding`
unfoldable pub need_url_decoding : Bytes → Bool
need_url_decoding [] = false
need_url_decoding (c ∷ cs) = c == b'+' || c == b'%' || need_url_decoding cs
