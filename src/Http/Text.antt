-- ===== src/Http/Text.antt =====
-- What the parser uses of the C++ library on texts, and `HttpUtils::Trim`. A text is its bytes.
use clibmedia_transfer_proto.Common.{
  ℕ, ◌+◌, ◌-◌, ◌*◌, ◌%◌, ◌^◌, ◌≡◌, ◌↔◌, refl, Bool, true, false, not, ◌&&◌, ◌||◌, Option, none,
  some, [], ◌∷◌, arith, leb, ltb, ◌==◌, if◌then◌else◌,
}
use clibmedia_transfer_proto.Common.Int.{ℤ, pos, negsuc}
use clibmedia_transfer_proto.ByteIo.{Bytes, reinterpret_as_signed}
use mathlib.Core.List.{reverse}
use Prim.Native.String.{String}
use Prim.Native.Char.{code}

-- The bytes of an ASCII literal.
abbrev pub text : String → Bytes
text String.[] = []
text (String.◌∷◌ c s) = code c ∷ text s

-- `==` on std::string.
unfoldable pub text_eq : Bytes → Bytes → Bool
text_eq [] [] = true
text_eq [] (b ∷ bs) = false
text_eq (a ∷ as') [] = false
text_eq (a ∷ as') (b ∷ bs) = a == b && text_eq as' bs

pub text_eq_iff : (a b : Bytes) → (text_eq a b ≡ true) ↔ (a ≡ b)
unfolding text_eq
text_eq_iff [] [] = (λ h. refl, λ h. refl)
text_eq_iff [] (b ∷ bs) = (λ h. cc, λ h. cc)
text_eq_iff (a ∷ as') [] = (λ h. cc, λ h. cc)
text_eq_iff (a ∷ as') (b ∷ bs) =
    (λ h. ground (arith, (text_eq_iff as' bs).0), λ h. ground (arith, (text_eq_iff as' bs).1))

unfoldable is_space : ℕ → Bool
is_space c = leb 9 c && leb c 13 || c == 32

unfoldable to_lower : ℕ → ℕ
to_lower c = if leb b'A' c && leb c b'Z' then c + 32 else c

unfoldable pub lower : Bytes → Bytes
unfolding to_lower
lower [] = []
lower (c ∷ cs) = to_lower c ∷ lower cs

unfoldable ltrim : Bytes → Bytes
unfolding is_space
ltrim [] = []
ltrim (c ∷ cs) = if is_space c then ltrim cs else c ∷ cs

unfoldable rtrim : Bytes → Bytes
unfolding ltrim
rtrim str = reverse (ltrim (reverse str))

unfoldable pub trim : Bytes → Bytes
unfolding rtrim
trim str = ltrim (rtrim str)

prepend : ℕ → Option (Bytes × Bytes) → Option (Bytes × Bytes)
prepend c none = none
prepend c (some (k, v)) = some (c ∷ k, v)

-- `find_first_of` with the two `substr` around what it finds.
unfoldable pub split_first : ℕ → Bytes → Option (Bytes × Bytes)
unfolding prepend
split_first sep [] = none
split_first sep (c ∷ cs) = if c == sep then some ([], cs) else prepend c (split_first sep cs)

digit_value : ℕ → Option ℕ
digit_value c =
    if leb b'0' c && leb c b'9'
    then some (c - b'0')
    else if leb b'a' c && leb c b'f'
    then some (c - b'a' + 10)
    else if leb b'A' c && leb c b'F'
    then some (c - b'A' + 10)
    else none

-- The digits of `base` at the front of a text: their value, and whether there are any.
digits_from : ℕ → ℕ → Bool → Bytes → ℕ × Bool
unfolding digit_value
digits_from base acc seen [] = (acc, seen)
digits_from base acc seen (c ∷ cs) = elim (digit_value c) [
  | none ↦ (acc, seen)
  | some d ↦
      let rest = digits_from base (acc * base + d) true cs in
      if ltb d base then rest else (acc, seen)
]

-- An integer as a uint32_t, and as an int32_t: its low 32 bits.
unfoldable pub to_uint32 : ℤ → ℕ
to_uint32 (pos n) = n % 2 ^ 32
to_uint32 (negsuc n) = 2 ^ 32 - 1 - n % 2 ^ 32

unfoldable pub to_int32 : ℤ → ℤ
unfolding reinterpret_as_signed to_uint32
to_int32 z = reinterpret_as_signed 4 (to_uint32 z)

-- The bounds of a 64-bit long.
clamp_long : Bool → ℕ → ℤ
clamp_long true n =
    if n == 0 then pos 0 else if ltb (2 ^ 63) n then negsuc (2 ^ 63 - 1) else negsuc (n - 1)
clamp_long false n = if leb (2 ^ 63) n then pos (2 ^ 63 - 1) else pos n

strip_0x : Bytes → Bytes
strip_0x [] = []
strip_0x (z ∷ []) = z ∷ []
strip_0x (z ∷ x ∷ cs) = if z == b'0' && (x == b'x' || x == b'X') then cs else z ∷ x ∷ cs

-- The sign is followed by the digits, after `0x` where the base is 16.
split_sign : Bytes → Bool × Bytes
split_sign [] = (false, [])
split_sign (c ∷ cs) =
    if c == b'-' then (true, cs) else if c == b'+' then (false, cs) else (false, c ∷ cs)

-- `std::strtol(s, &end, 16)`, converted to int32_t.
unfoldable pub strtol_hex : Bytes → ℤ
unfolding ltrim split_sign strip_0x digits_from clamp_long to_int32
strtol_hex s =
    let (negative, cs) = split_sign (ltrim s) in
    let (n, _) = digits_from 16 0 false (strip_0x cs) in to_int32 (clamp_long negative n)

-- `std::atoi`.
unfoldable pub atoi : Bytes → ℤ
unfolding ltrim split_sign digits_from clamp_long to_int32
atoi s =
    let (negative, cs) = split_sign (ltrim s) in
    let (n, _) = digits_from 10 0 false cs in to_int32 (clamp_long negative n)

-- `std::stoull`; `none` where it throws.
unfoldable pub stoull : Bytes → Option ℕ
unfolding ltrim split_sign digits_from
stoull s =
    let (negative, cs) = split_sign (ltrim s) in
    let (n, seen) = digits_from 10 0 false cs in
    if not seen || leb (2 ^ 64) n
    then none
    else if negative
    then some ((2 ^ 64 - n) % 2 ^ 64)
    else some n
