-- ===== src/RtcSdp/Prefixes.antt =====
-- `StringUtils` on texts, against what a prefix and a suffix are.
use clibmedia_transfer_proto.Common.{
  ℕ, suc, ◌-◌, ◌≡◌, refl, ap, ◌∙◌, Bool, true, false, ◌&&◌, some, not, inl, inr, Bool-cases, [],
  ◌∷◌, ◌++◌, ◌==◌, ltb, if◌then◌else◌, arith, length, take, take-append_eq, length-append, le→ltb,
  lt→ltb,
}
use clibmedia_transfer_proto.ByteIo.{Bytes}
use clibmedia_transfer_proto.Http.Text.{text_eq, split_first}
use clibmedia_transfer_proto.RtcSdp.{starts_with, drop_last}

abbrev pub is_prefix : Bytes → Bytes → Bool
is_prefix [] s = true
is_prefix (c ∷ sub) [] = false
is_prefix (c ∷ sub) (b ∷ s) = b == c && is_prefix sub s

ltb-suc : (a b : ℕ) → ltb (suc a) (suc b) ≡ ltb a b
ltb-suc a b = ground arith

if_and : (t x y : Bool) → (if t then false else (x && y)) ≡ (x && (if t then false else y))
if_and true true y = refl
if_and true false y = refl
if_and false x y = refl

take_eq_prefix :
    (s sub : Bytes)
    → (if ltb (length s) (length sub) then false else text_eq (take (length sub) s) sub)
      ≡ is_prefix sub s
unfolding text_eq
take_eq_prefix s [] = rw (le→ltb (length s) 0 (omega arith)) refl
take_eq_prefix [] (c ∷ sub) = rw (lt→ltb 0 (suc (length sub)) (omega arith)) refl
take_eq_prefix (b ∷ s) (c ∷ sub) =
    ap (λ t. if t then false else (b == c && text_eq (take (length sub) s) sub))
      (ltb-suc (length s) (length sub))
    ∙ if_and (ltb (length s) (length sub)) (b == c) (text_eq (take (length sub) s) sub)
    ∙ ap (λ t. b == c && t) (take_eq_prefix s sub)

-- `StartsWith` holds of the texts that begin with another.
pub starts_with-is_prefix : (s sub : Bytes) → starts_with s sub ≡ is_prefix sub s
unfolding starts_with
starts_with-is_prefix s [] = refl
starts_with-is_prefix [] (c ∷ sub) = refl
starts_with-is_prefix (b ∷ s) (c ∷ sub) = take_eq_prefix (b ∷ s) (c ∷ sub)

pub drop_last-append : (s : Bytes) (c : ℕ) → drop_last (s ++ (c ∷ [])) ≡ s
unfolding drop_last
drop_last-append s c =
    take-append_eq (length (s ++ (c ∷ [])) - 1) s (c ∷ []) (omega (arith, length-append s (c ∷ [])))

-- No byte of a text is a separator.
abbrev pub Without : ℕ → Bytes → Type 0
Without sep [] = Unit {0}
Without sep (c ∷ cs) = ((c == sep) ≡ false) × Without sep cs

unfoldable pub is_without : ℕ → Bytes → Bool
is_without sep [] = true
is_without sep (b ∷ bytes) = not (b == sep) && is_without sep bytes

pub is_without-Without : (sep : ℕ) (bytes : Bytes) → is_without sep bytes ≡ true → Without sep bytes
unfolding is_without
is_without-Without sep [] h = tt
is_without-Without sep (b ∷ bytes) h = elim (Bool-cases (b == sep)) [
  | inl e ↦ absurd (ground arith)
  | inr e ↦ (e, is_without-Without sep bytes (ground arith))
]

pub split_first-append :
    (sep : ℕ) (s rest : Bytes)
    → Without sep s
    → split_first sep (s ++ (sep ∷ rest)) ≡ some (s, rest)
unfolding split_first
split_first-append sep [] rest w = rw (same) refl
  where
    same : (sep == sep) ≡ true
    same = ground arith
split_first-append sep (c ∷ s) rest w = rw (w.0, split_first-append sep s rest w.1) refl
