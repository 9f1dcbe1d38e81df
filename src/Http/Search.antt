-- ===== src/Http/Search.antt =====
-- `std::search` over bytes, and the line ends that the parser looks for.
use clibmedia_transfer_proto.Common.{
  ℕ, suc, ◌≡◌, refl, sym, ap, ap₂, inl, inr, Bool, true, false, ◌&&◌, [], ◌∷◌, ◌++◌, Option, none,
  some, arith, ◌==◌, if◌then◌else◌, take, Bool-cases, Option-cases, ==_iff,
}
use mathlib.Core.Option
use clibmedia_transfer_proto.ByteIo.{Bytes}

abbrev pub crlf : Bytes
crlf = 13 ∷ 10 ∷ []

-- `CRLFCRLF`
abbrev pub crlf_crlf : Bytes
crlf_crlf = 13 ∷ 10 ∷ 13 ∷ 10 ∷ []

unfoldable pub starts_with : Bytes → Bytes → Bool
starts_with [] s = true
starts_with (p ∷ ps) [] = false
starts_with (p ∷ ps) (c ∷ cs) = p == c && starts_with ps cs

-- The offset of the first place where `pattern'` stands, or `none` for the end.
unfoldable pub search : Bytes → Bytes → Option ℕ
unfolding starts_with
search pattern' [] = if starts_with pattern' [] then some 0 else none
search pattern' (c ∷ cs) =
    if starts_with pattern' (c ∷ cs) then some 0 else Option.map suc (search pattern' cs)

starts_with-split : (p s : Bytes) → starts_with p s ≡ true → (rest : Bytes) × (s ≡ p ++ rest)
unfolding starts_with
starts_with-split [] s h = (s, refl)
starts_with-split (p ∷ ps) [] h = cc
starts_with-split (p ∷ ps) (c ∷ cs) h =
    let both : (p == c ≡ true) × (starts_with ps cs ≡ true) = ground arith in
    let (rest, e) = starts_with-split ps cs both.1 in
    (rest, ap₂ ◌∷◌ (sym ((==_iff p c).0 both.0)) e)

-- What is found stands there.
search-split :
    (p s : Bytes) (i : ℕ) → search p s ≡ some i → (rest : Bytes) × (s ≡ take i s ++ (p ++ rest))
unfolding search
search-split p [] i h = elim (Bool-cases (starts_with p [])) [
  | inl hit ↦ hit_case hit (rw (hit) at h)
  | inr miss ↦ cc (rw miss at h)
]
  where
    hit_case :
        starts_with p [] ≡ true → some 0 ≡ some i → (rest : Bytes) × ([] ≡ take i [] ++ (p ++ rest))
    hit_case hit e = let i_eq : i ≡ 0 = ground arith in rw i_eq (starts_with-split p [] hit)
search-split p (c ∷ cs) i h = elim (Bool-cases (starts_with p (c ∷ cs))) [
  | inl hit ↦ let i_eq : i ≡ 0 = ground (arith, hit) in rw i_eq (starts_with-split p (c ∷ cs) hit)
  | inr miss ↦ elim (Option-cases (search p cs)) [
    | inl e ↦ absurd (ground arith)
    | inr (j, e) ↦
        let i_eq : i ≡ suc j = ground arith in
        let (rest, split) = search-split p cs j e in rw i_eq (rest, ap (◌∷◌ c) split)
  ]
]
