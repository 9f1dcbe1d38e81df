-- ===== src/Examples/Splitting.antt =====
-- A splitter that works as `rtc::split` does.
use clibmedia_transfer_proto.Common.{
  ℕ, ◌≡◌, refl, true, List, [], ◌∷◌, ◌==◌, All, if◌then◌else◌, arith,
}
use clibmedia_transfer_proto.ByteIo.{Bytes}
use clibmedia_transfer_proto.RtcSdp.Prefixes.{Without}
use clibmedia_transfer_proto.Rtsp.Lines.{join, Splits}

-- The pieces of a text between the places where a byte stands.
abbrev pub split : ℕ → Bytes → List Bytes
split d [] = [] ∷ []
split d (c ∷ cs) =
    let rest = split d cs in
    if c == d then [] ∷ rest else elim rest [ [] ↦ (c ∷ []) ∷ [] | s ∷ ss ↦ (c ∷ s) ∷ ss ]

pub split-Splits : Splits split
split-Splits sep first fields a = go fields first a
  where
    same : (sep == sep) ≡ true
    same = ground arith

    go :
        (fields : List Bytes) (first : Bytes)
        → All (Without sep) (first ∷ fields)
        → split sep (join sep (first ∷ fields)) ≡ first ∷ fields
    go [] [] a = refl
    go [] (b ∷ bytes) ((e, h), a) = rw (e, go [] bytes (h, a)) refl
    go (second ∷ fields) [] (h, a) = rw (same, go fields second a) refl
    go (second ∷ fields) (b ∷ bytes) ((e, h), a) = rw (e, go (second ∷ fields) bytes (h, a)) refl
