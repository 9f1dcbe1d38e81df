-- ===== src/Flv/Config.antt =====
-- The bodies of video tags, read back.
use clibmedia_transfer_proto.Common.{
  ℕ, zero, suc, ◌+◌, ◌%◌, ◌^◌, ◌≤◌, ◌<◌, ◌≡◌, ◌⊎◌, inl, inr, refl, sym, ap, ◌∙◌, Bool, true, false,
  some, List, [], ◌∷◌, ◌++◌, ◌>>=◌, arith, length, drop, append_assoc, append-nil, length-append,
  le→ltb, take-append_eq, drop-append_eq, drop-drop,
}
use clibmedia_transfer_proto.ByteIo.{Bytes, write_big_endian}
use clibmedia_transfer_proto.ByteIo.RoundTrip.{read-write_big_endian, length-write_big_endian}
use clibmedia_transfer_proto.Flv.{extra_data, sized}
use clibmedia_transfer_proto.Flv.Reader.{
  Tag, config, picture, read_sized, read_units, read_config, read_picture, read_body,
}

read_sized-append :
    (n : ℕ) (text rest : Bytes)
    → length text % 256 ^ n ≡ length text
    → read_sized n (write_big_endian n (length text) ++ (text ++ rest)) ≡ some (text, rest)
unfolding read_sized
read_sized-append n text rest fits =
    rw
      (
        read_sized,
        read-write_big_endian n (length text) (text ++ rest),
        fits,
        ◌>>=◌,
        le→ltb (length whole) (n + length text) (omega (arith, size)),
        drop-append_eq n front (text ++ rest) (sym (length-write_big_endian n (length text))),
        take-append_eq (length text) text rest refl,
        behind,
      )
      refl
  where
    front : Bytes
    front = write_big_endian n (length text)

    whole : Bytes
    whole = front ++ (text ++ rest)

    size : length whole ≡ n + (length text + length rest)
    size = omega (
      arith,
      length-append front (text ++ rest),
      length-append text rest,
      length-write_big_endian n (length text),
    )

    behind : drop (n + length text) whole ≡ rest
    behind =
        sym (drop-drop (length text) n (n + length text) whole refl)
        ∙ ap (drop (length text))
            (drop-append_eq n front (text ++ rest) (sym (length-write_big_endian n (length text))))
        ∙ drop-append_eq (length text) text rest refl

-- Units, each behind its length.
abbrev pub sized_all : List Bytes → Bytes
sized_all [] = []
sized_all (unit ∷ units) = sized unit ++ sized_all units

abbrev pub AllShort : List Bytes → Type 0
AllShort [] = Unit {0}
AllShort (unit ∷ units) = (length unit < 2 ^ 32) × AllShort units

read_units-sized_all :
    (units : List Bytes) (fuel : ℕ)
    → AllShort units
    → length units < fuel
    → read_units fuel (sized_all units) ≡ some units
unfolding read_units write_big_endian
read_units-sized_all [] zero short enough = absurd (omega arith)
read_units-sized_all [] (suc fuel) short enough = refl
read_units-sized_all (unit ∷ units) zero short enough = absurd (omega arith)
read_units-sized_all (unit ∷ units) (suc fuel) short enough =
    rw (read_units, first, read_units-sized_all units fuel short.1 (omega arith)) refl
  where
    first : read_sized 4 (sized_all (unit ∷ units)) ≡ some (unit, sized_all units)
    first =
        ap (read_sized 4) (append_assoc (write_big_endian 4 (length unit)) unit (sized_all units))
        ∙ read_sized-append 4 unit (sized_all units) (omega (arith, short.0))

sized_all_long : (units : List Bytes) → length units ≤ length (sized_all units)
sized_all_long [] = omega arith
sized_all_long (unit ∷ units) = omega (
  arith,
  sized_all_long units,
  length-append (sized unit) (sized_all units),
  length-append (write_big_endian 4 (length unit)) unit,
  length-write_big_endian 4 (length unit),
)

-- A picture is read back.
pub read_body-picture :
    (key : Bool) (kind time low : ℕ) (units : List Bytes)
    → (key ≡ true × kind ≡ 0x17) ⊎ (key ≡ false × kind ≡ 0x27)
    → AllShort units
    → read_body (record {
      type' = 9;
      time = time;
      body = kind ∷ 1 ∷ (write_big_endian 3 low ++ sized_all units);
    })
      ≡ some (picture key time (low % 2 ^ 24) units)
unfolding read_body
read_body-picture key kind time low units of_kind short = rw (same of_kind) (
    unfold read_picture in
    rw
      (
        read-write_big_endian 3 low (sized_all units),
        drop-append_eq 3 (write_big_endian 3 low) (sized_all units)
            (sym (length-write_big_endian 3 low)),
        read_units-sized_all units (suc (length (write_big_endian 3 low ++ sized_all units))) short
            (omega (
              arith,
              sized_all_long units,
              length-append (write_big_endian 3 low) (sized_all units),
            )),
        ◌>>=◌,
      )
      refl)
  where
    tag : Tag
    tag = record {
      type' = 9;
      time = time;
      body = kind ∷ 1 ∷ (write_big_endian 3 low ++ sized_all units);
    }

    same :
        (key ≡ true × kind ≡ 0x17) ⊎ (key ≡ false × kind ≡ 0x27)
        → read_body tag ≡ read_picture key time (write_big_endian 3 low ++ sized_all units)
    same (inl (k, e)) = rw (k, e) refl
    same (inr (k, e)) = rw (k, e) refl

-- The configuration is read back, if the first set has its profile and level.
pub read_body-config :
    (sps pps : Bytes) (time : ℕ)
    → 3 < length sps
    → length sps < 2 ^ 16
    → length pps < 2 ^ 16
    → (extra : Bytes) × (extra_data sps pps ≡ some extra)
      × (length extra ≡ 11 + (length sps + length pps))
      × (read_body (record { type' = 9; time = time; body = 0x17 ∷ 0 ∷ 0 ∷ 0 ∷ 0 ∷ extra })
          ≡ some (config sps pps))
unfolding read_body extra_data
read_body-config [] pps time long s p = absurd (omega arith)
read_body-config (a ∷ []) pps time long s p = absurd (omega arith)
read_body-config (a ∷ b ∷ []) pps time long s p = absurd (omega arith)
read_body-config (a ∷ b ∷ c ∷ []) pps time long s p = absurd (omega arith)
read_body-config (a ∷ b ∷ c ∷ d ∷ rest) pps time long s p = (
  1 ∷ b ∷ c ∷ d ∷ 0xff ∷ 0xe1 ∷ sets,
  refl,
  omega (
    arith,
    length-append (write_big_endian 2 (length sps))
        (sps ++ (1 ∷ (write_big_endian 2 (length pps) ++ pps))),
    length-append sps (1 ∷ (write_big_endian 2 (length pps) ++ pps)),
    length-append (write_big_endian 2 (length pps)) pps,
    length-write_big_endian 2 (length sps),
    length-write_big_endian 2 (length pps),
  ),
  unfold read_config in rw (first, ◌>>=◌, second) refl,
)
  where
    sps : Bytes
    sps = a ∷ b ∷ c ∷ d ∷ rest

    sets : Bytes
    sets =
        write_big_endian 2 (length sps) ++ (sps ++ (1 ∷ (write_big_endian 2 (length pps) ++ pps)))

    first : read_sized 2 sets ≡ some (sps, 1 ∷ (write_big_endian 2 (length pps) ++ pps))
    first =
        read_sized-append 2 sps (1 ∷ (write_big_endian 2 (length pps) ++ pps)) (omega (arith, s))

    second : read_sized 2 (write_big_endian 2 (length pps) ++ pps) ≡ some (pps, [])
    second =
        ap (λ t. read_sized 2 (write_big_endian 2 (length pps) ++ t)) (sym (append-nil pps))
        ∙ read_sized-append 2 pps [] (omega (arith, p))
