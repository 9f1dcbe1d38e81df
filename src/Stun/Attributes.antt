-- ===== src/Stun/Attributes.antt =====
-- One attribute, written and read back.
use clibmedia_transfer_proto.Common.{
  ℕ, suc, ◌+◌, ◌-◌, ◌^◌, ◌<◌, ◌≤◌, ◌≡◌, ◌==◌, inl, inr, Bool-cases, length-drop, if◌then◌else◌,
  refl, sym, ap, ◌∙◌, false, some, ◌++◌, ◌>>=◌, arith, le→ltb, length, take, drop, replicate,
  length-append, length-replicate, append_assoc, take-append_eq, drop-append_eq, drop-drop,
}
use clibmedia_transfer_proto.ByteIo.{Bytes, read_big_endian, write_big_endian}
use clibmedia_transfer_proto.ByteIo.RoundTrip.{read-write_big_endian, length-write_big_endian}
use clibmedia_transfer_proto.Stun.{
  Stun, padding, overruns, read_bytes, set_attribute, decode_attributes, write_attribute,
  stun_attr_username, stun_attr_password,
}

-- A number written in two bytes is read back.
pub read_two :
    (v : ℕ) (rest : Bytes) → v < 2 ^ 16 → read_big_endian 2 (write_big_endian 2 v ++ rest) ≡ some v
read_two v rest h = read-write_big_endian 2 v rest ∙ ap some (omega (arith, h))

pub drop_two : (v : ℕ) (rest : Bytes) → drop 2 (write_big_endian 2 v ++ rest) ≡ rest
drop_two v rest = drop-append_eq 2 (write_big_endian 2 v) rest (sym (length-write_big_endian 2 v))

pub length-write_attribute :
    (attr_type : ℕ) (value : Bytes)
    → length (write_attribute attr_type value) ≡ 4 + (length value + padding (length value))
unfolding write_attribute
length-write_attribute attr_type value = omega (
  arith,
  length-append (write_big_endian 2 attr_type)
      (write_big_endian 2 (length value) ++ (value ++ replicate (padding (length value)) 0)),
  length-append (write_big_endian 2 (length value)) (value ++ replicate (padding (length value)) 0),
  length-append value (replicate (padding (length value)) 0),
  length-replicate {A = ℕ} (padding (length value)) 0,
  length-write_big_endian 2 attr_type,
  length-write_big_endian 2 (length value),
)

attribute_parts :
    (attr_type : ℕ) (value rest : Bytes)
    → write_attribute attr_type value ++ rest
      ≡ write_big_endian 2 attr_type
        ++ (write_big_endian 2 (length value)
            ++ (value ++ (replicate (padding (length value)) 0 ++ rest)))
unfolding write_attribute
attribute_parts attr_type value rest =
    append_assoc (write_big_endian 2 attr_type)
      (write_big_endian 2 (length value) ++ (value ++ replicate (padding (length value)) 0)) rest
    ∙ ap (λ t. write_big_endian 2 attr_type ++ t)
        (append_assoc (write_big_endian 2 (length value))
            (value ++ replicate (padding (length value)) 0) rest
          ∙ ap (λ t. write_big_endian 2 (length value) ++ t)
              (append_assoc value (replicate (padding (length value)) 0) rest))

-- With a value of the type that an attribute has.
abbrev pub with_attribute : ℕ → Bytes → Stun → Stun
with_attribute attr_type value s =
    if attr_type == stun_attr_username
    then record s { user_name = value }
    else if attr_type == stun_attr_password
    then record s { password = value }
    else s

pub set_attribute-whole :
    (attr_type attr_len : ℕ) (data' : Bytes) (s : Stun)
    → attr_len ≤ length data'
    → set_attribute attr_type attr_len data' s
      ≡ some (with_attribute attr_type (take attr_len data') s)
unfolding set_attribute read_bytes
set_attribute-whole attr_type attr_len data' s h =
    let there = le→ltb (length data') attr_len h in
    elim (Bool-cases (attr_type == stun_attr_username)) [
      | inl name ↦ rw (set_attribute, name, read_bytes, there) refl
      | inr other ↦ elim (Bool-cases (attr_type == stun_attr_password)) [
        | inl pwd ↦ rw (set_attribute, other, pwd, read_bytes, there) refl
        | inr neither ↦ rw (set_attribute, other, neither) refl
      ]
    ]

-- The loop of `Decode` takes in an attribute as it was written, and goes on behind it.
pub decode_attributes-write :
    (fuel attr_type : ℕ) (value rest : Bytes) (s : Stun)
    → attr_type < 2 ^ 16
    → length value < 2 ^ 16
    → decode_attributes (suc fuel) (write_attribute attr_type value ++ rest) s
      ≡ decode_attributes fuel rest (with_attribute attr_type value s)
unfolding decode_attributes
decode_attributes-write fuel attr_type value rest s ht hv =
    rw
      (
        decode_attributes,
        ◌>>=◌,
        le→ltb (length whole) 4 (omega (arith, size)),
        first,
        second,
        fits,
        set_attribute-whole attr_type n (drop 4 whole) s (omega (arith, size, length-drop 4 whole)),
        value_read,
        behind,
      )
      refl
  where
    n : ℕ
    n = length value

    whole : Bytes
    whole = write_attribute attr_type value ++ rest

    size : length whole ≡ 4 + (n + padding n) + length rest
    size = omega (
      arith,
      length-append (write_attribute attr_type value) rest,
      length-write_attribute attr_type value,
    )

    fits : overruns n whole ≡ false
    fits = unfold overruns in le→ltb (length whole - 4) (padding n + n) (omega (arith, size))

    first : read_big_endian 2 whole ≡ some attr_type
    first = ap (read_big_endian 2) (attribute_parts attr_type value rest) ∙ read_two attr_type _ ht

    after_type : drop 2 whole ≡ write_big_endian 2 n ++ (value ++ (replicate (padding n) 0 ++ rest))
    after_type = ap (drop 2) (attribute_parts attr_type value rest) ∙ drop_two attr_type _

    second : read_big_endian 2 (drop 2 whole) ≡ some n
    second = ap (read_big_endian 2) after_type ∙ read_two n _ hv

    value_read : take n (drop 4 whole) ≡ value
    value_read =
        ap (take n) (sym (drop-drop 2 2 4 whole refl) ∙ ap (drop 2) after_type ∙ drop_two n _)
        ∙ take-append_eq n value _ refl

    behind : drop (4 + (n + padding n)) whole ≡ rest
    behind =
        drop-append_eq (4 + (n + padding n)) (write_attribute attr_type value) rest
          (sym (length-write_attribute attr_type value))
