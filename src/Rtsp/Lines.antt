-- ===== src/Rtsp/Lines.antt =====
-- A description as it is written: lines of fields, and the tracks among them.
use clibmedia_transfer_proto.Common.{
  ℕ, ◌≡◌, refl, ap, ◌∙◌, false, Option, none, some, List, [], ◌∷◌, ◌++◌, map, ◌==◌, All,
}
use clibmedia_transfer_proto.ByteIo.{Bytes}
use clibmedia_transfer_proto.Http.Text.{text, text_eq}
use clibmedia_transfer_proto.RtcSdp.Prefixes.{Without}
use clibmedia_transfer_proto.Rtsp.Requests.{Content}
use clibmedia_transfer_proto.Rtsp.Answers.{
  Describing, read_attribute, read_description_line, read_description,
}

-- Fields with a byte between them.
abbrev pub join : ℕ → List Bytes → Bytes
join sep [] = []
join sep (field ∷ []) = field
join sep (field ∷ second ∷ fields) = field ++ (sep ∷ join sep (second ∷ fields))

-- What `rtc::split` is documented to do: to undo that.
abbrev pub Splits : (ℕ → Bytes → List Bytes) → Type 0
Splits split =
    (sep : ℕ) (first : Bytes) (fields : List Bytes)
    → All (Without sep) (first ∷ fields)
    → split sep (join sep (first ∷ fields)) ≡ first ∷ fields

-- A line that begins no content: fields between '=', or an attribute, whose first value is fields
-- between ':'.
pub data Line : Type 0 where
  plain : Bytes → List Bytes → Line
  attribute : Bytes → List Bytes → List Bytes → Line

abbrev pub text_of : Line → Bytes
text_of (plain name values) = join b'=' (name ∷ values)
text_of (attribute name fields values) = join b'=' (text "a" ∷ join b':' (name ∷ fields) ∷ values)

-- A line that says nothing of a track where no content is at work.
abbrev pub IsLine : Line → Type 0
IsLine (plain name values) =
    All (Without b'=') (name ∷ values)
    × (text_eq name (text "m") ≡ false)
    × (text_eq name (text "a") ≡ false)
IsLine (attribute name fields values) =
    All (Without b'=') (join b':' (name ∷ fields) ∷ values) × All (Without b':') (name ∷ fields)

-- A line that says nothing of a track within a content either: no attribute `control`.
abbrev pub IsOther : Line → Type 0
IsOther (plain name values) = IsLine (plain name values)
IsOther (attribute name fields values) =
    IsLine (attribute name fields values) × (text_eq name (text "control") ≡ false)

pub Without-append :
    (sep : ℕ) (xs ys : Bytes) → Without sep xs → Without sep ys → Without sep (xs ++ ys)
Without-append sep [] ys h h' = h'
Without-append sep (x ∷ xs) ys (e, h) h' = (e, Without-append sep xs ys h h')

pub Without-join :
    (sep d : ℕ) (first : Bytes) (fields : List Bytes)
    → d == sep ≡ false
    → All (Without sep) (first ∷ fields)
    → Without sep (join d (first ∷ fields))
Without-join sep d first [] e (h, a) = h
Without-join sep d first (second ∷ fields) e (h, a) =
    Without-append sep first (d ∷ join d (second ∷ fields)) h
      (e, Without-join sep d second fields e a)

module _ (split : ℕ → Bytes → List Bytes) (splits : Splits split) where
  read_line-session :
      (l : Line) (d : Describing)
      → IsLine l
      → d.content_info ≡ none
      → read_description_line split (text_of l) d ≡ some d
  unfolding read_description_line text_eq
  read_line-session (plain name []) d (fields, _, _) e =
      rw (read_description_line, splits b'=' name [] fields) refl
  read_line-session (plain name (value ∷ values)) d (fields, m, _) e =
      rw (read_description_line, splits b'=' name (value ∷ values) fields, m, e)
        (ap (λ (x : Option Content). some (record d { content_info = x })) e)
  read_line-session (attribute name fields values) d (equals, _) e =
      rw
        (
          read_description_line,
          splits b'=' (text "a") (join b':' (name ∷ fields) ∷ values) ((refl, tt), equals),
          e,
        )
        (ap (λ (x : Option Content). some (record d { content_info = x })) e)

  read_attribute-other :
      (name : Bytes) (fields values : List Bytes) (d : Describing)
      → All (Without b':') (name ∷ fields)
      → text_eq name (text "control") ≡ false
      → read_attribute split (join b':' (name ∷ fields)) values d ≡ some d
  unfolding read_attribute
  read_attribute-other name [] values d colons other =
      rw (read_attribute, splits b':' name [] colons) refl
  read_attribute-other name (field ∷ fields) values d colons other =
      rw (read_attribute, splits b':' name (field ∷ fields) colons, other) refl

  read_line-other :
      (l : Line) (d : Describing) (c : Content)
      → IsOther l
      → d.content_info ≡ some c
      → read_description_line split (text_of l) d ≡ some d
  unfolding read_description_line text_eq
  read_line-other (plain name []) d c (fields, _, _) e =
      rw (read_description_line, splits b'=' name [] fields) refl
  read_line-other (plain name (value ∷ values)) d c (fields, m, a) e =
      rw (read_description_line, splits b'=' name (value ∷ values) fields, m, e, a)
        (ap (λ (x : Option Content). some (record d { content_info = x })) e)
  read_line-other (attribute name fields values) d c ((equals, colons), other) e =
      rw
        (
          read_description_line,
          splits b'=' (text "a") (join b':' (name ∷ fields) ∷ values) ((refl, tt), equals),
          e,
        )
        (read_attribute-other name fields values d colons other
          ∙ ap (λ (x : Option Content). some (record d { content_info = x })) e)

  -- Lines in front of the first content are passed over.
  pub read_description-session :
      (ls : List Line) (rest : List Bytes) (d : Describing)
      → All IsLine ls
      → d.content_info ≡ none
      → read_description split (map text_of ls ++ rest) d ≡ read_description split rest d
  unfolding read_description
  read_description-session [] rest d a e = refl
  read_description-session (l ∷ ls) rest d (h, a) e =
      rw (read_line-session l d h e) (read_description-session ls rest d a e)

  -- Other lines within a content are passed over.
  pub read_description-other :
      (ls : List Line) (rest : List Bytes) (d : Describing) (c : Content)
      → All IsOther ls
      → d.content_info ≡ some c
      → read_description split (map text_of ls ++ rest) d ≡ read_description split rest d
  unfolding read_description
  read_description-other [] rest d c a e = refl
  read_description-other (l ∷ ls) rest d c (h, a) e =
      rw (read_line-other l d c h e) (read_description-other ls rest d c a e)
