-- ===== src/Http/Request/Headers.antt =====
-- The header fields as a map whose keys do not tell upper from lower case.
use clibmedia_transfer_proto.Common.{
  ◌≡◌, ◌≢◌, refl, ap, false, none, some, [], ◌∷◌, arith, inl, inr, if◌then◌else◌, Bool-cases,
  length, get_elem?, ==_iff, length-take, take,
}
use clibmedia_transfer_proto.ByteIo.{Bytes}
use clibmedia_transfer_proto.Http.Text.{text, text_eq, text_eq_iff, lower}
use clibmedia_transfer_proto.Http.Request.{
  Fields, HttpRequest, unknown, version_digit, lookup, insert, erase, add_header, get_header,
  remove_header, parse_version,
}

lookup-insert :
    (k j v : Bytes) (fields : Fields)
    → lookup j (insert k v fields) ≡ (if text_eq k j then some v else lookup j fields)
unfolding lookup insert
lookup-insert k j v [] = refl
lookup-insert k j v ((i, w) ∷ fields) =
    ground (arith, text_eq_iff k j, text_eq_iff i k, text_eq_iff i j, lookup-insert k j v fields)

lookup-erase :
    (k j : Bytes) (fields : Fields)
    → lookup j (erase k fields) ≡ (if text_eq k j then none else lookup j fields)
unfolding lookup erase
lookup-erase k j [] = ground arith
lookup-erase k j ((i, w) ∷ fields) =
    ground (arith, text_eq_iff k j, text_eq_iff i k, text_eq_iff i j, lookup-erase k j fields)

-- `GetHeader` after `AddHeader`: the value added, for a field that agrees with the one added up to
-- case, and what was there before for any other.
get_header-add_header :
    (field field' value : Bytes) (r : HttpRequest)
    → get_header field' (add_header field value r)
      ≡ (if text_eq (lower field) (lower field') then value else get_header field' r)
unfolding get_header add_header
get_header-add_header field field' value r =
    rw (lookup-insert (lower field) (lower field') value r.headers) (ground arith)

-- `GetHeader` after `RemoveHeader`: nothing for the field removed, up to case, and what was there
-- before for any other.
get_header-remove_header :
    (key field : Bytes) (r : HttpRequest)
    → get_header field (remove_header key r)
      ≡ (if text_eq (lower key) (lower field) then [] else get_header field r)
unfolding get_header remove_header
get_header-remove_header key field r =
    rw (lookup-erase (lower key) (lower field) r.headers) (ground arith)

prefix_ne : (v : Bytes) → length v ≡ 8 → text_eq (take 6 v) (text "HTTP/1.") ≡ false
prefix_ne v h = elim (Bool-cases (text_eq (take 6 v) (text "HTTP/1."))) [
  | inl same ↦ absurd (too_short ((text_eq_iff _ _).0 same))
  | inr differs ↦ differs
]
  where
    too_short : take 6 v ≡ text "HTTP/1." → ⊥
    too_short e = omega (arith, h, length-take 6 v, ap length e)

-- Any eight characters are taken for a version by the last of them alone: the test of the first six
-- is always passed, whatever they are. With anything but eight characters, such as the carriage
-- return that ends a line of CR LF, the version is unknown.
parse_version-ignores_prefix :
    (v : Bytes)
    → (length v ≡ 8 → parse_version v ≡ version_digit (get_elem? v 7))
      × (length v ≢ 8 → parse_version v ≡ unknown)
unfolding parse_version
parse_version-ignores_prefix v =
    (λ h. rw ((==_iff (length v) 8).1 h, prefix_ne v h), λ h. ground arith)
