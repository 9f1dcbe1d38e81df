-- ===== src/Http/Request.antt =====
-- libhttp/http_request.h and http_request.cpp. An unordered_map is an association list without
-- repeated keys. `rtc::split`, of another library, is the argument `split`: separator, then text.
pub mod Headers
use clibmedia_transfer_proto.Common.{
  ℕ, ◌+◌, ◌%◌, ◌^◌, ◌≡◌, Bool, true, false, not, ◌&&◌, Option, none, some, List, [], ◌∷◌, ◌++◌,
  ◌==◌, if◌then◌else◌, length, take, get_elem?,
}
use clibmedia_transfer_proto.Common.Int.{ℤ, pos, negsuc}
use clibmedia_transfer_proto.ByteIo.{Bytes}
use clibmedia_transfer_proto.Http.Text.{text, to_uint32, text_eq, lower, trim, split_first}
use clibmedia_transfer_proto.Http.Url.{need_url_decoding, url_decode}

pub data HttpMethod : Type 0 where
  get post head put delete options patch invalid : HttpMethod

pub data Version : Type 0 where
  unknown http10 http11 : Version

abbrev pub Fields : Type 0
Fields = List (Bytes × Bytes)

pub record HttpRequest : Type 0 where
  pub method : HttpMethod
  pub version : Version
  pub path : Bytes
  pub query : Bytes
  pub headers : Fields
  pub parameters : Fields
  pub code : ℕ
  pub is_request : Bool
  pub is_stream : Bool
  pub is_chunked : Bool

-- `find`, and `map[key] = value`.
unfoldable pub lookup : Bytes → Fields → Option Bytes
lookup k [] = none
lookup k ((j, v) ∷ fields) = if text_eq j k then some v else lookup k fields

unfoldable pub insert : Bytes → Bytes → Fields → Fields
insert k v [] = (k, v) ∷ []
insert k v ((j, w) ∷ fields) = if text_eq j k then (j, v) ∷ fields else (j, w) ∷ insert k v fields

unfoldable pub erase : Bytes → Fields → Fields
erase k [] = []
erase k ((j, w) ∷ fields) = if text_eq j k then erase k fields else (j, w) ∷ erase k fields

unfoldable pub new_request : Bool → HttpRequest
new_request is_request = record {
  method = invalid;
  version = unknown;
  path = [];
  query = [];
  headers = [];
  parameters = [];
  code = 0;
  is_request = is_request;
  is_stream = false;
  is_chunked = false;
}

unfoldable pub add_header : Bytes → Bytes → HttpRequest → HttpRequest
unfolding insert
add_header field value r = record r { headers = insert (lower field) value r.headers }

unfoldable pub remove_header : Bytes → HttpRequest → HttpRequest
unfolding erase
remove_header key r = record r { headers = erase (lower key) r.headers }

text_or_empty : Option Bytes → Bytes
text_or_empty none = []
text_or_empty (some v) = v

unfoldable pub get_header : Bytes → HttpRequest → Bytes
unfolding lookup text_or_empty
get_header field r = text_or_empty (lookup (lower field) r.headers)

unfoldable set_parameter : Bytes → Bytes → HttpRequest → HttpRequest
unfolding insert
set_parameter key value r = record r { parameters = insert key value r.parameters }

unfoldable get_parameter : Bytes → HttpRequest → Bytes
unfolding lookup text_or_empty
get_parameter key r = text_or_empty (lookup key r.parameters)

-- The loop of `ParseParameters` over what `split` gives.
unfoldable parse_parameters : List Bytes → HttpRequest → HttpRequest
unfolding set_parameter
parse_parameters [] r = r
parse_parameters (l ∷ ls) r =
    parse_parameters ls
      (elim (split_first b'=' l) [ none ↦ r | some (k, v) ↦ set_parameter (trim k) (trim v) r ])

unfoldable pub set_query : (ℕ → Bytes → List Bytes) → Bytes → HttpRequest → HttpRequest
unfolding parse_parameters
set_query split query r = parse_parameters (split b'&' query) (record r { query = query })

-- `HttpUtils::ParseMethod`
unfoldable pub parse_method : Bytes → HttpMethod
parse_method m =
    if text_eq m (text "GET")
    then get
    else if text_eq m (text "PUT")
    then put
    else if text_eq m (text "POST")
    then post
    else if text_eq m (text "HEAD")
    then head
    else if text_eq m (text "DELETE")
    then delete
    else if text_eq m (text "OPTIONS")
    then options
    else invalid

unfoldable pub version_digit : Option ℕ → Version
version_digit none = unknown
version_digit (some c) = if c == b'1' then http11 else if c == b'0' then http10 else unknown

-- `v.compare(0, 6, "HTTP/1.")` is not 0 where the first six characters are not the seven.
unfoldable pub parse_version : Bytes → Version
unfolding version_digit
parse_version v =
    if length v == 8
    then if not (text_eq (take 6 v) (text "HTTP/1."))
      then version_digit (get_elem? v 7)
      else unknown
    else unknown

unfoldable pub set_path : Bytes → HttpRequest → HttpRequest
set_path path r = record r { path = if need_url_decoding path then url_decode path else path }

-- An int32_t stored in a uint32_t.
unfoldable pub set_status_code : ℤ → HttpRequest → HttpRequest
set_status_code code r = record r { code = to_uint32 code }
