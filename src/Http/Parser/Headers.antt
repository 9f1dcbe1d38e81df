-- ===== src/Http/Parser/Headers.antt =====
-- libhttp/http_parser.cpp: `ProcessMethodLine` and `ParseHeaders`.
use clibmedia_transfer_proto.Common.{
  ◌>>=◌, ℕ, Bool, true, false, not, ◌&&◌, ◌||◌, Option, none, some, List, [], ◌∷◌, ◌==◌,
  if◌then◌else◌, take, get_elem?,
}
use clibmedia_transfer_proto.Common.Int.{pos, negsuc, is_zero}
use clibmedia_transfer_proto.ByteIo.{Bytes}
use clibmedia_transfer_proto.Http.Text.{
  text, text_eq, lower, trim, split_first, atoi, stoull, to_int32,
}
use clibmedia_transfer_proto.Http.Request.{
  HttpMethod, get, head, options, HttpRequest, new_request, add_header, get_header, set_query,
  parse_method, parse_version, set_path, set_status_code,
}
use clibmedia_transfer_proto.Http.Parser.{
  expect_normal_body, expect_stream_body, expect_http_complete, expect_chunk_len, HttpParser,
  bad_request_error,
}

set_target : (ℕ → Bytes → List Bytes) → Bytes → HttpRequest → HttpRequest
set_target split path' r = elim (split_first b'?' path') [
  | none ↦ set_path path' r
  | some (before, after) ↦ set_query split after (set_path before r)
]

request_line : (ℕ → Bytes → List Bytes) → Bytes → Bytes → Bytes → HttpRequest
unfolding set_target
request_line split method' path' version' =
    let r : HttpRequest =
      set_target split path' (record (new_request true) { method = parse_method method' }) in
    record r { version = parse_version version' }

status_line : Bytes → Bytes → HttpRequest
status_line version' code' =
    set_status_code (atoi code') (record (new_request false) { version = parse_version version' })

process_status_line : Bytes → List Bytes → HttpParser → Option HttpParser
unfolding status_line
process_status_line first fields p = do
  code' ← get_elem? fields 0
  some (record p { is_request = false; req = some (status_line first code') })

process_request_line :
    (ℕ → Bytes → List Bytes) → Bytes → List Bytes → HttpParser → Option HttpParser
unfolding request_line
process_request_line split first fields p = do
  path' ← get_elem? fields 0
  version' ← get_elem? fields 1
  some (record p { is_request = true; req = some (request_line split first path' version') })

-- The fields of the first line: a response starts with `http`, in any case.
unfoldable process_method_line :
    (ℕ → Bytes → List Bytes) → List Bytes → HttpParser → Option HttpParser
unfolding process_request_line process_status_line
process_method_line split [] p = none
process_method_line split (first ∷ fields) p =
    if text_eq (take 4 (lower first)) (text "http")
    then process_status_line first fields p
    else process_request_line split first fields p

-- The loop over the lines, the first one included.
unfoldable add_lines : List Bytes → HttpRequest → HttpRequest
add_lines [] r = r
add_lines (l ∷ ls) r =
    add_lines ls
      (elim (split_first b':' l) [ none ↦ r | some (k, v) ↦ add_header (trim k) (trim v) r ])

is_bodiless_method : HttpMethod → Bool
is_bodiless_method get = true
is_bodiless_method head = true
is_bodiless_method options = true
is_bodiless_method m = false

-- What follows the fields, by the length that they announce.
unfoldable expect_body : HttpRequest → HttpParser → HttpParser
unfolding bad_request_error is_bodiless_method
expect_body r p =
    let len = get_header (text "content-length") r in
    if not (text_eq len [])
    then elim (stoull len) [
      | none ↦ bad_request_error p
      | some n ↦
          let length' = to_int32 (pos n) in
          record p {
            current_content_length = length';
            state = if is_zero length' then expect_http_complete else expect_normal_body;
          }
    ]
    else if text_eq (get_header (text "transfer-encoding") r) (text "chunked")
    then record p {
      is_chunked = true;
      req = some (record r { is_chunked = true });
      state = expect_chunk_len;
    }
    else if (not p.is_request && not (r.code == 200))
        || (p.is_request && is_bodiless_method r.method)
    then record p { current_chunk_length = pos 0; state = expect_http_complete }
    else record p {
      current_content_length = negsuc 0;
      is_stream = true;
      req = some (record r { is_stream = true });
      state = expect_stream_body;
    }

add_lines_to : List Bytes → HttpParser → Option HttpParser
unfolding add_lines expect_body
add_lines_to lines p = do
  r ← p.req
  let r' = add_lines lines r
  some (expect_body r' (record p { req = some r' }))

unfoldable pub parse_headers : (ℕ → Bytes → List Bytes) → HttpParser → Option HttpParser
unfolding process_method_line add_lines_to bad_request_error
parse_headers split p = elim (split b'\n' p.header) [
  | [] ↦ some (bad_request_error p)
  | first ∷ lines ↦ do
    p' ← process_method_line split (split b' ' first) p
    add_lines_to (first ∷ lines) p'
]
