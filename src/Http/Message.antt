-- ===== src/Http/Message.antt =====
-- The header that libhttp/http_request.cpp prints, and `ParseStatusMessage` of http_utils.cpp. The
-- headers and parameters come in the order of the association lists.
pub mod Ending
use clibmedia_transfer_proto.Common.{
  ℕ, zero, suc, ◌+◌, ◌*◌, ◌/◌, ◌%◌, List, [], ◌∷◌, ◌++◌, ◌==◌, if◌then◌else◌, false,
}
use clibmedia_transfer_proto.Common.Int.{pos}
use clibmedia_transfer_proto.ByteIo.{Bytes}
use clibmedia_transfer_proto.Http.Search.{crlf}
use clibmedia_transfer_proto.Http.Text.{text}
use clibmedia_transfer_proto.Http.Url.{url_encode}
use clibmedia_transfer_proto.Http.Request.{
  HttpMethod, get, post, head, put, delete, options, patch, invalid, Version, http10, http11,
  unknown, Fields, HttpRequest, new_request, add_header, set_status_code,
}

-- The table of `ParseStatusMessage`.
abbrev pub status_messages : List (ℕ × Bytes)
status_messages =
    (0, text "unknown")
    ∷ (100, text "Continue")
    ∷ (101, text "Switching Protocols")
    ∷ (200, text "OK")
    ∷ (201, text "Created")
    ∷ (202, text "Accepted")
    ∷ (203, text "Non Authoritative Information")
    ∷ (204, text "No Content")
    ∷ (205, text "Reset Content")
    ∷ (206, text "Partial Content")
    ∷ (300, text "Multiple Choices")
    ∷ (301, text "Moved Permanently")
    ∷ (302, text "Found")
    ∷ (303, text "See Other")
    ∷ (304, text "Not Modified")
    ∷ (305, text "Use Proxy")
    ∷ (307, text "Temporary Redirect")
    ∷ (308, text "Permanent Redirect")
    ∷ (400, text "Bad Request")
    ∷ (401, text "Unauthorized")
    ∷ (402, text "Payment Required")
    ∷ (403, text "Forbidden")
    ∷ (404, text "Not Found")
    ∷ (405, text "Method Not Allowed")
    ∷ (406, text "Not Acceptable")
    ∷ (407, text "Proxy Authentication Required")
    ∷ (408, text "Request Timeout")
    ∷ (409, text "Conflict")
    ∷ (410, text "Gone")
    ∷ (411, text "Length Required")
    ∷ (412, text "Precondition Failed")
    ∷ (413, text "Request Entity Too Large")
    ∷ (414, text "Request URI Too Large")
    ∷ (415, text "Unsupported Media Type")
    ∷ (416, text "Requested Range Not Satisfiable")
    ∷ (417, text "Expectation Failed")
    ∷ (418, text "Im A Teapot")
    ∷ (421, text "Misdirected Request")
    ∷ (425, text "Too Early")
    ∷ (426, text "Upgrade Required")
    ∷ (428, text "Precondition Required")
    ∷ (429, text "Too Many Requests")
    ∷ (431, text "Request Header Fields Too Large")
    ∷ (451, text "Unavailable For Legal Reasons")
    ∷ (500, text "Internal Server Error")
    ∷ (501, text "Not Implemented")
    ∷ (502, text "Bad Gateway")
    ∷ (503, text "Service Unavailable")
    ∷ (504, text "Gateway Timeout")
    ∷ (505, text "HTTP Version Not Supported")
    ∷ (510, text "Not Extended")
    ∷ []

find_message : ℕ → List (ℕ × Bytes) → Bytes
find_message code [] = text "unknown"
find_message code ((c, message) ∷ rest) = if c == code then message else find_message code rest

unfoldable pub parse_status_message : ℕ → Bytes
unfolding find_message
parse_status_message code = find_message code status_messages

-- A uint32_t in decimal: ten digits at most.
decimal_loop : ℕ → ℕ → Bytes → Bytes
decimal_loop zero n digits = digits
decimal_loop (suc fuel) n digits =
    let rest = decimal_loop fuel (n / 10) ((b'0' + n % 10) ∷ digits) in
    if n / 10 == 0 then (b'0' + n % 10) ∷ digits else rest

unfoldable pub decimal : ℕ → Bytes
unfolding decimal_loop
decimal n = decimal_loop 10 n []

unfoldable pub method_text : HttpMethod → Bytes
method_text get = text "GET "
method_text post = text "POST "
method_text head = text "HEAD "
method_text put = text "PUT "
method_text delete = text "DELETE "
method_text options = text "OPTIONS "
method_text patch = text "PATCH "
method_text invalid = text "UNKNOW "

unfoldable pub version_text : Version → Bytes
version_text http10 = text "HTTP/1.0 "
version_text http11 = text "HTTP/1.1 "
version_text unknown = text "HTTP/1.1 "

more_parameters : Fields → Bytes
more_parameters [] = []
more_parameters ((k, v) ∷ fields) = text "&" ++ (k ++ (text "=" ++ (v ++ more_parameters fields)))

unfoldable print_parameters : Fields → Bytes
unfolding more_parameters
print_parameters [] = []
print_parameters ((k, v) ∷ fields) = text "?" ++ (k ++ (text "=" ++ (v ++ more_parameters fields)))

unfoldable print_path : Bytes → Bytes
print_path [] = text "/"
print_path (c ∷ cs) = c ∷ cs

-- `AppendRequestFirstLine` and `AppendResponseFirstLine`, without the line end.
unfoldable pub append_request_first_line : HttpRequest → Bytes
unfolding method_text version_text print_parameters print_path
append_request_first_line r =
    method_text r.method
    ++ (url_encode (print_path r.path ++ print_parameters r.parameters)
        ++ (text " " ++ version_text r.version))

unfoldable pub append_response_first_line : HttpRequest → Bytes
unfolding version_text decimal parse_status_message
append_response_first_line r =
    version_text r.version ++ (decimal r.code ++ (text " " ++ parse_status_message r.code))

-- One line for each header, and the empty line.
unfoldable pub print_headers : Fields → Bytes
print_headers [] = crlf
print_headers ((k, v) ∷ fields) = k ++ (text ": " ++ (v ++ (crlf ++ print_headers fields)))

unfoldable pub first_line : HttpRequest → Bytes
unfolding append_request_first_line append_response_first_line
first_line r = if r.is_request then append_request_first_line r else append_response_first_line r

unfoldable pub make_headers : HttpRequest → Bytes
unfolding first_line print_headers
make_headers r = first_line r ++ (crlf ++ print_headers r.headers)

-- `AppendToBuffer`, for the body that the request holds.
unfoldable pub append_to_buffer : Bytes → HttpRequest → Bytes
unfolding make_headers
append_to_buffer body r = make_headers r ++ body

abbrev allowed_methods : HttpRequest → HttpRequest
allowed_methods r = add_header (text "Access-Control-Allow-Headers") (text "content-type") (
    add_header (text "Allow") (text "POST, GET, OPTIONS") (
      add_header (text "Access-Control-Allow-Methods") (text "POST, GET, OPTIONS")
        (add_header (text "Access-Control-Allow-Origin") (text "*") r)))

abbrev error_response : ℕ → HttpRequest
error_response code = allowed_methods (
    add_header (text "User-Agent") (text "WebServer")
      (set_status_code (pos code) (new_request false)))

unfoldable new_http_400_response : HttpRequest
new_http_400_response = error_response 400

unfoldable new_http_404_response : HttpRequest
new_http_404_response = error_response 404

unfoldable new_http_options_response : HttpRequest
new_http_options_response = allowed_methods (
    add_header (text "content-type") (text "text/plain") (
      add_header (text "content-length") (text "0") (
        add_header (text "server") (text "WebServer")
          (set_status_code (pos 200) (new_request false)))))
