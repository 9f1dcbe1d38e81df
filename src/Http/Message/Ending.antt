-- ===== src/Http/Message/Ending.antt =====
-- Where the header that is printed ends, for a reader that looks for an empty line.
use clibmedia_transfer_proto.Common.{
  ℕ, zero, suc, ◌+◌, ◌-◌, ◌/◌, ◌%◌, ◌≡◌, ◌≤◌, ◌<◌, refl, sym, ap, ◌∙◌, Bool, true, false, not, ◌&&◌,
  some, List, [], ◌∷◌, ◌++◌, ◌==◌, arith, length, length-append, append_assoc, Bool-cases, inl, inr,
  ==_iff,
}
use clibmedia_transfer_proto.ByteIo.{Bytes}
use clibmedia_transfer_proto.Http.Search.{crlf, crlf_crlf, search, starts_with}
use clibmedia_transfer_proto.Http.Text.{text}
use clibmedia_transfer_proto.Http.Url.{
  url_encode, encode_char, char_to_hex, hex_digit, is_unescaped,
}
use clibmedia_transfer_proto.Http.Request.{
  HttpMethod, get, post, head, put, delete, options, patch, invalid, Version, unknown, http10,
  http11, Fields, HttpRequest,
}
use clibmedia_transfer_proto.Http.Message.{
  status_messages, find_message, parse_status_message, decimal_loop, decimal, method_text,
  version_text, append_request_first_line, append_response_first_line, print_headers, first_line,
  make_headers, append_to_buffer,
}

-- No carriage return in a text.
abbrev is_clean : Bytes → Bool
is_clean [] = true
is_clean (c ∷ cs) = not (c == 13) && is_clean cs

abbrev are_clean : Fields → Bool
are_clean [] = true
are_clean ((k, v) ∷ fields) = is_clean k && (is_clean v && are_clean fields)

clean-append : (a b : Bytes) → is_clean a ≡ true → is_clean b ≡ true → is_clean (a ++ b) ≡ true
clean-append [] b ha hb = hb
clean-append (c ∷ a) b ha hb =
    let rest : is_clean (a ++ b) ≡ true = clean-append a b (ground arith) hb in ground arith

search-clean :
    (line t : Bytes) (i : ℕ)
    → is_clean line ≡ true
    → search crlf_crlf t ≡ some i
    → search crlf_crlf (line ++ t) ≡ some (length line + i)
unfolding search starts_with
search-clean [] t i h e = e ∙ ap some (omega arith)
search-clean (c ∷ line) t i h e =
    let rest : search crlf_crlf (line ++ t) ≡ some (length line + i) =
      search-clean line t i (ground arith) e in
    let differs : 13 == c ≡ false = ground arith in
    rw (search, starts_with, differs, rest) (ap some (omega arith))

search-skip :
    (b : ℕ) (t : Bytes) (i : ℕ)
    → starts_with crlf_crlf (b ∷ t) ≡ false
    → search crlf_crlf t ≡ some i
    → search crlf_crlf (b ∷ t) ≡ some (suc i)
unfolding search
search-skip b t i h e = rw (search, h, e) refl

-- A line end that another line follows.
search-line_end :
    (line t : Bytes) (i : ℕ)
    → 0 < length line
    → is_clean line ≡ true
    → search crlf_crlf t ≡ some i
    → search crlf_crlf (crlf ++ (line ++ t)) ≡ some (2 + (length line + i))
search-line_end [] t i some' h e = absurd (omega arith)
search-line_end (c ∷ line) t i some' h e =
    search-skip 13 (10 ∷ c ∷ (line ++ t)) (suc (length (c ∷ line) + i))
      (unfold starts_with in rw differs refl)
      (search-skip 10 (c ∷ (line ++ t)) (length (c ∷ line) + i) (unfold starts_with in refl)
        (search-clean (c ∷ line) t i h e))
    ∙ ap some (omega arith)
  where
    differs : 13 == c ≡ false
    differs = ground arith

length-print_headers : (fields : Fields) → 2 ≤ length (print_headers fields)
unfolding print_headers
length-print_headers [] = omega arith
length-print_headers ((k, v) ∷ fields) =
    omega (arith, length-append k (text ": " ++ (v ++ (crlf ++ print_headers fields))))

search-print_headers :
    (fields : Fields) (body : Bytes)
    → are_clean fields ≡ true
    → search crlf_crlf (crlf ++ (print_headers fields ++ body))
      ≡ some (length (print_headers fields) - 2)
unfolding print_headers
search-print_headers [] body h = unfold search starts_with in refl
search-print_headers ((k, v) ∷ fields) body h =
    ap (λ t. search crlf_crlf (crlf ++ t)) parts
    ∙ search-line_end line (crlf ++ (print_headers fields ++ body))
        (length (print_headers fields) - 2) (omega (arith, length-append k (text ": " ++ v)))
        (clean-append k (text ": " ++ v) (ground arith) (ground arith))
        (search-print_headers fields body (ground arith))
    ∙ ap some (
        omega (
          arith,
          length-print_headers fields,
          length-append k (text ": " ++ v),
          length-append k (text ": " ++ (v ++ (crlf ++ print_headers fields))),
          length-append v (crlf ++ print_headers fields),
        ))
  where
    line : Bytes
    line = k ++ (text ": " ++ v)

    parts :
        print_headers ((k, v) ∷ fields) ++ body ≡ line ++ (crlf ++ (print_headers fields ++ body))
    parts =
        append_assoc k (text ": " ++ (v ++ (crlf ++ print_headers fields))) body
        ∙ ap (λ t. k ++ (text ": " ++ t)) (append_assoc v (crlf ++ print_headers fields) body)
        ∙ sym (append_assoc k (text ": " ++ v) (crlf ++ (print_headers fields ++ body)))

hex_digit-clean : (d : ℕ) → hex_digit d == 13 ≡ false
unfolding hex_digit
hex_digit-clean d = ground arith

unescaped_clean : (c : ℕ) → is_unescaped c ≡ true → c == 13 ≡ false
unescaped_clean c h = elim (Bool-cases (c == 13)) [
  | inr other ↦ other
  | inl same ↦
      let copied : is_unescaped 13 ≡ true = rw (sym ((==_iff c 13).0 same)) h in
      absurd (plain copied)
]
  where
    plain : is_unescaped 13 ≡ true → ⊥
    plain h = let no : is_unescaped 13 ≡ false = unfold is_unescaped in refl in cc

encode_char-clean : (c : ℕ) → is_clean (encode_char c) ≡ true
unfolding encode_char
encode_char-clean c = elim (Bool-cases (c == b' ')) [
  | inl space ↦ rw (encode_char, space) refl
  | inr other ↦ elim (Bool-cases (is_unescaped c)) [
    | inl copied ↦
        rw (encode_char, other, copied)
          (let plain : c == 13 ≡ false = unescaped_clean c copied in rw plain refl)
    | inr escaped ↦
        rw (encode_char, other, escaped)
          (unfold char_to_hex in rw (hex_digit-clean (c / 16 % 16), hex_digit-clean (c % 16)) refl)
  ]
]

url_encode-clean : (s : Bytes) → is_clean (url_encode s) ≡ true
unfolding url_encode
url_encode-clean [] = refl
url_encode-clean (c ∷ s) =
    clean-append (encode_char c) (url_encode s) (encode_char-clean c) (url_encode-clean s)

decimal_loop-clean :
    (fuel n : ℕ) (digits : Bytes)
    → is_clean digits ≡ true
    → is_clean (decimal_loop fuel n digits) ≡ true
unfolding decimal_loop
decimal_loop-clean zero n digits h = h
decimal_loop-clean (suc fuel) n digits h =
    let digit : is_clean ((b'0' + n % 10) ∷ digits) ≡ true = ground arith in
    let rest = decimal_loop-clean fuel (n / 10) ((b'0' + n % 10) ∷ digits) digit in ground arith

method_text-clean : (m : HttpMethod) → is_clean (method_text m) ≡ true
unfolding method_text
method_text-clean get = refl
method_text-clean post = refl
method_text-clean head = refl
method_text-clean put = refl
method_text-clean delete = refl
method_text-clean options = refl
method_text-clean patch = refl
method_text-clean invalid = refl

version_text-clean : (v : Version) → is_clean (version_text v) ≡ true
unfolding version_text
version_text-clean unknown = refl
version_text-clean http10 = refl
version_text-clean http11 = refl

abbrev messages_clean : List (ℕ × Bytes) → Bool
messages_clean [] = true
messages_clean ((c, message) ∷ rest) = is_clean message && messages_clean rest

find_message-clean :
    (code : ℕ) (table : List (ℕ × Bytes))
    → messages_clean table ≡ true
    → is_clean (find_message code table) ≡ true
unfolding find_message
find_message-clean code [] h = refl
find_message-clean code ((c, message) ∷ rest) h = elim (Bool-cases (c == code)) [
  | inl same ↦ rw (find_message, same) (ground arith)
  | inr other ↦ rw (find_message, other) (find_message-clean code rest (ground arith))
]

first_line-clean : (r : HttpRequest) → is_clean (first_line r) ≡ true
unfolding first_line
first_line-clean r = elim (Bool-cases r.is_request) [
  | inl request ↦
      rw (first_line, request)
        (unfold append_request_first_line in
          clean-append (method_text r.method) _ (method_text-clean r.method)
            (clean-append (url_encode _) _ (url_encode-clean _) (version_text-clean r.version)))
  | inr response ↦
      rw (first_line, response)
        (unfold append_response_first_line in
          clean-append (version_text r.version) _ (version_text-clean r.version) (
            clean-append (decimal r.code) _ (unfold decimal in decimal_loop-clean 10 r.code [] refl)
              (unfold parse_status_message in find_message-clean r.code status_messages refl)))
]

-- The header that `MakeHeaders` prints, for fields without a carriage return, has its first empty
-- line at its end, whatever body follows: a reader that looks for one takes exactly the header.
pub search-make_headers :
    (r : HttpRequest) (body : Bytes)
    → are_clean r.headers ≡ true
    → search crlf_crlf (append_to_buffer body r) ≡ some (length (make_headers r) - 4)
unfolding append_to_buffer make_headers
search-make_headers r body h =
    ap (search crlf_crlf) (append_assoc (first_line r) (crlf ++ print_headers r.headers) body)
    ∙ search-clean (first_line r) (crlf ++ (print_headers r.headers ++ body))
        (length (print_headers r.headers) - 2) (first_line-clean r)
        (search-print_headers r.headers body h)
    ∙ ap some (
        omega (
          arith,
          length-print_headers r.headers,
          length-append (first_line r) (crlf ++ print_headers r.headers),
        ))
