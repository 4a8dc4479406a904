-- ===== src/Http/Parser/Steps.antt =====
-- HttpParser.cpp, `parse`: one round in each state, and the loop.
use aorta.Prelude.{
  ℕ, ◌+◌, ◌-◌, true, not, ◌&&◌, ◌||◌, [], ◌∷◌, ◌++◌, Bytes, codes, sub_size, eq_bytes, find_char,
  find_char_from, find_crlf_from, substr, length, take, drop, null, ltb, leb, ◌==◌, ◌⊎◌, inl, inr,
}
use aorta.Http.Ctype.{equals_ignore_case, skip_blanks, trim}
use aorta.Http.Parser.Outcome.{Outcome, continue, return, ◌>>=◌, if◌then◌else◌, on_found}
use aorta.Http.Parser.Defs.{
  read_length, headers, body, chunk_size, ParseResult, need_more_data, bad_request,
  request_line_too_large, headers_too_large, too_many_headers, unsupported_transfer_encoding,
  unsupported_version, Parser, max_request_line_size, max_header_line_size, max_headers_size,
  max_header_count, is_valid_method, is_valid_target, is_valid_header_name,
}

-- The checks on the three parts, which are stored before they are checked.
unfoldable pub check_request_line : Parser → ℕ → Outcome
check_request_line p end =
    if not (is_valid_method p.request.method)
    then return bad_request p
    else if not (is_valid_target p.request.target)
    then return bad_request p
    else if not (eq_bytes p.request.version (codes "HTTP/1.1"))
    then return unsupported_version p
    else continue (record p { cursor = end + 2; state = headers })

unfoldable pub store_request_line : Parser → Bytes → ℕ → ℕ → ℕ → Outcome
store_request_line p line first second end =
    if first == 0 || second == first + 1 || leb (length line) (second + 1)
    then return bad_request p
    else check_request_line
        (record p {
          request = record (p.request) {
            method = take first line;
            target = substr line (first + 1) (second - first - 1);
            version = drop (second + 1) line;
          };
        })
        end

unfoldable pub split_request_line : Parser → Bytes → ℕ → Outcome
split_request_line p line end = on_found (find_char b' ' line) (return bad_request p) (λ first.
    on_found (find_char_from b' ' line (first + 1)) (return bad_request p) (λ second.
      on_found (find_char_from b' ' line (second + 1)) (store_request_line p line first second end)
        (λ _. return bad_request p)))

-- `if(state == State::RequestLine)`.
unfoldable pub step_request_line : Bytes → Parser → Outcome
step_request_line buffer p =
    on_found (find_crlf_from buffer p.cursor)
      (if ltb max_request_line_size (sub_size (length buffer) p.cursor)
        then return request_line_too_large p
        else return need_more_data p)
      (λ end.
        if ltb max_request_line_size (end - p.cursor)
        then return request_line_too_large p
        else split_request_line p (substr buffer p.cursor (end - p.cursor)) end)

unfoldable pub host_header : Bytes → Bytes → Parser → Outcome
host_header name value p =
    if equals_ignore_case name (codes "Host")
    then if ltb 1 (p.host_count + 1)
      then return bad_request (record p { host_count = p.host_count + 1 })
      else if null value
      then return bad_request (record p { host_count = p.host_count + 1 })
      else continue (record p { host_count = p.host_count + 1 })
    else continue p

unfoldable pub store_length : Parser → ParseResult ⊎ ℕ → Outcome
store_length p (inl r) = return r p
store_length p (inr n) =
    if p.has_content_length && not (p.content_length == n)
    then return bad_request p
    else continue (record p { content_length = n; has_content_length = true })

unfoldable pub content_length_header : Bytes → Bytes → Parser → Outcome
content_length_header name value p =
    if equals_ignore_case name (codes "Content-Length")
    then if null value then return bad_request p else store_length p (read_length 0 value)
    else continue p

unfoldable pub transfer_encoding_header : Bytes → Bytes → Parser → Outcome
transfer_encoding_header name value p =
    if equals_ignore_case name (codes "Transfer-Encoding")
    then if p.has_transfer_encoding
      then return bad_request p
      else if not (equals_ignore_case (trim value) (codes "chunked"))
      then return unsupported_transfer_encoding p
      else continue (record p { has_transfer_encoding = true; chunked_transfer_encoding = true })
    else continue p

unfoldable pub push_header : Bytes → Bytes → ℕ → Parser → Outcome
push_header name value end p = continue (record p {
  request = record (p.request) { headers = p.request.headers ++ (name, value) ∷ [] };
  cursor = end + 2;
})

unfoldable pub store_header : Bytes → Bytes → ℕ → Parser → Outcome
store_header name value end p = do
  counted ← host_header name value p
  sized ← content_length_header name value counted
  coded ← transfer_encoding_header name value sized
  push_header name value end coded

unfoldable pub split_header : Bytes → ℕ → Parser → Outcome
split_header line end p = on_found (find_char b':' line) (return bad_request p) (λ colon.
    if colon == 0
    then return bad_request p
    else if not (is_valid_header_name (take colon line))
    then return bad_request p
    else store_header (take colon line) (skip_blanks (drop (colon + 1) line)) end p)

-- At the empty line; the cursor is already behind it.
unfoldable pub end_of_headers : Parser → Outcome
end_of_headers p =
    if not (p.host_count == 1)
    then return bad_request p
    else if p.has_transfer_encoding && p.has_content_length
    then return bad_request p
    else if p.has_transfer_encoding
    then if not p.chunked_transfer_encoding
      then return unsupported_transfer_encoding p
      else continue (record p { state = chunk_size })
    else continue (record p { state = body })

unfoldable pub count_header : Bytes → ℕ → Parser → Outcome
count_header buffer end p =
    if ltb max_header_count (p.header_count + 1)
    then return too_many_headers (record p { header_count = p.header_count + 1 })
    else split_header (substr buffer p.cursor (end - p.cursor)) end
        (record p { header_count = p.header_count + 1 })

unfoldable pub header_line : Bytes → ℕ → Parser → Outcome
header_line buffer end p =
    if ltb max_header_line_size (end - p.cursor)
    then return headers_too_large p
    else if ltb max_headers_size (p.headers_size + (end - p.cursor) + 2)
    then return headers_too_large p
    else if end == p.cursor
    then end_of_headers
        (record p { headers_size = p.headers_size + (end - p.cursor) + 2; cursor = end + 2 })
    else count_header buffer end (record p { headers_size = p.headers_size + (end - p.cursor) + 2 })

-- `if(state == State::Headers)`.
unfoldable pub step_headers : Bytes → Parser → Outcome
step_headers buffer p =
    if ltb (length buffer) p.cursor
    then return bad_request p
    else on_found (find_crlf_from buffer p.cursor)
        (if ltb max_header_line_size (sub_size (length buffer) p.cursor)
          then return headers_too_large p
          else if ltb max_headers_size (p.headers_size + sub_size (length buffer) p.cursor)
          then return headers_too_large p
          else return need_more_data p)
        (λ end. header_line buffer end p)
