-- ===== src/Http/Parser/Loop.antt =====
-- HttpParser.cpp, `parse`: the states of the body, the dispatch on the state and the loop.
use aorta.Prelude.{
  ℕ, zero, suc, ◌+◌, ◌-◌, ◌*◌, Bool, false, not, ◌||◌, Option, none, some, ◌++◌, Bytes, sub_size,
  find_char, find_crlf_from, substr, length, get_elem?, take, ltb, ◌==◌,
}
use aorta.Http.Parser.Outcome.{Outcome, continue, return, if◌then◌else◌, on_found}
use aorta.Http.Parser.Defs.{
  at_most, after_chunk_size, State, request_line, headers, body, chunk_size, chunk_data,
  chunk_data_crlf, chunk_trailers, ParseResult, need_more_data, complete, bad_request,
  headers_too_large, too_many_headers, body_too_large, Parser, max_header_line_size,
  max_headers_size, max_header_count, max_body_size, is_valid_header_name, is_valid_chunk_size,
}
use aorta.Http.Parser.Steps.{step_request_line, step_headers}

-- `request.body.append(buffer, cursor, count)` and `cursor += count`.
abbrev pub append_body : Bytes → ℕ → Parser → Parser
append_body buffer n p = record p {
  request = record (p.request) { body = p.request.body ++ substr buffer p.cursor n };
  cursor = p.cursor + n;
}

abbrev finish_body : Parser → Outcome
finish_body p =
    if ltb (length p.request.body) p.content_length
    then return need_more_data p
    else return complete p

-- `if(state == State::Body)`.
unfoldable pub step_body : Bytes → Parser → Outcome
step_body buffer p =
    if not p.has_content_length || p.content_length == 0
    then return complete p
    else if ltb max_body_size p.content_length
    then return body_too_large p
    else if ltb (length buffer) p.cursor
    then return bad_request p
    else if length buffer - p.cursor == 0
    then return need_more_data p
    else finish_body (
        append_body buffer
          (at_most (sub_size p.content_length (length p.request.body)) (length buffer - p.cursor))
          p)

-- `if(state == State::ChunkSize)`.
unfoldable pub step_chunk_size : Bytes → Parser → Outcome
step_chunk_size buffer p =
    on_found (find_crlf_from buffer p.cursor)
      (if ltb max_header_line_size (sub_size (length buffer) p.cursor)
        then return headers_too_large p
        else return need_more_data p)
      (λ end.
        if ltb max_header_line_size (end - p.cursor)
        then return headers_too_large p
        else on_found (is_valid_chunk_size (substr buffer p.cursor (end - p.cursor)))
            (return bad_request p)
            (λ size. continue (record p {
              cursor = end + 2;
              chunk_size = size;
              chunk_bytes_read = 0;
              state = after_chunk_size size;
            })))

abbrev finish_chunk : Parser → Outcome
finish_chunk p =
    if ltb p.chunk_bytes_read p.chunk_size
    then return need_more_data p
    else continue (record p { state = chunk_data_crlf })

abbrev take_chunk : Bytes → ℕ → Parser → Outcome
take_chunk buffer n p =
    if ltb max_body_size (length p.request.body + n)
    then return body_too_large p
    else finish_chunk
        (record (append_body buffer n p) { chunk_bytes_read = p.chunk_bytes_read + n })

-- `if(state == State::ChunkData)`.
unfoldable pub step_chunk_data : Bytes → Parser → Outcome
step_chunk_data buffer p =
    if ltb (length buffer) p.cursor
    then return bad_request p
    else if length buffer - p.cursor == 0
    then return need_more_data p
    else take_chunk buffer
        (at_most (sub_size p.chunk_size p.chunk_bytes_read) (length buffer - p.cursor)) p

-- `buffer[i] == c`; past the end, where the source has no value, `false`.
abbrev pub is_at : Bytes → ℕ → ℕ → Bool
is_at buffer i c = elim (get_elem? buffer i) [ none ↦ false | some d ↦ d == c ]

-- `if(state == State::ChunkDataCRLF)`.
unfoldable pub step_chunk_data_crlf : Bytes → Parser → Outcome
step_chunk_data_crlf buffer p =
    if ltb (sub_size (length buffer) p.cursor) 2
    then return need_more_data p
    else if not (is_at buffer p.cursor b'\r') || not (is_at buffer (p.cursor + 1) b'\n')
    then return bad_request p
    else continue (record p { cursor = p.cursor + 2; state = chunk_size })

unfoldable pub split_trailer : Bytes → ℕ → Parser → Outcome
split_trailer line end p = on_found (find_char b':' line) (return bad_request p) (λ colon.
    if colon == 0
    then return bad_request p
    else if not (is_valid_header_name (take colon line))
    then return bad_request p
    else continue (record p { cursor = end + 2 }))

abbrev count_trailer : Bytes → ℕ → Parser → Outcome
count_trailer buffer end p =
    if ltb max_header_count (p.trailer_count + 1)
    then return too_many_headers (record p { trailer_count = p.trailer_count + 1 })
    else split_trailer (substr buffer p.cursor (end - p.cursor)) end
        (record p { trailer_count = p.trailer_count + 1 })

-- One round of the loop of `if(state == State::ChunkTrailers)`.
unfoldable pub step_chunk_trailers : Bytes → Parser → Outcome
step_chunk_trailers buffer p =
    on_found (find_crlf_from buffer p.cursor)
      (if ltb max_header_line_size (sub_size (length buffer) p.cursor)
        then return headers_too_large p
        else if ltb max_headers_size (p.trailer_size + sub_size (length buffer) p.cursor)
        then return headers_too_large p
        else return need_more_data p)
      (λ end.
        if ltb max_headers_size (p.trailer_size + (end - p.cursor) + 2)
        then return headers_too_large p
        else if end == p.cursor
        then return complete
            (record p { trailer_size = p.trailer_size + (end - p.cursor) + 2; cursor = end + 2 })
        else count_trailer buffer end
            (record p { trailer_size = p.trailer_size + (end - p.cursor) + 2 }))

unfoldable pub step_in : State → Bytes → Parser → Outcome
step_in request_line buffer p = step_request_line buffer p
step_in headers buffer p = step_headers buffer p
step_in body buffer p = step_body buffer p
step_in chunk_size buffer p = step_chunk_size buffer p
step_in chunk_data buffer p = step_chunk_data buffer p
step_in chunk_data_crlf buffer p = step_chunk_data_crlf buffer p
step_in chunk_trailers buffer p = step_chunk_trailers buffer p

abbrev pub step : Bytes → Parser → Outcome
step buffer p = step_in p.state buffer p

-- `while(true)`, on fuel; `none` means that the fuel ran out.
unfoldable pub run : ℕ → Bytes → Parser → Option (ParseResult × Parser)
run zero buffer p = none
run (suc fuel) buffer p = elim (step buffer p) [
  | continue q ↦ run fuel buffer q
  | return r q ↦ some (r, q)
]

-- Each round but one moves the cursor, so two rounds for each byte and two more are enough.
unfoldable pub parse : Bytes → Parser → Option (ParseResult × Parser)
unfolding run
parse buffer p = run (2 * length buffer + 2) buffer p
