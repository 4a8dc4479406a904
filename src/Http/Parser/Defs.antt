-- ===== src/Http/Parser/Defs.antt =====
-- HttpParser.cpp: the parser's state and the code of each of its states.
--
-- One round of `while(true)` is a function into `Outcome`: it goes on with a new state of the
-- object, or returns a result. The header and trailer loops make one round for each line; what
-- their `break` and `continue` lead to is a round of the outer loop in the same object state.
use aorta.Prelude.{
  ℕ, ◌+◌, ◌-◌, ◌*◌, ◌/◌, Bool, false, not, ◌&&◌, Option, none, some, [], ◌∷◌, Bytes, find_char,
  take, null, all, ltb, leb, ◌==◌, if◌then◌else◌, ◌⊎◌, inl, inr,
}
use aorta.Http.Ctype.{is_digit, is_xdigit, within, trim, is_token_char}
use aorta.Http.Request.{HttpRequest, empty_request}

pub data State : Type 0 where
  request_line headers body chunk_size chunk_data chunk_data_crlf chunk_trailers : State

pub data ParseResult : Type 0 where
  need_more_data complete bad_request request_line_too_large headers_too_large : ParseResult
  too_many_headers body_too_large unsupported_transfer_encoding unsupported_version : ParseResult

abbrev pub max_request_line_size : ℕ
max_request_line_size = 8192

abbrev pub max_header_line_size : ℕ
max_header_line_size = 8192

abbrev pub max_headers_size : ℕ
max_headers_size = 32768

abbrev pub max_header_count : ℕ
max_header_count = 100

abbrev pub max_body_size : ℕ
max_body_size = 1048576

pub record Parser : Type 0 where
  pub state : State
  pub request : HttpRequest
  pub cursor : ℕ
  pub content_length : ℕ
  pub headers_size : ℕ
  pub header_count : ℕ
  pub host_count : ℕ
  pub chunk_size : ℕ
  pub chunk_bytes_read : ℕ
  pub trailer_size : ℕ
  pub trailer_count : ℕ
  pub has_content_length : Bool
  pub has_transfer_encoding : Bool
  pub chunked_transfer_encoding : Bool

-- A new parser, and what `reset` leaves.
abbrev pub initial : Parser
initial = record {
  state = request_line;
  request = empty_request;
  cursor = 0;
  content_length = 0;
  headers_size = 0;
  header_count = 0;
  host_count = 0;
  chunk_size = 0;
  chunk_bytes_read = 0;
  trailer_size = 0;
  trailer_count = 0;
  has_content_length = false;
  has_transfer_encoding = false;
  chunked_transfer_encoding = false;
}

unfoldable pub reset : Parser → Parser
reset p = initial

-- The bytes consumed, and the parser with its cursor at the start of what is left.
unfoldable pub consume_parsed_bytes : Parser → ℕ × Parser
consume_parsed_bytes p = (p.cursor, record p { cursor = 0 })

unfoldable pub is_valid_header_name : Bytes → Bool
is_valid_header_name name = not (null name) && all is_token_char name

unfoldable pub is_valid_method : Bytes → Bool
is_valid_method method = not (null method) && all is_token_char method

abbrev pub is_target_char : ℕ → Bool
is_target_char c = leb 0x20 c && not (c == 0x7F)

unfoldable pub is_valid_target : Bytes → Bool
is_valid_target target = not (null target) && all is_target_char target

abbrev pub hex_digit : ℕ → ℕ
hex_digit c =
    if within b'0' b'9' c
    then c - b'0'
    else if within b'a' b'f' c
    then c - b'a' + 10
    else c - b'A' + 10

-- The loop of `isValidChunkSize`, over the digits left; `none` is `return false`.
unfoldable pub read_hex : ℕ → Bytes → Option ℕ
unfolding is_xdigit
read_hex size [] = some size
read_hex size (c ∷ s) =
    let digit = hex_digit c in
    let rest = read_hex (size * 16 + digit) s in
    if not (is_xdigit c)
    then none
    else if ltb ((max_body_size - digit) / 16) size
    then none
    else rest

abbrev pub before_extension : Bytes → Option ℕ → Bytes
before_extension s none = s
before_extension s (some i) = take i s

unfoldable pub is_valid_chunk_size : Bytes → Option ℕ
unfolding trim find_char read_hex
is_valid_chunk_size value =
    let chunk_value = trim (before_extension value (find_char b';' value)) in
    if null chunk_value then none else read_hex 0 chunk_value

-- The loop over the digits of a Content-Length value.
unfoldable pub read_length : ℕ → Bytes → ParseResult ⊎ ℕ
unfolding is_digit
read_length n [] = inr n
read_length n (c ∷ s) =
    let rest = read_length (n * 10 + (c - b'0')) s in
    if not (is_digit c)
    then inl bad_request
    else if ltb ((max_body_size - (c - b'0')) / 10) n
    then inl body_too_large
    else rest

-- The smaller of what a buffer holds and what a body still lacks.
abbrev pub at_most : ℕ → ℕ → ℕ
at_most limit n = if ltb limit n then limit else n

-- The state that a chunk's size leads to: the last chunk has size 0.
abbrev pub after_chunk_size : ℕ → State
after_chunk_size size = if size == 0 then chunk_trailers else chunk_data
