-- ===== src/Http/Parser/Tests.antt =====
-- HttpParser on concrete requests, and the parser's theorems at them.
use aorta.Prelude.{
  true, ◌≡◌, refl, some, [], ◌∷◌, Bytes, codes, eq_bytes, find_char, find_crlf, length,
}
use aorta.Http.Ctype.{is_digit, to_lower, equals_ignore_case, skip_blanks, trim, is_token_char}
use aorta.Http.Parser.Defs.{
  body, ParseResult, complete, Parser, initial, is_valid_method, is_valid_target,
  is_valid_header_name, read_length,
}
use aorta.Http.Parser.Steps.{
  step_request_line, split_request_line, store_request_line, check_request_line, store_length,
  step_headers, header_line, count_header, split_header, store_header, host_header,
  content_length_header, transfer_encoding_header, push_header, end_of_headers,
}
use aorta.Http.Parser.Loop.{step_in, step_body, parse}
use aorta.Http.Parser.Outcome.{◌>>=◌, if◌then◌else◌, on_found}
use aorta.Http.Parser.Session.{Fed, Fed-parse_returns, Fed-parse-IsAccepted}
use aorta.Http.Parser.Bounds.{Ends}
use aorta.Http.Parser.Accepted.{IsAccepted}

abbrev post_task : Bytes
post_task = codes "POST /tasks HTTP/1.1\r\nHost: a\r\nContent-Length: 7\r\n\r\ntitle=x"

abbrev after_task : Parser
after_task = record initial {
  state = body;
  cursor = 59;
  headers_size = 30;
  header_count = 2;
  host_count = 1;
  content_length = 7;
  has_content_length = true;
  request = record {
    method = codes "POST";
    target = codes "/tasks";
    version = codes "HTTP/1.1";
    headers = (codes "Host", codes "a") ∷ (codes "Content-Length", codes "7") ∷ [];
    body = codes "title=x";
  };
}

Fed-parse_returns_example :
    (r : ParseResult) × (q : Parser) × (parse post_task initial ≡ some (r, q))
    × Ends (length post_task) r q
Fed-parse_returns_example = Fed-parse_returns initial post_task Fed.start

parse-after_task : parse post_task initial ≡ some (complete, after_task)
unfolding parse step_in step_request_line split_request_line step_headers header_line count_header
    split_header store_header host_header content_length_header transfer_encoding_header push_header
    ◌>>=◌ if◌then◌else◌ on_found end_of_headers find_crlf find_char eq_bytes equals_ignore_case
    to_lower skip_blanks trim is_valid_method is_valid_target is_valid_header_name is_token_char
    step_body store_request_line check_request_line store_length read_length is_digit
parse-after_task = refl

Fed-parse-IsAccepted_example : IsAccepted after_task.request
Fed-parse-IsAccepted_example = Fed-parse-IsAccepted initial post_task Fed.start parse-after_task
