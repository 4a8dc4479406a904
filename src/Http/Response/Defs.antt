-- ===== src/Http/Response/Defs.antt =====
-- HttpResponse.cpp: a response, its setters and its text.
use aorta.Prelude.{
  ℕ, Bool, true, false, not, ◌&&◌, List, [], ◌∷◌, ◌++◌, if◌then◌else◌, null, length, to_string,
  Bytes, codes,
}
use aorta.Http.Ctype.{equals_ignore_case}

pub record HttpResponse : Type 0 where
  pub version : Bytes
  pub status_code : ℕ
  pub reason : Bytes
  pub headers : List (Bytes × Bytes)
  pub body : Bytes
  pub send_body : Bool
  pub send_file : Bool
  pub file_path : Bytes
  pub file_size : ℕ

-- `HttpResponse{}`.
abbrev pub empty_response : HttpResponse
empty_response = record {
  version = codes "HTTP/1.1";
  status_code = 200;
  reason = codes "OK";
  headers = [];
  body = [];
  send_body = true;
  send_file = false;
  file_path = [];
  file_size = 0;
}

unfoldable pub set_status : ℕ → Bytes → HttpResponse → HttpResponse
set_status code reason_phrase r = record r { status_code = code; reason = reason_phrase }

unfoldable pub set_body : Bytes → HttpResponse → HttpResponse
set_body response_body r = record r {
  body = response_body;
  send_file = false;
  file_path = [];
  file_size = 0;
}

unfoldable pub set_file : Bytes → ℕ → HttpResponse → HttpResponse
set_file path size r = record r { file_path = path; file_size = size; send_file = true; body = [] }

unfoldable pub add_header : Bytes → Bytes → HttpResponse → HttpResponse
add_header name value r = record r { headers = r.headers ++ (name, value) ∷ [] }

-- The loop of `setHeader`, and the `push_back` behind it.
unfoldable pub put_header : Bytes → Bytes → List (Bytes × Bytes) → List (Bytes × Bytes)
unfolding equals_ignore_case
put_header name value [] = (name, value) ∷ []
put_header name value ((n, v) ∷ headers) =
    if equals_ignore_case n name
    then (n, value) ∷ headers
    else (n, v) ∷ put_header name value headers

unfoldable pub set_header : Bytes → Bytes → HttpResponse → HttpResponse
unfolding put_header
set_header name value r = record r { headers = put_header name value r.headers }

unfoldable pub set_content_type : Bytes → HttpResponse → HttpResponse
unfolding set_header
set_content_type content_type r = set_header (codes "Content-Type") content_type r

unfoldable pub set_content_length_to : ℕ → HttpResponse → HttpResponse
unfolding set_header to_string
set_content_length_to size r = set_header (codes "Content-Length") (to_string size) r

unfoldable pub set_content_length : HttpResponse → HttpResponse
unfolding set_content_length_to
set_content_length r =
    if r.send_file
    then set_content_length_to r.file_size r
    else set_content_length_to (length r.body) r

unfoldable pub set_connection : Bytes → HttpResponse → HttpResponse
unfolding set_header
set_connection connection r = set_header (codes "Connection") connection r

unfoldable pub set_send_body : Bool → HttpResponse → HttpResponse
set_send_body value r = record r { send_body = value }

unfoldable pub has_file : HttpResponse → Bool
has_file r = r.send_file && not (null r.file_path)

abbrev pub crlf : Bytes
crlf = b'\r' ∷ b'\n' ∷ []

unfoldable pub header_lines : List (Bytes × Bytes) → Bytes
header_lines [] = []
header_lines ((n, v) ∷ headers) = n ++ ((codes ": ") ++ (v ++ (crlf ++ header_lines headers)))

unfoldable pub status_line : HttpResponse → Bytes
unfolding to_string
status_line r = r.version ++ (b' ' ∷ (to_string r.status_code ++ (b' ' ∷ r.reason)))

abbrev pub sent_body : HttpResponse → Bytes
sent_body r = if r.send_body && not r.send_file then r.body else []

unfoldable pub serialize : HttpResponse → Bytes
unfolding header_lines status_line
serialize r = status_line r ++ (crlf ++ (header_lines r.headers ++ (crlf ++ sent_body r)))
