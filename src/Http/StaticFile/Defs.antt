-- ===== src/Http/StaticFile/Defs.antt =====
-- include/http/StaticFileHandler.hpp and http/StaticFileHandler.cpp.
use aorta.Prelude.{
  ℕ, Bool, true, false, not, ◌&&◌, ◌||◌, ◌++◌, if◌then◌else◌, null, ltb, eq_bytes, ends_with,
  find_text, find_char, is_found, Bytes, codes,
}
use aorta.Http.Request.{HttpRequest}
use aorta.Http.Response.Defs.{
  HttpResponse, set_status, set_body, set_file, set_content_type, set_connection,
  set_content_length, set_send_body,
}
use aorta.Http.Router.{text_plain, keep_alive}

abbrev pub max_file_size : ℕ
max_file_size = 16777216

unfoldable pub is_safe_path : Bytes → Bool
unfolding find_text find_char
is_safe_path target =
    if null target
    then false
    else if is_found (find_text (codes "..") target)
    then false
    else not (is_found (find_char b'\\' target))

unfoldable pub get_file_path : Bytes → Bytes → Bytes
unfolding eq_bytes
get_file_path public_directory target =
    if eq_bytes target (codes "/")
    then public_directory ++ codes "/index.html"
    else public_directory ++ target

unfoldable pub get_content_type : Bytes → Bytes
unfolding ends_with
get_content_type path =
    if ends_with path (codes ".html")
    then codes "text/html"
    else if ends_with path (codes ".css")
    then codes "text/css"
    else if ends_with path (codes ".js")
    then codes "application/javascript"
    else if ends_with path (codes ".json")
    then codes "application/json"
    else if ends_with path (codes ".png")
    then codes "image/png"
    else if ends_with path (codes ".jpg") || ends_with path (codes ".jpeg")
    then codes "image/jpeg"
    else if ends_with path (codes ".svg")
    then codes "image/svg+xml"
    else if ends_with path (codes ".txt")
    then codes "text/plain"
    else codes "application/octet-stream"

-- What `stat` answers: -1, or whether the file is a regular one, and its size.
pub data FileInfo : Type 0 where
  absent : FileInfo
  present : (is_regular : Bool) → (size : ℕ) → FileInfo

-- The text of an error: the five calls that each of the early ways out makes.
unfoldable pub refuse : ℕ → Bytes → HttpResponse → HttpResponse
unfolding set_status set_body set_content_type set_connection set_content_length
refuse code reason r =
    let filled = set_content_type text_plain (set_body reason (set_status code reason r)) in
    set_content_length (set_connection keep_alive filled)

unfoldable pub send_file : Bytes → ℕ → HttpResponse → HttpResponse
unfolding set_status set_file set_content_type set_connection set_content_length get_content_type
send_file path size r =
    let filled =
      set_content_type (get_content_type path)
        (set_file path size (set_status 200 (codes "OK") r)) in
    set_content_length (set_connection keep_alive filled)

-- From `stat` on.
unfoldable pub handle_file : Bool → Bytes → FileInfo → HttpResponse → HttpResponse
unfolding refuse send_file set_send_body
handle_file head path absent r = refuse 404 (codes "Not Found") r
handle_file head path (present is_regular size) r =
    if not is_regular
    then refuse 404 (codes "Not Found") r
    else if ltb max_file_size size
    then refuse 413 (codes "Content Too Large") r
    else if head
    then set_send_body false (send_file path size r)
    else send_file path size r

-- `handle`: whether it answers, and the response. `stat` says what stands at a path.
unfoldable pub handle :
    (Bytes → FileInfo) → Bytes → HttpRequest → HttpResponse → Bool × HttpResponse
unfolding eq_bytes is_safe_path get_file_path handle_file refuse
handle stat public_directory request response =
    let path = get_file_path public_directory request.target in
    if not (eq_bytes request.method (codes "GET")) && not (eq_bytes request.method (codes "HEAD"))
    then (false, response)
    else if not (is_safe_path request.target)
    then (true, refuse 403 (codes "Forbidden") response)
    else (true, handle_file (eq_bytes request.method (codes "HEAD")) path (stat path) response)
