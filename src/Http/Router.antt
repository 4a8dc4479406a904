-- ===== src/Http/Router.antt =====
-- include/http/HttpRouter.hpp and http/HttpRouter.cpp: the routes, and the search for a request's.
pub mod Outcome
use aorta.Prelude.{ℕ, Bool, true, false, List, [], ◌∷◌, ◌++◌, if◌then◌else◌, eq_bytes, Bytes, codes}
use aorta.Http.Request.{HttpRequest}
use aorta.Http.Response.Defs.{
  HttpResponse, set_status, set_body, set_content_type, set_header, set_connection,
  set_content_length,
}

abbrev pub Handler : Type 0
Handler = HttpRequest → HttpResponse → HttpResponse

pub record Route : Type 0 where
  pub method : Bytes
  pub path : Bytes
  pub handler : Handler

abbrev pub add_route : Bytes → Bytes → Handler → List Route → List Route
add_route method path handler routes =
    routes ++ (record { method = method; path = path; handler = handler }) ∷ []

abbrev pub get : Bytes → Handler → List Route → List Route
get path handler routes = add_route (codes "GET") path handler routes

abbrev pub post : Bytes → Handler → List Route → List Route
post path handler routes = add_route (codes "POST") path handler routes

abbrev pub put : Bytes → Handler → List Route → List Route
put path handler routes = add_route (codes "PUT") path handler routes

abbrev pub del : Bytes → Handler → List Route → List Route
del path handler routes = add_route (codes "DELETE") path handler routes

abbrev pub options : Bytes → Handler → List Route → List Route
options path handler routes = add_route (codes "OPTIONS") path handler routes

unfoldable pub method_matches : Bytes → Bytes → Bool
unfolding eq_bytes
method_matches route_method request_method = eq_bytes route_method request_method

unfoldable pub path_matches : Bytes → Bytes → Bool
unfolding eq_bytes
path_matches route_path request_path = eq_bytes route_path request_path

abbrev pub allowed_methods : Bytes
allowed_methods = codes "GET, HEAD, POST, PUT, DELETE, OPTIONS"

abbrev pub text_plain : Bytes
text_plain = codes "text/plain"

abbrev pub keep_alive : Bytes
keep_alive = codes "keep-alive"

unfoldable pub method_not_allowed : HttpResponse → HttpResponse
unfolding set_status set_body set_content_type set_header set_connection set_content_length
method_not_allowed r =
    let named = set_status 405 (codes "Method Not Allowed") r in
    let filled = set_content_type text_plain (set_body (codes "Method Not Allowed") named) in
    let allowing = set_header (codes "Allow") allowed_methods filled in
    set_content_length (set_connection keep_alive allowing)

unfoldable pub not_found : HttpResponse → HttpResponse
unfolding set_status set_body set_content_type set_connection set_content_length
not_found r =
    let named = set_status 404 (codes "Not Found") r in
    let filled = set_content_type text_plain (set_body (codes "Not Found") named) in
    set_content_length (set_connection keep_alive filled)

-- The loop of `route`, and what follows it.
unfoldable pub route_from : List Route → Bool → HttpRequest → HttpResponse → Bool × HttpResponse
unfolding method_matches path_matches method_not_allowed not_found
route_from [] path_found request response =
    if path_found then (false, method_not_allowed response) else (false, not_found response)
route_from (r ∷ routes) path_found request response =
    let passed = route_from routes path_found request response in
    let found = route_from routes true request response in
    if path_matches r.path request.target
    then if method_matches r.method request.method
      then (true, r.handler request response)
      else found
    else passed

unfoldable pub route : List Route → HttpRequest → HttpResponse → Bool × HttpResponse
unfolding route_from
route routes request response = route_from routes false request response
