-- ===== src/Http/Handler/Framed.antt =====
-- HttpHandler.cpp, HttpRouter.cpp and StaticFileHandler.cpp: the framing of the answers.
use aorta.Prelude.{
  false-true, ℕ, ◌≡◌, refl, Bool, true, false, not, ◌&&◌, ◌||◌, List, [], ◌∷◌, ltb, eq_bytes,
  ends_with, if_intro, Bytes, codes,
}
use aorta.Http.Request.{HttpRequest}
use aorta.Http.Response.Defs.{
  HttpResponse, empty_response, set_content_type, set_connection, set_content_length,
}
use aorta.Http.Response.Framing.{
  is_line, IsHeaded, IsFramed, empty_response-IsHeaded, set_status-IsHeaded, set_body-IsHeaded,
  set_file-IsHeaded, set_header-IsHeaded, set_content_length-IsFramed, set_send_body-IsFramed,
}
use aorta.Http.Router.{
  Route, route_from, method_not_allowed, not_found, method_matches, path_matches, text_plain,
  keep_alive, allowed_methods,
}
use aorta.Http.StaticFile.Defs
use aorta.Http.StaticFile.Defs.{
  FileInfo, absent, present, refuse, send_file, handle_file, get_content_type, get_file_path,
  is_safe_path,
}
use aorta.Http.Handler.Answers.{
  set_response, set_error_response, storage_unavailable, task_not_found, application_json,
  all_tasks_response, created_response, updated_response, removed_response,
}
use aorta.Http.Handler.Escape.{Task}

pub connected :
    (r : HttpResponse) → IsHeaded r → IsFramed (set_content_length (set_connection keep_alive r))
unfolding set_connection
connected r h =
    set_content_length-IsFramed _ (set_header-IsHeaded (codes "Connection") keep_alive r refl h)

pub typed :
    (content_type : Bytes) (r : HttpResponse)
    → is_line content_type ≡ true
    → IsHeaded r
    → IsHeaded (set_content_type content_type r)
unfolding set_content_type
typed content_type r t h = set_header-IsHeaded (codes "Content-Type") content_type r t h

pub set_response-IsFramed :
    (code : ℕ) (reason message content_type : Bytes) (r : HttpResponse)
    → is_line reason ≡ true
    → is_line content_type ≡ true
    → IsHeaded r
    → IsFramed (set_response code reason message content_type r)
unfolding set_response
set_response-IsFramed code reason message content_type r h t k =
    connected _
      (typed content_type _ t (set_body-IsHeaded message _ (set_status-IsHeaded code reason r h k)))

pub set_error_response-IsFramed :
    (code : ℕ) (reason message : Bytes) (r : HttpResponse)
    → is_line reason ≡ true
    → IsHeaded r
    → IsFramed (set_error_response code reason message r)
unfolding set_error_response
set_error_response-IsFramed code reason message r h k =
    set_response-IsFramed code reason message text_plain r h refl k

refuse-IsFramed :
    (code : ℕ) (reason : Bytes) (r : HttpResponse)
    → is_line reason ≡ true
    → IsHeaded r
    → IsFramed (refuse code reason r)
unfolding refuse
refuse-IsFramed code reason r h k =
    connected _
      (typed text_plain _ refl (set_body-IsHeaded reason _ (set_status-IsHeaded code reason r h k)))

get_content_type-line : (path : Bytes) → is_line (get_content_type path) ≡ true
unfolding get_content_type
get_content_type-line path =
    let line = λ (s : Bytes). is_line s ≡ true in
    if_intro line (ends_with path (codes ".html")) (λ t. refl)
      λ t.
        if_intro line (ends_with path (codes ".css")) (λ t. refl)
          λ t.
            if_intro line (ends_with path (codes ".js")) (λ t. refl)
              λ t.
                if_intro line (ends_with path (codes ".json")) (λ t. refl)
                  λ t.
                    if_intro line (ends_with path (codes ".png")) (λ t. refl)
                      λ t.
                        if_intro line
                          (ends_with path (codes ".jpg") || ends_with path (codes ".jpeg"))
                          (λ t. refl)
                          λ t.
                            if_intro line (ends_with path (codes ".svg")) (λ t. refl)
                              λ t.
                                if_intro line (ends_with path (codes ".txt")) (λ t. refl)
                                  (λ t. refl)

send_file-IsFramed :
    (path : Bytes) (size : ℕ) (r : HttpResponse) → IsHeaded r → IsFramed (send_file path size r)
unfolding send_file
send_file-IsFramed path size r k = connected _ (
    typed (get_content_type path) _ (get_content_type-line path)
      (set_file-IsHeaded path size _ (set_status-IsHeaded 200 (codes "OK") r refl k)))

handle_file-IsFramed :
    (head : Bool) (path : Bytes) (info : FileInfo) (r : HttpResponse)
    → IsHeaded r
    → IsFramed (handle_file head path info r)
unfolding handle_file
handle_file-IsFramed head path absent r k = refuse-IsFramed 404 (codes "Not Found") r refl k
handle_file-IsFramed head path (present is_regular size) r k =
    if_intro IsFramed (not is_regular) (λ t. refuse-IsFramed 404 (codes "Not Found") r refl k)
      λ t.
        if_intro IsFramed (ltb 16777216 size)
          (λ u. refuse-IsFramed 413 (codes "Content Too Large") r refl k)
          λ u.
            if_intro IsFramed head
              (λ v. set_send_body-IsFramed false _ (send_file-IsFramed path size r k))
              (λ v. send_file-IsFramed path size r k)

-- A static answer is framed, and without one the response is as it was.
pub static-IsFramed :
    (stat : Bytes → FileInfo) (directory : Bytes) (request : HttpRequest) (r : HttpResponse)
    → IsHeaded r
    → (Defs.handle stat directory request r).0 ≡ true
    → IsFramed (Defs.handle stat directory request r).1
unfolding Defs.handle
static-IsFramed stat directory request r k =
    let framed = λ (x : Bool × HttpResponse). x.0 ≡ true → IsFramed x.1 in
    let path = get_file_path directory request.target in
    if_intro framed
      (not (eq_bytes request.method (codes "GET")) && not (eq_bytes request.method (codes "HEAD")))
      (λ t e. absurd (false-true e))
      λ t.
        if_intro framed (not (is_safe_path request.target))
          (λ u e. refuse-IsFramed 403 (codes "Forbidden") r refl k)
          (λ u e.
            handle_file-IsFramed (eq_bytes request.method (codes "HEAD")) path (stat path) r k)

pub method_not_allowed-IsFramed : (r : HttpResponse) → IsHeaded r → IsFramed (method_not_allowed r)
unfolding method_not_allowed
method_not_allowed-IsFramed r k = connected _ (
    set_header-IsHeaded (codes "Allow") allowed_methods _ refl
      (typed text_plain _ refl (set_body-IsHeaded _ _ (set_status-IsHeaded 405 _ r refl k))))

not_found-IsFramed : (r : HttpResponse) → IsHeaded r → IsFramed (not_found r)
unfolding not_found
not_found-IsFramed r k =
    connected _
      (typed text_plain _ refl (set_body-IsHeaded _ _ (set_status-IsHeaded 404 _ r refl k)))

-- Every route that takes the request answers with a framed response.
abbrev pub AllAnswer : HttpRequest → HttpResponse → List Route → Type 0
AllAnswer request r [] = Unit {0}
AllAnswer request r (x ∷ routes) =
    (path_matches x.path request.target ≡ true
      → method_matches x.method request.method ≡ true
      → IsFramed (x.handler request r))
    × AllAnswer request r routes

pub route_from-IsFramed :
    (routes : List Route) (found : Bool) (request : HttpRequest) (r : HttpResponse)
    → IsHeaded r
    → AllAnswer request r routes
    → IsFramed (route_from routes found request r).1
unfolding route_from
route_from-IsFramed [] found request r k a =
    if_intro (λ (x : Bool × HttpResponse). IsFramed x.1) found
      (λ t. method_not_allowed-IsFramed r k) (λ t. not_found-IsFramed r k)
route_from-IsFramed (x ∷ routes) found request r k (first, a) =
    if_intro (λ (y : Bool × HttpResponse). IsFramed y.1) (path_matches x.path request.target)
      (λ t.
        if_intro (λ (y : Bool × HttpResponse). IsFramed y.1)
          (method_matches x.method request.method) (λ u. first t u)
          (λ u. route_from-IsFramed routes true request r k a))
      (λ t. route_from-IsFramed routes found request r k a)

all_tasks_response-IsFramed :
    (success : Bool) (tasks : List Task) → IsFramed (all_tasks_response success tasks)
unfolding all_tasks_response storage_unavailable
all_tasks_response-IsFramed success tasks =
    if_intro IsFramed (not success)
      (λ t. set_error_response-IsFramed 503 _ _ empty_response refl empty_response-IsHeaded)
      (λ t.
        set_response-IsFramed 200 _ _ application_json empty_response refl refl
          empty_response-IsHeaded)

created_response-IsFramed :
    (success : Bool) (task : Task) → IsFramed (created_response success task)
unfolding created_response storage_unavailable
created_response-IsFramed success task =
    if_intro IsFramed (not success)
      (λ t. set_error_response-IsFramed 503 _ _ empty_response refl empty_response-IsHeaded)
      (λ t.
        set_response-IsFramed 201 _ _ application_json empty_response refl refl
          empty_response-IsHeaded)

updated_response-IsFramed :
    (success : Bool) (task : Task) → IsFramed (updated_response success task)
unfolding updated_response task_not_found
updated_response-IsFramed success task =
    if_intro IsFramed (not success)
      (λ t. set_error_response-IsFramed 404 _ _ empty_response refl empty_response-IsHeaded)
      (λ t.
        set_response-IsFramed 200 _ _ application_json empty_response refl refl
          empty_response-IsHeaded)

removed_response-IsFramed : (success removed : Bool) → IsFramed (removed_response success removed)
unfolding removed_response task_not_found
removed_response-IsFramed success removed =
    if_intro IsFramed (not success || not removed)
      (λ t. set_error_response-IsFramed 404 _ _ empty_response refl empty_response-IsHeaded)
      (λ t. connected _ (
        set_body-IsHeaded [] _
          (set_status-IsHeaded 204 _ empty_response refl empty_response-IsHeaded)))

-- Whatever the storage answers, each of the four responses that are built later is framed.
pub callbacks-IsFramed :
    (success removed : Bool) (task : Task) (tasks : List Task)
    → IsFramed (all_tasks_response success tasks)
      × IsFramed (created_response success task)
      × IsFramed (updated_response success task)
      × IsFramed (removed_response success removed)
callbacks-IsFramed success removed task tasks = (
  all_tasks_response-IsFramed success tasks,
  created_response-IsFramed success task,
  updated_response-IsFramed success task,
  removed_response-IsFramed success removed,
)
