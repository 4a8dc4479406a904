-- ===== src/Http/Handler/Dispatch.antt =====
-- HttpHandler.cpp: registerRoutes, the handlers and `handle`. The task manager is what it answers to a call,
-- `none` for a null pointer; `metrics` is the text that `Metrics::serialize` returns.
use aorta.Prelude.{
  ℕ, Bool, false, not, ◌&&◌, ◌||◌, Option, none, some, List, [], if◌then◌else◌, null, eq_bytes,
  starts_with, find_char, is_found, Bytes, codes,
}
use aorta.Http.Request.{HttpRequest}
use aorta.Http.Response.Defs.{
  HttpResponse, set_status, set_body, set_content_type, set_header, set_connection,
  set_content_length, set_send_body,
}
use aorta.Http.Router.{Route, get, route, allowed_methods, text_plain, keep_alive}
use aorta.Http.StaticFile.Defs
use aorta.Http.StaticFile.Defs.{FileInfo}
use aorta.Http.Handler.Answers.{
  set_response, set_error_response, storage_unavailable, queue_unavailable,
}
use aorta.Http.Handler.Body.{request_title, request_completed}
use aorta.Http.Handler.TaskId.{parse_task_id, tasks_path}

-- A call of the task manager.
pub data TaskCall : Type 0 where
  get_all : TaskCall
  create : (title : Bytes) → TaskCall
  update : (id : ℕ) → (title : Bytes) → (completed : Bool) → TaskCall
  remove : (id : ℕ) → TaskCall

-- What `handle` returns: Completed with the response, or Pending with the call that was accepted, and
-- the response as it was.
pub data HandleResult : Type 0 where
  completed : HttpResponse → HandleResult
  pending : TaskCall → HttpResponse → HandleResult

-- Whether the task manager accepts a call.
abbrev pub Manager : Type 0
Manager = Option (TaskCall → Bool)

unfoldable pub submit : (TaskCall → Bool) → TaskCall → HttpResponse → HandleResult
unfolding queue_unavailable
submit accepts call r =
    if not (accepts call) then completed (queue_unavailable r) else pending call r

unfoldable pub bad_request : Bytes → HttpResponse → HandleResult
unfolding set_error_response
bad_request message r = completed (set_error_response 400 (codes "Bad Request") message r)

unfoldable pub handle_get_tasks : Manager → HttpRequest → HttpResponse → HandleResult
unfolding storage_unavailable submit
handle_get_tasks none request r = completed (storage_unavailable r)
handle_get_tasks (some accepts) request r = submit accepts get_all r

unfoldable pub handle_post_task : Manager → HttpRequest → HttpResponse → HandleResult
unfolding storage_unavailable submit request_title bad_request
handle_post_task none request r = completed (storage_unavailable r)
handle_post_task (some accepts) request r =
    if null (request_title request)
    then bad_request (codes "Task title is required") r
    else submit accepts (create (request_title request)) r

abbrev pub is_flag : Bytes → Bool
unfolding eq_bytes
is_flag value = eq_bytes value (codes "true") || eq_bytes value (codes "false")

unfoldable pub put_task : (TaskCall → Bool) → Option ℕ → HttpRequest → HttpResponse → HandleResult
unfolding submit request_title request_completed bad_request eq_bytes
put_task accepts none request r = bad_request (codes "Invalid task ID") r
put_task accepts (some id) request r =
    let value = request_completed request in
    if not (eq_bytes value (codes "true")) && not (eq_bytes value (codes "false"))
    then bad_request (codes "completed must be true or false") r
    else submit accepts (update id (request_title request) (eq_bytes value (codes "true"))) r

unfoldable pub handle_put_task : Manager → HttpRequest → HttpResponse → HandleResult
unfolding storage_unavailable put_task parse_task_id
handle_put_task none request r = completed (storage_unavailable r)
handle_put_task (some accepts) request r = put_task accepts (parse_task_id request.target) request r

unfoldable pub delete_task : (TaskCall → Bool) → Option ℕ → HttpResponse → HandleResult
unfolding submit bad_request
delete_task accepts none r = bad_request (codes "Invalid task ID") r
delete_task accepts (some id) r = submit accepts (remove id) r

unfoldable pub handle_delete_task : Manager → HttpRequest → HttpResponse → HandleResult
unfolding storage_unavailable delete_task parse_task_id
handle_delete_task none request r = completed (storage_unavailable r)
handle_delete_task (some accepts) request r = delete_task accepts (parse_task_id request.target) r

unfoldable pub handle_get_hello : HttpRequest → HttpResponse → HttpResponse
unfolding set_response
handle_get_hello request r = set_response 200 (codes "OK") (codes "Hello from AORTA") text_plain r

unfoldable pub handle_get_health : HttpRequest → HttpResponse → HttpResponse
unfolding set_response
handle_get_health request r = set_response 200 (codes "OK") (codes "OK") text_plain r

unfoldable pub handle_get_metrics : Bytes → HttpRequest → HttpResponse → HttpResponse
unfolding set_response
handle_get_metrics metrics request r =
    set_response 200 (codes "OK") metrics (codes "text/plain; version=0.0.4") r

unfoldable pub handle_options : HttpRequest → HttpResponse → HttpResponse
unfolding set_status set_body set_content_type set_connection set_header set_content_length
handle_options request r =
    let filled =
      set_content_type text_plain (set_body [] (set_status 204 (codes "No Content") r)) in
    set_content_length
      (set_header (codes "Allow") allowed_methods (set_connection keep_alive filled))

-- `registerRoutes`.
unfoldable pub routes : Bytes → List Route
unfolding handle_get_hello handle_get_health handle_get_metrics
routes metrics =
    get (codes "/tasks") (λ request r. r)
      (get (codes "/metrics") (handle_get_metrics metrics)
        (get (codes "/health") handle_get_health (get (codes "/hello") handle_get_hello [])))

-- The branch of a HEAD request.
unfoldable pub handle_head : Bytes → HttpRequest → HttpResponse → HttpResponse
unfolding eq_bytes starts_with set_error_response set_header set_send_body route routes
handle_head metrics request r =
    let get_request = record request { method = codes "GET" } in
    let refused =
      set_error_response 405 (codes "Method Not Allowed") (codes "Method Not Allowed") r in
    if eq_bytes request.target (codes "/tasks") || starts_with request.target tasks_path
    then set_send_body false (set_header (codes "Allow") allowed_methods refused)
    else set_send_body false (route (routes metrics) get_request r).1

-- `handle` behind the static files.
unfoldable pub dispatch : Bytes → Manager → HttpRequest → HttpResponse → HandleResult
unfolding eq_bytes starts_with handle_get_tasks handle_post_task handle_put_task handle_delete_task
    handle_options handle_head route routes
dispatch metrics manager request r =
    if eq_bytes request.method (codes "GET") && eq_bytes request.target (codes "/tasks")
    then handle_get_tasks manager request r
    else if eq_bytes request.method (codes "POST") && eq_bytes request.target (codes "/tasks")
    then handle_post_task manager request r
    else if eq_bytes request.method (codes "PUT") && starts_with request.target tasks_path
    then handle_put_task manager request r
    else if eq_bytes request.method (codes "DELETE") && starts_with request.target tasks_path
    then handle_delete_task manager request r
    else if eq_bytes request.method (codes "OPTIONS")
    then completed (handle_options request r)
    else if eq_bytes request.method (codes "HEAD")
    then completed (handle_head metrics request r)
    else completed (route (routes metrics) request r).1

unfoldable pub handle :
    (Bytes → FileInfo) → Bytes → Manager → HttpRequest → HttpResponse → HandleResult
unfolding eq_bytes find_char Defs.handle dispatch
handle stat metrics manager request r =
    let (answered, served) = Defs.handle stat (codes "./public") request r in
    if (eq_bytes request.target (codes "/") || is_found (find_char b'.' request.target)) && answered
    then completed served
    else dispatch metrics manager request r
