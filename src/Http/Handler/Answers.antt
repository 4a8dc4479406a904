-- ===== src/Http/Handler/Answers.antt =====
-- HttpHandler.cpp: setErrorResponse, and the responses that the callbacks of the tasks build.
use aorta.Prelude.{ℕ, Bool, not, ◌||◌, List, [], if◌then◌else◌, Bytes, codes}
use aorta.Http.Response.Defs.{
  HttpResponse, empty_response, set_status, set_body, set_content_type, set_connection,
  set_content_length,
}
use aorta.Http.Router.{text_plain, keep_alive}
use aorta.Http.Handler.Escape.{Task, print_object, print_bool, print_tasks}

-- The five calls that each answer with a body makes.
unfoldable pub set_response : ℕ → Bytes → Bytes → Bytes → HttpResponse → HttpResponse
unfolding set_status set_body set_content_type set_connection set_content_length
set_response code reason message content_type r =
    let filled = set_content_type content_type (set_body message (set_status code reason r)) in
    set_content_length (set_connection keep_alive filled)

unfoldable pub set_error_response : ℕ → Bytes → Bytes → HttpResponse → HttpResponse
unfolding set_response
set_error_response status reason message r = set_response status reason message text_plain r

abbrev pub application_json : Bytes
application_json = codes "application/json"

unfoldable pub storage_unavailable : HttpResponse → HttpResponse
unfolding set_error_response
storage_unavailable r =
    set_error_response 503 (codes "Service Unavailable") (codes "Task storage unavailable") r

unfoldable pub queue_unavailable : HttpResponse → HttpResponse
unfolding set_error_response
queue_unavailable r =
    set_error_response 503 (codes "Service Unavailable") (codes "Task queue unavailable") r

unfoldable pub task_not_found : HttpResponse → HttpResponse
unfolding set_error_response
task_not_found r = set_error_response 404 (codes "Not Found") (codes "Task Not Found") r

-- The callback of `getAll`.
unfoldable pub all_tasks_response : Bool → List Task → HttpResponse
unfolding storage_unavailable set_response print_tasks
all_tasks_response success tasks =
    if not success
    then storage_unavailable empty_response
    else set_response 200 (codes "OK") (print_tasks tasks) application_json empty_response

-- The callback of `create`.
unfoldable pub created_response : Bool → Task → HttpResponse
unfolding storage_unavailable set_response print_object
created_response success task =
    if not success
    then storage_unavailable empty_response
    else set_response 201 (codes "Created") (print_object task.id task.title (codes "false"))
        application_json empty_response

-- The callback of `update`.
unfoldable pub updated_response : Bool → Task → HttpResponse
unfolding task_not_found set_response print_object
updated_response success task =
    if not success
    then task_not_found empty_response
    else set_response 200 (codes "OK") (print_object task.id task.title (print_bool task.completed))
        application_json empty_response

-- The callback of `remove`.
unfoldable pub removed_response : Bool → Bool → HttpResponse
unfolding task_not_found set_status set_body set_connection set_content_length
removed_response success removed =
    if not success || not removed
    then task_not_found empty_response
    else set_content_length (
        set_connection keep_alive
          (set_body [] (set_status 204 (codes "No Content") empty_response)))
