-- ===== src/Http/Handler/Answered.antt =====
-- HttpHandler.cpp: what `handle` answers to any request.
use aorta.Prelude.{
  ℕ, ◌≤◌, ◌≡◌, refl, sym, ap, ◌∙◌, Bool, true, false, not, ◌&&◌, ◌||◌, none, some, [], null,
  eq_bytes, eq_bytes_sound, eq_bytes_self, starts_with, find_char, is_found, Bool-cases,
  Option-cases, inl, inr, if_intro, both, both_right, Bytes, codes,
}
use aorta.Http.Ctype.{to_lower}
use aorta.Http.Request.{HttpRequest}
use aorta.Http.Response.Defs.{HttpResponse, set_content_type, set_connection}
use aorta.Http.Response.Framing.{
  is_line, IsHeaded, IsFramed, set_status-IsHeaded, set_body-IsHeaded, set_header-IsHeaded,
  set_content_length-IsFramed, set_header-IsFramed, set_send_body-IsFramed,
}
use aorta.Http.Router.{route, method_matches, path_matches, allowed_methods, text_plain, keep_alive}
use aorta.Http.StaticFile.Defs
use aorta.Http.StaticFile.Defs.{FileInfo}
use aorta.Http.Handler.Answers.{storage_unavailable, queue_unavailable}
use aorta.Http.Handler.Body.{request_title, request_completed}
use aorta.Http.Handler.Dispatch.{
  TaskCall, get_all, create, update, remove, HandleResult, completed, pending, Manager, submit,
  bad_request, handle_get_tasks, handle_post_task, put_task, handle_put_task, delete_task,
  handle_delete_task, handle_get_hello, handle_get_health, handle_get_metrics, handle_options,
  routes, handle_head, dispatch, handle,
}
use aorta.Http.Handler.Framed.{
  typed, set_response-IsFramed, set_error_response-IsFramed, static-IsFramed, route_from-IsFramed,
}
use aorta.Http.Handler.TaskId.{parse_task_id, parse_task_id-Names, max_size, Names, tasks_path}

-- A call that the handler may make for a request: the title of a new task is not empty, and the number is
-- the one that the target names.
pub data IsCall (request : HttpRequest) : TaskCall → Type 0 where
  lists : IsCall request get_all
  creates : (title : Bytes) → null title ≡ false → IsCall request (create title)
  updates :
      (id : ℕ) (title : Bytes) (flag : Bool)
      → Names request.target id × (id ≤ max_size)
      → IsCall request (update id title flag)
  removes : (id : ℕ) → Names request.target id × (id ≤ max_size) → IsCall request (remove id)

-- An answer: a framed response, or a call that the task manager has accepted, with the response as it was.
pub data IsAnswer (manager : Manager) (request : HttpRequest) (r : HttpResponse)
    : HandleResult → Type 0 where
  answered :
      (response : HttpResponse)
      → IsFramed response
      → IsAnswer manager request r (completed response)
  waiting :
      (accepts : TaskCall → Bool) (call : TaskCall)
      → manager ≡ some accepts
      → accepts call ≡ true
      → IsCall request call
      → IsAnswer manager request r (pending call r)

module _ (metrics : Bytes) (request : HttpRequest) (r : HttpResponse) (k : IsHeaded r) where
  submit-IsAnswer :
      (accepts : TaskCall → Bool) (call : TaskCall)
      → IsCall request call
      → IsAnswer (some accepts) request r (submit accepts call r)
  unfolding submit queue_unavailable
  submit-IsAnswer accepts call c = elim (Bool-cases (accepts call)) [
    | inl e ↦ rw e (waiting accepts call refl e c)
    | inr e ↦
        rw e
          (answered _ (set_error_response-IsFramed 503 _ (codes "Task queue unavailable") r refl k))
  ]

  bad_request-IsAnswer :
      (manager : Manager) (message : Bytes) → IsAnswer manager request r (bad_request message r)
  unfolding bad_request
  bad_request-IsAnswer manager message =
      answered _ (set_error_response-IsFramed 400 _ message r refl k)

  storage-IsAnswer :
      (manager : Manager) → IsAnswer manager request r (completed (storage_unavailable r))
  unfolding storage_unavailable
  storage-IsAnswer manager =
      answered _ (set_error_response-IsFramed 503 _ (codes "Task storage unavailable") r refl k)

  get-IsAnswer :
      (manager : Manager) → IsAnswer manager request r (handle_get_tasks manager request r)
  unfolding handle_get_tasks
  get-IsAnswer none = storage-IsAnswer none
  get-IsAnswer (some accepts) = submit-IsAnswer accepts get_all lists

  post-IsAnswer :
      (manager : Manager) → IsAnswer manager request r (handle_post_task manager request r)
  unfolding handle_post_task
  post-IsAnswer none = storage-IsAnswer none
  post-IsAnswer (some accepts) =
      if_intro (IsAnswer (some accepts) request r) (null (request_title request))
        (λ t. bad_request-IsAnswer (some accepts) (codes "Task title is required"))
        (λ t. submit-IsAnswer accepts (create (request_title request)) (creates _ t))

  put-IsAnswer :
      (manager : Manager) → IsAnswer manager request r (handle_put_task manager request r)
  unfolding handle_put_task put_task
  put-IsAnswer none = storage-IsAnswer none
  put-IsAnswer (some accepts) = elim (Option-cases (parse_task_id request.target)) [
    | inl e ↦ rw e (bad_request-IsAnswer (some accepts) (codes "Invalid task ID"))
    | inr (id, e) ↦ rw e (
        let value = request_completed request in
        if_intro (IsAnswer (some accepts) request r)
          (not (eq_bytes value (codes "true")) && not (eq_bytes value (codes "false")))
          (λ t. bad_request-IsAnswer (some accepts) (codes "completed must be true or false"))
          (λ t.
            submit-IsAnswer accepts _ (updates id _ _ (parse_task_id-Names request.target id e))))
  ]

  delete-IsAnswer :
      (manager : Manager) → IsAnswer manager request r (handle_delete_task manager request r)
  unfolding handle_delete_task delete_task
  delete-IsAnswer none = storage-IsAnswer none
  delete-IsAnswer (some accepts) = elim (Option-cases (parse_task_id request.target)) [
    | inl e ↦ rw e (bad_request-IsAnswer (some accepts) (codes "Invalid task ID"))
    | inr (id, e) ↦
        rw e (submit-IsAnswer accepts _ (removes id (parse_task_id-Names request.target id e)))
  ]

  options-IsFramed : IsFramed (handle_options request r)
  unfolding handle_options set_content_type set_connection
  options-IsFramed = set_content_length-IsFramed _ (
      set_header-IsHeaded (codes "Allow") allowed_methods _ refl (
        set_header-IsHeaded (codes "Connection") keep_alive _ refl
          (typed text_plain _ refl (set_body-IsHeaded [] _ (set_status-IsHeaded 204 _ r refl k)))))

or_left_false : (a b : Bool) → (a || b) ≡ false → a ≡ false
or_left_false true b h = cc
or_left_false false b h = refl

not_tasks :
    (request : HttpRequest)
    → eq_bytes (codes "/tasks") request.target ≡ true
    → eq_bytes (codes "GET") request.method ≡ true
    → (eq_bytes request.method (codes "GET") && eq_bytes request.target (codes "/tasks")) ≡ false
    → ⊥
not_tasks request p m n =
    let back = λ (s t : Bytes) (h : eq_bytes s t ≡ true).
      sym (ap (λ x. eq_bytes x s) (eq_bytes_sound s t h)) ∙ eq_bytes_self s in
    let same =
      both (back (codes "GET") request.method m) (back (codes "/tasks") request.target p) in
    cc

-- The routes but "/tasks" answer with framed responses, and "/tasks" takes no request that gets that far.
routed-IsFramed :
    (metrics : Bytes) (request : HttpRequest) (r : HttpResponse)
    → IsHeaded r
    → (eq_bytes request.method (codes "GET") && eq_bytes request.target (codes "/tasks")) ≡ false
    → IsFramed (route (routes metrics) request r).1
unfolding route routes handle_get_hello handle_get_health handle_get_metrics method_matches
    path_matches
routed-IsFramed metrics request r k n =
    let plain = λ (body content_type : Bytes) (t : is_line content_type ≡ true).
      set_response-IsFramed 200 (codes "OK") body content_type r refl t k in
    route_from-IsFramed (routes metrics) false request r k (
      λ p m. plain (codes "Hello from AORTA") text_plain refl,
      (
        λ p m. plain (codes "OK") text_plain refl,
        (
          λ p m. plain metrics (codes "text/plain; version=0.0.4") refl,
          (λ p m. absurd (not_tasks request p m n), tt),
        ),
      ),
    )

head-IsFramed :
    (metrics : Bytes) (request : HttpRequest) (r : HttpResponse)
    → IsHeaded r
    → IsFramed (handle_head metrics request r)
unfolding handle_head to_lower
head-IsFramed metrics request r k =
    let get_request : HttpRequest = record request { method = codes "GET" } in
    elim (Bool-cases
      (eq_bytes request.target (codes "/tasks") || starts_with request.target tasks_path)) [
        | inl t ↦ rw t (
            set_send_body-IsFramed false _ (
              set_header-IsFramed (codes "Allow") allowed_methods _ refl refl
                (set_error_response-IsFramed 405 _ (codes "Method Not Allowed") r refl k)))
        | inr t ↦ rw t (
            set_send_body-IsFramed false _
              (routed-IsFramed metrics get_request r k (or_left_false _ _ t)))
      ]

dispatch-IsAnswer :
    (metrics : Bytes) (manager : Manager) (request : HttpRequest) (r : HttpResponse)
    → IsHeaded r
    → IsAnswer manager request r (dispatch metrics manager request r)
unfolding dispatch
dispatch-IsAnswer metrics manager request r k =
    let answer = IsAnswer manager request r in
    let of = eq_bytes request.method in
    let tasks = eq_bytes request.target (codes "/tasks") in
    let task = starts_with request.target tasks_path in
    if_intro answer (of (codes "GET") && tasks) (λ t. get-IsAnswer metrics request r k manager)
      λ n.
        if_intro answer (of (codes "POST") && tasks)
          (λ t. post-IsAnswer metrics request r k manager)
          λ t.
            if_intro answer (of (codes "PUT") && task)
              (λ t. put-IsAnswer metrics request r k manager)
              λ t.
                if_intro answer (of (codes "DELETE") && task)
                  (λ t. delete-IsAnswer metrics request r k manager)
                  λ t.
                    if_intro answer (of (codes "OPTIONS"))
                      (λ t. answered _ (options-IsFramed metrics request r k))
                      λ t.
                        if_intro answer (of (codes "HEAD"))
                          (λ t. answered _ (head-IsFramed metrics request r k))
                          (λ t. answered _ (routed-IsFramed metrics request r k n))

-- To every request `handle` answers: with a response that carries exactly one Content-Length header whose
-- value is the size of its body or file, and whose status line and headers are lines, or with Pending,
-- the response untouched, where the task manager is there and has accepted the call: with a title that
-- is not empty for a new task, and the number that the target names, at most 2^64 - 1, for a change or a
-- removal.
pub handle-IsAnswer :
    (stat : Bytes → FileInfo) (metrics : Bytes) (manager : Manager) (request : HttpRequest)
    (r : HttpResponse)
    → IsHeaded r
    → IsAnswer manager request r (handle stat metrics manager request r)
unfolding handle
handle-IsAnswer stat metrics manager request r k =
    let served = Defs.handle stat (codes "./public") request r in
    let files = eq_bytes request.target (codes "/") || is_found (find_char b'.' request.target) in
    if_intro (IsAnswer manager request r) (files && served.0)
      (λ t.
        answered served.1
          (static-IsFramed stat (codes "./public") request r k (both_right files served.0 t)))
      (λ t. dispatch-IsAnswer metrics manager request r k)
