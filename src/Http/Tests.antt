-- ===== src/Http/Tests.antt =====
-- src/http: runs on small inputs, and the theorems at them.
use aorta.Prelude.{
  digits, ◌++◌, arith, any, ◌≡◌, ◌≤◌, ◌↔◌, refl, Bool, true, false, none, some, List, [], ◌∷◌,
  Bytes, codes,
}
use aorta.Http.Request.{HttpRequest, empty_request, has_header_token}
use aorta.Http.Request.Tokens.{is_token, elements, values, has_header_token-elements}
use aorta.Http.Response.Defs.{HttpResponse, empty_response, status_line, sent_body, serialize}
use aorta.Http.Response.Framing.{IsHeaded, empty_response-IsHeaded, IsFramed}
use aorta.Http.Response.Reading.{read_response, serialize-IsHeaded}
use aorta.Http.Router.{route}
use aorta.Http.Router.Outcome.{Outcome, first_route, knows_path, route-Outcome}
use aorta.Http.StaticFile.Defs.{FileInfo, absent, is_safe_path}
use aorta.Http.StaticFile.Safe.{StaysBelow, walk, segments, is_safe_path-StaysBelow}
use aorta.Http.Handler.Escape.{Task, print_tasks}
use aorta.Http.Handler.Json.{read_tasks}
use aorta.Http.Handler.Reading.{read_tasks-print_tasks}
use aorta.Http.Handler.Form.{url_decode, get_form_value}
use aorta.Http.Ctype.{is_alnum, to_lower, equals_ignore_case}
use aorta.Http.Handler.Encoding.{
  form, uri_component, keeps, encode_char, url_encode, url_decode-url_encode,
}
use aorta.Http.Handler.Submitted.{print_form, first_value, get_form_value-print_form}
use aorta.Http.Handler.TaskId.{parse_task_id, Names, max_size, parse_task_id_iff}
use aorta.Http.Handler.Answers.{
  all_tasks_response, created_response, updated_response, removed_response,
}
use aorta.Http.Handler.Framed.{callbacks-IsFramed}
use aorta.Http.Handler.Dispatch.{TaskCall, handle, routes}
use aorta.Http.Handler.Answered.{IsAnswer, handle-IsAnswer}

abbrev put_request : HttpRequest
put_request = record empty_request {
  method = codes "PUT";
  target = codes "/tasks/17";
  body = codes "title=Buy+milk&completed=true";
}

abbrev no_files : Bytes → FileInfo
no_files path = absent

abbrev accepting : TaskCall → Bool
accepting call = true

abbrev quoted : Task
quoted = record { id = 18; title = codes "say \"hi\"\\ now"; completed = true }

abbrev task_form : List (Bytes × Bytes)
task_form = (codes "title", codes "50% & more") ∷ (codes "completed", codes "false") ∷ []

-- A page with two headers and a body.
abbrev page : HttpResponse
page = record empty_response {
  headers =
      (codes "Content-Type", codes "text/html; charset=utf-8")
      ∷ (codes "Content-Length", codes "5")
      ∷ [];
  body = codes "a: b" ++ b'\n' ∷ [];
}

page-IsHeaded : IsHeaded page
unfolding equals_ignore_case to_lower
page-IsHeaded = record { versioned = refl; reasoned = refl; fielded = refl; single = omega arith }

serialize-IsHeaded_example :
    read_response (serialize page) ≡ some (status_line page, (page.headers, sent_body page))
serialize-IsHeaded_example = serialize-IsHeaded page page-IsHeaded

handle-IsAnswer_example :
    IsAnswer
      (some accepting)
      put_request
      empty_response
      (handle no_files [] (some accepting) put_request empty_response)
handle-IsAnswer_example =
    handle-IsAnswer no_files [] (some accepting) put_request empty_response empty_response-IsHeaded

callbacks-IsFramed_example :
    IsFramed (all_tasks_response true (quoted ∷ []))
    × IsFramed (created_response true quoted)
    × IsFramed (updated_response true quoted)
    × IsFramed (removed_response true false)
callbacks-IsFramed_example = callbacks-IsFramed true false quoted (quoted ∷ [])

read_tasks-print_tasks_example :
    read_tasks (print_tasks (quoted ∷ quoted ∷ [])) ≡ some (quoted ∷ quoted ∷ [])
read_tasks-print_tasks_example = read_tasks-print_tasks (quoted ∷ quoted ∷ []) refl

-- JSON refuses what escapeJson leaves of a control character.
refuses_control :
    read_tasks (print_tasks ((record { id = 1; title = 1 ∷ []; completed = false }) ∷ [])) ≡ none
unfolding read_tasks print_tasks digits
refuses_control = refl

refuses_leading_zero : read_tasks (codes "[{\"id\":07,\"title\":\"a\",\"completed\":true}]") ≡ none
unfolding read_tasks digits
refuses_leading_zero = refl

parse_task_id_iff_example :
    (parse_task_id (codes "/tasks/17") ≡ some 17) ↔ (Names (codes "/tasks/17") 17 × (17 ≤ max_size))
parse_task_id_iff_example = parse_task_id_iff (codes "/tasks/17") 17

url_decode-url_encode_example :
    url_decode (url_encode uri_component (codes "50% & more")) ≡ codes "50% & more"
url_decode-url_encode_example = url_decode-url_encode uri_component (codes "50% & more") refl

-- The body of toggleTask in public/app.js.
toggled_body : print_form uri_component task_form ≡ codes "title=50%25%20%26%20more&completed=false"
unfolding print_form url_encode encode_char keeps is_alnum
toggled_body = refl

submitted_body : print_form form task_form ≡ codes "title=50%25+%26+more&completed=false"
unfolding print_form url_encode encode_char keeps is_alnum
submitted_body = refl

get_form_value-print_form_example :
    get_form_value (print_form uri_component task_form) (codes "completed")
    ≡ first_value (codes "completed") task_form
unfolding keeps is_alnum
get_form_value-print_form_example =
    get_form_value-print_form uri_component (codes "completed") task_form refl

is_safe_path-StaysBelow_example : StaysBelow 1 (walk 1 (segments (codes "/css/site.css")))
unfolding is_safe_path
is_safe_path-StaysBelow_example = is_safe_path-StaysBelow 1 (codes "/css/site.css") refl

route-Outcome_example :
    Outcome
      (first_route put_request (routes []))
      (knows_path put_request (routes []))
      put_request
      empty_response
      (route (routes []) put_request empty_response)
route-Outcome_example = route-Outcome (routes []) put_request empty_response

abbrev upgrade : HttpRequest
upgrade = record empty_request { headers = (codes "connection", codes "keep-alive, Upgrade,") ∷ [] }

has_header_token-elements_example :
    has_header_token (codes "Connection") (codes "upgrade") upgrade
    ≡ any
        (λ v. any (is_token (codes "upgrade")) (elements v))
        (values (codes "Connection") upgrade.headers)
has_header_token-elements_example =
    has_header_token-elements (codes "Connection") (codes "upgrade") upgrade

rejects_overflow : parse_task_id (codes "/tasks/18446744073709551616") ≡ none
unfolding parse_task_id
rejects_overflow = refl
