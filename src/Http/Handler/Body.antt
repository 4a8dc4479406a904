-- ===== src/Http/Handler/Body.antt =====
-- HttpHandler.cpp: the title and the completed flag of a request's body.
use aorta.Prelude.{
  ℕ, suc, ◌-◌, Bool, ◌||◌, Option, none, some, [], ◌∷◌, if◌then◌else◌, ◌==◌, leb, ◌&&◌, take, drop,
  find_text, find_char_from, find_char, is_found, eq_bytes, substr, Bytes, codes,
}
use aorta.Http.Request.{HttpRequest, get_header}
use aorta.Http.Handler.Form.{get_form_value}

unfoldable pub is_json : HttpRequest → Bool
unfolding get_header find_text
is_json request =
    is_found (find_text (codes "application/json") (get_header (codes "Content-Type") request))

abbrev pub title_between : Option ℕ → ℕ → Bytes → Bytes
title_between none quote_start body = []
title_between (some quote_end) quote_start body =
    substr body (suc quote_start) (quote_end - quote_start - 1)

unfoldable pub title_behind : Option ℕ → Bytes → Bytes
unfolding find_char
title_behind none body = []
title_behind (some quote_start) body =
    title_between (find_char_from 34 body (suc quote_start)) quote_start body

unfoldable pub title_after : Option ℕ → Bytes → Bytes
unfolding find_char title_behind
title_after none body = []
title_after (some colon_position) body =
    title_behind (find_char_from 34 body (suc colon_position)) body

unfoldable pub title_from : Option ℕ → Bytes → Bytes
unfolding find_char title_after
title_from none body = []
title_from (some key_position) body = title_after (find_char_from b':' body key_position) body

-- The text between the first quotes behind the colon behind "title".
unfoldable pub json_title : Bytes → Bytes
unfolding find_text title_from
json_title body = title_from (find_text (codes "\"title\"") body) body

-- `std::isspace` in the "C" locale, and the loop that skips it.
abbrev pub is_space : ℕ → Bool
is_space c = c == b' ' || (leb 9 c && leb c 13)

abbrev pub skip_spaces : Bytes → Bytes
skip_spaces [] = []
skip_spaces (c ∷ s) = let rest = skip_spaces s in if is_space c then rest else c ∷ s

unfoldable pub completed_at : Bytes → Bytes
unfolding eq_bytes
completed_at value =
    if eq_bytes (take 4 value) (codes "true")
    then codes "true"
    else if eq_bytes (take 5 value) (codes "false")
    then codes "false"
    else []

unfoldable pub completed_after : Option ℕ → Bytes → Bytes
unfolding completed_at
completed_after none body = []
completed_after (some colon_position) body =
    completed_at (skip_spaces (drop (suc colon_position) body))

unfoldable pub completed_from : Option ℕ → Bytes → Bytes
unfolding find_char completed_after
completed_from none body = []
completed_from (some key_position) body =
    completed_after (find_char_from b':' body key_position) body

unfoldable pub json_completed : Bytes → Bytes
unfolding find_text completed_from
json_completed body = completed_from (find_text (codes "\"completed\"") body) body

unfoldable pub request_title : HttpRequest → Bytes
unfolding is_json json_title get_form_value
request_title request =
    if is_json request then json_title request.body else get_form_value request.body (codes "title")

unfoldable pub request_completed : HttpRequest → Bytes
unfolding is_json json_completed get_form_value
request_completed request =
    if is_json request
    then json_completed request.body
    else get_form_value request.body (codes "completed")
