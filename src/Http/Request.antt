-- ===== src/Http/Request.antt =====
-- include/http/HttpRequest.hpp and http/HttpRequest.cpp: a parsed request and its header fields.
pub mod Tokens
use aorta.Prelude.{
  ℕ, zero, suc, Bool, false, ◌||◌, Option, none, some, List, [], ◌∷◌, if◌then◌else◌, null, take,
  drop, length, find_char, Bytes,
}
use aorta.Http.Ctype.{equals_ignore_case, trim}

pub record HttpRequest : Type 0 where
  pub method : Bytes
  pub target : Bytes
  pub version : Bytes
  pub headers : List (Bytes × Bytes)
  pub body : Bytes

-- `HttpRequest{}`.
abbrev pub empty_request : HttpRequest
empty_request = record { method = []; target = []; version = []; headers = []; body = [] }

-- The loop of `getHeader`: the first header of that name, whatever the case of the letters.
unfoldable pub find_header : Bytes → List (Bytes × Bytes) → Option Bytes
unfolding equals_ignore_case
find_header name [] = none
find_header name ((n, v) ∷ headers) =
    if equals_ignore_case n name then some v else find_header name headers

abbrev pub value_or_empty : Option Bytes → Bytes
value_or_empty none = []
value_or_empty (some value) = value

unfoldable pub get_header : Bytes → HttpRequest → Bytes
unfolding find_header
get_header name request = value_or_empty (find_header name request.headers)

-- A round of the loop of `hasHeaderToken`, with the test of the rest behind the comma.
unfoldable pub token_at : Option ℕ → Bytes → Bytes → (Bytes → Bool) → Bool
unfolding equals_ignore_case trim
token_at none token value rest = equals_ignore_case (trim value) token
token_at (some comma) token value rest =
    equals_ignore_case (trim (take comma value)) token || rest (drop (suc comma) value)

-- The loop over one value, on fuel: a round leaves a shorter rest.
unfoldable pub has_token : ℕ → Bytes → Bytes → Bool
unfolding token_at find_char
has_token zero token value = false
has_token (suc fuel) token value =
    if null value then false else token_at (find_char b',' value) token value (has_token fuel token)

unfoldable pub has_header_token_in : Bytes → Bytes → List (Bytes × Bytes) → Bool
unfolding has_token equals_ignore_case
has_header_token_in name token [] = false
has_header_token_in name token ((n, v) ∷ headers) =
    let rest = has_header_token_in name token headers in
    if equals_ignore_case n name then has_token (suc (length v)) token v || rest else rest

unfoldable pub has_header_token : Bytes → Bytes → HttpRequest → Bool
unfolding has_header_token_in
has_header_token name token request = has_header_token_in name token request.headers
