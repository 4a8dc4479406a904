-- ===== src/Http/Handler/Form.antt =====
-- HttpHandler.cpp: urlDecode and getFormValue.
use aorta.Prelude.{
  ℕ, zero, suc, ◌+◌, ◌-◌, ◌*◌, ◌&&◌, Option, none, some, [], ◌∷◌, if◌then◌else◌, ◌==◌, null, length,
  take, drop, find_char, eq_bytes, Bytes,
}
use aorta.Http.Ctype.{is_digit, is_xdigit, to_lower}

-- The value of a hexadecimal digit.
unfoldable pub hex_value : ℕ → ℕ
unfolding is_digit to_lower
hex_value c = if is_digit c then c - b'0' else to_lower c - b'a' + 10

unfoldable pub url_decode : Bytes → Bytes
unfolding is_xdigit hex_value
url_decode [] = []
url_decode (c ∷ []) = if c == b'+' then b' ' ∷ [] else c ∷ []
url_decode (c ∷ first ∷ []) =
    let rest = url_decode (first ∷ []) in if c == b'+' then b' ' ∷ rest else c ∷ rest
url_decode (c ∷ first ∷ second ∷ value) =
    let rest = url_decode (first ∷ second ∷ value) in
    let behind = url_decode value in
    if c == b'+'
    then b' ' ∷ rest
    else if c == b'%' && (is_xdigit first && is_xdigit second)
    then (hex_value first * 16 + hex_value second) ∷ behind
    else c ∷ rest

-- One pair: the value if its key is the one that is asked for.
unfoldable pub value_at : Option ℕ → Bytes → Bytes → Option Bytes
unfolding eq_bytes
value_at none key pair = none
value_at (some separator) key pair =
    if eq_bytes (take separator pair) key then some (drop (suc separator) pair) else none

unfoldable pub value_of : Bytes → Bytes → Option Bytes
unfolding find_char value_at
value_of key pair = value_at (find_char b'=' pair) key pair

unfoldable pub decoded_or : Option Bytes → Bytes → Bytes
unfolding url_decode
decoded_or none rest = rest
decoded_or (some value) rest = url_decode value

unfoldable pub next_pair : Option ℕ → Bytes → Bytes → (Bytes → Bytes) → Bytes
unfolding value_of decoded_or
next_pair none key body rest = decoded_or (value_of key body) []
next_pair (some end) key body rest =
    decoded_or (value_of key (take end body)) (rest (drop (suc end) body))

-- The loop on fuel: a round leaves a shorter rest of the body.
unfoldable pub form_value : ℕ → Bytes → Bytes → Bytes
unfolding find_char next_pair
form_value zero key body = []
form_value (suc fuel) key body =
    if null body then [] else next_pair (find_char b'&' body) key body (form_value fuel key)

unfoldable pub get_form_value : Bytes → Bytes → Bytes
unfolding form_value
get_form_value body key = form_value (suc (length body)) key body
