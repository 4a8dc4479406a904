-- ===== src/Http/Handler/Submitted.antt =====
-- HttpHandler.cpp: getFormValue on the forms that a browser prints.
use aorta.Prelude.{
  ℕ, zero, suc, ◌/◌, ◌%◌, ◌≤◌, ◌<◌, ◌≡◌, refl, ap, ap₂, ◌∙◌, Bool, true, false, not, all-weaken,
  ◌&&◌, all, none, some, List, [], ◌∷◌, ◌++◌, append-nil, if◌then◌else◌, ◌==◌, ltb→lt, null, length,
  length-append, drop, take-append, find_char-append, find_char-absent, eq_bytes, both, both_left,
  both_right, all-append, if_intro, arith, Bytes,
}
use aorta.Http.Handler.Form.{
  value_at, value_of, decoded_or, next_pair, form_value, get_form_value, url_decode,
}
use aorta.Http.Handler.Encoding.{
  hex_digit, Encoder, keeps, joins_blanks, encode_char, url_encode, is_byte, keeps_plain,
  url_decode-url_encode,
}

-- A form, with its keys and its values encoded.
unfoldable pub print_form : Encoder → List (Bytes × Bytes) → Bytes
unfolding url_encode
print_form encoder [] = []
print_form encoder ((k, v) ∷ pairs) =
    (url_encode encoder k ++ b'=' ∷ url_encode encoder v)
    ++ (if null pairs then [] else b'&' ∷ print_form encoder pairs)

-- The value of the first pair with a key.
unfoldable pub first_value : Bytes → List (Bytes × Bytes) → Bytes
unfolding eq_bytes
first_value key [] = []
first_value key ((k, v) ∷ pairs) = if eq_bytes k key then v else first_value key pairs

abbrev pub is_inside : ℕ → Bool
is_inside c = not (c == b'&')

-- Keys of characters that the encoder leaves as they are, and values of bytes.
abbrev pub is_pair : Encoder → Bytes × Bytes → Bool
is_pair encoder (k, v) = all (keeps encoder) k && all is_byte v

differs : (b : Bool) → b ≡ false → not b ≡ true
differs true h = cc
differs false h = refl

keeps_inside : (encoder : Encoder) (c : ℕ) → keeps encoder c ≡ true → is_inside c ≡ true
keeps_inside encoder c h = differs (c == b'&') (keeps_plain encoder c h).2

keeps_name : (encoder : Encoder) (c : ℕ) → keeps encoder c ≡ true → not (c == b'=') ≡ true
keeps_name encoder c h = differs (c == b'=') (keeps_plain encoder c h).3

url_encode-kept :
    (encoder : Encoder) (s : Bytes) → all (keeps encoder) s ≡ true → url_encode encoder s ≡ s
unfolding url_encode encode_char
url_encode-kept encoder [] h = refl
url_encode-kept encoder (c ∷ s) h =
    let rest = both_right (keeps encoder c) (all (keeps encoder) s) h in
    rw (both_left (keeps encoder c) (all (keeps encoder) s) h)
      (ap (◌∷◌ c) (url_encode-kept encoder s rest))

hex_digit_inside : (d : ℕ) → d < 16 → is_inside (hex_digit d) ≡ true
hex_digit_inside d h = ground arith

encode_char-separator :
    (encoder : Encoder) (c : ℕ) (s : Bytes)
    → c < 256
    → all is_inside s ≡ true
    → all is_inside (encode_char encoder c s) ≡ true
unfolding encode_char
encode_char-separator encoder c s small h =
    let free = λ (e : Bytes). all is_inside e ≡ true in
    if_intro free (keeps encoder c) (λ t. both (keeps_inside encoder c t) h)
      λ t.
        if_intro free (joins_blanks encoder && c == b' ') (λ u. h)
          λ u.
            both (hex_digit_inside (c / 16) (omega (arith, small)))
              (both (hex_digit_inside (c % 16) (omega arith)) h)

url_encode-separator :
    (encoder : Encoder) (s : Bytes)
    → all is_byte s ≡ true
    → all is_inside (url_encode encoder s) ≡ true
unfolding url_encode
url_encode-separator encoder [] h = refl
url_encode-separator encoder (c ∷ s) h =
    encode_char-separator encoder c (url_encode encoder s)
      (ltb→lt c 256 (both_left (is_byte c) (all is_byte s) h))
      (url_encode-separator encoder s (both_right (is_byte c) (all is_byte s) h))

drop_past : (s : Bytes) (c : ℕ) (t : Bytes) → drop (suc (length s)) (s ++ c ∷ t) ≡ t
drop_past [] c t = refl
drop_past (x ∷ s) c t = drop_past s c t

value_of-pair :
    (key k v : Bytes)
    → all (λ c. not (c == b'=')) k ≡ true
    → value_of key (k ++ b'=' ∷ v) ≡ (if eq_bytes k key then some v else none)
unfolding value_of value_at
value_of-pair key k v h =
    ap (λ o. value_at o key (k ++ b'=' ∷ v)) (find_char-append b'=' k v h)
    ∙ ap₂ (λ a b. if eq_bytes a key then some b else none) (take-append k (b'=' ∷ v))
        (drop_past k b'=' v)

decoded_test :
    (b : Bool) (e rest : Bytes)
    → decoded_or (if b then some e else none) rest ≡ (if b then url_decode e else rest)
unfolding decoded_or
decoded_test true e rest = refl
decoded_test false e rest = refl

null-middle : (s : Bytes) (c : ℕ) (t : Bytes) → null (s ++ c ∷ t) ≡ false
null-middle [] c t = refl
null-middle (x ∷ s) c t = refl

-- The last round, and a round before it.
form_value-last :
    (f : ℕ) (key k v : Bytes)
    → all is_inside (k ++ b'=' ∷ v) ≡ true
    → form_value (suc f) key (k ++ b'=' ∷ v) ≡ decoded_or (value_of key (k ++ b'=' ∷ v)) []
unfolding form_value next_pair
form_value-last f key k v h =
    let pair = k ++ b'=' ∷ v in
    ap₂ (λ b o. if b then [] else next_pair o key pair (form_value f key)) (null-middle k b'=' v)
      (find_char-absent b'&' pair h)

form_value-more :
    (f : ℕ) (key pair rest : Bytes)
    → all is_inside pair ≡ true
    → form_value (suc f) key (pair ++ b'&' ∷ rest)
      ≡ decoded_or (value_of key pair) (form_value f key rest)
unfolding form_value next_pair
form_value-more f key pair rest h =
    let body = pair ++ b'&' ∷ rest in
    ap₂ (λ b o. if b then [] else next_pair o key body (form_value f key))
      (null-middle pair b'&' rest) (find_char-append b'&' pair rest h)
    ∙ ap₂ (λ a b. decoded_or (value_of key a) (form_value f key b)) (take-append pair (b'&' ∷ rest))
        (drop_past pair b'&' rest)

-- A pair as it is printed, with its key as it is.
abbrev printed : Encoder → Bytes → Bytes → Bytes
printed encoder k v = k ++ b'=' ∷ url_encode encoder v

module _ (encoder : Encoder) where
  pair_inside :
      (k v : Bytes) → is_pair encoder (k, v) ≡ true → all is_inside (printed encoder k v) ≡ true
  pair_inside k v h =
      all-append is_inside k (b'=' ∷ url_encode encoder v)
      ∙ both
          (all-weaken (keeps encoder) is_inside (keeps_inside encoder) k
            (both_left (all (keeps encoder) k) (all is_byte v) h))
          (url_encode-separator encoder v (both_right (all (keeps encoder) k) (all is_byte v) h))

  decoded_or-pair :
      (key k v rest : Bytes)
      → is_pair encoder (k, v) ≡ true
      → decoded_or (value_of key (printed encoder k v)) rest ≡ (if eq_bytes k key then v else rest)
  unfolding decoded_or
  decoded_or-pair key k v rest h =
      let named =
        all-weaken (keeps encoder) (λ c. not (c == b'=')) (keeps_name encoder) k
          (both_left (all (keeps encoder) k) (all is_byte v) h) in
      let bytes = both_right (all (keeps encoder) k) (all is_byte v) h in
      ap (λ o. decoded_or o rest) (value_of-pair key k (url_encode encoder v) named)
      ∙ decoded_test (eq_bytes k key) (url_encode encoder v) rest
      ∙ ap (λ x. if eq_bytes k key then x else rest) (url_decode-url_encode encoder v bytes)

  print_form-kept :
      (k v : Bytes) (pairs : List (Bytes × Bytes))
      → is_pair encoder (k, v) ≡ true
      → print_form encoder ((k, v) ∷ pairs)
        ≡ printed encoder k v ++ (if null pairs then [] else b'&' ∷ print_form encoder pairs)
  unfolding print_form
  print_form-kept k v pairs h =
      ap
        (λ x.
          (x ++ b'=' ∷ url_encode encoder v)
          ++ (if null pairs then [] else b'&' ∷ print_form encoder pairs))
        (url_encode-kept encoder k (both_left (all (keeps encoder) k) (all is_byte v) h))

  form_value-print :
      (f : ℕ) (key : Bytes) (pairs : List (Bytes × Bytes))
      → length pairs < f
      → all (is_pair encoder) pairs ≡ true
      → form_value f key (print_form encoder pairs) ≡ first_value key pairs
  unfolding form_value print_form first_value next_pair
  form_value-print zero key pairs h w = absurd (omega arith)
  form_value-print (suc f) key [] h w = refl
  form_value-print (suc f) key ((k, v) ∷ []) h w =
      let first = both_left (is_pair encoder (k, v)) _ w in
      ap (form_value (suc f) key) (print_form-kept k v [] first ∙ append-nil (printed encoder k v))
      ∙ form_value-last f key k (url_encode encoder v) (pair_inside k v first)
      ∙ decoded_or-pair key k v [] first
  form_value-print (suc f) key ((k, v) ∷ next ∷ pairs) h w =
      let first = both_left (is_pair encoder (k, v)) _ w in
      let others = both_right (is_pair encoder (k, v)) (all (is_pair encoder) (next ∷ pairs)) w in
      ap (form_value (suc f) key) (print_form-kept k v (next ∷ pairs) first)
      ∙ form_value-more f key (printed encoder k v) (print_form encoder (next ∷ pairs))
          (pair_inside k v first)
      ∙ decoded_or-pair key k v (form_value f key (print_form encoder (next ∷ pairs))) first
      ∙ ap (λ x. if eq_bytes k key then v else x)
          (form_value-print f key (next ∷ pairs) (omega arith) others)

  length-print_form :
      (pairs : List (Bytes × Bytes)) → length pairs ≤ length (print_form encoder pairs)
  unfolding print_form
  length-print_form [] = omega arith
  length-print_form ((k, v) ∷ []) = omega (
    arith,
    length-append (url_encode encoder k) (b'=' ∷ url_encode encoder v),
    length-append (url_encode encoder k ++ b'=' ∷ url_encode encoder v) [],
  )
  length-print_form ((k, v) ∷ next ∷ pairs) = omega (
    arith,
    length-print_form (next ∷ pairs),
    length-append (url_encode encoder k ++ b'=' ∷ url_encode encoder v)
        (b'&' ∷ print_form encoder (next ∷ pairs)),
  )

-- Of a form that a browser submits, or that is put together with encodeURIComponent, with values of bytes
-- and with keys of characters that the encoder leaves as they are, `getFormValue` yields the value of the
-- first pair with the key, and the empty text if there is none.
pub get_form_value-print_form :
    (encoder : Encoder) (key : Bytes) (pairs : List (Bytes × Bytes))
    → all (is_pair encoder) pairs ≡ true
    → get_form_value (print_form encoder pairs) key ≡ first_value key pairs
unfolding get_form_value
get_form_value-print_form encoder key pairs w =
    form_value-print encoder (suc (length (print_form encoder pairs))) key pairs
      (omega (arith, length-print_form encoder pairs)) w
