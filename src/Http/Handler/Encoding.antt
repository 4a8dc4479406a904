-- ===== src/Http/Handler/Encoding.antt =====
-- HttpHandler.cpp: urlDecode against a browser's encoders.
use aorta.Prelude.{
  ℕ, ◌+◌, ◌-◌, ◌*◌, ◌/◌, ◌%◌, ◌<◌, ◌≡◌, refl, sym, ap, ap₂, ◌∙◌, Bool, true, false, any, ◌||◌,
  codes, ◌&&◌, all, [], ◌∷◌, if◌then◌else◌, ◌==◌, ==→≡, ltb, ltb→lt, both_left, both_right,
  if_intro, arith, Bytes,
}
use aorta.Http.Ctype.{is_alnum, is_digit, is_xdigit, to_lower}
use aorta.Http.Handler.Form.{hex_value, url_decode}

abbrev pub hex_digit : ℕ → ℕ
hex_digit d = if ltb d 10 then b'0' + d else b'A' + (d - 10)

-- The two encoders of a browser: the one that submits a form as application/x-www-form-urlencoded, and
-- encodeURIComponent of public/app.js, on the bytes of a text in UTF-8.
pub data Encoder : Type 0 where
  form : Encoder
  uri_component : Encoder

abbrev pub is_among : Bytes → ℕ → Bool
is_among marks c = any (λ m. m == c) marks

-- The characters that an encoder leaves as they are.
unfoldable pub keeps : Encoder → ℕ → Bool
unfolding is_alnum
keeps form c = is_alnum c || is_among (codes "*-._") c
keeps uri_component c = is_alnum c || is_among (codes "-_.!~*'()") c

abbrev pub joins_blanks : Encoder → Bool
joins_blanks form = true
joins_blanks uri_component = false

-- The blank of a form is '+'; what is not kept is in hexadecimal.
unfoldable pub encode_char : Encoder → ℕ → Bytes → Bytes
unfolding keeps
encode_char encoder c rest =
    if keeps encoder c
    then c ∷ rest
    else if joins_blanks encoder && c == b' '
    then b'+' ∷ rest
    else b'%' ∷ hex_digit (c / 16) ∷ hex_digit (c % 16) ∷ rest

unfoldable pub url_encode : Encoder → Bytes → Bytes
unfolding encode_char
url_encode encoder [] = []
url_encode encoder (c ∷ s) = encode_char encoder c (url_encode encoder s)

abbrev pub is_byte : ℕ → Bool
is_byte c = ltb c 256

hex_digit-is_xdigit : (d : ℕ) → d < 16 → is_xdigit (hex_digit d) ≡ true
unfolding is_xdigit
hex_digit-is_xdigit d h = ground arith

hex_value-hex_digit : (d : ℕ) → d < 16 → hex_value (hex_digit d) ≡ d
unfolding hex_value is_digit to_lower
hex_value-hex_digit d h = ground arith

-- What is kept is none of the four characters that urlDecode and getFormValue treat in a way of their own.
pub keeps_plain :
    (encoder : Encoder) (c : ℕ)
    → keeps encoder c ≡ true
    → ((c == b'+') ≡ false) × ((c == b'%') ≡ false) × ((c == b'&') ≡ false) × ((c == b'=') ≡ false)
unfolding keeps is_alnum
keeps_plain form c h = (ground arith, ground arith, ground arith, ground arith)
keeps_plain uri_component c h = (ground arith, ground arith, ground arith, ground arith)

url_decode-plain :
    (c : ℕ) (s : Bytes)
    → (c == b'+') ≡ false
    → (c == b'%') ≡ false
    → url_decode (c ∷ s) ≡ c ∷ url_decode s
unfolding url_decode
url_decode-plain c [] h k = rw h refl
url_decode-plain c (x ∷ []) h k = rw h refl
url_decode-plain c (x ∷ y ∷ s) h k = rw (h, k) refl

url_decode-blank : (s : Bytes) → url_decode (b'+' ∷ s) ≡ b' ' ∷ url_decode s
unfolding url_decode
url_decode-blank [] = refl
url_decode-blank (x ∷ []) = refl
url_decode-blank (x ∷ y ∷ s) = refl

url_decode-hex :
    (x y : ℕ) (s : Bytes)
    → is_xdigit x ≡ true
    → is_xdigit y ≡ true
    → url_decode (b'%' ∷ x ∷ y ∷ s) ≡ (hex_value x * 16 + hex_value y) ∷ url_decode s
unfolding url_decode
url_decode-hex x y s h k = rw (h, k) refl

url_decode-byte :
    (c : ℕ) (s : Bytes)
    → c < 256
    → url_decode (b'%' ∷ hex_digit (c / 16) ∷ hex_digit (c % 16) ∷ s) ≡ c ∷ url_decode s
url_decode-byte c s h =
    let high : c / 16 < 16 = omega (arith, h) in
    let low : c % 16 < 16 = omega arith in
    url_decode-hex (hex_digit (c / 16)) (hex_digit (c % 16)) s (hex_digit-is_xdigit (c / 16) high)
      (hex_digit-is_xdigit (c % 16) low)
    ∙ ap (λ n. n ∷ url_decode s)
        (omega (arith, hex_value-hex_digit (c / 16) high, hex_value-hex_digit (c % 16) low))

-- What a browser encodes, for a form that it submits or by encodeURIComponent, `urlDecode` decodes:
-- every text of bytes comes back.
pub url_decode-url_encode :
    (encoder : Encoder) (s : Bytes) → all is_byte s ≡ true → url_decode (url_encode encoder s) ≡ s
unfolding url_encode url_decode encode_char
url_decode-url_encode encoder [] h = refl
url_decode-url_encode encoder (c ∷ s) h =
    let rest = url_decode-url_encode encoder s (both_right (is_byte c) (all is_byte s) h) in
    let small = ltb→lt c 256 (both_left (is_byte c) (all is_byte s) h) in
    let back = λ (e : Bytes). url_decode e ≡ c ∷ s in
    if_intro back (keeps encoder c)
      (λ t.
        let (n, m, _, _) = keeps_plain encoder c t in
        url_decode-plain c (url_encode encoder s) n m ∙ ap (◌∷◌ c) rest)
      λ t.
        if_intro back (joins_blanks encoder && c == b' ')
          (λ u.
            url_decode-blank (url_encode encoder s)
            ∙ ap₂ ◌∷◌ (sym (==→≡ c b' ' (both_right (joins_blanks encoder) (c == b' ') u))) rest)
          λ u. url_decode-byte c (url_encode encoder s) small ∙ ap (◌∷◌ c) rest
