-- ===== src/Http/Response/Framing.antt =====
-- HttpResponse.cpp: what makes a response one that a client can take apart.
use aorta.Prelude.{
  ℕ, ◌≤◌, ◌≡◌, refl, ◌∙◌, Bool, true, false, not, ◌&&◌, all, some, List, [], ◌∷◌, if◌then◌else◌,
  length, ◌==◌, to_string, Bytes, codes, arith, if_intro, both, both_left, both_right, all-weaken,
  is_decimal, to_string-decimal,
}
use aorta.Http.Ctype.{equals_ignore_case}
use aorta.Http.Names.{
  equals_ignore_case_self, count_header, count_header-put_header, find_header-put_header,
}
use aorta.Http.Request.{find_header}
use aorta.Http.Response.Defs.{
  HttpResponse, empty_response, set_status, set_body, set_file, put_header, set_header,
  set_content_length_to, set_content_length, set_send_body,
}

-- A character that stands for itself in a line.
abbrev pub is_plain : ℕ → Bool
is_plain c = not (c == b'\r') && not (c == b'\n')

abbrev pub is_line : Bytes → Bool
is_line s = all is_plain s

abbrev pub is_name : Bytes → Bool
is_name s = all (λ c. is_plain c && not (c == b':')) s

abbrev pub is_field : Bytes × Bytes → Bool
is_field (name, value) = is_name name && is_line value

abbrev pub content_length : Bytes
content_length = codes "Content-Length"

-- The status line and the headers are lines, and Content-Length is not there twice.
pub record IsHeaded (r : HttpResponse) : Type 0 where
  pub versioned : is_line r.version ≡ true
  pub reasoned : is_line r.reason ≡ true
  pub fielded : all is_field r.headers ≡ true
  pub single : count_header content_length r.headers ≤ 1

-- The bytes that the response announces: those of the file or of the body.
abbrev pub payload : HttpResponse → ℕ
payload r = if r.send_file then r.file_size else length r.body

-- There is one Content-Length header, and its value is the size of what is sent.
pub record IsFramed (r : HttpResponse) : Type 0 where
  pub headed : IsHeaded r
  pub one : count_header content_length r.headers ≡ 1
  pub announced : find_header content_length r.headers ≡ some (to_string (payload r))

pub empty_response-IsHeaded : IsHeaded empty_response
empty_response-IsHeaded = record {
  versioned = refl;
  reasoned = refl;
  fielded = refl;
  single = omega arith;
}

content_length_self : equals_ignore_case content_length content_length ≡ true
content_length_self = equals_ignore_case_self content_length

put_header-fielded :
    (name value : Bytes) (headers : List (Bytes × Bytes))
    → is_field (name, value) ≡ true
    → all is_field headers ≡ true
    → all is_field (put_header name value headers) ≡ true
unfolding put_header
put_header-fielded name value [] h k = rw h refl
put_header-fielded name value ((n, v) ∷ headers) h k =
    let first = both_left (is_field (n, v)) (all is_field headers) k in
    let rest = both_right (is_field (n, v)) (all is_field headers) k in
    if_intro (λ hs. all is_field hs ≡ true) (equals_ignore_case n name)
      (λ t.
        both
          (both (both_left (is_name n) (is_line v) first)
            (both_right (is_name name) (is_line value) h))
          rest)
      (λ t. both first (put_header-fielded name value headers h rest))

pub to_string-line : (n : ℕ) → is_line (to_string n) ≡ true
to_string-line n =
    all-weaken is_decimal is_plain (λ c h. ground arith) (to_string n) (to_string-decimal n)

-- The setters keep a headed response headed, for what the code gives them.
pub set_status-IsHeaded :
    (code : ℕ) (reason : Bytes) (r : HttpResponse)
    → is_line reason ≡ true
    → IsHeaded r
    → IsHeaded (set_status code reason r)
unfolding set_status
set_status-IsHeaded code reason r h k = record {
  versioned = k.versioned;
  reasoned = h;
  fielded = k.fielded;
  single = k.single;
}

pub set_body-IsHeaded : (body : Bytes) (r : HttpResponse) → IsHeaded r → IsHeaded (set_body body r)
unfolding set_body
set_body-IsHeaded body r k = record {
  versioned = k.versioned;
  reasoned = k.reasoned;
  fielded = k.fielded;
  single = k.single;
}

pub set_file-IsHeaded :
    (path : Bytes) (size : ℕ) (r : HttpResponse) → IsHeaded r → IsHeaded (set_file path size r)
unfolding set_file
set_file-IsHeaded path size r k = record {
  versioned = k.versioned;
  reasoned = k.reasoned;
  fielded = k.fielded;
  single = k.single;
}

pub set_header-IsHeaded :
    (name value : Bytes) (r : HttpResponse)
    → is_field (name, value) ≡ true
    → IsHeaded r
    → IsHeaded (set_header name value r)
unfolding set_header
set_header-IsHeaded name value r h k = record {
  versioned = k.versioned;
  reasoned = k.reasoned;
  fielded = put_header-fielded name value r.headers h k.fielded;
  single = rw (count_header-put_header content_length name value r.headers) (
      if_intro (λ n. n ≤ 1) (equals_ignore_case name content_length) (λ t. omega (arith, k.single))
        (λ t. k.single));
}

set_content_length_to-IsFramed :
    (size : ℕ) (r : HttpResponse)
    → size ≡ payload r
    → IsHeaded r
    → IsFramed (set_content_length_to size r)
unfolding set_content_length_to set_header
set_content_length_to-IsFramed size r e k = record {
  headed = set_header-IsHeaded content_length (to_string size) r (to_string-line size) k;
  one =
      count_header-put_header content_length content_length (to_string size) r.headers
      ∙ rw (content_length_self) (omega (arith, k.single));
  announced =
      find_header-put_header content_length content_length (to_string size) r.headers
      ∙ rw (content_length_self, e) refl;
}

pub set_content_length-IsFramed : (r : HttpResponse) → IsHeaded r → IsFramed (set_content_length r)
unfolding set_content_length
set_content_length-IsFramed r k =
    if_intro IsFramed r.send_file (λ t. set_content_length_to-IsFramed r.file_size r (rw t refl) k)
      (λ t. set_content_length_to-IsFramed (length r.body) r (rw t refl) k)

pub set_header-IsFramed :
    (name value : Bytes) (r : HttpResponse)
    → is_field (name, value) ≡ true
    → equals_ignore_case name content_length ≡ false
    → IsFramed r
    → IsFramed (set_header name value r)
unfolding set_header
set_header-IsFramed name value r h ne k = record {
  headed = set_header-IsHeaded name value r h k.headed;
  one = count_header-put_header content_length name value r.headers ∙ rw ne (k.one);
  announced = find_header-put_header content_length name value r.headers ∙ rw ne (k.announced);
}

pub set_send_body-IsFramed :
    (value : Bool) (r : HttpResponse) → IsFramed r → IsFramed (set_send_body value r)
unfolding set_send_body
set_send_body-IsFramed value r k = record {
  headed = record {
    versioned = k.headed.versioned;
    reasoned = k.headed.reasoned;
    fielded = k.headed.fielded;
    single = k.headed.single;
  };
  one = k.one;
  announced = k.announced;
}
