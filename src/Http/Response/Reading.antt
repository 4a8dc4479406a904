-- ===== src/Http/Response/Reading.antt =====
-- HttpResponse.cpp: the text of a response against a client's reading of it.
use aorta.Prelude.{
  ℕ, zero, suc, ◌+◌, ◌≤◌, ◌<◌, ◌≡◌, refl, sym, ap, ◌∙◌, true, false, not, ◌&&◌, all, Option, none,
  some, List, [], ◌∷◌, ◌++◌, append_assoc, length, length-append, take, drop, drop-add, take-append,
  drop-append, ap₂, all-append, all-weaken, ◌==◌, starts_with, find_text, find_crlf, to_string,
  Bytes, codes, arith, both, both_left, both_right,
}
use aorta.Http.Response.Defs.{HttpResponse, status_line, sent_body, crlf, header_lines, serialize}
use aorta.Http.Response.Framing.{is_plain, is_line, is_name, is_field, IsHeaded, to_string-line}

-- A client's reading: the lines up to the first empty one, each split at the first ": ", and the rest.
abbrev pub cut_field : Option ℕ → Bytes → Option (Bytes × Bytes)
cut_field none line = none
cut_field (some i) line = some (take i line, drop (i + 2) line)

unfoldable pub read_field : Bytes → Option (Bytes × Bytes)
unfolding find_text
read_field line = cut_field (find_text (codes ": ") line) line

abbrev pub Fields : Type 0
Fields = List (Bytes × Bytes) × Bytes

abbrev pub join_field : Option (Bytes × Bytes) → Option Fields → Option Fields
join_field (some field) (some (fields, rest)) = some (field ∷ fields, rest)
join_field _ _ = none

unfoldable pub next_field : Option ℕ → Bytes → (Bytes → Option Fields) → Option Fields
unfolding read_field
next_field none s read_rest = none
next_field (some zero) s read_rest = some ([], drop 2 s)
next_field (some (suc i)) s read_rest =
    join_field (read_field (take (suc i) s)) (read_rest (drop (suc i + 2) s))

unfoldable pub read_fields : ℕ → Bytes → Option Fields
unfolding find_crlf next_field
read_fields zero s = none
read_fields (suc f) s = next_field (find_crlf s) s (read_fields f)

abbrev pub with_status : Bytes → Option Fields → Option (Bytes × Fields)
with_status status none = none
with_status status (some fields) = some (status, fields)

abbrev pub cut_status : Option ℕ → Bytes → Option (Bytes × Fields)
cut_status none s = none
cut_status (some i) s = with_status (take i s) (read_fields (length s) (drop (i + 2) s))

-- The status line, the headers and what follows them.
unfoldable pub read_response : Bytes → Option (Bytes × Fields)
unfolding find_crlf read_fields
read_response s = cut_status (find_crlf s) s

plain-return : (c : ℕ) → is_plain c ≡ true → (c == b'\r') ≡ false
plain-return c h = ground arith

plain-colon : (c : ℕ) → (is_plain c && not (c == b':')) ≡ true → (c == b':') ≡ false
plain-colon c h = ground arith

find_crlf-plain :
    (c : ℕ) (s : Bytes)
    → (c == b'\r') ≡ false
    → find_crlf (c ∷ s) ≡ elim (find_crlf s) [ none ↦ none | some i ↦ some (suc i) ]
unfolding find_crlf
find_crlf-plain c [] h = refl
find_crlf-plain c (x ∷ s) h = rw h refl

find_crlf-line :
    (line t : Bytes) → is_line line ≡ true → find_crlf (line ++ (crlf ++ t)) ≡ some (length line)
unfolding find_crlf
find_crlf-line [] t h = refl
find_crlf-line (c ∷ line) t h =
    let plain = both_left (is_plain c) (is_line line) h in
    find_crlf-plain c (line ++ (crlf ++ t)) (plain-return c plain)
    ∙ rw (find_crlf-line line t (both_right (is_plain c) (is_line line) h)) refl

find_text-name :
    (name v : Bytes)
    → is_name name ≡ true
    → find_text (codes ": ") (name ++ ((codes ": ") ++ v)) ≡ some (length name)
unfolding find_text starts_with
find_text-name [] v h = refl
find_text-name (c ∷ name) v h =
    let plain = both_left (is_plain c && not (c == b':')) (is_name name) h in
    rw
      (
        plain-colon c plain,
        find_text-name name v (both_right (is_plain c && not (c == b':')) (is_name name) h),
      )
      refl

drop_beyond : (a b : Bytes) → drop (length a + 2) (a ++ b) ≡ drop 2 b
drop_beyond a b = drop-add (length a) 2 (a ++ b) ∙ ap (drop 2) (drop-append a b)

read_field-line :
    (name v : Bytes)
    → is_name name ≡ true
    → read_field (name ++ ((codes ": ") ++ v)) ≡ some (name, v)
unfolding read_field
read_field-line name v h =
    let tail = (codes ": ") ++ v in
    ap (λ o. cut_field o (name ++ tail)) (find_text-name name v h)
    ∙ ap₂ (λ (a b : Bytes). some (a, b)) (take-append name tail) (drop_beyond name tail)

-- A step of the reader over a line that is not empty.
read_fields-line :
    (f c : ℕ) (line t : Bytes)
    → is_line (c ∷ line) ≡ true
    → read_fields (suc f) ((c ∷ line) ++ (crlf ++ t))
      ≡ join_field (read_field (c ∷ line)) (read_fields f t)
unfolding read_fields next_field
read_fields-line f c line t h =
    let s = (c ∷ line) ++ (crlf ++ t) in
    ap (λ o. next_field o s (read_fields f)) (find_crlf-line (c ∷ line) t h)
    ∙ ap₂ (λ (a b : Bytes). join_field (read_field a) (read_fields f b))
        (take-append (c ∷ line) (crlf ++ t)) (drop_beyond (c ∷ line) (crlf ++ t))

read_line :
    (f : ℕ) (line t : Bytes)
    → is_line line ≡ true
    → 1 ≤ length line
    → read_fields (suc f) (line ++ (crlf ++ t)) ≡ join_field (read_field line) (read_fields f t)
read_line f [] t h k = absurd (omega arith)
read_line f (c ∷ line) t h k = read_fields-line f c line t h

is_line-append : (s t : Bytes) → is_line s ≡ true → is_line t ≡ true → is_line (s ++ t) ≡ true
is_line-append s t h k = all-append is_plain s t ∙ both h k

is_line-field :
    (name v : Bytes)
    → is_name name ≡ true
    → is_line v ≡ true
    → is_line (name ++ ((codes ": ") ++ v)) ≡ true
is_line-field name v h k =
    is_line-append name ((codes ": ") ++ v)
      (all-weaken (λ c. is_plain c && not (c == b':')) is_plain (λ c e. both_left (is_plain c) _ e)
        name h)
      k

length-field : (name v : Bytes) → 1 ≤ length (name ++ ((codes ": ") ++ v))
length-field name v = omega (arith, length-append name ((codes ": ") ++ v))

regroup_line :
    (name v lines t : Bytes)
    → (name ++ ((codes ": ") ++ (v ++ (crlf ++ lines)))) ++ t
      ≡ (name ++ ((codes ": ") ++ v)) ++ (crlf ++ (lines ++ t))
regroup_line name v lines t =
    append_assoc name ((codes ": ") ++ (v ++ (crlf ++ lines))) t
    ∙ ap (λ x. name ++ ((codes ": ") ++ x)) (append_assoc v (crlf ++ lines) t)
    ∙ sym (append_assoc name ((codes ": ") ++ v) (crlf ++ (lines ++ t)))

read_fields-header_lines :
    (f : ℕ) (headers : List (Bytes × Bytes)) (t : Bytes)
    → length headers < f
    → all is_field headers ≡ true
    → read_fields f (header_lines headers ++ (crlf ++ t)) ≡ some (headers, t)
unfolding read_fields header_lines next_field
read_fields-header_lines zero headers t h k = absurd (omega arith)
read_fields-header_lines (suc f) [] t h k =
    ap (λ o. next_field o (crlf ++ t) (read_fields f)) (find_crlf-line [] t refl)
read_fields-header_lines (suc f) ((name, v) ∷ headers) t h k =
    let first = both_left (is_field (name, v)) (all is_field headers) k in
    let named = both_left (is_name name) (is_line v) first in
    let rest = header_lines headers ++ (crlf ++ t) in
    ap (read_fields (suc f)) (regroup_line name v (header_lines headers) (crlf ++ t))
    ∙ read_line f (name ++ ((codes ": ") ++ v)) rest
        (is_line-field name v named (both_right (is_name name) (is_line v) first))
        (length-field name v)
    ∙ ap₂ join_field (read_field-line name v named) (
        read_fields-header_lines f headers t (omega arith)
          (both_right (is_field (name, v)) (all is_field headers) k))

length-header_lines :
    (headers : List (Bytes × Bytes)) → length headers ≤ length (header_lines headers)
unfolding header_lines
length-header_lines [] = omega arith
length-header_lines ((name, v) ∷ headers) = omega (
  arith,
  length-header_lines headers,
  length-append v (crlf ++ header_lines headers),
  length-append name ((codes ": ") ++ (v ++ (crlf ++ header_lines headers))),
)

is_line-status : (r : HttpResponse) → IsHeaded r → is_line (status_line r) ≡ true
unfolding status_line
is_line-status r h =
    let code = to_string r.status_code in
    is_line-append r.version (b' ' ∷ (code ++ (b' ' ∷ r.reason))) h.versioned
      (is_line-append code (b' ' ∷ r.reason) (to_string-line r.status_code) h.reasoned)

-- Of a response whose version, reason and headers contain no carriage return and no line feed, whose
-- header names contain no colon, and that has at most one Content-Length: a client that reads its text
-- up to the empty line finds the status line, then its headers, no more and no fewer, under their names
-- and with their values, and behind them the body that is sent.
pub serialize-IsHeaded :
    (r : HttpResponse)
    → IsHeaded r
    → read_response (serialize r) ≡ some (status_line r, (r.headers, sent_body r))
unfolding read_response serialize
serialize-IsHeaded r h =
    let fields = header_lines r.headers ++ (crlf ++ sent_body r) in
    let s = status_line r ++ (crlf ++ fields) in
    ap (λ o. cut_status o s) (find_crlf-line (status_line r) fields (is_line-status r h))
    ∙ ap₂ with_status (take-append (status_line r) (crlf ++ fields)) (
        ap (read_fields (length s)) (drop_beyond (status_line r) (crlf ++ fields))
        ∙ read_fields-header_lines (length s) r.headers (sent_body r)
            (omega (
              arith,
              length-append (status_line r) (crlf ++ fields),
              length-header_lines r.headers,
              length-append (header_lines r.headers) (crlf ++ sent_body r),
            ))
            h.fielded)
