-- ===== src/Http/Parser/Bounds/Head.antt =====
-- HttpParser.cpp: the invariant for the limits of HttpParser.hpp, and the rounds over the head of a
-- request.
use aorta.Prelude.{
  ℕ, ◌+◌, ◌-◌, ◌*◌, ◌≤◌, ◌<◌, ◌≡◌, refl, sym, subst, Bool, true, false, ◌⊎◌, inl, inr, some, [],
  ◌∷◌, Bytes, find_char, find_char_from, length, length-append, arith,
}
use aorta.Http.Ctype.{is_xdigit, trim}
use aorta.Http.Parser.Defs.{
  State, request_line, headers, body, chunk_data, ParseResult, need_more_data, complete,
  bad_request, body_too_large, Parser, max_headers_size, max_header_count, max_body_size,
  is_valid_chunk_size, read_hex, hex_digit, before_extension, read_length,
}
use aorta.Http.Parser.Outcome.{Outcome}
use aorta.Http.Parser.Steps.{
  step_request_line, split_request_line, store_request_line, check_request_line, step_headers,
  header_line, count_header, split_header, store_header, host_header, content_length_header,
  store_length, transfer_encoding_header, push_header, end_of_headers,
}
use aorta.Http.Parser.Outcomes.{
  Leads, continues, returns, Leads-if, Leads-option, Leads-line, Leads-bind,
}

-- The states in which no byte of a body has been read.
abbrev pub is_early : State → Bool
is_early request_line = true
is_early headers = true
is_early _ = false

-- What holds of the parser between two rounds over a buffer of `size` bytes, with `pending` headers
-- counted and not yet stored.
pub record Limits (size pending : ℕ) (p : Parser) : Type 0 where
  pub cursor_le : p.cursor ≤ size
  pub headers_size_le : p.headers_size ≤ max_headers_size
  pub header_count_le : p.header_count ≤ max_header_count
  pub headers_counted : length p.request.headers + pending ≡ p.header_count
  pub content_length_le : p.content_length ≤ max_body_size
  pub body_le : length p.request.body ≤ max_body_size
  pub chunk_size_le : p.chunk_size ≤ max_body_size
  pub trailer_size_le : p.trailer_size ≤ max_headers_size
  pub trailer_count_le : p.trailer_count ≤ max_header_count
  pub no_body_yet : is_early p.state ≡ true → length p.request.body ≡ 0
  pub body_within : p.state ≡ body → length p.request.body ≤ p.content_length
  pub chunk_unfinished : p.state ≡ chunk_data → p.chunk_bytes_read < p.chunk_size

abbrev pub IsBounded : ℕ → Parser → Type 0
IsBounded size p = Limits size 0 p

-- What also holds of a parser that has refused its input.
pub record IsSmall (size : ℕ) (p : Parser) : Type 0 where
  pub cursor_le : p.cursor ≤ size
  pub headers_le : length p.request.headers ≤ max_header_count
  pub body_le : length p.request.body ≤ max_body_size

abbrev pub Ends : ℕ → ParseResult → Parser → Type 0
Ends size need_more_data p = IsBounded size p
Ends size complete p = IsBounded size p
Ends size _ p = IsSmall size p

abbrev pub Keeps : ℕ → Outcome → Type 0
Keeps size = Leads (IsBounded size) (Ends size)

module _ {size : ℕ} where
  pub small : {p : Parser} {pending : ℕ} → Limits size pending p → IsSmall size p
  small b = omega arith

  check_request_line-Keeps :
      (p : Parser) (end : ℕ)
      → p.state ≡ request_line
      → end + 2 ≤ size
      → IsBounded size p
      → Keeps size (check_request_line p end)
  unfolding check_request_line
  check_request_line-Keeps p end e h b =
      Leads-if _ (λ _. returns (small b))
        λ _.
          Leads-if _ (λ _. returns (small b))
            λ _. Leads-if _ (λ _. returns (small b)) λ _. continues (ground arith)

  split_request_line-Keeps :
      (p : Parser) (line : Bytes) (end : ℕ)
      → p.state ≡ request_line
      → end + 2 ≤ size
      → IsBounded size p
      → Keeps size (split_request_line p line end)
  unfolding split_request_line store_request_line
  split_request_line-Keeps p line end e h b =
      Leads-option (find_char b' ' line) (returns (small b)) λ first _.
        Leads-option (find_char_from b' ' line (first + 1)) (returns (small b)) λ second _.
          Leads-option (find_char_from b' ' line (second + 1))
            (Leads-if _ (λ _. returns (small b))
              (λ _. check_request_line-Keeps _ end e h (omega arith)))
            (λ _ _. returns (small b))

pub step_request_line-Keeps :
    (buffer : Bytes) (p : Parser)
    → p.state ≡ request_line
    → IsBounded (length buffer) p
    → Keeps (length buffer) (step_request_line buffer p)
unfolding step_request_line
step_request_line-Keeps buffer p e b =
    Leads-line buffer p.cursor (Leads-if _ (λ _. returns (small b)) (λ _. returns b))
      λ end _ h. Leads-if _ (λ _. returns (small b)) (λ _. split_request_line-Keeps p _ end e h b)

read_length-le :
    (n : ℕ) (s : Bytes) (m : ℕ) → n ≤ max_body_size → read_length n s ≡ inr m → m ≤ max_body_size
unfolding read_length
read_length-le n [] m h e = ground arith
read_length-le n (c ∷ s) m h e = ground (arith, read_length-le (n * 10 + (c - b'0')) s m)

pub read_length-refused :
    (n : ℕ) (s : Bytes) (x : ParseResult)
    → read_length n s ≡ inl x
    → (x ≡ bad_request) ⊎ (x ≡ body_too_large)
unfolding read_length
read_length-refused n [] x e = ground arith
read_length-refused n (c ∷ s) x e = ground (arith, read_length-refused (n * 10 + (c - b'0')) s x)

hex_digit-le : (c : ℕ) → is_xdigit c ≡ true → hex_digit c ≤ 15
unfolding is_xdigit
hex_digit-le c h = ground arith

read_hex-le :
    (n : ℕ) (s : Bytes) (m : ℕ) → n ≤ max_body_size → read_hex n s ≡ some m → m ≤ max_body_size
unfolding read_hex
read_hex-le n [] m h e = ground arith
read_hex-le n (c ∷ s) m h e = ground (arith, hex_digit-le c, read_hex-le (n * 16 + hex_digit c) s m)

pub is_valid_chunk_size-le :
    (s : Bytes) (m : ℕ) → is_valid_chunk_size s ≡ some m → m ≤ max_body_size
unfolding is_valid_chunk_size
is_valid_chunk_size-le s m e =
    ground (arith, read_hex-le 0 (trim (before_extension s (find_char b';' s))) m)

-- While a header is counted and not stored.
abbrev Counted : ℕ → Parser → Type 0
Counted size p = Limits size 1 p × (p.state ≡ headers)

module _ {size : ℕ} where
  host_header-Counted :
      (name value : Bytes) (p : Parser)
      → Counted size p
      → Leads (Counted size) (Ends size) (host_header name value p)
  unfolding host_header
  host_header-Counted name value p (b, e) =
      Leads-if _
        (λ _.
          Leads-if _ (λ _. returns (omega arith))
            λ _. Leads-if _ (λ _. returns (omega arith)) λ _. continues (omega arith, e))
        (λ _. continues (b, e))

  store_length-Counted :
      (p : Parser) (r : ParseResult ⊎ ℕ)
      → ((m : ℕ) → r ≡ inr m → m ≤ max_body_size)
      → ((x : ParseResult) → r ≡ inl x → Ends size x p)
      → Counted size p
      → Leads (Counted size) (Ends size) (store_length p r)
  unfolding store_length
  store_length-Counted p (inl x) h k c = returns (k x refl)
  store_length-Counted p (inr m) h k (b, e) =
      Leads-if _ (λ _. returns (small b)) λ _. continues (limits (h m refl), e)
    where
      limits :
          m ≤ max_body_size
          → Limits size 1 (record p { content_length = m; has_content_length = true })
      limits l = ground arith

  refused-Ends :
      {p : Parser} (x : ParseResult)
      → (x ≡ bad_request) ⊎ (x ≡ body_too_large)
      → IsSmall size p
      → Ends size x p
  refused-Ends {p} x (inl e) h = subst (λ r. Ends size r p) (sym e) h
  refused-Ends {p} x (inr e) h = subst (λ r. Ends size r p) (sym e) h

  content_length_header-Counted :
      (name value : Bytes) (p : Parser)
      → Counted size p
      → Leads (Counted size) (Ends size) (content_length_header name value p)
  unfolding content_length_header
  content_length_header-Counted name value p c =
      Leads-if _
        (λ _.
          Leads-if _ (λ _. returns (small c.0))
            λ _.
              store_length-Counted p (read_length 0 value)
                (λ m. read_length-le 0 value m (omega arith))
                (λ x e. refused-Ends x (read_length-refused 0 value x e) (small c.0)) c)
        (λ _. continues c)

  transfer_encoding_header-Counted :
      (name value : Bytes) (p : Parser)
      → Counted size p
      → Leads (Counted size) (Ends size) (transfer_encoding_header name value p)
  unfolding transfer_encoding_header
  transfer_encoding_header-Counted name value p (b, e) =
      Leads-if _
        (λ _.
          Leads-if _ (λ _. returns (small b))
            λ _. Leads-if _ (λ _. returns (small b)) λ _. continues (omega arith, e))
        (λ _. continues (b, e))

  push_header-Keeps :
      (name value : Bytes) (end : ℕ) (p : Parser)
      → end + 2 ≤ size
      → Counted size p
      → Keeps size (push_header name value end p)
  unfolding push_header
  push_header-Keeps name value end p h (b, e) =
      continues (omega (arith, length-append p.request.headers ((name, value) ∷ [])))

  split_header-Keeps :
      (line : Bytes) (end : ℕ) (p : Parser)
      → end + 2 ≤ size
      → Counted size p
      → Keeps size (split_header line end p)
  unfolding split_header store_header
  split_header-Keeps line end p h c =
      Leads-option (find_char b':' line) (returns (small c.0)) λ colon _.
        Leads-if _ (λ _. returns (small c.0))
          λ _.
            Leads-if _ (λ _. returns (small c.0))
              λ _. Leads-bind (host_header-Counted _ _ p c) λ p₁ c₁.
                Leads-bind (content_length_header-Counted _ _ p₁ c₁) λ p₂ c₂.
                  Leads-bind (transfer_encoding_header-Counted _ _ p₂ c₂)
                    λ p₃ c₃. push_header-Keeps _ _ end p₃ h c₃

  end_of_headers-Keeps :
      (p : Parser) → p.state ≡ headers → IsBounded size p → Keeps size (end_of_headers p)
  unfolding end_of_headers
  end_of_headers-Keeps p e b =
      Leads-if _ (λ _. returns (small b))
        λ _.
          Leads-if _ (λ _. returns (small b))
            λ _.
              Leads-if _ (λ _. Leads-if _ (λ _. returns (small b)) λ _. continues (ground arith))
                (λ _. continues (ground arith))

  count_header-Keeps :
      (buffer : Bytes) (end : ℕ) (p : Parser)
      → p.state ≡ headers
      → end + 2 ≤ size
      → IsBounded size p
      → Keeps size (count_header buffer end p)
  unfolding count_header
  count_header-Keeps buffer end p e h b =
      Leads-if _ (λ _. returns (omega arith)) λ t. split_header-Keeps _ end _ h (ground arith, e)

  header_line-Keeps :
      (buffer : Bytes) (end : ℕ) (p : Parser)
      → p.state ≡ headers
      → end + 2 ≤ size
      → IsBounded size p
      → Keeps size (header_line buffer end p)
  unfolding header_line
  header_line-Keeps buffer end p e h b =
      Leads-if _ (λ _. returns (small b))
        λ _.
          Leads-if _ (λ _. returns (small b))
            λ t.
              Leads-if _ (λ _. end_of_headers-Keeps _ e (ground arith))
                λ _. count_header-Keeps buffer end _ e h (ground arith)

pub step_headers-Keeps :
    (buffer : Bytes) (p : Parser)
    → p.state ≡ headers
    → IsBounded (length buffer) p
    → Keeps (length buffer) (step_headers buffer p)
unfolding step_headers
step_headers-Keeps buffer p e b =
    Leads-if _ (λ _. returns (small b))
      λ _.
        Leads-line buffer p.cursor
          (Leads-if _ (λ _. returns (small b))
            λ _. Leads-if _ (λ _. returns (small b)) λ _. returns b)
          λ end _ h. header_line-Keeps buffer end p e h b
