-- ===== src/Http/Parser/Bounds.antt =====
-- HttpParser.cpp: the limits of HttpParser.hpp in the states that the parser reaches.
mod Head
use aorta.Prelude.{
  ℕ, zero, suc, ◌+◌, ◌-◌, ◌*◌, ◌≤◌, ◌<◌, ◌≡◌, refl, Bool, true, false, Option, none, some, List, [],
  ◌∷◌, ◌++◌, Bytes, find_char, substr, length, length-append, length-take, length-drop, take, drop,
  arith, min, sub_size, ◌⊎◌, inl, inr,
}
use aorta.Http.Parser.Defs.{
  State, request_line, headers, body, chunk_size, chunk_data, chunk_data_crlf, chunk_trailers,
  ParseResult, need_more_data, complete, Parser, initial, max_headers_size, max_header_count,
  max_body_size, is_valid_chunk_size, at_most, reset, consume_parsed_bytes,
}
use aorta.Http.Parser.Outcomes.{
  Leads, continues, returns, Leads-if, Leads-option, Leads-line, run-Leads,
}
use aorta.Http.Parser.Loop.{
  step_in, step, step_body, step_chunk_size, step_chunk_data, step_chunk_data_crlf,
  step_chunk_trailers, split_trailer, append_body, run, parse,
}
use Head.{small, step_request_line-Keeps, step_headers-Keeps, is_valid_chunk_size-le}
pub use Head.{read_length-refused, Limits, IsBounded, IsSmall, Ends, Keeps, is_early}

pub length-append_body :
    (buffer : Bytes) (n : ℕ) (p : Parser)
    → length (append_body buffer n p).request.body
      ≡ length p.request.body + min n (length buffer - p.cursor)
length-append_body buffer n p = omega (
  arith,
  length-append p.request.body (substr buffer p.cursor n),
  length-take n (drop p.cursor buffer),
  length-drop p.cursor buffer,
)

-- How much of a body still to come the buffer holds.
module _ (buffer : Bytes) (p : Parser) (b : IsBounded (length buffer) p) where
  append_body-IsBounded :
      (n : ℕ)
      → p.state ≡ body
      → n ≤ length buffer - p.cursor
      → n ≤ p.content_length - length p.request.body
      → IsBounded (length buffer) (append_body buffer n p)
  append_body-IsBounded n e h k = ground (arith, length-append_body buffer n p)

  append_chunk-IsBounded :
      (n : ℕ) (s : State)
      → p.state ≡ chunk_data
      → n ≤ length buffer - p.cursor
      → length p.request.body + n ≤ max_body_size
      → (s ≡ chunk_data_crlf) ⊎ ((s ≡ p.state) × (p.chunk_bytes_read + n < p.chunk_size))
      → IsBounded
          (length buffer)
          (record (append_body buffer n p) { state = s; chunk_bytes_read = p.chunk_bytes_read + n })
  append_chunk-IsBounded n s e h k c = ground (arith, length-append_body buffer n p)

step_body-Keeps :
    (buffer : Bytes) (p : Parser)
    → p.state ≡ body
    → IsBounded (length buffer) p
    → Keeps (length buffer) (step_body buffer p)
unfolding step_body
step_body-Keeps buffer p e b =
    Leads-if _ (λ _. returns b)
      λ _.
        Leads-if _ (λ _. returns (small b))
          λ t.
            Leads-if _ (λ _. returns (small b))
              λ _.
                Leads-if _ (λ _. returns b) λ _. Leads-if _ (λ _. returns grown) λ _. returns grown
  where
    grown : IsBounded (length buffer) (
        append_body buffer
          (at_most (sub_size p.content_length (length p.request.body)) (length buffer - p.cursor))
          p)
    grown = append_body-IsBounded buffer p b _ e (ground arith) (ground (arith, b.body_within e))

step_chunk_size-Keeps :
    (buffer : Bytes) (p : Parser)
    → p.state ≡ chunk_size
    → IsBounded (length buffer) p
    → Keeps (length buffer) (step_chunk_size buffer p)
unfolding step_chunk_size
step_chunk_size-Keeps buffer p e b =
    Leads-line buffer p.cursor (Leads-if _ (λ _. returns (small b)) (λ _. returns b)) λ end _ h.
      Leads-if _ (λ _. returns (small b))
        λ _.
          Leads-option (is_valid_chunk_size (substr buffer p.cursor (end - p.cursor)))
            (returns (small b))
            λ size f. continues (ground (arith, is_valid_chunk_size-le _ size f))

step_chunk_data-Keeps :
    (buffer : Bytes) (p : Parser)
    → p.state ≡ chunk_data
    → IsBounded (length buffer) p
    → Keeps (length buffer) (step_chunk_data buffer p)
unfolding step_chunk_data
step_chunk_data-Keeps buffer p e b =
    let n : ℕ = at_most (sub_size p.chunk_size p.chunk_bytes_read) (length buffer - p.cursor) in
    Leads-if _ (λ _. returns (small b))
      λ _.
        Leads-if _ (λ _. returns b)
          λ _.
            Leads-if _ (λ _. returns (small b))
              λ t.
                Leads-if _
                  (λ u. returns (
                    append_chunk-IsBounded buffer p b n p.state e (ground arith) (ground arith)
                      (inr (refl, ground arith))))
                  (λ _. continues (
                    append_chunk-IsBounded buffer p b n chunk_data_crlf e (ground arith)
                      (ground arith) (inl refl)))

step_chunk_data_crlf-Keeps :
    (buffer : Bytes) (p : Parser)
    → p.state ≡ chunk_data_crlf
    → IsBounded (length buffer) p
    → Keeps (length buffer) (step_chunk_data_crlf buffer p)
unfolding step_chunk_data_crlf
step_chunk_data_crlf-Keeps buffer p e b =
    Leads-if _ (λ _. returns b)
      λ t. Leads-if _ (λ _. returns (small b)) λ _. continues (ground arith)

split_trailer-Keeps :
    {size : ℕ} (line : Bytes) (end : ℕ) (p : Parser)
    → end + 2 ≤ size
    → p.state ≡ chunk_trailers
    → IsBounded size p
    → Keeps size (split_trailer line end p)
unfolding split_trailer
split_trailer-Keeps line end p h e b =
    Leads-option (find_char b':' line) (returns (small b)) λ colon _.
      Leads-if _ (λ _. returns (small b))
        λ _. Leads-if _ (λ _. returns (small b)) λ _. continues (omega arith)

step_chunk_trailers-Keeps :
    (buffer : Bytes) (p : Parser)
    → p.state ≡ chunk_trailers
    → IsBounded (length buffer) p
    → Keeps (length buffer) (step_chunk_trailers buffer p)
unfolding step_chunk_trailers
step_chunk_trailers-Keeps buffer p e b =
    Leads-line buffer p.cursor
      (Leads-if _ (λ _. returns (small b))
        λ _. Leads-if _ (λ _. returns (small b)) (λ _. returns b))
      λ end _ h.
        Leads-if _ (λ _. returns (small b))
          λ t.
            Leads-if _ (λ _. returns (ground arith))
              λ _.
                Leads-if _ (λ _. returns (omega arith))
                  λ u. split_trailer-Keeps _ end _ h e (ground arith)

step_in-Keeps :
    (s : State) (buffer : Bytes) (p : Parser)
    → p.state ≡ s
    → IsBounded (length buffer) p
    → Keeps (length buffer) (step_in s buffer p)
unfolding step_in
step_in-Keeps request_line buffer p e b = step_request_line-Keeps buffer p e b
step_in-Keeps headers buffer p e b = step_headers-Keeps buffer p e b
step_in-Keeps body buffer p e b = step_body-Keeps buffer p e b
step_in-Keeps chunk_size buffer p e b = step_chunk_size-Keeps buffer p e b
step_in-Keeps chunk_data buffer p e b = step_chunk_data-Keeps buffer p e b
step_in-Keeps chunk_data_crlf buffer p e b = step_chunk_data_crlf-Keeps buffer p e b
step_in-Keeps chunk_trailers buffer p e b = step_chunk_trailers-Keeps buffer p e b

pub step-Keeps :
    (buffer : Bytes) (p : Parser)
    → IsBounded (length buffer) p
    → Keeps (length buffer) (step buffer p)
step-Keeps buffer p b = step_in-Keeps p.state buffer p refl b

-- From a parser within the limits, `parse` returns one within the limits: the cursor inside the
-- buffer, at most 100 headers and 32768 bytes of them, a body of at most 1048576 bytes. After an
-- error only the cursor, the headers stored and the body are claimed.
pub parse-Ends :
    (buffer : Bytes) (p : Parser) {r : ParseResult} {q : Parser}
    → IsBounded (length buffer) p
    → parse buffer p ≡ some (r, q)
    → Ends (length buffer) r q
unfolding parse
parse-Ends buffer p b = run-Leads buffer (step-Keeps buffer) (2 * length buffer + 2) p b

-- A new parser is within the limits, and one whose consumed bytes have been dropped is, for any
-- later buffer.
pub initial-IsBounded : (size : ℕ) → IsBounded size initial
initial-IsBounded size = ground arith

pub consume_parsed_bytes-IsBounded :
    {size : ℕ} (later : ℕ) {p : Parser}
    → IsBounded size p
    → IsBounded later (consume_parsed_bytes p).1
unfolding consume_parsed_bytes
consume_parsed_bytes-IsBounded later b = omega arith
