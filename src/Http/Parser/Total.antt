-- ===== src/Http/Parser/Total.antt =====
-- HttpParser.cpp: the loop of `parse` against the fuel of the model.
use aorta.Prelude.{
  ℕ, zero, suc, ◌+◌, ◌-◌, ◌*◌, ◌≤◌, ◌<◌, ◌≡◌, refl, Option, some, Bytes, length, arith, find_char,
  find_char_from, substr,
}
use aorta.Http.Parser.Defs.{
  State, request_line, headers, body, chunk_size, chunk_data, chunk_data_crlf, chunk_trailers,
  ParseResult, Parser, is_valid_chunk_size, after_chunk_size,
}
use aorta.Http.Parser.Steps.{
  step_request_line, split_request_line, store_request_line, check_request_line, step_headers,
  header_line, count_header, split_header, store_header, push_header, end_of_headers,
}
use aorta.Http.Parser.Loop.{
  step_in, step, step_body, step_chunk_size, step_chunk_data, step_chunk_data_crlf,
  step_chunk_trailers, split_trailer, run, parse,
}
use aorta.Http.Parser.Outcome.{Outcome, continue, return}
use aorta.Http.Parser.Outcomes.{
  Leads, continues, returns, Leads-if, Leads-option, Leads-line, Leads-bind, Leads-any,
  continues-and,
}
use aorta.Http.Parser.Bounds.{IsBounded, Ends, step-Keeps}

abbrev stays : State → ℕ
stays chunk_data = 1
stays _ = 0

stays-le : (s : State) → stays s ≤ 1
stays-le chunk_data = omega arith
stays-le _ = omega arith

-- A bound on the rounds to come: two for each byte left, and one for the round that may leave the
-- cursor at its place.
abbrev rounds : ℕ → Parser → ℕ
rounds size p = 2 * (size - p.cursor) + stays p.state

-- The round ends the loop, or leaves fewer than `n` rounds.
abbrev Falls : ℕ → ℕ → Outcome → Type 0
Falls size n = Leads (λ q. rounds size q < n) (λ _ _. Unit {0})

-- A line of the request has been read, from `from` up to its end.
module _ {size from : ℕ} {n : ℕ} (room : 2 * (size - from) ≤ n) (end : ℕ) (le : from ≤ end)
    (h : end + 2 ≤ size) where
  abbrev Passes : Outcome → Type 0
  Passes = Falls size n

  check_request_line-Passes : (p : Parser) → Passes (check_request_line p end)
  unfolding check_request_line
  check_request_line-Passes p =
      Leads-if _ (λ _. returns tt)
        λ _.
          Leads-if _ (λ _. returns tt)
            λ _. Leads-if _ (λ _. returns tt) λ _. continues (omega arith)

  split_request_line-Passes : (p : Parser) (line : Bytes) → Passes (split_request_line p line end)
  unfolding split_request_line store_request_line
  split_request_line-Passes p line = Leads-option (find_char b' ' line) (returns tt) λ first _.
      Leads-option (find_char_from b' ' line (first + 1)) (returns tt) λ second _.
        Leads-option (find_char_from b' ' line (second + 1))
          (Leads-if _ (λ _. returns tt) (λ _. check_request_line-Passes _)) (λ _ _. returns tt)

  push_header-Passes : (name value : Bytes) (p : Parser) → Passes (push_header name value end p)
  unfolding push_header
  push_header-Passes name value p = continues (omega (arith, stays-le p.state))

  split_header-Passes : (line : Bytes) (p : Parser) → Passes (split_header line end p)
  unfolding split_header store_header
  split_header-Passes line p = Leads-option (find_char b':' line) (returns tt) λ colon _.
      Leads-if _ (λ _. returns tt)
        λ _.
          Leads-if _ (λ _. returns tt)
            λ _. Leads-bind (Leads-any _) λ _ _.
              Leads-bind (Leads-any _)
                λ _ _. Leads-bind (Leads-any _) λ p₃ _. push_header-Passes _ _ p₃

  header_line-Passes : (buffer : Bytes) (p : Parser) → Passes (header_line buffer end p)
  unfolding header_line count_header end_of_headers
  header_line-Passes buffer p =
      Leads-if _ (λ _. returns tt)
        λ _.
          Leads-if _ (λ _. returns tt)
            λ _.
              Leads-if _
                (λ _.
                  Leads-if _ (λ _. returns tt)
                    λ _.
                      Leads-if _ (λ _. returns tt)
                        λ _.
                          Leads-if _
                            (λ _. Leads-if _ (λ _. returns tt) λ _. continues (omega arith))
                            (λ _. continues (omega arith)))
                λ _. Leads-if _ (λ _. returns tt) λ _. split_header-Passes _ _

  split_trailer-Passes : (line : Bytes) (p : Parser) → Passes (split_trailer line end p)
  unfolding split_trailer
  split_trailer-Passes line p = Leads-option (find_char b':' line) (returns tt) λ colon _.
      Leads-if _ (λ _. returns tt)
        λ _. Leads-if _ (λ _. returns tt) λ _. continues (omega (arith, stays-le p.state))

-- Every round but the last brings the end of the loop nearer.
step_in-Falls :
    (s : State) (buffer : Bytes) (p : Parser)
    → p.state ≡ s
    → IsBounded (length buffer) p
    → Falls (length buffer) (2 * (length buffer - p.cursor) + stays s) (step_in s buffer p)
unfolding step_in step_request_line step_headers step_body step_chunk_size step_chunk_data
    step_chunk_data_crlf step_chunk_trailers
step_in-Falls request_line buffer p e b =
    Leads-line buffer p.cursor (Leads-if _ (λ _. returns tt) (λ _. returns tt)) λ end l h.
      Leads-if _ (λ _. returns tt) (λ _. split_request_line-Passes (omega arith) end l h p _)
step_in-Falls headers buffer p e b =
    Leads-if _ (λ _. returns tt)
      λ _.
        Leads-line buffer p.cursor
          (Leads-if _ (λ _. returns tt) λ _. Leads-if _ (λ _. returns tt) (λ _. returns tt))
          λ end l h. header_line-Passes (omega arith) end l h buffer p
step_in-Falls body buffer p e b =
    Leads-if _ (λ _. returns tt)
      λ _.
        Leads-if _ (λ _. returns tt)
          λ _.
            Leads-if _ (λ _. returns tt)
              λ _. Leads-if _ (λ _. returns tt) λ _. Leads-if _ (λ _. returns tt) (λ _. returns tt)
step_in-Falls chunk_size buffer p e b =
    Leads-line buffer p.cursor (Leads-if _ (λ _. returns tt) (λ _. returns tt)) λ end l h.
      Leads-if _ (λ _. returns tt)
        λ _.
          Leads-option (is_valid_chunk_size (substr buffer p.cursor (end - p.cursor))) (returns tt)
            λ size _. continues (omega (arith, stays-le (after_chunk_size size)))
step_in-Falls chunk_data buffer p e b =
    Leads-if _ (λ _. returns tt)
      λ _.
        Leads-if _ (λ _. returns tt)
          λ _.
            Leads-if _ (λ _. returns tt)
              λ _. Leads-if _ (λ _. returns tt) λ _. continues (omega arith)
step_in-Falls chunk_data_crlf buffer p e b =
    Leads-if _ (λ _. returns tt)
      λ t. Leads-if _ (λ _. returns tt) λ _. continues (ground (arith, b.cursor_le))
step_in-Falls chunk_trailers buffer p e b =
    Leads-line buffer p.cursor
      (Leads-if _ (λ _. returns tt) λ _. Leads-if _ (λ _. returns tt) (λ _. returns tt))
      λ end l h.
        Leads-if _ (λ _. returns tt)
          λ _.
            Leads-if _ (λ _. returns tt)
              λ _. Leads-if _ (λ _. returns tt) λ _. split_trailer-Passes (omega arith) end l h _ _

round-total :
    (buffer : Bytes) (n : ℕ) (o : Outcome) (k : Parser → Option (ParseResult × Parser))
    → Leads (IsBounded (length buffer)) (Ends (length buffer)) o
    → Falls (length buffer) n o
    → ((q : Parser)
        → IsBounded (length buffer) q
        → rounds (length buffer) q < n
        → (r : ParseResult) × (q' : Parser) × (k q ≡ some (r, q')))
    → (r : ParseResult) × (q : Parser) × ((elim o [ continue q ↦ k q | return r' q ↦ some (r', q) ])
        ≡ some (r, q))
round-total buffer n (continue q) k h f later =
    let both = continues-and h f in later q both.0 both.1
round-total buffer n (return r q) k h f later = (r, q, refl)

run-total :
    (fuel : ℕ) (buffer : Bytes) (p : Parser)
    → IsBounded (length buffer) p
    → rounds (length buffer) p < fuel
    → (r : ParseResult) × (q : Parser) × (run fuel buffer p ≡ some (r, q))
unfolding run
run-total zero buffer p b h = absurd (omega arith)
run-total (suc fuel) buffer p b h =
    round-total buffer (rounds (length buffer) p) (step buffer p) (run fuel buffer)
      (step-Keeps buffer p b) (step_in-Falls p.state buffer p refl b)
      (λ q b' l. run-total fuel buffer q b' (omega arith))

-- From a parser within the limits, `parse` returns: the fuel of the model is enough for any buffer.
pub parse-total :
    (buffer : Bytes) (p : Parser)
    → IsBounded (length buffer) p
    → (r : ParseResult) × (q : Parser) × (parse buffer p ≡ some (r, q))
unfolding parse
parse-total buffer p b =
    run-total (2 * length buffer + 2) buffer p b (omega (arith, stays-le p.state))
