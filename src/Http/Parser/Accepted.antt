-- ===== src/Http/Parser/Accepted.antt =====
-- HttpParser.cpp: what holds of every request that `parse` accepts.
mod Flags
use aorta.Prelude.{
  ℕ, ◌+◌, ◌-◌, ◌≤◌, ◌≡◌, refl, sym, ◌∙◌, Bool, true, false, not, ◌&&◌, ◌||◌, ◌⊎◌, inl, inr, Option,
  none, some, List, [], Bytes, codes, eq_bytes, find_char, substr, length, all, arith, ◌==◌, ◌*◌,
}
use aorta.Http.Request.{HttpRequest}
use aorta.Http.Parser.Defs.{
  State, request_line, headers, body, chunk_size, chunk_data, chunk_data_crlf, chunk_trailers,
  ParseResult, need_more_data, complete, Parser, initial, is_valid_method, is_valid_target,
  is_valid_header_name, is_valid_chunk_size, consume_parsed_bytes,
}
use aorta.Http.Parser.Loop.{
  step_in, step, step_body, step_chunk_size, step_chunk_data, step_chunk_data_crlf,
  step_chunk_trailers, split_trailer, run, parse,
}
use aorta.Http.Parser.Outcomes.{
  Leads, continues, returns, Leads-if, Leads-option, Leads-line, run-Leads,
}
use aorta.Http.Parser.Bounds.{IsBounded, parse-Ends}
use Flags.{
  Keeps, Finished, is_chunked, is_started, is_settled, Ends, step_request_line-Keeps,
  step_headers-Keeps, announces, hosts, lengths, codings,
}
pub use Flags.{Known, Header}

step_body-Keeps :
    (buffer : Bytes) (p : Parser) → p.state ≡ body → Known p → Keeps (step_body buffer p)
unfolding step_body
step_body-Keeps buffer p e (f, k) =
    Leads-if _ (λ t. returns (ground arith))
      λ _.
        Leads-if _ (λ _. returns tt)
          λ _.
            Leads-if _ (λ _. returns tt)
              λ _.
                Leads-if _ (λ _. returns (f, k))
                  λ _.
                    Leads-if _ (λ _. returns (ground arith, ground arith))
                      λ u. returns (ground arith)

step_chunk-Keeps :
    (s : State) (buffer : Bytes) (p : Parser)
    → p.state ≡ s
    → is_chunked s ≡ true
    → Known p
    → Keeps (step_in s buffer p)
unfolding step_in step_chunk_size step_chunk_data step_chunk_data_crlf step_chunk_trailers
    split_trailer
step_chunk-Keeps request_line buffer p e c k = cc
step_chunk-Keeps headers buffer p e c k = cc
step_chunk-Keeps body buffer p e c k = cc
step_chunk-Keeps chunk_size buffer p e c (f, k) =
    Leads-line buffer p.cursor (Leads-if _ (λ _. returns tt) (λ _. returns (f, k))) λ end _ _.
      Leads-if _ (λ _. returns tt)
        λ _.
          Leads-option (is_valid_chunk_size (substr buffer p.cursor (end - p.cursor))) (returns tt)
            λ size _. continues (ground arith, ground arith)
step_chunk-Keeps chunk_data buffer p e c (f, k) =
    Leads-if _ (λ _. returns tt)
      λ _.
        Leads-if _ (λ _. returns (f, k))
          λ _.
            Leads-if _ (λ _. returns tt)
              λ _.
                Leads-if _ (λ _. returns (ground arith, ground arith))
                  λ _. continues (ground arith, ground arith)
step_chunk-Keeps chunk_data_crlf buffer p e c (f, k) =
    Leads-if _ (λ _. returns (f, k))
      λ _. Leads-if _ (λ _. returns tt) λ _. continues (ground arith, ground arith)
step_chunk-Keeps chunk_trailers buffer p e c (f, k) =
    Leads-line buffer p.cursor
      (Leads-if _ (λ _. returns tt) λ _. Leads-if _ (λ _. returns tt) (λ _. returns (f, k)))
      λ end _ _.
        Leads-if _ (λ _. returns tt)
          λ _.
            Leads-if _ (λ _. returns (ground arith))
              λ _.
                Leads-if _ (λ _. returns tt)
                  λ _. Leads-option (find_char b':' _) (returns tt) λ colon _.
                    Leads-if _ (λ _. returns tt)
                      λ _. Leads-if _ (λ _. returns tt) λ _. continues (ground arith, ground arith)

step-Keeps :
    (s : State) (buffer : Bytes) (p : Parser) → p.state ≡ s → Known p → Keeps (step_in s buffer p)
unfolding step_in
step-Keeps request_line buffer p e k = step_request_line-Keeps buffer p e k
step-Keeps headers buffer p e k = step_headers-Keeps buffer p e k
step-Keeps body buffer p e k = step_body-Keeps buffer p e k
step-Keeps chunk_size buffer p e k = step_chunk-Keeps chunk_size buffer p e refl k
step-Keeps chunk_data buffer p e k = step_chunk-Keeps chunk_data buffer p e refl k
step-Keeps chunk_data_crlf buffer p e k = step_chunk-Keeps chunk_data_crlf buffer p e refl k
step-Keeps chunk_trailers buffer p e k = step_chunk-Keeps chunk_trailers buffer p e refl k

-- A request as RFC 9112 wants it, said of the request alone: the parts of its first line and the
-- header names are valid, it has one Host header, and its framing is unambiguous. Either there is
-- one Transfer-Encoding header and no Content-Length header, or there is no Transfer-Encoding
-- header, every Content-Length header announces the length of the body, and without such a
-- header the body is empty.
pub record IsAccepted (r : HttpRequest) : Type 0 where
  pub method_valid : is_valid_method r.method ≡ true
  pub target_valid : is_valid_target r.target ≡ true
  pub version_known : eq_bytes r.version (codes "HTTP/1.1") ≡ true
  pub names_valid : all (λ h. is_valid_header_name h.0) r.headers ≡ true
  pub one_host : hosts r.headers ≡ 1
  pub framed :
      ((codings r.headers ≡ 1) × (lengths r.headers ≡ 0))
      ⊎ ((codings r.headers ≡ 0)
          × (all (announces (length r.body)) r.headers ≡ true)
          × (lengths r.headers ≡ 0 → length r.body ≡ 0))

settled-cases : (s : State) → is_settled s ≡ true → (s ≡ body) ⊎ (is_chunked s ≡ true)
settled-cases request_line h = cc
settled-cases headers h = cc
settled-cases body h = inl refl
settled-cases _ h = inr refl

started-settled : (s : State) → is_settled s ≡ true → is_started s ≡ true
started-settled request_line h = cc
started-settled _ h = refl

-- How a plain body, and a chunked one, are framed.
plain_framing :
    {size : ℕ} (p : Parser)
    → IsBounded size p
    → Finished p
    → p.state ≡ body
    → (codings p.request.headers ≡ 0)
      × (all (announces (length p.request.body)) p.request.headers ≡ true)
      × (lengths p.request.headers ≡ 0 → length p.request.body ≡ 0)
plain_framing p b f e =
    let flags = f.known.0 in
    let whole : length p.request.body ≡ p.content_length =
      omega (arith, b.body_within e, f.body_read e) in
    let plain : p.has_transfer_encoding ≡ false = f.known.1.plain e in
    (
      ground (arith, flags.coding_counted),
      rw whole flags.length_read,
      λ n. ground (arith, flags.some_length, flags.no_length, n),
    )

chunked_framing :
    (p : Parser)
    → Finished p
    → is_chunked p.state ≡ true
    → (codings p.request.headers ≡ 1) × (lengths p.request.headers ≡ 0)
chunked_framing p f c =
    let flags = f.known.0 in
    let coded = f.known.1.chunked c in
    let one = f.known.1.one_framing f.settled in
    (ground (arith, flags.coding_counted, coded), ground (arith, one, coded, flags.no_length))

Finished-IsAccepted : {size : ℕ} (p : Parser) → IsBounded size p → Finished p → IsAccepted p.request
Finished-IsAccepted p b f =
    let started : is_started p.state ≡ true = started-settled p.state f.settled in
    let flags = f.known.0 in
    let head = f.known.1 in
    record {
      method_valid = head.method_valid started;
      target_valid = head.target_valid started;
      version_known = head.version_known started;
      names_valid = head.names_valid;
      one_host = sym flags.host_counted ∙ head.one_host f.settled;
      framed = elim (settled-cases p.state f.settled) [
        | inl e ↦ inr (plain_framing p b f e)
        | inr c ↦ inl (chunked_framing p f c)
      ];
    }

parse-Known-Ends :
    (buffer : Bytes) (p : Parser) {r : ParseResult} {q : Parser}
    → Known p
    → parse buffer p ≡ some (r, q)
    → Ends r q
unfolding parse
parse-Known-Ends buffer p k =
    run-Leads buffer (λ p' k'. step-Keeps p'.state buffer p' refl k') (2 * length buffer + 2) p k

pub parse-Known :
    (buffer : Bytes) (p : Parser) {q : Parser}
    → Known p
    → parse buffer p ≡ some (need_more_data, q)
    → Known q
parse-Known buffer p k e = parse-Known-Ends buffer p k e

pub parse_complete-IsAccepted :
    (buffer : Bytes) (p : Parser) {q : Parser}
    → IsBounded (length buffer) p
    → Known p
    → parse buffer p ≡ some (complete, q)
    → IsAccepted q.request
parse_complete-IsAccepted buffer p {q} b k e =
    Finished-IsAccepted q (parse-Ends buffer p b e) (parse-Known-Ends buffer p k e)

pub initial-Known : Known initial
initial-Known = (ground arith, ground arith)

pub consume_parsed_bytes-Known : {p : Parser} → Known p → Known (consume_parsed_bytes p).1
unfolding consume_parsed_bytes
consume_parsed_bytes-Known k = (ground arith, ground arith)
