-- ===== src/Http/Parser/Accepted/Flags.antt =====
-- HttpParser.cpp: what the parser's counters and flags say of the headers stored so far, and the
-- rounds over the head of a request.
use aorta.Prelude.{
  ℕ, ◌+◌, ◌≤◌, ◌<◌, ◌≡◌, refl, sym, subst, Bool, true, false, not, ◌&&◌, ◌||◌, ◌⊎◌, inl, inr, List,
  [], ◌∷◌, ◌++◌, Bytes, codes, eq_bytes, find_char, find_char_from, length, all, all-append,
  count_if, count_if-append, arith, ◌==◌, if◌then◌else◌,
}
use aorta.Http.Ctype.{equals_ignore_case}
use aorta.Http.Parser.Defs.{
  State, request_line, headers, body, ParseResult, need_more_data, complete, bad_request,
  body_too_large, Parser, is_valid_method, is_valid_target, is_valid_header_name, read_length,
}
use aorta.Http.Parser.Steps.{
  step_request_line, split_request_line, store_request_line, check_request_line, step_headers,
  header_line, count_header, split_header, store_header, host_header, content_length_header,
  store_length, transfer_encoding_header, push_header, end_of_headers,
}
use aorta.Http.Parser.Outcome.{Outcome}
use aorta.Http.Parser.Outcomes.{
  Leads, continues, returns, Leads-if, Leads-option, Leads-line, Leads-bind,
}
use aorta.Http.Parser.Bounds.{read_length-refused}

abbrev pub Header : Type 0
Header = Bytes × Bytes

-- The header has this name, in any case.
abbrev pub named : Bytes → Header → Bool
named name h = equals_ignore_case h.0 name

abbrev length_is : ℕ → ParseResult ⊎ ℕ → Bool
length_is n (inl r) = false
length_is n (inr m) = m == n

-- The header is no Content-Length, or its value reads as `n`.
abbrev pub announces : ℕ → Header → Bool
announces n h = not (named (codes "Content-Length") h) || length_is n (read_length 0 h.1)

abbrev pub hosts : List Header → ℕ
hosts = count_if (named (codes "Host"))

abbrev pub lengths : List Header → ℕ
lengths = count_if (named (codes "Content-Length"))

abbrev pub codings : List Header → ℕ
codings = count_if (named (codes "Transfer-Encoding"))

-- What the flags say of the headers whose hosts (`hs`), lengths (`ls`) and codings (`cs`) have been
-- looked at: while one header is dealt with, these lists differ by it.
pub record Flags (hs ls cs : List Header) (p : Parser) : Type 0 where
  pub host_counted : p.host_count ≡ hosts hs
  pub no_length : p.has_content_length ≡ false → (lengths ls ≡ 0) × (p.content_length ≡ 0)
  pub some_length : p.has_content_length ≡ true → 0 < lengths ls
  pub length_read : all (announces p.content_length) ls ≡ true
  pub coding_counted : codings cs ≡ (if p.has_transfer_encoding then 1 else 0)
  pub chunked_known : p.chunked_transfer_encoding ≡ p.has_transfer_encoding

abbrev pub is_started : State → Bool
is_started request_line = false
is_started _ = true

abbrev pub is_settled : State → Bool
is_settled request_line = false
is_settled headers = false
is_settled _ = true

abbrev pub is_chunked : State → Bool
is_chunked request_line = false
is_chunked headers = false
is_chunked body = false
is_chunked _ = true

-- The head of the request, as far as the state says that it has been checked.
pub record Head (p : Parser) : Type 0 where
  pub method_valid : is_started p.state ≡ true → is_valid_method p.request.method ≡ true
  pub target_valid : is_started p.state ≡ true → is_valid_target p.request.target ≡ true
  pub version_known :
      is_started p.state ≡ true → eq_bytes p.request.version (codes "HTTP/1.1") ≡ true
  pub names_valid : all (λ h. is_valid_header_name h.0) p.request.headers ≡ true
  pub one_host : is_settled p.state ≡ true → p.host_count ≡ 1
  pub one_framing :
      is_settled p.state ≡ true → (p.has_transfer_encoding && p.has_content_length) ≡ false
  pub plain : p.state ≡ body → p.has_transfer_encoding ≡ false
  pub chunked : is_chunked p.state ≡ true → p.has_transfer_encoding ≡ true

abbrev pub Known : Parser → Type 0
Known p = Flags p.request.headers p.request.headers p.request.headers p × Head p

-- The state in which `complete` is returned, and how much of a plain body has then been read.
pub record Finished (p : Parser) : Type 0 where
  pub known : Known p
  pub settled : is_settled p.state ≡ true
  pub coded : p.has_transfer_encoding ≡ true → is_chunked p.state ≡ true
  pub body_read : p.state ≡ body → p.content_length ≤ length p.request.body

abbrev pub Ends : ParseResult → Parser → Type 0
Ends need_more_data p = Known p
Ends complete p = Finished p
Ends _ p = Unit {0}

abbrev pub Keeps : Outcome → Type 0
Keeps = Leads Known Ends

check_request_line-Keeps :
    (p : Parser) (end : ℕ) → p.state ≡ request_line → Known p → Keeps (check_request_line p end)
unfolding check_request_line
check_request_line-Keeps p end e k =
    Leads-if _ (λ _. returns tt)
      λ m.
        Leads-if _ (λ _. returns tt)
          λ t. Leads-if _ (λ _. returns tt) λ v. continues (ground arith, ground arith)

split_request_line-Keeps :
    (p : Parser) (line : Bytes) (end : ℕ)
    → p.state ≡ request_line
    → Known p
    → Keeps (split_request_line p line end)
unfolding split_request_line store_request_line
split_request_line-Keeps p line end e k = Leads-option (find_char b' ' line) (returns tt) λ first _.
    Leads-option (find_char_from b' ' line (first + 1)) (returns tt) λ second _.
      Leads-option (find_char_from b' ' line (second + 1))
        (Leads-if _ (λ _. returns tt)
          (λ _. check_request_line-Keeps _ end e (ground arith, ground arith)))
        (λ _ _. returns tt)

pub step_request_line-Keeps :
    (buffer : Bytes) (p : Parser)
    → p.state ≡ request_line
    → Known p
    → Keeps (step_request_line buffer p)
unfolding step_request_line
step_request_line-Keeps buffer p e k =
    Leads-line buffer p.cursor (Leads-if _ (λ _. returns tt) (λ _. returns k))
      λ end _ _. Leads-if _ (λ _. returns tt) (λ _. split_request_line-Keeps p _ end e k)

-- With no Content-Length header so far, any length is announced.
announces-none : (n : ℕ) (ls : List Header) → lengths ls ≡ 0 → all (announces n) ls ≡ true
announces-none n [] h = refl
announces-none n (x ∷ ls) h = ground (arith, announces-none n ls)

-- One header is looked at: its name and value are `h`, those stored are `old`.
module _ (old : List Header) (name value : Bytes) where
  abbrev new : List Header
  new = old ++ (name, value) ∷ []

  abbrev Stage : List Header → List Header → List Header → Parser → Type 0
  Stage hs ls cs p = Flags hs ls cs p × Head p × (p.state ≡ headers) × (p.request.headers ≡ old)

  host_header-Stage :
      (p : Parser) → Stage old old old p → Leads (Stage new old old) Ends (host_header name value p)
  unfolding host_header
  host_header-Stage p (f, k, e, o) =
      Leads-if _
        (λ n.
          Leads-if _ (λ _. returns tt)
            λ _.
              Leads-if _ (λ _. returns tt)
                λ _. continues (
                  ground (arith, count_if-append (named (codes "Host")) old ((name, value) ∷ [])),
                  ground arith,
                  e,
                  o,
                ))
        (λ n. continues (
          ground (arith, count_if-append (named (codes "Host")) old ((name, value) ∷ [])),
          k,
          e,
          o,
        ))

  store_length-Stage :
      (p : Parser) (r : ParseResult ⊎ ℕ)
      → read_length 0 value ≡ r
      → named (codes "Content-Length") (name, value) ≡ true
      → ((x : ParseResult) → r ≡ inl x → Ends x p)
      → Stage new old old p
      → Leads (Stage new new old) Ends (store_length p r)
  unfolding store_length
  store_length-Stage p (inl x) h n refused s = returns (refused x refl)
  store_length-Stage p (inr m) h n refused (f, k, e, o) =
      Leads-if _ (λ _. returns tt)
        λ t. continues (
          ground (
            arith,
            count_if-append (named (codes "Content-Length")) old ((name, value) ∷ []),
            all-append (announces m) old ((name, value) ∷ []),
            announces-none m old,
          ),
          ground arith,
          e,
          o,
        )

  refused-Ends :
      (p : Parser) (x : ParseResult) → (x ≡ bad_request) ⊎ (x ≡ body_too_large) → Ends x p
  refused-Ends p x (inl e) = subst (λ r. Ends r p) (sym e) tt
  refused-Ends p x (inr e) = subst (λ r. Ends r p) (sym e) tt

  content_length_header-Stage :
      (p : Parser)
      → Stage new old old p
      → Leads (Stage new new old) Ends (content_length_header name value p)
  unfolding content_length_header
  content_length_header-Stage p (f, k, e, o) =
      Leads-if _
        (λ n.
          Leads-if _ (λ _. returns tt)
            λ _.
              store_length-Stage p (read_length 0 value) refl n
                (λ x r. refused-Ends p x (read_length-refused 0 value x r)) (f, k, e, o))
        (λ n. continues (
          ground (
            arith,
            count_if-append (named (codes "Content-Length")) old ((name, value) ∷ []),
            all-append (announces p.content_length) old ((name, value) ∷ []),
          ),
          k,
          e,
          o,
        ))

  transfer_encoding_header-Stage :
      (p : Parser)
      → Stage new new old p
      → Leads (Stage new new new) Ends (transfer_encoding_header name value p)
  unfolding transfer_encoding_header
  transfer_encoding_header-Stage p (f, k, e, o) =
      let count = count_if-append (named (codes "Transfer-Encoding")) old ((name, value) ∷ []) in
      Leads-if _
        (λ n.
          Leads-if _ (λ _. returns tt)
            λ t.
              Leads-if _ (λ _. returns tt)
                λ _. continues (ground (arith, count), ground arith, e, o))
        (λ n. continues (ground (arith, count), k, e, o))

  push_header-Keeps :
      (end : ℕ) (p : Parser)
      → is_valid_header_name name ≡ true
      → Stage new new new p
      → Keeps (push_header name value end p)
  unfolding push_header
  push_header-Keeps end p n (f, k, e, o) = continues (
    rw o (record {
      host_counted = f.host_counted;
      no_length = f.no_length;
      some_length = f.some_length;
      length_read = f.length_read;
      coding_counted = f.coding_counted;
      chunked_known = f.chunked_known;
    }),
    ground (
      arith,
      all-append (λ (h : Header). is_valid_header_name h.0) p.request.headers ((name, value) ∷ []),
    ),
  )

split_header-Keeps :
    (line : Bytes) (end : ℕ) (p : Parser)
    → p.state ≡ headers
    → Known p
    → Keeps (split_header line end p)
unfolding split_header store_header
split_header-Keeps line end p e (f, k) = Leads-option (find_char b':' line) (returns tt) λ colon _.
    Leads-if _ (λ _. returns tt)
      λ _.
        Leads-if _ (λ _. returns tt)
          λ n. Leads-bind (host_header-Stage _ _ _ p (f, k, e, refl)) λ p₁ s₁.
            Leads-bind (content_length_header-Stage _ _ _ p₁ s₁) λ p₂ s₂.
              Leads-bind (transfer_encoding_header-Stage _ _ _ p₂ s₂)
                λ p₃ s₃. push_header-Keeps _ _ _ end p₃ (ground arith) s₃

end_of_headers-Keeps : (p : Parser) → p.state ≡ headers → Known p → Keeps (end_of_headers p)
unfolding end_of_headers
end_of_headers-Keeps p e (f, k) =
    Leads-if _ (λ _. returns tt)
      λ t.
        Leads-if _ (λ _. returns tt)
          λ u.
            Leads-if _
              (λ v. Leads-if _ (λ _. returns tt) λ w. continues (ground arith, ground arith))
              (λ v. continues (ground arith, ground arith))

pub step_headers-Keeps :
    (buffer : Bytes) (p : Parser) → p.state ≡ headers → Known p → Keeps (step_headers buffer p)
unfolding step_headers header_line count_header
step_headers-Keeps buffer p e (f, k) =
    Leads-if _ (λ _. returns tt)
      λ _.
        Leads-line buffer p.cursor
          (Leads-if _ (λ _. returns tt) λ _. Leads-if _ (λ _. returns tt) λ _. returns (f, k))
          λ end _ _.
            Leads-if _ (λ _. returns tt)
              λ _.
                Leads-if _ (λ _. returns tt)
                  λ _.
                    Leads-if _ (λ _. end_of_headers-Keeps _ e (ground arith, ground arith))
                      λ _.
                        Leads-if _ (λ _. returns tt)
                          λ _. split_header-Keeps _ end _ e (ground arith, ground arith)
