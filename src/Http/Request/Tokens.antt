-- ===== src/Http/Request/Tokens.antt =====
-- HttpRequest.cpp: the loop of hasHeaderToken against the elements of a list that commas separate.
use aorta.Prelude.{
  none-some, some-inj, ℕ, zero, suc, ◌<◌, ◌≡◌, refl, sym, ap, ap₂, ◌∙◌, Bool, true, false, ◌||◌,
  any, Option, none, some, List, [], ◌∷◌, if◌then◌else◌, ◌==◌, take, drop, length, length-drop,
  find_char, Bool-cases, Option-cases, inl, inr, arith, Bytes,
}
use aorta.Http.Ctype.{equals_ignore_case, trim}
use aorta.Http.Request.{HttpRequest, has_token, token_at, has_header_token_in, has_header_token}

abbrev cons_first : ℕ → List Bytes → List Bytes
cons_first c [] = (c ∷ []) ∷ []
cons_first c (x ∷ xs) = (c ∷ x) ∷ xs

-- The elements between the commas of a value, an empty one behind a last comma left out.
unfoldable pub elements : Bytes → List Bytes
elements [] = []
elements (c ∷ s) = let rest = elements s in if c == b',' then [] ∷ rest else cons_first c rest

abbrev shifted : Option ℕ → Option ℕ
shifted none = none
shifted (some i) = some (suc i)

unshifted : (o : Option ℕ) → shifted o ≡ none → o ≡ none
unshifted none h = refl
unshifted (some i) h = cc

abbrev cut_at : Bytes → ℕ → List Bytes
unfolding elements
cut_at s i = take i s ∷ elements (drop (suc i) s)

elements-comma :
    (s : Bytes) {i : ℕ}
    → (h : find_char b',' s ≡ some i) → elements s ≡ take i s ∷ elements (drop (suc i) s)
unfolding find_char elements
elements-comma [] h = absurd (none-some h)
elements-comma (c ∷ s) {i} h = elim (Bool-cases (c == b',')) [
  | inl e ↦ rw e (ap (cut_at (c ∷ s)) (some-inj (rw e at h)))
  | inr e ↦ elim (Option-cases (find_char b',' s)) [
    | inl f ↦ absurd (none-some (rw (e, f) at h))
    | inr (j, f) ↦ rw e (
        ap (cons_first c) (elements-comma s f)
        ∙ ap (cut_at (c ∷ s)) {x = suc j} (some-inj (rw (e, f) at h)))
  ]
]

elements-last :
    (c : ℕ) (s : Bytes) → find_char b',' (c ∷ s) ≡ none → elements (c ∷ s) ≡ (c ∷ s) ∷ []
unfolding find_char elements
elements-last c [] h = elim (Bool-cases (c == b',')) [
  | inl e ↦ absurd (none-some (sym (rw e at h)))
  | inr e ↦ rw e refl
]
elements-last c (d ∷ s) h = elim (Bool-cases (c == b',')) [
  | inl e ↦ absurd (none-some (sym (rw e at h)))
  | inr e ↦
      rw e (ap (cons_first c) (elements-last d s (unshifted (find_char b',' (d ∷ s)) (rw e at h))))
]

or_nothing : (b : Bool) → b ≡ (b || false)
or_nothing true = refl
or_nothing false = refl

abbrev pub is_token : Bytes → Bytes → Bool
unfolding equals_ignore_case trim
is_token token element = equals_ignore_case (trim element) token

has_token-elements :
    (f : ℕ) (token value : Bytes)
    → length value < f
    → has_token f token value ≡ any (is_token token) (elements value)
unfolding has_token token_at elements
has_token-elements zero token value h = absurd (omega arith)
has_token-elements (suc f) token [] h = refl
has_token-elements (suc f) token (c ∷ s) h =
    let value = c ∷ s in
    let round = λ (o : Option ℕ). token_at o token value (has_token f token) in
    elim (Option-cases (find_char b',' value)) [
      | inl e ↦
          ap round e
          ∙ or_nothing (is_token token value)
          ∙ ap (any (is_token token)) (sym (elements-last c s e))
      | inr (i, e) ↦
          ap round e
          ∙ ap (◌||◌ (is_token token (take i value))) (
              has_token-elements f token (drop (suc i) value)
                (omega (arith, h, length-drop (suc i) value)))
          ∙ ap (any (is_token token)) (sym (elements-comma value e))
    ]

-- The values of the headers with a name.
unfoldable pub values : Bytes → List (Bytes × Bytes) → List Bytes
unfolding equals_ignore_case
values name [] = []
values name ((n, v) ∷ headers) =
    let rest = values name headers in if equals_ignore_case n name then v ∷ rest else rest

has_header_token_in-values :
    (name token : Bytes) (headers : List (Bytes × Bytes))
    → has_header_token_in name token headers
      ≡ any (λ v. any (is_token token) (elements v)) (values name headers)
unfolding has_header_token_in values
has_header_token_in-values name token [] = refl
has_header_token_in-values name token ((n, v) ∷ headers) =
    elim (Bool-cases (equals_ignore_case n name)) [
      | inl e ↦ rw e (
          ap₂ ◌||◌ (has_token-elements (suc (length v)) token v (omega arith))
            (has_header_token_in-values name token headers))
      | inr e ↦ rw e (has_header_token_in-values name token headers)
    ]

-- `hasHeaderToken` finds a token exactly where it is an element, without the blanks around it and
-- whatever the case of the letters, of the comma-separated value of some header with the name, again
-- whatever the case; an empty element behind a last comma does not count.
pub has_header_token-elements :
    (name token : Bytes) (request : HttpRequest)
    → has_header_token name token request
      ≡ any (λ v. any (is_token token) (elements v)) (values name request.headers)
unfolding has_header_token
has_header_token-elements name token request = has_header_token_in-values name token request.headers
