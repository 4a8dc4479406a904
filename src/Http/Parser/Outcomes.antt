-- ===== src/Http/Parser/Outcomes.antt =====
-- Reasoning about rounds of `HttpParser::parse`: a postcondition of an outcome, with a rule for
-- each form of code in the steps, and the invariant rule of the loop.
use aorta.Prelude.{
  ℕ, zero, suc, ◌+◌, ◌≤◌, ◌≡◌, refl, Bool, true, false, Option, none, some, Bytes, find_crlf-lt,
  find_crlf_from, length, length-drop, drop, arith,
}
use aorta.Http.Parser.Defs.{ParseResult, Parser}
use aorta.Http.Parser.Outcome.{Outcome, continue, return, ◌>>=◌, if◌then◌else◌, on_found}
use aorta.Http.Parser.Loop.{step, run}

-- The round goes on in a state with `P`, or returns a result and a state with `Q`.
pub data Leads (P : Parser → Type 0) (Q : ParseResult → Parser → Type 0) : Outcome → Type 0 where
  continues : {p : Parser} → P p → Leads P Q (continue p)
  returns : {r : ParseResult} {p : Parser} → Q r p → Leads P Q (return r p)

pub find_crlf_from-LineEnd :
    (buffer : Bytes) (from : ℕ) {end : ℕ}
    → find_crlf_from buffer from ≡ some end
    → (from ≤ end) × (end + 2 ≤ length buffer)
find_crlf_from-LineEnd buffer from h =
    grind (arith, find_crlf-lt (drop from buffer), length-drop from buffer)

module _ {P : Parser → Type 0} {Q : ParseResult → Parser → Type 0} where
  pub Leads-if :
      (test : Bool) {x y : Outcome}
      → (test ≡ true → Leads P Q x)
      → (test ≡ false → Leads P Q y)
      → Leads P Q (if test then x else y)
  unfolding if◌then◌else◌
  Leads-if true f g = f refl
  Leads-if false f g = g refl

  pub Leads-option :
      (o : Option ℕ) {x : Outcome} {f : ℕ → Outcome}
      → Leads P Q x
      → ((i : ℕ) → o ≡ some i → Leads P Q (f i))
      → Leads P Q (on_found o x f)
  unfolding on_found
  Leads-option none hx hf = hx
  Leads-option (some i) hx hf = hf i refl

  -- The two ends of a search for the end of a line.
  pub Leads-line :
      (buffer : Bytes) (from : ℕ) {x : Outcome} {f : ℕ → Outcome}
      → Leads P Q x
      → ((end : ℕ) → from ≤ end → end + 2 ≤ length buffer → Leads P Q (f end))
      → Leads P Q (on_found (find_crlf_from buffer from) x f)
  Leads-line buffer from hx hf =
      Leads-option (find_crlf_from buffer from) hx
        λ end e. let found = find_crlf_from-LineEnd buffer from e in hf end found.0 found.1

  pub Leads-bind :
      {R : Parser → Type 0} {m : Outcome} {f : Parser → Outcome}
      → Leads R Q m
      → ((p : Parser) → R p → Leads P Q (f p))
      → Leads P Q (m >>= f)
  unfolding ◌>>=◌
  Leads-bind (continues {p} h) hf = hf p h
  Leads-bind (returns h) hf = returns h

  round-Leads :
      (o : Outcome) (k : Parser → Option (ParseResult × Parser)) {r : ParseResult} {q : Parser}
      → Leads P Q o
      → ((p : Parser) → P p → k p ≡ some (r, q) → Q r q)
      → (elim o [ continue p ↦ k p | return r' p ↦ some (r', p) ]) ≡ some (r, q)
      → Q r q
  round-Leads (continue p) k (continues h) later e = later p h e
  round-Leads (return r' p) k (returns h) later e = ground arith

  -- What every round keeps holds when the loop returns.
  pub run-Leads :
      (buffer : Bytes)
      → ((p : Parser) → P p → Leads P Q (step buffer p))
      → (fuel : ℕ) (p : Parser) {r : ParseResult} {q : Parser} → P p
      → run fuel buffer p ≡ some (r, q)
      → Q r q
  unfolding run
  run-Leads buffer keep zero p h e = ground arith
  run-Leads buffer keep (suc fuel) p h e =
      round-Leads (step buffer p) (run fuel buffer) (keep p h)
        (λ p' h' e'. run-Leads buffer keep fuel p' h' e') e

-- Of a part of a round of which nothing is asked.
pub Leads-any : (o : Outcome) → Leads (λ _. Unit {0}) (λ _ _. Unit {0}) o
Leads-any (continue p) = continues tt
Leads-any (return r p) = returns tt

-- The state that a round goes on in has what two lemmas say of it.
pub continues-and :
    {P R : Parser → Type 0} {Q S : ParseResult → Parser → Type 0} {p : Parser}
    → Leads P Q (continue p)
    → Leads R S (continue p)
    → P p × R p
continues-and (continues h) (continues k) = (h, k)
