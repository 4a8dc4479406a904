-- ===== src/Lb/BackendConfig/Valid.antt =====
-- BackendConfig.cpp: the port, the host and the counters of the backends that are listed.
use aorta.Prelude.{
  none-some, some-inj, ℕ, suc, ◌≤◌, ◌≡◌, refl, ap, subst, Bool, true, false, not, ◌||◌, all, Option,
  none, some, List, [], ◌∷◌, ◌==◌, ltb, null, take, drop, find_char, Bool-cases, Option-cases, inl,
  inr, if_intro, both, arith, Bytes,
}
use aorta.Lb.Backend.{Backend}
use aorta.Lb.BackendConfig.Defs.{
  stoi, with_port, split_line, load_line, lines, push_some, load_lines, load,
}

-- A backend with a port, without a colon in its host, healthy and without connections.
pub record IsListed (b : Backend) : Type 0 where
  pub positive : 1 ≤ b.port
  pub small : b.port ≤ 65535
  pub plain : all (λ c. not (c == b':')) b.host ≡ true
  pub new : b.healthy ≡ true
  pub unused : b.connection_count ≡ 0
  pub trusted : b.consecutive_failures ≡ 0

unfoldable pub AllListed : List Backend → Type 0
AllListed [] = Unit {0}
AllListed (b ∷ backends) = IsListed b × AllListed backends

abbrev Listed : Option Backend → Type 0
Listed none = Unit {0}
Listed (some b) = IsListed b

in_range :
    (negative : Bool) (port : ℕ)
    → ((negative || port == 0) || ltb 65535 port) ≡ false
    → (1 ≤ port) × (port ≤ 65535)
in_range true port h = cc
in_range false port h = (ground arith, ground arith)

take-plain :
    (c : ℕ) (s : Bytes) {i : ℕ}
    → (h : find_char c s ≡ some i) → all (λ x. not (x == c)) (take i s) ≡ true
unfolding find_char
take-plain c [] h = cc
take-plain c (x ∷ s) {i} h =
    let before = λ (k : ℕ). all (λ y. not (y == c)) (take k (x ∷ s)) ≡ true in
    elim (Bool-cases (x == c)) [
      | inl e ↦ subst before (some-inj (rw e at h)) refl
      | inr e ↦ elim (Option-cases (find_char c s)) [
        | inl f ↦ absurd (none-some (rw (e, f) at h))
        | inr (j, f) ↦
            subst before {x = suc j} (some-inj (rw (e, f) at h))
              (both (ap not e) (take-plain c s f))
      ]
    ]

with_port-Listed :
    (host : Bytes) (o : Option (Bool × ℕ))
    → all (λ c. not (c == b':')) host ≡ true
    → Listed (with_port host o)
unfolding with_port
with_port-Listed host none h = tt
with_port-Listed host (some (negative, port)) h =
    elim (Bool-cases ((negative || port == 0) || ltb 65535 port)) [
      | inl t ↦ rw t tt
      | inr t ↦
          let (low, high) = in_range negative port t in
          rw t (record {
            positive = low;
            small = high;
            plain = h;
            new = refl;
            unused = refl;
            trusted = refl;
          })
    ]

split_line-Listed :
    (o : Option ℕ) (line : Bytes) → find_char b':' line ≡ o → Listed (split_line o line)
unfolding split_line
split_line-Listed none line h = tt
split_line-Listed (some colon) line h =
    if_intro Listed (null (drop (suc colon) line)) (λ t. tt)
      (λ t.
        with_port-Listed (take colon line) (stoi (drop (suc colon) line)) (take-plain b':' line h))

load_line-Listed : (line : Bytes) → Listed (load_line line)
unfolding load_line
load_line-Listed [] = tt
load_line-Listed (c ∷ s) =
    if_intro Listed (c == b'#') (λ t. tt)
      (λ t. split_line-Listed (find_char b':' (c ∷ s)) (c ∷ s) refl)

push_some-AllListed :
    (o : Option Backend) (backends : List Backend)
    → Listed o
    → AllListed backends
    → AllListed (push_some o backends)
unfolding AllListed
push_some-AllListed none backends h a = a
push_some-AllListed (some b) backends h a = (h, a)

load_lines-AllListed : (text : List Bytes) → AllListed (load_lines text)
unfolding AllListed load_lines
load_lines-AllListed [] = tt
load_lines-AllListed (line ∷ text) =
    push_some-AllListed (load_line line) (load_lines text) (load_line-Listed line)
      (load_lines-AllListed text)

-- Whatever the file contains, each backend that `load` lists has a port between 1 and 65535, a host
-- without a colon, is healthy, and has no connections and no failures.
pub load-AllListed : (text : Option Bytes) → AllListed (load text)
unfolding AllListed load
load-AllListed none = tt
load-AllListed (some text) = load_lines-AllListed (lines text)
