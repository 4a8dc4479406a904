-- ===== src/Http/StaticFile/Safe.antt =====
-- StaticFileHandler.cpp: the segments of a target that isSafePath accepts.
use aorta.Prelude.{
  false-true, ℕ, zero, suc, ◌≤◌, ◌≡◌, refl, sym, ap, ◌∙◌, Bool, true, not, all, Option, none, some,
  List, [], ◌∷◌, if◌then◌else◌, ◌==◌, null, eq_bytes, starts_with, find_text, Bool-cases,
  Option-cases, inl, inr, if_intro, both, both_left, both_right, arith, Bytes, codes,
}
use aorta.Http.StaticFile.Defs.{is_safe_path}

abbrev cons_first : ℕ → List Bytes → List Bytes
cons_first c [] = (c ∷ []) ∷ []
cons_first c (x ∷ xs) = (c ∷ x) ∷ xs

-- The segments of a path between its slashes.
unfoldable pub segments : Bytes → List Bytes
segments [] = [] ∷ []
segments (c ∷ s) = let rest = segments s in if c == b'/' then [] ∷ rest else cons_first c rest

-- A walk along the segments from a depth: `none` where ".." would leave the directory.
unfoldable pub walk : ℕ → List Bytes → Option ℕ
unfolding eq_bytes
walk depth [] = some depth
walk zero (x ∷ xs) =
    let into = walk 1 xs in
    let stays = walk 0 xs in
    if eq_bytes x (codes "..")
    then none
    else if null x
    then stays
    else if eq_bytes x (codes ".")
    then stays
    else into
walk (suc depth) (x ∷ xs) =
    let up = walk depth xs in
    let into = walk (suc (suc depth)) xs in
    let stays = walk (suc depth) xs in
    if eq_bytes x (codes "..")
    then up
    else if null x
    then stays
    else if eq_bytes x (codes ".")
    then stays
    else into

abbrev is_down : Bytes → Bool
is_down x = not (eq_bytes x (codes ".."))

-- The first segment stands at the start of the path.
abbrev first_of : List Bytes → Bytes
first_of [] = []
first_of (x ∷ xs) = x

first_of-cons_first : (c : ℕ) (xs : List Bytes) → first_of (cons_first c xs) ≡ c ∷ first_of xs
first_of-cons_first c [] = refl
first_of-cons_first c (x ∷ xs) = refl

starts_at_first : (s t : Bytes) → eq_bytes (first_of (segments s)) t ≡ true → starts_with s t ≡ true
unfolding segments eq_bytes starts_with
starts_at_first [] [] h = refl
starts_at_first [] (d ∷ t) h = cc
starts_at_first (c ∷ s) [] h = refl
starts_at_first (c ∷ s) (d ∷ t) h = elim (Bool-cases (c == b'/')) [
  | inl e ↦ absurd (false-true (rw e at h))
  | inr e ↦
      let same : eq_bytes (c ∷ first_of (segments s)) (d ∷ t) ≡ true =
        ap (λ x. eq_bytes x (d ∷ t)) (sym (first_of-cons_first c (segments s))) ∙ (rw e at h) in
      both (both_left (c == d) _ same) (starts_at_first s t (both_right (c == d) _ same))
]

some-none : {n : ℕ} → some n ≡ none → ⊥
some-none e = cc

unshifted : (o : Option ℕ) → (elim o [ none ↦ none | some i ↦ some (suc i) ]) ≡ none → o ≡ none
unshifted none h = refl
unshifted (some i) h = cc

dotted :
    (c : ℕ) (s : Bytes)
    → eq_bytes (c ∷ first_of (segments s)) (codes "..") ≡ true
    → starts_with (c ∷ s) (codes "..") ≡ true
unfolding eq_bytes starts_with
dotted c s h =
    both (both_left (c == b'.') _ h) (starts_at_first s (codes ".") (both_right (c == b'.') _ h))

down-cons_first :
    (c : ℕ) (xs : List Bytes)
    → is_down (c ∷ first_of xs) ≡ true
    → all is_down xs ≡ true
    → all is_down (cons_first c xs) ≡ true
down-cons_first c [] h k = both h refl
down-cons_first c (x ∷ xs) h k = both h (both_right (is_down x) (all is_down xs) k)

-- A text without ".." has no segment "..".
segments-down : (s : Bytes) → find_text (codes "..") s ≡ none → all is_down (segments s) ≡ true
unfolding segments find_text eq_bytes
segments-down [] h = refl
segments-down (c ∷ s) h = elim (Bool-cases (starts_with (c ∷ s) (codes ".."))) [
  | inl t ↦ absurd (some-none (rw t at h))
  | inr t ↦
      let rest = segments-down s (unshifted (find_text (codes "..") s) (rw t at h)) in
      if_intro (λ (xs : List Bytes). all is_down xs ≡ true) (c == b'/') (λ u. rest)
        λ u.
          down-cons_first c (segments s)
            (elim (Bool-cases (eq_bytes (c ∷ first_of (segments s)) (codes ".."))) [
              | inl v ↦ absurd (false-true (sym t ∙ dotted c s v))
              | inr v ↦ ap not v
            ])
            rest
]

undotted : (target : Bytes) → is_safe_path target ≡ true → find_text (codes "..") target ≡ none
unfolding is_safe_path
undotted target h = elim (Option-cases (find_text (codes "..") target)) [
  | inl e ↦ e
  | inr (i, e) ↦ elim (Bool-cases (null target)) [
    | inl t ↦ absurd (false-true (rw t at h))
    | inr t ↦ absurd (false-true (rw (t, e) at h))
  ]
]

-- A walk that ends, no higher than it began.
abbrev pub StaysBelow : ℕ → Option ℕ → Type 0
StaysBelow depth o = (n : ℕ) × (o ≡ some n) × (depth ≤ n)

deeper : (depth : ℕ) (o : Option ℕ) → StaysBelow (suc depth) o → StaysBelow depth o
deeper depth o (n, e, h) = (n, e, omega (arith, h))

walk-StaysBelow :
    (depth : ℕ) (xs : List Bytes) → all is_down xs ≡ true → StaysBelow depth (walk depth xs)
unfolding walk
walk-StaysBelow depth [] h = (depth, refl, omega arith)
walk-StaysBelow zero (x ∷ xs) h =
    let rest = both_right (is_down x) (all is_down xs) h in
    if_intro (StaysBelow 0) (eq_bytes x (codes ".."))
      (λ t. absurd (false-true (ap not (sym t) ∙ both_left (is_down x) _ h)))
      λ t.
        if_intro (StaysBelow 0) (null x) (λ u. walk-StaysBelow 0 xs rest)
          λ u.
            if_intro (StaysBelow 0) (eq_bytes x (codes ".")) (λ v. walk-StaysBelow 0 xs rest)
              (λ v. deeper 0 (walk 1 xs) (walk-StaysBelow 1 xs rest))
walk-StaysBelow (suc depth) (x ∷ xs) h =
    let rest = both_right (is_down x) (all is_down xs) h in
    let below = StaysBelow (suc depth) in
    if_intro below (eq_bytes x (codes ".."))
      (λ t. absurd (false-true (ap not (sym t) ∙ both_left (is_down x) _ h)))
      λ t.
        if_intro below (null x) (λ u. walk-StaysBelow (suc depth) xs rest)
          λ u.
            if_intro below (eq_bytes x (codes ".")) (λ v. walk-StaysBelow (suc depth) xs rest)
              (λ v.
                deeper (suc depth) (walk (suc (suc depth)) xs)
                  (walk-StaysBelow (suc (suc depth)) xs rest))

-- A target that `isSafePath` accepts, resolved along its segments from any depth below a root, never
-- climbs above the root on its way, and ends no higher than it began.
pub is_safe_path-StaysBelow :
    (depth : ℕ) (target : Bytes)
    → is_safe_path target ≡ true
    → StaysBelow depth (walk depth (segments target))
unfolding is_safe_path
is_safe_path-StaysBelow depth target h =
    walk-StaysBelow depth (segments target) (segments-down target (undotted target h))
