-- ===== src/Http/Names.antt =====
-- `equalsIgnoreCase` compares texts in lower case; what a header's name finds and a `setHeader` changes.
use aorta.Prelude.{
  ℕ, ◌+◌, ◌≡◌, refl, sym, ap, ◌∙◌, Bool, true, false, ◌&&◌, some, List, [], ◌∷◌, map, if◌then◌else◌,
  max, eq_bytes, eq_bytes_sound, eq_bytes_self, Bool-cases, inl, inr, arith, Bytes, count_if,
}
use aorta.Http.Ctype.{to_lower, equals_ignore_case}
use aorta.Http.Request.{find_header}
use aorta.Http.Response.Defs.{put_header}

equals_ignore_case-map :
    (s t : Bytes) → equals_ignore_case s t ≡ eq_bytes (map to_lower s) (map to_lower t)
unfolding equals_ignore_case eq_bytes
equals_ignore_case-map [] [] = refl
equals_ignore_case-map [] (y ∷ t) = refl
equals_ignore_case-map (x ∷ s) [] = refl
equals_ignore_case-map (x ∷ s) (y ∷ t) = ap (◌&&◌ _) (equals_ignore_case-map s t)

-- Names that are the same are alike to every other name.
pub equals_ignore_case-alike :
    (h n m : Bytes)
    → equals_ignore_case h n ≡ true
    → equals_ignore_case h m ≡ equals_ignore_case n m
equals_ignore_case-alike h n m e =
    let same = eq_bytes_sound _ _ (sym (equals_ignore_case-map h n) ∙ e) in
    equals_ignore_case-map h m
    ∙ ap (λ l. eq_bytes l (map to_lower m)) same
    ∙ sym (equals_ignore_case-map n m)

pub equals_ignore_case_self : (n : Bytes) → equals_ignore_case n n ≡ true
equals_ignore_case_self n = equals_ignore_case-map n n ∙ eq_bytes_self (map to_lower n)

pub equals_ignore_case-sym :
    (n m : Bytes) → equals_ignore_case n m ≡ true → equals_ignore_case m n ≡ true
equals_ignore_case-sym n m e = sym (equals_ignore_case-alike n m n e) ∙ equals_ignore_case_self n

equals_ignore_case-unlike :
    (h n m : Bytes)
    → equals_ignore_case h n ≡ false
    → equals_ignore_case h m ≡ true
    → equals_ignore_case n m ≡ true
    → ⊥
equals_ignore_case-unlike h n m e f g =
    let t = equals_ignore_case-alike h m n f ∙ equals_ignore_case-sym n m g in cc

swap_tests {ℓ} :
    {A : Type ℓ} (x y z : A) (a b : Bool)
    → (a ≡ true → b ≡ true → ⊥)
    → (if a then x else if b then y else z) ≡ (if b then y else if a then x else z)
swap_tests x y z true true h = absurd (h refl refl)
swap_tests x y z true false h = refl
swap_tests x y z false true h = refl
swap_tests x y z false false h = refl

merge_tests :
    (a b : Bool) (c d : ℕ)
    → (a ≡ true → b ≡ true → ⊥)
    → c ≡ (if b then max 1 d else d)
    → (elim a [ true ↦ 1 | false ↦ 0 ]) + c ≡ (
        if b
        then max 1 ((elim a [ true ↦ 1 | false ↦ 0 ]) + d)
        else (elim a [ true ↦ 1 | false ↦ 0 ]) + d)
merge_tests true true c d h e = absurd (h refl refl)
merge_tests true false c d h e = omega (arith, e)
merge_tests false true c d h e = omega (arith, e)
merge_tests false false c d h e = omega (arith, e)

-- After a `setHeader` the name finds the new value, and every other name what it found before.
pub find_header-put_header :
    (m n v : Bytes) (headers : List (Bytes × Bytes))
    → find_header m (put_header n v headers)
      ≡ (if equals_ignore_case n m then some v else find_header m headers)
unfolding find_header put_header
find_header-put_header m n v [] = refl
find_header-put_header m n v ((h, w) ∷ headers) = elim (Bool-cases (equals_ignore_case h n)) [
  | inl e ↦ rw e (
      rw (equals_ignore_case-alike h n m e)
        (elim (equals_ignore_case n m)
          as (λ b.
            (if b then some v else find_header m headers)
            ≡ (if b then some v else if b then some w else find_header m headers)) [
              | true ↦ refl
              | false ↦ refl
            ]))
  | inr e ↦
      rw (e, find_header-put_header m n v headers)
        (swap_tests _ _ _ (equals_ignore_case h m) (equals_ignore_case n m)
          (equals_ignore_case-unlike h n m e))
]

-- How many headers have a name.
abbrev pub count_header : Bytes → List (Bytes × Bytes) → ℕ
count_header m headers = count_if (λ (h : Bytes × Bytes). equals_ignore_case h.0 m) headers

pub count_header-put_header :
    (m n v : Bytes) (headers : List (Bytes × Bytes))
    → count_header m (put_header n v headers)
      ≡ (if equals_ignore_case n m then max 1 (count_header m headers) else count_header m headers)
unfolding put_header
count_header-put_header m n v [] =
    elim (equals_ignore_case n m)
      as (λ b. (elim b [ true ↦ 1 | false ↦ 0 ]) + 0 ≡ (if b then max 1 0 else 0)) [
        | true ↦ refl
        | false ↦ refl
      ]
count_header-put_header m n v ((h, w) ∷ headers) = elim (Bool-cases (equals_ignore_case h n)) [
  | inl e ↦ rw (e, equals_ignore_case-alike h n m e) (ground arith)
  | inr e ↦ rw (e) (
      merge_tests (equals_ignore_case h m) (equals_ignore_case n m) _ _
        (equals_ignore_case-unlike h n m e) (count_header-put_header m n v headers))
]
