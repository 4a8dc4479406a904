-- ===== src/Http/Handler/TaskId.antt =====
-- HttpHandler.cpp: parseTaskId.
use aorta.Prelude.{
  none-some, true-false, ℕ, ◌+◌, ◌-◌, ◌*◌, ◌/◌, ◌≤◌, ◌≡◌, ◌↔◌, refl, sym, ap, ◌∙◌, true, false, all,
  Option, none, some, [], ◌∷◌, ◌++◌, if◌then◌else◌, null, ltb, drop, starts_with, starts_with_sound,
  to_string-null, read_decimal, read_decimal-to_string, is_decimal, to_string, to_string-decimal,
  Bool-cases, inl, inr, both, both_left, both_right, if_intro, arith, Bytes, codes,
}
use aorta.Http.Ctype.{is_digit}

abbrev pub max_size : ℕ
max_size = 0xffff_ffff_ffff_ffff

abbrev pub tasks_path : Bytes
tasks_path = codes "/tasks/"

-- The loop: `none` for a character that is no digit, and where the next digit would overflow.
unfoldable pub read_task_id : ℕ → Bytes → Option ℕ
unfolding is_digit
read_task_id id [] = some id
read_task_id id (character ∷ rest) =
    let digit = character - b'0' in
    let read = read_task_id (id * 10 + digit) rest in
    if is_digit character then (if ltb ((max_size - digit) / 10) id then none else read) else none

unfoldable pub parse_task_id : Bytes → Option ℕ
unfolding starts_with read_task_id
parse_task_id target =
    let id_string = drop 7 target in
    if starts_with target tasks_path
    then (if null id_string then none else read_task_id 0 id_string)
    else none

read_decimal_mono : (acc : ℕ) (s : Bytes) → acc ≤ read_decimal acc s
unfolding read_decimal
read_decimal_mono acc [] = omega arith
read_decimal_mono acc (c ∷ s) = omega (arith, read_decimal_mono (acc * 10 + (c - b'0')) s)

overflows :
    (id c : ℕ)
    → is_decimal c ≡ true
    → id * 10 + (c - b'0') ≤ max_size
    → ltb ((max_size - (c - b'0')) / 10) id ≡ true
    → ⊥
overflows id c d h u = ground arith

fits :
    (id c : ℕ)
    → is_digit c ≡ true
    → ltb ((max_size - (c - b'0')) / 10) id ≡ false
    → id * 10 + (c - b'0') ≤ max_size
unfolding is_digit
fits id c d u = ground arith

-- The loop yields the number that the digits stand for, where that is at most 2^64 - 1.
read_task_id-fits :
    (id : ℕ) (s : Bytes)
    → all is_decimal s ≡ true
    → read_decimal id s ≤ max_size
    → read_task_id id s ≡ some (read_decimal id s)
unfolding read_task_id read_decimal is_digit
read_task_id-fits id [] h k = refl
read_task_id-fits id (c ∷ s) h k =
    let next = id * 10 + (c - b'0') in
    let digit = both_left (is_decimal c) (all is_decimal s) h in
    if_intro (λ o. o ≡ some (read_decimal next s)) (is_digit c)
      (λ t.
        if_intro (λ o. o ≡ some (read_decimal next s)) (ltb ((max_size - (c - b'0')) / 10) id)
          (λ u. absurd (overflows id c digit (omega (arith, k, read_decimal_mono next s)) u))
          (λ u. read_task_id-fits next s (both_right (is_decimal c) (all is_decimal s) h) k))
      (λ t. absurd (true-false (sym digit ∙ t)))

read_task_id_sound :
    (id : ℕ) (s : Bytes) {n : ℕ}
    → id ≤ max_size
    → (e : read_task_id id s ≡ some n)
    → (all is_decimal s ≡ true) × (read_decimal id s ≡ n) × (n ≤ max_size)
unfolding read_task_id read_decimal is_digit
read_task_id_sound id [] h e = (refl, ground (arith, e), ground (arith, e))
read_task_id_sound id (c ∷ s) {n} h e = elim (Bool-cases (is_digit c)) [
  | inr t ↦ absurd (none-some (rw t at e))
  | inl t ↦ elim (Bool-cases (ltb ((max_size - (c - b'0')) / 10) id)) [
    | inl u ↦ absurd (none-some (rw (t, u) at e))
    | inr u ↦
        let (digits, value, bound) =
          read_task_id_sound (id * 10 + (c - b'0')) s (fits id c t u) (rw (t, u) at e) in
        (both t digits, value, bound)
  ]
]

-- A target that names task `n`: "/tasks/" and its decimal number, of at least one digit.
abbrev pub Names : Bytes → ℕ → Type 0
Names target n =
    (s : Bytes) × (target ≡ tasks_path ++ s)
    × (null s ≡ false)
    × (all is_decimal s ≡ true)
    × (read_decimal 0 s ≡ n)

parse_task_id-some :
    (s : Bytes) (n : ℕ)
    → null s ≡ false
    → all is_decimal s ≡ true
    → read_decimal 0 s ≡ n
    → n ≤ max_size
    → parse_task_id (tasks_path ++ s) ≡ some n
unfolding parse_task_id
parse_task_id-some s n h digits value bound =
    rw h (read_task_id-fits 0 s digits (omega (arith, value, bound)) ∙ ap some value)

pub parse_task_id-Names :
    (target : Bytes) (n : ℕ) → parse_task_id target ≡ some n → Names target n × (n ≤ max_size)
unfolding parse_task_id
parse_task_id-Names target n e = elim (Bool-cases (starts_with target tasks_path)) [
  | inr t ↦ absurd (none-some (rw t at e))
  | inl t ↦ elim (Bool-cases (null (drop 7 target))) [
    | inl u ↦ absurd (none-some (rw (t, u) at e))
    | inr u ↦
        let (digits, value, bound) =
          read_task_id_sound 0 (drop 7 target) (omega arith) (rw (t, u) at e) in
        ((drop 7 target, starts_with_sound target tasks_path t, u, digits, value), bound)
  ]
]

-- `parseTaskId` takes exactly the targets that are "/tasks/" and a decimal number of at least one digit
-- that is at most 2^64 - 1, with or without leading zeros, and yields that number.
pub parse_task_id_iff :
    (target : Bytes) (n : ℕ) → (parse_task_id target ≡ some n) ↔ (Names target n × (n ≤ max_size))
parse_task_id_iff target n = (
  parse_task_id-Names target n,
  λ ((s, same, h, digits, value), bound).
      ap parse_task_id same ∙ parse_task_id-some s n h digits value bound,
)

-- The target that the API gives a task is read back as its number.
pub parse_task_id-to_string :
    (n : ℕ) → n ≤ max_size → parse_task_id (tasks_path ++ to_string n) ≡ some n
parse_task_id-to_string n h =
    parse_task_id-some (to_string n) n (to_string-null n) (to_string-decimal n)
      (read_decimal-to_string n) h
