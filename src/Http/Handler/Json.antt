-- ===== src/Http/Handler/Json.antt =====
-- HttpHandler.cpp: a reader of JSON, for the arrays that the tasks are printed as. It reads no more than
-- JSON allows, and the objects with their members in the order of the answers.
use aorta.Prelude.{
  ℕ, zero, suc, Bool, true, false, ◌&&◌, ◌||◌, not, ltb, eq_bytes, all, Option, none, some, List,
  [], ◌∷◌, if◌then◌else◌, ◌==◌, null, length, drop, starts_with, to_string, read_decimal,
  is_decimal, Bytes, codes,
}
use aorta.Http.Handler.Escape.{backslash, quote, Task}

abbrev pub and_then : {A B : Type 0} → Option A → (A → Option B) → Option B
and_then none f = none
and_then (some a) f = f a

abbrev pub cons_char : ℕ → Option (Bytes × Bytes) → Option (Bytes × Bytes)
cons_char c none = none
cons_char c (some (value, s)) = some (c ∷ value, s)

-- What a character stands for behind a backslash.
abbrev pub unescaped : ℕ → Option ℕ
unescaped e =
    if e == backslash
    then some backslash
    else if e == quote
    then some quote
    else if e == b'n'
    then some b'\n'
    else if e == b'r'
    then some b'\r'
    else if e == b't'
    then some b'\t'
    else none

abbrev pub escaped : Option ℕ → Option (Bytes × Bytes) → Option (Bytes × Bytes)
escaped none read = none
escaped (some c) read = cons_char c read

-- JSON refuses the characters below the blank in a string: they are written as escapes.
abbrev pub is_control : ℕ → Bool
is_control c = ltb c b' '

-- A string behind its opening quote: its value, and what follows the closing quote.
unfoldable pub read_string : Bytes → Option (Bytes × Bytes)
read_string [] = none
read_string (c ∷ []) = if c == quote then some ([], []) else none
read_string (c ∷ e ∷ s) =
    let behind = read_string s in
    let rest = read_string (e ∷ s) in
    if c == quote
    then some ([], e ∷ s)
    else if c == backslash
    then escaped (unescaped e) behind
    else if is_control c
    then none
    else cons_char c rest

abbrev pub cons_digit : ℕ → Bytes × Bytes → Bytes × Bytes
cons_digit c (digits, s) = (c ∷ digits, s)

unfoldable pub read_digits : Bytes → Bytes × Bytes
read_digits [] = ([], [])
read_digits (c ∷ s) =
    let rest = read_digits s in if is_decimal c then cons_digit c rest else ([], c ∷ s)

abbrev pub expect : Bytes → Bytes → Option Bytes
unfolding starts_with
expect p s = if starts_with s p then some (drop (length p) s) else none

unfoldable pub read_bool : Bytes → Option (Bool × Bytes)
unfolding expect
read_bool s =
    if starts_with s (codes "true")
    then some (true, drop 4 s)
    else and_then (expect (codes "false") s) (λ t. some (false, t))

-- The three values in the order in which they are printed, the last first.
unfoldable pub read_end : ℕ → Bytes → Bytes → Option (Task × Bytes)
unfolding expect read_bool
read_end id title s = and_then (expect (codes ",\"completed\":") s) λ s1.
    and_then (read_bool s1) λ (completed, s2).
      and_then (expect (codes "}") s2)
        λ s3. some (record { id = id; title = title; completed = completed }, s3)

-- JSON refuses a number without digits, and one with a zero before its other digits.
unfoldable pub read_number : Bytes → Option ℕ
unfolding read_decimal to_string eq_bytes
read_number digits =
    let n = read_decimal 0 digits in if eq_bytes (to_string n) digits then some n else none

unfoldable pub read_title : Bytes × Bytes → Option (Task × Bytes)
unfolding expect read_string read_end read_number
read_title (digits, s) = and_then (read_number digits) λ id.
    and_then (expect (codes ",\"title\":\"") s)
      λ s1. and_then (read_string s1) λ (title, s2). read_end id title s2

unfoldable pub read_task : Bytes → Option (Task × Bytes)
unfolding expect read_digits read_title
read_task s = and_then (expect (codes "{\"id\":") s) λ s1. read_title (read_digits s1)

abbrev pub cons_task : Task → Option (List Task) → Option (List Task)
cons_task task none = none
cons_task task (some tasks) = some (task ∷ tasks)

-- Behind an element: the end, or a comma and the other elements.
abbrev pub read_more : (Bytes → Option (List Task)) → Task → Bytes → Option (List Task)
read_more rest task [] = none
read_more rest task (c ∷ s) =
    let others = rest s in
    if c == b','
    then cons_task task others
    else if c == b']' && null s
    then some (task ∷ [])
    else none

unfoldable pub read_elements : ℕ → Bytes → Option (List Task)
unfolding read_task
read_elements zero s = none
read_elements (suc f) s =
    and_then (read_task s) λ (task, rest). read_more (read_elements f) task rest

-- A whole array, without blanks.
unfoldable pub read_tasks : Bytes → Option (List Task)
unfolding read_elements
read_tasks [] = none
read_tasks (c ∷ s) =
    let elements = read_elements (length s) s in
    if c == b'['
    then (if starts_with s (codes "]")
        then (if null (drop 1 s) then some [] else none)
        else elements)
    else none

-- The characters of a title that escapeJson writes as JSON asks: no control characters but these three.
abbrev pub is_escapable : ℕ → Bool
is_escapable c = not (is_control c) || c == b'\n' || c == b'\r' || c == b'\t'

-- A task whose title escapeJson writes as JSON asks.
abbrev pub is_printable : Task → Bool
is_printable task = all is_escapable task.title
