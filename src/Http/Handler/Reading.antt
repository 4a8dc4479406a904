-- ===== src/Http/Handler/Reading.antt =====
-- HttpHandler.cpp: the text of the tasks against a JSON reader.
use aorta.Prelude.{
  ℕ, zero, suc, ◌≤◌, ◌<◌, ◌≡◌, refl, sym, ap, ◌∙◌, Bool, true, false, eq_bytes, eq_bytes_self, all,
  Option, none, some, List, [], ◌∷◌, ◌++◌, append_assoc, if◌then◌else◌, ◌==◌, ==→≡, length,
  length-append, to_string, is_decimal, to_string-decimal, read_decimal-to_string, both_left,
  both_right, if_intro, arith, Bytes, codes,
}
use aorta.Http.Handler.Escape.{
  backslash, quote, escape_json, Task, print_bool, print_object, print_elements, print_tasks,
}
use aorta.Http.Handler.Json.{
  and_then, cons_char, is_control, read_string, read_digits, expect, read_bool, read_end,
  read_number, read_title, read_task, cons_task, read_more, read_elements, read_tasks, is_escapable,
  is_printable,
}

read_string-plain :
    (c : ℕ) (s : Bytes)
    → (c == quote) ≡ false
    → (c == backslash) ≡ false
    → is_control c ≡ false
    → read_string (c ∷ s) ≡ cons_char c (read_string s)
unfolding read_string
read_string-plain c [] h k l = rw h refl
read_string-plain c (e ∷ s) h k l = rw (h, k, l) refl

other_control :
    (c : ℕ)
    → is_escapable c ≡ true
    → (c == b'\n') ≡ false
    → (c == b'\r') ≡ false
    → (c == b'\t') ≡ false
    → is_control c ≡ false
other_control c h n r t = ground arith

read_string-escape_json :
    (value s : Bytes)
    → all is_escapable value ≡ true
    → read_string (escape_json value ++ quote ∷ s) ≡ some (value, s)
unfolding read_string escape_json
read_string-escape_json [] [] h = refl
read_string-escape_json [] (c ∷ s) h = refl
read_string-escape_json (c ∷ value) s h =
    let first = both_left (is_escapable c) (all is_escapable value) h in
    let rest =
      read_string-escape_json value s (both_right (is_escapable c) (all is_escapable value) h) in
    let back = λ (out : Bytes). read_string (out ++ quote ∷ s) ≡ some (c ∷ value, s) in
    let stands : (k : ℕ)
        → (c == k) ≡ true
        → cons_char k (read_string (escape_json value ++ quote ∷ s)) ≡ some (c ∷ value, s) =
      λ k t. ap (cons_char k) rest ∙ ap (λ x. some (x ∷ value, s)) (sym (==→≡ c k t)) in
    if_intro back (c == backslash) (stands backslash) λ n1.
      if_intro back (c == quote) (stands quote) λ n2.
        if_intro back (c == b'\n') (stands b'\n') λ n3.
          if_intro back (c == b'\r') (stands b'\r') λ n4.
            if_intro back (c == b'\t') (stands b'\t') λ n5.
              read_string-plain c (escape_json value ++ quote ∷ s) n2 n1
                (other_control c first n3 n4 n5)
              ∙ ap (cons_char c) rest

read_digits-stop :
    (digits : Bytes) (c : ℕ) (s : Bytes)
    → all is_decimal digits ≡ true
    → is_decimal c ≡ false
    → read_digits (digits ++ c ∷ s) ≡ (digits, c ∷ s)
unfolding read_digits
read_digits-stop [] c s h k = rw k refl
read_digits-stop (d ∷ digits) c s h k =
    rw
      (
        both_left (is_decimal d) (all is_decimal digits) h,
        read_digits-stop digits c s (both_right (is_decimal d) (all is_decimal digits) h) k,
      )
      refl

read_bool-print_bool : (b : Bool) (s : Bytes) → read_bool (print_bool b ++ s) ≡ some (b, s)
unfolding read_bool
read_bool-print_bool true s = refl
read_bool-print_bool false s = refl

read_end-print :
    (id : ℕ) (title : Bytes) (completed : Bool) (s : Bytes)
    → read_end id title ((codes ",\"completed\":") ++ (print_bool completed ++ b'}' ∷ s))
      ≡ some (record { id = id; title = title; completed = completed }, s)
unfolding read_end
read_end-print id title true s = refl
read_end-print id title false s = refl

read_number-to_string : (id : ℕ) → read_number (to_string id) ≡ some id
unfolding read_number
read_number-to_string id =
    let same = read_decimal-to_string id in
    ap (λ n. if eq_bytes (to_string n) (to_string id) then some n else none) same
    ∙ rw (eq_bytes_self (to_string id)) refl

read_title-print :
    (id : ℕ) (title s : Bytes)
    → all is_escapable title ≡ true
    → read_title (to_string id, (codes ",\"title\":\"") ++ (escape_json title ++ quote ∷ s))
      ≡ read_end id title s
unfolding read_title
read_title-print id title s h =
    let behind = (codes ",\"title\":\"") ++ (escape_json title ++ quote ∷ s) in
    let read =
      λ (n : ℕ) (o : Option (Bytes × Bytes)). and_then o λ (title', s'). read_end n title' s' in
    ap
      (λ o.
        and_then o
          λ n. and_then (expect (codes ",\"title\":\"") behind) λ s'. read n (read_string s'))
      (read_number-to_string id)
    ∙ ap (read id) (read_string-escape_json title s h)

-- A reader gets back the task that is printed, and stops behind it.
read_task-print_object :
    (id : ℕ) (title : Bytes) (completed : Bool) (s : Bytes)
    → all is_escapable title ≡ true
    → read_task (print_object id title (print_bool completed) ++ s)
      ≡ some (record { id = id; title = title; completed = completed }, s)
unfolding read_task print_object
read_task-print_object id title completed s h =
    let last = print_bool completed ++ codes "}" in
    let end = (codes ",\"completed\":") ++ last in
    let middle = (codes ",\"title\":\"") ++ (escape_json title ++ quote ∷ end) in
    ap (λ x. read_title (read_digits x)) (append_assoc (to_string id) middle s)
    ∙ ap read_title (read_digits-stop (to_string id) b',' _ (to_string-decimal id) refl)
    ∙ ap (λ x. read_title (to_string id, (codes ",\"title\":\"") ++ x))
        (append_assoc (escape_json title) (quote ∷ end) s)
    ∙ read_title-print id title (end ++ s) h
    ∙ ap (λ x. read_end id title ((codes ",\"completed\":") ++ x))
        (append_assoc (print_bool completed) (codes "}") s)
    ∙ read_end-print id title completed s

read_element :
    (f : ℕ) (task : Task) (behind s : Bytes)
    → is_printable task ≡ true
    → read_elements
        (suc f)
        ((print_object task.id task.title (print_bool task.completed) ++ behind) ++ s)
      ≡ read_more (read_elements f) task (behind ++ s)
unfolding read_elements
read_element f task behind s h =
    let printed = print_object task.id task.title (print_bool task.completed) in
    ap (λ x. and_then (read_task x) λ (t, rest). read_more (read_elements f) t rest)
      (append_assoc printed behind s)
    ∙ ap (λ o. and_then o λ (t, rest). read_more (read_elements f) t rest)
        (read_task-print_object task.id task.title task.completed (behind ++ s) h)

read_elements-print :
    (f : ℕ) (task : Task) (tasks : List Task)
    → length tasks < f
    → all is_printable (task ∷ tasks) ≡ true
    → read_elements f (print_elements (task ∷ tasks) ++ codes "]") ≡ some (task ∷ tasks)
unfolding read_elements print_elements
read_elements-print zero task tasks h w = absurd (omega arith)
read_elements-print (suc f) task [] h w =
    read_element f task [] (codes "]") (both_left (is_printable task) _ w)
read_elements-print (suc f) task (next ∷ tasks) h w =
    read_element f task (b',' ∷ print_elements (next ∷ tasks)) (codes "]")
      (both_left (is_printable task) _ w)
    ∙ ap (cons_task task) (
        read_elements-print f next tasks (omega arith)
          (both_right (is_printable task) (all is_printable (next ∷ tasks)) w))

length-print_elements : (tasks : List Task) → length tasks ≤ length (print_elements tasks)
unfolding print_elements print_object
length-print_elements [] = omega arith
length-print_elements (task ∷ []) = omega arith
length-print_elements (task ∷ next ∷ tasks) = omega (
  arith,
  length-print_elements (next ∷ tasks),
  length-append (print_object task.id task.title (print_bool task.completed))
      (b',' ∷ print_elements (next ∷ tasks)),
)

-- A JSON reader that leaves the bytes of a string as they are gets back every list of tasks from the array
-- that `getAll`'s answer prints, with the quotes, backslashes and line breaks in the titles, where the
-- titles contain no control characters but newline, return and tab.
pub read_tasks-print_tasks :
    (tasks : List Task)
    → all is_printable tasks ≡ true
    → read_tasks (print_tasks tasks) ≡ some tasks
unfolding read_tasks print_tasks print_elements print_object
read_tasks-print_tasks [] w = refl
read_tasks-print_tasks (task ∷ tasks) w =
    let s = print_elements (task ∷ tasks) ++ codes "]" in
    read_elements-print (length s) task tasks
      (omega (
        arith,
        length-print_elements (task ∷ tasks),
        length-append (print_elements (task ∷ tasks)) (codes "]"),
      ))
      w
