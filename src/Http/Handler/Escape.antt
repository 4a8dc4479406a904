-- ===== src/Http/Handler/Escape.antt =====
-- HttpHandler.cpp: escapeJson, and the objects that the tasks' answers print.
use aorta.Prelude.{
  ℕ, Bool, true, false, List, [], ◌∷◌, ◌++◌, if◌then◌else◌, ◌==◌, null, to_string, Bytes, codes,
}

abbrev pub backslash : ℕ
backslash = 92

abbrev pub quote : ℕ
quote = 34

unfoldable pub escape_json : Bytes → Bytes
escape_json [] = []
escape_json (character ∷ value) =
    let rest = escape_json value in
    if character == backslash
    then backslash ∷ backslash ∷ rest
    else if character == quote
    then backslash ∷ quote ∷ rest
    else if character == b'\n'
    then backslash ∷ b'n' ∷ rest
    else if character == b'\r'
    then backslash ∷ b'r' ∷ rest
    else if character == b'\t'
    then backslash ∷ b't' ∷ rest
    else character ∷ rest

pub record Task : Type 0 where
  pub id : ℕ
  pub title : Bytes
  pub completed : Bool

abbrev pub print_bool : Bool → Bytes
print_bool true = codes "true"
print_bool false = codes "false"

-- The object of a task, with the text that stands for its last value.
unfoldable pub print_object : ℕ → Bytes → Bytes → Bytes
unfolding escape_json to_string
print_object id title completed =
    (codes "{\"id\":")
    ++ (to_string id
        ++ ((codes ",\"title\":\"")
            ++ (escape_json title ++ ((codes "\",\"completed\":") ++ (completed ++ codes "}")))))

abbrev pub print_task : Task → Bytes
unfolding print_object
print_task task = print_object task.id task.title (print_bool task.completed)

-- The loop over the tasks: a comma behind each but the last.
unfoldable pub print_elements : List Task → Bytes
unfolding print_object
print_elements [] = []
print_elements (task ∷ tasks) =
    print_object task.id task.title (print_bool task.completed)
    ++ (if null tasks then [] else b',' ∷ print_elements tasks)

unfoldable pub print_tasks : List Task → Bytes
unfolding print_elements
print_tasks tasks = b'[' ∷ (print_elements tasks ++ codes "]")
