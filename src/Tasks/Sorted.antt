-- ===== src/Tasks/Sorted.antt =====
-- TaskManager.cpp with HttpHandler.cpp: what a client reads of the stored tasks.
use aorta.Prelude.{◌≡◌, Bool, true, all, List, [], ◌∷◌, leb}
use aorta.Http.Response.Defs.{HttpResponse}
use aorta.Http.Handler.Answers.{all_tasks_response}
use aorta.Http.Handler.Escape.{Task}
use aorta.Tasks.Defs.{found_tasks}

abbrev pub is_before : Task → Task → Bool
is_before task next = leb task.id next.id

unfoldable pub AscendingIds : List Task → Type 0
AscendingIds [] = Unit {0}
AscendingIds (task ∷ tasks) = (all (is_before task) tasks ≡ true) × AscendingIds tasks

-- The response to what the storage answers.
abbrev answer : {S : Type 0} → (Bool × List Task) × S → HttpResponse
answer (found, t) = all_tasks_response (found_tasks found).0 (found_tasks found).1
