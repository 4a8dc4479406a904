-- ===== src/Tasks/Defs.antt =====
-- TaskManager.cpp. A work takes the storage to its next state; its completion calls the callback of
-- HttpHandler.cpp with what the work has found.
use aorta.Prelude.{
  ℕ, Bool, true, false, not, List, [], ◌∷◌, ◌++◌, if◌then◌else◌, leb, null, to_string, Bytes, codes,
}
use aorta.Http.Response.Defs.{HttpResponse}
use aorta.Http.Handler.Answers.{
  all_tasks_response, created_response, updated_response, removed_response,
}
use aorta.Http.Handler.Dispatch.{TaskCall, get_all, create, update, remove}
use aorta.Http.Handler.Escape.{Task}

-- What the works call of RedisClient: each call answers whether it succeeded, with its outputs.
pub record RedisClient (S : Type 0) : Type 0 where
  pub get_all_tasks : (set_key : Bytes) → S → (Bool × List Task) × S
  pub create_task : (next_id_key : Bytes) → (set_key : Bytes) → (title : Bytes) → S → (Bool × ℕ) × S
  pub update_task : (key : Bytes) → (title : Bytes) → (completed : Bool) → S → (Bool × Bytes) × S
  pub remove_task : (key : Bytes) → (set_key : Bytes) → (id : Bytes) → S → (Bool × Bool) × S

abbrev pub task_set_key : Bytes
task_set_key = codes "tasks"

abbrev pub next_id_key : Bytes
next_id_key = codes "task:next_id"

unfoldable pub task_key : ℕ → Bytes
unfolding to_string
task_key id = (codes "task:") ++ to_string id

-- `Task{}`.
abbrev pub empty_task : Task
empty_task = record { id = 0; title = []; completed = false }

-- `std::sort` by the id.
unfoldable pub insert_task : Task → List Task → List Task
insert_task task [] = task ∷ []
insert_task task (next ∷ tasks) =
    let rest = insert_task task tasks in
    if leb task.id next.id then task ∷ next ∷ tasks else next ∷ rest

unfoldable pub sort_tasks : List Task → List Task
unfolding insert_task
sort_tasks [] = []
sort_tasks (task ∷ tasks) = insert_task task (sort_tasks tasks)

-- The outputs are as they were made where the call has failed.
unfoldable pub found_tasks : Bool × List Task → Bool × List Task
unfolding sort_tasks
found_tasks (success, tasks) = if success then (true, sort_tasks tasks) else (false, [])

abbrev pub made_task : Bytes → Bool × ℕ → Bool × Task
made_task title (success, id) =
    if success
    then (true, record { id = id; title = title; completed = false })
    else (false, empty_task)

abbrev pub changed_task : ℕ → Bool → Bool × Bytes → Bool × Task
changed_task id completed (success, title) =
    if success
    then (true, record { id = id; title = title; completed = completed })
    else (false, empty_task)

module _ {S : Type 0} (redis : RedisClient S) where
  unfoldable pub run_get_all : S → (Bool × List Task) × S
  unfolding found_tasks
  run_get_all s = let (found, t) = redis.get_all_tasks task_set_key s in (found_tasks found, t)

  unfoldable pub run_create : Bytes → S → (Bool × Task) × S
  run_create title s =
      let (made, t) = redis.create_task next_id_key task_set_key title s in
      (made_task title made, t)

  unfoldable pub run_update : ℕ → Bytes → Bool → S → (Bool × Task) × S
  unfolding task_key
  run_update id title completed s =
      let (changed, t) = redis.update_task (task_key id) title completed s in
      (changed_task id completed changed, t)

  unfoldable pub run_remove : ℕ → S → (Bool × Bool) × S
  unfolding task_key to_string
  run_remove id s = redis.remove_task (task_key id) task_set_key (to_string id) s

  -- A call's work, and the response that its completion builds.
  unfoldable pub complete_call : TaskCall → S → HttpResponse × S
  unfolding run_get_all run_create run_update run_remove all_tasks_response created_response
      updated_response removed_response
  complete_call get_all s =
      let ((success, tasks), t) = run_get_all s in (all_tasks_response success tasks, t)
  complete_call (create title) s =
      let ((success, task), t) = run_create title s in (created_response success task, t)
  complete_call (update id title completed) s =
      let ((success, task), t) = run_update id title completed s in
      (updated_response success task, t)
  complete_call (remove id) s =
      let ((success, removed), t) = run_remove id s in (removed_response success removed, t)

-- Whether a call, which always comes with a callback, is handed to the worker pool.
unfoldable pub is_submitted : TaskCall → Bool
is_submitted (create title) = not (null title)
is_submitted _ = true
