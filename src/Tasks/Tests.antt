-- ===== src/Tasks/Tests.antt =====
-- TaskManager.cpp: a storage of two tasks.
use aorta.Prelude.{true, false, List, [], ◌∷◌, codes}
use aorta.Http.Handler.Escape.{Task}
use aorta.Tasks.Defs.{RedisClient}

abbrev stored : List Task
stored =
    (record { id = 9; title = codes "second"; completed = false })
    ∷ (record { id = 2; title = codes "a \"first\""; completed = true })
    ∷ []

-- A storage that lists the tasks that it holds, and changes nothing.
abbrev listing : RedisClient (List Task)
listing = record {
  get_all_tasks = λ set_key tasks. ((true, tasks), tasks);
  create_task = λ next_id_key set_key title tasks. ((false, 0), tasks);
  update_task = λ key title completed tasks. ((false, []), tasks);
  remove_task = λ key set_key id tasks. ((false, false), tasks);
}
