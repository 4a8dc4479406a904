-- ===== src/Worker/Tests.antt =====
-- WorkerPool.cpp: a run of a small pool, and the theorems at it.
use aorta.Prelude.{ℕ, ◌+◌, ◌≡◌, refl, true, false, some, [], ◌∷◌}
use aorta.Worker.Defs.{Job, WorkerPool, submit, take_job, publish_completion, signal, begin_stop}
use aorta.Worker.Run.{
  new_pool, Reaches, starts, submits, takes, publishes, signals, stops, IsPool, count, count_jobs,
  waiting,
}
use aorta.Worker.Conserved.{Reaches-IsPool, Reaches-joined}
use aorta.Worker.Wakes.{Serves, IsAwake, Serves-IsAwake}

-- One thread and two reactors; the job is for the second.
abbrev small : WorkerPool
small = new_pool 2 1 4

abbrev queued : WorkerPool
unfolding submit
queued = (submit 1 (some 7) small).1

abbrev job_7 : Job
job_7 = record { reactor_id = 1; work = 7 }

abbrev published : WorkerPool
unfolding submit take_job publish_completion
published = publish_completion 0 job_7 (take_job 0 queued)

-- The completion is published, the pool stops, and its thread ends.
abbrev stopped : WorkerPool
unfolding submit take_job publish_completion signal begin_stop
stopped = take_job 0 (begin_stop (signal true 0 1 published))

stopped_reached : Reaches (job_7 ∷ []) [] stopped
unfolding submit take_job publish_completion signal begin_stop
stopped_reached =
    takes _ _ _ 0
      (stops _ _ _ (
        signals _ _ published true 0 1
          (publishes _ _ (take_job 0 queued) 0 job_7
            (takes _ _ queued 0 (submits [] [] small queued 1 7 (starts 2 1 4) refl) refl) refl)
          refl))
      refl

Reaches-IsPool_example : IsPool (job_7 ∷ []) [] stopped
Reaches-IsPool_example = Reaches-IsPool (job_7 ∷ []) [] stopped stopped_reached

Reaches-joined_example :
    (stopped.jobs ≡ [])
    × ((s w : ℕ)
        → count_jobs s w (job_7 ∷ []) ≡ count_jobs s w [] + count w (waiting stopped.channels s))
unfolding submit take_job publish_completion signal begin_stop
Reaches-joined_example = Reaches-joined (job_7 ∷ []) [] stopped stopped_reached refl

-- The completion of job 7 is in its channel, and its thread has not signalled yet.
served : Serves 1 published false
unfolding submit take_job publish_completion
served =
    Serves.publishes (take_job 0 queued) false 0 job_7
      (Serves.takes queued false 0
        (Serves.submits small queued false 1 7 (Serves.starts 2 1 4) refl) refl)
      refl

Serves-IsAwake_example : IsAwake 1 published false
Serves-IsAwake_example = Serves-IsAwake 1 published false served

refuses_unknown_reactor : (submit 2 (some 8) small).0 ≡ false
unfolding submit
refuses_unknown_reactor = refl
