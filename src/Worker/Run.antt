-- ===== src/Worker/Run.antt =====
-- WorkerPool.cpp: what holds under every interleaving of its threads and its callers.
use aorta.Prelude.{
  ℕ, zero, suc, ◌+◌, ◌/◌, ◌≤◌, max, ◌≡◌, Bool, true, false, some, List, [], ◌∷◌, if◌then◌else◌,
  ◌==◌, leb, null, length, get_elem?, replicate,
}
use aorta.Worker.Defs.{
  max_queued_jobs, Job, CompletionChannel, Worker, ready, running, publishing, finished, WorkerPool,
  submit, take_job, drop_job, publish_completion, signal, consume_completion_event, pop_completion,
  begin_stop,
}
use aorta.Worker.Sums.{sum}

-- The constructor, where the eventfds can be opened.
abbrev pub default_workers : ℕ → ℕ
default_workers hardware = if hardware == 0 then 1 else max 1 (hardware / 2)

abbrev pub new_pool : (reactor_count : ℕ) → (worker_count : ℕ) → (hardware : ℕ) → WorkerPool
new_pool reactor_count worker_count hardware = record {
  jobs = [];
  workers = replicate (if worker_count == 0 then default_workers hardware else worker_count) ready;
  channels = replicate reactor_count (record { completions = []; event = 0 });
  stopping = false;
}

-- The states that are reached before `stop` has joined the threads, with the jobs that were accepted so
-- far, and those that are done with: a completion that a reactor has popped, under that reactor, and a
-- job that has no completion.
pub data Reaches : List Job → List Job → WorkerPool → Type 0 where
  starts : (reactors workers hardware : ℕ) → Reaches [] [] (new_pool reactors workers hardware)
  submits :
      (a h : List Job) (p q : WorkerPool) (reactor_id work : ℕ)
      → Reaches a h p
      → submit reactor_id (some work) p ≡ (true, q)
      → Reaches ((record { reactor_id = reactor_id; work = work }) ∷ a) h q
  takes :
      (a h : List Job) (p : WorkerPool) (i : ℕ)
      → Reaches a h p
      → get_elem? p.workers i ≡ some ready
      → Reaches a h (take_job i p)
  drops :
      (a h : List Job) (p : WorkerPool) (i : ℕ) (job : Job)
      → Reaches a h p
      → get_elem? p.workers i ≡ some (running job)
      → Reaches a (job ∷ h) (drop_job i p)
  publishes :
      (a h : List Job) (p : WorkerPool) (i : ℕ) (job : Job)
      → Reaches a h p
      → get_elem? p.workers i ≡ some (running job)
      → Reaches a h (publish_completion i job p)
  signals :
      (a h : List Job) (p : WorkerPool) (written : Bool) (i reactor_id : ℕ)
      → Reaches a h p
      → get_elem? p.workers i ≡ some (publishing reactor_id)
      → Reaches a h (signal written i reactor_id p)
  consumes :
      (a h : List Job) (p : WorkerPool) (reactor_id : ℕ)
      → Reaches a h p
      → Reaches a h (consume_completion_event reactor_id p)
  pops :
      (a h : List Job) (p q : WorkerPool) (reactor_id completion : ℕ)
      → Reaches a h p
      → pop_completion reactor_id p ≡ (some completion, q)
      → Reaches a ((record { reactor_id = reactor_id; work = completion }) ∷ h) q
  stops : (a h : List Job) (p : WorkerPool) → Reaches a h p → Reaches a h (begin_stop p)

abbrev pub bit : Bool → ℕ
bit true = 1
bit false = 0

-- How often a work stands in a list, and a work of a reactor in a queue, in a thread and in the channel
-- of that reactor.
abbrev pub count : ℕ → List ℕ → ℕ
count w works = sum (λ x. bit (x == w)) works

abbrev pub when : Bool → ℕ → ℕ
when b n = if b then n else 0

abbrev pub job_weight : ℕ → ℕ → Job → ℕ
job_weight r w job = when (job.reactor_id == r) (bit (job.work == w))

abbrev pub count_jobs : ℕ → ℕ → List Job → ℕ
count_jobs r w jobs = sum (job_weight r w) jobs

abbrev pub worker_weight : ℕ → ℕ → Worker → ℕ
worker_weight r w (running job) = job_weight r w job
worker_weight r w _ = 0

-- The completions that wait for a reactor.
unfoldable pub waiting : List CompletionChannel → ℕ → List ℕ
waiting [] r = []
waiting (channel ∷ channels) zero = channel.completions
waiting (channel ∷ channels) (suc r) = waiting channels r

-- Each accepted job is in one place: done with, queued, in a thread, or in its reactor's channel.
abbrev pub IsConserved : List Job → List Job → WorkerPool → Type 0
IsConserved a h p =
    (r w : ℕ)
    → count_jobs r w a
      ≡ count_jobs r w h
        + count_jobs r w p.jobs
        + sum (worker_weight r w) p.workers
        + count w (waiting p.channels r)

-- How many jobs are for a reactor without a channel, and how many threads are past their loop.
abbrev pub job_stray : ℕ → Job → ℕ
job_stray n job = bit (leb n job.reactor_id)

abbrev pub worker_stray : ℕ → Worker → ℕ
worker_stray n (running job) = job_stray n job
worker_stray n _ = 0

abbrev pub is_finished : Worker → ℕ
is_finished finished = 1
is_finished _ = 0

pub record IsPool (a h : List Job) (p : WorkerPool) : Type 0 where
  pub conserved : IsConserved a h p
  pub bounded : length p.jobs ≤ max_queued_jobs
  pub placed :
      sum (job_stray (length p.channels)) p.jobs + sum (worker_stray (length p.channels)) p.workers
      ≡ 0
  pub drained : 1 ≤ sum is_finished p.workers → (p.stopping ≡ true) × (p.jobs ≡ [])
  pub staffed : null p.workers ≡ true → p.jobs ≡ []
