-- ===== src/Worker/Defs.antt =====
-- WorkerPool.cpp. A job's work, and the completion that it returns, are the number that the caller gave it.
-- Each block under a mutex, and each call of `write` and `read`, is one step.
use aorta.Prelude.{
  ℕ, suc, Bool, true, false, ◌||◌, Option, none, some, List, [], ◌∷◌, ◌++◌, if◌then◌else◌, leb,
  null, length, get_elem?, set, map,
}

abbrev pub max_queued_jobs : ℕ
max_queued_jobs = 4096

pub record Job : Type 0 where
  pub reactor_id : ℕ
  pub work : ℕ

-- `event` is the counter of the eventfd.
pub record CompletionChannel : Type 0 where
  pub completions : List ℕ
  pub event : ℕ

-- Where a thread stands in `workerLoop`: before the wait, in `job.work`, between the two halves of
-- `publishCompletion`, or past the loop.
pub data Worker : Type 0 where
  ready : Worker
  running : Job → Worker
  publishing : (reactor_id : ℕ) → Worker
  finished : Worker

pub record WorkerPool : Type 0 where
  pub jobs : List Job
  pub workers : List Worker
  pub channels : List CompletionChannel
  pub stopping : Bool

-- `work` is `none` for an empty function.
unfoldable pub submit : ℕ → Option ℕ → WorkerPool → Bool × WorkerPool
submit reactor_id none p = (false, p)
submit reactor_id (some work) p =
    if leb (length p.channels) reactor_id
    then (false, p)
    else if p.stopping || null p.workers || leb max_queued_jobs (length p.jobs)
    then (false, p)
    else (
      true,
      record p { jobs = p.jobs ++ (record { reactor_id = reactor_id; work = work }) ∷ [] },
    )

-- A thread at the wait: it takes the first job, ends if the pool stops and no job is left, or waits.
unfoldable pub take_from : List Job → ℕ → WorkerPool → WorkerPool
take_from [] i p = if p.stopping then record p { workers = set p.workers i finished } else p
take_from (job ∷ jobs) i p = record p { jobs = jobs; workers = set p.workers i (running job) }

unfoldable pub take_job : ℕ → WorkerPool → WorkerPool
unfolding take_from
take_job i p = take_from p.jobs i p

-- The work has thrown or returned an empty completion.
unfoldable pub drop_job : ℕ → WorkerPool → WorkerPool
drop_job i p = record p { workers = set p.workers i ready }

abbrev pub push_completion : ℕ → CompletionChannel → CompletionChannel
push_completion completion channel = record channel {
  completions = channel.completions ++ completion ∷ [];
}

-- The first half of `publishCompletion`, for the channel of the job's reactor. Without one, it does nothing.
unfoldable pub publish_on : Option CompletionChannel → ℕ → Job → WorkerPool → WorkerPool
publish_on none i job p = record p { workers = set p.workers i ready }
publish_on (some channel) i job p = record p {
  channels = set p.channels job.reactor_id (push_completion job.work channel);
  workers = set p.workers i (publishing job.reactor_id);
}

unfoldable pub publish_completion : ℕ → Job → WorkerPool → WorkerPool
unfolding publish_on
publish_completion i job p = publish_on (get_elem? p.channels job.reactor_id) i job p

abbrev pub set_event : ℕ → ℕ → CompletionChannel → WorkerPool → WorkerPool
set_event event reactor_id channel p = record p {
  channels = set p.channels reactor_id (record channel { event = event });
}

-- The second half: the write to the eventfd, repeated while a signal interrupts it. A write that fails
-- otherwise leaves the counter as it is.
unfoldable pub signal_on : Option CompletionChannel → Bool → ℕ → ℕ → WorkerPool → WorkerPool
signal_on none written i reactor_id p = record p { workers = set p.workers i ready }
signal_on (some channel) false i reactor_id p = record p { workers = set p.workers i ready }
signal_on (some channel) true i reactor_id p =
    set_event (suc channel.event) reactor_id channel (record p { workers = set p.workers i ready })

unfoldable pub signal : Bool → ℕ → ℕ → WorkerPool → WorkerPool
unfolding signal_on
signal written i reactor_id p = signal_on (get_elem? p.channels reactor_id) written i reactor_id p

-- The reads of the eventfd up to the one that would block.
unfoldable pub consume_from : Option CompletionChannel → ℕ → WorkerPool → WorkerPool
consume_from none reactor_id p = p
consume_from (some channel) reactor_id p = set_event 0 reactor_id channel p

unfoldable pub consume_completion_event : ℕ → WorkerPool → WorkerPool
unfolding consume_from
consume_completion_event reactor_id p = consume_from (get_elem? p.channels reactor_id) reactor_id p

-- The completion that is taken, and the completions behind it.
abbrev pub pop_front : List ℕ → ℕ → CompletionChannel → WorkerPool → Option ℕ × WorkerPool
pop_front [] reactor_id channel p = (none, p)
pop_front (completion ∷ rest) reactor_id channel p = (
  some completion,
  record p { channels = set p.channels reactor_id (record channel { completions = rest }) },
)

unfoldable pub pop_from : Option CompletionChannel → ℕ → WorkerPool → Option ℕ × WorkerPool
pop_from none reactor_id p = (none, p)
pop_from (some channel) reactor_id p = pop_front channel.completions reactor_id channel p

unfoldable pub pop_completion : ℕ → WorkerPool → Option ℕ × WorkerPool
unfolding pop_from
pop_completion reactor_id p = pop_from (get_elem? p.channels reactor_id) reactor_id p

-- The first block of `stop`.
unfoldable pub begin_stop : WorkerPool → WorkerPool
begin_stop p = record p { stopping = true }

-- What `stop` does after the joins.
unfoldable pub end_stop : WorkerPool → WorkerPool
end_stop p = record p {
  jobs = [];
  workers = [];
  channels = map (λ (c : CompletionChannel). record c { completions = [] }) p.channels;
}
