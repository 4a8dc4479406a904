-- ===== src/Worker/Conserved.antt =====
-- WorkerPool.cpp: where the accepted works are, in every state.
use aorta.Prelude.{
  none-some, ℕ, suc, ◌+◌, ◌≤◌, ◌≡◌, refl, ap, subst, Bool, true, false, Option, none, some, List,
  [], ◌∷◌, null, length, get_elem?, set, Bool-cases, inl, inr, arith,
}
use aorta.Worker.Defs.{
  Job, CompletionChannel, Worker, ready, running, publishing, finished, WorkerPool, take_job,
  publish_completion, signal, signal_on, pop_from, consume_completion_event, pop_front,
  pop_completion,
}
use aorta.Worker.Sums.{sum}
use aorta.Worker.Run.{
  Reaches, starts, submits, takes, drops, publishes, signals, consumes, pops, stops, count,
  count_jobs, worker_weight, waiting, is_finished, IsPool,
}
use aorta.Worker.Steps.{
  submit-accepted, starts-IsPool, submits-IsPool, takes-IsPool, drops-IsPool, publishes-IsPool,
  set_event-IsPool, idles-IsPool, consumes-IsPool, stops-IsPool, popped-IsPool,
}

abbrev job_of : ℕ → ℕ → Job
job_of reactor_id work = record { reactor_id = reactor_id; work = work }

signals-IsPool :
    (a h : List Job) (p : WorkerPool) (channel : Option CompletionChannel) (written : Bool)
    (i reactor_id : ℕ)
    → IsPool a h p
    → get_elem? p.channels reactor_id ≡ channel
    → get_elem? p.workers i ≡ some (publishing reactor_id)
    → IsPool a h (signal_on channel written i reactor_id p)
unfolding signal_on
signals-IsPool a h p none written i reactor_id k e g = idles-IsPool a h p k i reactor_id g
signals-IsPool a h p (some channel) false i reactor_id k e g = idles-IsPool a h p k i reactor_id g
signals-IsPool a h p (some channel) true i reactor_id k e g =
    set_event-IsPool a h (record p { workers = set p.workers i ready })
      (idles-IsPool a h p k i reactor_id g) (suc channel.event) reactor_id channel e

pop_front-IsPool :
    (a h : List Job) (p q : WorkerPool) (completions : List ℕ) (channel : CompletionChannel)
    (reactor_id completion : ℕ)
    → IsPool a h p
    → channel.completions ≡ completions
    → get_elem? p.channels reactor_id ≡ some channel
    → pop_front completions reactor_id channel p ≡ (some completion, q)
    → IsPool a (job_of reactor_id completion ∷ h) q
pop_front-IsPool a h p q [] channel reactor_id completion k c e f =
    absurd (none-some (ap (λ r. r.0) f))
pop_front-IsPool a h p q (x ∷ rest) channel reactor_id completion k c e f =
    let same : x ≡ completion =
      ap (λ (r : Option ℕ × WorkerPool). elim (r.0) [ none ↦ x | some y ↦ y ]) f in
    subst (IsPool a (job_of reactor_id completion ∷ h)) (ap (λ r. r.1) f) (
      subst
        (λ y. IsPool a (job_of reactor_id y ∷ h) (record p {
          channels = set p.channels reactor_id (record channel { completions = rest });
        }))
        same (popped-IsPool a h p k reactor_id x rest channel c e))

pops-IsPool :
    (a h : List Job) (p q : WorkerPool) (channel : Option CompletionChannel)
    (reactor_id completion : ℕ)
    → IsPool a h p
    → get_elem? p.channels reactor_id ≡ channel
    → pop_from channel reactor_id p ≡ (some completion, q)
    → IsPool a (job_of reactor_id completion ∷ h) q
unfolding pop_from
pops-IsPool a h p q none reactor_id completion k e f = absurd (none-some (ap (λ r. r.0) f))
pops-IsPool a h p q (some channel) reactor_id completion k e f =
    pop_front-IsPool a h p q channel.completions channel reactor_id completion k refl e f

-- Under every interleaving of submissions, threads, completions and `stop`: each work that was accepted
-- for a reactor is, as often as it was accepted for it, popped by that reactor, left without a
-- completion, queued for that reactor, in a thread that runs it for that reactor, or in the channel of
-- that reactor; at most 4096 jobs are queued; every job is for a reactor that has a channel; and once a
-- thread is past its loop, the pool stops and no job is queued.
pub Reaches-IsPool : (a h : List Job) (p : WorkerPool) → Reaches a h p → IsPool a h p
unfolding take_job publish_completion signal consume_completion_event pop_completion
Reaches-IsPool a h p (starts reactors workers hardware) = starts-IsPool reactors workers hardware
Reaches-IsPool a h p (submits b h' q p' reactor_id work r e) =
    let (t, u, same) = submit-accepted reactor_id work q p' e in
    subst (IsPool (job_of reactor_id work ∷ b) h') same
      (submits-IsPool b h' q (Reaches-IsPool b h' q r) reactor_id work t u)
Reaches-IsPool a h p (takes b h' q i r g) =
    takes-IsPool b h' q (Reaches-IsPool b h' q r) q.jobs i refl g
Reaches-IsPool a h p (drops b h' q i job r g) =
    drops-IsPool b h' q (Reaches-IsPool b h' q r) i job g
Reaches-IsPool a h p (publishes b h' q i job r g) =
    publishes-IsPool b h' q (Reaches-IsPool b h' q r) (get_elem? q.channels job.reactor_id) i job
      refl g
Reaches-IsPool a h p (signals b h' q written i reactor_id r g) =
    signals-IsPool b h' q (get_elem? q.channels reactor_id) written i reactor_id
      (Reaches-IsPool b h' q r) refl g
Reaches-IsPool a h p (consumes b h' q reactor_id r) =
    consumes-IsPool b h' q (Reaches-IsPool b h' q r) (get_elem? q.channels reactor_id) reactor_id
      refl
Reaches-IsPool a h p (pops b h' q p' reactor_id completion r f) =
    pops-IsPool b h' q p' (get_elem? q.channels reactor_id) reactor_id completion
      (Reaches-IsPool b h' q r) refl f
Reaches-IsPool a h p (stops b h' q r) = stops-IsPool b h' q (Reaches-IsPool b h' q r)

null-length : (workers : List Worker) → null workers ≡ false → 1 ≤ length workers
null-length [] e = cc
null-length (x ∷ workers) e = omega arith

is_finished-le : (workers : List Worker) → sum is_finished workers ≤ length workers
is_finished-le [] = omega arith
is_finished-le (ready ∷ workers) = omega (arith, is_finished-le workers)
is_finished-le (running job ∷ workers) = omega (arith, is_finished-le workers)
is_finished-le (publishing reactor_id ∷ workers) = omega (arith, is_finished-le workers)
is_finished-le (finished ∷ workers) = omega (arith, is_finished-le workers)

-- A thread past its loop holds no work.
finished-weight :
    (r w : ℕ) (workers : List Worker)
    → sum is_finished workers ≡ length workers
    → sum (worker_weight r w) workers ≡ 0
finished-weight r w [] e = refl
finished-weight r w (ready ∷ workers) e = absurd (omega (arith, e, is_finished-le workers))
finished-weight r w (running job ∷ workers) e = absurd (omega (arith, e, is_finished-le workers))
finished-weight r w (publishing reactor_id ∷ workers) e =
    absurd (omega (arith, e, is_finished-le workers))
finished-weight r w (finished ∷ workers) e =
    omega (arith, finished-weight r w workers (omega (arith, e)))

joined-empty :
    (a h : List Job) (p : WorkerPool)
    → IsPool a h p
    → sum is_finished p.workers ≡ length p.workers
    → p.jobs ≡ []
joined-empty a h p k j = elim (Bool-cases (null p.workers)) [
  | inl t ↦ k.staffed t
  | inr t ↦ (k.drained (omega (arith, j, null-length p.workers t))).1
]

-- When `stop` has joined its threads, all of them past their loop, no job is queued that it would clear:
-- every work that was accepted for a reactor has been done, and is popped by that reactor, left without a
-- completion, or in the channel of that reactor.
pub Reaches-joined :
    (a h : List Job) (p : WorkerPool)
    → Reaches a h p
    → sum is_finished p.workers ≡ length p.workers
    → (p.jobs ≡ [])
      × ((s w : ℕ) → count_jobs s w a ≡ count_jobs s w h + count w (waiting p.channels s))
Reaches-joined a h p r j =
    let k = Reaches-IsPool a h p r in
    let e = joined-empty a h p k j in
    (
      e,
      λ s w. omega (arith, k.conserved s w, ap (count_jobs s w) e, finished-weight s w p.workers j),
    )
