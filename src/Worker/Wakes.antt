-- ===== src/Worker/Wakes.antt =====
-- WorkerPool.cpp with Reactor.cpp's handleCompletions: the completions that wait and their signals.
use aorta.Prelude.{
  none-some, true-false, ℕ, zero, suc, ◌+◌, ◌≤◌, ◌≡◌, ◌≢◌, refl, sym, ap, subst, ◌∙◌, Bool, true,
  false, Option, none, some, List, [], ◌∷◌, ◌==◌, null, get_elem?, get_elem?-set_self,
  get_elem?-set_ne, get_elem?-lt, set, replicate, ℕ_discrete, if_intro, arith,
}
use aorta.Worker.Defs.{
  Job, CompletionChannel, Worker, ready, running, publishing, finished, WorkerPool, submit,
  take_job, take_from, drop_job, publish_completion, publish_on, push_completion, signal, signal_on,
  consume_completion_event, consume_from, pop_front, pop_from, pop_completion, begin_stop,
}
use aorta.Worker.Run.{new_pool, bit}
use aorta.Worker.Steps.{submit-accepted}
use aorta.Worker.Sums.{sum, sum-set}

-- The pool as reactor `r` sees it, where each write to an eventfd succeeds, and whether that reactor is in `handleCompletions`: it enters the
-- function with the reads of the eventfd and leaves it where no completion is left to pop.
pub data Serves (r : ℕ) : WorkerPool → Bool → Type 0 where
  starts : (reactors workers hardware : ℕ) → Serves r (new_pool reactors workers hardware) false
  submits :
      (p q : WorkerPool) (d : Bool) (reactor_id work : ℕ)
      → Serves r p d
      → submit reactor_id (some work) p ≡ (true, q)
      → Serves r q d
  takes :
      (p : WorkerPool) (d : Bool) (i : ℕ)
      → Serves r p d
      → get_elem? p.workers i ≡ some ready
      → Serves r (take_job i p) d
  drops :
      (p : WorkerPool) (d : Bool) (i : ℕ) (job : Job)
      → Serves r p d
      → get_elem? p.workers i ≡ some (running job)
      → Serves r (drop_job i p) d
  publishes :
      (p : WorkerPool) (d : Bool) (i : ℕ) (job : Job)
      → Serves r p d
      → get_elem? p.workers i ≡ some (running job)
      → Serves r (publish_completion i job p) d
  signals :
      (p : WorkerPool) (d : Bool) (i reactor_id : ℕ)
      → Serves r p d
      → get_elem? p.workers i ≡ some (publishing reactor_id)
      → Serves r (signal true i reactor_id p) d
  enters : (p : WorkerPool) (d : Bool) → Serves r p d → Serves r (consume_completion_event r p) true
  handles :
      (p q : WorkerPool) (completion : ℕ)
      → Serves r p true
      → pop_completion r p ≡ (some completion, q)
      → Serves r q true
  leaves : (p q : WorkerPool) → Serves r p true → pop_completion r p ≡ (none, q) → Serves r q false
  others_consume :
      (p : WorkerPool) (d : Bool) (s : ℕ)
      → Serves r p d
      → s ≢ r
      → Serves r (consume_completion_event s p) d
  others_pop :
      (p : WorkerPool) (d : Bool) (s : ℕ) → Serves r p d → s ≢ r → Serves r (pop_completion s p).1 d
  stops : (p : WorkerPool) (d : Bool) → Serves r p d → Serves r (begin_stop p) d

-- The threads that are about to signal a reactor.
abbrev pub publishing_to : ℕ → Worker → ℕ
publishing_to r (publishing reactor_id) = bit (reactor_id == r)
publishing_to r _ = 0

-- Where a completion waits for the reactor, its eventfd is readable, a thread is about to make it so, or
-- the reactor is in `handleCompletions`.
abbrev pub IsAwake : ℕ → WorkerPool → Bool → Type 0
IsAwake r p d =
    (channel : CompletionChannel)
    → get_elem? p.channels r ≡ some channel
    → null channel.completions ≡ false
    → 1 ≤ channel.event + sum (publishing_to r) p.workers + bit d

bit_same : (i j : ℕ) → i ≡ j → bit (i == j) ≡ 1
bit_same i j e = ground arith

bit_other : (i j : ℕ) → i ≢ j → bit (i == j) ≡ 0
bit_other i j e = ground arith

abbrev event_of : Option CompletionChannel → ℕ
event_of none = 0
event_of (some c) = c.event

abbrev null_of : Option CompletionChannel → Bool
null_of none = true
null_of (some c) = null c.completions

no_completions :
    (n i : ℕ) {c : CompletionChannel}
    → get_elem? (replicate n (record { completions = []; event = 0 })) i ≡ some c
    → null c.completions ≡ false
    → true ≡ false
no_completions zero i e f = absurd (none-some e)
no_completions (suc n) zero e f = ap null_of e ∙ f
no_completions (suc n) (suc i) e f = no_completions n i e f

module _ (r : ℕ) (d : Bool) (p : WorkerPool) (k : IsAwake r p d) where
  -- A thread that signals nobody, before and after.
  moves-IsAwake :
      (i : ℕ) (v w : Worker) (jobs : List Job)
      → get_elem? p.workers i ≡ some w
      → publishing_to r w ≡ publishing_to r v
      → IsAwake r (record p { jobs = jobs; workers = set p.workers i v }) d
  moves-IsAwake i v w jobs g same channel e f =
      omega (arith, k channel e f, same, sum-set (publishing_to r) p.workers i v g)

  takes-IsAwake :
      (jobs : List Job) (i : ℕ)
      → get_elem? p.workers i ≡ some ready
      → IsAwake r (take_from jobs i p) d
  unfolding take_from
  takes-IsAwake [] i g =
      if_intro (λ (q : WorkerPool). IsAwake r q d) p.stopping
        (λ t. moves-IsAwake i finished ready p.jobs g refl) (λ t. k)
  takes-IsAwake (job ∷ jobs) i g = moves-IsAwake i (running job) ready jobs g refl

  -- What another reactor's channel holds does not matter.
  elsewhere-IsAwake :
      (s : ℕ) (v : CompletionChannel)
      → s ≢ r
      → IsAwake r (record p { channels = set p.channels s v }) d
  elsewhere-IsAwake s v ne channel e f =
      k channel (sym (get_elem?-set_ne p.channels s r v ne) ∙ e) f

  publishes-IsAwake :
      (channel : Option CompletionChannel) (i : ℕ) (job : Job)
      → get_elem? p.workers i ≡ some (running job)
      → IsAwake r (publish_on channel i job p) d
  unfolding publish_on
  publishes-IsAwake none i job g = moves-IsAwake i ready (running job) p.jobs g refl
  publishes-IsAwake (some c) i job g = λ channel e f. elim (ℕ_discrete job.reactor_id r) [
    | yes same ↦ omega (
      arith,
      sum-set (publishing_to r) p.workers i (publishing job.reactor_id) g,
      bit_same job.reactor_id r same,
    )
    | no ne ↦ omega (
      arith,
      k channel
          (sym (get_elem?-set_ne p.channels job.reactor_id r (push_completion job.work c) ne) ∙ e)
          f,
      sum-set (publishing_to r) p.workers i (publishing job.reactor_id) g,
    )
  ]

  signals-IsAwake :
      (channel : Option CompletionChannel) (i s : ℕ)
      → get_elem? p.channels s ≡ channel
      → get_elem? p.workers i ≡ some (publishing s)
      → IsAwake r (signal_on channel true i s p) d
  unfolding signal_on
  signals-IsAwake none i s h g = λ channel e f. elim (ℕ_discrete s r) [
    | yes same ↦ absurd (none-some (sym h ∙ ap (get_elem? p.channels) same ∙ e))
    | no ne ↦
        omega
          (arith, k channel e f, sum-set (publishing_to r) p.workers i ready g, bit_other s r ne)
  ]
  signals-IsAwake (some c) i s h g = λ channel e f.
      let counted : CompletionChannel = record c { event = suc c.event } in
      elim (ℕ_discrete s r) [
        | yes same ↦
            let found = get_elem?-set_self p.channels s counted (get_elem?-lt p.channels s h) in
            let there = sym found ∙ ap (get_elem? (set p.channels s counted)) same ∙ e in
            omega (arith, ap event_of there)
        | no ne ↦ omega (
          arith,
          k channel (sym (get_elem?-set_ne p.channels s r counted ne) ∙ e) f,
          sum-set (publishing_to r) p.workers i ready g,
          bit_other s r ne,
        )
      ]

  consumes-IsAwake :
      (channel : Option CompletionChannel) (s : ℕ) → s ≢ r → IsAwake r (consume_from channel s p) d
  unfolding consume_from
  consumes-IsAwake none s ne = k
  consumes-IsAwake (some c) s ne = elsewhere-IsAwake s _ ne

  pop_front-IsAwake :
      (completions : List ℕ) (s : ℕ) (c : CompletionChannel)
      → s ≢ r
      → IsAwake r (pop_front completions s c p).1 d
  pop_front-IsAwake [] s c ne = k
  pop_front-IsAwake (x ∷ rest) s c ne = elsewhere-IsAwake s _ ne

  pops-IsAwake :
      (channel : Option CompletionChannel) (s : ℕ) → s ≢ r → IsAwake r (pop_from channel s p).1 d
  unfolding pop_from
  pops-IsAwake none s ne = k
  pops-IsAwake (some c) s ne = pop_front-IsAwake c.completions s c ne

-- A pop that finds nothing finds no completion that waits.
pop_front-empty :
    (r : ℕ) (p q : WorkerPool) (completions : List ℕ) (c : CompletionChannel)
    → c.completions ≡ completions
    → get_elem? p.channels r ≡ some c
    → pop_front completions r c p ≡ (none, q)
    → IsAwake r q false
pop_front-empty r p q [] c h g e =
    subst (λ x. IsAwake r x false) (ap (λ x. x.1) e)
      (λ channel f n. absurd (true-false (sym (ap null h) ∙ ap null_of (sym g ∙ f) ∙ n)))
pop_front-empty r p q (x ∷ rest) c h g e = absurd (none-some (sym (ap (λ y. y.0) e)))

leaves-IsAwake :
    (r : ℕ) (p q : WorkerPool) (channel : Option CompletionChannel)
    → get_elem? p.channels r ≡ channel
    → pop_from channel r p ≡ (none, q)
    → IsAwake r q false
unfolding pop_from
leaves-IsAwake r p q none g e =
    subst (λ x. IsAwake r x false) (ap (λ x. x.1) e) (λ channel f n. absurd (none-some (sym g ∙ f)))
leaves-IsAwake r p q (some c) g e = pop_front-empty r p q c.completions c refl g e

starts-IsAwake :
    (r reactors : ℕ) (p : WorkerPool)
    → p.channels ≡ replicate reactors (record { completions = []; event = 0 })
    → IsAwake r p false
starts-IsAwake r reactors p h channel e f =
    absurd (true-false (no_completions reactors r (sym (ap (λ c. get_elem? c r) h) ∙ e) f))

-- Under every interleaving in which the writes to the eventfds succeed, where a completion waits for a reactor, that reactor's eventfd is readable, a
-- thread is about to make it so, or the reactor is popping completions: none waits unnoticed.
pub Serves-IsAwake : (r : ℕ) (p : WorkerPool) (d : Bool) → Serves r p d → IsAwake r p d
unfolding take_job drop_job publish_completion signal consume_completion_event pop_completion
    begin_stop
Serves-IsAwake r p d (starts reactors workers hardware) =
    starts-IsAwake r reactors (new_pool reactors workers hardware) refl
Serves-IsAwake r p d (submits q q' d' reactor_id work s e) =
    let (t, u, same) = submit-accepted reactor_id work q q' e in
    subst (λ x. IsAwake r x d') same (Serves-IsAwake r q d' s)
Serves-IsAwake r p d (takes q d' i s g) = takes-IsAwake r d' q (Serves-IsAwake r q d' s) q.jobs i g
Serves-IsAwake r p d (drops q d' i job s g) =
    moves-IsAwake r d' q (Serves-IsAwake r q d' s) i ready (running job) q.jobs g refl
Serves-IsAwake r p d (publishes q d' i job s g) =
    publishes-IsAwake r d' q (Serves-IsAwake r q d' s) (get_elem? q.channels job.reactor_id) i job g
Serves-IsAwake r p d (signals q d' i j s g) =
    signals-IsAwake r d' q (Serves-IsAwake r q d' s) (get_elem? q.channels j) i j refl g
Serves-IsAwake r p d (enters q d' s) = λ channel e f. omega arith
Serves-IsAwake r p d (handles q q' completion s e) = λ channel f n. omega arith
Serves-IsAwake r p d (leaves q q' s e) = leaves-IsAwake r q q' (get_elem? q.channels r) refl e
Serves-IsAwake r p d (others_consume q d' j s ne) =
    consumes-IsAwake r d' q (Serves-IsAwake r q d' s) (get_elem? q.channels j) j ne
Serves-IsAwake r p d (others_pop q d' j s ne) =
    pops-IsAwake r d' q (Serves-IsAwake r q d' s) (get_elem? q.channels j) j ne
Serves-IsAwake r p d (stops q d' s) = Serves-IsAwake r q d' s
