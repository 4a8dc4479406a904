-- ===== src/Worker/Steps.antt =====
-- WorkerPool.cpp: what each step keeps.
use aorta.Prelude.{
  none-some, true-false, ℕ, zero, suc, ◌+◌, ◌≤◌, ◌<◌, ◌≡◌, refl, sym, ap, ◌∙◌, Bool, true, false,
  ◌||◌, Option, none, some, List, [], ◌∷◌, ◌++◌, if◌then◌else◌, ◌==◌, leb, null, length,
  length-append, length-set, get_elem?, get_elem?-some, set, replicate, Bool-cases, inl, inr,
  if_intro, arith,
}
use aorta.Worker.Defs.{
  max_queued_jobs, Job, CompletionChannel, Worker, ready, running, publishing, finished, WorkerPool,
  submit, drop_job, push_completion, take_from, publish_on, set_event, consume_from, begin_stop,
}
use aorta.Worker.Sums.{sum, sum-append, sum-set}
use aorta.Worker.Channels.{no_completions, count-waiting, when-add}
use aorta.Worker.Run.{
  default_workers, new_pool, bit, count, job_weight, worker_weight, job_stray, worker_stray,
  is_finished, IsPool,
}

refused-true : {p q : WorkerPool} → ◌≡◌ {A = Bool × WorkerPool} (false, p) (true, q) → ⊥
refused-true e = cc

pub submit-accepted :
    (reactor_id work : ℕ) (p q : WorkerPool)
    → submit reactor_id (some work) p ≡ (true, q)
    → (leb (length p.channels) reactor_id ≡ false)
      × ((p.stopping || null p.workers || leb max_queued_jobs (length p.jobs)) ≡ false)
      × (record p { jobs = p.jobs ++ (record { reactor_id = reactor_id; work = work }) ∷ [] } ≡ q)
unfolding submit
submit-accepted reactor_id work p q e = elim (Bool-cases (leb (length p.channels) reactor_id)) [
  | inl t ↦ absurd (refused-true (rw t at e))
  | inr t ↦
      elim (Bool-cases (p.stopping || null p.workers || leb max_queued_jobs (length p.jobs))) [
        | inl u ↦ absurd (refused-true (rw (t, u) at e))
        | inr u ↦ (t, u, ap (λ r. r.1) (rw (t, u) at e))
      ]
]

null-set : (workers : List Worker) (i : ℕ) (v : Worker) → null (set workers i v) ≡ null workers
null-set [] i v = refl
null-set (x ∷ workers) zero v = refl
null-set (x ∷ workers) (suc i) v = refl

sum-replicate : {A : Type 0} (f : A → ℕ) (x : A) (n : ℕ) → f x ≡ 0 → sum f (replicate n x) ≡ 0
sum-replicate f x zero e = refl
sum-replicate f x (suc n) e = omega (arith, e, sum-replicate f x n e)

pub starts-IsPool :
    (reactors workers hardware : ℕ) → IsPool [] [] (new_pool reactors workers hardware)
starts-IsPool reactors workers hardware =
    let n = if workers == 0 then default_workers hardware else workers in
    record {
      conserved = λ r w.
          omega
            (arith, sum-replicate (worker_weight r w) ready n refl, no_completions w r reactors);
      bounded = omega arith;
      placed = omega (
        arith,
        sum-replicate (worker_stray (length (new_pool reactors workers hardware).channels)) ready n
            refl,
      );
      drained = λ t. absurd (omega (arith, t, sum-replicate is_finished ready n refl));
      staffed = λ t. refl;
    }

no_jobs : {job : Job} {jobs : List Job} → job ∷ jobs ≡ [] → ⊥
no_jobs e = cc

or_false : (b c : Bool) → (b || c) ≡ false → (b ≡ false) × (c ≡ false)
or_false true c e = cc
or_false false c e = (refl, e)

room : (most n : ℕ) → leb most n ≡ false → n < most
room most n h = ground arith

inside : (n i : ℕ) → bit (leb n i) ≡ 0 → i < n
inside n i h = ground arith

missing : {A : Type 0} (xs : List A) (i : ℕ) → i < length xs → get_elem? xs i ≡ none → ⊥
missing xs i h e = let (x, f) = get_elem?-some xs i h in none-some (sym e ∙ f)

module _ (a h : List Job) (p : WorkerPool) (k : IsPool a h p) where
  pub submits-IsPool :
      (reactor_id work : ℕ)
      → leb (length p.channels) reactor_id ≡ false
      → (p.stopping || null p.workers || leb max_queued_jobs (length p.jobs)) ≡ false
      → IsPool
          ((record { reactor_id = reactor_id; work = work }) ∷ a)
          h
          (record p { jobs = p.jobs ++ (record { reactor_id = reactor_id; work = work }) ∷ [] })
  submits-IsPool reactor_id work t u =
      let job : Job = record { reactor_id = reactor_id; work = work } in
      let (accepting, free) =
        or_false (p.stopping || null p.workers) (leb max_queued_jobs (length p.jobs)) u in
      let (going, manned) = or_false p.stopping (null p.workers) accepting in
      let n = length p.channels in
      record {
        conserved =
            λ r w. omega (arith, k.conserved r w, sum-append (job_weight r w) p.jobs (job ∷ []));
        bounded =
            omega
              (arith, length-append p.jobs (job ∷ []), room max_queued_jobs (length p.jobs) free);
        placed = omega (arith, k.placed, ap bit t, sum-append (job_stray n) p.jobs (job ∷ []));
        drained = λ x. absurd (true-false (sym (k.drained x).0 ∙ going));
        staffed = λ x. absurd (true-false (sym x ∙ manned));
      }

  -- A thread moves on, and what it held goes elsewhere.
  pub takes-IsPool :
      (jobs : List Job) (i : ℕ)
      → p.jobs ≡ jobs
      → get_elem? p.workers i ≡ some ready
      → IsPool a h (take_from jobs i p)
  unfolding take_from
  takes-IsPool [] i e g =
      if_intro (IsPool a h) p.stopping
        (λ t. record {
          conserved = λ r w.
              omega (arith, k.conserved r w, sum-set (worker_weight r w) p.workers i finished g);
          bounded = k.bounded;
          placed =
              omega (
                arith,
                k.placed,
                sum-set (worker_stray (length p.channels)) p.workers i finished g,
              );
          drained = λ _. (t, e);
          staffed = λ _. e;
        })
        (λ t. k)
  takes-IsPool (job ∷ jobs) i e g = record {
    conserved = λ r w. omega (
      arith,
      k.conserved r w,
      ap (sum (job_weight r w)) e,
      sum-set (worker_weight r w) p.workers i (running job) g,
    );
    bounded = omega (arith, k.bounded, ap length e);
    placed = omega (
      arith,
      k.placed,
      ap (sum (job_stray (length p.channels))) e,
      sum-set (worker_stray (length p.channels)) p.workers i (running job) g,
    );
    drained = λ t. absurd (
        no_jobs (
          sym e
          ∙ (k.drained (omega (arith, t, sum-set is_finished p.workers i (running job) g))).1));
    staffed =
        λ t. absurd (no_jobs (sym e ∙ k.staffed (sym (null-set p.workers i (running job)) ∙ t)));
  }

  -- A running thread that leaves its job: what follows for the bookkeeping but the works.
  left-drained :
      (i : ℕ) (v w : Worker)
      → get_elem? p.workers i ≡ some w
      → is_finished v ≡ 0
      → 1 ≤ sum is_finished (set p.workers i v)
      → (p.stopping ≡ true) × (p.jobs ≡ [])
  left-drained i v w g z t = k.drained (omega (arith, t, z, sum-set is_finished p.workers i v g))

  left-staffed : (i : ℕ) (v : Worker) → null (set p.workers i v) ≡ true → p.jobs ≡ []
  left-staffed i v t = k.staffed (sym (null-set p.workers i v) ∙ t)

  left-placed :
      (i : ℕ) (v w : Worker)
      → get_elem? p.workers i ≡ some w
      → worker_stray (length p.channels) v ≡ 0
      → sum (job_stray (length p.channels)) p.jobs
          + sum (worker_stray (length p.channels)) (set p.workers i v)
        ≡ 0
  left-placed i v w g z =
      omega (arith, k.placed, z, sum-set (worker_stray (length p.channels)) p.workers i v g)

  pub drops-IsPool :
      (i : ℕ) (job : Job)
      → get_elem? p.workers i ≡ some (running job)
      → IsPool a (job ∷ h) (drop_job i p)
  unfolding drop_job
  drops-IsPool i job g = record {
    conserved =
        λ r w. omega (arith, k.conserved r w, sum-set (worker_weight r w) p.workers i ready g);
    bounded = k.bounded;
    placed = left-placed i ready (running job) g refl;
    drained = left-drained i ready (running job) g refl;
    staffed = left-staffed i ready;
  }

  -- The job of a running thread is for a reactor that has a channel.
  running-inside :
      (i : ℕ) (job : Job)
      → get_elem? p.workers i ≡ some (running job)
      → job.reactor_id < length p.channels
  running-inside i job g =
      inside (length p.channels) job.reactor_id
        (omega (arith, k.placed, sum-set (worker_stray (length p.channels)) p.workers i ready g))

  pub publishes-IsPool :
      (channel : Option CompletionChannel) (i : ℕ) (job : Job)
      → get_elem? p.channels job.reactor_id ≡ channel
      → get_elem? p.workers i ≡ some (running job)
      → IsPool a h (publish_on channel i job p)
  unfolding publish_on
  publishes-IsPool none i job e g =
      absurd (missing p.channels job.reactor_id (running-inside i job g) e)
  publishes-IsPool (some channel) i job e g =
      let pushed = push_completion job.work channel in
      let moved = publishing job.reactor_id in
      record {
        conserved = λ r w. omega (
          arith,
          k.conserved r w,
          sum-set (worker_weight r w) p.workers i moved g,
          count-waiting r w p.channels job.reactor_id pushed e,
          when-add (job.reactor_id == r) (count w pushed.completions) (count w channel.completions)
              (bit (job.work == w))
              (omega (arith, sum-append (λ x. bit (x == w)) channel.completions (job.work ∷ []))),
        );
        bounded = k.bounded;
        placed =
            ap (λ n. sum (job_stray n) p.jobs + sum (worker_stray n) (set p.workers i moved))
              (length-set p.channels job.reactor_id pushed)
            ∙ left-placed i moved (running job) g refl;
        drained = left-drained i moved (running job) g refl;
        staffed = left-staffed i moved;
      }

  -- A channel whose completions stay.
  pub set_event-IsPool :
      (event reactor_id : ℕ) (channel : CompletionChannel)
      → get_elem? p.channels reactor_id ≡ some channel
      → IsPool a h (set_event event reactor_id channel p)
  set_event-IsPool event reactor_id channel e =
      let counted : CompletionChannel = record channel { event = event } in
      record {
        conserved = λ r w.
            omega (arith, k.conserved r w, count-waiting r w p.channels reactor_id counted e);
        bounded = k.bounded;
        placed =
            ap (λ n. sum (job_stray n) p.jobs + sum (worker_stray n) p.workers)
              (length-set p.channels reactor_id counted)
            ∙ k.placed;
        drained = k.drained;
        staffed = k.staffed;
      }

  pub idles-IsPool :
      (i reactor_id : ℕ)
      → get_elem? p.workers i ≡ some (publishing reactor_id)
      → IsPool a h (record p { workers = set p.workers i ready })
  idles-IsPool i reactor_id g = record {
    conserved =
        λ r w. omega (arith, k.conserved r w, sum-set (worker_weight r w) p.workers i ready g);
    bounded = k.bounded;
    placed = left-placed i ready (publishing reactor_id) g refl;
    drained = left-drained i ready (publishing reactor_id) g refl;
    staffed = left-staffed i ready;
  }

  pub consumes-IsPool :
      (channel : Option CompletionChannel) (reactor_id : ℕ)
      → get_elem? p.channels reactor_id ≡ channel
      → IsPool a h (consume_from channel reactor_id p)
  unfolding consume_from
  consumes-IsPool none reactor_id e = k
  consumes-IsPool (some channel) reactor_id e = set_event-IsPool 0 reactor_id channel e

  pub stops-IsPool : IsPool a h (begin_stop p)
  unfolding begin_stop
  stops-IsPool = record {
    conserved = k.conserved;
    bounded = k.bounded;
    placed = k.placed;
    drained = λ t. (refl, (k.drained t).1);
    staffed = k.staffed;
  }

  pub popped-IsPool :
      (reactor_id completion : ℕ) (rest : List ℕ) (channel : CompletionChannel)
      → channel.completions ≡ completion ∷ rest
      → get_elem? p.channels reactor_id ≡ some channel
      → IsPool a ((record { reactor_id = reactor_id; work = completion }) ∷ h) (record p {
        channels = set p.channels reactor_id (record channel { completions = rest });
      })
  popped-IsPool reactor_id completion rest channel c e =
      let left : CompletionChannel = record channel { completions = rest } in
      record {
        conserved = λ r w. omega (
          arith,
          k.conserved r w,
          when-add (reactor_id == r) (count w channel.completions) (bit (completion == w))
              (count w rest) (ap (count w) c),
          count-waiting r w p.channels reactor_id left e,
        );
        bounded = k.bounded;
        placed =
            ap (λ n. sum (job_stray n) p.jobs + sum (worker_stray n) p.workers)
              (length-set p.channels reactor_id left)
            ∙ k.placed;
        drained = k.drained;
        staffed = k.staffed;
      }
