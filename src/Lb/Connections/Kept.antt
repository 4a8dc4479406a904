-- ===== src/Lb/Connections/Kept.antt =====
-- LoadBalancer.cpp: the connection counts when a connection is closed or fails over.
use aorta.Prelude.{
  ℕ, zero, suc, ◌+◌, ◌%◌, ◌≡◌, refl, Bool, true, false, not, ◌||◌, none, some, length, ◌==◌,
  if◌then◌else◌, Map, lookup, put, lookup-put, arith, Option-cases, Bool-cases, inl, inr,
}
use aorta.Lb.Backend.{is_healthy}
use aorta.Lb.Connections.Defs.{
  for_output, for_input, ConnectionPair, Balancer, drop_connection, take_connection, detach, forget,
  close_connection,
}
use aorta.Lb.Connections.Failover.{
  Attempt, connect_to_backend, fail_connection, count_failover, store_connection, at_backend,
  without_backend, give_up, attached, adopt, failover_attempt, failover_attempts,
  failover_connection, end_failover,
}
use aorta.Lb.Connections.Counted.{
  IsCounted, IsCounted-other, IsCounted-close, IsCounted-erase, IsCounted-drop, IsCounted-take,
  IsCounted-put,
}

abbrev pub Counted : Balancer → Type 0
Counted s = IsCounted s.connections s.backend_pool

-- The client's connection is there and holds no backend.
abbrev pub Detached : ℕ → Balancer → Type 0
Detached k s = (c : ConnectionPair) × (lookup k s.connections ≡ some c) × (c.backend_fd ≡ none)

if-Counted : (b : Bool) (x y : Balancer) → Counted x → Counted y → Counted (if b then x else y)
if-Counted true x y p q = p
if-Counted false x y p q = q

pub lookup-stored :
    (k : ℕ) (v : ConnectionPair) (m : Map ConnectionPair) → lookup k (put k v m) ≡ some v
lookup-stored k v m = ground (arith, lookup-put k k v m)

forget-Counted :
    (k : ℕ) (c : ConnectionPair) (s : Balancer)
    → lookup k s.connections ≡ some c
    → Counted s
    → Counted (forget k (detach c s))
unfolding forget detach
forget-Counted k c s e h = elim (Option-cases c.backend_fd) [
  | inl n ↦ rw (detach, n) (IsCounted-erase k c s.connections s.backend_pool e n h)
  | inr (fd, n) ↦ rw (detach, n) (IsCounted-close k c s.connections s.backend_pool fd e n h)
]

pub close_connection-Counted : (k : ℕ) (s : Balancer) → Counted s → Counted (close_connection k s)
unfolding close_connection
close_connection-Counted k s h = elim (Option-cases (lookup k s.connections)) [
  | inl e ↦ rw (close_connection, e) h
  | inr (c, e) ↦
      rw (close_connection, e)
        (if-Counted c.closing s (forget k (detach c s)) h (forget-Counted k c s e h))
]

module _ (k : ℕ) where
  give_up-Counted :
      (failed : ℕ) (c : ConnectionPair) (s : Balancer)
      → lookup k s.connections ≡ some c
      → c.backend_index ≡ failed
      → Counted s
      → Counted (give_up k failed c s)
  unfolding give_up store_connection at_backend without_backend drop_connection fail_connection
  give_up-Counted failed c s e same h = elim (Option-cases c.backend_fd) [
    | inl n ↦ rw (give_up, n) h
    | inr (fd, n) ↦
        rw (give_up, n, ← same)
          (IsCounted-drop k c (without_backend c) (λ b. fail_connection (drop_connection b))
            s.connections s.backend_pool fd e n refl (λ b. refl) h)
  ]

  give_up-Detached :
      (failed : ℕ) (c : ConnectionPair) (s : Balancer)
      → lookup k s.connections ≡ some c
      → Detached k (give_up k failed c s)
  unfolding give_up store_connection at_backend without_backend
  give_up-Detached failed c s e = elim (Option-cases c.backend_fd) [
    | inl n ↦ rw (give_up, n) (c, e, n)
    | inr (fd, n) ↦
        rw (give_up, n) (without_backend c, lookup-stored k (without_backend c) s.connections, refl)
  ]

  -- What an attempt leaves: the counts, and a detached connection unless the loop returns.
  abbrev pub Attempted : Bool × Balancer → Type 0
  Attempted r = Counted r.1 × (r.0 ≡ false → Detached k r.1)

  adopt-Attempted :
      (index fd : ℕ) (connecting added : Bool) (c : ConnectionPair) (s : Balancer)
      → lookup k s.connections ≡ some c
      → c.backend_fd ≡ none
      → Counted s
      → Attempted (added, adopt k index fd connecting added c s)
  unfolding adopt store_connection at_backend without_backend attached take_connection
      drop_connection count_failover
  adopt-Attempted index fd connecting true c s e n h = (
    IsCounted-take k c
        (record (attached index fd connecting c) {
          current_backend_events = some (if connecting then for_output else for_input);
        })
        (λ b. count_failover (take_connection b)) s.connections s.backend_pool fd e n refl
        (λ b. refl) h,
    λ f. cc,
  )
  adopt-Attempted index fd connecting false c s e n h =
      let free = without_backend (attached index fd connecting c) in
      (
        IsCounted-other index (λ b. drop_connection (take_connection b)) (put k free s.connections)
            s.backend_pool (λ b. omega arith)
            (IsCounted-put k c free s.connections s.backend_pool e n refl h),
        λ f. (free, lookup-stored k free s.connections, refl),
      )

  attempt-Attempted :
      (index : ℕ) (answer : Attempt) (s : Balancer)
      → Detached k s
      → Counted s
      → Attempted (failover_attempt k index answer s)
  unfolding failover_attempt at_backend fail_connection
  attempt-Attempted index answer s (c, e, n) h =
      elim (Option-cases (connect_to_backend answer.addresses)) [
        | inl t ↦
            rw (failover_attempt, t)
              (
                IsCounted-other index fail_connection s.connections s.backend_pool (λ b. refl) h,
                λ f. (c, e, n),
              )
        | inr (dialled, t) ↦
            rw (failover_attempt, t, e)
              (adopt-Attempted index dialled.0 dialled.1 answer.added c s e n h)
      ]

  attempts-Counted :
      (left attempt : ℕ) (answers : ℕ → Attempt) (failed : ℕ) (s : Balancer)
      → Detached k s
      → Counted s
      → Counted (failover_attempts left attempt answers k failed s).1
  unfolding failover_attempts
  attempts-Counted zero attempt answers failed s d h = h
  attempts-Counted (suc left) attempt answers failed s d h =
      let count = length s.backend_pool in
      let index = ((failed + 1) % count + attempt) % count in
      let r = failover_attempt k index (answers attempt) s in
      let (kept, free) = attempt-Attempted index (answers attempt) s d h in
      elim (index == failed || not (is_healthy s.backend_pool index))
        as (λ b.
          Counted
            (if b
              then failover_attempts left (attempt + 1) answers k failed s
              else if r.0
              then r
              else failover_attempts left (attempt + 1) answers k failed r.1).1) [
                | true ↦ attempts-Counted left (attempt + 1) answers failed s d h
                | false ↦ elim (Bool-cases r.0) [
                  | inl t ↦ rw (t) kept
                  | inr t ↦
                      rw (t) (attempts-Counted left (attempt + 1) answers failed r.1 (free t) kept)
                ]
              ]

  end_failover-Counted : (r : Bool × Balancer) → Counted r.1 → Counted (end_failover k r).1
  unfolding end_failover
  end_failover-Counted (true, t) h = h
  end_failover-Counted (false, t) h = close_connection-Counted k t h

  either-Counted :
      (b : Bool) (x y : Bool × Balancer)
      → Counted x.1
      → Counted y.1
      → let r : Bool × Balancer = if b then x else y in Counted r.1
  either-Counted true x y p q = p
  either-Counted false x y p q = q

  pub found-Counted :
      (failed : ℕ) (answers : ℕ → Attempt) (c : ConnectionPair) (s : Balancer)
      → lookup k s.connections ≡ some c
      → c.backend_index ≡ failed
      → Counted s
      → Counted (failover_connection k failed answers s).1
  unfolding failover_connection
  found-Counted failed answers c s e same h =
      let t = give_up k failed c s in
      let given = give_up-Counted failed c s e same h in
      let r = failover_attempts (length s.backend_pool) 0 answers k failed t in
      let tried =
        attempts-Counted (length s.backend_pool) 0 answers failed t (give_up-Detached failed c s e)
          given in
      rw (failover_connection, e)
        (either-Counted (length s.backend_pool == 0) (false, close_connection k t)
          (end_failover k r) (close_connection-Counted k t given) (end_failover-Counted r tried))
