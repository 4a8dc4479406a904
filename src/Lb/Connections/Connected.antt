-- ===== src/Lb/Connections/Connected.antt =====
-- LoadBalancer.cpp: connectClientToBackend and the connection counts.
use aorta.Prelude.{
  ℕ, zero, suc, ◌+◌, ◌≡◌, refl, Bool, true, false, none, some, List, length, set, replicate,
  if◌then◌else◌, lookup, put, arith, Option-cases, Bool-cases, inl, inr,
}
use aorta.Lb.Backend.{has_healthy_backend}
use aorta.Lb.ConsistentHash.Defs.{Ring}
use aorta.Lb.Selection.{RoutingMode, select_backend}
use aorta.Lb.Connections.Defs.{
  for_output, for_input, ConnectionPair, Balancer, drop_connection, take_connection,
}
use aorta.Lb.Connections.Failover.{
  Attempt, connect_to_backend, fail_connection, store_connection, at_backend, attached,
}
use aorta.Lb.Connections.Connect.{
  adopt_first, connect_attempt, choose_index, is_skipped, connect_attempts,
  connect_client_to_backend,
}
use aorta.Lb.Connections.Counted.{IsCounted-other, IsCounted-take, IsCounted-put}
use aorta.Lb.Connections.Kept.{Counted, Detached, lookup-stored, Attempted}

module _ (k : ℕ) where
  adopt_first-Attempted :
      (index fd : ℕ) (connecting added : Bool) (c : ConnectionPair) (s : Balancer)
      → lookup k s.connections ≡ some c
      → c.backend_fd ≡ none
      → Counted s
      → Attempted k (added, adopt_first k index fd connecting added c s)
  unfolding adopt_first store_connection at_backend attached take_connection drop_connection
  adopt_first-Attempted index fd connecting true c s e n h = (
    IsCounted-take k c
        (record (attached index fd connecting c) {
          current_backend_events = some (if connecting then for_output else for_input);
        })
        take_connection s.connections s.backend_pool fd e n refl (λ b. refl) h,
    λ f. cc,
  )
  adopt_first-Attempted index fd connecting false c s e n h =
      let free : ConnectionPair = record (attached index fd connecting c) { backend_fd = none } in
      (
        IsCounted-other index (λ b. drop_connection (take_connection b)) (put k free s.connections)
            s.backend_pool (λ b. omega arith)
            (IsCounted-put k c free s.connections s.backend_pool e n refl h),
        λ f. (free, lookup-stored k free s.connections, refl),
      )

  connect_attempt-Attempted :
      (index : ℕ) (answer : Attempt) (s : Balancer)
      → Detached k s
      → Counted s
      → Attempted k (connect_attempt k index answer s)
  unfolding connect_attempt at_backend fail_connection
  connect_attempt-Attempted index answer s (c, e, n) h =
      elim (Option-cases (connect_to_backend answer.addresses)) [
        | inl t ↦
            rw (connect_attempt, t)
              (
                IsCounted-other index fail_connection s.connections s.backend_pool (λ b. refl) h,
                λ f. (c, e, n),
              )
        | inr (dialled, t) ↦
            rw (connect_attempt, t, e)
              (adopt_first-Attempted index dialled.0 dialled.1 answer.added c s e n h)
      ]

  either-Counted :
      (b : Bool) (x y : Bool × ℕ × Balancer)
      → Counted x.2
      → Counted y.2
      → let r : Bool × ℕ × Balancer = if b then x else y in Counted r.2
  either-Counted true x y p q = p
  either-Counted false x y p q = q

  connect_attempts-Counted :
      (left attempt : ℕ) (mode : RoutingMode) (first : ℕ) (attempted : List Bool)
      (answers : ℕ → Attempt) (next : ℕ) (s : Balancer)
      → Detached k s
      → Counted s
      → Counted (connect_attempts left attempt mode first attempted answers k next s).2
  unfolding connect_attempts
  connect_attempts-Counted zero attempt mode first attempted answers next s d h = h
  connect_attempts-Counted (suc left) attempt mode first attempted answers next s d h =
      elim (Option-cases (choose_index mode attempt first attempted s.backend_pool next).0) [
        | inl e ↦ rw (connect_attempts, e) h
        | inr (index, e) ↦
            let after = (choose_index mode attempt first attempted s.backend_pool next).1 in
            let marked = set attempted index true in
            let r = connect_attempt k index (answers attempt) s in
            let (kept, free) = connect_attempt-Attempted index (answers attempt) s d h in
            let again = λ (t : Balancer).
              connect_attempts left (attempt + 1) mode first marked answers k after t in
            rw (connect_attempts, e)
              (either-Counted (is_skipped attempted s.backend_pool index) (again s)
                (if r.0 then (true, after, r.1) else again r.1)
                (connect_attempts-Counted left (attempt + 1) mode first marked answers after s d h)
                (elim (Bool-cases r.0) [
                  | inl t ↦ rw (t) kept
                  | inr t ↦ rw (t) (
                      connect_attempts-Counted left (attempt + 1) mode first marked answers after
                        r.1 (free t) kept)
                ]))
      ]

-- Where each backend's `connection_count` is the number of connections that hold it, it is so after
-- `connectClientToBackend` for a client that holds no backend yet: in both routing modes, whatever the
-- system calls answer, and whether a backend is found or not.
pub connect_client_to_backend-Counted :
    (mode : RoutingMode) (ring : Ring) (answers : ℕ → Attempt) (k next : ℕ) (s : Balancer)
    → ((c : ConnectionPair) → lookup k s.connections ≡ some c → c.backend_fd ≡ none)
    → Counted s
    → Counted (connect_client_to_backend mode ring answers k next s).2
unfolding connect_client_to_backend
connect_client_to_backend-Counted mode ring answers k next s free h =
    elim (Bool-cases (has_healthy_backend s.backend_pool)) [
      | inr e ↦ rw (e) h
      | inl e ↦ elim (Option-cases (lookup k s.connections)) [
        | inl l ↦ rw (e, l) h
        | inr (c, l) ↦
            elim (Option-cases (select_backend mode ring s.backend_pool c.client_ip next).0) [
              | inl n ↦ rw (e, l, n) h
              | inr (first, n) ↦
                  rw (e, l, n)
                    (connect_attempts-Counted k (length s.backend_pool) 0 mode first
                      (replicate (length s.backend_pool) false) answers _ s (c, l, free c l) h)
            ]
      ]
    ]
