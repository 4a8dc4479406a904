-- ===== src/Lb/Connections/Accounts.antt =====
-- LoadBalancer.cpp: what closing a connection and failing over keep, as its callers see it.
use aorta.Prelude.{
  ℕ, ◌-◌, ◌<◌, ◌≡◌, refl, [], ◌∷◌, Map, total, length, arith, some, none, inl, inr, lookup,
  Option-cases,
}
use aorta.Lb.Connections.Defs.{
  ConnectionPair, Balancer, drop_connection, detach_all, close_all_connections,
}
use aorta.Lb.Backend.{Backend, modify, length-modify}
use aorta.Lb.Connections.Counted.{IsCounted, count_at, weight, count_at-modify}
use aorta.Lb.Connections.Failover.{Attempt, failover_connection}
use aorta.Lb.Connections.Kept.{Counted, found-Counted}

absent-Counted :
    (k failed : ℕ) (answers : ℕ → Attempt) (s : Balancer)
    → lookup k s.connections ≡ none
    → Counted s
    → Counted (failover_connection k failed answers s).1
unfolding failover_connection
absent-Counted k failed answers s e h = rw (failover_connection, e) h

-- Where each backend's `connection_count` is the number of connections that hold it, it is so after
-- `failoverConnection`, called with the index of the connection's backend as all callers do: whatever
-- the system calls answer, on each of its ways out, with the connection moved, closed or not found.
pub failover_connection-Counted :
    (k failed : ℕ) (answers : ℕ → Attempt) (s : Balancer)
    → ((c : ConnectionPair) → lookup k s.connections ≡ some c → c.backend_index ≡ failed)
    → Counted s
    → Counted (failover_connection k failed answers s).1
failover_connection-Counted k failed answers s same h =
    elim (Option-cases (lookup k s.connections)) [
      | inl e ↦ absent-Counted k failed answers s e h
      | inr (c, e) ↦ found-Counted k failed answers c s e (same c e) h
    ]

drop_connection-count :
    (b : Backend) → (drop_connection b).connection_count ≡ b.connection_count - 1
unfolding drop_connection
drop_connection-count b = refl

detach_all-count_at :
    (m : Map ConnectionPair) (s : Balancer) (j : ℕ)
    → j < length s.backend_pool
    → count_at (detach_all m s).backend_pool j ≡ count_at s.backend_pool j - total (weight j) m
unfolding detach_all weight
detach_all-count_at [] s j h = omega arith
detach_all-count_at ((k, c) ∷ m) s j h = elim (Option-cases c.backend_fd) [
  | inl n ↦ rw (n) (omega (arith, detach_all-count_at m s j h))
  | inr (fd, n) ↦
      let i = c.backend_index in
      let t : Balancer = record s { backend_pool = modify i drop_connection s.backend_pool } in
      rw (n) (
        ground (
          arith,
          detach_all-count_at m t j,
          length-modify i drop_connection s.backend_pool,
          count_at-modify i drop_connection (λ x. x - 1) s.backend_pool j (drop_connection-count) h,
        ))
]

-- Where each backend's `connection_count` is the number of connections that hold it, it is 0 for every
-- backend after `closeAllConnections`.
pub close_all_connections-count_at :
    (s : Balancer) (i : ℕ)
    → Counted s
    → i < length s.backend_pool
    → count_at (close_all_connections s).backend_pool i ≡ 0
unfolding close_all_connections IsCounted
close_all_connections-count_at s i h below =
    omega (arith, h i below, detach_all-count_at s.connections s i below)
