-- ===== src/Lb/Connections/Connect.antt =====
-- LoadBalancer.cpp: connectClientToBackend.
use aorta.Prelude.{
  ℕ, zero, suc, ◌+◌, Bool, true, false, not, ◌&&◌, ◌||◌, Option, none, some, List, length,
  get_elem?, set, replicate, leb, if◌then◌else◌, lookup, put,
}
use aorta.Lb.Backend.{BackendPool, is_healthy, has_healthy_backend}
use aorta.Lb.ConsistentHash.Defs.{Ring}
use aorta.Lb.Selection.{
  RoutingMode, round_robin, consistent_hash, select_round_robin_backend, select_backend,
}
use aorta.Lb.Connections.Defs.{
  for_output, for_input, ConnectionPair, Balancer, drop_connection, take_connection,
}
use aorta.Lb.Connections.Failover.{
  Attempt, connect_to_backend, fail_connection, store_connection, at_backend, attached,
}

-- `attempted[index]`, for an index in range.
unfoldable pub was_attempted : List Bool → ℕ → Bool
was_attempted attempted index = elim (get_elem? attempted index) [ none ↦ false | some b ↦ b ]

-- The loop over the candidates, with `left` to come from number `candidate` on.
unfoldable pub find_alternate : ℕ → ℕ → List Bool → BackendPool → Option ℕ
unfolding was_attempted
find_alternate zero candidate attempted pool = none
find_alternate (suc left) candidate attempted pool =
    let rest = find_alternate left (candidate + 1) attempted pool in
    if not (was_attempted attempted candidate) && is_healthy pool candidate
    then some candidate
    else rest

-- The index for an attempt, `none` where the loop breaks, and `next_backend_index` afterwards.
unfoldable pub choose_index : RoutingMode → ℕ → ℕ → List Bool → BackendPool → ℕ → Option ℕ × ℕ
unfolding find_alternate select_round_robin_backend
choose_index mode zero initial_backend attempted pool next = (some initial_backend, next)
choose_index round_robin (suc attempt) initial_backend attempted pool next =
    let (index, after) = select_round_robin_backend pool next in
    (if leb (length pool) index then none else some index, after)
choose_index consistent_hash (suc attempt) initial_backend attempted pool next =
    (find_alternate (length pool) 0 attempted pool, next)

-- The end of the loop's body, from the assignment of `backend_fd` on.
unfoldable pub adopt_first : ℕ → ℕ → ℕ → Bool → Bool → ConnectionPair → Balancer → Balancer
unfolding store_connection at_backend attached take_connection drop_connection put
adopt_first client_fd index fd connecting true connection s = at_backend index take_connection (
    store_connection client_fd
      (record (attached index fd connecting connection) {
        current_backend_events = some (if connecting then for_output else for_input);
      })
      (record s { backend_to_client = put fd client_fd s.backend_to_client }))
adopt_first client_fd index fd connecting false connection s =
    at_backend index (λ b. drop_connection (take_connection b))
      (store_connection client_fd
        (record (attached index fd connecting connection) { backend_fd = none }) s)

-- The loop's body from `connectToBackend` on: whether it returns, and the state.
unfoldable pub connect_attempt : ℕ → ℕ → Attempt → Balancer → Bool × Balancer
unfolding adopt_first at_backend fail_connection connect_to_backend lookup
connect_attempt client_fd index answer s = elim (connect_to_backend answer.addresses) [
  | none ↦ (false, at_backend index fail_connection s)
  | some dialled ↦ elim (lookup client_fd s.connections) [
    | none ↦ (false, s)
    | some connection ↦
        (answer.added, adopt_first client_fd index dialled.0 dialled.1 answer.added connection s)
  ]
]

-- `index >= backend_count`, `attempted[index]` and `!backend.healthy`.
unfoldable pub is_skipped : List Bool → BackendPool → ℕ → Bool
unfolding was_attempted
is_skipped attempted pool index =
    leb (length pool) index || was_attempted attempted index || not (is_healthy pool index)

-- The loop, with `left` attempts to come from number `attempt` on: whether it returns from inside,
-- `next_backend_index`, and the state. `set` writes nothing for an index out of range.
unfoldable pub connect_attempts :
    ℕ → ℕ → RoutingMode → ℕ → List Bool → (ℕ → Attempt) → ℕ → ℕ → Balancer → Bool × ℕ × Balancer
unfolding choose_index connect_attempt is_skipped
connect_attempts zero attempt mode initial_backend attempted answers client_fd next s =
    (false, next, s)
connect_attempts (suc left) attempt mode initial_backend attempted answers client_fd next s =
    let chosen = choose_index mode attempt initial_backend attempted s.backend_pool next in
    elim (chosen.0) [
      | none ↦ (false, chosen.1, s)
      | some index ↦
          let marked = set attempted index true in
          if is_skipped attempted s.backend_pool index
          then connect_attempts left (attempt + 1) mode initial_backend marked answers client_fd
              chosen.1 s
          else let r = connect_attempt client_fd index (answers attempt) s in
            if r.0
            then (true, chosen.1, r.1)
            else connect_attempts left (attempt + 1) mode initial_backend marked answers client_fd
                chosen.1 r.1
    ]

unfoldable pub connect_client_to_backend :
    RoutingMode → Ring → (ℕ → Attempt) → ℕ → ℕ → Balancer → Bool × ℕ × Balancer
unfolding connect_attempts select_backend has_healthy_backend lookup
connect_client_to_backend mode ring answers client_fd next s =
    if not (has_healthy_backend s.backend_pool)
    then (false, next, s)
    else elim (lookup client_fd s.connections) [
      | none ↦ (false, next, s)
      | some connection ↦
          let chosen = select_backend mode ring s.backend_pool connection.client_ip next in
          elim (chosen.0) [
            | none ↦ (false, chosen.1, s)
            | some initial_backend ↦
                connect_attempts (length s.backend_pool) 0 mode initial_backend
                  (replicate (length s.backend_pool) false) answers client_fd chosen.1 s
          ]
    ]
