-- ===== src/Lb/Connections/Failover.antt =====
-- LoadBalancer.cpp: connectToBackend and failoverConnection.
use aorta.Prelude.{
  ℕ, zero, suc, ◌+◌, ◌%◌, Bool, true, false, not, ◌||◌, Option, none, some, List, [], ◌∷◌, length,
  ◌==◌, if◌then◌else◌, lookup, put, erase,
}
use aorta.Lb.Backend.{Backend, modify, is_healthy}
use aorta.Lb.Connections.Defs.{
  for_output, for_input, ConnectionPair, Balancer, drop_connection, take_connection,
  close_connection,
}

-- What the calls for one address answer: `socket` fails; `setNoDelay` fails; or `connect` succeeds, is
-- in progress or fails, on the descriptor that `socket` returned.
pub data Address : Type 0 where
  no_socket : Address
  no_delay_refused : Address
  connect_refused : Address
  connect_done : ℕ → Address
  connect_in_progress : ℕ → Address

-- The descriptor, and `connecting`; `none` is -1. The addresses are what `getaddrinfo` lists, none
-- where it fails.
unfoldable pub connect_to_backend : List Address → Option (ℕ × Bool)
connect_to_backend [] = none
connect_to_backend (no_socket ∷ addresses) = connect_to_backend addresses
connect_to_backend (no_delay_refused ∷ addresses) = connect_to_backend addresses
connect_to_backend (connect_refused ∷ addresses) = connect_to_backend addresses
connect_to_backend (connect_done fd ∷ addresses) = some (fd, false)
connect_to_backend (connect_in_progress fd ∷ addresses) = some (fd, true)

-- What is answered to one attempt: the addresses, and whether `epoll.add` succeeds.
pub record Attempt : Type 0 where
  pub addresses : List Address
  pub added : Bool

unfoldable pub fail_connection : Backend → Backend
fail_connection b = record b { failed_connections = b.failed_connections + 1 }

unfoldable pub count_failover : Backend → Backend
count_failover b = record b { failovers = b.failovers + 1 }

-- Writes to the connection that `connections.find` returned, and to a backend.
unfoldable pub store_connection : ℕ → ConnectionPair → Balancer → Balancer
unfolding put
store_connection client_fd connection s = record s {
  connections = put client_fd connection s.connections;
}

unfoldable pub at_backend : ℕ → (Backend → Backend) → Balancer → Balancer
unfolding modify
at_backend index f s = record s { backend_pool = modify index f s.backend_pool }

unfoldable pub without_backend : ConnectionPair → ConnectionPair
without_backend connection = record connection {
  backend_fd = none;
  backend_connecting = false;
  current_backend_events = none;
}

-- The first part of `failoverConnection`, which gives the old backend up.
unfoldable pub give_up : ℕ → ℕ → ConnectionPair → Balancer → Balancer
unfolding store_connection at_backend without_backend drop_connection fail_connection erase
give_up client_fd failed_index connection s = elim (connection.backend_fd) [
  | none ↦ s
  | some fd ↦ store_connection client_fd (without_backend connection) (
      at_backend failed_index (λ b. fail_connection (drop_connection b))
        (record s { backend_to_client = erase fd s.backend_to_client }))
]

unfoldable pub attached : ℕ → ℕ → Bool → ConnectionPair → ConnectionPair
attached index fd connecting connection = record connection {
  backend_fd = some fd;
  backend_index = index;
  backend_connecting = connecting;
}

-- The end of the loop's body, from the assignment of `backend_fd` on: whether it returns, and the
-- state.
unfoldable pub adopt : ℕ → ℕ → ℕ → Bool → Bool → ConnectionPair → Balancer → Balancer
unfolding store_connection at_backend attached without_backend take_connection drop_connection
    count_failover put
adopt client_fd index fd connecting true connection s =
    at_backend index (λ b. count_failover (take_connection b))
      (store_connection client_fd
        (record (attached index fd connecting connection) {
          current_backend_events = some (if connecting then for_output else for_input);
        })
        (record s { backend_to_client = put fd client_fd s.backend_to_client }))
adopt client_fd index fd connecting false connection s =
    at_backend index (λ b. drop_connection (take_connection b))
      (store_connection client_fd (without_backend (attached index fd connecting connection)) s)

-- The loop's body from `connectToBackend` on. The reference to the connection that the loop writes
-- through is found again by its key.
unfoldable pub failover_attempt : ℕ → ℕ → Attempt → Balancer → Bool × Balancer
unfolding adopt at_backend fail_connection connect_to_backend lookup
failover_attempt client_fd index answer s = elim (connect_to_backend answer.addresses) [
  | none ↦ (false, at_backend index fail_connection s)
  | some dialled ↦ elim (lookup client_fd s.connections) [
    | none ↦ (false, s)
    | some connection ↦
        (answer.added, adopt client_fd index dialled.0 dialled.1 answer.added connection s)
  ]
]

-- The loop of `failoverConnection`, with `left` attempts to come from number `attempt` on: whether it
-- returns, and the state.
unfoldable pub failover_attempts : ℕ → ℕ → (ℕ → Attempt) → ℕ → ℕ → Balancer → Bool × Balancer
unfolding failover_attempt
failover_attempts zero attempt answers client_fd failed_index s = (false, s)
failover_attempts (suc left) attempt answers client_fd failed_index s =
    let count = length s.backend_pool in
    let index = ((failed_index + 1) % count + attempt) % count in
    if index == failed_index || not (is_healthy s.backend_pool index)
    then failover_attempts left (attempt + 1) answers client_fd failed_index s
    else let r = failover_attempt client_fd index (answers attempt) s in
      if r.0 then r else failover_attempts left (attempt + 1) answers client_fd failed_index r.1

-- The lines behind the loop.
unfoldable pub end_failover : ℕ → Bool × Balancer → Bool × Balancer
unfolding close_connection
end_failover client_fd (true, s) = (true, s)
end_failover client_fd (false, s) = (false, close_connection client_fd s)

unfoldable pub failover_connection : ℕ → ℕ → (ℕ → Attempt) → Balancer → Bool × Balancer
unfolding give_up failover_attempts end_failover close_connection lookup
failover_connection client_fd failed_index answers s = elim (lookup client_fd s.connections) [
  | none ↦ (false, s)
  | some connection ↦
      let t = give_up client_fd failed_index connection s in
      if length s.backend_pool == 0
      then (false, close_connection client_fd t)
      else end_failover client_fd
          (failover_attempts (length s.backend_pool) 0 answers client_fd failed_index t)
]
