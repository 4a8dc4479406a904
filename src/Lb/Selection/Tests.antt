-- ===== src/Lb/Selection/Tests.antt =====
-- Selection on a pool of three backends, and its theorems at it.
use aorta.Prelude.{◌≡◌, refl, Bool, true, false, some, none, [], ◌∷◌, codes, any, ◌==◌, arith}
use aorta.Lb.Backend.{Backend, BackendPool}
use aorta.Lb.ConsistentHash.Defs.{Ring}
use aorta.Lb.Selection.{
  round_robin, consistent_hash, load_routing_mode, select_round_robin_backend, select_backend,
}
use aorta.Lb.Selection.RoundRobin.{
  IsRoundRobin, successive_calls, select_round_robin_backend-IsRoundRobin, calls_visit,
}
use aorta.Lb.Selection.Chosen.{IsChoice, select_backend-IsChoice}

abbrev backend : Bool → Backend
backend up = record {
  host = codes "server1";
  port = 8081;
  healthy = up;
  consecutive_failures = 0;
  connection_count = 0;
  total_connections = 0;
  failed_connections = 0;
  failovers = 0;
}

abbrev first_down : BackendPool
first_down = backend false ∷ backend true ∷ backend true ∷ []

abbrev ring : Ring
ring = (10, 1) ∷ (20, 2) ∷ []

load_routing_mode_hash : load_routing_mode (some (codes "hash")) ≡ consistent_hash
unfolding load_routing_mode
load_routing_mode_hash = refl

load_routing_mode_other : load_routing_mode (some (codes "random")) ≡ round_robin
unfolding load_routing_mode
load_routing_mode_other = refl

calls_first_down : successive_calls 5 first_down 0 ≡ 1 ∷ 2 ∷ 1 ∷ 2 ∷ 1 ∷ []
unfolding successive_calls select_round_robin_backend
calls_first_down = refl

select_none_healthy : select_backend round_robin ring (backend false ∷ []) (codes "a") 0 ≡ (none, 0)
unfolding select_backend
select_none_healthy = refl

select_round_robin_backend-IsRoundRobin_example :
    IsRoundRobin first_down 2 (select_round_robin_backend first_down 2)
select_round_robin_backend-IsRoundRobin_example =
    select_round_robin_backend-IsRoundRobin first_down 2 (omega arith)

calls_visit_example : any (λ j. j == 1) (successive_calls 3 first_down 2) ≡ true
calls_visit_example = calls_visit first_down 2 1 (omega arith) refl

select_backend-IsChoice_example :
    IsChoice round_robin ring first_down
      (select_backend round_robin ring first_down (codes "10.0.0.1") 2).0
select_backend-IsChoice_example =
    select_backend-IsChoice round_robin ring first_down (codes "10.0.0.1") 2 (omega arith)
      (omega arith)
