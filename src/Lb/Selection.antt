-- ===== src/Lb/Selection.antt =====
-- LoadBalancer.cpp: loadRoutingMode, selectRoundRobinBackend and selectBackend.
use aorta.Prelude.{
  ℕ, zero, suc, ◌+◌, ◌%◌, Bool, ◌||◌, not, Option, none, some, Bytes, codes, eq_bytes, length, leb,
  ◌==◌, if◌then◌else◌,
}
use aorta.Lb.Backend.{BackendPool, is_healthy, has_healthy_backend}
use aorta.Lb.ConsistentHash.Defs.{Ring, get_backend}
pub mod Cyclic
pub mod RoundRobin
pub mod Chosen
mod Tests

pub data RoutingMode : Type 0 where
  round_robin : RoutingMode
  consistent_hash : RoutingMode

-- The argument is what `getenv` answers, `none` for a variable that is not set.
unfoldable pub load_routing_mode : Option Bytes → RoutingMode
unfolding eq_bytes
load_routing_mode none = round_robin
load_routing_mode (some mode) =
    if eq_bytes mode (codes "consistent_hash")
      || eq_bytes mode (codes "consistent-hash")
      || eq_bytes mode (codes "hash")
    then consistent_hash
    else round_robin

-- The loop of `selectRoundRobinBackend` with `left` attempts to come: the index it returns, and
-- `next_backend_index` afterwards.
unfoldable pub round_robin_attempts : ℕ → BackendPool → ℕ → ℕ × ℕ
round_robin_attempts zero pool next = (length pool, next)
round_robin_attempts (suc left) pool next =
    let rest = round_robin_attempts left pool ((next + 1) % length pool) in
    if is_healthy pool (next % length pool)
    then (next % length pool, (next + 1) % length pool)
    else rest

unfoldable pub select_round_robin_backend : BackendPool → ℕ → ℕ × ℕ
unfolding round_robin_attempts
select_round_robin_backend pool next =
    if length pool == 0 then (0, next) else round_robin_attempts (length pool) pool next

unfoldable pub select_backend : RoutingMode → Ring → BackendPool → Bytes → ℕ → Option ℕ × ℕ
unfolding has_healthy_backend select_round_robin_backend get_backend
select_backend mode ring pool client_ip next =
    if not (has_healthy_backend pool) then (none, next) else elim mode [
      | round_robin ↦
          let (index, after) = select_round_robin_backend pool next in
          (if leb (length pool) index then none else some index, after)
      | consistent_hash ↦ (get_backend ring client_ip pool, next)
    ]
