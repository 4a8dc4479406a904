-- ===== src/Lb/Selection/Chosen.antt =====
-- LoadBalancer.cpp: selectBackend in both routing modes.
use aorta.Prelude.{
  ℕ, ◌<◌, ◌≡◌, refl, ap, ◌∙◌, leb, Bool, true, false, ◌⊎◌, inl, inr, Bool-cases, Option, some, none,
  Bytes, length, arith, [], ◌∷◌, any,
}
use aorta.Lb.Backend.{
  BackendPool, is_healthy, is_healthy-lt, has_healthy_backend, has_healthy_backend-is_healthy,
}
use aorta.Lb.ConsistentHash.Defs.{Ring, get_backend}
use aorta.Lb.ConsistentHash.Routing.{Ascends, get_backend_healthy}
use aorta.Lb.Selection.{
  RoutingMode, round_robin, consistent_hash, select_backend, select_round_robin_backend,
}
use aorta.Lb.Selection.RoundRobin.{IsNearest, IsRoundRobin, select_round_robin_backend-IsRoundRobin}

lt→not-leb : (a b : ℕ) → b < a → leb a b ≡ false
lt→not-leb a b h = ground arith

-- Whether a healthy backend is within a mode's reach: in the pool, or on the ring.
unfoldable pub in_reach : RoutingMode → Ring → BackendPool → Bool
in_reach round_robin ring pool = has_healthy_backend pool
in_reach consistent_hash ring pool = any (λ e. is_healthy pool e.1) ring

-- A healthy backend is chosen, or none is within reach.
abbrev pub IsChoice : RoutingMode → Ring → BackendPool → Option ℕ → Type 0
IsChoice mode ring pool choice =
    ((i : ℕ) × (choice ≡ some i) × (is_healthy pool i ≡ true))
    ⊎ ((choice ≡ none) × (in_reach mode ring pool ≡ false))

module _ (ring : Ring) (pool : BackendPool) (client_ip : Bytes) (next : ℕ) where
  select_none :
      (mode : RoutingMode)
      → has_healthy_backend pool ≡ false
      → (select_backend mode ring pool client_ip next).0 ≡ none
  unfolding select_backend
  select_none mode h = rw h

  select_in_turn :
      (i : ℕ)
      → has_healthy_backend pool ≡ true
      → (select_round_robin_backend pool next).0 ≡ i
      → i < length pool
      → (select_backend round_robin ring pool client_ip next).0 ≡ some i
  unfolding select_backend
  select_in_turn i h e below = rw (h, e, lt→not-leb (length pool) i below)

  select_by_hash :
      has_healthy_backend pool ≡ true
      → (select_backend consistent_hash ring pool client_ip next).0
        ≡ get_backend ring client_ip pool
  unfolding select_backend
  select_by_hash h = rw h

  round_robin-IsChoice :
      (r : ℕ × ℕ)
      → has_healthy_backend pool ≡ true
      → select_round_robin_backend pool next ≡ r
      → IsRoundRobin pool next r
      → IsChoice round_robin ring pool (select_backend round_robin ring pool client_ip next).0
  unfolding IsNearest
  round_robin-IsChoice (j, after) h e (inl ((good, near), moved)) =
      inl (j, select_in_turn j h (ap (λ r. r.0) e) (is_healthy-lt pool j good), good)
  round_robin-IsChoice (j, after) h e (inr (none_left, at_end, below)) = cc

  hash-IsChoice :
      Ascends 0 ring
      → has_healthy_backend pool ≡ true
      → IsChoice consistent_hash ring pool
          (select_backend consistent_hash ring pool client_ip next).0
  unfolding in_reach
  hash-IsChoice a h = elim (get_backend_healthy ring client_ip pool a) [
    | inl (i, e, good) ↦ inl (i, select_by_hash h ∙ e, good)
    | inr (e, out) ↦ inr (select_by_hash h ∙ e, out)
  ]

nothing_in_reach :
    (mode : RoutingMode) (ring : Ring) (pool : BackendPool)
    → has_healthy_backend pool ≡ false
    → in_reach mode ring pool ≡ false
unfolding in_reach
nothing_in_reach round_robin ring pool h = h
nothing_in_reach consistent_hash [] pool h = refl
nothing_in_reach consistent_hash ((key, index) ∷ ring) pool h =
    elim (Bool-cases (is_healthy pool index)) [
      | inl e ↦ cc (has_healthy_backend-is_healthy pool index e)
      | inr e ↦ cc (nothing_in_reach consistent_hash ring pool h)
    ]

-- For a ring that `build` leaves (its keys ascend) and a `next_backend_index` in range, `selectBackend`
-- chooses a healthy backend of the pool, and chooses none only where no healthy backend is within the
-- routing mode's reach: in the pool for round robin, on the ring for consistent hashing.
pub select_backend-IsChoice :
    (mode : RoutingMode) (ring : Ring) (pool : BackendPool) (client_ip : Bytes) (next : ℕ)
    → Ascends 0 ring
    → next < length pool
    → IsChoice mode ring pool (select_backend mode ring pool client_ip next).0
select_backend-IsChoice mode ring pool client_ip next a b =
    elim (Bool-cases (has_healthy_backend pool)) [
      | inr e ↦ inr (select_none ring pool client_ip next mode e, nothing_in_reach mode ring pool e)
      | inl e ↦
          elim mode as (λ m. IsChoice m ring pool (select_backend m ring pool client_ip next).0) [
            | round_robin ↦
                round_robin-IsChoice ring pool client_ip next _ e refl
                  (select_round_robin_backend-IsRoundRobin pool next b)
            | consistent_hash ↦ hash-IsChoice ring pool client_ip next a e
          ]
    ]
