-- ===== src/Lb/Selection/RoundRobin.antt =====
-- LoadBalancer.cpp: selectRoundRobinBackend against the cyclic order.
use native.Mathlib.Nat.{mod-eq_of_lt}
use aorta.Prelude.{
  ℕ_discrete, ℕ, zero, suc, ◌+◌, ◌%◌, ◌≤◌, ◌<◌, ◌≡◌, refl, sym, ap, subst, true, false, ◌⊎◌, inl,
  inr, Bool-cases, List, [], ◌∷◌, length, any, ◌==◌, arith,
}
use aorta.Lb.Backend.{
  BackendPool, is_healthy, is_healthy-lt, has_healthy_backend, has_healthy_backend-is_healthy,
  healthy_index,
}
use aorta.Lb.Selection.{round_robin_attempts, select_round_robin_backend}
use aorta.Lb.Selection.Cyclic.{
  distance, next_index-lt, distance_self, distance-lt, distance_next, distance_split,
}

-- The index is a healthy backend's, and no healthy backend is fewer steps away from `next`.
unfoldable pub IsNearest : BackendPool → ℕ → ℕ → Type 0
IsNearest pool next i =
    (is_healthy pool i ≡ true)
    × ((j : ℕ)
        → is_healthy pool j ≡ true
        → distance (length pool) next i ≤ distance (length pool) next j)

module _ (pool : BackendPool) where
  abbrev count : ℕ
  count = length pool

  -- What `left` attempts from `next` find, and where they leave `next_backend_index`.
  abbrev pub Found : ℕ → ℕ → ℕ × ℕ → Type 0
  Found left next r =
      (IsNearest pool next r.0 × (r.1 ≡ (r.0 + 1) % count))
      ⊎ ((r.0 ≡ count)
          × (r.1 < count)
          × ((j : ℕ) → is_healthy pool j ≡ true → left ≤ distance count next j))

  attempts_hit :
      (left next : ℕ)
      → next < count
      → is_healthy pool next ≡ true
      → round_robin_attempts (suc left) pool next ≡ (next, (next + 1) % count)
  unfolding round_robin_attempts
  attempts_hit left next h e = rw (mod-eq_of_lt h, e)

  attempts_miss :
      (left next : ℕ)
      → next < count
      → is_healthy pool next ≡ false
      → round_robin_attempts (suc left) pool next
        ≡ round_robin_attempts left pool ((next + 1) % count)
  unfolding round_robin_attempts
  attempts_miss left next h e = rw (mod-eq_of_lt h, e)

  -- A healthy backend that is not at `next` is one step further than from the next index.
  farther :
      (next j : ℕ)
      → next < count
      → is_healthy pool next ≡ false
      → is_healthy pool j ≡ true
      → distance count next j ≡ suc (distance count ((next + 1) % count) j)
  farther next j h e k =
      distance_next count next j h (is_healthy-lt pool j k) (λ p. cc (ap (is_healthy pool) p))

  miss-Found :
      (left next : ℕ) (r : ℕ × ℕ)
      → next < count
      → is_healthy pool next ≡ false
      → Found left ((next + 1) % count) r
      → Found (suc left) next r
  unfolding IsNearest
  miss-Found left next r h e (inl ((good, near), after)) = inl (
    (good, λ j k. omega (arith, near j k, farther next j h e k, farther next r.0 h e good)),
    after,
  )
  miss-Found left next r h e (inr (none_left, below, far)) =
      inr (none_left, below, λ j k. omega (arith, far j k, farther next j h e k))

  attempts-Found :
      (left next : ℕ) → next < count → Found left next (round_robin_attempts left pool next)
  unfolding round_robin_attempts IsNearest
  attempts-Found zero next h = inr (refl, h, λ j k. omega arith)
  attempts-Found (suc left) next h = elim (Bool-cases (is_healthy pool next)) [
    | inl e ↦
        subst (Found (suc left) next) (sym (attempts_hit left next h e))
          (inl ((e, λ j k. omega (arith, distance_self count next)), refl))
    | inr e ↦ subst (Found (suc left) next) (sym (attempts_miss left next h e)) (
        miss-Found left next _ h e
          (attempts-Found left ((next + 1) % count) (next_index-lt next count h)))
  ]

  nothing_healthy :
      (next : ℕ)
      → next < count
      → ((j : ℕ) → is_healthy pool j ≡ true → count ≤ distance count next j)
      → has_healthy_backend pool ≡ false
  nothing_healthy next h far = elim (Bool-cases (has_healthy_backend pool)) [
    | inr e ↦ e
    | inl e ↦
        let (j, healthy) = healthy_index pool e in
        absurd
          (omega (arith, far j healthy, distance-lt count next j h (is_healthy-lt pool j healthy)))
  ]

-- Either the nearest healthy backend, with the index after it as the next, or the number of backends
-- for a pool without one.
abbrev pub IsRoundRobin : BackendPool → ℕ → ℕ × ℕ → Type 0
IsRoundRobin pool next r =
    (IsNearest pool next r.0 × (r.1 ≡ (r.0 + 1) % length pool))
    ⊎ ((has_healthy_backend pool ≡ false) × (r.0 ≡ length pool) × (r.1 < length pool))

select_as_attempts :
    (pool : BackendPool) (next : ℕ)
    → next < length pool
    → select_round_robin_backend pool next ≡ round_robin_attempts (length pool) pool next
unfolding select_round_robin_backend
select_as_attempts [] next h = absurd (omega arith)
select_as_attempts (b ∷ pool) next h = ground arith

-- For a `next_backend_index` in range, `selectRoundRobinBackend` returns a healthy backend that no
-- other healthy one precedes in the cyclic order from that index, and goes on behind it; or the pool
-- has no healthy backend, the number of backends is returned, and the index stays in range.
pub select_round_robin_backend-IsRoundRobin :
    (pool : BackendPool) (next : ℕ)
    → next < length pool
    → IsRoundRobin pool next (select_round_robin_backend pool next)
select_round_robin_backend-IsRoundRobin pool next h =
    subst (IsRoundRobin pool next) (sym (select_as_attempts pool next h))
      (elim (attempts-Found pool (length pool) next h) [
        | inl found ↦ inl found
        | inr (at_end, below, far) ↦ inr (nothing_healthy pool next h far, at_end, below)
      ])

-- What a number of calls return, one after the other.
unfoldable pub successive_calls : ℕ → BackendPool → ℕ → List ℕ
successive_calls zero pool next = []
successive_calls (suc n) pool next =
    (select_round_robin_backend pool next).0
    ∷ successive_calls n pool (select_round_robin_backend pool next).1

module _ (pool : BackendPool) (i : ℕ) (healthy : is_healthy pool i ≡ true) where
  -- A call returns the backend, or brings the next index nearer to it.
  abbrev Approaches : ℕ → ℕ × ℕ → Type 0
  Approaches next r =
      (r.0 ≡ i)
      ⊎ ((r.1 < length pool) × (suc (distance (length pool) r.1 i) ≤ distance (length pool) next i))

  approach :
      (next : ℕ) (r : ℕ × ℕ) → next < length pool → IsRoundRobin pool next r → Approaches next r
  unfolding IsNearest
  approach next (j, after) h (inr (none_left, at_end, below)) =
      cc (has_healthy_backend-is_healthy pool i healthy, none_left)
  approach next (j, after) h (inl ((good, near), moved)) = elim (ℕ_discrete j i) [
    | yes e ↦ inl e
    | no ne ↦
        let below = is_healthy-lt pool i healthy in
        let found_below = is_healthy-lt pool j good in
        inr (
          omega (arith, moved, next_index-lt j (length pool) found_below),
          omega (
            arith,
            ap (λ x. distance (length pool) x i) moved,
            distance_next (length pool) j i found_below below ne,
            distance_split (length pool) next j i h found_below below (near i healthy),
          ),
        )
  ]

  calls_reach :
      (n next : ℕ)
      → next < length pool
      → distance (length pool) next i < n
      → any (λ j. j == i) (successive_calls n pool next) ≡ true
  unfolding successive_calls
  calls_reach zero next h k = absurd (omega arith)
  calls_reach (suc n) next h k =
      elim (approach next _ h (select_round_robin_backend-IsRoundRobin pool next h)) [
        | inl e ↦ grind (arith, e)
        | inr (below, nearer) ↦ grind (arith, calls_reach n _ below (omega arith))
      ]

-- Round robin starves no backend: of as many calls as there are backends, on a pool that does not
-- change meanwhile and from an index in range, one returns a given healthy backend.
pub calls_visit :
    (pool : BackendPool) (next i : ℕ)
    → next < length pool
    → is_healthy pool i ≡ true
    → any (λ j. j == i) (successive_calls (length pool) pool next) ≡ true
calls_visit pool next i h healthy =
    calls_reach pool i healthy (length pool) next h
      (distance-lt (length pool) next i h (is_healthy-lt pool i healthy))
