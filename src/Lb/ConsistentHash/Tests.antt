-- ===== src/Lb/ConsistentHash/Tests.antt =====
-- ConsistentHash on a ring of five entries, and its theorems at it.
use aorta.Prelude.{
  ℕ, ◌≡◌, ◌≢◌, refl, Bool, true, false, ◌⊎◌, some, none, [], ◌∷◌, codes, any, suc, zero, arith,
}
use aorta.Lb.Backend.{Backend, BackendPool, is_healthy}
use aorta.Lb.ConsistentHash.Defs.{Ring, hash, get_backend, build, lower_bound}
use aorta.Lb.ConsistentHash.Walk.{first_healthy}
use aorta.Lb.ConsistentHash.Routing.{
  clockwise, get_backend-clockwise, get_backend_healthy, get_backend_change,
}

abbrev backend : Bool → Backend
backend up = record {
  host = codes "server1";
  port = 8081;
  healthy = up;
  consecutive_failures = 0;
  connection_count = 0;
  total_connections = 0;
  failed_connections = 0;
  failovers = 0;
}

abbrev two_backends : BackendPool
two_backends = backend false ∷ backend true ∷ []

abbrev both_up : BackendPool
both_up = backend true ∷ backend true ∷ []

abbrev small_ring : Ring
small_ring = (10, 0) ∷ (20, 1) ∷ (0x8000_0000_0000_0000, 0) ∷ []

-- FNV-1a of the empty string and of "a".
hash-empty : hash (codes "") ≡ 0xcbf2_9ce4_8422_2325
unfolding hash
hash-empty = refl

hash-a : hash (codes "a") ≡ 0xaf63_dc4c_8601_ec8c
unfolding hash
hash-a = refl

get_backend-small : get_backend small_ring (codes "a") two_backends ≡ some 1
unfolding get_backend hash lower_bound
get_backend-small = refl

get_backend-clockwise_example :
    get_backend small_ring (codes "a") two_backends
    ≡ first_healthy two_backends (clockwise (hash (codes "a")) small_ring)
get_backend-clockwise_example =
    get_backend-clockwise small_ring (codes "a") two_backends (omega arith)

get_backend_healthy_example :
    ((i : ℕ) × (get_backend small_ring (codes "a") two_backends ≡ some i)
      × (is_healthy two_backends i ≡ true))
    ⊎ ((get_backend small_ring (codes "a") two_backends ≡ none)
        × (any (λ e. is_healthy two_backends e.1) small_ring ≡ false))
get_backend_healthy_example = get_backend_healthy small_ring (codes "a") two_backends (omega arith)

only_first_differs : (i : ℕ) → i ≢ 0 → is_healthy both_up i ≡ is_healthy two_backends i
only_first_differs zero h = absurd (h refl)
only_first_differs (suc i) h = refl

get_backend_change_example :
    (get_backend (build two_backends) (codes "a") both_up
      ≡ get_backend (build two_backends) (codes "a") two_backends)
    ⊎ ((get_backend (build two_backends) (codes "a") two_backends ≡ some 0)
        ⊎ (get_backend (build two_backends) (codes "a") both_up ≡ some 0))
get_backend_change_example =
    get_backend_change two_backends two_backends both_up (codes "a") 0 only_first_differs
