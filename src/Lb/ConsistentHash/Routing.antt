-- ===== src/Lb/ConsistentHash/Routing.antt =====
-- ConsistentHash.cpp: where `getBackend` sends a client, and what a change of health moves.
mod Build
use aorta.Prelude.{
  ℕ, zero, suc, ◌+◌, ◌-◌, ◌≤◌, ◌<◌, ◌≡◌, ◌≢◌, refl, sym, ap, ap₂, ℕ_discrete, ◌∙◌, Bool, true,
  false, ◌&&◌, ◌||◌, ◌⊎◌, inl, inr, Bool-cases, Option, Option-cases, none, some, List, [], ◌∷◌,
  ◌++◌, append-nil, Bytes, length, null, any, take, drop, arith, ◌==◌, if◌then◌else◌, ltb, leb,
}
use aorta.Lb.Backend.{BackendPool, is_healthy}
use aorta.Lb.ConsistentHash.Defs.{Ring, hash, lower_bound, wrap, walk, get_backend, build}
use aorta.Lb.ConsistentHash.Walk.{first_healthy, walk-first_healthy}
use Build.{Ascends, build-Ascends}
pub use Build.{Ascends, IndicesBelow, build-Ascends, build-IndicesBelow}

-- The entries from hash `h` on, and those before it.
abbrev pub from_hash : ℕ → Ring → Ring
from_hash h [] = []
from_hash h ((k, v) ∷ ring) = if ltb k h then from_hash h ring else (k, v) ∷ from_hash h ring

abbrev pub before_hash : ℕ → Ring → Ring
before_hash h [] = []
before_hash h ((k, v) ∷ ring) = if ltb k h then (k, v) ∷ before_hash h ring else before_hash h ring

-- Clockwise from hash `h`: up from `h`, and round to the smallest keys.
abbrev pub clockwise : ℕ → Ring → Ring
clockwise h ring = from_hash h ring ++ before_hash h ring

from_hash-all : (h lo : ℕ) (ring : Ring) → h ≤ lo → Ascends lo ring → from_hash h ring ≡ ring
from_hash-all h lo [] le a = refl
from_hash-all h lo ((k, v) ∷ ring) le a = ground (arith, from_hash-all h (suc k) ring)

before_hash-none : (h lo : ℕ) (ring : Ring) → h ≤ lo → Ascends lo ring → before_hash h ring ≡ []
before_hash-none h lo [] le a = refl
before_hash-none h lo ((k, v) ∷ ring) le a = ground (arith, before_hash-none h (suc k) ring)

drop-lower_bound :
    (h lo : ℕ) (ring : Ring) → Ascends lo ring → drop (lower_bound h ring) ring ≡ from_hash h ring
unfolding lower_bound
drop-lower_bound h lo [] a = refl
drop-lower_bound h lo ((k, v) ∷ ring) a =
    ground (arith, drop-lower_bound h (suc k) ring, from_hash-all h (suc k) ring)

take-lower_bound :
    (h lo : ℕ) (ring : Ring) → Ascends lo ring → take (lower_bound h ring) ring ≡ before_hash h ring
unfolding lower_bound
take-lower_bound h lo [] a = refl
take-lower_bound h lo ((k, v) ∷ ring) a =
    ground (arith, take-lower_bound h (suc k) ring, before_hash-none h (suc k) ring)

lower_bound-le : (h : ℕ) (ring : Ring) → lower_bound h ring ≤ length ring
unfolding lower_bound
lower_bound-le h [] = omega arith
lower_bound-le h ((k, v) ∷ ring) = ground (arith, lower_bound-le h ring)

drop_all {ℓ} : {A : Type ℓ} (xs : List A) → drop (length xs) xs ≡ []
drop_all [] = refl
drop_all (x ∷ xs) = drop_all xs

take_all {ℓ} : {A : Type ℓ} (xs : List A) → take (length xs) xs ≡ xs
take_all [] = refl
take_all (x ∷ xs) = ap (◌∷◌ x) (take_all xs)

-- Wrapping the end of the ring to its beginning does not change the order of the walk.
wrap_order :
    (ring : Ring) (n : ℕ)
    → n ≤ length ring
    → drop (wrap ring n) ring ++ take (wrap ring n) ring ≡ drop n ring ++ take n ring
wrap_order ring n h = elim (Bool-cases (n == length ring)) [
  | inl e ↦
      let at_end : n ≡ length ring = ground arith in
      rw (e, at_end, drop_all ring, take_all ring, append-nil)
  | inr e ↦ rw e
]

first_healthy-nil : (ring : Ring) → first_healthy [] ring ≡ none
unfolding first_healthy
first_healthy-nil [] = refl
first_healthy-nil ((k, v) ∷ ring) = first_healthy-nil ring

null-clockwise : (h : ℕ) (ring : Ring) → null ring ≡ true → clockwise h ring ≡ []
null-clockwise h [] e = refl
null-clockwise h (x ∷ ring) e = cc

pos_of_not_null : (ring : Ring) → null ring ≡ false → 0 < length ring
pos_of_not_null [] e = cc
pos_of_not_null (x ∷ ring) e = omega arith

null_pool : (pool : BackendPool) → length pool ≡ 0 → pool ≡ []
null_pool [] e = refl
null_pool (b ∷ pool) e = absurd (omega arith)

-- `getBackend` returns the backend of the first entry clockwise from the client's hash whose
-- backend is healthy, on every ring whose keys rise: `ring.lower_bound`, the wrap to the beginning
-- and the `do` loop together, and the early return on an empty ring or pool.
pub get_backend-clockwise :
    (ring : Ring) (client_key : Bytes) (pool : BackendPool)
    → Ascends 0 ring
    → get_backend ring client_key pool ≡ first_healthy pool (clockwise (hash client_key) ring)
unfolding get_backend
get_backend-clockwise ring client_key pool a = elim (Bool-cases (null ring)) [
  | inl e ↦ rw (e, null-clockwise (hash client_key) ring e) (unfold first_healthy in refl)
  | inr e ↦ elim (Bool-cases (length pool == 0)) [
    | inl z ↦
        let gone : pool ≡ [] = null_pool pool (ground arith) in
        rw (e, z, gone, first_healthy-nil (clockwise (hash client_key) ring))
    | inr z ↦ rw (e, z) (walked (pos_of_not_null ring e))
  ]
]
  where
    start : ℕ
    start = wrap ring (lower_bound (hash client_key) ring)

    walked :
        0 < length ring
        → walk (length ring) ring pool start start
          ≡ first_healthy pool (clockwise (hash client_key) ring)
    walked pos =
        walk-first_healthy ring pool start (ground (arith, lower_bound-le (hash client_key) ring))
        ∙ ap (first_healthy pool) (
            wrap_order ring (lower_bound (hash client_key) ring)
              (lower_bound-le (hash client_key) ring)
            ∙ ap₂ ◌++◌ (drop-lower_bound (hash client_key) 0 ring a)
                (take-lower_bound (hash client_key) 0 ring a))

first_healthy-is_healthy :
    (pool : BackendPool) (ring : Ring) (i : ℕ)
    → first_healthy pool ring ≡ some i
    → is_healthy pool i ≡ true
unfolding first_healthy
first_healthy-is_healthy pool [] i h = cc
first_healthy-is_healthy pool ((k, v) ∷ ring) i h =
    ground (arith, first_healthy-is_healthy pool ring i)

first_healthy-none :
    (pool : BackendPool) (ring : Ring)
    → first_healthy pool ring ≡ none
    → any (λ e. is_healthy pool e.1) ring ≡ false
unfolding first_healthy
first_healthy-none pool [] h = refl
first_healthy-none pool ((k, v) ∷ ring) h = ground (arith, first_healthy-none pool ring)

first_healthy-change :
    (pool later : BackendPool) (j : ℕ) (ring : Ring)
    → ((i : ℕ) → i ≢ j → is_healthy later i ≡ is_healthy pool i)
    → (first_healthy later ring ≡ first_healthy pool ring)
      ⊎ ((first_healthy pool ring ≡ some j) ⊎ (first_healthy later ring ≡ some j))
unfolding first_healthy
first_healthy-change pool later j [] same = inl refl
first_healthy-change pool later j ((k, v) ∷ ring) same = elim (ℕ_discrete v j) [
  | yes e ↦ ground (arith, first_healthy-change pool later j ring same)
  | no e ↦ ground (arith, same v e, first_healthy-change pool later j ring same)
]

any-append :
    (pool : BackendPool) (xs ys : Ring)
    → any (λ e. is_healthy pool e.1) (xs ++ ys)
      ≡ (any (λ e. is_healthy pool e.1) xs || any (λ e. is_healthy pool e.1) ys)
any-append pool [] ys = refl
any-append pool ((k, v) ∷ xs) ys = ground (arith, any-append pool xs ys)

any-clockwise :
    (pool : BackendPool) (h : ℕ) (ring : Ring)
    → any (λ e. is_healthy pool e.1) (clockwise h ring) ≡ any (λ e. is_healthy pool e.1) ring
any-clockwise pool h [] = refl
any-clockwise pool h ((k, v) ∷ ring) = ground (
  arith,
  any-clockwise pool h ring,
  any-append pool (from_hash h ring) (before_hash h ring),
  any-append pool (from_hash h ring) ((k, v) ∷ before_hash h ring),
)

-- On every ring whose keys rise, `getBackend` returns a healthy backend of the pool if any entry of
-- the ring names one, wherever it stands relative to the client's hash, and `nullopt` if none does.
pub get_backend_healthy :
    (ring : Ring) (client_key : Bytes) (pool : BackendPool)
    → Ascends 0 ring
    → ((i : ℕ) × (get_backend ring client_key pool ≡ some i) × (is_healthy pool i ≡ true))
      ⊎ ((get_backend ring client_key pool ≡ none) × (any (λ e. is_healthy pool e.1) ring ≡ false))
get_backend_healthy ring client_key pool a =
    let order = clockwise (hash client_key) ring in
    let found = get_backend-clockwise ring client_key pool a in
    elim (Option-cases (first_healthy pool order)) [
      | inl e ↦ inr (
        found ∙ e,
        sym (any-clockwise pool (hash client_key) ring) ∙ first_healthy-none pool order e,
      )
      | inr (i, e) ↦ inl (i, found ∙ e, first_healthy-is_healthy pool order i e)
    ]

-- On the ring that `build` makes, a change of the health of backend `j` moves only the clients that
-- were routed to `j` before it, or are routed to `j` after it: every other client stays.
pub get_backend_change :
    (built pool later : BackendPool) (client_key : Bytes) (j : ℕ)
    → ((i : ℕ) → i ≢ j → is_healthy later i ≡ is_healthy pool i)
    → (get_backend (build built) client_key later ≡ get_backend (build built) client_key pool)
      ⊎ ((get_backend (build built) client_key pool ≡ some j)
          ⊎ (get_backend (build built) client_key later ≡ some j))
get_backend_change built pool later client_key j same = ground (
  arith,
  get_backend-clockwise (build built) client_key pool (build-Ascends built),
  get_backend-clockwise (build built) client_key later (build-Ascends built),
  first_healthy-change pool later j (clockwise (hash client_key) (build built)) same,
)
