-- ===== src/Lb/Backend.antt =====
-- include/lb/Backend.hpp and src/lb/BackendPool.cpp.
use aorta.Prelude.{
  ℕ, zero, suc, ◌<◌, ◌≡◌, refl, Bool, true, false, Option, none, some, List, [], ◌∷◌, ◌++◌, Bytes,
  length, get_elem?, ltb, arith, count_if, Bool-cases, inl, inr,
}

pub record Backend : Type 0 where
  pub host : Bytes
  pub port : ℕ
  pub healthy : Bool
  pub consecutive_failures : ℕ
  pub connection_count : ℕ
  pub total_connections : ℕ
  pub failed_connections : ℕ
  pub failovers : ℕ

abbrev pub BackendPool : Type 0
BackendPool = List Backend

unfoldable pub add_backend : BackendPool → Backend → BackendPool
add_backend pool backend = pool ++ backend ∷ []

-- `at(index)`: `none` where the source throws.
abbrev pub get_backend : BackendPool → ℕ → Option Backend
get_backend pool index = get_elem? pool index

unfoldable pub size : BackendPool → ℕ
size pool = length pool

unfoldable pub reset : BackendPool → BackendPool
reset pool = []

abbrev pub get_backends : BackendPool → List Backend
get_backends pool = pool

-- A write through the reference that `getBackend` returns; out of range nothing is written.
unfoldable pub modify : ℕ → (Backend → Backend) → BackendPool → BackendPool
modify i f [] = []
modify zero f (b ∷ pool) = f b ∷ pool
modify (suc i) f (b ∷ pool) = b ∷ modify i f pool

-- The loop of `healthyCount`.
unfoldable pub healthy_count : BackendPool → ℕ
healthy_count pool = count_if (λ b. b.healthy) pool

unfoldable pub has_healthy_backend : BackendPool → Bool
unfolding healthy_count
has_healthy_backend pool = ltb 0 (healthy_count pool)

abbrev pub healthy_at : Option Backend → Bool
healthy_at none = false
healthy_at (some b) = b.healthy

-- `index < pool.size() && pool.getBackend(index).healthy`.
abbrev pub is_healthy : BackendPool → ℕ → Bool
is_healthy pool index = healthy_at (get_backend pool index)

pub is_healthy-lt : (pool : BackendPool) (i : ℕ) → is_healthy pool i ≡ true → i < length pool
is_healthy-lt [] i h = cc
is_healthy-lt (b ∷ pool) zero h = omega arith
is_healthy-lt (b ∷ pool) (suc i) h = omega (arith, is_healthy-lt pool i h)

-- The pool has a healthy backend exactly when some index holds one.
pub has_healthy_backend-is_healthy :
    (pool : BackendPool) (i : ℕ) → is_healthy pool i ≡ true → has_healthy_backend pool ≡ true
unfolding has_healthy_backend
has_healthy_backend-is_healthy [] i h = cc
has_healthy_backend-is_healthy (b ∷ pool) zero h = ground arith
has_healthy_backend-is_healthy (b ∷ pool) (suc i) h =
    ground (arith, has_healthy_backend-is_healthy pool i)

pub healthy_index :
    (pool : BackendPool) → has_healthy_backend pool ≡ true → (i : ℕ) × (is_healthy pool i ≡ true)
unfolding has_healthy_backend
healthy_index [] h = cc
healthy_index (b ∷ pool) h = elim (Bool-cases b.healthy) [
  | inl e ↦ (0, e)
  | inr e ↦ let (i, found) = healthy_index pool (ground arith) in (suc i, found)
]

pub length-modify :
    (i : ℕ) (f : Backend → Backend) (pool : BackendPool) → length (modify i f pool) ≡ length pool
unfolding modify
length-modify i f [] = refl
length-modify zero f (b ∷ pool) = refl
length-modify (suc i) f (b ∷ pool) = omega (arith, length-modify i f pool)
