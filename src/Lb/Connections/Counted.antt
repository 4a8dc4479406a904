-- ===== src/Lb/Connections/Counted.antt =====
-- LoadBalancer.cpp: the connection counts of the backends against the table of connections.
use aorta.Prelude.{
  ℕ, zero, suc, ◌+◌, ◌-◌, ◌<◌, ◌≡◌, refl, none, some, [], ◌∷◌, length, get_elem?, ◌==◌,
  if◌then◌else◌, Map, lookup, put, erase, total, total-put_old, total-erase, arith,
}
use aorta.Lb.Backend.{Backend, BackendPool, modify, length-modify}
use aorta.Lb.Connections.Defs.{ConnectionPair, drop_connection}

-- 1 for a connection that holds the backend at `i`.
unfoldable pub weight : ℕ → ℕ → ConnectionPair → ℕ
weight i client_fd c = elim (c.backend_fd) [
  | none ↦ 0
  | some fd ↦ if c.backend_index == i then 1 else 0
]

unfoldable pub count_at : BackendPool → ℕ → ℕ
count_at pool i = elim (get_elem? pool i) [ none ↦ 0 | some b ↦ b.connection_count ]

-- Each backend counts the connections that hold it.
unfoldable pub IsCounted : Map ConnectionPair → BackendPool → Type 0
IsCounted connections pool =
    (i : ℕ) → i < length pool → count_at pool i ≡ total (weight i) connections

pub count_at-modify :
    (i : ℕ) (f : Backend → Backend) (g : ℕ → ℕ) (pool : BackendPool) (j : ℕ)
    → ((b : Backend) → (f b).connection_count ≡ g b.connection_count)
    → j < length pool
    → count_at (modify i f pool) j ≡ (if i == j then g (count_at pool j) else count_at pool j)
unfolding count_at modify
count_at-modify i f g [] j e h = absurd (omega arith)
count_at-modify zero f g (b ∷ pool) zero e h = e b
count_at-modify zero f g (b ∷ pool) (suc j) e h = ground arith
count_at-modify (suc i) f g (b ∷ pool) zero e h = ground arith
count_at-modify (suc i) f g (b ∷ pool) (suc j) e h =
    grind (arith, count_at-modify i f g pool j e (omega arith))

-- A write to a backend that does not concern its count.
pub IsCounted-other :
    (i : ℕ) (f : Backend → Backend) (m : Map ConnectionPair) (pool : BackendPool)
    → ((b : Backend) → (f b).connection_count ≡ b.connection_count)
    → IsCounted m pool
    → IsCounted m (modify i f pool)
unfolding IsCounted
IsCounted-other i f m pool e c j h =
    ground (arith, c j, count_at-modify i f (λ n. n) pool j e, length-modify i f pool)

-- The end of a connection.
pub IsCounted-close :
    (k : ℕ) (old : ConnectionPair) (m : Map ConnectionPair) (pool : BackendPool) (fd : ℕ)
    → lookup k m ≡ some old
    → old.backend_fd ≡ some fd
    → IsCounted m pool
    → IsCounted (erase k m) (modify old.backend_index drop_connection pool)
unfolding IsCounted drop_connection weight
IsCounted-close k old m pool fd e some_fd c j h = ground (
  arith,
  c j,
  some_fd,
  total-erase (weight j) k old m e,
  count_at-modify old.backend_index drop_connection (λ n. n - 1) pool j (λ b. refl),
  length-modify old.backend_index drop_connection pool,
)

pub IsCounted-erase :
    (k : ℕ) (old : ConnectionPair) (m : Map ConnectionPair) (pool : BackendPool)
    → lookup k m ≡ some old
    → old.backend_fd ≡ none
    → IsCounted m pool
    → IsCounted (erase k m) pool
unfolding IsCounted weight
IsCounted-erase k old m pool e no_fd c j h =
    ground (arith, c j, no_fd, total-erase (weight j) k old m e)

-- A connection that gives its backend up, and one that takes a backend.
pub IsCounted-drop :
    (k : ℕ) (old new : ConnectionPair) (f : Backend → Backend) (m : Map ConnectionPair)
    (pool : BackendPool) (fd : ℕ)
    → lookup k m ≡ some old
    → old.backend_fd ≡ some fd
    → new.backend_fd ≡ none
    → ((b : Backend) → (f b).connection_count ≡ b.connection_count - 1)
    → IsCounted m pool
    → IsCounted (put k new m) (modify old.backend_index f pool)
unfolding IsCounted weight
IsCounted-drop k old new f m pool fd e some_fd no_fd drops c j h = ground (
  arith,
  c j,
  some_fd,
  no_fd,
  total-put_old (weight j) k new old m e,
  count_at-modify old.backend_index f (λ n. n - 1) pool j drops,
  length-modify old.backend_index f pool,
)

pub IsCounted-take :
    (k : ℕ) (old new : ConnectionPair) (f : Backend → Backend) (m : Map ConnectionPair)
    (pool : BackendPool) (fd : ℕ)
    → lookup k m ≡ some old
    → old.backend_fd ≡ none
    → new.backend_fd ≡ some fd
    → ((b : Backend) → (f b).connection_count ≡ b.connection_count + 1)
    → IsCounted m pool
    → IsCounted (put k new m) (modify new.backend_index f pool)
unfolding IsCounted weight
IsCounted-take k old new f m pool fd e no_fd some_fd takes c j h = ground (
  arith,
  c j,
  some_fd,
  no_fd,
  total-put_old (weight j) k new old m e,
  count_at-modify new.backend_index f (λ n. n + 1) pool j takes,
  length-modify new.backend_index f pool,
)

pub IsCounted-put :
    (k : ℕ) (old new : ConnectionPair) (m : Map ConnectionPair) (pool : BackendPool)
    → lookup k m ≡ some old
    → old.backend_fd ≡ none
    → new.backend_fd ≡ none
    → IsCounted m pool
    → IsCounted (put k new m) pool
unfolding IsCounted weight
IsCounted-put k old new m pool e no_fd still_none c j h =
    ground (arith, c j, no_fd, still_none, total-put_old (weight j) k new old m e)
