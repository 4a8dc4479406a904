-- ===== src/Lb/HealthChecker/Defs.antt =====
-- HealthChecker.hpp and the operations of HealthChecker.cpp that finish a check. The clock is in
-- nanoseconds. `calls` is the log of the system calls that concern descriptors, the latest first.
use aorta.Prelude.{
  ℕ, ◌+◌, Bool, true, false, not, ◌&&◌, none, some, List, ◌∷◌, Bytes, length, ltb, leb, null,
  if◌then◌else◌, Map, lookup, erase,
}
use aorta.Lb.Backend.{Backend, BackendPool, modify}

abbrev pub millisecond : ℕ
millisecond = 1000000

abbrev pub connect_timeout_ms : ℕ
connect_timeout_ms = 500

abbrev pub response_timeout_ms : ℕ
response_timeout_ms = 500

abbrev pub max_response_size : ℕ
max_response_size = 4096

pub data CheckState : Type 0 where
  connecting : CheckState
  writing : CheckState
  reading : CheckState

pub record Check : Type 0 where
  pub fd : ℕ
  pub backend_index : ℕ
  pub state : CheckState
  pub request : Bytes
  pub write_offset : ℕ
  pub response : Bytes
  pub deadline : ℕ

pub data Call : Type 0 where
  opened : ℕ → Call
  watched : ℕ → Call
  unwatched : ℕ → Call
  closed : ℕ → Call

-- `has_pool` is `backend_pool != nullptr`.
pub record Checker : Type 0 where
  pub checks : Map Check
  pub has_pool : Bool
  pub pool : BackendPool
  pub calls : List Call

-- `checks.find(fd) != checks.end()`.
unfoldable pub handles : ℕ → Checker → Bool
handles fd c = elim (lookup fd c.checks) [ none ↦ false | some _ ↦ true ]

unfoldable pub active : Checker → Bool
active c = not (null c.checks)

-- The lines that each failure runs on its backend.
unfoldable pub record_failure : Backend → Backend
record_failure backend = record backend {
  consecutive_failures = backend.consecutive_failures + 1;
  healthy = if leb 2 (backend.consecutive_failures + 1) then false else backend.healthy;
}

unfoldable pub record_success : Backend → Backend
record_success backend = record backend { consecutive_failures = 0; healthy = true }

-- `epoll.remove(fd); close(fd); checks.erase(it);`
unfoldable pub release : ℕ → Checker → Checker
release fd c = record c { checks = erase fd c.checks; calls = closed fd ∷ unwatched fd ∷ c.calls }

-- The write to the backend of a check, under the guard of `finishCheck` and `failCheck`.
unfoldable pub update_backend : ℕ → (Backend → Backend) → Checker → Checker
unfolding modify
update_backend index f c =
    if c.has_pool && ltb index (length c.pool) then record c { pool = modify index f c.pool } else c

unfoldable pub finish_check : ℕ → Bool → Checker → Checker
unfolding release update_backend record_success record_failure
finish_check fd healthy c = elim (lookup fd c.checks) [
  | none ↦ c
  | some check ↦
      release fd
        (update_backend check.backend_index (if healthy then record_success else record_failure) c)
]

unfoldable pub fail_check : ℕ → Checker → Checker
unfolding release update_backend record_failure
fail_check fd c = elim (lookup fd c.checks) [
  | none ↦ c
  | some check ↦ release fd (update_backend check.backend_index record_failure c)
]
