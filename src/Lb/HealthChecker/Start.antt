-- ===== src/Lb/HealthChecker/Start.antt =====
-- HealthChecker.cpp: start.
use aorta.Prelude.{
  ℕ, zero, suc, ◌+◌, ◌*◌, Bool, true, false, none, some, ◌∷◌, [], ◌++◌, Bytes, codes, length,
  if◌then◌else◌, put, lookup, Map,
}
use aorta.Lb.Backend.{Backend, modify, get_backend}
use aorta.Lb.HealthChecker.Defs.{
  millisecond, connect_timeout_ms, response_timeout_ms, CheckState, connecting, writing, Check,
  opened, watched, closed, Checker, active, record_failure,
}

-- What the calls for one backend answer: `getaddrinfo` fails; `socket` fails; or `socket` returns a
-- descriptor and `connect` fails, succeeds or is in progress, with the time of the deadline's clock
-- reading and whether `epoll.add` succeeds.
pub data Probe : Type 0 where
  unresolved : Probe
  no_socket : Probe
  refused : ℕ → Probe
  connects : (fd now : ℕ) (added : Bool) → Probe
  in_progress : (fd now : ℕ) (added : Bool) → Probe

unfoldable pub request_for : Bytes → Bytes
request_for host =
    codes "GET /health HTTP/1.1"
    ++ b'\r' ∷ b'\n' ∷ codes "Host: "
    ++ host
    ++ b'\r' ∷ b'\n' ∷ codes "Connection: close"
    ++ b'\r' ∷ b'\n' ∷ b'\r' ∷ b'\n' ∷ []

unfoldable pub new_check : ℕ → ℕ → Backend → CheckState → ℕ → Check
unfolding request_for
new_check fd index backend state deadline = record {
  fd = fd;
  backend_index = index;
  state = state;
  request = request_for backend.host;
  write_offset = 0;
  response = [];
  deadline = deadline;
}

unfoldable pub fail_backend : ℕ → Checker → Checker
unfolding modify record_failure
fail_backend index c = record c { pool = modify index record_failure c.pool }

-- `emplace`: a descriptor that is there keeps its check.
unfoldable pub emplace_check : ℕ → Check → Map Check → Map Check
unfolding lookup put
emplace_check fd check checks = elim (lookup fd checks) [
  | none ↦ put fd check checks
  | some _ ↦ checks
]

unfoldable pub open_socket : ℕ → Checker → Checker
open_socket fd c = record c { calls = opened fd ∷ c.calls }

unfoldable pub close_socket : ℕ → Checker → Checker
close_socket fd c = record c { calls = closed fd ∷ c.calls }

-- The end of the loop's body, from `epoll.add` on.
unfoldable pub watch : Check → Bool → Checker → Checker
unfolding emplace_check fail_backend close_socket
watch check true c = record c {
  checks = emplace_check check.fd check c.checks;
  calls = watched check.fd ∷ c.calls;
}
watch check false c = fail_backend check.backend_index (close_socket check.fd c)

-- The loop's body for the backend at `index`.
unfoldable pub start_backend : ℕ → Backend → Probe → Checker → Checker
unfolding new_check watch open_socket close_socket fail_backend
start_backend index backend unresolved c = fail_backend index c
start_backend index backend no_socket c = fail_backend index c
start_backend index backend (refused fd) c = fail_backend index (close_socket fd (open_socket fd c))
start_backend index backend (connects fd now added) c =
    watch (new_check fd index backend writing (now + response_timeout_ms * millisecond)) added
      (open_socket fd c)
start_backend index backend (in_progress fd now added) c =
    watch (new_check fd index backend connecting (now + connect_timeout_ms * millisecond)) added
      (open_socket fd c)

-- The loop, with `left` backends to come from `index` on. `at` throws for an index out of range, and
-- the loop's are all in range.
unfoldable pub start_from : ℕ → ℕ → (ℕ → Probe) → Checker → Checker
unfolding start_backend
start_from zero index probes c = c
start_from (suc left) index probes c = elim (get_backend c.pool index) [
  | none ↦ c
  | some backend ↦ start_from left (index + 1) probes (start_backend index backend (probes index) c)
]

unfoldable pub start : (ℕ → Probe) → Checker → Checker
unfolding start_from active
start probes c =
    if active c then c else start_from (length c.pool) 0 probes (record c { has_pool = true })
