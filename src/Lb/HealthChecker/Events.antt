-- ===== src/Lb/HealthChecker/Events.antt =====
-- HealthChecker.cpp: handleEvent, expire, nextTimeoutMs and cancelAll.
use aorta.Prelude.{
  ℕ, ℤ, pos, negsuc, sub_ℕ, quotient, to_int, Bool, true, false, ◌&&◌, none, some, List, [], ◌∷◌,
  leb, min, lookup, Map, if◌then◌else◌,
}
use aorta.Lb.HealthChecker.Defs.{
  millisecond, CheckState, connecting, writing, reading, Check, Checker, unwatched, closed,
  fail_check, Call,
}
use aorta.Lb.HealthChecker.Io.{Sent, Received, handle_connect, handle_write, handle_read}

-- The bits of `events` that are tested, and what the system calls and the clock answer while the event
-- is handled.
pub record Event : Type 0 where
  pub readable : Bool
  pub writable : Bool
  pub err_or_hup : Bool
  pub connected_at : ℕ
  pub written_at : ℕ
  pub connect_failed : Bool
  pub sends : List Sent
  pub receives : List Received

unfoldable pub is_state : CheckState → CheckState → Bool
is_state connecting connecting = true
is_state writing writing = true
is_state reading reading = true
is_state _ _ = false

-- One stage of `handleEvent`: `checks.find(fd)`, the test, and the handler.
unfoldable pub stage : ℕ → CheckState → Bool → (Check → Checker → Checker) → Checker → Checker
unfolding is_state
stage fd state flag handler c = elim (lookup fd c.checks) [
  | none ↦ c
  | some check ↦ if is_state check.state state && flag then handler check c else c
]

unfoldable pub handle_event : ℕ → Event → Checker → Checker
unfolding stage handle_connect handle_write handle_read fail_check
handle_event fd e c =
    let connected =
      stage fd connecting e.writable (handle_connect e.connected_at e.connect_failed) c in
    let written = stage fd writing e.writable (handle_write e.written_at e.sends) connected in
    let done = stage fd reading e.readable (handle_read e.receives) written in
    if e.err_or_hup then fail_check fd done else done

-- The descriptors that the first loop of `expire` collects.
unfoldable pub expired : ℕ → Map Check → List ℕ
expired now [] = []
expired now ((fd, check) ∷ checks) =
    if leb check.deadline now then fd ∷ expired now checks else expired now checks

unfoldable pub fail_all : List ℕ → Checker → Checker
unfolding fail_check
fail_all [] c = c
fail_all (fd ∷ fds) c = fail_all fds (fail_check fd c)

unfoldable pub expire : ℕ → Checker → Checker
unfolding expired fail_all
expire now c = fail_all (expired now c.checks) c

-- The loop of `nextTimeoutMs`.
unfoldable pub earliest_deadline : ℕ → Map Check → ℕ
earliest_deadline earliest [] = earliest
earliest_deadline earliest ((fd, check) ∷ checks) =
    earliest_deadline (min earliest check.deadline) checks

-- `duration_cast` of the signed difference, and the conversion of its count to an int.
abbrev pub remaining_ms : ℕ → ℕ → ℤ
remaining_ms earliest now = to_int (quotient (sub_ℕ earliest now) millisecond)

unfoldable pub next_timeout_ms : ℕ → Checker → ℤ
unfolding earliest_deadline
next_timeout_ms now c = elim c.checks [
  | [] ↦ negsuc 0
  | (fd, check) ∷ checks ↦
      let earliest = earliest_deadline check.deadline ((fd, check) ∷ checks) in
      if leb earliest now then pos 0 else remaining_ms earliest now
]

unfoldable pub release_calls : Map Check → List Call → List Call
release_calls [] calls = calls
release_calls ((fd, check) ∷ checks) calls = release_calls checks (closed fd ∷ unwatched fd ∷ calls)

unfoldable pub cancel_all : Checker → Checker
unfolding release_calls
cancel_all c = record c { checks = []; calls = release_calls c.checks c.calls }
