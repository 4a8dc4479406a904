-- ===== src/Lb/HealthChecker/Tests.antt =====
-- HealthChecker: a round of checks on two backends, and its theorems at the states of the round.
use aorta.Prelude.{
  ◌*◌, erase, ℕ, zero, suc, ◌≡◌, refl, true, false, [], ◌∷◌, codes, lookup, map, pos, arith,
}
use aorta.Lb.Backend.{Backend, BackendPool}
use aorta.Lb.HealthChecker.Defs.{Check, connecting, Checker, active, handles, millisecond}
use aorta.Lb.HealthChecker.Start.{Probe, in_progress, connects, request_for, start}
use aorta.Lb.HealthChecker.Io.{sent, received}
use aorta.Lb.HealthChecker.Events.{Event, handle_event, expire, next_timeout_ms}
use aorta.Lb.HealthChecker.Run.{
  fresh_checker, AreFresh, IsFresh, Reaches, constructed, started, handled, timed_out,
}
use aorta.Lb.HealthChecker.Hysteresis.{AllSettled, IsSettled, Reaches-AllSettled}
use aorta.Lb.HealthChecker.Descriptors.{IsLedger, Reaches-IsLedger}
use aorta.Lb.HealthChecker.Deadlines.{open_at, expire-lookup}
use aorta.Lb.HealthChecker.Timeout.{IsWait, next_timeout_ms-IsWait}

abbrev backend : ℕ → Backend
backend port = record {
  host = codes "server1";
  port = port;
  healthy = true;
  consecutive_failures = 0;
  connection_count = 0;
  total_connections = 0;
  failed_connections = 0;
  failovers = 0;
}

abbrev pool : BackendPool
pool = backend 8081 ∷ backend 8082 ∷ []

abbrev probes : ℕ → Probe
probes zero = in_progress 7 0 true
probes (suc i) = connects 8 0 true

abbrev running : Checker
running = start probes (fresh_checker pool)

probes_fresh : AreFresh 2 0 probes (record (fresh_checker pool) { has_pool = true })
unfolding AreFresh IsFresh handles start
probes_fresh = (refl, (refl, tt))

running-Reaches : Reaches pool running
running-Reaches = started (fresh_checker pool) probes constructed probes_fresh

abbrev answered : Event
answered = record {
  readable = true;
  writable = true;
  err_or_hup = true;
  connected_at = 5;
  written_at = 6;
  connect_failed = false;
  sends = sent 200 ∷ [];
  receives = received (codes "HTTP/1.1 2") ∷ received (codes "00 OK") ∷ [];
}

abbrev one_answered : Checker
one_answered = handle_event 8 answered running

abbrev one_timed_out : Checker
one_timed_out = expire (500 * millisecond) one_answered

one_timed_out-Reaches : Reaches pool one_timed_out
one_timed_out-Reaches =
    timed_out one_answered (500 * millisecond) (handled running 8 answered running-Reaches)

running-handles : handles 7 running ≡ true
unfolding handles start
running-handles = refl

answered_finished : handles 8 one_answered ≡ false
unfolding handles start handle_event erase
answered_finished = refl

timed_out_failures : map (λ b. b.consecutive_failures) one_timed_out.pool ≡ 1 ∷ 0 ∷ []
unfolding start handle_event expire erase
timed_out_failures = refl

timed_out_idle : active one_timed_out ≡ false
unfolding start handle_event expire active erase
timed_out_idle = refl

running-active : active running ≡ true
unfolding active start
running-active = refl

pool_settled : AllSettled pool
unfolding AllSettled IsSettled
pool_settled = (refl, (refl, tt))

Reaches-AllSettled_example : AllSettled one_timed_out.pool
Reaches-AllSettled_example =
    Reaches-AllSettled pool one_timed_out pool_settled one_timed_out-Reaches

Reaches-IsLedger_example : IsLedger one_timed_out
Reaches-IsLedger_example = Reaches-IsLedger one_timed_out-Reaches

expire-lookup_example :
    lookup 7 (expire (500 * millisecond) running).checks
    ≡ open_at (500 * millisecond) (lookup 7 running.checks)
expire-lookup_example = expire-lookup pool running (500 * millisecond) 7 running-Reaches

-- The check on descriptor 7 as `start` has opened it.
abbrev opened : Check
unfolding request_for
opened = record {
  fd = 7;
  backend_index = 0;
  state = connecting;
  request = request_for (codes "server1");
  write_offset = 0;
  response = [];
  deadline = 500 * millisecond;
}

next_timeout_ms-IsWait_example :
    (t : ℕ) × (next_timeout_ms 5 running ≡ pos t) × IsWait 5 running.checks t
unfolding start lookup request_for
next_timeout_ms-IsWait_example =
    next_timeout_ms-IsWait pool running 5 7 opened running-Reaches refl (omega arith)

-- An overdue check is not waited for.
overdue_timeout : next_timeout_ms (600 * millisecond) running ≡ pos 0
unfolding next_timeout_ms start
overdue_timeout = refl
