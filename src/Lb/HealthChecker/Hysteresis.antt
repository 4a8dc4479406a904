-- ===== src/Lb/HealthChecker/Hysteresis.antt =====
-- HealthChecker.cpp: when a backend counts as healthy.
use aorta.Prelude.{
  ℕ, zero, suc, ◌≡◌, refl, Bool, true, false, ◌&&◌, none, some, [], ◌∷◌, length, lookup, ltb,
  Bool-cases, inl, inr, if◌then◌else◌, arith,
}
use aorta.Lb.Backend.{Backend, BackendPool, modify}
use aorta.Lb.HealthChecker.Defs.{
  Check, Checker, finish_check, fail_check, update_backend, record_failure, record_success, release,
}
use aorta.Lb.HealthChecker.Start.{
  Probe, unresolved, no_socket, refused, connects, in_progress, start_backend, watch, fail_backend,
  open_socket, close_socket,
}
use aorta.Lb.HealthChecker.Io.{store}
use aorta.Lb.HealthChecker.Events.{cancel_all}
use aorta.Lb.HealthChecker.Run.{IsFresh, Keeps, Reaches, Reaches-Keeps}

-- Healthy below two counted failures, and not from two on.
unfoldable pub IsSettled : Backend → Type 0
IsSettled b = b.healthy ≡ ltb b.consecutive_failures 2

unfoldable pub AllSettled : BackendPool → Type 0
AllSettled [] = Unit {0}
AllSettled (b ∷ pool) = IsSettled b × AllSettled pool

record_failure-IsSettled : (b : Backend) → IsSettled b → IsSettled (record_failure b)
unfolding IsSettled record_failure
record_failure-IsSettled b h = ground arith

record_success-IsSettled : (b : Backend) → IsSettled (record_success b)
unfolding IsSettled record_success
record_success-IsSettled b = refl

modify-AllSettled :
    (i : ℕ) (f : Backend → Backend) (pool : BackendPool)
    → ((b : Backend) → IsSettled b → IsSettled (f b))
    → AllSettled pool
    → AllSettled (modify i f pool)
unfolding AllSettled modify
modify-AllSettled i f [] keeps h = h
modify-AllSettled zero f (b ∷ pool) keeps (first, rest) = (keeps b first, rest)
modify-AllSettled (suc i) f (b ∷ pool) keeps (first, rest) =
    (first, modify-AllSettled i f pool keeps rest)

abbrev Settled : Checker → Type 0
Settled c = AllSettled c.pool

update_backend-Settled :
    (index : ℕ) (f : Backend → Backend) (c : Checker)
    → ((b : Backend) → IsSettled b → IsSettled (f b))
    → Settled c
    → Settled (update_backend index f c)
unfolding update_backend
update_backend-Settled index f c keeps h =
    elim (Bool-cases (c.has_pool && ltb index (length c.pool))) [
      | inl e ↦ rw (e) (modify-AllSettled index f c.pool keeps h)
      | inr e ↦ rw (e) h
    ]

finish_check-Settled :
    (fd : ℕ) (healthy : Bool) (c : Checker) → Settled c → Settled (finish_check fd healthy c)
unfolding finish_check release
finish_check-Settled fd healthy c h =
    elim (lookup fd c.checks)
      as (λ o. Settled (elim o [
        | none ↦ c
        | some check ↦ release fd (
            update_backend check.backend_index (if healthy then record_success else record_failure)
              c)
      ])) [
        | none ↦ h
        | some check ↦
            elim healthy
              as (λ b. Settled (
                update_backend check.backend_index (if b then record_success else record_failure)
                  c)) [
                    | true ↦
                        update_backend-Settled check.backend_index record_success c
                          (λ b k. record_success-IsSettled b) h
                    | false ↦
                        update_backend-Settled check.backend_index record_failure c
                          record_failure-IsSettled h
                  ]
      ]

fail_check-Settled : (fd : ℕ) (c : Checker) → Settled c → Settled (fail_check fd c)
unfolding fail_check release
fail_check-Settled fd c h =
    elim (lookup fd c.checks)
      as (λ o. Settled (elim o [
        | none ↦ c
        | some check ↦ release fd (update_backend check.backend_index record_failure c)
      ])) [
        | none ↦ h
        | some check ↦
            update_backend-Settled check.backend_index record_failure c record_failure-IsSettled h
      ]

fail_backend-Settled : (index : ℕ) (c : Checker) → Settled c → Settled (fail_backend index c)
unfolding fail_backend
fail_backend-Settled index c h =
    modify-AllSettled index record_failure c.pool record_failure-IsSettled h

watch-Settled :
    (check : Check) (added : Bool) (c : Checker) → Settled c → Settled (watch check added c)
unfolding watch close_socket
watch-Settled check true c h = h
watch-Settled check false c h = fail_backend-Settled check.backend_index (close_socket check.fd c) h

start_backend-Settled :
    (index : ℕ) (backend : Backend) (p : Probe) (c : Checker)
    → IsFresh p c
    → Settled c
    → Settled (start_backend index backend p c)
unfolding start_backend open_socket close_socket
start_backend-Settled index backend unresolved c f h = fail_backend-Settled index c h
start_backend-Settled index backend no_socket c f h = fail_backend-Settled index c h
start_backend-Settled index backend (refused fd) c f h =
    fail_backend-Settled index (close_socket fd (open_socket fd c)) h
start_backend-Settled index backend (connects fd now added) c f h =
    watch-Settled _ added (open_socket fd c) h
start_backend-Settled index backend (in_progress fd now added) c f h =
    watch-Settled _ added (open_socket fd c) h

Settled-Keeps : Keeps Settled
unfolding store cancel_all
Settled-Keeps = record {
  attach = λ c h. h;
  probe = start_backend-Settled;
  write = λ fd old check c e e1 e2 h. h;
  finish = finish_check-Settled;
  fail = fail_check-Settled;
  cancel = λ c h. h;
}

-- For a pool that starts so, and after any sequence of the checker's operations, each backend is
-- healthy exactly while its `consecutive_failures` is below two.
pub Reaches-AllSettled :
    (pool : BackendPool) (c : Checker) → AllSettled pool → Reaches pool c → AllSettled c.pool
Reaches-AllSettled pool c h r = Reaches-Keeps Settled-Keeps h r
