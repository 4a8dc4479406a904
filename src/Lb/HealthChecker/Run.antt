-- ===== src/Lb/HealthChecker/Run.antt =====
-- HealthChecker.cpp: the states that its operations reach, in any order.
use aorta.Prelude.{
  ℕ, zero, suc, ◌+◌, ◌≡◌, refl, Bool, true, false, ◌&&◌, none, some, List, [], ◌∷◌, length, lookup,
  Option-cases, Bool-cases, inl, inr, if◌then◌else◌,
}
use aorta.Lb.Backend.{Backend, BackendPool, get_backend}
use aorta.Lb.HealthChecker.Defs.{
  CheckState, connecting, writing, reading, Check, Checker, handles, active, finish_check,
  fail_check,
}
use aorta.Lb.HealthChecker.Start.{
  Probe, unresolved, no_socket, refused, connects, in_progress, start_backend, start_from, start,
}
use aorta.Lb.HealthChecker.Io.{
  Sent, Received, store, handle_connect, handle_write, end_write, handle_read, read_loop, end_read,
  IoEnd, waits, breaks, completes, read_waits, read_fails, read_finishes,
}
use aorta.Lb.HealthChecker.Events.{
  Event, is_state, stage, handle_event, expired, fail_all, expire, cancel_all,
}

abbrev pub fresh_checker : BackendPool → Checker
fresh_checker pool = record { checks = []; has_pool = false; pool = pool; calls = [] }

-- `socket` returns no descriptor that a check still holds.
unfoldable pub IsFresh : Probe → Checker → Type 0
IsFresh unresolved c = Unit {0}
IsFresh no_socket c = Unit {0}
IsFresh (refused fd) c = handles fd c ≡ false
IsFresh (connects fd now added) c = handles fd c ≡ false
IsFresh (in_progress fd now added) c = handles fd c ≡ false

-- The same of each descriptor that `start_from` is given, at its time.
unfoldable pub AreFresh : ℕ → ℕ → (ℕ → Probe) → Checker → Type 0
AreFresh zero index probes c = Unit {0}
AreFresh (suc left) index probes c = elim (get_backend c.pool index) [
  | none ↦ Unit {0}
  | some backend ↦
      IsFresh (probes index) c
      × AreFresh left (index + 1) probes (start_backend index backend (probes index) c)
]

pub data Reaches (pool : BackendPool) : Checker → Type 0 where
  constructed : Reaches pool (fresh_checker pool)
  started :
      (c : Checker) (probes : ℕ → Probe)
      → Reaches pool c
      → AreFresh (length c.pool) 0 probes (record c { has_pool = true })
      → Reaches pool (start probes c)
  handled : (c : Checker) (fd : ℕ) (e : Event) → Reaches pool c → Reaches pool (handle_event fd e c)
  timed_out : (c : Checker) (now : ℕ) → Reaches pool c → Reaches pool (expire now c)
  cancelled : (c : Checker) → Reaches pool c → Reaches pool (cancel_all c)

-- What a property of the checker has to be kept by, for the operations to keep it.
pub record Keeps (P : Checker → Type 0) : Type 0 where
  pub attach : (c : Checker) → P c → P (record c { has_pool = true })
  pub probe :
      (index : ℕ) (backend : Backend) (p : Probe) (c : Checker)
      → IsFresh p c
      → P c
      → P (start_backend index backend p c)
  pub write :
      (fd : ℕ) (old check : Check) (c : Checker)
      → lookup fd c.checks ≡ some old
      → check.fd ≡ old.fd
      → check.backend_index ≡ old.backend_index
      → P c
      → P (store check c)
  pub finish : (fd : ℕ) (healthy : Bool) (c : Checker) → P c → P (finish_check fd healthy c)
  pub fail : (fd : ℕ) (c : Checker) → P c → P (fail_check fd c)
  pub cancel : (c : Checker) → P c → P (cancel_all c)

module _ {P : Checker → Type 0} (k : Keeps P) where
  start_from_keeps :
      (left index : ℕ) (probes : ℕ → Probe) (c : Checker)
      → AreFresh left index probes c
      → P c
      → P (start_from left index probes c)
  unfolding start_from AreFresh
  start_from_keeps zero index probes c fresh p = p
  start_from_keeps (suc left) index probes c fresh p =
      let next : Backend → Checker = λ backend. start_backend index backend (probes index) c in
      (elim (get_backend c.pool index)
          as (λ o.
            (elim o as (λ x. Type 0) [
              | none ↦ Unit {0}
              | some backend ↦
                  IsFresh (probes index) c × AreFresh left (index + 1) probes (next backend)
            ])
            → P (elim o [
              | none ↦ c
              | some backend ↦ start_from left (index + 1) probes (next backend)
            ])) [
              | none ↦ λ f. p
              | some backend ↦ λ f.
                  start_from_keeps left (index + 1) probes (next backend) f.1
                    (k.probe index backend (probes index) c f.0 p)
            ])
        fresh

  if_keeps : (b : Bool) (x y : Checker) → P x → P y → P (if b then x else y)
  if_keeps true x y p q = p
  if_keeps false x y p q = q

  start_keeps :
      (probes : ℕ → Probe) (c : Checker)
      → AreFresh (length c.pool) 0 probes (record c { has_pool = true })
      → P c
      → P (start probes c)
  unfolding start
  start_keeps probes c fresh p =
      if_keeps (active c) c _ p (start_from_keeps (length c.pool) 0 probes _ fresh (k.attach c p))

  -- A handler that is given the check that its descriptor stands under.
  abbrev Handler : (Check → Checker → Checker) → Type 0
  Handler handler =
      (fd : ℕ) (check : Check) (c : Checker)
      → lookup fd c.checks ≡ some check
      → P c
      → P (handler check c)

  handle_connect_keeps : (now : ℕ) (failed : Bool) → Handler (handle_connect now failed)
  unfolding handle_connect
  handle_connect_keeps now true fd check c e p = k.fail check.fd c p
  handle_connect_keeps now false fd check c e p = k.write fd check _ c e refl refl p

  end_write_keeps : (now : ℕ) (r : IoEnd × ℕ) → Handler (λ check. end_write now check r)
  unfolding end_write
  end_write_keeps now (waits, offset) fd check c e p = k.write fd check _ c e refl refl p
  end_write_keeps now (breaks, offset) fd check c e p = k.fail check.fd c p
  end_write_keeps now (completes, offset) fd check c e p = k.write fd check _ c e refl refl p

  handle_write_keeps : (now : ℕ) (answers : List Sent) → Handler (handle_write now answers)
  unfolding handle_write
  handle_write_keeps now answers fd check c e p = end_write_keeps now _ fd check c e p

  handle_read_keeps : (answers : List Received) → Handler (handle_read answers)
  unfolding handle_read end_read
  handle_read_keeps answers fd check c e p =
      elim (read_loop answers check.response) as (λ r. P (end_read check r c)) [
        | read_waits response ↦ k.write fd check _ c e refl refl p
        | read_fails ↦ k.fail check.fd c p
        | read_finishes healthy ↦ k.finish check.fd healthy c p
      ]

  stage_keeps :
      (fd : ℕ) (state : CheckState) (flag : Bool) (handler : Check → Checker → Checker)
      (c : Checker)
      → Handler handler
      → P c
      → P (stage fd state flag handler c)
  unfolding stage
  stage_keeps fd state flag handler c keeps p = elim (Option-cases (lookup fd c.checks)) [
    | inl e ↦ rw (stage, e) p
    | inr (check, e) ↦ elim (Bool-cases (is_state check.state state && flag)) [
      | inl t ↦ rw (stage, e, t) (keeps fd check c e p)
      | inr t ↦ rw (stage, e, t) p
    ]
  ]

  handle_event_keeps : (fd : ℕ) (e : Event) (c : Checker) → P c → P (handle_event fd e c)
  unfolding handle_event
  handle_event_keeps fd e c p =
      let connected =
        stage_keeps fd connecting e.writable _ c
          (handle_connect_keeps e.connected_at e.connect_failed) p in
      let written =
        stage_keeps fd writing e.writable _ _ (handle_write_keeps e.written_at e.sends) connected in
      let done = stage_keeps fd reading e.readable _ _ (handle_read_keeps e.receives) written in
      if_keeps e.err_or_hup _ _ (k.fail fd _ done) done

  fail_all_keeps : (fds : List ℕ) (c : Checker) → P c → P (fail_all fds c)
  unfolding fail_all
  fail_all_keeps [] c p = p
  fail_all_keeps (fd ∷ fds) c p = fail_all_keeps fds (fail_check fd c) (k.fail fd c p)

  pub Reaches-Keeps :
      {pool : BackendPool} {c : Checker} → P (fresh_checker pool) → Reaches pool c → P c
  unfolding expire
  Reaches-Keeps begin constructed = begin
  Reaches-Keeps begin (started c probes r fresh) =
      start_keeps probes c fresh (Reaches-Keeps begin r)
  Reaches-Keeps begin (handled c fd e r) = handle_event_keeps fd e c (Reaches-Keeps begin r)
  Reaches-Keeps begin (timed_out c now r) =
      fail_all_keeps (expired now c.checks) c (Reaches-Keeps begin r)
  Reaches-Keeps begin (cancelled c r) = k.cancel c (Reaches-Keeps begin r)
