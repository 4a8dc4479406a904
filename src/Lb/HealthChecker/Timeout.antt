-- ===== src/Lb/HealthChecker/Timeout.antt =====
-- HealthChecker.cpp: nextTimeoutMs against the deadlines of the checks.
use aorta.Prelude.{
  ℕ, ◌+◌, ◌-◌, ◌*◌, ◌/◌, ◌≤◌, ◌<◌, ◌^◌, ◌≡◌, refl, ℤ, pos, some, [], ◌∷◌, lookup, min, Map,
  UniqueKeys, leb, ◌⊎◌, Bool-cases, leb→le, inl, inr, if◌then◌else◌, arith,
}
use aorta.Lb.Backend.{BackendPool}
use aorta.Lb.HealthChecker.Defs.{Check, Checker, millisecond}
use aorta.Lb.HealthChecker.Events.{earliest_deadline, remaining_ms, next_timeout_ms}
use aorta.Lb.HealthChecker.Run.{Reaches}
use aorta.Lb.HealthChecker.Descriptors.{Reaches-IsLedger}

earliest_deadline-le : (earliest : ℕ) (m : Map Check) → earliest_deadline earliest m ≤ earliest
unfolding earliest_deadline
earliest_deadline-le earliest [] = omega arith
earliest_deadline-le earliest ((k, check) ∷ m) =
    omega (arith, earliest_deadline-le (min earliest check.deadline) m)

earliest_deadline-least :
    (fd earliest : ℕ) (m : Map Check) (check : Check)
    → lookup fd m ≡ some check
    → earliest_deadline earliest m ≤ check.deadline
unfolding earliest_deadline lookup
earliest_deadline-least fd earliest [] check e = cc
earliest_deadline-least fd earliest ((k, other) ∷ m) check e =
    let start = min earliest other.deadline in
    ground (arith, earliest_deadline-le start m, earliest_deadline-least fd start m check)

-- The deadline is a check's, or the one the search started from.
earliest_deadline-attained :
    (earliest : ℕ) (m : Map Check)
    → UniqueKeys m
    → (earliest_deadline earliest m ≡ earliest)
      ⊎ ((fd : ℕ) × (check : Check) × (lookup fd m ≡ some check)
          × (earliest_deadline earliest m ≡ check.deadline))
unfolding earliest_deadline lookup
earliest_deadline-attained earliest [] u = inl refl
earliest_deadline-attained earliest ((k, other) ∷ m) (fresh, u) =
    elim (earliest_deadline-attained (min earliest other.deadline) m u) [
      | inl e ↦ elim (Bool-cases (leb earliest other.deadline)) [
        | inl le ↦ inl (omega (arith, e, leb→le earliest other.deadline le))
        | inr gt ↦ inr (k, other, ground arith, ground (arith, e, gt))
      ]
      | inr (fd, check, found, e) ↦ inr (fd, check, ground (arith, fresh, found), e)
    ]

-- A wait of `t` milliseconds that starts at `now` ends at or before every deadline, or is no wait at
-- all where a check is overdue; and it ends less than one millisecond before some deadline, or after it.
unfoldable pub IsWait : ℕ → Map Check → ℕ → Type 0
IsWait now checks t =
    (((fd : ℕ) (check : Check)
        → lookup fd checks ≡ some check
        → now + t * millisecond ≤ check.deadline)
      ⊎ ((t ≡ 0)
          × ((fd : ℕ) × (check : Check) × (lookup fd checks ≡ some check)
              × (check.deadline ≤ now))))
    × ((fd : ℕ) × (check : Check) × (lookup fd checks ≡ some check)
        × (check.deadline < now + (t + 1) * millisecond))

-- What an int holds in milliseconds, about 24 days.
abbrev pub int_range : ℕ
int_range = 2 ^ 31 * millisecond

lookup-first : (fd : ℕ) (check : Check) (m : Map Check) → lookup fd ((fd, check) ∷ m) ≡ some check
unfolding lookup
lookup-first fd check m = ground arith

-- Ahead of the deadline and within an int's range, the conversions keep the value.
remaining_ms-ahead :
    (earliest now : ℕ)
    → now < earliest
    → earliest < now + int_range
    → remaining_ms earliest now ≡ pos ((earliest - now) / millisecond)
remaining_ms-ahead earliest now h k = ground arith

module _ (now fd : ℕ) (first : Check) (m : Map Check) where
  abbrev checks : Map Check
  checks = (fd, first) ∷ m

  abbrev earliest : ℕ
  earliest = earliest_deadline first.deadline checks

  attained :
      UniqueKeys checks
      → (j : ℕ) × (check : Check) × (lookup j checks ≡ some check) × (earliest ≡ check.deadline)
  attained u = elim (earliest_deadline-attained first.deadline checks u) [
    | inl e ↦ (fd, first, lookup-first fd first m, e)
    | inr found ↦ found
  ]

  overdue-IsWait : UniqueKeys checks → earliest ≤ now → IsWait now checks 0
  unfolding IsWait
  overdue-IsWait u late =
      let (j, check, found, e) = attained u in
      (
        inr (refl, (j, check, found, omega (arith, late, e))),
        (j, check, found, omega (arith, late, e)),
      )

  ahead-IsWait :
      UniqueKeys checks → now < earliest → IsWait now checks ((earliest - now) / millisecond)
  unfolding IsWait
  ahead-IsWait u h =
      let (j, check, found, e) = attained u in
      (
        inl λ i other l. omega (arith, h, earliest_deadline-least i first.deadline checks other l),
        (j, check, found, omega (arith, h, e)),
      )

abbrev waited : ℕ → ℕ → ℤ
waited earliest now = if leb earliest now then pos 0 else remaining_ms earliest now

returned :
    (now j : ℕ) (soon : Check) (m : Map Check) (c : Checker)
    → UniqueKeys m
    → c.checks ≡ m
    → lookup j m ≡ some soon
    → soon.deadline < now + int_range
    → (t : ℕ) × (next_timeout_ms now c ≡ pos t) × IsWait now m t
unfolding next_timeout_ms lookup
returned now j soon [] c u e l near = cc
returned now j soon ((fd, first) ∷ m) c u e l near =
    let start = earliest now fd first m in
    elim (Bool-cases (leb start now)) [
      | inl late ↦ (0, rw (e, late) refl, overdue-IsWait now fd first m u (leb→le start now late))
      | inr early ↦
          let ahead : now < start = ground (arith, early) in
          let least = earliest_deadline-least j first.deadline ((fd, first) ∷ m) soon l in
          (
            (start - now) / millisecond,
            rw (e, early) (remaining_ms-ahead start now ahead (omega (arith, least, near))),
            ahead-IsWait now fd first m u ahead,
          )
    ]

-- In any state that the checker reaches with a check open whose deadline is less than 2^31 milliseconds
-- after now, `nextTimeoutMs` returns a number of milliseconds that is not negative. It is 0 where a
-- check is overdue; otherwise a wait of that length ends at or before every check's deadline; and it
-- ends less than one millisecond before the deadline of some check, or after it.
pub next_timeout_ms-IsWait :
    (pool : BackendPool) (c : Checker) (now fd : ℕ) (check : Check)
    → Reaches pool c
    → lookup fd c.checks ≡ some check
    → check.deadline < now + int_range
    → (t : ℕ) × (next_timeout_ms now c ≡ pos t) × IsWait now c.checks t
next_timeout_ms-IsWait pool c now fd check r l near =
    returned now fd check c.checks c (Reaches-IsLedger r).1 refl l near
