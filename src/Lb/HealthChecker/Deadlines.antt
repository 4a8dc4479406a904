-- ===== src/Lb/HealthChecker/Deadlines.antt =====
-- HealthChecker.cpp: expire against the deadlines of the checks.
use aorta.Prelude.{
  ℕ, ◌≡◌, refl, ap, ◌∙◌, Bool, false, Option, none, some, List, [], ◌∷◌, any, lookup, erase, Map,
  length, ltb, ◌&&◌, UniqueKeys, lookup-erase, leb, Option-cases, Bool-cases, inl, inr, ◌==◌,
  if◌then◌else◌, arith,
}
use aorta.Lb.Backend.{Backend, BackendPool}
use aorta.Lb.HealthChecker.Defs.{
  Check, Checker, fail_check, update_backend, release, record_failure,
}
use aorta.Lb.HealthChecker.Events.{expired, fail_all, expire}
use aorta.Lb.HealthChecker.Run.{Reaches}
use aorta.Lb.HealthChecker.Descriptors.{IsLedger, fail_check-IsLedger, Reaches-IsLedger}

-- A check that is still open at a time.
unfoldable pub open_at : ℕ → Option Check → Option Check
open_at now none = none
open_at now (some check) = if leb check.deadline now then none else some check

fail_check-none : (k : ℕ) (c : Checker) → lookup k c.checks ≡ none → fail_check k c ≡ c
unfolding fail_check
fail_check-none k c e = rw (fail_check, e)

update_backend-checks :
    (index : ℕ) (f : Backend → Backend) (c : Checker) → (update_backend index f c).checks ≡ c.checks
unfolding update_backend
update_backend-checks index f c = elim (Bool-cases (c.has_pool && ltb index (length c.pool))) [
  | inl e ↦ rw e
  | inr e ↦ rw e
]

fail_check-some :
    (k : ℕ) (c : Checker) (check : Check)
    → lookup k c.checks ≡ some check
    → (fail_check k c).checks ≡ erase k c.checks
unfolding fail_check release
fail_check-some k c check e =
    rw (fail_check, e) (ap (erase k) (update_backend-checks check.backend_index record_failure c))

absent :
    (k fd : ℕ) (m : Map Check)
    → lookup k m ≡ none
    → lookup fd m ≡ (if k == fd then none else lookup fd m)
absent k fd m e = ground (arith, e)

fail_check-lookup :
    (k fd : ℕ) (c : Checker)
    → UniqueKeys c.checks
    → lookup fd (fail_check k c).checks ≡ (if k == fd then none else lookup fd c.checks)
fail_check-lookup k fd c u = elim (Option-cases (lookup k c.checks)) [
  | inl e ↦ ap (λ x. lookup fd x.checks) (fail_check-none k c e) ∙ absent k fd c.checks e
  | inr (check, e) ↦ ap (lookup fd) (fail_check-some k c check e) ∙ lookup-erase k fd c.checks u
]

fail_all-lookup :
    (fds : List ℕ) (fd : ℕ) (c : Checker)
    → IsLedger c
    → lookup fd (fail_all fds c).checks
      ≡ (if any (λ x. x == fd) fds then none else lookup fd c.checks)
unfolding fail_all
fail_all-lookup [] fd c l = refl
fail_all-lookup (k ∷ fds) fd c l =
    let rest = fail_all-lookup fds fd (fail_check k c) (fail_check-IsLedger k c l) in
    grind (arith, rest, fail_check-lookup k fd c l.1)

abbrev has_expired : ℕ → Option Check → Bool
has_expired now none = false
has_expired now (some check) = leb check.deadline now

any-expired :
    (now fd : ℕ) (m : Map Check)
    → UniqueKeys m
    → any (λ x. x == fd) (expired now m) ≡ has_expired now (lookup fd m)
unfolding expired lookup
any-expired now fd [] u = refl
any-expired now fd ((k, check) ∷ m) (fresh, u) = ground (arith, any-expired now fd m u, fresh)

open_at-expired :
    (now : ℕ) (o : Option Check) → (if has_expired now o then none else o) ≡ open_at now o
unfolding open_at
open_at-expired now none = refl
open_at-expired now (some check) = refl

-- After `expire`, in any state that the checker reaches, exactly the checks are left whose deadline has
-- not passed, and those as they were.
pub expire-lookup :
    (pool : BackendPool) (c : Checker) (now fd : ℕ)
    → Reaches pool c
    → lookup fd (expire now c).checks ≡ open_at now (lookup fd c.checks)
unfolding expire
expire-lookup pool c now fd r =
    let l = Reaches-IsLedger r in
    fail_all-lookup (expired now c.checks) fd c l
    ∙ ap (λ b. if b then none else lookup fd c.checks) (any-expired now fd c.checks l.1)
    ∙ open_at-expired now (lookup fd c.checks)
