-- ===== src/Lb/HealthChecker/Descriptors.antt =====
-- HealthChecker.cpp: the descriptors that are opened, watched, and closed again.
use aorta.Prelude.{
  ℕ, ◌+◌, ◌≡◌, refl, Bool, true, false, ◌&&◌, none, some, List, [], ◌∷◌, length, lookup, put, erase,
  Map, UniqueKeys, lookup-put, lookup-erase, UniqueKeys-put, UniqueKeys-erase, ltb, Option-cases,
  Bool-cases, inl, inr, ◌==◌, if◌then◌else◌, arith,
}
use aorta.Lb.Backend.{Backend, BackendPool}
use aorta.Lb.HealthChecker.Defs.{
  Check, Checker, Call, opened, watched, unwatched, closed, handles, finish_check, fail_check,
  update_backend, release,
}
use aorta.Lb.HealthChecker.Start.{
  Probe, unresolved, no_socket, refused, connects, in_progress, start_backend, watch, fail_backend,
  open_socket, close_socket, emplace_check, new_check,
}
use aorta.Lb.HealthChecker.Io.{store}
use aorta.Lb.HealthChecker.Events.{cancel_all, release_calls}
use aorta.Lb.HealthChecker.Run.{IsFresh, Keeps, Reaches, Reaches-Keeps}

abbrev bit : Bool → ℕ
bit true = 1
bit false = 0

-- How often a call was made on a descriptor.
unfoldable pub opens : ℕ → List Call → ℕ
opens fd [] = 0
opens fd (opened x ∷ calls) = bit (x == fd) + opens fd calls
opens fd (c ∷ calls) = opens fd calls

unfoldable pub closes : ℕ → List Call → ℕ
closes fd [] = 0
closes fd (closed x ∷ calls) = bit (x == fd) + closes fd calls
closes fd (c ∷ calls) = closes fd calls

unfoldable pub watches : ℕ → List Call → ℕ
watches fd [] = 0
watches fd (watched x ∷ calls) = bit (x == fd) + watches fd calls
watches fd (c ∷ calls) = watches fd calls

unfoldable pub unwatches : ℕ → List Call → ℕ
unwatches fd [] = 0
unwatches fd (unwatched x ∷ calls) = bit (x == fd) + unwatches fd calls
unwatches fd (c ∷ calls) = unwatches fd calls

-- 1 for a descriptor that a check holds.
unfoldable pub held : ℕ → Map Check → ℕ
held fd checks = elim (lookup fd checks) [ none ↦ 0 | some _ ↦ 1 ]

-- Each check stands under its own descriptor.
unfoldable pub IsKeyed : Map Check → Type 0
IsKeyed checks = (fd : ℕ) (check : Check) → lookup fd checks ≡ some check → check.fd ≡ fd

-- Each descriptor was closed as often as opened, and unwatched as often as watched, but once for one
-- that a check holds.
unfoldable pub IsBalanced : Map Check → List Call → Type 0
IsBalanced checks calls =
    (fd : ℕ)
    → (opens fd calls ≡ closes fd calls + held fd checks)
      × (watches fd calls ≡ unwatches fd calls + held fd checks)

abbrev pub IsLedger : Checker → Type 0
IsLedger c = IsKeyed c.checks × UniqueKeys c.checks × IsBalanced c.checks c.calls

abbrev Entries : Map Check → List Call → Type 0
Entries checks calls = IsKeyed checks × UniqueKeys checks × IsBalanced checks calls

held-put :
    (k j : ℕ) (v : Check) (m : Map Check) → held j (put k v m) ≡ (if k == j then 1 else held j m)
unfolding held
held-put k j v m = ground (arith, lookup-put k j v m)

held-erase :
    (k j : ℕ) (m : Map Check) → UniqueKeys m → held j (erase k m) ≡ (if k == j then 0 else held j m)
unfolding held
held-erase k j m u = ground (arith, lookup-erase k j m u)

IsKeyed-put : (k : ℕ) (v : Check) (m : Map Check) → v.fd ≡ k → IsKeyed m → IsKeyed (put k v m)
unfolding IsKeyed
IsKeyed-put k v m e h fd check l = ground (arith, lookup-put k fd v m, h fd check)

IsKeyed-erase : (k : ℕ) (m : Map Check) → UniqueKeys m → IsKeyed m → IsKeyed (erase k m)
unfolding IsKeyed
IsKeyed-erase k m u h fd check l = ground (arith, lookup-erase k fd m u, h fd check)

release-IsLedger :
    (fd : ℕ) (checks : Map Check) (calls : List Call) (check : Check)
    → lookup fd checks ≡ some check
    → Entries checks calls
    → Entries (erase fd checks) (closed fd ∷ unwatched fd ∷ calls)
unfolding IsBalanced opens closes watches unwatches held
release-IsLedger fd checks calls check e (keyed, unique, balanced) = (
  IsKeyed-erase fd checks unique keyed,
  UniqueKeys-erase fd checks unique,
  λ j. (
    ground (arith, balanced j, lookup-erase fd j checks unique),
    ground (arith, balanced j, lookup-erase fd j checks unique),
  ),
)

release_update-IsLedger :
    (fd index : ℕ) (f : Backend → Backend) (c : Checker) (check : Check)
    → lookup fd c.checks ≡ some check
    → IsLedger c
    → IsLedger (release fd (update_backend index f c))
unfolding update_backend release
release_update-IsLedger fd index f c check e l =
    elim (Bool-cases (c.has_pool && ltb index (length c.pool))) [
      | inl t ↦ rw (t) (release-IsLedger fd c.checks c.calls check e l)
      | inr t ↦ rw (t) (release-IsLedger fd c.checks c.calls check e l)
    ]

finish_check-IsLedger :
    (fd : ℕ) (healthy : Bool) (c : Checker) → IsLedger c → IsLedger (finish_check fd healthy c)
unfolding finish_check
finish_check-IsLedger fd healthy c l = elim (Option-cases (lookup fd c.checks)) [
  | inl e ↦ rw (finish_check, e) l
  | inr (check, e) ↦
      rw (finish_check, e) (release_update-IsLedger fd check.backend_index _ c check e l)
]

pub fail_check-IsLedger : (fd : ℕ) (c : Checker) → IsLedger c → IsLedger (fail_check fd c)
unfolding fail_check
fail_check-IsLedger fd c l = elim (Option-cases (lookup fd c.checks)) [
  | inl e ↦ rw (fail_check, e) l
  | inr (check, e) ↦
      rw (fail_check, e) (release_update-IsLedger fd check.backend_index _ c check e l)
]

held-store :
    (k j : ℕ) (v old : Check) (m : Map Check)
    → lookup k m ≡ some old
    → held j (put k v m) ≡ held j m
unfolding held
held-store k j v old m e = ground (arith, lookup-put k j v m)

store-IsLedger :
    (fd : ℕ) (old check : Check) (c : Checker)
    → lookup fd c.checks ≡ some old
    → check.fd ≡ old.fd
    → check.backend_index ≡ old.backend_index
    → IsLedger c
    → IsLedger (store check c)
unfolding store IsBalanced IsKeyed
store-IsLedger fd old check c e same_fd same_index (keyed, unique, balanced) =
    let found : lookup check.fd c.checks ≡ some old = cc (e, same_fd, keyed fd old e) in
    (
      IsKeyed-put check.fd check c.checks refl keyed,
      UniqueKeys-put check.fd check c.checks unique,
      λ j. (
        omega (arith, balanced j, held-store check.fd j check old c.checks found),
        omega (arith, balanced j, held-store check.fd j check old c.checks found),
      ),
    )

-- A new entry for a descriptor that was just opened and is watched.
insert-Entries :
    (check : Check) (checks : Map Check) (calls : List Call)
    → lookup check.fd checks ≡ none
    → Entries checks calls
    → Entries (put check.fd check checks) (watched check.fd ∷ opened check.fd ∷ calls)
unfolding IsBalanced opens closes watches unwatches held
insert-Entries check checks calls e (keyed, unique, balanced) = (
  IsKeyed-put check.fd check checks refl keyed,
  UniqueKeys-put check.fd check checks unique,
  λ j. (
    ground (arith, balanced j, lookup-put check.fd j check checks),
    ground (arith, balanced j, lookup-put check.fd j check checks),
  ),
)

-- A descriptor that was opened and closed at once.
refused-Entries :
    (fd : ℕ) (checks : Map Check) (calls : List Call)
    → Entries checks calls
    → Entries checks (closed fd ∷ opened fd ∷ calls)
unfolding IsBalanced opens closes watches unwatches
refused-Entries fd checks calls (keyed, unique, balanced) =
    (keyed, unique, λ j. (omega (arith, balanced j), omega (arith, balanced j)))

watch-IsLedger :
    (check : Check) (added : Bool) (c : Checker)
    → handles check.fd c ≡ false
    → IsLedger c
    → IsLedger (watch check added (open_socket check.fd c))
unfolding watch open_socket close_socket fail_backend emplace_check handles
watch-IsLedger check true c fresh l = elim (Option-cases (lookup check.fd c.checks)) [
  | inl e ↦ rw (watch, emplace_check, e) (insert-Entries check c.checks c.calls e l)
  | inr (old, e) ↦ absurd (cc)
]
watch-IsLedger check false c fresh l = refused-Entries check.fd c.checks c.calls l

start_backend-IsLedger :
    (index : ℕ) (backend : Backend) (p : Probe) (c : Checker)
    → IsFresh p c
    → IsLedger c
    → IsLedger (start_backend index backend p c)
unfolding start_backend fail_backend open_socket close_socket IsFresh new_check
start_backend-IsLedger index backend unresolved c f l = l
start_backend-IsLedger index backend no_socket c f l = l
start_backend-IsLedger index backend (refused fd) c f l = refused-Entries fd c.checks c.calls l
start_backend-IsLedger index backend (connects fd now added) c f l = watch-IsLedger _ added c f l
start_backend-IsLedger index backend (in_progress fd now added) c f l = watch-IsLedger _ added c f l

module _ (fd : ℕ) where
  release_calls-opens :
      (checks : Map Check) (calls : List Call)
      → (opens fd (release_calls checks calls) ≡ opens fd calls)
        × (watches fd (release_calls checks calls) ≡ watches fd calls)
  unfolding release_calls opens watches
  release_calls-opens [] calls = (refl, refl)
  release_calls-opens ((k, check) ∷ checks) calls =
      release_calls-opens checks (closed k ∷ unwatched k ∷ calls)

  release_calls-closes :
      (checks : Map Check) (calls : List Call)
      → UniqueKeys checks
      → (closes fd (release_calls checks calls) ≡ closes fd calls + held fd checks)
        × (unwatches fd (release_calls checks calls) ≡ unwatches fd calls + held fd checks)
  unfolding release_calls closes unwatches held lookup
  release_calls-closes [] calls u = (omega arith, omega arith)
  release_calls-closes ((k, check) ∷ checks) calls (fresh, u) =
      let rest = release_calls-closes checks (closed k ∷ unwatched k ∷ calls) u in
      (ground (arith, rest, fresh), ground (arith, rest, fresh))

cancel-Entries :
    (checks : Map Check) (calls : List Call)
    → Entries checks calls
    → Entries [] (release_calls checks calls)
unfolding IsBalanced IsKeyed held lookup
cancel-Entries checks calls (keyed, unique, balanced) = (
  λ fd check e. cc,
  tt,
  λ j. (
    omega (
      arith,
      balanced j,
      release_calls-opens j checks calls,
      release_calls-closes j checks calls unique,
    ),
    omega (
      arith,
      balanced j,
      release_calls-opens j checks calls,
      release_calls-closes j checks calls unique,
    ),
  ),
)

cancel_all-IsLedger : (c : Checker) → IsLedger c → IsLedger (cancel_all c)
unfolding cancel_all
cancel_all-IsLedger c l = cancel-Entries c.checks c.calls l

IsLedger-Keeps : Keeps IsLedger
IsLedger-Keeps = record {
  attach = λ c l. l;
  probe = start_backend-IsLedger;
  write = store-IsLedger;
  finish = finish_check-IsLedger;
  fail = fail_check-IsLedger;
  cancel = cancel_all-IsLedger;
}

-- After any sequence of the checker's operations, in which `socket` returns no descriptor that a check
-- still holds: each check stands under its own descriptor, and no two under the same; a descriptor has
-- been opened as often as closed and watched as often as unwatched, and once more if a check holds it.
pub Reaches-IsLedger : {pool : BackendPool} {c : Checker} → Reaches pool c → IsLedger c
unfolding IsBalanced IsKeyed opens closes watches unwatches held lookup
Reaches-IsLedger r = Reaches-Keeps IsLedger-Keeps (λ fd check e. cc, tt, λ j. (refl, refl)) r
