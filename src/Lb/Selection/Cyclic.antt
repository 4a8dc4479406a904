-- ===== src/Lb/Selection/Cyclic.antt =====
-- The cyclic order of the backends that `next_backend_index` goes round by.
use native.Mathlib.Nat.{mod-eq_of_lt, mod_self}
use aorta.Prelude.{
  ℕ, suc, ◌+◌, ◌-◌, ◌%◌, ◌≤◌, ◌<◌, ◌≡◌, ◌≢◌, ap, ◌∙◌, if◌then◌else◌, leb, ◌==◌, arith,
}

-- How many steps round a cycle of `count` lead from one index to another.
unfoldable pub distance : ℕ → ℕ → ℕ → ℕ
distance count from to = if leb from to then to - from else to + count - from

last_index : (n c : ℕ) → n + 1 ≡ c → (n + 1) % c ≡ 0
last_index n c e = ap (λ x. x % c) e ∙ mod_self c

pub next_index : (n c : ℕ) → n < c → (n + 1) % c ≡ (if n + 1 == c then 0 else n + 1)
next_index n c h = grind (arith, last_index n c, λ (p : n + 1 < c). mod-eq_of_lt p)

pub next_index-lt : (n c : ℕ) → n < c → (n + 1) % c < c
next_index-lt n c h = omega arith

pub distance_self : (c n : ℕ) → distance c n n ≡ 0
unfolding distance
distance_self c n = ground arith

pub distance-lt : (c n i : ℕ) → n < c → i < c → distance c n i < c
unfolding distance
distance-lt c n i h k = ground arith

pub distance_next :
    (c n i : ℕ) → n < c → i < c → n ≢ i → distance c n i ≡ suc (distance c ((n + 1) % c) i)
unfolding distance
distance_next c n i h k ne = ground (arith, next_index n c h)

pub distance_zero : (c n i : ℕ) → n < c → i < c → distance c n i ≡ 0 → n ≡ i
unfolding distance
distance_zero c n i h k e = ground arith

-- From an index on the way to another, the rest of the way is not longer.
pub distance_split :
    (c n a b : ℕ)
    → n < c
    → a < c
    → b < c
    → distance c n a ≤ distance c n b
    → distance c a b ≤ distance c n b
unfolding distance
distance_split c n a b h k l le = ground arith
