-- ===== src/Prelude/Maps.antt =====
-- `std::unordered_map` with descriptors for keys, as an association list. `put` is `operator[]` with
-- an assignment; it keeps one entry for a key.
use Prim.Native.Nat.{ℕ, ◌+◌}
use mathlib.Core.Path.{◌≡◌, refl, subst}
use mathlib.Core.Logic.{inl, inr}
use mathlib.Core.List.{List, [], ◌∷◌}
use mathlib.Core.Option.{Option, none, some}
use native.Mathlib.Omega.{arith}
use native.Mathlib.Decide.{ℕ_discrete}
use aorta.Prelude.Tests.{◌==◌, ==→≡, Bool-cases, if◌then◌else◌}

abbrev pub Map {ℓ} : Type ℓ → Type ℓ
Map V = List (ℕ × V)

module _ {ℓ} {V : Type ℓ} where
  unfoldable pub lookup : ℕ → Map V → Option V
  lookup k [] = none
  lookup k ((j, v) ∷ m) = if j == k then some v else lookup k m

  unfoldable pub put : ℕ → V → Map V → Map V
  put k v [] = (k, v) ∷ []
  put k v ((j, w) ∷ m) = if j == k then (k, v) ∷ m else (j, w) ∷ put k v m

  unfoldable pub erase : ℕ → Map V → Map V
  erase k [] = []
  erase k ((j, w) ∷ m) = if j == k then m else (j, w) ∷ erase k m

  -- No key stands twice.
  abbrev pub UniqueKeys : Map V → Type ℓ
  UniqueKeys [] = Unit {ℓ}
  UniqueKeys ((k, v) ∷ m) = (lookup k m ≡ none) × UniqueKeys m

  -- The sum of a weight over the entries.
  abbrev pub total : (ℕ → V → ℕ) → Map V → ℕ
  total f [] = 0
  total f ((k, v) ∷ m) = f k v + total f m

module _ {ℓ} {V : Type ℓ} where
  pub lookup-put :
      (k j : ℕ) (v : V) (m : Map V) → lookup j (put k v m) ≡ (if k == j then some v else lookup j m)
  unfolding lookup put
  lookup-put k j v [] = refl
  lookup-put k j v ((i, w) ∷ m) = ground (arith, lookup-put k j v m)

  pub lookup-erase :
      (k j : ℕ) (m : Map V)
      → UniqueKeys m
      → lookup j (erase k m) ≡ (if k == j then none else lookup j m)
  unfolding lookup erase
  lookup-erase k j [] u = ground arith
  lookup-erase k j ((i, w) ∷ m) (fresh, u) = elim (ℕ_discrete i k) [
    | yes e ↦ ground (arith, e, fresh)
    | no ne ↦ ground (arith, lookup-erase k j m u)
  ]

  pub UniqueKeys-put : (k : ℕ) (v : V) (m : Map V) → UniqueKeys m → UniqueKeys (put k v m)
  unfolding lookup put
  UniqueKeys-put k v [] u = (refl, tt)
  UniqueKeys-put k v ((i, w) ∷ m) (fresh, u) = elim (Bool-cases (i == k)) [
    | inl e ↦ rw (e) (subst (λ x. lookup x m ≡ none) (==→≡ i k e) fresh, u)
    | inr e ↦ rw (e) (ground (arith, lookup-put k i v m), UniqueKeys-put k v m u)
  ]

  pub UniqueKeys-erase : (k : ℕ) (m : Map V) → UniqueKeys m → UniqueKeys (erase k m)
  unfolding lookup erase
  UniqueKeys-erase k [] u = u
  UniqueKeys-erase k ((i, w) ∷ m) (fresh, u) = elim (Bool-cases (i == k)) [
    | inl e ↦ rw (e) u
    | inr e ↦ rw (e) (ground (arith, lookup-erase k i m u), UniqueKeys-erase k m u)
  ]

  -- What a write and an erasure change of a sum.
  pub total-put_new :
      (f : ℕ → V → ℕ) (k : ℕ) (v : V) (m : Map V)
      → lookup k m ≡ none
      → total f (put k v m) ≡ total f m + f k v
  unfolding lookup put
  total-put_new f k v [] h = omega arith
  total-put_new f k v ((i, w) ∷ m) h = ground (arith, total-put_new f k v m)

  pub total-put_old :
      (f : ℕ → V → ℕ) (k : ℕ) (v w : V) (m : Map V)
      → lookup k m ≡ some w
      → total f (put k v m) + f k w ≡ total f m + f k v
  unfolding lookup put
  total-put_old f k v w [] h = cc
  total-put_old f k v w ((i, x) ∷ m) h = ground (arith, total-put_old f k v w m)

  pub total-erase :
      (f : ℕ → V → ℕ) (k : ℕ) (w : V) (m : Map V)
      → lookup k m ≡ some w
      → total f (erase k m) + f k w ≡ total f m
  unfolding lookup erase
  total-erase f k w [] h = cc
  total-erase f k w ((i, x) ∷ m) h = ground (arith, total-erase f k w m)
