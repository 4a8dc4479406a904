-- ===== src/Worker/Sums.antt =====
-- Sums over lists, and what a write changes of them.
use aorta.Prelude.{ℕ, zero, suc, ◌+◌, ◌≡◌, some, List, [], ◌∷◌, ◌++◌, get_elem?, set, arith}

abbrev pub sum {ℓ} : {A : Type ℓ} → (A → ℕ) → List A → ℕ
sum f [] = 0
sum f (x ∷ xs) = f x + sum f xs

pub sum-append {ℓ} :
    {A : Type ℓ} (f : A → ℕ) (xs ys : List A) → sum f (xs ++ ys) ≡ sum f xs + sum f ys
sum-append f [] ys = omega arith
sum-append f (x ∷ xs) ys = omega (arith, sum-append f xs ys)

-- What is written counts in place of what stood there.
pub sum-set {ℓ} :
    {A : Type ℓ} (f : A → ℕ) (xs : List A) (i : ℕ) (v : A) {w : A}
    → get_elem? xs i ≡ some w
    → sum f (set xs i v) + f w ≡ sum f xs + f v
sum-set f [] i v h = cc
sum-set f (x ∷ xs) zero v h = ground (arith, h)
sum-set f (x ∷ xs) (suc i) v h = omega (arith, sum-set f xs i v h)
