-- ===== src/Prelude/Decimal.antt =====
-- `std::to_string` of a number that is not negative: its decimal digits.
use Prim.Native.Nat.{ℕ, zero, suc, ◌+◌, ◌-◌, ◌*◌, ◌/◌, ◌%◌, ◌<◌}
use mathlib.Core.Path.{◌≡◌, refl}
use mathlib.Core.List.{[], ◌∷◌, ◌++◌}
use native.Mathlib.Omega.{arith}
use aorta.Prelude.Lists.{null, all, all-append}
use mathlib.Core.Bool.{Bool, true, false, ◌&&◌}
use aorta.Prelude.Tests.{if_intro, ltb, leb, if◌then◌else◌, Bool-cases}
use aorta.Prelude.Text.{Bytes}
use mathlib.Core.Logic.{inl, inr}

-- The digits of `n` on fuel; `suc n` rounds are enough, since `n / 10 < n`.
unfoldable pub digits : ℕ → ℕ → Bytes
digits zero n = []
digits (suc f) n =
    let rest = digits f (n / 10) in
    if ltb n 10 then (b'0' + n) ∷ [] else rest ++ (b'0' + n % 10) ∷ []

unfoldable pub to_string : ℕ → Bytes
to_string n = digits (suc n) n

-- The number that digits stand for, read from the left.
unfoldable pub read_decimal : ℕ → Bytes → ℕ
read_decimal acc [] = acc
read_decimal acc (c ∷ s) = read_decimal (acc * 10 + (c - b'0')) s

pub read_decimal-append :
    (acc : ℕ) (s t : Bytes) → read_decimal acc (s ++ t) ≡ read_decimal (read_decimal acc s) t
unfolding read_decimal
read_decimal-append acc [] t = refl
read_decimal-append acc (c ∷ s) t = read_decimal-append (acc * 10 + (c - b'0')) s t

read_decimal-digits : (f n : ℕ) → n < f → read_decimal 0 (digits f n) ≡ n
unfolding digits read_decimal
read_decimal-digits zero n h = absurd (omega arith)
read_decimal-digits (suc f) n h = elim (Bool-cases (ltb n 10)) [
  | inl small ↦ rw small (omega arith)
  | inr large ↦ rw large (
      ground (
        arith,
        read_decimal-append 0 (digits f (n / 10)) ((b'0' + n % 10) ∷ []),
        read_decimal-digits f (n / 10),
      ))
]

pub read_decimal-to_string : (n : ℕ) → read_decimal 0 (to_string n) ≡ n
unfolding to_string
read_decimal-to_string n = read_decimal-digits (suc n) n (omega arith)

abbrev pub is_decimal : ℕ → Bool
is_decimal c = leb b'0' c && leb c b'9'

digits-decimal : (f n : ℕ) → all is_decimal (digits f n) ≡ true
unfolding digits
digits-decimal zero n = refl
digits-decimal (suc f) n = elim (Bool-cases (ltb n 10)) [
  | inl small ↦ rw small (ground arith)
  | inr large ↦
      rw
        (
          large,
          all-append is_decimal (digits f (n / 10)) ((b'0' + n % 10) ∷ []),
          digits-decimal f (n / 10),
        )
        (ground arith)
]

pub to_string-decimal : (n : ℕ) → all is_decimal (to_string n) ≡ true
unfolding to_string
to_string-decimal n = digits-decimal (suc n) n

null-append_last : (s : Bytes) (c : ℕ) → null (s ++ c ∷ []) ≡ false
null-append_last [] c = refl
null-append_last (d ∷ s) c = refl

pub to_string-null : (n : ℕ) → null (to_string n) ≡ false
unfolding to_string digits
to_string-null n =
    if_intro (λ (s : Bytes). null s ≡ false) (ltb n 10) (λ t. refl)
      (λ t. null-append_last (digits n (n / 10)) (b'0' + n % 10))
