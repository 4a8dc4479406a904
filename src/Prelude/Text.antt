-- ===== src/Prelude/Text.antt =====
-- Byte strings as lists of numbers: the searches and slices of `std::string` that the sources
-- use, and the 64-bit subtraction of `std::size_t`.
use Prim.Native.Char.{code}
use Prim.Native.Nat.{ℕ, suc, ◌+◌, ◌-◌, ◌≤◌, ◌<◌}
use Prim.Native.String.{String}
use mathlib.Core.Path.{◌≡◌, refl, ap₂}
use mathlib.Core.Logic.{inl, inr}
use mathlib.Core.Bool.{Bool, true, false, not, ◌&&◌}
use mathlib.Core.List.{List, [], ◌∷◌, ◌++◌}
use mathlib.Core.Option.{Option, none, some}
use native.Mathlib.Omega.{arith}
use aorta.Prelude.Lists.{length, take, drop, all, both_left, both_right}
use aorta.Prelude.Tests.{◌==◌, ==→≡, ==-self, Bool-cases, ltb, leb, if◌then◌else◌}

abbrev pub Bytes : Type 0
Bytes = List ℕ

-- The bytes of an ASCII literal.
abbrev pub codes : String → Bytes
codes String.[] = []
codes (String.◌∷◌ c s) = code c ∷ codes s

-- `a - b` on `std::size_t`, for operands below 2^64.
abbrev pub sub_size : ℕ → ℕ → ℕ
sub_size a b = if ltb a b then a + 0x1_0000_0000_0000_0000 - b else a - b

-- `operator==` of two strings.
unfoldable pub eq_bytes : Bytes → Bytes → Bool
eq_bytes [] [] = true
eq_bytes (x ∷ xs) (y ∷ ys) = x == y && eq_bytes xs ys
eq_bytes _ _ = false

-- `starts_with`.
unfoldable pub starts_with : Bytes → Bytes → Bool
starts_with s [] = true
starts_with [] (p ∷ ps) = false
starts_with (c ∷ s) (p ∷ ps) = c == p && starts_with s ps

abbrev pub shift_found : Option ℕ → Option ℕ
shift_found none = none
shift_found (some i) = some (suc i)

-- `find` of a character and of a string: the offset of the first occurrence.
unfoldable pub find_char : ℕ → Bytes → Option ℕ
find_char c [] = none
find_char c (x ∷ xs) = let rest = find_char c xs in if x == c then some 0 else shift_found rest

unfoldable pub find_text : Bytes → Bytes → Option ℕ
unfolding starts_with
find_text t [] = if starts_with [] t then some 0 else none
find_text t (x ∷ xs) =
    let rest = find_text t xs in if starts_with (x ∷ xs) t then some 0 else shift_found rest

-- `find("\r\n")`.
unfoldable pub find_crlf : Bytes → Option ℕ
find_crlf [] = none
find_crlf (x ∷ []) = none
find_crlf (x ∷ y ∷ ys) =
    let rest = find_crlf (y ∷ ys) in if x == b'\r' && y == b'\n' then some 0 else shift_found rest

abbrev offset_by : ℕ → Option ℕ → Option ℕ
offset_by k none = none
offset_by k (some i) = some (k + i)

-- `find(…, from)`: a position in the whole string. A start past the end finds nothing.
abbrev pub find_char_from : ℕ → Bytes → ℕ → Option ℕ
find_char_from c s from = offset_by from (find_char c (drop from s))

abbrev pub find_crlf_from : Bytes → ℕ → Option ℕ
find_crlf_from s from = offset_by from (find_crlf (drop from s))

-- `substr(from, count)` and `substr(from)`, for `from` within the string.
abbrev pub substr : Bytes → ℕ → ℕ → Bytes
substr s from n = take n (drop from s)

abbrev pub is_found : Option ℕ → Bool
is_found none = false
is_found (some i) = true

-- `ends_with`.
unfoldable pub ends_with : Bytes → Bytes → Bool
unfolding eq_bytes
ends_with s t = leb (length t) (length s) && eq_bytes (drop (length s - length t) s) t

pub eq_bytes_sound : (s t : Bytes) → eq_bytes s t ≡ true → s ≡ t
unfolding eq_bytes
eq_bytes_sound [] [] h = refl
eq_bytes_sound [] (y ∷ t) h = cc
eq_bytes_sound (x ∷ s) [] h = cc
eq_bytes_sound (x ∷ s) (y ∷ t) h = elim (Bool-cases (x == y)) [
  | inl e ↦ ap₂ ◌∷◌ (==→≡ x y e) (eq_bytes_sound s t (rw e at h))
  | inr e ↦ cc
]

pub eq_bytes_self : (s : Bytes) → eq_bytes s s ≡ true
unfolding eq_bytes
eq_bytes_self [] = refl
eq_bytes_self (x ∷ s) = rw (==-self x) (eq_bytes_self s)

not_both : {b : Bool} → b ≡ true → not b ≡ true → ⊥
not_both h k = cc

pub starts_with_sound : (s p : Bytes) → starts_with s p ≡ true → s ≡ p ++ drop (length p) s
unfolding starts_with
starts_with_sound s [] h = refl
starts_with_sound [] (p ∷ ps) h = cc
starts_with_sound (c ∷ s) (p ∷ ps) h = elim (Bool-cases (c == p)) [
  | inl e ↦ ap₂ ◌∷◌ (==→≡ c p e) (starts_with_sound s ps (rw e at h))
  | inr e ↦ cc
]

pub find_char-append :
    (c : ℕ) (s t : Bytes)
    → all (λ x. not (x == c)) s ≡ true
    → find_char c (s ++ c ∷ t) ≡ some (length s)
unfolding find_char
find_char-append c [] t h = rw (==-self c) refl
find_char-append c (x ∷ s) t h = elim (Bool-cases (x == c)) [
  | inl e ↦ absurd (not_both e (both_left (not (x == c)) _ h))
  | inr e ↦ rw (e, find_char-append c s t (both_right (not (x == c)) _ h)) refl
]

pub find_char-absent : (c : ℕ) (s : Bytes) → all (λ x. not (x == c)) s ≡ true → find_char c s ≡ none
unfolding find_char
find_char-absent c [] h = refl
find_char-absent c (x ∷ s) h = elim (Bool-cases (x == c)) [
  | inl e ↦ absurd (not_both e (both_left (not (x == c)) _ h))
  | inr e ↦ rw (e, find_char-absent c s (both_right (not (x == c)) _ h)) refl
]

pub find_char-lt : (c : ℕ) (s : Bytes) {i : ℕ} → find_char c s ≡ some i → i < length s
unfolding find_char
find_char-lt c [] h = ground arith
find_char-lt c (x ∷ xs) h = grind (arith, find_char-lt c xs)

pub find_crlf-lt : (s : Bytes) {i : ℕ} → find_crlf s ≡ some i → i + 2 ≤ length s
unfolding find_crlf
find_crlf-lt [] h = ground arith
find_crlf-lt (x ∷ []) h = ground arith
find_crlf-lt (x ∷ y ∷ ys) h = grind (arith, find_crlf-lt (y ∷ ys))
