-- ===== src/Http/Ctype.antt =====
-- The character tests of <cctype> that src/http calls, in the "C" locale, and the helpers on
-- text that HttpParser.cpp and HttpRequest.cpp both define.
use aorta.Prelude.{ℕ, ◌+◌, Bool, true, false, ◌&&◌, ◌||◌, [], ◌∷◌, leb, ◌==◌, if◌then◌else◌, Bytes}

abbrev pub within : ℕ → ℕ → ℕ → Bool
within lo hi c = leb lo c && leb c hi

unfoldable pub is_digit : ℕ → Bool
is_digit c = within b'0' b'9' c

unfoldable pub is_alnum : ℕ → Bool
is_alnum c = within b'0' b'9' c || within b'a' b'z' c || within b'A' b'Z' c

unfoldable pub is_xdigit : ℕ → Bool
is_xdigit c = within b'0' b'9' c || within b'a' b'f' c || within b'A' b'F' c

unfoldable pub to_lower : ℕ → ℕ
to_lower c = if within b'A' b'Z' c then c + 32 else c

-- `equalsIgnoreCase`: the two lengths, then each pair of characters.
unfoldable pub equals_ignore_case : Bytes → Bytes → Bool
equals_ignore_case [] [] = true
equals_ignore_case (x ∷ xs) (y ∷ ys) = to_lower x == to_lower y && equals_ignore_case xs ys
equals_ignore_case _ _ = false

abbrev pub is_blank : ℕ → Bool
is_blank c = c == b' ' || c == b'\t'

-- The first loop of `trim`, and the loop that skips the blanks before a header's value.
unfoldable pub skip_blanks : Bytes → Bytes
skip_blanks [] = []
skip_blanks (c ∷ s) = let rest = skip_blanks s in if is_blank c then rest else c ∷ s

abbrev blank_or_cons : ℕ → Bytes → Bytes
blank_or_cons c [] = if is_blank c then [] else c ∷ []
blank_or_cons c (d ∷ s) = c ∷ d ∷ s

-- The second loop of `trim`: blanks at the end go.
unfoldable pub drop_end_blanks : Bytes → Bytes
drop_end_blanks [] = []
drop_end_blanks (c ∷ s) = blank_or_cons c (drop_end_blanks s)

unfoldable pub trim : Bytes → Bytes
unfolding skip_blanks drop_end_blanks
trim s = drop_end_blanks (skip_blanks s)

-- The characters besides letters and digits of a header name or a method.
unfoldable pub is_token_char : ℕ → Bool
unfolding is_alnum
is_token_char c =
    is_alnum c
    || c == b'!'
    || c == b'#'
    || c == b'$'
    || c == b'%'
    || c == b'&'
    || c == 39
    || c == b'*'
    || c == b'+'
    || c == b'-'
    || c == b'.'
    || c == b'^'
    || c == b'_'
    || c == b'`'
    || c == b'|'
    || c == b'~'
