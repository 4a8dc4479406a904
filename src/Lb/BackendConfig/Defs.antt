-- ===== src/Lb/BackendConfig/Defs.antt =====
-- BackendConfig.cpp: load, over the text of the file.
use aorta.Prelude.{
  ℕ, suc, Bool, true, false, ◌&&◌, ◌||◌, Option, none, some, List, [], ◌∷◌, if◌then◌else◌, ◌==◌,
  ltb, leb, null, take, drop, find_char, read_decimal, is_decimal, Bytes,
}
use aorta.Lb.Backend.{Backend}

-- `std::stoi`: blanks, a sign, and the digits up to another character. `none` where it throws: without
-- a digit, or out of the range of an int. The result is whether it is negative, and its size.
abbrev pub is_space : ℕ → Bool
is_space c = c == b' ' || (leb 9 c && leb c 13)

unfoldable pub skip_spaces : Bytes → Bytes
skip_spaces [] = []
skip_spaces (c ∷ s) = let rest = skip_spaces s in if is_space c then rest else c ∷ s

unfoldable pub leading_digits : Bytes → Bytes
leading_digits [] = []
leading_digits (c ∷ s) = let rest = leading_digits s in if is_decimal c then c ∷ rest else []

abbrev pub in_int : Bool → ℕ → Bytes → Option (Bool × ℕ)
in_int negative n digits =
    if null digits
    then none
    else if leb n (if negative then 2147483648 else 2147483647)
    then some (negative, n)
    else none

unfoldable pub read_signed : Bool → Bytes → Option (Bool × ℕ)
unfolding leading_digits read_decimal
read_signed negative s = in_int negative (read_decimal 0 (leading_digits s)) (leading_digits s)

unfoldable pub read_int : Bytes → Option (Bool × ℕ)
unfolding read_signed
read_int [] = none
read_int (c ∷ s) =
    if c == b'-'
    then read_signed true s
    else if c == b'+'
    then read_signed false s
    else read_signed false (c ∷ s)

unfoldable pub stoi : Bytes → Option (Bool × ℕ)
unfolding skip_spaces read_int
stoi s = read_int (skip_spaces s)

-- The aggregate that is pushed.
abbrev pub listed_backend : Bytes → ℕ → Backend
listed_backend host port = record {
  host = host;
  port = port;
  healthy = true;
  consecutive_failures = 0;
  connection_count = 0;
  total_connections = 0;
  failed_connections = 0;
  failovers = 0;
}

unfoldable pub with_port : Bytes → Option (Bool × ℕ) → Option Backend
with_port host none = none
with_port host (some (negative, port)) =
    if (negative || port == 0) || ltb 65535 port then none else some (listed_backend host port)

-- The two calls of `getline` on a line: the second fails where nothing is left behind the colon.
unfoldable pub split_line : Option ℕ → Bytes → Option Backend
unfolding with_port stoi
split_line none line = none
split_line (some colon) line =
    if null (drop (suc colon) line)
    then none
    else with_port (take colon line) (stoi (drop (suc colon) line))

unfoldable pub load_line : Bytes → Option Backend
unfolding split_line find_char
load_line [] = none
load_line (c ∷ s) = if c == b'#' then none else split_line (find_char b':' (c ∷ s)) (c ∷ s)

abbrev cons_first : ℕ → List Bytes → List Bytes
cons_first c [] = (c ∷ []) ∷ []
cons_first c (x ∷ xs) = (c ∷ x) ∷ xs

-- What the calls of `getline` on the file yield.
unfoldable pub lines : Bytes → List Bytes
lines [] = []
lines (c ∷ s) = let rest = lines s in if c == b'\n' then [] ∷ rest else cons_first c rest

abbrev pub push_some : Option Backend → List Backend → List Backend
push_some none backends = backends
push_some (some backend) backends = backend ∷ backends

unfoldable pub load_lines : List Bytes → List Backend
unfolding load_line
load_lines [] = []
load_lines (line ∷ lines) = push_some (load_line line) (load_lines lines)

-- `none` for a file that cannot be opened.
unfoldable pub load : Option Bytes → List Backend
unfolding load_lines lines
load none = []
load (some text) = load_lines (lines text)
