-- ===== src/Http/Parser/Outcome.antt =====
-- HttpParser.cpp, `parse`: how one round of its loop ends.
use aorta.Prelude.{ℕ, Bool, true, false, Option, none, some}
use aorta.Http.Parser.Defs.{Parser, ParseResult}

pub data Outcome : Type 0 where
  continue : Parser → Outcome
  return : ParseResult → Parser → Outcome

infixl 5 ◌>>=◌
unfoldable pub ◌>>=◌ : Outcome → (Parser → Outcome) → Outcome
continue p >>= f = f p
return r p >>= f = return r p

-- `if` between two outcomes, and the two results of a `find` (`npos` first). These and `>>=` stay
-- shut, so that a proof about a round goes through its code branch by branch.
infix 1 if◌then◌else◌
unfoldable pub if◌then◌else◌ : Bool → Outcome → Outcome → Outcome
if true then x else y = x
if false then x else y = y

unfoldable pub on_found : Option ℕ → Outcome → (ℕ → Outcome) → Outcome
on_found none x f = x
on_found (some i) x f = f i
