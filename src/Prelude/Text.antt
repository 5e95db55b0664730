-- ===== src/Prelude/Text.antt =====
-- Go's text operations, over the characters of a text.
pub mod Cuts
pub mod Classes
use Prim.Native.Char.{Char, code}
use Prim.Native.Nat.{ℕ, zero, suc, ◌/◌, ◌%◌}
use Prim.Native.String.{String, ◌++◌}
use mathlib.Core.Bool.{Bool, ◌||◌, true, false}
use mathlib.Core.List.{List}
use mathlib.Core.Option.{Option, none, some}
use glidepath.Prelude.Tests.{ltb, eqb, if◌then◌else◌}

-- `fmt.Sprintf` on texts, and `+`: the parts one after the other.
unfoldable pub concat : List String → String
concat List.[] = ""
concat (List.◌∷◌ s r) = s ++ concat r

-- The two values of `strings.Cut`, or that the separator is not there.
pub data Cut : Type 0 where
  found : String → String → Cut
  missing : Cut

abbrev pub before : Char → Cut → Cut
before c (found a b) = found (String.◌∷◌ c a) b
before c missing = missing

-- `strings.Cut(s, sep)` at a separator of one character, given by its code.
unfoldable pub cut : ℕ → String → Cut
cut sep String.[] = missing
cut sep (String.◌∷◌ c s) = if eqb (code c) sep then found String.[] s else before c (cut sep s)

-- `strings.Contains(s, sep)` for one character.
unfoldable pub contains : ℕ → String → Bool
contains sep String.[] = false
contains sep (String.◌∷◌ c s) = eqb (code c) sep || contains sep s

-- `strings.TrimPrefix`, and `strings.HasPrefix` beside it: `none` if the prefix is not there.
unfoldable pub strip_prefix : String → String → Option String
strip_prefix String.[] s = some s
strip_prefix (String.◌∷◌ p ps) String.[] = none
strip_prefix (String.◌∷◌ p ps) (String.◌∷◌ c s) =
    if eqb (code p) (code c) then strip_prefix ps s else none

unfoldable pub has_prefix : String → String → Bool
has_prefix p s = elim (strip_prefix p s) [ none ↦ false | some _ ↦ true ]

-- `strings.Join`.
unfoldable pub join : String → List String → String
join sep List.[] = ""
join sep (List.◌∷◌ s List.[]) = s
join sep (List.◌∷◌ s r) = s ++ (sep ++ join sep r)

-- `strings.Split(s, sep)` at a separator of one character.
abbrev add_char : Char → List String → List String
add_char c List.[] = List.◌∷◌ (String.◌∷◌ c String.[]) List.[]
add_char c (List.◌∷◌ w ws) = List.◌∷◌ (String.◌∷◌ c w) ws

unfoldable pub split : ℕ → String → List String
split sep String.[] = List.◌∷◌ String.[] List.[]
split sep (String.◌∷◌ c s) =
    let rest = split sep s in if eqb (code c) sep then List.◌∷◌ String.[] rest else add_char c rest

-- One decimal digit.
abbrev digit : ℕ → String
digit zero = "0"
digit (suc zero) = "1"
digit (suc (suc zero)) = "2"
digit (suc (suc (suc zero))) = "3"
digit (suc (suc (suc (suc zero)))) = "4"
digit (suc (suc (suc (suc (suc zero))))) = "5"
digit (suc (suc (suc (suc (suc (suc zero)))))) = "6"
digit (suc (suc (suc (suc (suc (suc (suc zero))))))) = "7"
digit (suc (suc (suc (suc (suc (suc (suc (suc zero)))))))) = "8"
digit (suc (suc (suc (suc (suc (suc (suc (suc (suc n))))))))) = "9"

digits_of : ℕ → ℕ → String
digits_of zero n = ""
digits_of (suc f) n =
    let front = digits_of f (n / 10) in if ltb n 10 then digit n else front ++ digit (n % 10)

-- A number as `fmt.Sprint` prints it; it has fewer digits than its value plus one.
unfoldable pub decimal : ℕ → String
unfolding digits_of
decimal n = digits_of (suc n) n
