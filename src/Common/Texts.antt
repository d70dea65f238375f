-- ===== src/Common/Texts.antt =====
-- Texts: template literals as concatenation that computes on its first argument.
use Prim.Native.Char.{code}
use Prim.Native.Nat.{ℕ, zero, suc, ◌/◌, ◌%◌}
use Prim.Native.String.{String}
use mathlib.Core.Bool.{Bool, true, false}
use mathlib.Core.Path.{◌≡◌, refl}
use mathlib.Core.Option.{Option, none, some}
use mathlib.Core.List.{List, [], ◌∷◌}
use text.Mathlib.Text.{◌==◌}
use text.Mathlib.TextEquality.{eq_iff}
use everyup.Common.Tests.{if◌then◌else◌, ltb, nat_eq}

infixr 66 ◌+++◌
abbrev pub ◌+++◌ : String → String → String
String.[] +++ t = t
(String.◌∷◌ c s) +++ t = String.◌∷◌ c (s +++ t)

-- `includes` of an array of texts.
abbrev pub includes : String → List String → Bool
includes k [] = false
includes k (x ∷ xs) = if x == k then true else includes k xs

pub eq_self : (s : String) → (s == s) ≡ true
eq_self s = (eq_iff s s).1 refl

abbrev nth : List String → ℕ → String
nth [] n = ""
nth (x ∷ xs) zero = x
nth (x ∷ xs) (suc n) = nth xs n

abbrev digits : List String
digits =
    "0" ∷ "1" ∷ "2" ∷ "3" ∷ "4" ∷ "5" ∷ "6" ∷ "7" ∷ "8" ∷ "9" ∷ "a" ∷ "b" ∷ "c" ∷ "d" ∷ "e" ∷ "f"
    ∷ []

decimal_from : ℕ → ℕ → String → String
decimal_from zero n acc = acc
decimal_from (suc fuel) n acc =
    let longer = nth digits (n % 10) +++ acc in
    let rest = decimal_from fuel (n / 10) longer in if ltb n 10 then longer else rest

-- A number in a template literal. Each round drops a digit, so n + 1 rounds are enough.
unfoldable pub decimal : ℕ → String
unfolding decimal_from
decimal n = decimal_from (suc n) n ""

-- `byte.toString(16).padStart(2, '0')`.
abbrev pub hex_byte : ℕ → String
hex_byte b = nth digits (b / 16) +++ nth digits (b % 16)

-- `xs.join(',')`.
abbrev pub join_comma : List String → String
join_comma [] = ""
join_comma (x ∷ []) = x
join_comma (x ∷ y ∷ ys) = x +++ "," +++ join_comma (y ∷ ys)

-- `startsWith(prefix)` and `slice(prefix.length)` of a text that starts with it.
abbrev pub after_prefix : String → String → Option String
after_prefix String.[] s = some s
after_prefix (String.◌∷◌ c p) String.[] = none
after_prefix (String.◌∷◌ c p) (String.◌∷◌ d s) =
    let rest = after_prefix p s in if nat_eq (code c) (code d) then rest else none
