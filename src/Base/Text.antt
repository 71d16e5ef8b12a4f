-- ===== src/Base/Text.antt =====
-- Texts: what the panel uses of the language's strings.
use Prim.Native.Nat.{ℕ, zero, suc, ◌/◌, ◌%◌}
use Prim.Native.String
use Prim.Native.String.{String}
use mathlib.Core.Bool.{Bool, false, ◌||◌}
use mathlib.Core.Option.{Option, none, some}
use mathlib.Core.List.{List, [], ◌∷◌}
use text.Mathlib.Text.{◌==◌, starts_with}
use card_scope.Base.Tests.{ltb, if◌then◌else◌}

-- `a + b`, and a template `${a}${b}`.
infixr 65 ◌&◌
abbrev pub ◌&◌ : String → String → String
a & b = String.◌++◌ a b

-- `a || b` on texts: the empty text is falsy.
abbrev pub or_text : String → String → String
or_text a b = if a == "" then b else a

abbrev pub digit : ℕ → String
digit zero = "0"
digit (suc zero) = "1"
digit (suc (suc zero)) = "2"
digit (suc (suc (suc zero))) = "3"
digit (suc (suc (suc (suc zero)))) = "4"
digit (suc (suc (suc (suc (suc zero))))) = "5"
digit (suc (suc (suc (suc (suc (suc zero)))))) = "6"
digit (suc (suc (suc (suc (suc (suc (suc zero))))))) = "7"
digit (suc (suc (suc (suc (suc (suc (suc (suc zero)))))))) = "8"
digit _ = "9"

-- The decimal digits of a number, with fuel: `n` rounds are more than the digits of `n`.
unfoldable pub show_fuel : ℕ → ℕ → String
show_fuel zero n = digit (n % 10)
show_fuel (suc fuel) n =
    let front = show_fuel fuel (n / 10) & digit (n % 10) in if ltb n 10 then digit n else front

-- `String(n)` of a whole number.
unfoldable pub show : ℕ → String
unfolding show_fuel
show n = show_fuel n n

-- `xs.join(sep)`.
abbrev pub join_after : String → List String → String
join_after sep [] = ""
join_after sep (x ∷ xs) = sep & x & join_after sep xs

abbrev pub join : String → List String → String
join sep [] = ""
join sep (x ∷ xs) = x & join_after sep xs

-- `s.includes(q)`.
unfoldable pub includes : String → String → Bool
includes String.[] q = starts_with String.[] q
includes (String.◌∷◌ c s) q = starts_with (String.◌∷◌ c s) q || includes s q

-- `xs.includes(x)`.
abbrev pub has : List String → String → Bool
has [] x = false
has (y ∷ ys) x = y == x || has ys x

-- `m[key]` of a record of texts, in the order of its entries.
abbrev pub lookup {ℓ} : {V : Type ℓ} → String → List (String × V) → Option V
lookup key [] = none
lookup key ((k, v) ∷ rest) = if k == key then some v else lookup key rest

-- `[...new Set(xs)]`: the first occurrence of each text, in order.
unfoldable pub dedupe_from : List String → List String → List String
dedupe_from seen [] = []
dedupe_from seen (x ∷ xs) =
    let again = dedupe_from seen xs in
    let fresh = x ∷ dedupe_from (x ∷ seen) xs in if has seen x then again else fresh

unfoldable pub dedupe : List String → List String
unfolding dedupe_from
dedupe xs = dedupe_from [] xs

-- `[...s].length`: the number of code points.
abbrev pub points : String → ℕ
points String.[] = 0
points (String.◌∷◌ c s) = suc (points s)
