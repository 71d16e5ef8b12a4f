-- ===== src/Base/Json.antt =====
-- `JSON.stringify` of a list of two texts, which serves as the key of a `Map`.
pub mod Laws
use Prim.Native.Nat.{ℕ, ◌+◌, ◌-◌, ◌*◌, ◌/◌, ◌%◌, ◌<◌}
use Prim.Native.Char.{Char, code}
use Prim.Native.String
use Prim.Native.String.{String}
use mathlib.Core.Path.{◌≡◌, refl, sym, ap, ◌∙◌}
use mathlib.Core.Logic.{inl, inr}
use mathlib.Core.Bool.{Bool, true, false, ◌&&◌}
use mathlib.Core.Option.{Option, none, some}
use native.Mathlib.Omega.{arith}
use card_scope.Base.Tests.{ltb, nat_eq, Bool-cases, if◌then◌else◌, some_inj}

-- A lower-case hexadecimal digit.
abbrev hex_digit : ℕ → Char
hex_digit n =
    if nat_eq n 0
    then "0"
    else if nat_eq n 1
    then "1"
    else if nat_eq n 2
    then "2"
    else if nat_eq n 3
    then "3"
    else if nat_eq n 4
    then "4"
    else if nat_eq n 5
    then "5"
    else if nat_eq n 6
    then "6"
    else if nat_eq n 7
    then "7"
    else if nat_eq n 8
    then "8"
    else if nat_eq n 9
    then "9"
    else if nat_eq n 10
    then "a"
    else if nat_eq n 11
    then "b"
    else if nat_eq n 12
    then "c"
    else if nat_eq n 13
    then "d"
    else if nat_eq n 14
    then "e"
    else "f"

abbrev escape : Char → String → String
escape c rest = String.◌∷◌ "\\" (String.◌∷◌ c rest)

-- What a character becomes, before the rest of the text.
unfoldable pub quote_char : Char → String → String
quote_char c rest =
    let k = code c in
    if nat_eq k 8
    then escape "b" rest
    else if nat_eq k 9
    then escape "t" rest
    else if nat_eq k 10
    then escape "n" rest
    else if nat_eq k 12
    then escape "f" rest
    else if nat_eq k 13
    then escape "r" rest
    else if nat_eq k 34
    then escape "\"" rest
    else if nat_eq k 92
    then escape "\\" rest
    else if ltb k 32
    then escape "u" (
        String.◌∷◌ "0"
          (String.◌∷◌ "0" (String.◌∷◌ (hex_digit (k / 16)) (String.◌∷◌ (hex_digit (k % 16)) rest))))
    else String.◌∷◌ c rest

unfoldable pub quote_text : String → String → String
quote_text String.[] rest = rest
quote_text (String.◌∷◌ c s) rest = quote_char c (quote_text s rest)

abbrev quoted : String → String → String
quoted s rest = String.◌∷◌ "\"" (quote_text s (String.◌∷◌ "\"" rest))

unfoldable pub stringify_pair : String → String → String
unfolding quote_text
stringify_pair a b = String.◌∷◌ "[" (quoted a (String.◌∷◌ "," (quoted b "]")))
