-- ===== src/Base/Json/Laws.antt =====
-- The key that `JSON.stringify` makes of two texts tells both of them.
use Prim.Native.Nat.{ℕ, ◌+◌, ◌-◌, ◌*◌, ◌/◌, ◌%◌, ◌<◌}
use Prim.Native.Char.{Char, code}
use Prim.Native.String.{String}
use mathlib.Core.Path.{◌≡◌, refl, sym, ap, ◌∙◌}
use mathlib.Core.Bool.{Bool, true, false}
use mathlib.Core.Option.{Option, none, some}
use native.Mathlib.Omega.{arith}
use text.Mathlib.TextLemmas.{tail-eq_of_cons-eq}
use text.Mathlib.TextEquality.{Char-path}
use card_scope.Base.Tests.{ltb, nat_eq, nat_eq-eq, if◌then◌else◌, some_inj}
use card_scope.Base.Lists.{every, numbers, every-numbers}
use card_scope.Base.Json.{hex_digit, quote_char, quote_text, stringify_pair}

abbrev hex_value : ℕ → ℕ
hex_value k = if ltb k 58 then k - 48 else k - 87

-- Reads one character back: its code, and the rest.
decode_hex : String → Option (ℕ × String)
decode_hex (String.◌∷◌ _ (String.◌∷◌ _ (String.◌∷◌ h (String.◌∷◌ l s)))) =
    some (16 * hex_value (code h) + hex_value (code l), s)
decode_hex _ = none

decode_escape : String → Option (ℕ × String)
unfolding decode_hex
decode_escape String.[] = none
decode_escape (String.◌∷◌ c s) =
    let k = code c in
    if nat_eq k 98
    then some (8, s)
    else if nat_eq k 116
    then some (9, s)
    else if nat_eq k 110
    then some (10, s)
    else if nat_eq k 102
    then some (12, s)
    else if nat_eq k 114
    then some (13, s)
    else if nat_eq k 117
    then decode_hex s
    else some (k, s)

decode : String → Option (ℕ × String)
unfolding decode_escape
decode String.[] = none
decode (String.◌∷◌ c s) = if nat_eq (code c) 92 then decode_escape s else some (code c, s)

-- Whether the text begins with a quotation mark.
starts_quote : String → Bool
starts_quote String.[] = false
starts_quote (String.◌∷◌ c s) = nat_eq (code c) 34

abbrev hex_agrees : ℕ → Bool
hex_agrees n = nat_eq (hex_value (code (hex_digit n))) n

hex_values : every hex_agrees (numbers 16) ≡ true
hex_values = refl

hex_value-digit : (n : ℕ) → n < 16 → hex_value (code (hex_digit n)) ≡ n
hex_value-digit n below = nat_eq-eq _ n (every-numbers hex_agrees 16 hex_values n below)

decode-quote_char : (c : Char) (rest : String) → decode (quote_char c rest) ≡ some (code c, rest)
unfolding decode quote_char
decode-quote_char c rest =
    ground (arith, hex_value-digit (code c / 16), hex_value-digit (code c % 16))

mark : (x : String) → starts_quote (String.◌∷◌ "\"" x) ≡ true
unfolding starts_quote
mark x = refl

starts_quote-quote_char : (c : Char) (rest : String) → starts_quote (quote_char c rest) ≡ false
unfolding starts_quote quote_char
starts_quote-quote_char c rest = ground arith

quote_text_inj :
    (s t x y : String)
    → quote_text s (String.◌∷◌ "\"" x) ≡ quote_text t (String.◌∷◌ "\"" y)
    → (s ≡ t) × (x ≡ y)
unfolding quote_text
quote_text_inj String.[] String.[] x y e = (refl, tail-eq_of_cons-eq e)
quote_text_inj String.[] (String.◌∷◌ d t) x y e =
    cc (ap starts_quote e ∙ starts_quote-quote_char d (quote_text t (String.◌∷◌ "\"" y)), mark x)
quote_text_inj (String.◌∷◌ c s) String.[] x y e =
    cc (
      sym (ap starts_quote e) ∙ starts_quote-quote_char c (quote_text s (String.◌∷◌ "\"" x)),
      mark y,
    )
quote_text_inj (String.◌∷◌ c s) (String.◌∷◌ d t) x y e =
    let same = some_inj (sym (decode-quote_char c _) ∙ ap decode e ∙ decode-quote_char d _) in
    let (tails, rests) = quote_text_inj s t x y (ap (λ p. p.1) same) in
    (cc (Char-path c d (ap (λ p. p.0) same), tails), rests)

-- The two texts of a key can be told from it.
pub stringify_pair_inj :
    (a b c d : String) → stringify_pair a b ≡ stringify_pair c d → (a ≡ c) × (b ≡ d)
unfolding stringify_pair
stringify_pair_inj a b c d e =
    let (first, rest) = quote_text_inj a c _ _ (tail-eq_of_cons-eq (tail-eq_of_cons-eq e)) in
    let (second, _) = quote_text_inj b d _ _ (tail-eq_of_cons-eq (tail-eq_of_cons-eq rest)) in
    (first, second)
