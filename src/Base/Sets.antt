-- ===== src/Base/Sets.antt =====
-- `[...new Set(xs)]` keeps what stands in the list, each text once.
use Prim.Native.String.{String}
use mathlib.Core.Path.{◌≡◌, refl}
use mathlib.Core.Bool.{Bool, false, not, ◌&&◌, ◌||◌}
use mathlib.Core.List.{List, [], ◌∷◌, ◌++◌}
use native.Mathlib.Omega.{arith}
use mathlib.Core.Logic.{◌≢◌}
use text.Mathlib.Text.{◌==◌}
use text.Mathlib.TextEquality.{eq_iff}
use card_scope.Base.Lists.{keep}
use card_scope.Base.Text.{has, dedupe_from, dedupe}

-- No text stands twice in the list.
abbrev pub IsDistinct : List String → Type 0
IsDistinct [] = Unit
IsDistinct (x ∷ xs) = (has xs x ≡ false) × IsDistinct xs

pub has-dedupe_from :
    (seen xs : List String) (x : String)
    → has (dedupe_from seen xs) x ≡ (has xs x && not (has seen x))
unfolding dedupe_from
has-dedupe_from seen [] x = refl
has-dedupe_from seen (y ∷ ys) x =
    ground (arith, has-dedupe_from seen ys x, has-dedupe_from (y ∷ seen) ys x, eq_iff y x)

IsDistinct-dedupe_from : (seen xs : List String) → IsDistinct (dedupe_from seen xs)
unfolding dedupe_from
IsDistinct-dedupe_from seen [] = tt
IsDistinct-dedupe_from seen (y ∷ ys) = ground (
  arith,
  IsDistinct-dedupe_from seen ys,
  IsDistinct-dedupe_from (y ∷ seen) ys,
  has-dedupe_from (y ∷ seen) ys y,
  eq_iff y y,
)

pub has-dedupe : (xs : List String) (x : String) → has (dedupe xs) x ≡ has xs x
unfolding dedupe
has-dedupe xs x = ground (arith, has-dedupe_from [] xs x)

pub IsDistinct-dedupe : (xs : List String) → IsDistinct (dedupe xs)
unfolding dedupe
IsDistinct-dedupe xs = IsDistinct-dedupe_from [] xs

pub has-removed :
    (tag : String) (xs : List String) → has (keep (λ t. not (t == tag)) xs) tag ≡ false
has-removed tag [] = refl
has-removed tag (x ∷ xs) = ground (arith, has-removed tag xs)

pub has-append : (xs ys : List String) (x : String) → has (xs ++ ys) x ≡ (has xs x || has ys x)
has-append [] ys x = refl
has-append (y ∷ xs) ys x = ground (arith, has-append xs ys x)

pub has-kept :
    (name other : String) (xs : List String)
    → other ≢ name
    → has (keep (λ x. not (x == name)) xs) other ≡ has xs other
has-kept name other [] ne = refl
has-kept name other (x ∷ xs) ne =
    ground (arith, has-kept name other xs ne, eq_iff x name, eq_iff x other)

pub has-keep-false :
    (test : String → Bool) (xs : List String) (x : String)
    → has xs x ≡ false
    → has (keep test xs) x ≡ false
has-keep-false test [] x h = refl
has-keep-false test (y ∷ ys) x h = ground (arith, has-keep-false test ys x)

pub keep-IsDistinct :
    (test : String → Bool) (xs : List String) → IsDistinct xs → IsDistinct (keep test xs)
keep-IsDistinct test [] h = tt
keep-IsDistinct test (x ∷ xs) h =
    ground (arith, has-keep-false test xs x h.0, keep-IsDistinct test xs h.1)
