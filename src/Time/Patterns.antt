-- ===== src/Time/Patterns.antt =====
-- Texts of a fixed pattern, such as `YYYY-MM-DDTHH:mm`: numbers of a given width, and marks.
use Prim.Native.Char.{code}
use text.Mathlib.TextLemmas.{nil-append, cons-append, append_assoc}
use native.Mathlib.Nat.{pow-succ'}
use text.Mathlib.TextPositions.{eq_refl}
use mathlib.Core.Path.{subst}
use card_scope.Base.{
  ℕ, zero, suc, ◌+◌, ◌^◌, ◌/◌, ◌%◌, ◌<◌, ◌≡◌, refl, ap, sym, total, Bool, true, ◌&&◌, every,
  numbers, every-numbers, List, [], ◌∷◌, ◌++◌, Option, none, some, String, leb, nat_eq, points,
  digit, ◌&◌, ◌==◌, arith, if◌then◌else◌,
}
use card_scope.Base.Decimal.{read_from, read_from-append, read_from-digit}
use card_scope.Select.{slice_from}
use card_scope.Select.Laws.{slice_from-append}

-- The first `n` characters: `s.slice(0, n)`.
unfoldable pub first_points : ℕ → String → String
first_points zero s = ""
first_points (suc n) String.[] = ""
first_points (suc n) (String.◌∷◌ c s) = String.◌∷◌ c (first_points n s)

-- The last `w` decimal digits of a number, with zeros before a shorter one.
unfoldable pub decimal : ℕ → ℕ → String
decimal zero n = ""
decimal (suc w) n = decimal w (n / 10) & digit (n % 10)

unfoldable pub is_digits : String → Bool
is_digits String.[] = true
is_digits (String.◌∷◌ c s) = leb 48 (code c) && leb (code c) 57 && is_digits s

pub data Part : Type 0 where
  number : ℕ → Part
  mark : String → Part

-- The pattern with these numbers in it.
unfoldable pub written : List Part → List ℕ → String
unfolding decimal
written [] ns = ""
written (mark m ∷ ps) ns = m & written ps ns
written (number w ∷ ps) [] = ""
written (number w ∷ ps) (n ∷ ns) = decimal w n & written ps ns

abbrev pub prepend : ℕ → Option (List ℕ) → Option (List ℕ)
prepend n none = none
prepend n (some ns) = some (n ∷ ns)

-- The numbers of a text that follows the pattern.
unfoldable pub read_pattern : List Part → String → Option (List ℕ)
read_pattern [] s = if s == "" then some [] else none
read_pattern (mark m ∷ ps) s =
    let rest = read_pattern ps (slice_from (points m) s) in
    if first_points (points m) s == m then rest else none
read_pattern (number w ∷ ps) s =
    let front = first_points w s in
    let rest = prepend (read_from 0 front) (read_pattern ps (slice_from w s)) in
    if nat_eq (points front) w && is_digits front then rest else none

points-append : (s t : String) → points (s & t) ≡ points s + points t
points-append String.[] t = rw nil-append (omega arith)
points-append (String.◌∷◌ c s) t = rw cons-append (omega (arith, points-append s t))

first_points-append : (p s : String) → first_points (points p) (p & s) ≡ p
unfolding first_points
first_points-append String.[] s = refl
first_points-append (String.◌∷◌ c p) s =
    rw cons-append (ap (String.◌∷◌ c) (first_points-append p s))

is_digits-append : (s t : String) → is_digits (s & t) ≡ is_digits s && is_digits t
unfolding is_digits
is_digits-append String.[] t = rw nil-append refl
is_digits-append (String.◌∷◌ c s) t = rw (cons-append, is_digits-append s t) ground arith

abbrev is_digit_of : ℕ → Bool
is_digit_of n = nat_eq (points (digit n)) 1 && is_digits (digit n)

all_digits : every is_digit_of (numbers 10) ≡ true
unfolding is_digits
all_digits = refl

digit_lem : (n : ℕ) → (points (digit (n % 10)) ≡ 1) × (is_digits (digit (n % 10)) ≡ true)
digit_lem n =
    let known = every-numbers is_digit_of 10 all_digits (n % 10) (omega arith) in
    (ground (arith, known), ground (arith, known))

decimal-points : (w n : ℕ) → points (decimal w n) ≡ w
unfolding decimal
decimal-points zero n = refl
decimal-points (suc w) n =
    rw (points-append (decimal w (n / 10)) (digit (n % 10)))
      (omega (arith, decimal-points w (n / 10), (digit_lem n).0))

decimal-digits : (w n : ℕ) → is_digits (decimal w n) ≡ true
unfolding decimal
decimal-digits zero n = unfold is_digits in refl
decimal-digits (suc w) n =
    rw (is_digits-append (decimal w (n / 10)) (digit (n % 10)))
      (rw (decimal-digits w (n / 10), (digit_lem n).1) refl)

shorter : (w n : ℕ) → n < 10 ^ suc w → n / 10 < 10 ^ w
shorter w n h = omega (arith, pow-succ' 10 w)

-- A number that the width is enough for is read back.
read-decimal : (w n : ℕ) → n < 10 ^ w → read_from 0 (decimal w n) ≡ n
unfolding decimal read_from
read-decimal zero n h = omega arith
read-decimal (suc w) n h = rw (read_from-append 0 (decimal w (n / 10)) (digit (n % 10))) (
    rw (read-decimal w (n / 10) (shorter w n h))
      (omega (arith, read_from-digit (n / 10) (n % 10) (omega arith))))

first_points-decimal : (w n : ℕ) (s : String) → first_points w (decimal w n & s) ≡ decimal w n
first_points-decimal w n s =
    subst (λ k. first_points k (decimal w n & s) ≡ decimal w n) (decimal-points w n)
      (first_points-append (decimal w n) s)

slice_from-decimal : (w n : ℕ) (s : String) → slice_from w (decimal w n & s) ≡ s
slice_from-decimal w n s =
    subst (λ k. slice_from k (decimal w n & s) ≡ s) (decimal-points w n)
      (slice_from-append (decimal w n) s)

-- The numbers fit the pattern: as many as it has, and none longer than its place.
abbrev pub Fits : List Part → List ℕ → Type 0
Fits [] [] = Unit
Fits [] (n ∷ ns) = ⊥
Fits (mark m ∷ ps) ns = Fits ps ns
Fits (number w ∷ ps) [] = ⊥
Fits (number w ∷ ps) (n ∷ ns) = (n < 10 ^ w) × Fits ps ns

same : (n : ℕ) → nat_eq n n ≡ true
same n = ground arith

-- What is written by a pattern is read back by it.
pub read_pattern-written :
    (ps : List Part) (ns : List ℕ) → Fits ps ns → read_pattern ps (written ps ns) ≡ some ns
unfolding read_pattern written
read_pattern-written [] [] h = refl
read_pattern-written [] (n ∷ ns) h = absurd h
read_pattern-written (mark m ∷ ps) ns h =
    rw (first_points-append m (written ps ns), slice_from-append m (written ps ns))
      (rw (read_pattern-written ps ns h, eq_refl m) refl)
read_pattern-written (number w ∷ ps) [] h = absurd h
read_pattern-written (number w ∷ ps) (n ∷ ns) (below, h) =
    rw (first_points-decimal w n (written ps ns), slice_from-decimal w n (written ps ns))
      (rw
        (
          read_pattern-written ps ns h,
          decimal-points w n,
          decimal-digits w n,
          read-decimal w n below,
          same w,
        )
        refl)

pub written-append :
    (ps qs : List Part) (ns ms : List ℕ)
    → Fits ps ns
    → written (ps ++ qs) (ns ++ ms) ≡ written ps ns & written qs ms
unfolding written
written-append [] qs [] ms h = sym (nil-append (written qs ms))
written-append [] qs (n ∷ ns) ms h = absurd h
written-append (mark m ∷ ps) qs ns ms h =
    rw (written-append ps qs ns ms h) (sym (append_assoc m (written ps ns) (written qs ms)))
written-append (number w ∷ ps) qs [] ms h = absurd h
written-append (number w ∷ ps) qs (n ∷ ns) ms (below, h) =
    rw (written-append ps qs ns ms h)
      (sym (append_assoc (decimal w n) (written ps ns) (written qs ms)))

abbrev pub width : Part → ℕ
width (number w) = w
width (mark m) = points m

-- The length of what is written.
pub written-points :
    (ps : List Part) (ns : List ℕ) → Fits ps ns → points (written ps ns) ≡ total width ps
unfolding written
written-points [] [] h = refl
written-points [] (n ∷ ns) h = absurd h
written-points (mark m ∷ ps) ns h =
    rw (points-append m (written ps ns)) (omega (arith, written-points ps ns h))
written-points (number w ∷ ps) [] h = absurd h
written-points (number w ∷ ps) (n ∷ ns) (below, h) =
    rw (points-append (decimal w n) (written ps ns))
      (omega (arith, decimal-points w n, written-points ps ns h))

-- What is written is the first part of a longer text.
pub first_points-written :
    (ps : List Part) (ns : List ℕ) (s : String)
    → Fits ps ns
    → first_points (total width ps) (written ps ns & s) ≡ written ps ns
first_points-written ps ns s h =
    subst (λ k. first_points k (written ps ns & s) ≡ written ps ns) (written-points ps ns h)
      (first_points-append (written ps ns) s)
