-- ===== src/Time/Laws.antt =====
-- The label of a time zone in web/src/lib/time.ts gives the offset back.
use card_scope.Base.{
  ℕ, ◌+◌, ◌*◌, ◌/◌, ◌%◌, ◌<◌, ◌≡◌, refl, sym, ◌∙◌, Bool, true, String, show, points, nat_eq,
  nat_eq-eq, every, numbers, every-numbers, arith, if_both,
}
use card_scope.Base.Decimal.{read_from, read-show, read_from-append}
use card_scope.Time.{Offset, magnitude, pad_start, hours, minutes}

empty_points : (s : String) → nat_eq (points s) 0 ≡ true → read_from 0 s ≡ 0
unfolding read_from
empty_points String.[] h = refl
empty_points (String.◌∷◌ c s) h = absurd (ground arith)

-- Leading zeros do not change the number.
read-pad_start : (s : String) → read_from 0 (pad_start s) ≡ read_from 0 s
unfolding read_from
read-pad_start s =
    if_both (λ t. read_from 0 t ≡ read_from 0 s) (nat_eq (points s) 0) _ _
      (λ empty. sym (empty_points s empty))
      (λ _.
        if_both (λ t. read_from 0 t ≡ read_from 0 s) (nat_eq (points s) 1) _ _
          (λ one. read_from-append 0 "0" s) (λ more. refl))

abbrev is_two_wide : ℕ → Bool
is_two_wide n = nat_eq (points (pad_start (show n))) 2

two_digits : every is_two_wide (numbers 100) ≡ true
unfolding show
two_digits = refl

-- Read as decimal numbers, the hours and the minutes of a label make up the offset, the minutes are
-- below 60, and an offset of less than 100 hours has two digits for each.
pub time_zone_label_lem :
    (offset : Offset)
    → (read_from 0 (hours offset) * 60 + read_from 0 (minutes offset) ≡ magnitude offset)
      × (read_from 0 (minutes offset) < 60)
      × (points (minutes offset) ≡ 2)
      × (magnitude offset < 6000 → points (hours offset) ≡ 2)
unfolding hours minutes
time_zone_label_lem offset =
    let m = magnitude offset in
    let h : read_from 0 (hours offset) ≡ m / 60 =
      read-pad_start (show (m / 60)) ∙ read-show (m / 60) in
    let k : read_from 0 (minutes offset) ≡ m % 60 =
      read-pad_start (show (m % 60)) ∙ read-show (m % 60) in
    let width : (n : ℕ) → n < 100 → points (pad_start (show n)) ≡ 2 =
      λ n below. nat_eq-eq _ 2 (every-numbers is_two_wide 100 two_digits n below) in
    (
      omega (arith, h, k),
      omega (arith, k),
      width (m % 60) (omega arith),
      λ lt. width (m / 60) (omega arith),
    )
