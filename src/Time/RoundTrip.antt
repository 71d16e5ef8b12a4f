-- ===== src/Time/RoundTrip.antt =====
-- The text of a local time in web/src/lib/time.ts is read back as that time.
use card_scope.Base.{
  ℕ, suc, ◌-◌, ◌*◌, ◌/◌, ◌%◌, ◌<◌, ◌≤◌, ◌≡◌, ◌∙◌, ap, true, List, ◌∷◌, ◌++◌, some, ltb, arith,
}
use card_scope.Time.{Offset, ahead, behind}
use card_scope.Time.Calendar.{date_lem}
use card_scope.Time.Patterns.{
  number, first_points, written, Fits, written-append, first_points-written, read_pattern-written,
}
use card_scope.Time.Inputs.{
  to_minutes, below_minutes, year_of_time, day_fields, minute_fields, second_fields, to_iso_string,
  shifted, local_date_input, wall_time, wall_clock, unshifted, get_time,
}

abbrev pub floor_minute : ℕ → ℕ
floor_minute t = t - t % 60000

abbrev pub all_fields : ℕ → List ℕ
all_fields t = year_of_time t ∷ day_fields t ++ minute_fields t

pub fields-Fits : (t : ℕ) → year_of_time t < 10000 → Fits (number 4 ∷ to_minutes) (all_fields t)
fields-Fits t early =
    let (month, day, short, whole) = date_lem (t / 86400000) in
    (early, (omega arith, (omega arith, (omega arith, (omega arith, tt)))))

pub iso_lem :
    (t : ℕ)
    → year_of_time t < 10000
    → first_points 16 (to_iso_string t) ≡ written (number 4 ∷ to_minutes) (all_fields t)
unfolding to_iso_string written
iso_lem t early =
    let fits = fields-Fits t early in
    let four : ltb (year_of_time t) 10000 ≡ true = ground arith in
    rw four (
      ap (first_points 16)
        (written-append (number 4 ∷ to_minutes) below_minutes (all_fields t) (second_fields t) fits)
      ∙ first_points-written (number 4 ∷ to_minutes) (all_fields t)
          (written below_minutes (second_fields t)) fits)

fields_time : (t : ℕ) → wall_time (all_fields t) ≡ some (floor_minute t)
unfolding wall_time
fields_time t = let (month, within, short, whole) = date_lem (t / 86400000) in ground (arith, whole)

wall_clock-text :
    (t : ℕ)
    → year_of_time t < 10000
    → wall_clock (first_points 16 (to_iso_string t)) ≡ some (floor_minute t)
unfolding wall_clock
wall_clock-text t early = rw (iso_lem t early) (
    rw (read_pattern-written (number 4 ∷ to_minutes) (all_fields t) (fields-Fits t early))
      (fields_time t))

-- The local time is not before 1970.
abbrev pub IsLate : Offset → ℕ → Type 0
IsLate (ahead m) t = Unit
IsLate (behind m) t = suc m * 60000 ≤ t

unshifted-shifted :
    (offset : Offset) (t : ℕ)
    → IsLate offset t
    → unshifted offset (floor_minute (shifted offset t)) ≡ floor_minute t
unfolding shifted unshifted
unshifted-shifted (ahead m) t late = omega arith
unshifted-shifted (behind m) t late = omega arith

-- The text that an input is given for a time is read back as that time without its seconds, in
-- every zone whose offset is a whole number of minutes, if the local time lies in the years 1970 to
-- 9999 and the browser takes the same offset for the local time as for the time itself.
pub get_time-local_date_input :
    (offset_of : ℕ → Offset) (offset : Offset) (t : ℕ)
    → IsLate offset t
    → year_of_time (shifted offset t) < 10000
    → offset_of (floor_minute (shifted offset t)) ≡ offset
    → get_time offset_of (local_date_input offset t) ≡ some (t - t % 60000)
unfolding get_time local_date_input
get_time-local_date_input offset_of offset t late early same =
    rw (wall_clock-text (shifted offset t) early)
      (rw same (ap some (unshifted-shifted offset t late)))
