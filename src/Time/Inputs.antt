-- ===== src/Time/Inputs.antt =====
-- web/src/lib/time.ts: the text of an input for a local time. The browser's `toISOString` writes
-- it, and `new Date(text)` reads it.
--
-- The offset of the local time is the browser's; that of a time is a whole number of minutes. The
-- texts that an input of this kind gives have the pattern below or are empty. A text of a year
-- before 1970 stands for a negative time, which is left out.
use card_scope.Base.{
  ℕ, suc, ◌+◌, ◌-◌, ◌*◌, ◌/◌, ◌%◌, Bool, ◌&&◌, ◌||◌, List, [], ◌∷◌, ◌++◌, Option, none, some,
  String, ltb, leb, nat_eq, ◌&◌, if◌then◌else◌,
}
use card_scope.Time.{Offset, ahead, behind}
use card_scope.Time.Calendar.{year_of, find_month, month_lengths, length_of, day_number}
use card_scope.Time.Patterns.{Part, number, mark, decimal, first_points, written, read_pattern}

-- `YYYY-MM-DDTHH:mm`, but for the year.
abbrev pub to_minutes : List Part
to_minutes =
    mark "-" ∷ number 2 ∷ mark "-" ∷ number 2 ∷ mark "T" ∷ number 2 ∷ mark ":" ∷ number 2 ∷ []

abbrev pub below_minutes : List Part
below_minutes = mark ":" ∷ number 2 ∷ mark "." ∷ number 3 ∷ mark "Z" ∷ []

-- The year, the month and the day, and the time of day.
abbrev pub year_of_time : ℕ → ℕ
year_of_time t = 1970 + (year_of (t / 86400000)).0

abbrev pub day_fields : ℕ → List ℕ
day_fields t =
    let (k, rest) = year_of (t / 86400000) in
    let (m, d) = find_month (month_lengths (1970 + k)) rest in (m + 1) ∷ (d + 1) ∷ []

abbrev pub minute_fields : ℕ → List ℕ
minute_fields t = t / 3600000 % 24 ∷ t / 60000 % 60 ∷ []

abbrev pub second_fields : ℕ → List ℕ
second_fields t = t / 1000 % 60 ∷ t % 1000 ∷ []

-- A year of more than four digits is written with a sign and six digits.
abbrev pub year_text : ℕ → String
year_text y = if ltb y 10000 then decimal 4 y else "+" & decimal 6 y

unfoldable pub to_iso_string : ℕ → String
to_iso_string t =
    year_text (year_of_time t)
    & written (to_minutes ++ below_minutes) ((day_fields t ++ minute_fields t) ++ second_fields t)

-- `date.getTime() - date.getTimezoneOffset() * 60000`.
unfoldable pub shifted : Offset → ℕ → ℕ
shifted (ahead m) t = t + m * 60000
shifted (behind m) t = t - suc m * 60000

-- `localDateInput`, where the date has this offset.
unfoldable pub local_date_input : Offset → ℕ → String
local_date_input offset t = first_points 16 (to_iso_string (shifted offset t))

abbrev pub is_date : ℕ → ℕ → ℕ → Bool
is_date y m d =
    leb 1970 y && leb 1 m && leb m 12 && leb 1 d && leb d (length_of (month_lengths y) (m - 1))

abbrev pub is_clock : ℕ → ℕ → Bool
is_clock h m = ltb h 24 && ltb m 60 || nat_eq h 24 && nat_eq m 0

unfoldable pub wall_time : List ℕ → Option ℕ
wall_time (y ∷ m ∷ d ∷ h ∷ minute ∷ []) =
    if is_date y m d && is_clock h minute
    then some (day_number y (m - 1) (d - 1) * 86400000 + h * 3600000 + minute * 60000)
    else none
wall_time _ = none

-- The time that the text would be in UTC.
abbrev pub of_fields : Option (List ℕ) → Option ℕ
of_fields none = none
of_fields (some fs) = wall_time fs

unfoldable pub wall_clock : String → Option ℕ
wall_clock s = of_fields (read_pattern (number 4 ∷ to_minutes) s)

unfoldable pub unshifted : Offset → ℕ → ℕ
unshifted (ahead m) w = w - m * 60000
unshifted (behind m) w = w + suc m * 60000

-- `new Date(text).getTime()`, where `offset_of` gives the offset that the browser takes for a local
-- time: `none` stands for a value that is no number.
abbrev pub resolved : (ℕ → Offset) → Option ℕ → Option ℕ
resolved offset_of none = none
resolved offset_of (some w) = some (unshifted (offset_of w) w)

unfoldable pub get_time : (ℕ → Offset) → String → Option ℕ
get_time offset_of s = resolved offset_of (wall_clock s)
