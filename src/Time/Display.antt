-- ===== src/Time/Display.antt =====
-- web/src/lib/time.ts: the texts of a local time. For "zh-CN" the browser writes a date with
-- slashes and a time with colons, each part but the year in two digits, the hours from 00 to 23.
use card_scope.Base.{ℕ, ◌/◌, ◌%◌, Bool, List, [], ◌∷◌, ◌++◌, String, if◌then◌else◌}
use card_scope.Time.{Offset}
use card_scope.Time.Patterns.{Part, number, mark, written}
use card_scope.Time.Inputs.{year_of_time, day_fields, minute_fields, shifted}

abbrev pub date_pattern : String → List Part
date_pattern sep = number 4 ∷ mark sep ∷ number 2 ∷ mark sep ∷ number 2 ∷ []

abbrev pub minute_pattern : List Part
minute_pattern = number 2 ∷ mark ":" ∷ number 2 ∷ []

abbrev pub second_pattern : List Part
second_pattern = minute_pattern ++ mark ":" ∷ number 2 ∷ []

-- `formatTime(value, seconds)`.
unfoldable pub format_time : Offset → ℕ → Bool → String
format_time offset value seconds =
    let t = shifted offset value in
    if seconds
    then written second_pattern (minute_fields t ++ t / 1000 % 60 ∷ [])
    else written minute_pattern (minute_fields t)

-- `formatDateTime(value)`, of the years to 9999.
unfoldable pub format_date_time : Offset → ℕ → String
format_date_time offset value =
    let t = shifted offset value in
    written (date_pattern "/" ++ mark " " ∷ second_pattern)
      ((year_of_time t ∷ day_fields t) ++ minute_fields t ++ t / 1000 % 60 ∷ [])
