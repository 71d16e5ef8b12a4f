-- ===== src/Time/Agreement.antt =====
-- The functions of web/src/lib/time.ts agree on the local time.
use text.Mathlib.TextLemmas.{append-nil}
use card_scope.Base.{
  ℕ, ◌/◌, ◌%◌, ◌<◌, ◌≡◌, ◌∙◌, ap, true, false, List, [], ◌∷◌, ◌++◌, String, ◌&◌, arith,
}
use card_scope.Time.{Offset, ahead, behind}
use card_scope.Time.Patterns.{number, mark, decimal, written, Fits, written-append}
use card_scope.Time.Inputs.{year_of_time, day_fields, minute_fields, shifted, local_date_input}
use card_scope.Time.RoundTrip.{IsLate, fields-Fits, iso_lem}
use card_scope.Time.Display.{
  date_pattern, minute_pattern, second_pattern, format_time, format_date_time,
}

-- The date of a time: the year, the month and the day.
abbrev pub date_of : ℕ → List ℕ
date_of t = year_of_time t ∷ day_fields t

date-Fits : (sep : String) (t : ℕ) → year_of_time t < 10000 → Fits (date_pattern sep) (date_of t)
date-Fits sep t early = let (four, (m, (d, rest))) = fields-Fits t early in (four, (m, (d, tt)))

clock-Fits : (t : ℕ) → Fits minute_pattern (minute_fields t)
clock-Fits t = (omega arith, (omega arith, tt))

-- An offset of whole minutes leaves the seconds as they are.
seconds : (offset : Offset) (t : ℕ) → IsLate offset t → shifted offset t / 1000 % 60 ≡ t / 1000 % 60
unfolding shifted
seconds (ahead m) t late = omega arith
seconds (behind m) t late = omega arith

ends :
    (offset : Offset) (t : ℕ)
    → IsLate offset t
    → format_time offset t true ≡ format_time offset t false & ":" & decimal 2 (t / 1000 % 60)
unfolding format_time written
ends offset t late =
    let now = shifted offset t in
    written-append minute_pattern (mark ":" ∷ number 2 ∷ []) (minute_fields now)
      (now / 1000 % 60 ∷ []) (clock-Fits now)
    ∙ ap
        (λ n.
          written minute_pattern (minute_fields now) & written (mark ":" ∷ number 2 ∷ []) (n ∷ []))
        (seconds offset t late)
    ∙ ap (λ d. written minute_pattern (minute_fields now) & ":" & d)
        (append-nil (decimal 2 (t / 1000 % 60)))

-- An input for a time has the text of its local date and, behind a "T", the time of day that
-- `formatTime` writes for it, without the seconds; `formatDateTime` writes the same date and, behind
-- a space, the time of day with the seconds, which are those of UTC. This holds of each offset, for
-- the years 1970 to 9999.
pub local_date_input-format_time :
    (offset : Offset) (t : ℕ)
    → IsLate offset t
    → year_of_time (shifted offset t) < 10000
    → let date = λ (sep : String). written (date_pattern sep) (date_of (shifted offset t)) in
      (local_date_input offset t ≡ date "-" & "T" & format_time offset t false)
      × (format_date_time offset t ≡ date "/" & " " & format_time offset t true)
      × (format_time offset t true ≡ format_time offset t false & ":" & decimal 2 (t / 1000 % 60))
unfolding local_date_input format_time format_date_time written
local_date_input-format_time offset t late early =
    let now = shifted offset t in
    (
      iso_lem now early
          ∙ written-append (date_pattern "-") (mark "T" ∷ minute_pattern) (date_of now)
              (minute_fields now) (date-Fits "-" now early),
      written-append (date_pattern "/") (mark " " ∷ second_pattern) (date_of now)
          (minute_fields now ++ now / 1000 % 60 ∷ []) (date-Fits "/" now early),
      ends offset t late,
    )
