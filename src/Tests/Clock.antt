-- ===== src/Tests/Clock.antt =====
-- The times of the forms, in New York, where the clocks go back on 2026-11-01.
use mathlib.Core.List.{Memᴰ}
use card_scope.Base.{
  none, ◌≢◌, [], ℕ, ◌-◌, ◌*◌, ◌/◌, ◌%◌, ◌≡◌, refl, true, false, String, ◌&◌, some, ltb, arith,
  if◌then◌else◌,
}
use card_scope.Select.{items, options}
use card_scope.Stats.{day, range}
use card_scope.Stats.Lists.{by_period, children, list, choose}
use card_scope.Stats.Offered.{offered_ranged}
use card_scope.Stats.Defaults.{at_first, IsPlain, range-at_first}
use card_scope.Time.{Offset, ahead, behind}
use card_scope.Time.Calendar.{year_of, find_year, days_in_year, find_month, month_lengths}
use card_scope.Time.Patterns.{decimal, first_points, written}
use card_scope.Time.Inputs.{to_iso_string, shifted, local_date_input, get_time}
use card_scope.Time.Display.{date_pattern, format_time, format_date_time}
use card_scope.Time.Agreement.{date_of, local_date_input-format_time}
use card_scope.Time.HeaderClock.{first, mounted, ticked, visibility_changed, unmounted, step, face}
use card_scope.Time.RoundTrip.{get_time-local_date_input}

abbrev offset_at : ℕ → Offset
offset_at t = if ltb t 1793512800000 then behind 239 else behind 299

-- An hour that comes twice counts as the first one.
abbrev offset_of : ℕ → Offset
offset_of w = if ltb w 1793498400000 then behind 239 else behind 299

calendar : Unit {0}
unfolding year_of find_year days_in_year find_month month_lengths decimal first_points written
    to_iso_string shifted local_date_input
calendar = tt

shanghai_test : local_date_input (ahead 480) 1782907200000 ≡ "2026-07-01T20:00"
unfolding calendar
shanghai_test = refl

new_york_test : local_date_input (offset_at 1793882096000) 1793882096000 ≡ "2026-11-05T07:34"
unfolding calendar
new_york_test = refl

get_time-local_date_input_example :
    get_time offset_of (local_date_input (behind 299) 1793882096000) ≡ some 1793882040000
unfolding calendar
get_time-local_date_input_example =
    get_time-local_date_input offset_of (behind 299) 1793882096000 (omega arith) (omega arith) refl

-- A Thursday, and the one before it.
abbrev moment : ℕ
moment = 1793882096000

abbrev week_before : ℕ
week_before = 1793882096000 - 7 * day

week_before-IsPlain : IsPlain offset_at offset_of week_before
unfolding calendar
week_before-IsPlain = record {
  not_before = omega arith;
  four_digits = omega arith;
  same_offset = refl;
}

moment-IsPlain : IsPlain offset_at offset_of moment
unfolding calendar
moment-IsPlain = record { not_before = omega arith; four_digits = omega arith; same_offset = refl }

range-at_first_example :
    let form = at_first offset_at offset_of 1793882096000 1793882096000 in
    (range 1793882100000 form ≡ some (1793882100000 - 7 * day, 1793882100000))
    × (range 1793882100000 (record form { period = "custom" })
        ≡ some (1793277240000, 1793882040000))
unfolding calendar
range-at_first_example =
    range-at_first offset_at offset_of 1793882096000 1793882096000 1793882100000 (omega arith)
      (omega arith) (omega arith) week_before-IsPlain moment-IsPlain

abbrev offset_at_noon : Offset
offset_at_noon = ahead 345

noon_test :
    (format_time (ahead 480) 1782907200000 true ≡ "20:00:00")
    × (format_time offset_at_noon 1782907200000 true ≡ "17:45:00")
    × (format_date_time (behind 239) 1782907200000 ≡ "2026/07/01 08:00:00")
unfolding calendar format_time format_date_time
noon_test = (refl, refl, refl)

local_date_input-format_time_example :
    let date =
      λ (sep : String). written (date_pattern sep) (date_of (shifted (behind 299) 1793882096000)) in
    (local_date_input (behind 299) 1793882096000
      ≡ date "-" & "T" & format_time (behind 299) 1793882096000 false)
    × (format_date_time (behind 299) 1793882096000
        ≡ date "/" & " " & format_time (behind 299) 1793882096000 true)
    × (format_time (behind 299) 1793882096000 true
        ≡ format_time (behind 299) 1793882096000 false
          & ":"
          & decimal 2 (1793882096000 / 1000 % 60))
unfolding calendar
local_date_input-format_time_example =
    local_date_input-format_time (behind 299) 1793882096000 (omega arith) (omega arith)

-- The clock in the topbar, after a second, and after it is gone.
ticked_test :
    let c = step (step (step (first 1782907200000) mounted) (ticked 1782907201000)) unmounted in
    ((face "Asia/Shanghai" (λ _. ahead 480) c).text ≡ "2026/07/01 20:00:01")
    × ((face "Asia/Shanghai" (λ _. ahead 480) c).date_time ≡ "2026-07-01T12:00:01.000Z")
    × ((step c (visibility_changed 1782907205000)).now ≡ 1782907201000)
unfolding calendar step face format_date_time
ticked_test = (refl, refl, refl)

offered_ranged_example :
    range 1793882100000
      (choose by_period "option:30" (at_first offset_at offset_of 1793882096000 1793882096000))
    ≢ none
unfolding items list children options
offered_ranged_example =
    offered_ranged offset_at offset_of 1793882096000 1793882096000 1793882100000 [] [] (omega arith)
      (omega arith) (omega arith) week_before-IsPlain moment-IsPlain "option:30" "最近 30 天"
      (Memᴰ.tail (Memᴰ.tail (Memᴰ.head refl)))
